-- ===== src/Schema/Dedup.antt =====
-- engine/app/schema/dedup.py and dedup_scan.py: each composite field is a canonical one or an alias of
-- one under the same head. The embedder, pgvector's cosine and the model's verdict are parameters.
pub mod Rows
pub mod Canonical
pub mod Merged
pub mod Invariant
pub mod Settled
use structured_chaos.Prelude.{
  Bool, List, Option, String, String-Eq, [], false, if◌then◌else◌, leb, ltb, none, or_else, some, ℕ,
  ℕ-Eq, ◌∷◌,
}
use structured_chaos.Store.Registry.{
  EmergentField, Registry, list_undeduped_variants, nearest_canonical_field,
  set_field_embedding_canonical,
}

-- 0.85 and 0.70
abbrev pub merge_tau : ℕ
merge_tau = 8500

abbrev pub admit_tau : ℕ
admit_tau = 7000

pub record DedupTools : Type 0 where
  pub embed : String → String  -- the embedder on `_name_text`, as `_vec_literal` writes it
  pub similarity : String → String → ℕ
  pub adjudicate : String → String → Option Bool  -- `verdict.get("same") is True`; `none`: an error

pub data Method : Type 0 where
  seed merge admit_new llm_merge llm_admit : Method

-- `_adjudicate` fails safe: an error does not merge.
unfoldable pub adjudicated : DedupTools → String → String → Bool
adjudicated tools a b = or_else (tools.adjudicate a b) false

abbrev pub gate : DedupTools → EmergentField → Option (EmergentField × ℕ) → String × Method
gate tools e none = (e.field_name_hash, seed)
gate tools e (some (c, sim)) =
    if leb merge_tau sim
    then (c.field_name_hash, merge)
    else if ltb sim admit_tau
    then (e.field_name_hash, admit_new)
    else if adjudicated tools e.field_name c.field_name
    then (c.field_name_hash, llm_merge)
    else (e.field_name_hash, llm_admit)

-- The field's canonical hash and how it was found; the registry with the field's assignment.
unfoldable pub dedup_field : DedupTools → EmergentField → Registry → Registry × String × Method
dedup_field tools e r =
    let embedding = tools.embed e.field_name in
    let (canonical, method) =
      gate tools e
        (nearest_canonical_field tools.similarity embedding e.field_name_hash e.head r) in
    (set_field_embedding_canonical e.field_name_hash embedding canonical r, canonical, method)

abbrev pub dedup_all : DedupTools → List EmergentField → Registry → Registry × List Method
dedup_all tools [] r = (r, [])
dedup_all tools (e ∷ es) r =
    let (after, canonical, method) = dedup_field tools e r in
    let (final, methods) = dedup_all tools es after in (final, method ∷ methods)

-- The tally of the methods is their list. A chunk is embedded at once and assigned one by one, so
-- the size of the chunks does not show.
unfoldable pub dedup_registry : DedupTools → Registry → Registry × List Method
dedup_registry tools r = dedup_all tools (list_undeduped_variants r) r
