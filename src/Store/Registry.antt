-- ===== src/Store/Registry.antt =====
-- The emergent schema's registry, by the functions of engine/app/store/api.py: `emergent_field`,
-- `emergent_head`, `minted_head` and `backfill_attempt`. An embedding is the text of its vector; a
-- similarity is a number of ten-thousandths, rounded down, which the thresholds read exactly.
pub mod Backlog
pub mod Minted
use structured_chaos.Prelude.{
  Bool, List, Option, String, String-Eq, Table, [], any, false, if◌then◌else◌, is_some, keep,
  length, lookup, ltb, map, none, not, or_else, put, some, sort_by, text_lt, true, update, ℕ, ℕ-Eq,
  ◌&&◌, ◌=?◌, ◌||◌, ◌∷◌,
}
use structured_chaos.Store.Log.{Extraction, Layer, Logs, emergent, governed_core}

pub record EmergentField : Type 0 where
  pub field_name_hash : String
  pub field_name : String
  pub head : Option String
  pub embedding : Option String
  pub support_count : ℕ
  pub canonical_hash : Option String
  pub promoted : Bool
  pub sensitivity : Option String
  pub first_seen_at : ℕ

pub record EmergentHead : Type 0 where
  pub support_count : ℕ
  pub promoted : Bool
  pub sensitivity : Option String

pub record MintedHead : Type 0 where
  pub support_count : ℕ
  pub gloss : Option String
  pub source : Option String
  pub sensitivity : Option String

pub data BackfillOutcome : Type 0 where
  found absent : BackfillOutcome

pub record Registry : Type 0 where
  pub fields : List EmergentField
  pub heads : Table String EmergentHead
  pub minted : Table String MintedHead
  pub attempts : List (ℕ × String × BackfillOutcome)  -- case_id, concept_key, outcome
  -- The column `emergent_field.qualifier` by `field_name_hash`; `none` where the table has no such
  -- column, as after the migrations.
  pub qualifier_column : Option (String → Option String)

abbrev pub no_registry : Registry
no_registry = record {
  fields = [];
  heads = [];
  minted = [];
  attempts = [];
  qualifier_column = none;
}

-- `field_extraction` rows of the layer `emergent`
abbrev pub is_emergent : Layer → Bool
is_emergent governed_core = false
is_emergent emergent = true

abbrev pub add_id : ℕ → List ℕ → List ℕ
add_id i is = if any (λ j. j =? i) is then is else i ∷ is

-- SELECT DISTINCT case_id: the cases that attest a path which the test accepts.
abbrev pub attesting : (String → Bool) → List Extraction → List ℕ
attesting accepts [] = []
attesting accepts (e ∷ es) =
    let rest = attesting accepts es in
    if is_emergent e.layer && accepts e.field_path then add_id e.case_id rest else rest

abbrev pub has_head : String → EmergentField → Bool
has_head head f = elim f.head [ none ↦ false | some h ↦ h =? head ]

-- The paths of the fields that the test accepts, by the join on `field_name`.
abbrev pub names_field : (EmergentField → Bool) → List EmergentField → String → Bool
names_field accepts fields path = any (λ f. (f.field_name =? path) && accepts f) fields

abbrev pub first_present {ℓ} : {A : Type ℓ} → Option A → Option A → Option A
first_present none b = b
first_present (some a) b = some a

abbrev pub put_field : EmergentField → List EmergentField → List EmergentField
put_field e [] = e ∷ []
put_field e (f ∷ fs) =
    let rest = put_field e fs in
    if f.field_name_hash =? e.field_name_hash
    then record f { support_count = e.support_count; head = first_present e.head f.head } ∷ fs
    else f ∷ rest

abbrev pub new_field : String → String → Option String → ℕ → ℕ → EmergentField
new_field hash name head support at = record {
  field_name_hash = hash;
  field_name = name;
  head = head;
  embedding = none;
  support_count = support;
  canonical_hash = none;
  promoted = false;
  sensitivity = none;
  first_seen_at = at;
}

unfoldable pub register_emergent_field :
    String → String → Option String → ℕ → Logs → Registry → Registry × ℕ
register_emergent_field name hash head at l r =
    let support = length (attesting (λ p. p =? name) l.extractions) in
    (record r { fields = put_field (new_field hash name head support at) r.fields }, support)

abbrev pub head_support : String → Logs → List EmergentField → ℕ
head_support head l fields = length (attesting (names_field (has_head head) fields) l.extractions)

abbrev pub with_support : ℕ → Option EmergentHead → EmergentHead
with_support support none = record { support_count = support; promoted = false; sensitivity = none }
with_support support (some h) = record h { support_count = support }

unfoldable pub register_emergent_head : String → Logs → Registry → Registry × ℕ
register_emergent_head head l r =
    let support = head_support head l r.fields in
    (record r { heads = put head (with_support support (lookup head r.heads)) r.heads }, support)

abbrev pub earlier_head : String × ℕ × Bool → String × ℕ × Bool → Bool
earlier_head (g, _, _) (h, _, _) = text_lt g h

abbrev pub head_row : String × EmergentHead → String × ℕ × Bool
head_row (head, h) = (head, h.support_count, h.promoted)

unfoldable pub list_emergent_heads : Registry → List (String × ℕ × Bool)
list_emergent_heads r = sort_by earlier_head (map head_row r.heads)

unfoldable pub mark_head_promoted : String → Registry → Registry
mark_head_promoted head r = record r {
  heads = update head (λ h. record h { promoted = true }) r.heads;
}

unfoldable pub set_head_sensitivity : String → String → Registry → Registry
set_head_sensitivity head sensitivity r = record r {
  heads = update head (λ h. record h { sensitivity = some sensitivity }) r.heads;
}

-- UPDATE emergent_field ... WHERE field_name_hash = :hash
abbrev pub update_field : String → (EmergentField → EmergentField) → Registry → Registry
update_field hash f r = record r {
  fields = map (λ e. if e.field_name_hash =? hash then f e else e) r.fields;
}

unfoldable pub mark_field_promoted : String → Registry → Registry
mark_field_promoted hash r = update_field hash (λ e. record e { promoted = true }) r

unfoldable pub set_field_sensitivity : String → String → Registry → Registry
set_field_sensitivity hash sensitivity r =
    update_field hash (λ e. record e { sensitivity = some sensitivity }) r

unfoldable pub set_field_embedding_canonical : String → String → String → Registry → Registry
set_field_embedding_canonical hash embedding canonical r =
    update_field hash
      (λ e. record e { embedding = some embedding; canonical_hash = some canonical }) r

abbrev pub is_text : Option String → String → Bool
is_text none s = false
is_text (some t) s = t =? s

-- A composite: a field under a head, with a qualifier of its own.
abbrev pub is_variant : EmergentField → Bool
is_variant e = elim e.head [ none ↦ false | some h ↦ not (e.field_name =? h) ]

abbrev pub is_pending : EmergentField → Bool
is_pending e = is_variant e && not (is_some e.embedding)

abbrev pub seen_earlier : EmergentField → EmergentField → Bool
seen_earlier e f =
    ltb e.first_seen_at f.first_seen_at
    || ((e.first_seen_at =? f.first_seen_at) && text_lt e.field_name f.field_name)

unfoldable pub list_undeduped_variants : Registry → List EmergentField
list_undeduped_variants r = sort_by seen_earlier (keep is_pending r.fields)

abbrev pub is_canonical : EmergentField → Bool
is_canonical e = is_text e.canonical_hash e.field_name_hash

-- A row that the search for the nearest canonical field may return.
abbrev pub is_candidate : String → Option String → EmergentField → Bool
is_candidate exclude head e =
    is_some e.embedding
    && is_canonical e
    && not (e.field_name_hash =? exclude)
    && elim head [ none ↦ true | some h ↦ has_head h e ]

abbrev pub nearer : EmergentField → ℕ → Option (EmergentField × ℕ) → EmergentField × ℕ
nearer e sim none = (e, sim)
nearer e sim (some (f, best)) = if ltb sim best then (f, best) else (e, sim)

-- `similarity` is pgvector's cosine; of rows that are equally near, the first.
abbrev pub nearest :
    (String → String → ℕ)
    → String
    → String
    → Option String
    → List EmergentField
    → Option (EmergentField × ℕ)
nearest similarity embedding exclude head [] = none
nearest similarity embedding exclude head (e ∷ es) =
    let rest = nearest similarity embedding exclude head es in
    if is_candidate exclude head e
    then some (nearer e (similarity embedding (or_else e.embedding "")) rest)
    else rest

unfoldable pub nearest_canonical_field :
    (String → String → ℕ) → String → String → Option String → Registry → Option (EmergentField × ℕ)
nearest_canonical_field similarity embedding exclude head r =
    nearest similarity embedding exclude head r.fields

-- The support of a variant: pooled over its aliases once it is canonical.
abbrev pub effective_support : Logs → List EmergentField → EmergentField → ℕ
effective_support l fields e = elim e.canonical_hash [
  | none ↦ e.support_count
  | some h ↦ length (
      attesting (names_field (λ a. is_text a.canonical_hash e.field_name_hash) fields)
        l.extractions)
]

abbrev pub is_alias : EmergentField → Bool
is_alias e = elim e.canonical_hash [ none ↦ false | some h ↦ not (h =? e.field_name_hash) ]

abbrev pub by_head_and_name : EmergentField → EmergentField → Bool
by_head_and_name e f =
    let g = or_else e.head "" in
    let h = or_else f.head "" in text_lt g h || ((g =? h) && text_lt e.field_name f.field_name)

-- The rows, each with its effective support.
unfoldable pub list_promotable_qualifier_variants : Logs → Registry → List (EmergentField × ℕ)
list_promotable_qualifier_variants l r =
    map (λ e. (e, effective_support l r.fields e))
      (sort_by by_head_and_name (keep (λ e. is_variant e && not (is_alias e)) r.fields))
