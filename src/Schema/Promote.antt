-- ===== src/Schema/Promote.antt =====
-- engine/app/schema/promote.py and promote_scan.py: a concept that recurs becomes a column, and its
-- backfill is queued in the same transaction. Log lines are left out.
pub mod Earned
pub mod Heads
pub mod Rounds
use structured_chaos.Prelude.{
  Bool, List, Option, String, String-Eq, [], any, if◌then◌else◌, leb, none, not, or_else, some, ℕ,
  ℕ-Eq, ◌&&◌, ◌++◌, ◌=?◌, ◌∷◌,
}
use structured_chaos.Extract.Names.{split_qualifier}
use structured_chaos.Schema.Pii.{NameTools, classify_sensitivity, no_category}
use structured_chaos.Store.Log.{Logs}
use structured_chaos.Store.Registry.{
  EmergentField, Registry, list_emergent_heads, list_promotable_qualifier_variants,
  mark_field_promoted, mark_head_promoted, set_field_sensitivity, set_head_sensitivity,
}
use structured_chaos.Store.Registry.Backlog.{concept_attested_categories}

abbrev pub promote_head_n : ℕ
promote_head_n = 4

abbrev pub promote_qualifier_m : ℕ
promote_qualifier_m = 8

abbrev pub default_batch_size : ℕ
default_batch_size = 25

pub data ConceptKind : Type 0 where
  head_concept variant_concept : ConceptKind

pub record PromotedConcept : Type 0 where
  pub kind : ConceptKind
  pub concept_key : String
  pub head : String
  pub qualifier : Option String
  pub support : ℕ
  pub is_new : Bool

abbrev pub is_open_name : NameTools → String → Bool
is_open_name py name = classify_sensitivity py name [] =? no_category

abbrev pub head_promoted : String → ℕ → Bool → PromotedConcept
head_promoted head support already = record {
  kind = head_concept;
  concept_key = head;
  head = head;
  qualifier = none;
  support = support;
  is_new = not already;
}

-- One round of the loop of promote_heads: the registry after it and the concept, if one is promoted.
unfoldable pub promote_head :
    NameTools → String × ℕ × Bool → Registry → Registry × List PromotedConcept
promote_head py (head, support, already) r =
    if not (leb promote_head_n support)
    then (r, [])
    else if not (is_open_name py head)
    then (if already then r else set_head_sensitivity head (classify_sensitivity py head []) r, [])
    else (if already then r else mark_head_promoted head r, head_promoted head support already ∷ [])

abbrev pub promote_head_rows :
    NameTools → List (String × ℕ × Bool) → Registry → Registry × List PromotedConcept
promote_head_rows py [] r = (r, [])
promote_head_rows py (row ∷ rows) r =
    let (after, concept) = promote_head py row r in
    let (final, rest) = promote_head_rows py rows after in (final, concept ++ rest)

unfoldable pub promote_heads : NameTools → Registry → Registry × List PromotedConcept
promote_heads py r = promote_head_rows py (list_emergent_heads r) r

abbrev pub variant_promoted : EmergentField → ℕ → PromotedConcept
variant_promoted e support = record {
  kind = variant_concept;
  concept_key = e.field_name;
  head = or_else e.head "";
  qualifier = split_qualifier e.field_name (or_else e.head "");
  support = support;
  is_new = not e.promoted;
}

abbrev pub is_promoted_row : String → String × ℕ × Bool → Bool
is_promoted_row head (h, support, promoted) = (h =? head) && promoted

unfoldable pub promote_qualifier :
    NameTools
    → List (String × ℕ × Bool)
    → EmergentField × ℕ
    → Registry
    → Registry × List PromotedConcept
promote_qualifier py heads (e, support) r =
    if not (any (is_promoted_row (or_else e.head "")) heads)
    then (r, [])
    else if not (leb promote_qualifier_m support)
    then (r, [])
    else if not (is_open_name py e.field_name)
    then (
      if e.promoted
          then r
          else set_field_sensitivity e.field_name_hash (classify_sensitivity py e.field_name []) r,
      [],
    )
    else (
      if e.promoted then r else mark_field_promoted e.field_name_hash r,
      variant_promoted e support ∷ [],
    )

abbrev pub promote_qualifier_rows :
    NameTools
    → List (String × ℕ × Bool)
    → List (EmergentField × ℕ)
    → Registry
    → Registry × List PromotedConcept
promote_qualifier_rows py heads [] r = (r, [])
promote_qualifier_rows py heads (row ∷ rows) r =
    let (after, concept) = promote_qualifier py heads row r in
    let (final, rest) = promote_qualifier_rows py heads rows after in (final, concept ++ rest)

unfoldable pub promote_qualifiers : NameTools → Logs → Registry → Registry × List PromotedConcept
promote_qualifiers py l r =
    promote_qualifier_rows py (list_emergent_heads r) (list_promotable_qualifier_variants l r) r

unfoldable pub promote : NameTools → Logs → Registry → Registry × List PromotedConcept
promote py l r =
    let (headed, heads) = promote_heads py r in
    let (final, variants) = promote_qualifiers py l headed in (final, heads ++ variants)

-- A job of the queue `backfill`, with its concept, categories and batch size.
pub record BackfillJob : Type 0 where
  pub concept_key : String
  pub head : String
  pub qualifier : Option String
  pub categories : List String
  pub batch_size : ℕ

abbrev pub composite_of : PromotedConcept → Option String
composite_of c = elim c.kind [ head_concept ↦ none | variant_concept ↦ some c.concept_key ]

abbrev pub scope_of : Logs → Registry → PromotedConcept → List String
scope_of l r c = concept_attested_categories c.head (composite_of c) l r

abbrev pub backfill_job : PromotedConcept → List String → ℕ → BackfillJob
backfill_job c categories batch_size = record {
  concept_key = c.concept_key;
  head = c.head;
  qualifier = c.qualifier;
  categories = categories;
  batch_size = batch_size;
}

-- The concepts promoted now, each with its backfill, unless no case with a category attests it.
unfoldable pub enqueue_backfills : ℕ → Logs → Registry → List PromotedConcept → List BackfillJob
enqueue_backfills batch_size l r [] = []
enqueue_backfills batch_size l r (c ∷ cs) =
    let rest = enqueue_backfills batch_size l r cs in
    if not c.is_new
    then rest
    else elim (scope_of l r c) [ [] ↦ rest | k ∷ ks ↦ backfill_job c (k ∷ ks) batch_size ∷ rest ]

-- The transaction of one tenant.
unfoldable pub scan_and_enqueue : NameTools → ℕ → Logs → Registry → Registry × List BackfillJob
scan_and_enqueue py batch_size l r =
    let (after, concepts) = promote py l r in (after, enqueue_backfills batch_size l after concepts)
