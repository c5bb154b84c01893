-- ===== src/Schema/Promote/Heads.antt =====
-- promote_heads of engine/app/schema/promote.py: exactly which heads are promoted.
use text.Mathlib.TextEquality.{eq_iff}
use structured_chaos.Prelude.{
  Bool, List, Option, String, String-Eq, Table, [], any, any-sort_by, arith, false, is_some, leb,
  lookup, lookup-update, map, none, not, refl, some, true, ℕ, ℕ-Eq, ◌&&◌, ◌=?◌, ◌||◌, ◌∷◌, ◌≡◌,
}
use structured_chaos.Schema.Pii.{NameTools, classify_sensitivity}
use structured_chaos.Schema.Promote.{
  is_open_name, promote_head, promote_head_n, promote_head_rows, promote_heads,
}
use structured_chaos.Store.Registry.{
  EmergentHead, Registry, earlier_head, head_row, list_emergent_heads, mark_head_promoted,
  set_head_sensitivity,
}

-- The row of a head, as the scan reads it.
abbrev pub is_promoted : String → Registry → Bool
is_promoted head r = elim (lookup head r.heads) [ none ↦ false | some h ↦ h.promoted ]

abbrev pub support_of : String → Registry → ℕ
support_of head r = elim (lookup head r.heads) [ none ↦ 0 | some h ↦ h.support_count ]

-- Each head has one row: the primary key of the table.
abbrev pub IsKeyed : Table String EmergentHead → Type 0
IsKeyed [] = Unit
IsKeyed ((h, row) ∷ m) = (lookup h m ≡ none) × IsKeyed m

-- A round promotes the head.
abbrev promotes : NameTools → String → String × ℕ × Bool → Bool
promotes py head (h, support, already) =
    (h =? head) && leb promote_head_n support && is_open_name py h && not already

abbrev is_row : String → Registry → Bool
is_row head r = is_some (lookup head r.heads)

promote_head-is_promoted :
    (py : NameTools) (head h : String) (support : ℕ) (already : Bool) (r : Registry)
    → (is_promoted head (promote_head py (h, support, already) r).0
        ≡ (is_promoted head r || (is_row head r && promotes py head (h, support, already))))
      × (is_row head (promote_head py (h, support, already) r).0 ≡ is_row head r)
unfolding promote_head mark_head_promoted set_head_sensitivity
promote_head-is_promoted py head h support already r =
    let flag =
      λ (row : EmergentHead). record row { sensitivity = some (classify_sensitivity py h []) } in
    let promote_row = λ (row : EmergentHead). record row { promoted = true } in
    ground (arith, lookup-update h head flag r.heads, lookup-update h head promote_row r.heads)

promote_head_rows-is_promoted :
    (py : NameTools) (head : String) (rows : List (String × ℕ × Bool)) (r : Registry)
    → (is_promoted head (promote_head_rows py rows r).0
        ≡ (is_promoted head r || (is_row head r && any (promotes py head) rows)))
      × (is_row head (promote_head_rows py rows r).0 ≡ is_row head r)
promote_head_rows-is_promoted py head [] r = (ground arith, refl)
promote_head_rows-is_promoted py head ((h, support, already) ∷ rows) r = ground (
  arith,
  promote_head-is_promoted py head h support already r,
  promote_head_rows-is_promoted py head rows (promote_head py (h, support, already) r).0,
)

-- With one row for each head, a round promotes the head if its own row earns it.
abbrev earns : NameTools → String → Option EmergentHead → Bool
earns py head none = false
earns py head (some h) =
    leb promote_head_n h.support_count && is_open_name py head && not h.promoted

any-promotes_absent :
    (py : NameTools) (head : String) (m : Table String EmergentHead)
    → lookup head m ≡ none
    → any (promotes py head) (map head_row m) ≡ false
any-promotes_absent py head [] gone = refl
any-promotes_absent py head ((h, row) ∷ m) gone = ground (arith, any-promotes_absent py head m)

any-promotes :
    (py : NameTools) (head : String) (m : Table String EmergentHead)
    → IsKeyed m
    → any (promotes py head) (map head_row m) ≡ earns py head (lookup head m)
any-promotes py head [] keyed = refl
any-promotes py head ((h, row) ∷ m) keyed =
    ground
      (arith, eq_iff h head, keyed.0, any-promotes_absent py head m, any-promotes py head m keyed.1)

-- After the scan a head is promoted exactly if it was before, or if at least four cases support it and
-- its name is not sensitive: protected names stay out however often they recur.
pub promote_heads-is_promoted :
    (py : NameTools) (head : String) (r : Registry)
    → IsKeyed r.heads
    → is_promoted head (promote_heads py r).0
      ≡ (is_promoted head r || (leb 4 (support_of head r) && is_open_name py head))
unfolding promote_heads list_emergent_heads
promote_heads-is_promoted py head r keyed = ground (
  arith,
  promote_head_rows-is_promoted py head (list_emergent_heads r) r,
  any-sort_by earlier_head (promotes py head) (map head_row r.heads),
  any-promotes py head r.heads keyed,
)
