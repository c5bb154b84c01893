-- ===== src/Store/Registry/Minted.antt =====
-- The minted heads, by the functions of engine/app/store/api.py.
use structured_chaos.Prelude.{
  Bool, List, Option, String, String-Eq, Table, keep, lookup, map, none, or_else, put, some,
  sort_by, text_lt, true, ℕ-Eq, ◌=?◌,
}
use structured_chaos.Store.Registry.{MintedHead, Registry, first_present}

abbrev pub merged : MintedHead → Option MintedHead → MintedHead
merged row none = row
merged row (some old) = record row {
  gloss = first_present row.gloss old.gloss;
  source = first_present row.source old.source;
}

unfoldable pub register_minted_head : String → MintedHead → Registry → Registry
register_minted_head head row r = record r {
  minted = put head (merged row (lookup head r.minted)) r.minted;
}

-- `sensitivity IS NULL OR sensitivity = 'none'`
abbrev pub is_open : String × MintedHead → Bool
is_open (head, m) = elim m.sensitivity [ none ↦ true | some s ↦ s =? "none" ]

abbrev pub earlier_name : String × MintedHead → String × MintedHead → Bool
earlier_name (g, _) (h, _) = text_lt g h

abbrev pub open_heads : Registry → List (String × MintedHead)
open_heads r = sort_by earlier_name (keep is_open r.minted)

unfoldable pub list_minted_heads : Registry → List String
list_minted_heads r = map (λ row. row.0) (open_heads r)

abbrev pub gloss_of : String × MintedHead → String × String
gloss_of (head, m) = (head, or_else m.gloss head)

unfoldable pub list_minted_head_glosses : Registry → Table String String
list_minted_head_glosses r = map gloss_of (open_heads r)
