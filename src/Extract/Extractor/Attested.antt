-- ===== src/Extract/Extractor/Attested.antt =====
-- The grounding of engine/app/extract/extractor.py.
use structured_chaos.Prelude.{
  Bool, List, Option, String, String-Eq, [], any, keep, leb, length, ltb, none, some, true, ℕ-Eq,
  ◌&&◌, ◌*◌, ◌≡◌, ◌≢◌, ◌≤◌, ◌⊎◌,
}
use structured_chaos.Extract.Grounded.{
  EmergentAttribute, SourceTools, is_extractive, is_grounded, join_spaces, pieces,
}
use structured_chaos.Store.Log.{holds}

abbrev qualifier_attested : SourceTools → String → Option String → Bool
qualifier_attested py source none = true
qualifier_attested py source (some q) = leb (pieces q) 4 && is_extractive py q source

-- The qualifier has at most four words, and as a phrase it stands in the text's words.
abbrev pub IsQuoted : SourceTools → String → Option String → Type 0
IsQuoted py source none = Unit
IsQuoted py source (some q) =
    (pieces q ≤ 4)
    × (py.spaced q ≢ "")
    × (py.contains (join_spaces (py.tokens source)) (py.spaced q) ≡ true)

-- The value in lower case is not empty and stands in the text, or three fifths of its words of more
-- than two letters do, or, where it has no such word, any of its words does.
abbrev pub IsTextual : SourceTools → String → String → Type 0
IsTextual py value source =
    let v = py.lower (py.strip value) in
    let long = keep (λ t. ltb 2 (py.size t)) (py.tokens v) in
    (v ≢ "")
    × ((py.contains source v ≡ true)
        ⊎ ((long ≡ []) × (any (py.contains source) (py.tokens v) ≡ true))
        ⊎ (3 * length long ≤ 5 * length (keep (py.contains source) long)))

-- An attribute whose head the vocabulary has, whose value the text grounds, and whose qualifier, if
-- it has one, is short and stands in the text.
abbrev pub IsAttested : SourceTools → List String → String → EmergentAttribute → Type 0
IsAttested py heads source a =
    (holds a.head heads ≡ true) × IsTextual py a.value source × IsQuoted py source a.qualifier

abbrev pub IsWellFormed : SourceTools → List String → String → EmergentAttribute → Type 0
IsWellFormed py heads source a =
    (holds a.head heads ≡ true)
    × (a.grounded ≡ is_grounded py a.value source)
    × (qualifier_attested py source a.qualifier ≡ true)
