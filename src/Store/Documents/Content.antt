-- ===== src/Store/Documents/Content.antt =====
-- The content addressing of add_source_document in engine/app/store/api.py.
use text.Mathlib.TextEquality.{eq_iff}
use structured_chaos.Prelude.{
  Bool-cases, List, Option-cases, String, String-Eq, [], ap, arith, inl, inr, refl, some, ℕ, ℕ-Eq,
  ◌=?◌, ◌∙◌, ◌∷◌, ◌≡◌,
}
use structured_chaos.Store.Documents.{Documents, SourceDocument, add_source_document, with_sha}

with_sha_found :
    (h : String) (d : SourceDocument) (ds : List SourceDocument)
    → d.sha256 ≡ h
    → with_sha h (d ∷ ds) ≡ some d.id
with_sha_found h d ds same = ground (arith, (eq_iff d.sha256 h).1 same)

abbrev pub add_all : List SourceDocument → Documents → Documents
add_all [] docs = docs
add_all (d ∷ ds) docs = add_all ds (add_source_document d docs).0

-- Storing keeps every document findable by its bytes.
with_sha_kept :
    (h : String) (id : ℕ) (d : SourceDocument) (docs : Documents)
    → with_sha h docs.sources ≡ some id
    → with_sha h (add_source_document d docs).0.sources ≡ some id
unfolding add_source_document
with_sha_kept h id d docs old = elim (Option-cases (with_sha d.sha256 docs.sources)) [
  | inl fresh ↦ elim (Bool-cases (d.sha256 =? h)) [
    | inl same ↦ ground (arith, fresh, old, (eq_iff d.sha256 h).0 same)
    | inr differs ↦ ground (arith, fresh, old, differs)
  ]
  | inr (i, there) ↦ ground (arith, there, old)
]

with_sha_stays :
    (h : String) (id : ℕ) (ds : List SourceDocument) (docs : Documents)
    → with_sha h docs.sources ≡ some id
    → with_sha h (add_all ds docs).sources ≡ some id
with_sha_stays h id [] docs old = old
with_sha_stays h id (d ∷ ds) docs old =
    with_sha_stays h id ds (add_source_document d docs).0 (with_sha_kept h id d docs old)

add_source_document_found :
    (d : SourceDocument) (docs : Documents)
    → with_sha d.sha256 (add_source_document d docs).0.sources ≡ some (add_source_document d docs).1
unfolding add_source_document
add_source_document_found d docs = elim (Option-cases (with_sha d.sha256 docs.sources)) [
  | inl fresh ↦ ground (arith, fresh, with_sha_found d.sha256 d docs.sources refl)
  | inr (i, there) ↦ ground (arith, there)
]

known_again :
    (e : SourceDocument) (docs : Documents) (id : ℕ)
    → with_sha e.sha256 docs.sources ≡ some id
    → add_source_document e docs ≡ (docs, id)
unfolding add_source_document
known_again e docs id there = rw (there, add_source_document) refl

-- Bytes that are stored once give that row ever after: after any further documents, storing the bytes
-- again, for whatever case and at whatever time, stores nothing and returns the id that the first
-- storing returned, also where that document is another case's.
pub add_source_document_again :
    (d e : SourceDocument) (between : List SourceDocument) (docs : Documents)
    → e.sha256 ≡ d.sha256
    → let later = add_all between (add_source_document d docs).0 in
      add_source_document e later ≡ (later, (add_source_document d docs).1)
add_source_document_again d e between docs same =
    let first = add_source_document d docs in
    let later = add_all between first.0 in
    let there : with_sha d.sha256 later.sources ≡ some first.1 =
      with_sha_stays d.sha256 first.1 between first.0 (add_source_document_found d docs) in
    known_again e later first.1 (ap (λ h. with_sha h later.sources) same ∙ there)
