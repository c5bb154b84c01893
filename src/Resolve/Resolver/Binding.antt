-- ===== src/Resolve/Resolver/Binding.antt =====
-- When resolve_object (engine/app/resolve/resolver.py) binds, and when it reports a contradiction.
use structured_chaos.Prelude.{
  Bool-cases, List, Option, String, String-Eq, [], any, arith, false, inl, inr, none, refl, some,
  true, ℕ, ℕ-Eq, ◌+◌, ◌=?◌, ◌↔◌, ◌∷◌, ◌≡◌, ◌≢◌, ◌≤◌, ◌⊎◌,
}
use structured_chaos.Elicit.Policy.{text_or, truthy}
use structured_chaos.Resolve.Objects.{Objects}
use structured_chaos.Resolve.Resolver.{
  Lookups, Resolution, by_anchor, by_name, by_phone, by_score, confirm, hit_ids, margin, match_tau,
  named, phone_ids, quoted_hits, resolve_object, silent,
}

-- The hits of the quoted id and of the phone, as in resolve_object.
abbrev pub anchor_ids : Lookups → Objects → Option String → List ℕ
anchor_ids l o anchor_id = hit_ids (quoted_hits l o false (text_or anchor_id ""))

by_anchor-silent :
    (s : String) (phones hits : List ℕ) (id : ℕ)
    → (by_anchor s phones hits).mode ≡ silent
    → (by_anchor s phones hits).object_id ≡ some id
    → (hits ≡ id ∷ []) × ((phones ≡ []) ⊎ (any (λ p. p =? id) phones ≡ true))
by_anchor-silent s phones [] id bound object = cc
by_anchor-silent s [] (x ∷ []) id bound object = ground (arith, bound, object)
by_anchor-silent s (p ∷ ps) (x ∷ []) id bound object = ground (arith, bound, object)
by_anchor-silent s phones (x ∷ y ∷ more) id bound object = cc

abbrev IsConsistent : Resolution → Type 0
IsConsistent r =
    ((r.mode ≡ silent) ↔ ((r.object_id ≢ none) × (r.is_contradiction ≡ false)))
    × ((r.is_contradiction ≡ true) ↔ ((r.mode ≡ confirm) × (r.object_id ≢ none)))

by_anchor-IsConsistent :
    (s : String) (phones hits : List ℕ) → IsConsistent (by_anchor s phones hits)
by_anchor-IsConsistent s phones [] = ground arith
by_anchor-IsConsistent s phones (x ∷ []) = ground arith
by_anchor-IsConsistent s phones (x ∷ y ∷ more) = ground arith

by_score-IsConsistent :
    (l : Lookups) (top_id top second : ℕ) (near : List (ℕ × ℕ))
    → IsConsistent (by_score l top_id top second near)
by_score-IsConsistent l top_id top second near = ground arith

by_name-IsConsistent : (l : Lookups) (near : List (ℕ × ℕ)) → IsConsistent (by_name l near)
by_name-IsConsistent l [] = ground arith
by_name-IsConsistent l ((a, top) ∷ []) = by_score-IsConsistent l a top 0 ((a, top) ∷ [])
by_name-IsConsistent l ((a, top) ∷ (b, second) ∷ rest) =
    by_score-IsConsistent l a top second ((a, top) ∷ (b, second) ∷ rest)

named-IsConsistent :
    (l : Lookups) (search : Option (String → List (ℕ × ℕ))) (name : Option String)
    → IsConsistent (named l search name)
named-IsConsistent l none name = ground arith
named-IsConsistent l (some nearest) name = elim (Bool-cases (truthy name)) [
  | inl given ↦ rw given (by_name-IsConsistent l (nearest (text_or name "")))
  | inr absent ↦ rw absent (ground arith)
]

by_phone-IsConsistent :
    (l : Lookups) (ids : List ℕ) (name : Option String) → IsConsistent (by_phone l ids name)
by_phone-IsConsistent l [] name = named-IsConsistent l l.nearest name
by_phone-IsConsistent l (x ∷ []) name = ground arith
by_phone-IsConsistent l (x ∷ y ∷ more) name = ground arith

by_name-plain : (l : Lookups) (near : List (ℕ × ℕ)) → (by_name l near).is_contradiction ≡ false
by_name-plain l [] = refl
by_name-plain l ((a, top) ∷ []) = ground arith
by_name-plain l ((a, top) ∷ (b, second) ∷ rest) = ground arith

named-plain :
    (l : Lookups) (search : Option (String → List (ℕ × ℕ))) (name : Option String)
    → (named l search name).is_contradiction ≡ false
named-plain l none name = refl
named-plain l (some nearest) name = elim (Bool-cases (truthy name)) [
  | inl given ↦ rw given (by_name-plain l (nearest (text_or name "")))
  | inr absent ↦ rw absent refl
]

by_phone-plain :
    (l : Lookups) (ids : List ℕ) (name : Option String)
    → (by_phone l ids name).is_contradiction ≡ false
by_phone-plain l [] name = named-plain l l.nearest name
by_phone-plain l (x ∷ []) name = refl
by_phone-plain l (x ∷ y ∷ more) name = refl

by_anchor-conflict :
    (s : String) (phones hits : List ℕ)
    → ((by_anchor s phones hits).is_contradiction ≡ true)
      ↔ ((id : ℕ) × (hits ≡ id ∷ []) × (phones ≢ []) × (any (λ p. p =? id) phones ≡ false))
by_anchor-conflict s phones [] = (λ h. cc, λ h. ground (arith, h))
by_anchor-conflict s [] (x ∷ []) = (λ h. cc, λ h. ground (arith, h))
by_anchor-conflict s (p ∷ ps) (x ∷ []) = (λ h. ground (arith, h), λ h. ground (arith, h))
by_anchor-conflict s phones (x ∷ y ∷ more) = (λ h. cc, λ h. ground (arith, h))

-- With a quoted id, a silent bind means that the id has exactly one hit, the object bound, and that
-- the sender's phone either has no hit or has that object among its hits.
pub resolve_object-anchor :
    (l : Lookups) (o : Objects) (anchor_id phone name : Option String) (id : ℕ)
    → truthy anchor_id ≡ true
    → (resolve_object l o anchor_id phone name).mode ≡ silent
    → (resolve_object l o anchor_id phone name).object_id ≡ some id
    → (anchor_ids l o anchor_id ≡ id ∷ [])
      × ((phone_ids l o phone ≡ []) ⊎ (any (λ p. p =? id) (phone_ids l o phone) ≡ true))
unfolding resolve_object
resolve_object-anchor l o anchor_id phone name id given bound object =
    by_anchor-silent (text_or anchor_id "") (phone_ids l o phone) (anchor_ids l o anchor_id) id
      (ground (arith, given, bound)) (ground (arith, given, object))

-- The mode `silent` always comes with an object, and the mode `elicit` with none and no candidate.
pub resolve_object_modes :
    (l : Lookups) (o : Objects) (anchor_id phone name : Option String)
    → let r = resolve_object l o anchor_id phone name in
      ((r.mode ≡ silent) ↔ ((r.object_id ≢ none) × (r.is_contradiction ≡ false)))
      × ((r.is_contradiction ≡ true) ↔ ((r.mode ≡ confirm) × (r.object_id ≢ none)))
unfolding resolve_object
resolve_object_modes l o anchor_id phone name = elim (Bool-cases (truthy anchor_id)) [
  | inl given ↦ rw given (
      by_anchor-IsConsistent (text_or anchor_id "") (phone_ids l o phone)
        (anchor_ids l o anchor_id))
  | inr absent ↦ rw absent (by_phone-IsConsistent l (phone_ids l o phone) name)
]

-- A contradiction is reported exactly when a quoted id has one hit, the phone has hits, and the
-- object is not among them.
pub resolve_object-contradiction :
    (l : Lookups) (o : Objects) (anchor_id phone name : Option String)
    → ((resolve_object l o anchor_id phone name).is_contradiction ≡ true) ↔ (
        (truthy anchor_id ≡ true)
        × ((id : ℕ) × (anchor_ids l o anchor_id ≡ id ∷ [])
            × (phone_ids l o phone ≢ [])
            × (any (λ p. p =? id) (phone_ids l o phone) ≡ false)))
unfolding resolve_object
resolve_object-contradiction l o anchor_id phone name = elim (Bool-cases (truthy anchor_id)) [
  | inl given ↦
      let (to, from) =
        by_anchor-conflict (text_or anchor_id "") (phone_ids l o phone)
          (anchor_ids l o anchor_id) in
      rw given (λ h. (refl, to h), λ h. from h.1)
  | inr absent ↦
      let plain = by_phone-plain l (phone_ids l o phone) name in
      rw absent (λ h. absurd (ground (arith, plain, h)), λ h. absurd (ground (arith, h.0)))
]

-- A bind by name is never a guess: the score of the object bound reaches the threshold, and the
-- second object, if the search returned one, is lower by the margin at least.
pub by_name-margin :
    (l : Lookups) (top_id top b second : ℕ) (rest : List (ℕ × ℕ)) (id : ℕ)
    → (by_name l ((top_id, top) ∷ (b, second) ∷ rest)).object_id ≡ some id
    → (id ≡ top_id) × (match_tau ≤ top) × (second + margin ≤ top)
by_name-margin l top_id top b second rest id bound = ground (arith, bound)
