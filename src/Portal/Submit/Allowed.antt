-- ===== src/Portal/Submit/Allowed.antt =====
-- mime_ok, same_origin and enforce_origin of engine/app/portal/router.py: the types and the Origins.
use text.Mathlib.TextEquality.{eq_iff}
use structured_chaos.Prelude.{
  Bool-cases, List, Option, Option-cases, String, String-Eq, [], ap, arith, inl, inr, none, not, ok,
  refl, some, sym, true, ℕ-Eq, ◌&&◌, ◌=?◌, ◌||◌, ◌∙◌, ◌∷◌, ◌≡◌, ◌≢◌, ◌⊎◌,
}
use structured_chaos.Portal.Submit.{
  Request, SubmitEnv, allowed_mime, enforce_origin, mime_ok, same_origin,
}
use structured_chaos.Store.Log.{holds}

abbrev pub IsIn : String → List String → Type 0
IsIn s [] = ⊥
IsIn s (t ∷ ts) = (t ≡ s) ⊎ IsIn s ts

pub holds-IsIn : (s : String) (ts : List String) → holds s ts ≡ true → IsIn s ts
holds-IsIn s [] h = cc
holds-IsIn s (t ∷ ts) h = elim (Bool-cases (t =? s)) [
  | inl same ↦ inl ((eq_iff t s).0 same)
  | inr other ↦ inr (holds-IsIn s ts (ground (arith, h, other)))
]

-- An image, or one of the audio and document types.
abbrev pub IsAllowedType : SubmitEnv → String → Type 0
IsAllowedType env mime =
    IsIn (env.media_type mime) (
      "audio/webm" ∷ "audio/ogg" ∷ "audio/mp4" ∷ "audio/mpeg" ∷ "audio/aac" ∷ "audio/x-m4a"
      ∷ "application/pdf" ∷ "text/plain" ∷ [])
    ⊎ (env.is_image (env.media_type mime) ≡ true)

pub mime_ok-IsAllowedType :
    (env : SubmitEnv) (mime : String) → mime_ok env mime ≡ true → IsAllowedType env mime
mime_ok-IsAllowedType env mime h =
    let base = env.media_type mime in
    elim (Bool-cases (holds base allowed_mime)) [
      | inl listed ↦ inl (holds-IsIn base allowed_mime listed)
      | inr other ↦ inr (ground (arith, h, other))
    ]

-- The request's Origin is the one that is echoed, and it is on the site's list or it is the portal's
-- own address; or the request has none, and none is echoed.
abbrev pub IsOwnOrigin : SubmitEnv → Request → List String → Option String → Type 0
IsOwnOrigin env request allowed none = (request.origin ≡ none) ⊎ (request.origin ≡ some "")
IsOwnOrigin env request allowed (some o) =
    (request.origin ≡ some o)
    × (o ≢ "")
    × (IsIn o allowed
        ⊎ ((request.host ≢ "")
            × ((env.urlsplit o ≡ ("http", request.host, ""))
                ⊎ (env.urlsplit o ≡ ("https", request.host, "")))))

same_origin_parts :
    (host scheme netloc path : String)
    → (not (host =? "") && holds scheme ("http" ∷ "https" ∷ []) && (netloc =? host) && (path =? ""))
      ≡ true
    → (host ≢ "")
      × ((◌≡◌ {A = String × String × String} (scheme, netloc, path) ("http", host, ""))
          ⊎ (◌≡◌ {A = String × String × String} (scheme, netloc, path) ("https", host, "")))
same_origin_parts host scheme netloc path h =
    let at_host : netloc ≡ host = (eq_iff netloc host).0 (ground (arith, h)) in
    let no_path : path ≡ "" = (eq_iff path "").0 (ground (arith, h)) in
    (
      λ empty. ground (arith, h, (eq_iff host "").1 empty),
      elim (holds-IsIn scheme ("http" ∷ "https" ∷ []) (ground (arith, h))) [
        | inl plain ↦ inl (rw (at_host, no_path, sym plain) refl)
        | inr (inl secure) ↦ inr (rw (at_host, no_path, sym secure) refl)
        | inr (inr never) ↦ absurd never
      ],
    )

allowed_origin :
    (env : SubmitEnv) (request : Request) (o : String) (allowed : List String)
    → (same_origin env request o || holds o allowed) ≡ true
    → IsIn o allowed
      ⊎ ((request.host ≢ "")
          × ((env.urlsplit o ≡ ("http", request.host, ""))
              ⊎ (env.urlsplit o ≡ ("https", request.host, ""))))
allowed_origin env request o allowed h = elim (Bool-cases (holds o allowed)) [
  | inl listed ↦ inl (holds-IsIn o allowed listed)
  | inr other ↦ inr (
      same_origin_parts request.host (env.urlsplit o).0 (env.urlsplit o).1 (env.urlsplit o).2
        (ground (arith, h, other)))
]

pub enforce_origin-IsOwnOrigin :
    (env : SubmitEnv) (request : Request) (allowed : List String) (echoed : Option String)
    → enforce_origin env request allowed ≡ ok echoed
    → IsOwnOrigin env request allowed echoed
unfolding enforce_origin
enforce_origin-IsOwnOrigin env request allowed none h = elim (Option-cases request.origin) [
  | inl absent ↦ inl absent
  | inr (o, given) ↦ elim (Bool-cases (o =? "")) [
    | inl blank ↦ inr (given ∙ ap some ((eq_iff o "").0 blank))
    | inr filled ↦ elim (Bool-cases (same_origin env request o || holds o allowed)) [
      | inl allows ↦ cc (rw (given, filled, allows) at h)
      | inr refuses ↦ cc (rw (given, filled, refuses) at h)
    ]
  ]
]
enforce_origin-IsOwnOrigin env request allowed (some p) h = elim (Option-cases request.origin) [
  | inl absent ↦ cc (rw absent at h)
  | inr (o, given) ↦ elim (Bool-cases (o =? "")) [
    | inl blank ↦ cc (rw (given, blank) at h)
    | inr filled ↦ elim (Bool-cases (same_origin env request o || holds o allowed)) [
      | inl allows ↦
          let same : o ≡ p = cc (rw (given, filled, allows) at h) in
          rw (← same) (
            given,
            λ empty. ground (arith, filled, (eq_iff o "").1 empty),
            allowed_origin env request o allowed allows,
          )
      | inr refuses ↦ cc (rw (given, filled, refuses) at h)
    ]
  ]
]
