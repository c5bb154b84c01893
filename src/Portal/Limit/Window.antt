-- ===== src/Portal/Limit/Window.antt =====
-- At most `limit` calls are allowed in any window.
use mathlib.Core.Path.{subst}
use structured_chaos.Prelude.{
  Bool, Bool-cases, List, String, String-Eq, [], arith, beq_refl, false, if◌then◌else◌, inl, inr,
  keep, leb, length, length-append, length-keep, lookup-put, ltb, not, put, refl, sym, ℕ, ℕ-Eq,
  ◌&&◌, ◌++◌, ◌+◌, ◌=?◌, ◌∷◌, ◌≡◌, ◌≤◌,
}
use structured_chaos.Portal.Limit.{Hits, allow, drop_old, hits_of}

abbrev pub is_recent : ℕ → ℕ → ℕ → Bool
is_recent window now t = not (ltb (t + window) now)

abbrev pub recent_hits : ℕ → ℕ → List ℕ → ℕ
recent_hits window now ts = length (keep (is_recent window now) ts)

recent_hits-drop_old :
    (window now later : ℕ) (ts : List ℕ)
    → now ≤ later
    → recent_hits window later (drop_old window now ts) ≡ recent_hits window later ts
recent_hits-drop_old window now later [] h = refl
recent_hits-drop_old window now later (t ∷ ts) h =
    ground (arith, h, recent_hits-drop_old window now later ts h)

recent_hits-append :
    (window now t : ℕ) (ts : List ℕ)
    → recent_hits window now (ts ++ t ∷ [])
      ≡ recent_hits window now ts + recent_hits window now (t ∷ [])
recent_hits-append window now t [] = omega arith
recent_hits-append window now t (s ∷ ts) = ground (arith, recent_hits-append window now t ts)

length-drop_old : (window now : ℕ) (ts : List ℕ) → length (drop_old window now ts) ≤ length ts
length-drop_old window now [] = omega arith
length-drop_old window now (t ∷ ts) = ground (arith, length-drop_old window now ts)

pub record Rule : Type 0 where
  pub limit : ℕ
  pub window : ℕ

abbrev pub called :
    (String → Rule) → String → ℕ → Hits × List (String × ℕ) → Hits × List (String × ℕ)
called rules key now (hits, granted) =
    let (after, is_granted) = allow key (rules key).limit (rules key).window now hits in
    (after, if is_granted then (key, now) ∷ granted else granted)

-- The calls, the newest first, with those that were allowed.
abbrev pub calls : (String → Rule) → List (String × ℕ) → Hits × List (String × ℕ)
calls rules [] = ([], [])
calls rules ((key, now) ∷ earlier) = called rules key now (calls rules earlier)

-- The clock does not go back, and `now` is not before the newest call.
abbrev pub IsTimed : ℕ → List (String × ℕ) → Type 0
IsTimed now [] = Unit
IsTimed now ((key, t) ∷ earlier) = (t ≤ now) × IsTimed t earlier

-- The calls with a key that were allowed and are not older than the window.
abbrev pub granted_within : (String → Rule) → String → ℕ → List (String × ℕ) → ℕ
granted_within rules key now granted =
    length (keep (λ g. (g.0 =? key) && is_recent (rules key).window now g.1) granted)

-- What the deque of a key says of the calls: it is no longer than the limit, and holds every allowed
-- call that is still within the window.
abbrev Holds : (String → Rule) → String → ℕ → Hits → List (String × ℕ) → Type 0
Holds rules key latest hits granted =
    (length (hits_of key hits) ≤ (rules key).limit)
    × ((now : ℕ)
        → latest ≤ now
        → granted_within rules key now granted
          ≤ recent_hits (rules key).window now (hits_of key hits))

hits_of-put :
    (key other : String) (ts : List ℕ) (hits : Hits)
    → hits_of key (put other ts hits) ≡ (if other =? key then ts else hits_of key hits)
hits_of-put key other ts hits = ground (arith, lookup-put other key ts hits)

called_own :
    (rules : String → Rule) (key : String) (latest now : ℕ) (hits : Hits)
    (granted : List (String × ℕ))
    → latest ≤ now
    → Holds rules key latest hits granted
    → Holds rules key now
        (called rules key now (hits, granted)).0
        (called rules key now (hits, granted)).1
unfolding allow
called_own rules key latest now hits granted le (short, held) =
    let limit = (rules key).limit in
    let window = (rules key).window in
    let ts = hits_of key hits in
    let recent = drop_old window now ts in
    let fewer = length-drop_old window now ts in
    elim (Bool-cases (leb limit (length recent))) [
      | inl full ↦
          let put_there = hits_of-put key key recent hits in
          rw full (
            ground (arith, put_there, beq_refl key, fewer, short),
            λ later after. ground (
              arith,
              put_there,
              beq_refl key,
              recent_hits-drop_old window now later ts after,
              held later (omega arith),
            ),
          )
      | inr room ↦
          let put_there = hits_of-put key key (recent ++ now ∷ []) hits in
          rw room (
            ground (arith, put_there, beq_refl key, room, length-append recent (now ∷ [])),
            λ later after. ground (
              arith,
              put_there,
              beq_refl key,
              recent_hits-append window later now recent,
              recent_hits-drop_old window now later ts after,
              held later (omega arith),
            ),
          )
    ]

called_other :
    (rules : String → Rule) (key other : String) (latest now : ℕ) (hits : Hits)
    (granted : List (String × ℕ))
    → latest ≤ now
    → (other =? key) ≡ false
    → Holds rules key latest hits granted
    → Holds rules key now
        (called rules other now (hits, granted)).0
        (called rules other now (hits, granted)).1
unfolding allow
called_other rules key other latest now hits granted le differs (short, held) =
    let limit = (rules other).limit in
    let recent = drop_old (rules other).window now (hits_of other hits) in
    elim (Bool-cases (leb limit (length recent))) [
      | inl full ↦
          let put_there = hits_of-put key other recent hits in
          rw full (
            ground (arith, put_there, differs, short),
            λ later after. ground (arith, put_there, differs, held later (omega arith)),
          )
      | inr room ↦
          let put_there = hits_of-put key other (recent ++ now ∷ []) hits in
          rw room (
            ground (arith, put_there, differs, short),
            λ later after. ground (arith, put_there, differs, held later (omega arith)),
          )
    ]

calls-Holds :
    (rules : String → Rule) (key : String) (now : ℕ) (cs : List (String × ℕ))
    → IsTimed now cs
    → Holds rules key now (calls rules cs).0 (calls rules cs).1
calls-Holds rules key now [] timed = (omega arith, λ later after. omega arith)
calls-Holds rules key now ((other, t) ∷ earlier) (le, timed) =
    let (hits, granted) = calls rules earlier in
    let before = calls-Holds rules key t earlier timed in
    let (short, held) : Holds rules key t (calls rules ((other, t) ∷ earlier)).0
        (calls rules ((other, t) ∷ earlier)).1 =
      elim (Bool-cases (other =? key)) [
        | inl same ↦
            subst
              (λ k.
                Holds rules key t (called rules k t (hits, granted)).0
                  (called rules k t (hits, granted)).1)
              (sym ((String-Eq.beq_iff other key).0 same))
              (called_own rules key t t hits granted (omega arith) before)
        | inr differs ↦ called_other rules key other t t hits granted (omega arith) differs before
      ] in
    (short, λ later after. held later (omega arith))

-- No more calls with a key are allowed within its window than its limit, whatever the other keys do,
-- where the clock does not go back and the window ends at the newest call or later.
pub calls_limit :
    (rules : String → Rule) (key : String) (now : ℕ) (cs : List (String × ℕ))
    → IsTimed now cs
    → granted_within rules key now (calls rules cs).1 ≤ (rules key).limit
calls_limit rules key now cs timed =
    let (short, held) = calls-Holds rules key now cs timed in
    let counted = held now (omega arith) in
    let bounded = length-keep (is_recent (rules key).window now) (hits_of key (calls rules cs).0) in
    omega arith
