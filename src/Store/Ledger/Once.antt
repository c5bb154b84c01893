-- ===== src/Store/Ledger/Once.antt =====
-- Runs of claims, completions and failures on the ledger of engine/app/store/api.py.
use text.Mathlib.TextEquality.{eq_iff}
use structured_chaos.Prelude.{
  Bool, List, String, String-Eq, [], all, arith, false, lookup, lookup-put, lookup-update, not, put,
  true, ℕ-Eq, ◌=?◌, ◌∷◌, ◌≡◌,
}
use structured_chaos.Store.Ledger.{
  Ledger, claim_stage, complete_stage, done, fail_stage, failed, is_done, running,
}

-- The three calls, each with its key.
pub data Event : Type 0 where
  claimed completed crashed : String → Event

-- One call on the ledger.
abbrev pub apply : Event → Ledger → Ledger
apply (claimed k) l = (claim_stage k l).0
apply (completed k) l = complete_stage k l
apply (crashed k) l = fail_stage k l

abbrev pub key_of : Event → String
key_of (claimed k) = k
key_of (completed k) = k
key_of (crashed k) = k

-- The calls that keep a finished key finished: all but `fail_stage` on the key itself.
abbrev pub is_harmless : String → Event → Bool
is_harmless key (claimed k) = true
is_harmless key (completed k) = true
is_harmless key (crashed k) = not (k =? key)

abbrev pub apply_all : List Event → Ledger → Ledger
apply_all [] l = l
apply_all (e ∷ es) l = apply_all es (apply e l)

pub apply-done :
    (key : String) (e : Event) (l : Ledger)
    → is_harmless key e ≡ true
    → is_done (lookup key l) ≡ true
    → is_done (lookup key (apply e l)) ≡ true
unfolding claim_stage complete_stage fail_stage
apply-done key (claimed k) l h d = ground (arith, lookup-put k key running l, eq_iff k key)
apply-done key (completed k) l h d = ground (arith, lookup-update k key (λ _. done) l, eq_iff k key)
apply-done key (crashed k) l h d = ground (arith, lookup-update k key (λ _. failed) l, eq_iff k key)

apply_all-done :
    (key : String) (es : List Event) (l : Ledger)
    → all (is_harmless key) es ≡ true
    → is_done (lookup key l) ≡ true
    → is_done (lookup key (apply_all es l)) ≡ true
apply_all-done key [] l h d = d
apply_all-done key (e ∷ es) l h d =
    apply_all-done key es (apply e l) (ground arith) (apply-done key e l (ground arith) d)

pub claim-complete-done :
    (key : String) (l : Ledger)
    → is_done (lookup key (complete_stage key (claim_stage key l).0)) ≡ true
unfolding claim_stage complete_stage
claim-complete-done key l = ground (
  arith,
  lookup-put key key running l,
  lookup-update key key (λ _. done) (claim_stage key l).0,
  eq_iff key key,
)

pub put-complete-done :
    (key : String) (l : Ledger)
    → is_done (lookup key (complete_stage key (put key running l))) ≡ true
unfolding complete_stage
put-complete-done key l = ground (
  arith,
  lookup-put key key running l,
  lookup-update key key (λ _. done) (put key running l),
  eq_iff key key,
)

-- A key that was claimed and completed is never handed out again: after any further calls of
-- claim_stage, complete_stage and fail_stage on the ledger, except a failure of that key, a claim
-- is refused and leaves the ledger as it is.
pub claim_stage_once :
    (key : String) (l : Ledger) (es : List Event)
    → all (is_harmless key) es ≡ true
    → let after = apply_all es (complete_stage key (claim_stage key l).0) in
      claim_stage key after ≡ (after, false)
unfolding claim_stage
claim_stage_once key l es h = ground (
  arith,
  apply_all-done key es (complete_stage key (claim_stage key l).0) h (claim-complete-done key l),
)

-- A claim whose work did not finish, because the process died or because the stage failed, can be
-- made again.
pub claim_stage_again :
    (key : String) (l : Ledger)
    → ((claim_stage key l).1 ≡ true)
    → ((claim_stage key (claim_stage key l).0).1 ≡ true)
      × ((claim_stage key (fail_stage key (claim_stage key l).0)).1 ≡ true)
unfolding claim_stage fail_stage
claim_stage_again key l h = ground (
  arith,
  lookup-put key key running l,
  lookup-update key key (λ _. failed) (claim_stage key l).0,
  eq_iff key key,
)
