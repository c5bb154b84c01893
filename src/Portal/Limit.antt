-- ===== src/Portal/Limit.antt =====
-- The sliding window of engine/app/portal/router.py, and the limits of a submission. A time is a
-- number; `t < now - window_s` is written `t + window_s < now`.
pub mod Window
use Prim.Native.String.{◌++◌ as str_append}
use structured_chaos.Prelude.{
  Bool, List, String, String-Eq, Table, [], false, if◌then◌else◌, leb, length, lookup, ltb, or_else,
  put, true, ℕ, ℕ-Eq, ◌++◌, ◌+◌, ◌∷◌,
}

abbrev pub Hits : Type 0
Hits = Table String (List ℕ)

-- `while dq and dq[0] < cutoff: dq.popleft()`
abbrev pub drop_old : ℕ → ℕ → List ℕ → List ℕ
drop_old window now [] = []
drop_old window now (t ∷ ts) =
    let rest = drop_old window now ts in if ltb (t + window) now then rest else t ∷ ts

-- `defaultdict(deque)`
abbrev pub hits_of : String → Hits → List ℕ
hits_of key hits = or_else (lookup key hits) []

unfoldable pub allow : String → ℕ → ℕ → ℕ → Hits → Hits × Bool
allow key limit window now hits =
    let recent = drop_old window now (hits_of key hits) in
    if leb limit (length recent)
    then (put key recent hits, false)
    else (put key (recent ++ now ∷ []) hits, true)

pub record Limits : Type 0 where
  pub per_ip : ℕ  -- settings.portal_rate_ip_per_10min
  pub per_tenant : ℕ  -- settings.portal_rate_tenant_per_hour

abbrev pub ip_key : String → String
ip_key ip = str_append "ip:" ip

abbrev pub tenant_key : String → String
tenant_key tenant = str_append "tenant:" tenant

-- `false` is the status 429: the tenant's window is not tried where the address is refused.
unfoldable pub rate_limit : Limits → String → String → ℕ → Hits → Hits × Bool
rate_limit limits ip tenant now hits =
    let (after, first) = allow (ip_key ip) limits.per_ip 600 now hits in
    let (final, second) = allow (tenant_key tenant) limits.per_tenant 3600 now after in
    if first then (final, second) else (after, false)
