-- ===== src/Portal/Tokens.antt =====
-- engine/app/portal/tokens.py: the signed token of a case. Base64, HMAC, UTF-8 and UUIDs are Python's,
-- parameters; bytes are numbers. `none` of a parameter is a ValueError.
pub mod Signed
use Prim.Native.Char.{Char, code}
use Prim.Native.String.{count, ◌++◌ as str_append}
use Prim.Native.String.{◌++◌ as str_append}
use structured_chaos.Prelude.{
  Bool, List, Option, String, String-Eq, [], false, if◌then◌else◌, ltb, none, not, some, suc, true,
  zero, ℕ, ℕ-Eq, ◌%◌, ◌&&◌, ◌-◌, ◌=?◌, ◌||◌, ◌∷◌,
}

pub record TokenEnv : Type 0 where
  pub secret : String  -- settings.portal_secret
  pub utf8 : String → List ℕ
  pub from_utf8 : List ℕ → Option String
  pub b64encode : List ℕ → String  -- `base64.urlsafe_b64encode`, as text
  pub b64decode : String → Option (List ℕ)
  pub hmac_sha256 : List ℕ → List ℕ → List ℕ  -- the key first
  pub show_uuid : ℕ → String
  pub parse_uuid : String → Option ℕ

abbrev pub has_char : ℕ → String → Bool
has_char sep String.[] = false
has_char sep (String.◌∷◌ c s) = (code c =? sep) || has_char sep s

abbrev pub after_char : Char → Option (String × String) → Option (String × String)
after_char c none = none
after_char c (some (a, b)) = some (String.◌∷◌ c a, b)

-- `s.split(sep, 1)` into two; `none` where there is no separator.
abbrev pub split_at : ℕ → String → Option (String × String)
split_at sep String.[] = none
split_at sep (String.◌∷◌ c s) =
    let rest = split_at sep s in if code c =? sep then some ("", s) else after_char c rest

-- `s.rstrip("=")`
abbrev pub rstrip_eq : String → String
rstrip_eq String.[] = ""
rstrip_eq (String.◌∷◌ c s) =
    let rest = rstrip_eq s in if (code c =? b'=') && (rest =? "") then "" else String.◌∷◌ c rest

-- `"=" * n`
abbrev pub pads : ℕ → String
pads zero = ""
pads (suc n) = String.◌∷◌ "=" (pads n)

-- `-n % 4`
abbrev pub missing : ℕ → ℕ
missing n = (4 - n % 4) % 4

abbrev pub is_ascii : String → Bool
is_ascii String.[] = true
is_ascii (String.◌∷◌ c s) = ltb (code c) 128 && is_ascii s

abbrev pub b64e : TokenEnv → List ℕ → String
b64e env raw = rstrip_eq (env.b64encode raw)

abbrev pub b64d : TokenEnv → String → Option (List ℕ)
b64d env s = env.b64decode (str_append s (pads (missing (count s))))

-- `none`: PortalSecretMissing.
unfoldable pub signature : TokenEnv → List ℕ → Option String
signature env payload =
    if env.secret =? ""
    then none
    else some (b64e env (env.hmac_sha256 (env.utf8 env.secret) payload))

abbrev pub payload_text : TokenEnv → ℕ → ℕ → String
payload_text env tenant case =
    str_append (env.show_uuid tenant) (String.◌∷◌ ":" (env.show_uuid case))

abbrev pub payload_of : TokenEnv → ℕ → ℕ → List ℕ
payload_of env tenant case = env.utf8 (payload_text env tenant case)

unfoldable pub sign_case_token : TokenEnv → ℕ → ℕ → Option String
sign_case_token env tenant case =
    let payload = payload_of env tenant case in
    elim (signature env payload) [
      | none ↦ none
      | some sig ↦ some (str_append (b64e env payload) (String.◌∷◌ "." sig))
    ]

-- What verify_case_token does: the ids, None, or the TypeError that compare_digest raises for a text
-- that is not ASCII, which the handler does not catch.
pub data Verdict : Type 0 where
  ids_of : ℕ → ℕ → Verdict
  no_ids : Verdict
  type_error : Verdict

abbrev pub both_ids : Option ℕ → Option ℕ → Verdict
both_ids (some tenant) (some case) = ids_of tenant case
both_ids (some tenant) none = no_ids
both_ids none case = no_ids

abbrev pub ids_in : TokenEnv → List ℕ → Verdict
ids_in env payload = elim (env.from_utf8 payload) [
  | none ↦ no_ids
  | some text ↦ elim (split_at b':' text) [
    | none ↦ no_ids
    | some (tenant, case) ↦ both_ids (env.parse_uuid tenant) (env.parse_uuid case)
  ]
]

abbrev pub compared : TokenEnv → List ℕ → String → Option String → Verdict
compared env payload sig none = no_ids
compared env payload sig (some own) =
    if not (is_ascii sig) then type_error else if sig =? own then ids_in env payload else no_ids

unfoldable pub verify_case_token : TokenEnv → String → Verdict
verify_case_token env token = elim (split_at b'.' token) [
  | none ↦ no_ids
  | some (head, sig) ↦ elim (b64d env head) [
    | none ↦ no_ids
    | some payload ↦ compared env payload sig (signature env payload)
  ]
]
