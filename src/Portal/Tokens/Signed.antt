-- ===== src/Portal/Tokens/Signed.antt =====
-- A token that was signed is read back, and only such a token is.
use Prim.Native.Char.{Char, code}
use mathlib.Core.Path.{subst}
use Prim.Native.String.append
use Prim.Native.String.{count, ◌++◌ as str_append}
use Prim.Native.String.{◌++◌ as str_append}
use structured_chaos.Prelude.{
  Bool-cases, List, Option-cases, String, String-Eq, ap, arith, beq_refl, false, inl, inr, or_else,
  refl, some, suc, sym, true, zero, ℕ, ℕ-Eq, ◌%◌, ◌+◌, ◌<◌, ◌=?◌, ◌∙◌, ◌≡◌, ◌≢◌,
}
use structured_chaos.Portal.Tokens.{
  TokenEnv, b64d, b64e, compared, has_char, ids_in, ids_of, is_ascii, missing, no_ids, pads,
  payload_of, payload_text, rstrip_eq, sign_case_token, signature, split_at, type_error,
  verify_case_token,
}

split_at-append :
    (c : Char) (a b : String)
    → has_char (code c) a ≡ false
    → split_at (code c) (str_append a (String.◌∷◌ c b)) ≡ some (a, b)
split_at-append c String.[] b h = rw append.nil (rw (beq_refl (code c)) refl)
split_at-append c (String.◌∷◌ d a) b h =
    let first : (code d =? code c) ≡ false = ground (arith, h) in
    let rest : has_char (code c) a ≡ false = ground (arith, h) in
    rw append.cons (rw (first, split_at-append c a b rest) refl)

rstrip_eq-pads : (n : ℕ) → rstrip_eq (pads n) ≡ ""
rstrip_eq-pads zero = refl
rstrip_eq-pads (suc n) = rw (rstrip_eq-pads n) refl

rstrip_eq-append :
    (body : String) (n : ℕ)
    → has_char b'=' body ≡ false
    → rstrip_eq (str_append body (pads n)) ≡ body
rstrip_eq-append String.[] n h = rw append.nil (rstrip_eq-pads n)
rstrip_eq-append (String.◌∷◌ c s) n h =
    let first : (code c =? b'=') ≡ false = ground (arith, h) in
    let rest : has_char b'=' s ≡ false = ground (arith, h) in
    rw append.cons (rw (rstrip_eq-append s n rest, first) refl)

-- Base64 of some bytes: a text without "=" and ".", filled up with less than four "=" to a length that
-- four divides, which is decoded to the bytes.
pub record IsEncoded (env : TokenEnv) (raw : List ℕ) : Type 0 where
  pub body : String
  pub fill : ℕ
  pub fill_small : fill < 4
  pub encoded : env.b64encode raw ≡ str_append body (pads fill)
  pub no_pad : has_char b'=' body ≡ false
  pub no_dot : has_char b'.' body ≡ false
  pub divided : (count body + fill) % 4 ≡ 0
  pub decoded : env.b64decode (env.b64encode raw) ≡ some raw

b64e-body : (env : TokenEnv) (raw : List ℕ) (h : IsEncoded env raw) → b64e env raw ≡ h.body
b64e-body env raw h = ap rstrip_eq h.encoded ∙ rstrip_eq-append h.body h.fill h.no_pad

b64d-b64e : (env : TokenEnv) (raw : List ℕ) → IsEncoded env raw → b64d env (b64e env raw) ≡ some raw
b64d-b64e env raw h =
    let fill : missing (count h.body) ≡ h.fill = omega (arith, h.fill_small, h.divided) in
    ap (b64d env) (b64e-body env raw h)
    ∙ ap (λ n. env.b64decode (str_append h.body (pads n))) fill
    ∙ ap env.b64decode (sym h.encoded)
    ∙ h.decoded

-- What Python's libraries promise of one token: the payload is encoded and decoded, its text is UTF-8,
-- a UUID is printed without ":" and read back, and the signature is ASCII.
pub record IsToken (env : TokenEnv) (tenant case : ℕ) : Type 0 where
  pub payload : IsEncoded env (payload_of env tenant case)
  pub utf8_text : env.from_utf8 (payload_of env tenant case) ≡ some (payload_text env tenant case)
  pub no_colon : has_char b':' (env.show_uuid tenant) ≡ false
  pub tenant_id : env.parse_uuid (env.show_uuid tenant) ≡ some tenant
  pub case_id : env.parse_uuid (env.show_uuid case) ≡ some case
  pub ascii :
      is_ascii (b64e env (env.hmac_sha256 (env.utf8 env.secret) (payload_of env tenant case)))
      ≡ true

ids_in-payload :
    (env : TokenEnv) (tenant case : ℕ)
    → IsToken env tenant case
    → ids_in env (payload_of env tenant case) ≡ ids_of tenant case
ids_in-payload env tenant case h =
    rw
      (
        h.utf8_text,
        split_at-append ":" (env.show_uuid tenant) (env.show_uuid case) h.no_colon,
        h.tenant_id,
        h.case_id,
        ids_in,
      )
      refl

-- With a secret, the token that is signed for a tenant and a case is verified to them: the padding that
-- is taken off is put back, and the two parts are found again.
pub verify_case_token-sign_case_token :
    (env : TokenEnv) (tenant case : ℕ) (token : String)
    → IsToken env tenant case
    → sign_case_token env tenant case ≡ some token
    → verify_case_token env token ≡ ids_of tenant case
unfolding verify_case_token sign_case_token signature
verify_case_token-sign_case_token env tenant case token h signed =
    elim (Bool-cases (env.secret =? "")) [
      | inl unset ↦ ground (arith, unset, signed)
      | inr secret ↦
          let payload = payload_of env tenant case in
          let sig = b64e env (env.hmac_sha256 (env.utf8 env.secret) payload) in
          let no_dot : has_char b'.' (b64e env payload) ≡ false =
            ap (has_char b'.') (b64e-body env payload h.payload) ∙ h.payload.no_dot in
          let own : signature env payload ≡ some sig = rw (secret, signature) refl in
          let text : some (str_append (b64e env payload) (String.◌∷◌ "." sig)) ≡ some token =
            rw (own, sign_case_token) at signed in
          let parts = split_at-append "." (b64e env payload) sig no_dot in
          subst (λ t. verify_case_token env t ≡ ids_of tenant case) (ap (λ t. or_else t "") text)
            (rw
              (
                parts,
                b64d-b64e env payload h.payload,
                own,
                h.ascii,
                beq_refl sig,
                verify_case_token,
              )
              (ids_in-payload env tenant case h))
    ]

not_ids : (tenant case : ℕ) → no_ids ≢ ids_of tenant case
not_ids tenant case h = cc

not_error : (tenant case : ℕ) → type_error ≢ ids_of tenant case
not_error tenant case h = cc

compared_own :
    (env : TokenEnv) (tenant case : ℕ) (payload : List ℕ) (sig : String)
    → compared env payload sig (signature env payload) ≡ ids_of tenant case
    → (env.secret ≢ "")
      × (signature env payload ≡ some sig)
      × (ids_in env payload ≡ ids_of tenant case)
unfolding signature
compared_own env tenant case payload sig h = elim (Bool-cases (env.secret =? "")) [
  | inl unset ↦ absurd (not_ids tenant case (rw (unset, signature) at h))
  | inr set ↦
      let own = b64e env (env.hmac_sha256 (env.utf8 env.secret) payload) in
      let signed : signature env payload ≡ some own = rw (set, signature) refl in
      let at_own : compared env payload sig (some own) ≡ ids_of tenant case = rw signed at h in
      elim (Bool-cases (is_ascii sig)) [
        | inr foreign ↦ absurd (not_error tenant case (rw foreign at at_own))
        | inl ascii ↦ elim (Bool-cases (sig =? own)) [
          | inr forged ↦ absurd (not_ids tenant case (rw (ascii, forged) at at_own))
          | inl same ↦ (
            λ empty. ground (arith, set, (String-Eq.beq_iff env.secret "").1 empty),
            signed ∙ ap some (sym ((String-Eq.beq_iff sig own).0 same)),
            rw (ascii, same) at at_own,
          )
        ]
      ]
]

-- Only a signed token is trusted: where a token is verified, there is a secret, and the token is some
-- text, a dot and exactly the signature of the bytes that the text stands for, which hold the ids; so
-- without a secret, or with another signature, no token is.
pub verify_case_token-signature :
    (env : TokenEnv) (tenant case : ℕ) (token : String)
    → verify_case_token env token ≡ ids_of tenant case
    → (env.secret ≢ "")
      × ((head sig : String) × (payload : List ℕ) × (split_at b'.' token ≡ some (head, sig))
          × (b64d env head ≡ some payload)
          × (signature env payload ≡ some sig)
          × (ids_in env payload ≡ ids_of tenant case))
unfolding verify_case_token signature
verify_case_token-signature env tenant case token h = elim (Option-cases (split_at b'.' token)) [
  | inl whole ↦ absurd (not_ids tenant case (rw (whole, verify_case_token) at h))
  | inr ((head, sig), parts) ↦
      let at_head = rw (parts, verify_case_token) at h in
      elim (Option-cases (b64d env head)) [
        | inl garbled ↦ absurd (not_ids tenant case (rw garbled at at_head))
        | inr (payload, bytes) ↦
            let (secret, own, ids) =
              compared_own env tenant case payload sig (rw bytes at at_head) in
            (secret, (head, sig, payload, parts, bytes, own, ids))
      ]
]
