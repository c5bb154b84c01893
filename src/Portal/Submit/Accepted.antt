-- ===== src/Portal/Submit/Accepted.antt =====
-- What is accepted is within the limits.
use mathlib.Core.Path.{subst}
use structured_chaos.Prelude.{
  >>=-ok, All, Bool, Bool-cases, List, Option, Option-cases, Result, String, String-Eq, [], ap,
  arith, false, if◌then◌else◌, inl, inr, length, ltb, not, ok, or_else, raise, refl, require, some,
  suc, sym, take, true, ℕ, ℕ-Eq, ◌&&◌, ◌+◌, ◌-◌, ◌<◌, ◌=?◌, ◌>>=◌, ◌>>◌, ◌∙◌, ◌∷◌, ◌≡◌, ◌≢◌, ◌≤◌,
  ◌⊎◌,
}
use structured_chaos.Portal.Limit.{Hits, rate_limit}
use structured_chaos.Portal.Submit.{
  Attached, Request, Submission, SubmitEnv, SubmitError, Upload, checked, checked_first,
  enforce_origin, file_too_large, is_empty_list, mime_ok, named, nothing_sent, read_files,
  read_submission, remaining_of, same_origin, submit, too_many_requests, too_much, unknown_site,
  unsupported,
}
use structured_chaos.Portal.Submit.Allowed.{
  IsAllowedType, IsOwnOrigin, enforce_origin-IsOwnOrigin, mime_ok-IsAllowedType,
}

abbrev pub total_bytes : List Attached → ℕ
total_bytes [] = 0
total_bytes (a ∷ more) = length a.bytes + total_bytes more

-- A file that is within its limit, is not empty and has a type of the list.
abbrev pub IsWithin : SubmitEnv → Attached → Type 0
IsWithin env a =
    (length a.bytes ≤ env.max_file_bytes) × (0 < length a.bytes) × IsAllowedType env a.mime

-- A test that refuses has not, where there is a result.
passed :
    {A : Type 0} (b : Bool) (e : SubmitError) (r : Result SubmitError A) {y : A}
    → (if b then raise e else r) ≡ ok y
    → (b ≡ false) × (r ≡ ok y)
passed true e r h = cc
passed false e r h = (refl, h)

required :
    {A : Type 0} (b : Bool) (e : SubmitError) (r : Result SubmitError A) {y : A}
    → (require b e >> r) ≡ ok y
    → (b ≡ true) × (r ≡ ok y)
required true e r h = (refl, h)
required false e r h = cc

checked-IsWithin :
    (env : SubmitEnv) (total : ℕ) (a b : Attached)
    → 0 < length a.bytes
    → checked env (remaining_of env total) a ≡ ok b
    → (a ≡ b) × IsWithin env a × (length a.bytes ≤ env.max_request_bytes - total)
checked-IsWithin env total a b some_bytes h =
    let remaining = remaining_of env total in
    let (good_mime, h1) =
      passed (not (mime_ok env a.mime)) unsupported
        (if ltb env.max_file_bytes (length a.bytes)
          then raise file_too_large
          else if ltb remaining (length a.bytes)
          then raise too_much
          else ok a)
        h in
    let (small, h2) =
      passed (ltb env.max_file_bytes (length a.bytes)) file_too_large
        (if ltb remaining (length a.bytes) then raise too_much else ok a) h1 in
    let (fits, same) = passed (ltb remaining (length a.bytes)) too_much (ok a) h2 in
    (
      cc,
      (
        ground (arith, small),
        some_bytes,
        mime_ok-IsAllowedType env a.mime (ground (arith, good_mime)),
      ),
      ground (arith, fits),
    )

read_files-IsWithin :
    (env : SubmitEnv) (total : ℕ) (files : List Upload) (parts : List Attached)
    → total ≤ env.max_request_bytes
    → read_files env total files ≡ ok parts
    → All (IsWithin env) parts × (total + total_bytes parts ≤ env.max_request_bytes)
read_files-IsWithin env total [] parts room h =
    let none_read : [] ≡ parts = cc in
    subst (λ ps. All (IsWithin env) ps × (total + total_bytes ps ≤ env.max_request_bytes)) none_read
      (tt, omega (arith, room))
read_files-IsWithin env total (f ∷ files) parts room h =
    let remaining = remaining_of env total in
    let bytes = take (suc remaining) f.content in
    let a = named env f bytes in
    let rest = read_files env (total + length bytes) files in
    let next = checked_first env remaining a rest in
    let (open_yet, h1) =
      passed (remaining =? 0) too_much
        (if length bytes =? 0 then read_files env total files else next) h in
    elim (Bool-cases (length bytes =? 0)) [
      | inl nothing ↦ read_files-IsWithin env total files parts room (rw nothing at h1)
      | inr filled_up ↦
          let read : next ≡ ok parts = rw filled_up at h1 in
          let (b, was_checked, read_rest) =
            >>=-ok (checked env remaining a) (λ b. rest >>= (λ more. ok (b ∷ more))) read in
          let (more, rest_ok, whole) = >>=-ok rest (λ more. ok (b ∷ more)) read_rest in
          let some_bytes : 0 < length bytes = ground (arith, filled_up) in
          let (same, within, fits) = checked-IsWithin env total a b some_bytes was_checked in
          let room_left : total + length bytes ≤ env.max_request_bytes =
            omega (arith, room, fits) in
          let (others, sum) =
            read_files-IsWithin env (total + length bytes) files more room_left rest_ok in
          let listed : (a ∷ more) ≡ parts = cc in
          subst (λ ps. All (IsWithin env) ps × (total + total_bytes ps ≤ env.max_request_bytes))
            listed ((within, others), omega (arith, sum))
    ]

-- What stands behind an accepted submission: the sizes, the types, that there is something, and the
-- site.
pub record IsAccepted (env : SubmitEnv) (request : Request) (key : String) (sub : Submission)
    : Type 0 where
  pub within : All (IsWithin env) sub.attachments
  pub total : env.utf8_size sub.body + total_bytes sub.attachments ≤ env.max_request_bytes
  pub something : ((sub.body =? "") && is_empty_list sub.attachments) ≡ false
  pub site :
      (allowed : List String) × (env.resolve_embed_key key ≡ some (sub.tenant, allowed))
      × IsOwnOrigin env request allowed sub.origin

read_submission-IsAccepted :
    (env : SubmitEnv) (tenant : String) (origin : Option String) (text : String)
    (files : List Upload) (sub : Submission)
    → read_submission env tenant origin text files ≡ ok sub
    → All (IsWithin env) sub.attachments
      × (env.utf8_size sub.body + total_bytes sub.attachments ≤ env.max_request_bytes)
      × (((sub.body =? "") && is_empty_list sub.attachments) ≡ false)
      × (sub.tenant ≡ tenant)
      × (sub.origin ≡ origin)
unfolding read_submission
read_submission-IsAccepted env tenant origin text files sub h =
    let body = env.strip text in
    let fits = not (ltb env.max_request_bytes (env.utf8_size body)) in
    let result : List Attached → Result SubmitError Submission = λ attachments.
      require (not ((body =? "") && is_empty_list attachments)) nothing_sent
      >> ok (record { tenant = tenant; origin = origin; body = body; attachments = attachments }) in
    let (room, h1) =
      required fits too_much (read_files env (env.utf8_size body) files >>= result) h in
    let (parts, read, h2) = >>=-ok (read_files env (env.utf8_size body) files) result h1 in
    let (some_part, same) =
      required (not ((body =? "") && is_empty_list parts)) nothing_sent
        (ok (record { tenant = tenant; origin = origin; body = body; attachments = parts })) h2 in
    let (within, total) =
      read_files-IsWithin env (env.utf8_size body) files parts (ground (arith, room)) read in
    let whole : Submission = record {
      tenant = tenant;
      origin = origin;
      body = body;
      attachments = parts;
    } in
    let built : whole ≡ sub = cc in
    subst
      (λ s.
        All (IsWithin env) s.attachments
        × (env.utf8_size s.body + total_bytes s.attachments ≤ env.max_request_bytes)
        × (((s.body =? "") && is_empty_list s.attachments) ≡ false)
        × (s.tenant ≡ tenant)
        × (s.origin ≡ origin))
      built (within, total, ground (arith, some_part), refl, refl)

not_ok : (e : SubmitError) (sub : Submission) → raise e ≢ ok sub
not_ok e sub h = cc

Result-cases :
    {A : Type 0} (r : Result SubmitError A)
    → ((e : SubmitError) × (r ≡ raise e)) ⊎ ((a : A) × (r ≡ ok a))
Result-cases (raise e) = inl (e, refl)
Result-cases (ok a) = inr (a, refl)

-- An accepted submission is within every limit: the text and the files together have at most
-- `max_request_bytes` bytes; each file has at most `max_file_bytes`, at least one, and a type of the
-- list; there is a text or a file; and the site's key is known and the Origin one that it allows, its
-- own or none.
pub submit-IsAccepted :
    (env : SubmitEnv) (request : Request) (key text : String) (files : List Upload) (now : ℕ)
    (hits : Hits) (sub : Submission)
    → (submit env request key text files now hits).1 ≡ ok sub
    → IsAccepted env request key sub
unfolding submit
submit-IsAccepted env request key text files now hits sub h =
    elim (Option-cases (env.resolve_embed_key key)) [
      | inl unknown ↦ absurd (not_ok unknown_site sub (rw (unknown, submit) at h))
      | inr ((tenant, allowed), known) ↦
          let at_site = rw (known, submit) at h in
          elim (Result-cases (enforce_origin env request allowed)) [
            | inl (e, foreign) ↦ absurd (not_ok e sub (rw foreign at at_site))
            | inr (origin, own) ↦
                let window =
                  rate_limit env.limits (or_else request.client "unknown") tenant now hits in
                let at_origin = rw own at at_site in
                elim (Bool-cases window.1) [
                  | inr shut ↦ absurd (not_ok too_many_requests sub (rw shut at at_origin))
                  | inl within_limit ↦
                      let (within, total, something, same_tenant, same_origin) =
                        read_submission-IsAccepted env tenant origin text files sub
                          (rw within_limit at at_origin) in
                      record {
                        within = within;
                        total = total;
                        something = something;
                        site = (
                          allowed,
                          known ∙ ap (λ t. some (t, allowed)) (sym same_tenant),
                          enforce_origin-IsOwnOrigin env request allowed sub.origin
                              (own ∙ ap ok (sym same_origin)),
                        );
                      }
                ]
          ]
    ]
