-- ===== src/Portal/Submit.antt =====
-- The edge of engine/app/portal/router.py: what a stranger may submit. The lookup of the site key,
-- Python's str methods, urlsplit and guess_mime are parameters; a file is its bytes.
pub mod Accepted
pub mod Allowed
use structured_chaos.Prelude.{
  Bool, List, Option, Result, String, String-Eq, [], false, if◌then◌else◌, length, ltb, none, not,
  ok, or_else, raise, require, some, suc, take, true, ℕ, ℕ-Eq, ◌&&◌, ◌+◌, ◌-◌, ◌=?◌, ◌>>=◌, ◌>>◌,
  ◌||◌, ◌∷◌,
}
use structured_chaos.Portal.Limit.{Hits, Limits, rate_limit}
use structured_chaos.Store.Log.{holds}
use structured_chaos.Store.Registry.Minted.{is_open}

pub record SubmitEnv : Type 0 where
  pub resolve_embed_key : String → Option (String × List String)  -- tenant and allowed origins
  pub strip : String → String
  pub utf8_size : String → ℕ
  pub media_type : String → String  -- `mime.split(";")[0].strip().lower()`
  pub is_image : String → Bool  -- `mime.startswith("image/")`
  pub guess_mime : String → String
  pub urlsplit : String → String × String × String  -- scheme, netloc and path
  pub limits : Limits
  pub max_file_bytes : ℕ  -- settings.portal_max_file_bytes
  pub max_request_bytes : ℕ  -- settings.portal_max_request_bytes

pub data SubmitError : Type 0 where
  unknown_site foreign_origin too_many_requests too_much file_too_large unsupported nothing_sent :
      SubmitError

pub record Request : Type 0 where
  pub host : String  -- `request.headers.get("host", "")`
  pub origin : Option String
  pub client : Option String

pub record Upload : Type 0 where
  pub filename : Option String
  pub content_type : Option String
  pub content : List ℕ

pub record Attached : Type 0 where
  pub filename : String
  pub mime : String
  pub bytes : List ℕ

abbrev pub allowed_mime : List String
allowed_mime =
    "audio/webm" ∷ "audio/ogg" ∷ "audio/mp4" ∷ "audio/mpeg" ∷ "audio/aac" ∷ "audio/x-m4a"
    ∷ "application/pdf" ∷ "text/plain" ∷ []

abbrev pub mime_ok : SubmitEnv → String → Bool
mime_ok env mime = let base = env.media_type mime in holds base allowed_mime || env.is_image base

abbrev pub same_origin : SubmitEnv → Request → String → Bool
same_origin env request origin =
    let (scheme, netloc, path) = env.urlsplit origin in
    not (request.host =? "")
    && holds scheme ("http" ∷ "https" ∷ [])
    && (netloc =? request.host)
    && (path =? "")

-- The Origin to echo, if there is one.
unfoldable pub enforce_origin :
    SubmitEnv → Request → List String → Result SubmitError (Option String)
enforce_origin env request allowed = elim request.origin [
  | none ↦ ok none
  | some origin ↦
      if origin =? ""
      then ok none
      else if same_origin env request origin || holds origin allowed
      then ok (some origin)
      else raise foreign_origin
]

abbrev pub filled : Option String → String → String
filled none default = default
filled (some s) default = if s =? "" then default else s

abbrev pub min : ℕ → ℕ → ℕ
min a b = if ltb b a then b else a

abbrev pub remaining_of : SubmitEnv → ℕ → ℕ
remaining_of env total = min env.max_file_bytes (env.max_request_bytes - total)

abbrev pub named : SubmitEnv → Upload → List ℕ → Attached
named env f bytes =
    let name = filled f.filename "upload" in
    record { filename = name; mime = filled f.content_type (env.guess_mime name); bytes = bytes }

-- The checks on one file that has bytes, in the order of the code.
abbrev pub checked : SubmitEnv → ℕ → Attached → Result SubmitError Attached
checked env remaining a =
    if not (mime_ok env a.mime)
    then raise unsupported
    else if ltb env.max_file_bytes (length a.bytes)
    then raise file_too_large
    else if ltb remaining (length a.bytes)
    then raise too_much
    else ok a

abbrev pub checked_first :
    SubmitEnv
    → ℕ
    → Attached
    → Result SubmitError (List Attached)
    → Result SubmitError (List Attached)
checked_first env remaining a rest = do b ← checked env remaining a; more ← rest; ok (b ∷ more)

-- The loop over the files; at most one byte more than the limit is read of each.
abbrev pub read_files : SubmitEnv → ℕ → List Upload → Result SubmitError (List Attached)
read_files env total [] = ok []
read_files env total (f ∷ files) =
    let remaining = remaining_of env total in
    let bytes = take (suc remaining) f.content in
    let skip = read_files env total files in
    let rest = read_files env (total + length bytes) files in
    if remaining =? 0
    then raise too_much
    else if length bytes =? 0
    then skip
    else do a ← checked env remaining (named env f bytes); more ← rest; ok (a ∷ more)

pub record Submission : Type 0 where
  pub tenant : String
  pub origin : Option String
  pub body : String
  pub attachments : List Attached

abbrev pub is_empty_list : List Attached → Bool
is_empty_list [] = true
is_empty_list (a ∷ more) = false

unfoldable pub read_submission :
    SubmitEnv → String → Option String → String → List Upload → Result SubmitError Submission
read_submission env tenant origin text files =
    let body = env.strip text in
    do
      require (not (ltb env.max_request_bytes (env.utf8_size body))) too_much
      attachments ← read_files env (env.utf8_size body) files
      require (not ((body =? "") && is_empty_list attachments)) nothing_sent
      ok (record { tenant = tenant; origin = origin; body = body; attachments = attachments })

-- submit, up to the message that it ingests. A refusal after the rate limit has used up the limit.
unfoldable pub submit :
    SubmitEnv
    → Request
    → String
    → String
    → List Upload
    → ℕ
    → Hits
    → Hits × Result SubmitError Submission
submit env request key text files now hits = elim (env.resolve_embed_key key) [
  | none ↦ (hits, raise unknown_site)
  | some (tenant, allowed) ↦ elim (enforce_origin env request allowed) [
    | raise e ↦ (hits, raise e)
    | ok origin ↦
        let (after, is_open) =
          rate_limit env.limits (or_else request.client "unknown") tenant now hits in
        (
          after,
          if is_open then read_submission env tenant origin text files else raise too_many_requests,
        )
  ]
]
