-- ===== src/Execution/RunnerServer/Requests.antt =====
-- src/execution/runner-server.ts and contracts.ts: reading and checking a request.
use Prim.Native.Char.{code}
use Prim.Native.String.{String}
use quilons_sentrycode.Common.{
  ℕ, zero, suc, ◌+◌, Bool, true, false, not, ◌&&◌, ◌||◌, List, [], ◌∷◌, ◌++◌, length, Option, none,
  some, if◌then◌else◌, ltb, leb, nat_beq, ◌==◌, string_eq, is_some, or_else,
}
use quilons_sentrycode.Common.Result.{Result, ok, err, ◌>>=◌, ◌>>◌, throw_if}
use quilons_sentrycode.Core.Json.{Json, num, str, arr, obj, Fields, end, field, get, js_text}
use quilons_sentrycode.Core.Platform.{Platform}

-- The options that the handling of requests reads, with their defaults filled in.
pub record RunnerServerOptions : Type 0 where
  pub token : String
  pub tenant : String
  pub project : String
  pub installation_id : String
  pub max_request_bytes : ℕ
  pub max_concurrency : ℕ

-- A request as Node gives it: the path of its URL, and the decoded rest behind `/v1/jobs/`, none where
-- `decodeURIComponent` throws.
pub record HttpRequest : Type 0 where
  pub authorization : Option String
  pub method : String
  pub path : String
  pub decoded_run_id : Option String

-- A job that was read: its run, whether that is a text, and its scope.
pub record Job : Type 0 where
  pub run_id : String
  pub has_text_id : Bool
  pub tenant : String
  pub project : String
  pub scope : Option Json
  pub profile_id : Option Json
  pub input_digest : Option Json

-- A status and a body.
abbrev pub Reply : Type 0
Reply = ℕ × Json

abbrev pub error_reply : ℕ → String → Reply
error_reply status message = (status, obj (field "error" (str message) end))

-- The rest of the text behind the prefix.
unfoldable pub drop_prefix : (prefix s : String) → Option String
drop_prefix String.[] s = some s
drop_prefix (String.◌∷◌ c p) String.[] = none
drop_prefix (String.◌∷◌ c p) (String.◌∷◌ d s) =
    let rest = drop_prefix p s in if nat_beq (code c) (code d) then rest else none

unfoldable pub starts_with : (prefix s : String) → Bool
unfolding drop_prefix
starts_with prefix s = is_some (drop_prefix prefix s)

unfoldable pub auth_token : Option String → String
unfolding drop_prefix
auth_token none = ""
auth_token (some raw) = or_else (drop_prefix "Bearer " raw) ""

abbrev pub is_letter_or_digit : ℕ → Bool
is_letter_or_digit c = (leb 65 c && leb c 90) || (leb 97 c && leb c 122) || (leb 48 c && leb c 57)

-- `[A-Za-z0-9._:-]`.
abbrev pub is_run_char : ℕ → Bool
is_run_char c = is_letter_or_digit c || nat_beq c 46 || nat_beq c 95 || nat_beq c 58 || nat_beq c 45

unfoldable pub run_chars_within : ℕ → String → Bool
run_chars_within left String.[] = true
run_chars_within zero (String.◌∷◌ c s) = false
run_chars_within (suc left) (String.◌∷◌ c s) = is_run_char (code c) && run_chars_within left s

-- `/^[A-Za-z0-9][A-Za-z0-9._:-]{0,127}$/`.
unfoldable pub is_run_id : String → Bool
unfolding run_chars_within
is_run_id String.[] = false
is_run_id (String.◌∷◌ c s) = is_letter_or_digit (code c) && run_chars_within 127 s

-- `[a-z0-9]` and `[a-z0-9._-]`.
abbrev pub is_profile_start : ℕ → Bool
is_profile_start c = (leb 97 c && leb c 122) || (leb 48 c && leb c 57)

abbrev pub is_profile_char : ℕ → Bool
is_profile_char c = is_profile_start c || nat_beq c 46 || nat_beq c 95 || nat_beq c 45

unfoldable pub profile_chars_within : ℕ → String → Bool
profile_chars_within left String.[] = true
profile_chars_within zero (String.◌∷◌ c s) = false
profile_chars_within (suc left) (String.◌∷◌ c s) =
    is_profile_char (code c) && profile_chars_within left s

unfoldable pub is_profile_id : String → Bool
unfolding profile_chars_within
is_profile_id String.[] = false
is_profile_id (String.◌∷◌ c s) = is_profile_start (code c) && profile_chars_within 127 s

-- The loop over the chunks: what was read, unless it is more than the limit.
unfoldable pub read_chunks : (limit : ℕ) → (read : List ℕ) → List (List ℕ) → Result (List ℕ)
read_chunks limit read [] = ok read
read_chunks limit read (chunk ∷ chunks) =
    if ltb limit (length read + length chunk)
    then err "REQUEST_TOO_LARGE"
    else read_chunks limit (read ++ chunk) chunks

-- `JSON.parse` of the body.
abbrev pub parsed_body : Option Json → Result Json
parsed_body none = err "INVALID_JSON"
parsed_body (some v) = ok v

abbrev pub unless_broken : Option String → List ℕ → Result (List ℕ)
unless_broken none bytes = ok bytes
unless_broken (some message) bytes = err message

unfoldable pub read_body : Platform → (limit : ℕ) → List (List ℕ) → Option String → Result Json
unfolding read_chunks
read_body host limit chunks broken = read_chunks limit [] chunks >>= λ all.
    unless_broken broken all >>= λ bytes. parsed_body (host.parse_json (host.decode_utf8 bytes))

-- The text on which a regular expression is tried.
abbrev pub tested : Option Json → String
tested none = "undefined"
tested (some v) = js_text v

abbrev pub is_text_value : Option Json → Bool
is_text_value (some (str s)) = true
is_text_value _ = false

abbrev pub is_version_1 : Option Json → Bool
is_version_1 (some (num n)) = nat_beq n 1
is_version_1 _ = false

-- `value === text`.
abbrev pub equals_text : Option Json → String → Bool
equals_text (some (str s)) t = s == t
equals_text _ t = false

-- `request.scope?.[key]`.
abbrev pub scope_part : String → Option Json → Option Json
scope_part k (some (obj fs)) = get k fs
scope_part k _ = none

-- `Array.isArray(request.input.files)`, of an input that is an object.
abbrev pub is_array : Option Json → Bool
is_array (some (arr xs)) = true
is_array _ = false

abbrev pub has_files : Option Json → Bool
has_files (some (obj fs)) = is_array (get "files" fs)
has_files _ = false

abbrev pub request_fields : RunnerServerOptions → Fields → Result Job
request_fields options fs = do
  throw_if (not (is_version_1 (get "schemaVersion" fs))) "UNSUPPORTED_SCHEMA"
  throw_if (not (is_run_id (tested (get "runId" fs)))) "Invalid runner runId"
  throw_if (not (is_profile_id (tested (get "profileId" fs)))) "Invalid runner profileId"
  throw_if
      (not (equals_text (scope_part "tenant" (get "scope" fs)) options.tenant)
        || not (equals_text (scope_part "project" (get "scope" fs)) options.project))
      "SCOPE_MISMATCH"
  throw_if (not (has_files (get "input" fs))) "INVALID_INPUT"
  ok (record {
    run_id = tested (get "runId" fs);
    has_text_id = is_text_value (get "runId" fs);
    tenant = tested (scope_part "tenant" (get "scope" fs));
    project = tested (scope_part "project" (get "scope" fs));
    scope = get "scope" fs;
    profile_id = get "profileId" fs;
    input_digest = scope_part "digest" (get "input" fs);
  })

unfoldable pub parse_request : RunnerServerOptions → Json → Result Job
unfolding is_run_id is_profile_id js_text
parse_request options (obj fs) = request_fields options fs
parse_request options _ = err "INVALID_REQUEST"
