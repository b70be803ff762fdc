-- ===== src/Engine/Classify.antt =====
-- `classifyScannerFailure` of src/core/engine.ts. Its case-insensitive patterns are ASCII, so only
-- the ASCII letters of a message are folded; `.` stops at the end of a line.
use Prim.Native.Char.{code}
use text.Mathlib.Text.{starts_with}
use quilons_sentrycode.Common.{
  ℕ, ◌+◌, Bool, true, false, not, ◌&&◌, ◌||◌, String, List, [], ◌∷◌, Option, none, some,
  if◌then◌else◌, leb, nat_beq, is_truthy, any, trim, ◌<>◌,
}
use quilons_sentrycode.Core.Enums.{ScannerFailureCategory}
use quilons_sentrycode.Core.Findings.{ScannerFailure}

abbrev fold_code : ℕ → ℕ
fold_code c = if leb 65 c && leb c 90 then c + 32 else c

-- The code points of a text, its ASCII capitals folded.
unfoldable pub folded : String → List ℕ
folded String.[] = []
folded (String.◌∷◌ c s) = fold_code (code c) ∷ folded s

-- What stands behind the prefix.
unfoldable pub strip : List ℕ → List ℕ → Option (List ℕ)
strip [] s = some s
strip (p ∷ ps) [] = none
strip (p ∷ ps) (c ∷ s) = if nat_beq p c then strip ps s else none

abbrev begins : List ℕ → List ℕ → Bool
begins s p = elim (strip p s) [ none ↦ false | some rest ↦ true ]

-- `/p/i`, for a plain text in small letters.
unfoldable pub contains : String → List ℕ → Bool
unfolding folded strip
contains p [] = begins [] (folded p)
contains p (c ∷ s) = begins (c ∷ s) (folded p) || contains p s

abbrev ends_line : ℕ → Bool
ends_line c = nat_beq c 10 || (nat_beq c 13 || (nat_beq c 0x2028 || nat_beq c 0x2029))

-- `.+(?:words)` at the start of a text.
unfoldable pub then_word : List String → List ℕ → Bool
unfolding folded strip
then_word words [] = false
then_word words (c ∷ s) =
    not (ends_line c) && (any (λ w. begins s (folded w)) words || then_word words s)

abbrev then_word_after : List String → Option (List ℕ) → Bool
then_word_after words none = false
then_word_after words (some rest) = then_word words rest

-- `/p.+(?:words)/i`.
unfoldable pub contains_then : String → List String → List ℕ → Bool
unfolding folded strip then_word
contains_then p words [] = false
contains_then p words (c ∷ s) =
    then_word_after words (strip (folded p) (c ∷ s)) || contains_then p words s

abbrev contains_any : List String → List ℕ → Bool
contains_any patterns s = any (λ p. contains p s) patterns

intelligence_failure : List ℕ → Bool
intelligence_failure = contains_any (
    "intelligence" ∷ "vulnerability database" ∷ "grype-db" ∷ "grype db" ∷ "rules identity"
    ∷ "freshness" ∷ "stale" ∷ [])

provisioning_failure : List ℕ → Bool
provisioning_failure s =
    contains_any
      ("no runner profile configured" ∷ "runner credential is unavailable"
        ∷ "runner tenant/project scope is not configured" ∷ "runner endpoint must"
        ∷ "runner token is required" ∷ "runner timeout must be positive" ∷ "undeclared asset" ∷ [])
      s
    || contains_then "profile" ("missing" ∷ "not found" ∷ "unavailable" ∷ "invalid" ∷ []) s

startup_failure : List ℕ → Bool
startup_failure = contains_any (
    "scanner_launch_failed" ∷ "unable to invoke container runtime" ∷ "container creation failed"
    ∷ "container start failed" ∷ "runner request failed" ∷ "fetch failed" ∷ "econnrefused"
    ∷ "enotfound" ∷ "runner request timed out" ∷ [])

execution_failure : List ℕ → Bool
execution_failure = contains_any (
    "scanner_execution_failed" ∷ "scanner_timeout" ∷ "scanner_output_"
    ∷ "scanner_cleanup_unconfirmed" ∷ "supply-chain execution failed"
    ∷ "runner artifact integrity failure" ∷ "runner produced empty" ∷ "runner produced invalid"
    ∷ "execution did not complete" ∷ "scanner timed out" ∷ [])

coverage_failure : List ℕ → Bool
coverage_failure s =
    contains_any ("coverage incomplete" ∷ "unresolved component" ∷ []) s
    || contains_then "component relationship" ("unresolved" ∷ []) s

unfoldable pub category_of : List ℕ → ScannerFailureCategory
unfolding intelligence_failure provisioning_failure startup_failure execution_failure
    coverage_failure contains contains_then
category_of s =
    if intelligence_failure s
    then ScannerFailureCategory.intelligence
    else if provisioning_failure s
    then ScannerFailureCategory.provisioning
    else if startup_failure s
    then ScannerFailureCategory.runner_startup
    else if execution_failure s
    then ScannerFailureCategory.scanner_execution
    else if coverage_failure s
    then ScannerFailureCategory.coverage
    else ScannerFailureCategory.unknown

abbrev is_capital : ℕ → Bool
is_capital c = (leb 65 c && leb c 90) || nat_beq c 95

-- `\w`.
abbrev is_word : ℕ → Bool
is_word c = is_capital c || ((leb 97 c && leb c 122) || (leb 48 c && leb c 57))

-- The longest start of `[A-Z_]` and the rest.
unfoldable pub span_capitals : String → String × String
span_capitals String.[] = ("", "")
span_capitals (String.◌∷◌ c s) =
    let rest = span_capitals s in
    if is_capital (code c) then (String.◌∷◌ c rest.0, rest.1) else ("", String.◌∷◌ c s)

abbrev starts_word : String → Bool
starts_word String.[] = false
starts_word (String.◌∷◌ c s) = is_word (code c)

unfoldable pub drop_chars : ℕ → String → String
drop_chars ℕ.zero s = s
drop_chars (ℕ.suc n) String.[] = ""
drop_chars (ℕ.suc n) (String.◌∷◌ c s) = drop_chars n s

-- `SCANNER_[A-Z_]+\b` at the start of a text: only the whole run of capitals can end at a boundary.
unfoldable pub code_here : String → Option String
unfolding span_capitals drop_chars
code_here s =
    let run = span_capitals (drop_chars 8 s) in
    if starts_with s "SCANNER_" && (is_truthy run.0 && not (starts_word run.1))
    then some ("SCANNER_" <> run.0)
    else none

abbrev or_later : Bool → Option String → Option String → Option String
or_later true found later = later
or_later false none later = later
or_later false (some s) later = some s

-- `/\b(SCANNER_[A-Z_]+)\b/`, where the flag says whether a word character stands before.
unfoldable pub scanner_code : Bool → String → Option String
unfolding code_here
scanner_code inside String.[] = none
scanner_code inside (String.◌∷◌ c s) =
    or_later inside (code_here (String.◌∷◌ c s)) (scanner_code (is_word (code c)) s)

abbrev or_unknown : String → String
or_unknown s = if is_truthy s then s else "unknown scanner error"

unfoldable pub classify_scanner_failure : String → ScannerFailure
unfolding category_of scanner_code
classify_scanner_failure message =
    let normalized = or_unknown (trim message) in
    record {
      category = category_of (folded normalized);
      code = scanner_code false normalized;
      message = normalized;
    }
