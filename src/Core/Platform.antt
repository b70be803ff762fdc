-- ===== src/Core/Platform.antt =====
-- What the program takes from its host: dates, the digest of node:crypto, the locale's order of
-- texts, and the decoding of texts.
-- A moment is counted in milliseconds from the earliest one that a `Date` can hold.
use quilons_sentrycode.Common.{
  ℕ, ◌+◌, ◌*◌, Bool, false, leb, ltb, String, List, Option, none, some, take_chars, ◌<>◌,
}
use quilons_sentrycode.Core.Json.{Json}

pub record Platform : Type 0 where
  -- `new Date(text)`; `none` is an invalid date.
  pub parse_date : String → Option ℕ
  pub to_iso_string : ℕ → String
  -- `createHash('sha256').update(text).digest('hex')`.
  pub sha256 : String → String
  -- `a.localeCompare(b) <= 0`.
  pub locale_le : String → String → Bool
  -- `JSON.parse(text)`; `none` is a SyntaxError.
  pub parse_json : String → Option Json
  -- `Buffer.concat(chunks).toString('utf8')`.
  pub decode_utf8 : List ℕ → String

-- `stableId` of src/utils/hash.ts.
unfoldable pub stable_id : Platform → String → String → String
stable_id host prefix value = prefix <> ("_" <> take_chars 24 (host.sha256 value))

-- A comparison with an invalid date is false.
abbrev pub not_after : Option ℕ → ℕ → Bool
not_after none now = false
not_after (some t) now = leb t now

abbrev pub after : Option ℕ → ℕ → Bool
after none now = false
after (some t) now = ltb now t

-- Milliseconds in a day.
abbrev pub day_ms : ℕ
day_ms = 86_400_000

-- `(end - start) / 86_400_000 > days`, with a false comparison for an invalid date.
abbrev pub exceeds_days : Option ℕ → ℕ → ℕ → Bool
exceeds_days none start days = false
exceeds_days (some end) start days = ltb (start + days * day_ms) end
