-- ===== src/Incremental/Git.antt =====
-- src/git/changes.ts. Whether `git rev-parse` finds a commit, and the lines that `git diff` prints
-- for a range, are arguments.
use text.Mathlib.Text.{starts_with}
use quilons_sentrycode.Common.{
  ℕ, suc, zero, Bool, String, List, [], ◌∷◌, map, filter, find, sort, text_leb, Option, some,
  if◌then◌else◌, is_truthy, trim, to_slashes, ◌<>◌,
}
use quilons_sentrycode.Common.Result.{Result, ok, err, ◌>>=◌}

drop_first : ℕ → String → String
drop_first zero s = s
drop_first (suc n) String.[] = ""
drop_first (suc n) (String.◌∷◌ c s) = drop_first n s

-- `text.replace(/^prefix/, '')`, for a prefix of the given length.
unfoldable pub without_prefix : String → ℕ → String → String
unfolding drop_first
without_prefix prefix n s = if starts_with s prefix then drop_first n s else s

unfoldable pub clean_ref : String → String
unfolding without_prefix
clean_ref ref = without_prefix "origin/" 7 (without_prefix "refs/heads/" 11 ref)

module _ (ref_exists : String → Bool) (diff_lines : String → Result (List String)) where
  unfoldable pub resolve_available_ref : String → Option String
  resolve_available_ref ref =
      if ref_exists ref
      then some ref
      else find ref_exists
          (("origin/" <> clean_ref ref) ∷ ("refs/remotes/origin/" <> clean_ref ref) ∷ [])

  unfoldable pub diff : String → Result (List String)
  diff range = diff_lines range >>= λ lines.
      ok (sort text_leb (filter is_truthy (map (λ x. to_slashes (trim x)) lines)))

  abbrev pub or_two_dots : String → Result (List String) → Result (List String)
  or_two_dots range (ok files) = ok files
  or_two_dots range (err message) = diff range

  unfoldable pub changed_files_between : String → String → Result (List String)
  unfolding diff
  changed_files_between base head =
      or_two_dots (base <> (".." <> head)) (diff (base <> ("..." <> head)))
