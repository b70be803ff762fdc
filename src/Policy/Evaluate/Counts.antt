-- ===== src/Policy/Evaluate/Counts.antt =====
-- What the counts of a result add up to.
use quilons_sentrycode.Common.{
  ℕ, ◌+◌, ◌≡◌, ap, sym, ◌∙◌, Bool, ◌&&◌, List, [], ◌∷◌, Option, arith, ◌==◌, length, length-map,
  filter,
}
use quilons_sentrycode.Core.Enums.{Severity, severity_eq}
use quilons_sentrycode.Core.Findings.{ScannerResult, Waiver}
use quilons_sentrycode.Core.PolicyTypes.{EffectivePolicy, PolicyContext, AppliedFinding}
use quilons_sentrycode.Core.Platform.{Platform}
use quilons_sentrycode.Core.Settings.{SentryCodeConfig}
use quilons_sentrycode.Policy.Evaluate.{all_findings, is_active, counts, evaluate_policy}
use quilons_sentrycode.Policy.Evaluate.Findings.{evaluate_policy-RightlyApplied}

abbrev pub total : List (Severity × ℕ) → ℕ
total [] = 0
total ((s, n) ∷ rest) = n + total rest

abbrev of_severity : Severity → AppliedFinding → Bool
of_severity s a = is_active a && (a.finding.severity == s)

-- One more finding raises one count if it is active.
one :
    (a : AppliedFinding) (xs : List AppliedFinding)
    → total (counts (a ∷ xs)) ≡ (length (filter is_active (a ∷ [])) + total (counts xs))
unfolding counts
one a xs = ground arith

counts-active : (xs : List AppliedFinding) → total (counts xs) ≡ length (filter is_active xs)
counts-active [] = unfold counts in omega arith
counts-active (a ∷ xs) = one a xs ∙ ground (arith, counts-active xs)

split :
    (xs : List AppliedFinding)
    → length (filter is_active xs) + length (filter (λ (a : AppliedFinding). a.waived) xs)
      ≡ length xs
split [] = omega arith
split (a ∷ xs) = ground (arith, split xs)

module _ (host : Platform) (config : SentryCodeConfig) (results : List ScannerResult)
    (waivers : List Waiver) (now : ℕ) (policy : Option EffectivePolicy)
    (context : Option PolicyContext) where
  -- The counts by severity add up to the findings that are not waived; with the waived ones they
  -- are all the findings of the scanners.
  pub evaluate_policy-counts :
      let result = evaluate_policy host config results waivers now policy context in
      (total result.counts ≡ length (filter is_active result.findings))
      × (total result.counts + result.waived_count ≡ length (all_findings results))
  unfolding evaluate_policy
  evaluate_policy-counts =
      let same =
        (evaluate_policy-RightlyApplied host config results waivers now policy context).0 in
      let size = sym (length-map (λ (a : AppliedFinding). a.finding) _) ∙ ap length same in
      let all_counted = counts-active _ in (all_counted, omega (arith, all_counted, split _, size))
