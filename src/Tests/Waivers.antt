-- ===== src/Tests/Waivers.antt =====
-- Waivers and waiver files at concrete inputs.
use quilons_sentrycode.Common.{◌≡◌, refl, List, [], ◌∷◌, map, some, none, All, ◌++◌, is_blank}
use quilons_sentrycode.Core.Json.{get}
use quilons_sentrycode.Core.Findings.{Waiver}
use quilons_sentrycode.Core.PolicyTypes.{PolicyAuditRecord}
use quilons_sentrycode.Core.Defaults.{default_waivers}
use quilons_sentrycode.Policy.Waivers.{
  find_applicable_waiver, verdict, scope_matches, waiver_validity,
}
use quilons_sentrycode.Policy.Waivers.Search.{
  FirstCovering, Explains, IsTrail, find_applicable_waiver-FirstCovering,
  find_applicable_waiver-Explains,
}
use quilons_sentrycode.Policy.WaiverFile.{
  load_waivers, waivers_of, parse_waivers, parse_waiver, check_ids,
}
use quilons_sentrycode.Policy.WaiverFile.Validity.{
  AreRead, items_of, WellFormed, AllDistinct, load_waivers-WellFormed,
}
use quilons_sentrycode.Tests.Samples.{host, finding, waiver, context, waiver_file}

abbrev expired : Waiver
expired = record waiver { id = "w0"; expires_at = "2026-01-01"; created_at = none }

taken :
    (find_applicable_waiver host default_waivers finding context 2000 (expired ∷ waiver ∷ []) []).0
    ≡ some waiver
unfolding find_applicable_waiver verdict scope_matches waiver_validity
taken = refl

find_applicable_waiver-FirstCovering_example :
    FirstCovering host default_waivers finding context 2000
      (expired ∷ waiver ∷ [])
      (find_applicable_waiver host default_waivers finding context 2000
        (expired ∷ waiver ∷ [])
        []).0
find_applicable_waiver-FirstCovering_example =
    find_applicable_waiver-FirstCovering host default_waivers finding context 2000
      (expired ∷ waiver ∷ []) []

find_applicable_waiver-Explains_example :
    (added : List PolicyAuditRecord) × ((find_applicable_waiver host default_waivers finding context
        2000
        (expired ∷ waiver ∷ [])
        []).1
      ≡ [] ++ added)
    × All (Explains host default_waivers finding context 2000 (expired ∷ waiver ∷ [])) added
    × IsTrail host default_waivers finding context 2000 (expired ∷ waiver ∷ []) added
find_applicable_waiver-Explains_example =
    find_applicable_waiver-Explains host default_waivers finding context 2000
      (expired ∷ waiver ∷ []) []

abbrev read_waiver : Waiver
read_waiver = record waiver { created_at = none }

load_waivers-WellFormed_example :
    AreRead (items_of waiver_file) (read_waiver ∷ [])
    × All (WellFormed host) (read_waiver ∷ [])
    × AllDistinct (map (λ (w : Waiver). w.id) (read_waiver ∷ []))
unfolding load_waivers waivers_of parse_waivers parse_waiver get is_blank check_ids
load_waivers-WellFormed_example =
    load_waivers-WellFormed host "/r/waivers.json" waiver_file (read_waiver ∷ []) refl
