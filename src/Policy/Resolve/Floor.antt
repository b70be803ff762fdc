-- ===== src/Policy/Resolve/Floor.antt =====
-- The required scanners of the effective policy: what the documents demand and the floor, in order.
use quilons_sentrycode.Common.{
  ◌≡◌, subst, ◌∙◌, ◌||◌, String, List, string_eq, includes, IsSorted, sort-IsSorted, includes-sort,
  text_leb, text_leb_total, text_leb_trans,
}
use quilons_sentrycode.Common.Result.{ok, >>=-eq-ok}
use quilons_sentrycode.Core.PolicyTypes.{PolicyDocument, EffectivePolicy}
use quilons_sentrycode.Core.Config.{PolicyConfig}
use quilons_sentrycode.Core.Platform.{Platform}
use quilons_sentrycode.Policy.Resolve.{
  push_missing, apply_documents, initial_policy, finish_policy, resolve_policy,
}
use quilons_sentrycode.Policy.Resolve.Locks.{includes-push_missing}

finish_policy-required :
    (host : Platform) (floor : List String) (p : EffectivePolicy) (s : String)
    → includes (finish_policy host floor p).required_scanners s
      ≡ (includes p.required_scanners s || includes floor s)
unfolding finish_policy
finish_policy-required host floor p s =
    includes-sort text_leb (push_missing p.required_scanners floor) s
    ∙ includes-push_missing p.required_scanners floor s

finish_policy-IsSorted :
    (host : Platform) (floor : List String) (p : EffectivePolicy)
    → IsSorted text_leb (finish_policy host floor p).required_scanners
unfolding finish_policy
finish_policy-IsSorted host floor p =
    sort-IsSorted text_leb text_leb_total text_leb_trans (push_missing p.required_scanners floor)

-- The scanners that a resolved policy requires are exactly those that its documents leave required
-- and those of the floor, in the order of their names; so no document can drop one of the floor.
pub resolve_policy-required :
    (host : Platform) (config : PolicyConfig) (documents : List (String × PolicyDocument))
    (floor : List String) (q : EffectivePolicy)
    → resolve_policy host config documents floor ≡ ok q
    → (p : EffectivePolicy) × (apply_documents (initial_policy config) documents ≡ ok p)
      × ((s : String)
          → includes q.required_scanners s ≡ (includes p.required_scanners s || includes floor s))
      × IsSorted text_leb q.required_scanners
unfolding resolve_policy
resolve_policy-required host config documents floor q h =
    let (p, resolved, finished) =
      >>=-eq-ok (apply_documents (initial_policy config) documents) _ h in
    let same : finish_policy host floor p ≡ q = cc in
    (
      p,
      resolved,
      subst
          (λ (r : EffectivePolicy).
            (s : String)
            → includes r.required_scanners s ≡ (includes p.required_scanners s || includes floor s))
          same (finish_policy-required host floor p),
      subst (λ (r : EffectivePolicy). IsSorted text_leb r.required_scanners) same
          (finish_policy-IsSorted host floor p),
    )
