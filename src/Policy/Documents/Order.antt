-- ===== src/Policy/Documents/Order.antt =====
-- In which order the documents are loaded.
use quilons_sentrycode.Common.{
  ℕ, ◌≡◌, subst, ◌⊎◌, Bool, true, String, List, [], arith, sort, IsSorted, sort-IsSorted, filter,
  ends_with,
}
use quilons_sentrycode.Common.Result.{ok-injective, ok, >>=-eq-ok}
use quilons_sentrycode.Core.Platform.{Platform}
use quilons_sentrycode.Core.PolicyTypes.{PolicyContext}
use quilons_sentrycode.Policy.Documents.{
  Located, Directory, missing, unreadable, entries, by_name, load_files, precedes,
  load_policy_documents,
}

module _ (host : Platform) (directory : String) (context : PolicyContext) (now : ℕ)
    (total : (a b : String) → (host.locale_le a b ≡ true) ⊎ (host.locale_le b a ≡ true))
    (trans : (a b c : String)
      → host.locale_le a b ≡ true
      → host.locale_le b c ≡ true
      → host.locale_le a c ≡ true) where
  abbrev order : Located → Located → Bool
  order = precedes host directory context now

  precedes_total : (a b : Located) → (order a b ≡ true) ⊎ (order b a ≡ true)
  precedes_total (p, a) (q, b) = ground (arith, total p q)

  precedes_trans : (a b c : Located) → order a b ≡ true → order b c ≡ true → order a c ≡ true
  precedes_trans (p, a) (q, b) (r, c) h k = ground (arith, trans p q r)

  -- Loaded documents stand in the order of their levels, and of their paths within a level.
  load_policy_documents-IsSorted :
      (files : Directory) (ds : List Located)
      → load_policy_documents host directory context now files ≡ ok ds
      → IsSorted order ds
  unfolding load_policy_documents
  load_policy_documents-IsSorted missing ds h = subst (IsSorted order) (ok-injective h) tt
  load_policy_documents-IsSorted (unreadable m) ds h = cc
  load_policy_documents-IsSorted (entries files) ds h =
      let (loaded, read, h1) =
        >>=-eq-ok
          (load_files host directory context now []
            (sort by_name (filter (λ f. ends_with f.0 ".json") files)))
          _ h in
      subst (IsSorted order) (ok-injective h1)
        (sort-IsSorted order precedes_total precedes_trans loaded)
