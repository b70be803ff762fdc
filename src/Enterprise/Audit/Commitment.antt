-- ===== src/Enterprise/Audit/Commitment.antt =====
-- What the last hash of a chain says of its events.
use quilons_sentrycode.Common.{
  ℕ, suc, ◌≡◌, refl, ap, ◌∙◌, sym, false, ◌||◌, String, List, [], ◌∷◌, map, length, Option, some,
  arith, Bool-cases, ◌==◌, string_eq, ==_refl, eq_iff, Any, here, there, inl, inr,
}
use quilons_sentrycode.Common.Result.{ok}
use quilons_sentrycode.Core.Json.{Json, Fields, obj, str, end, field, get, text}
use quilons_sentrycode.Core.Platform.{Platform}
use quilons_sentrycode.Enterprise.Audit.{
  VerifyingKey, AuditFile, read_audit_events, intact, previous_hash, event_hash, base_of,
  verify_from, verify_audit_chain,
}
use quilons_sentrycode.Enterprise.Audit.Chain.{check_event-Links, verify_from-cons}
use quilons_sentrycode.Enterprise.Audit.Append.{hash_or_genesis-Links}

-- What an event says: all of it but its hash and its signature.
abbrev pub content_of : Json → Fields
content_of (obj fs) = base_of fs
content_of _ = end

get-base_of :
    (k : String) (fs : Fields)
    → (k == "hash") ≡ false
    → (k == "signature") ≡ false
    → get k (base_of fs) ≡ get k fs
unfolding base_of get
get-base_of k end h s = refl
get-base_of k (field j v fs) h s = elim (Bool-cases (j == k)) [
  | inl same ↦ let e : j ≡ k = (eq_iff j k).0 same in rw (e, h, s, ==_refl k) refl
  | inr other ↦ elim (Bool-cases (j == "hash" || j == "signature")) [
    | inl gone ↦ rw (gone, other) (get-base_of k fs h s)
    | inr kept ↦ rw (kept, other) (get-base_of k fs h s)
  ]
]

-- Digests tell the contents of two lists of events apart.
abbrev pub Apart : Platform → List Json → List Json → Type 0
Apart host es es' =
    (b b' : Fields)
    → Any (λ e. content_of e ≡ b) es
    → Any (λ e. content_of e ≡ b') es'
    → event_hash host b ≡ event_hash host b'
    → b ≡ b'

module _ (host : Platform) (key : VerifyingKey) where
  -- Two intact chains that end alike say the same, and start alike.
  same_end :
      (p p' : String) (i i' : ℕ) (es es' : List Json)
      → Apart host es es'
      → verify_from host key p i es ≡ ok intact
      → verify_from host key p' i' es' ≡ ok intact
      → length es ≡ length es'
      → previous_hash (str p) es ≡ previous_hash (str p') es'
      → (p ≡ p') × (map content_of es ≡ map content_of es')
  unfolding previous_hash
  same_end p p' i i' [] [] apart v v' n h = (cc, refl)
  same_end p p' i i' [] (e' ∷ es') apart v v' n h = absurd (omega arith)
  same_end p p' i i' (e ∷ es) [] apart v v' n h = absurd (omega arith)
  same_end p p' i i' (e ∷ es) (e' ∷ es') apart v v' n h =
      let (d, checked, w) = verify_from-cons host key p i e es v in
      let (d', checked', w') = verify_from-cons host key p' i' e' es' v' in
      let l = check_event-Links host key p e d checked in
      let l' = check_event-Links host key p' e' d' checked' in
      let (same, rest) =
        same_end d d' (suc i) (suc i') es es' (λ b b' m m'. apart b b' (there m) (there m')) w w'
          (omega (arith, n))
          (ap (λ x. previous_hash x es) (sym (hash_or_genesis-Links host key p e d l))
            ∙ h
            ∙ ap (λ x. previous_hash x es') (hash_or_genesis-Links host key p' e' d' l')) in
      let says : content_of e ≡ base_of l.content = ap content_of l.is_object in
      let says' : content_of e' ≡ base_of l'.content = ap content_of l'.is_object in
      let equal =
        apart (base_of l.content) (base_of l'.content) (here says) (here says')
          (sym l.next ∙ same ∙ l'.next) in
      (
        some-injective (
            sym l.linked
            ∙ sym (previous-base_of l.content)
            ∙ ap (text "previousHash") equal
            ∙ previous-base_of l'.content
            ∙ l'.linked),
        cons-eq (says ∙ equal ∙ sym says') rest,
      )
    where
      some-injective : {s s' : String} → ◌≡◌ {A = Option String} (some s) (some s') → s ≡ s'
      some-injective g = cc

      previous-base_of : (fs : Fields) → text "previousHash" (base_of fs) ≡ text "previousHash" fs
      previous-base_of fs = rw (get-base_of "previousHash" fs refl refl) refl

      cons-eq : {x x' : Fields} {xs xs' : List Fields} → x ≡ x' → xs ≡ xs' → x ∷ xs ≡ x' ∷ xs'
      cons-eq g k = cc

  -- Two files that verify, with as many events and the same last hash, say the same in every event,
  -- where the digest tells the contents of their events apart.
  pub verify_audit_chain-commits :
      (file file' : AuditFile) (es es' : List Json)
      → read_audit_events host file ≡ ok es
      → read_audit_events host file' ≡ ok es'
      → verify_audit_chain host key file ≡ ok intact
      → verify_audit_chain host key file' ≡ ok intact
      → length es ≡ length es'
      → previous_hash (str "GENESIS") es ≡ previous_hash (str "GENESIS") es'
      → Apart host es es'
      → map content_of es ≡ map content_of es'
  unfolding verify_audit_chain
  verify_audit_chain-commits file file' es es' r r' v v' n h apart =
      (same_end "GENESIS" "GENESIS" 0 0 es es' apart (rw r at v) (rw r' at v') n h).1
