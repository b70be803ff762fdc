-- ===== src/Configuration/Consumers/Distinct.antt =====
-- src/config/load.ts: which consumers are read.
use quilons_sentrycode.Common.{
  ℕ, suc, ◌<◌, ◌≡◌, sym, subst, inl, inr, false, String, List, [], ◌∷◌, ◌++◌, Option, none, some,
  includes, is_blank, string_eq, arith, ◌<>◌, Bool-cases,
}
use quilons_sentrycode.Core.Json.{
  Json, Items, Fields, null, bool, num, other_num, str, arr, obj, nil, cons, get,
}
use quilons_sentrycode.Core.Config.{ConsumerConfig}
use quilons_sentrycode.Configuration.Outcome.{
  returned, >>=-eq-returned, refuse_if-eq-returned, returned-injective,
}
use quilons_sentrycode.Configuration.Reading.{
  LoadHost, as_object, optional_text, positive_of_pos, is_integer_at, positive_integer_or,
  string_record,
}
use quilons_sentrycode.Configuration.Consumers.{
  consumer_config, consumer_configs_from, consumer_configs, given, consumer_label, scan_profile,
}

-- A consumer with a name and an adapter that may be tried at least once.
abbrev pub IsUsable : ConsumerConfig → Type 0
IsUsable c = (is_blank c.consumer_id ≡ false) × (is_blank c.adapter ≡ false) × (0 < c.max_attempts)

-- Usable consumers, none under a name that is seen before it.
abbrev pub AreDistinct : List String → List ConsumerConfig → Type 0
AreDistinct seen [] = Unit
AreDistinct seen (c ∷ cs) =
    (includes seen c.consumer_id ≡ false) × IsUsable c × AreDistinct (seen ++ c.consumer_id ∷ []) cs

-- A text that is given is not blank.
optional_text-given :
    (v : Option Json) (label given_label : String) (o : Option String) {s : String}
    → optional_text v label ≡ returned o
    → given o given_label ≡ returned s
    → is_blank s ≡ false
unfolding optional_text
optional_text-given none label l o {s} h k =
    let e : none ≡ o = returned-injective h in
    absurd (let f = subst (λ p. given p l ≡ returned s) (sym e) k in cc)
optional_text-given (some (str t)) label l o {s} h k =
    let filled = refuse_if-eq-returned (is_blank t) _ _ h in
    let e : some t ≡ o = returned-injective filled.1 in
    let same : returned t ≡ returned s = subst (λ p. given p l ≡ returned s) (sym e) k in
    subst (λ u. is_blank u ≡ false) (returned-injective same) filled.0
optional_text-given (some null) label l o h k = cc
optional_text-given (some (bool b)) label l o h k = cc
optional_text-given (some (num n)) label l o h k = cc
optional_text-given (some (other_num n)) label l o h k = cc
optional_text-given (some (arr xs)) label l o h k = cc
optional_text-given (some (obj fs)) label l o h k = cc

pub positive_integer_or_pos :
    (host : LoadHost) (k : String) (fs : Fields) (default : ℕ)
    → 0 < default
    → 0 < positive_integer_or host k fs default
positive_integer_or_pos host k fs default h = elim (Bool-cases (is_integer_at host k fs)) [
  | inl e ↦ rw e (positive_of_pos _ default h)
  | inr e ↦ rw e h
]

module _ (host : LoadHost) where
  -- The consumer is new and usable.
  consumer_config-IsUsable :
      (seen : List String) (index : ℕ) (item : Json) (c : ConsumerConfig)
      → consumer_config host seen index item ≡ returned c
      → (includes seen c.consumer_id ≡ false) × IsUsable c
  unfolding consumer_config
  consumer_config-IsUsable seen index item c h =
      let label = consumer_label index in
      let raw = >>=-eq-returned (as_object (some item) label) _ h in
      let id_text =
        >>=-eq-returned (optional_text (get "consumerId" raw.0) (label <> ".consumerId")) _ raw.2 in
      let adapter_text =
        >>=-eq-returned (optional_text (get "adapter" raw.0) (label <> ".adapter")) _ id_text.2 in
      let id = >>=-eq-returned (given id_text.0 (label <> ".consumerId")) _ adapter_text.2 in
      let adapter = >>=-eq-returned (given adapter_text.0 (label <> ".adapter")) _ id.2 in
      let new = refuse_if-eq-returned (includes seen id.0) _ _ adapter.2 in
      let profile = >>=-eq-returned (scan_profile raw.0 label) _ new.1 in
      let context =
        >>=-eq-returned (string_record (get "context" raw.0) [] (label <> ".context")) _
          profile.2 in
      subst (λ c. (includes seen c.consumer_id ≡ false) × IsUsable c) (returned-injective context.2)
        (
          new.0,
          (
            optional_text-given (get "consumerId" raw.0) _ _ id_text.0 id_text.1 id.1,
            optional_text-given (get "adapter" raw.0) _ _ adapter_text.0 adapter_text.1 adapter.1,
            positive_integer_or_pos host "maxAttempts" raw.0 5 (omega arith),
          ),
        )

  consumer_configs_from-AreDistinct :
      (seen : List String) (index : ℕ) (items : Items) (cs : List ConsumerConfig)
      → consumer_configs_from host seen index items ≡ returned cs
      → AreDistinct seen cs
  unfolding consumer_configs_from
  consumer_configs_from-AreDistinct seen index nil cs h =
      subst (AreDistinct seen) (returned-injective h) tt
  consumer_configs_from-AreDistinct seen index (cons item items) cs h =
      let c = >>=-eq-returned (consumer_config host seen index item) _ h in
      let rest =
        >>=-eq-returned
          (consumer_configs_from host (seen ++ c.0.consumer_id ∷ []) (suc index) items) _ c.2 in
      let one = consumer_config-IsUsable seen index item c.0 c.1 in
      subst (AreDistinct seen) (returned-injective rest.2) (
        one.0,
        one.1,
        consumer_configs_from-AreDistinct (seen ++ c.0.consumer_id ∷ []) (suc index) items rest.0
            rest.1,
      )

  pub consumer_configs-AreDistinct :
      (v : Option Json) (cs : List ConsumerConfig)
      → consumer_configs host v ≡ returned cs
      → AreDistinct [] cs
  unfolding consumer_configs
  consumer_configs-AreDistinct none cs h = subst (AreDistinct []) (returned-injective h) tt
  consumer_configs-AreDistinct (some (arr items)) cs h =
      consumer_configs_from-AreDistinct [] 0 items cs h
  consumer_configs-AreDistinct (some null) cs h = cc
  consumer_configs-AreDistinct (some (bool b)) cs h = cc
  consumer_configs-AreDistinct (some (num n)) cs h = cc
  consumer_configs-AreDistinct (some (other_num n)) cs h = cc
  consumer_configs-AreDistinct (some (str s)) cs h = cc
  consumer_configs-AreDistinct (some (obj fs)) cs h = cc
