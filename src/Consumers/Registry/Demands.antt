-- ===== src/Consumers/Registry/Demands.antt =====
-- Which scanners the consumers require.
use quilons_sentrycode.Common.{
  ◌≡◌, ◌≢◌, ◌⊎◌, refl, subst, false, ◌==◌, ==_ne, eq_iff, All, Any-map, Any-left, Any-right,
  Any-split, includes_sound, includes_complete, any, Option, none, some, ◌↔◌, ◌∙◌, sym, inl, inr,
  true, ◌&&◌, String, List, [], ◌∷◌, arith, Bool-cases, string_eq, is_some, includes,
  includes-append, includes-distinct, includes-sort, distinct, text_leb, Any, here, there,
}
use quilons_sentrycode.Core.Config.{ConsumerConfig}
use quilons_sentrycode.Core.Settings.{SentryCodeConfig}
use quilons_sentrycode.Consumers.Registry.{
  cra_adapter_id, cyber_adapter_id, append_some, legacy_cra_consumer, adapter_contract,
  list_configured_consumers, describe, describe_all, describe_consumer_adapters, scanners_of,
  consumer_required_scanners,
}

-- An enabled consumer with an installed adapter that requires the scanner.
abbrev pub Demands : String → ConsumerConfig → Type 0
Demands scanner c =
    (c.enabled ≡ true)
    × (is_some (adapter_contract c.adapter) ≡ true)
    × (includes c.scan_profile.required_scanners scanner ≡ true)

scanners_of-Demands :
    (scanner : String) (cs : List ConsumerConfig)
    → Any (Demands scanner) cs
    → includes (scanners_of (describe_all cs)) scanner ≡ true
unfolding scanners_of describe_all describe
scanners_of-Demands scanner [] h = elim h [ ]
scanners_of-Demands scanner (c ∷ cs) (here h) = ground (
  arith,
  includes-append c.scan_profile.required_scanners (scanners_of (describe_all cs)) scanner,
)
scanners_of-Demands scanner (c ∷ cs) (there t) = ground (
  arith,
  includes-append c.scan_profile.required_scanners (scanners_of (describe_all cs)) scanner,
  scanners_of-Demands scanner cs t,
)

Demands-scanners_of :
    (scanner : String) (cs : List ConsumerConfig)
    → includes (scanners_of (describe_all cs)) scanner ≡ true
    → Any (Demands scanner) cs
unfolding scanners_of describe_all describe
Demands-scanners_of scanner [] h = absurd (cc)
Demands-scanners_of scanner (c ∷ cs) h =
    elim (Bool-cases (
      c.enabled
      && is_some (adapter_contract c.adapter)
      && includes c.scan_profile.required_scanners scanner)) [
        | inl own ↦ here (ground arith, ground arith, ground arith)
        | inr other ↦ there (
            Demands-scanners_of scanner cs (
              ground (
                arith,
                includes-append c.scan_profile.required_scanners (scanners_of (describe_all cs))
                    scanner,
              )))
      ]

-- In terms of the consumers that are listed.
pub consumer_required_scanners_listed :
    (config : SentryCodeConfig) (scanner : String)
    → (includes (consumer_required_scanners config) scanner ≡ true)
      ↔ Any (Demands scanner) (list_configured_consumers config)
unfolding consumer_required_scanners describe_consumer_adapters
consumer_required_scanners_listed config scanner =
    let all = scanners_of (describe_all (list_configured_consumers config)) in
    let same = includes-sort text_leb (distinct all) scanner ∙ includes-distinct all scanner in
    (
      λ h. Demands-scanners_of scanner (list_configured_consumers config) (sym same ∙ h),
      λ a. same ∙ scanners_of-Demands scanner (list_configured_consumers config) a,
    )

-- An enabled consumer, of one of the two adapters that are installed, that names the scanner.
abbrev pub Requires : String → ConsumerConfig → Type 0
Requires scanner c =
    (c.enabled ≡ true)
    × ((c.adapter ≡ "cra") ⊎ (c.adapter ≡ "cyber"))
    × Any (λ s. s ≡ scanner) c.scan_profile.required_scanners

adapter_contract_iff :
    (id : String) → (is_some (adapter_contract id) ≡ true) ↔ ((id ≡ "cra") ⊎ (id ≡ "cyber"))
unfolding adapter_contract
adapter_contract_iff id = elim (Bool-cases (id == cra_adapter_id)) [
  | inl cra ↦ rw cra (λ h. inl ((eq_iff id cra_adapter_id).0 cra), λ h. refl)
  | inr other ↦ elim (Bool-cases (id == cyber_adapter_id)) [
    | inl cyber ↦ rw (other, cyber) (λ h. inr ((eq_iff id cyber_adapter_id).0 cyber), λ h. refl)
    | inr none' ↦
        rw (other, none')
          (
            λ h. absurd (cc),
            λ h. elim h [
              | inl e ↦ absurd (==_ne id cra_adapter_id other e)
              | inr e ↦ absurd (==_ne id cyber_adapter_id none' e)
            ],
          )
  ]
]

Demands-iff : (scanner : String) (c : ConsumerConfig) → Demands scanner c ↔ Requires scanner c
Demands-iff scanner c = (
  λ h. (
    h.0,
    (adapter_contract_iff c.adapter).0 h.1,
    includes_sound c.scan_profile.required_scanners scanner h.2,
  ),
  λ h. (
    h.0,
    (adapter_contract_iff c.adapter).1 h.1,
    includes_complete c.scan_profile.required_scanners scanner h.2,
  ),
)

-- The older section, which is listed where it is enabled and no consumer is called `cra`.
abbrev pub IsLegacy : SentryCodeConfig → ConsumerConfig → Type 0
IsLegacy config c =
    All (λ d. d.consumer_id ≢ "cra") config.consumers × (legacy_cra_consumer config ≡ some c)

some_inj : {x y : ConsumerConfig} → some x ≡ some y → x ≡ y
some_inj e = cc

legacy_requires_none :
    (config : SentryCodeConfig) (c : ConsumerConfig)
    → legacy_cra_consumer config ≡ some c
    → c.scan_profile.required_scanners ≡ []
unfolding legacy_cra_consumer
legacy_requires_none config c h = elim (Bool-cases config.cra_reporting.enabled) [
  | inl on ↦
      subst (λ d. d.scan_profile.required_scanners ≡ []) (some_inj (let k = (rw on at h) in k)) refl
  | inr off ↦ absurd (let k = (rw off at h) in cc)
]

none_called :
    (cs : List ConsumerConfig)
    → any (λ c. c.consumer_id == "cra") cs ≡ false
    → All (λ c. c.consumer_id ≢ "cra") cs
none_called [] h = tt
none_called (c ∷ cs) h = (==_ne c.consumer_id "cra" (ground arith), none_called cs (ground arith))

called :
    (cs : List ConsumerConfig)
    → any (λ c. c.consumer_id == "cra") cs ≡ true
    → ¬ All (λ c. c.consumer_id ≢ "cra") cs
called [] h k = cc
called (c ∷ cs) h k = elim (Bool-cases (c.consumer_id == "cra")) [
  | inl own ↦ k.0 ((eq_iff c.consumer_id "cra").0 own)
  | inr other ↦ called cs (ground arith) k.1
]

module _ (config : SentryCodeConfig) (P : ConsumerConfig → Type 0) where
  listed_with :
      (o : Option ConsumerConfig)
      → legacy_cra_consumer config ≡ o
      → All (λ c. c.consumer_id ≢ "cra") config.consumers
      → Any P (append_some config.consumers o)
        ↔ (Any P config.consumers ⊎ ((c : ConsumerConfig) × IsLegacy config c × P c))
  listed_with none e none' = (λ h. inl h, λ h. elim h [ inl a ↦ a | inr q ↦ cc (e, q.1.1) ])
  listed_with (some d) e none' = (
    λ h. elim (Any-split P config.consumers (d ∷ []) h) [
      | inl a ↦ inl a
      | inr last ↦ elim last [ here p ↦ inr (d, (none', e), p) | there t ↦ elim t [ ] ]
    ],
    λ h. elim h [
      | inl a ↦ Any-left P config.consumers (d ∷ []) a
      | inr q ↦
          let same : q.0 ≡ d = some_inj (sym q.1.1 ∙ e) in
          Any-right P config.consumers (d ∷ []) (here (subst P same q.2))
    ],
  )

  listed_iff :
      Any P (list_configured_consumers config)
      ↔ (Any P config.consumers ⊎ ((c : ConsumerConfig) × IsLegacy config c × P c))
  unfolding list_configured_consumers
  listed_iff = elim (Bool-cases (any (λ c. c.consumer_id == "cra") config.consumers)) [
    | inl named ↦ rw named (
      λ h. inl h,
      λ h. elim h [ inl a ↦ a | inr q ↦ absurd (called config.consumers named q.1.0) ],
    )
    | inr free ↦
        rw free (listed_with (legacy_cra_consumer config) refl (none_called config.consumers free))
  ]

-- The consumers that are listed are those configured, and the older CRA section where it is enabled and
-- no consumer is called `cra`. They require a scanner exactly when a configured consumer that is enabled,
-- of one of the two adapters that are installed, names it: the older section requires none.
pub consumer_required_scanners-Requires :
    (config : SentryCodeConfig) (scanner : String)
    → ((c : ConsumerConfig)
        → Any (λ x. x ≡ c) (list_configured_consumers config)
          ↔ (Any (λ x. x ≡ c) config.consumers ⊎ IsLegacy config c))
      × ((includes (consumer_required_scanners config) scanner ≡ true)
          ↔ Any (Requires scanner) config.consumers)
consumer_required_scanners-Requires config scanner = (
  λ c. (
    λ h. elim ((listed_iff config (λ x. x ≡ c)).0 h) [
      | inl a ↦ inl a
      | inr q ↦ inr (subst (IsLegacy config) q.2 q.1)
    ],
    λ h. (listed_iff config (λ x. x ≡ c)).1 (elim h [ inl a ↦ inl a | inr l ↦ inr (c, l, refl) ]),
  ),
  (
    λ h.
        elim ((listed_iff config (Demands scanner)).0
          ((consumer_required_scanners_listed config scanner).0 h)) [
            | inl a ↦ Any-map _ _ (λ c d. (Demands-iff scanner c).0 d) a
            | inr q ↦ let k = (rw (legacy_requires_none config q.0 q.1.1) at q.2.2) in absurd (cc)
          ],
    λ a. (consumer_required_scanners_listed config scanner).1 (
        (listed_iff config (Demands scanner)).1
          (inl (Any-map _ _ (λ c d. (Demands-iff scanner c).1 d) a))),
  ),
)
