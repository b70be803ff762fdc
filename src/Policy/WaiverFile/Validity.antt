-- ===== src/Policy/WaiverFile/Validity.antt =====
-- What every waiver that was read from a file satisfies.
use quilons_sentrycode.Common.{
  ℕ, suc, ◌≡◌, refl, ap, subst, ◌≢◌, inl, inr, Bool, true, false, not, ◌||◌, String, List, [], ◌∷◌,
  map, Option, none, some, arith, Bool-cases, string_eq, ==_ne, ◌==◌, is_some, is_blank, includes,
  All,
}
use quilons_sentrycode.Common.Result.{ok-injective, ok, >>=-eq-ok, throw_if-eq-ok}
use quilons_sentrycode.Core.Json.{Json, obj, arr, Items, nil, cons, Fields, JsonFile, text}
use quilons_sentrycode.Core.Platform.{Platform}
use quilons_sentrycode.Core.Findings.{Waiver}
use quilons_sentrycode.Policy.WaiverFile.{
  required, present, parse_fields, parse_waiver, parse_waivers, check_ids, waivers_of, load_waivers,
}

-- A list with no repetition.
abbrev pub AllDistinct : List String → Type 0
AllDistinct [] = Unit {0}
AllDistinct (x ∷ xs) = All (λ y. x ≢ y) xs × AllDistinct xs

-- The waiver says what the item of the array says.
pub record IsRead (x : Json) (w : Waiver) : Type 0 where
  pub fields : Fields
  pub is_object : x ≡ obj fields
  pub id : text "id" fields ≡ some w.id
  pub reason : text "reason" fields ≡ some w.reason
  pub expires : text "expiresAt" fields ≡ some w.expires_at
  pub fingerprint : text "fingerprint" fields ≡ w.fingerprint
  pub rule : text "ruleId" fields ≡ w.rule_id
  pub path : text "path" fields ≡ w.path
  pub scanner : text "scanner" fields ≡ w.scanner
  pub repository : text "repository" fields ≡ w.repository
  pub service : text "service" fields ≡ w.service
  pub ticket : text "ticket" fields ≡ w.ticket
  pub created : text "createdAt" fields ≡ w.created_at
  pub author : text "author" fields ≡ w.author
  pub approver : text "approver" fields ≡ w.approver
  pub approved : text "approvedAt" fields ≡ w.approved_at

abbrev pub AreRead : Items → List Waiver → Type 0
AreRead nil [] = Unit {0}
AreRead (cons x xs) (w ∷ ws) = IsRead x w × AreRead xs ws
AreRead _ _ = ⊥

abbrev pub items_of : JsonFile → Items
items_of (JsonFile.value (arr xs)) = xs
items_of _ = nil

module _ (host : Platform) where
  -- Named, reasoned and bounded in time, with a text for one of the four fields of its scope; the text
  -- may be empty.
  pub record WellFormed (w : Waiver) : Type 0 where
    pub id : is_blank w.id ≡ false
    pub reason : is_blank w.reason ≡ false
    pub expires : (t : ℕ) × (host.parse_date w.expires_at ≡ some t)
    pub has_scope_field :
        (is_some w.fingerprint || is_some w.rule_id || is_some w.path || is_some w.scanner) ≡ true

  required-eq-ok : (o : Option String) (m s : String) → required o m ≡ ok s → is_blank s ≡ false
  required-eq-ok none m s h = cc
  required-eq-ok (some t) m s h = elim (Bool-cases (is_blank t)) [
    | inl e ↦ absurd (ground arith)
    | inr e ↦ ground arith
  ]

  required-value : (o : Option String) (m s : String) → required o m ≡ ok s → o ≡ some s
  required-value none m s h = cc
  required-value (some t) m s h = elim (Bool-cases (is_blank t)) [
    | inl e ↦ absurd (let k = (rw e at h) in cc)
    | inr e ↦ ap some (ok-injective (let k = (rw e at h) in k))
  ]

  present-value : (o : Option String) (m s : String) → present o m ≡ ok s → o ≡ some s
  present-value none m s h = cc
  present-value (some t) m s h = ap some (ok-injective h)

  is_some-not : (o : Option ℕ) → not (is_some o) ≡ false → (t : ℕ) × (o ≡ some t)
  is_some-not none h = cc
  is_some-not (some t) h = (t, refl)

  not-false : (b : Bool) → not b ≡ false → b ≡ true
  not-false b h = ground arith

  parse_fields-WellFormed :
      (i : ℕ) (v : Fields) (w : Waiver)
      → parse_fields host i v ≡ ok w
      → WellFormed w × IsRead (obj v) w
  unfolding parse_fields
  parse_fields-WellFormed i v w h =
      let (id, hid, h1) = >>=-eq-ok (required (text "id" v) _) _ h in
      let (reason, hreason, h2) = >>=-eq-ok (required (text "reason" v) _) _ h1 in
      let (expires, hexpires, h3) = >>=-eq-ok (present (text "expiresAt" v) _) _ h2 in
      let (dated, h4) = throw_if-eq-ok (not (is_some (host.parse_date expires))) _ _ h3 in
      let (scoped, h5) = throw_if-eq-ok _ _ _ h4 in
      subst (λ w. WellFormed w × IsRead (obj v) w) (ok-injective h5)
        (
          record {
            id = required-eq-ok _ _ id hid;
            reason = required-eq-ok _ _ reason hreason;
            expires = is_some-not _ dated;
            has_scope_field = not-false _ scoped;
          },
          record {
            fields = v;
            is_object = refl;
            id = required-value _ _ id hid;
            reason = required-value _ _ reason hreason;
            expires = present-value _ _ expires hexpires;
            fingerprint = refl;
            rule = refl;
            path = refl;
            scanner = refl;
            repository = refl;
            service = refl;
            ticket = refl;
            created = refl;
            author = refl;
            approver = refl;
            approved = refl;
          },
        )

  parse_waiver-WellFormed :
      (i : ℕ) (x : Json) (w : Waiver) → parse_waiver host i x ≡ ok w → WellFormed w × IsRead x w
  unfolding parse_waiver
  parse_waiver-WellFormed i (obj v) w h = parse_fields-WellFormed i v w h
  parse_waiver-WellFormed i _ w h = cc

  parse_waivers-WellFormed :
      (i : ℕ) (xs : Items) (ws : List Waiver)
      → parse_waivers host i xs ≡ ok ws
      → All WellFormed ws × AreRead xs ws
  unfolding parse_waivers
  parse_waivers-WellFormed i nil ws h =
      subst (λ ws. All WellFormed ws × AreRead nil ws) (ok-injective h) (tt, tt)
  parse_waivers-WellFormed i (cons x xs) ws h =
      let (w, hw, h1) = >>=-eq-ok (parse_waiver host i x) _ h in
      let (vs, hvs, h2) = >>=-eq-ok (parse_waivers host (suc i) xs) _ h1 in
      let one = parse_waiver-WellFormed i x w hw in
      let rest = parse_waivers-WellFormed (suc i) xs vs hvs in
      subst (λ ws. All WellFormed ws × AreRead (cons x xs) ws) (ok-injective h2)
        ((one.0, rest.0), (one.1, rest.1))

  unseen :
      (id : String) (ids : List String) (ws : List Waiver)
      → All (λ (w : Waiver). includes (id ∷ ids) w.id ≡ false) ws
      → All (λ (w : Waiver). includes ids w.id ≡ false) ws
        × All (λ y. id ≢ y) (map (λ (w : Waiver). w.id) ws)
  unseen id ids [] h = (tt, tt)
  unseen id ids (w ∷ ws) h =
      let (old, new) = unseen id ids ws h.1 in
      let fresh : (id == w.id) ≡ false = ground arith in
      ((ground arith, old), (==_ne id w.id fresh, new))

  check_ids-AllDistinct :
      (ids : List String) (ws : List Waiver)
      → check_ids ids ws ≡ ok tt
      → All (λ (w : Waiver). includes ids w.id ≡ false) ws
        × AllDistinct (map (λ (w : Waiver). w.id) ws)
  unfolding check_ids
  check_ids-AllDistinct ids [] h = (tt, tt)
  check_ids-AllDistinct ids (w ∷ ws) h =
      let (new, h1) = throw_if-eq-ok (includes ids w.id) _ (check_ids (w.id ∷ ids) ws) h in
      let (later, distinct) = check_ids-AllDistinct (w.id ∷ ids) ws h1 in
      let (old, apart) = unseen w.id ids ws later in ((new, old), (apart, distinct))

  -- A file that loads gives one waiver for each item of its array, in their order, with what the item
  -- says, and a file that is missing gives none. Each waiver has a name and a reason that are not blank,
  -- a date of expiry that can be read, and a text, which may be empty, for at least one of
  -- `fingerprint`, `ruleId`, `path` and `scanner`; and their names are distinct.
  pub load_waivers-WellFormed :
      (absolute : String) (file : JsonFile) (ws : List Waiver)
      → load_waivers host absolute file ≡ ok ws
      → AreRead (items_of file) ws × All WellFormed ws × AllDistinct (map (λ (w : Waiver). w.id) ws)
  unfolding load_waivers waivers_of
  load_waivers-WellFormed absolute (JsonFile.missing m) ws h =
      subst (λ vs. AreRead nil vs × All WellFormed vs × AllDistinct (map (λ (w : Waiver). w.id) vs))
        (ok-injective h) (tt, tt, tt)
  load_waivers-WellFormed absolute (JsonFile.unreadable m) ws h = cc
  load_waivers-WellFormed absolute JsonFile.malformed ws h = cc
  load_waivers-WellFormed absolute (JsonFile.value (arr xs)) ws h =
      let (vs, parsed, h1) = >>=-eq-ok (parse_waivers host 0 xs) _ h in
      let (u, checked, h2) = >>=-eq-ok (check_ids [] vs) _ h1 in
      let read = parse_waivers-WellFormed 0 xs vs parsed in
      subst (λ vs. AreRead xs vs × All WellFormed vs × AllDistinct (map (λ (w : Waiver). w.id) vs))
        (ok-injective h2) (read.1, read.0, (check_ids-AllDistinct [] vs checked).1)
  load_waivers-WellFormed absolute (JsonFile.value _) ws h = cc
