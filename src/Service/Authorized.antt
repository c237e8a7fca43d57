-- ===== src/Service/Authorized.antt =====
-- Which resource types a search covers.
use scim2_server.Models.{ResourceType}
use scim2_server.Routing.{Target}
use scim2_server.Requests.{ScimRequest}
use scim2_server.Service.{ScimService}
use scim2_server.Service.Routes.{
  keep_type, keep_authorized, or_forbidden, is_forbidden, authorized_types,
}
use scim2_server.Base.{
  ◌≡◌, ◌≢◌, refl, ◌∙◌, inl, inr, Bool, true, false, none, List, [], ◌∷◌, arith, if◌then◌else◌,
  Bool-cases, nat_eq, text_eq, option_text_eq, keep, Outcome, ok, err, >>=-eq-ok,
}

abbrev pub is_ok : {A : Type 0} → Outcome A → Bool
is_ok (ok a) = true
is_ok (err e) = false

keep_type-ok :
    (rt : ResourceType) (decision : Outcome (Unit {0})) (rest : Outcome (List ResourceType))
    (rts : List ResourceType)
    → keep_type rt decision rest ≡ ok rts
    → (rts' : List ResourceType) × (rest ≡ ok rts')
      × (rts ≡ (if is_ok decision then rt ∷ rts' else rts'))
keep_type-ok rt (ok _) rest rts h =
    let (rts', passed, e) = >>=-eq-ok rest (λ found. ok (rt ∷ found)) h in (rts', passed, cc)
keep_type-ok rt (err e) rest rts h = elim (Bool-cases (is_forbidden e)) [
  | inl p ↦ (rts, rw p at h, refl)
  | inr p ↦ absurd (refused (rw p at h))
]
  where
    refused : err e ≡ ok rts → ⊥
    refused q = cc

or_forbidden-ok :
    (kept found : List ResourceType) → or_forbidden kept ≡ ok found → (found ≡ kept) × (found ≢ [])
or_forbidden-ok [] found h = cc
or_forbidden-ok (rt ∷ rts) found h = (accepted h, λ e. cc)
  where
    accepted : ok (rt ∷ rts) ≡ ok found → found ≡ rt ∷ rts
    accepted q = cc

module _ {P D J C : Type 0} (sv : ScimService P D J C) (r : ScimRequest) (target : Target) where
  abbrev pub allows : ResourceType → Bool
  allows rt = is_ok (sv.authorize r target rt)

  keep_authorized-keep :
      (rts found : List ResourceType)
      → keep_authorized sv r target rts ≡ ok found
      → found ≡ keep allows rts
  unfolding keep_authorized
  keep_authorized-keep [] found h = ground arith
  keep_authorized-keep (rt ∷ rts) found h =
      let (rest, passed, e) =
        keep_type-ok rt (sv.authorize r target rt) (keep_authorized sv r target rts) found h in
      rw (e, keep_authorized-keep rts rest passed) refl

  -- A search at the root that is accepted covers exactly the types that the client may search, in
  -- their order, and there is at least one.
  pub authorized_types-keep :
      (rts found : List ResourceType)
      → target.endpoint ≡ none
      → authorized_types sv r target rts ≡ ok found
      → (found ≡ keep allows rts) × (found ≢ [])
  unfolding authorized_types
  authorized_types-keep rts found root h =
      let (kept, passed, e) =
        >>=-eq-ok (keep_authorized sv r target rts) or_forbidden
          (rw (root, authorized_types) at h) in
      let (same, some_type) = or_forbidden-ok kept found e in
      (same ∙ keep_authorized-keep rts kept passed, some_type)
