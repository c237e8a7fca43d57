-- ===== src/Applications/Tenants/Kept.antt =====
-- The applications of a `TenantDispatcher` over many requests.
use scim2_server.Base.Dict
use scim2_server.Base.Dict.{Dict, get-put}
use scim2_server.Base.{
  ◌≡◌, refl, sym, ap, ◌∙◌, inl, inr, Option, none, some, arith, Option-cases, ==_iff, ==_refl,
  nat_eq, Text, text_eq, option_text_eq,
}
use scim2_server.Applications.Tenants.{get_application}

module _ {A : Type 0} where
  -- Requests for the applications of tenants, whatever the factory builds for them.
  pub data Asked (applications : Dict Text A) : Dict Text A → Type 0 where
    nothing : Asked applications applications
    ask :
        {later : Dict Text A} (built : Option A) (tenant : Text)
        → Asked applications later
        → Asked applications (get_application built tenant later).1

  get_application-there :
      (built : Option A) (tenant : Text) (applications : Dict Text A) (application : A)
      → Dict.get applications tenant ≡ some application
      → get_application built tenant applications ≡ (some application, applications)
  unfolding get_application
  get_application-there built tenant applications application there =
      rw (there, get_application) refl

  get_application-built :
      (a : A) (tenant : Text) (applications : Dict Text A)
      → Dict.get applications tenant ≡ none
      → get_application (some a) tenant applications ≡ (some a, Dict.put applications tenant a)
  unfolding get_application
  get_application-built a tenant applications missing = rw (missing, get_application) refl

  get_application-found :
      (built : Option A) (tenant : Text) (applications : Dict Text A) (application : A)
      → (get_application built tenant applications).0 ≡ some application
      → Dict.get (get_application built tenant applications).1 tenant ≡ some application
  unfolding get_application
  get_application-found none tenant applications application e =
      elim (Option-cases (Dict.get applications tenant)) [
        | inr (a, there) ↦ rw (there, get_application) (there ∙ (rw (there, get_application) at e))
        | inl missing ↦ absurd (no (rw (missing, get_application) at e))
      ]
    where
      no : none ≡ some application → ⊥
      no e = cc
  get_application-found (some a) tenant applications application e =
      elim (Option-cases (Dict.get applications tenant)) [
        | inr (a', there) ↦ rw (there, get_application) (there ∙ (rw (there, get_application) at e))
        | inl missing ↦
            let built_now = get_application-built a tenant applications missing in
            ap (λ (x : Option A × Dict Text A). Dict.get x.1 tenant) built_now
            ∙ ground (arith, get-put applications tenant a tenant, ==_refl tenant)
            ∙ ap (λ (x : Option A × Dict Text A). x.0) (sym built_now)
            ∙ e
      ]

  get_application-kept :
      (built : Option A) (tenant other_tenant : Text) (applications : Dict Text A) (application : A)
      → Dict.get applications tenant ≡ some application
      → Dict.get (get_application built other_tenant applications).1 tenant ≡ some application
  unfolding get_application
  get_application-kept none tenant other_tenant applications application e =
      elim (Option-cases (Dict.get applications other_tenant)) [
        | inr (a, there) ↦ rw (there, get_application) e
        | inl missing ↦ rw (missing, get_application) e
      ]
  get_application-kept (some a) tenant other_tenant applications application e =
      elim (Option-cases (Dict.get applications other_tenant)) [
        | inr (a', there) ↦ rw (there, get_application) e
        | inl missing ↦
            rw (missing, get_application)
              (ground (
                arith,
                get-put applications other_tenant a tenant,
                missing,
                e,
                ==_iff other_tenant tenant,
              ))
      ]

  Asked-kept :
      (tenant : Text) (application : A) {applications later : Dict Text A}
      → Asked applications later
      → Dict.get applications tenant ≡ some application
      → Dict.get later tenant ≡ some application
  Asked-kept tenant application nothing e = e
  Asked-kept tenant application (ask {later} built other_tenant asked) e =
      get_application-kept built tenant other_tenant later application
        (Asked-kept tenant application asked e)

  -- When a request has got the application of a tenant, every later request for this tenant gets the same application, whatever applications
  -- were asked for in between, and whatever the factory would build now.
  pub get_application-same :
      (built built' : Option A) (tenant : Text) (applications later : Dict Text A) (application : A)
      → (get_application built tenant applications).0 ≡ some application
      → Asked (get_application built tenant applications).1 later
      → get_application built' tenant later ≡ (some application, later)
  get_application-same built built' tenant applications later application e asked =
      get_application-there built' tenant later application (
        Asked-kept tenant application asked
          (get_application-found built tenant applications application e))
