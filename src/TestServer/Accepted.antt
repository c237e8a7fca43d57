-- ===== src/TestServer/Accepted.antt =====
-- Which requests `StaticCredentialsApplication.check_auth` accepts.
use scim2_server.Requests.{ScimRequest, header}
use scim2_server.Service.{or_empty}
use scim2_server.Applications.{partition}
use scim2_server.Base.{
  some-injective, ok-injective, Outcome, Outcome-cases, ◌>>=◌, Option, none, Exception, ◌≡◌, refl,
  sym, ap, ◌∙◌, ◌↔◌, inl, inr, true, false, ◌&&◌, some, List, [], ◌∷◌, ◌++◌, arith, Bool-cases,
  Option-cases, contains, ◌==◌, ==_iff, nat_eq, Text, text_eq, option_text_eq, codes, ok, err,
  unauthorized, ◌⊎◌,
}
use scim2_server.TestServer.{
  StaticCredentials, credentials_of, decode_basic_credentials, is_valid_token, lists,
  are_valid_credentials, check_parts, refuse_unless, among, check_auth, is_empty,
}
use scim2_server.Base.{Elem}
use scim2_server.TestServer.Separated.{credentials_of_iff, Elem-contains, is_empty_iff}

module _ (app : StaticCredentials) where
  lists-Elem :
      (all : List (Text × Text)) (credentials : Text × Text)
      → (lists app all credentials ≡ true) ↔ Elem credentials all
  lists-Elem [] credentials = (λ e. cc, λ m. absurd m)
  lists-Elem ((user, password) ∷ rest) credentials =
      ground (
        arith,
        lists-Elem rest credentials,
        ==_iff credentials.0 user,
        ==_iff credentials.1 password,
      )

  -- The credentials are listed, and their user has no colon.
  abbrev pub IsListed : Text → Type 0
  IsListed value =
      (user : Text) × (password : Text) × (app.decode value ≡ ok (some (user ++ b':' ∷ password)))
      × (contains user b':' ≡ false)
      × Elem (user, password) app.basic_credentials

  decoded-IsListed :
      (value text : Text)
      → app.decode value ≡ ok (some text)
      → among app (credentials_of (partition b':' text)) ≡ true
      → IsListed value
  decoded-IsListed value text e h = elim (Option-cases (credentials_of (partition b':' text))) [
    | inl malformed ↦ absurd (no (rw malformed at h))
    | inr ((user, password), found) ↦
        let (cut, first) = (credentials_of_iff text user password).0 found in
        (
          user,
          password,
          e ∙ ap (λ x. ok (some x)) cut,
          first,
          (lists-Elem app.basic_credentials (user, password)).0 (rw found at h),
        )
  ]
    where
      no : false ≡ true → ⊥
      no e = cc

  IsListed-decoded :
      (value text : Text)
      → app.decode value ≡ ok (some text)
      → IsListed value
      → among app (credentials_of (partition b':' text)) ≡ true
  IsListed-decoded value text e (user, password, decoded, first, m) =
      let same : text ≡ user ++ b':' ∷ password = some-injective (ok-injective (sym e ∙ decoded)) in
      let found = (credentials_of_iff text user password).1 (same, first) in
      rw found ((lists-Elem app.basic_credentials (user, password)).1 m)

  -- `b64decode` raises an exception that is not caught.
  abbrev pub Raises : Text → Exception → Type 0
  Raises value e = app.decode value ≡ err e

  are_valid_credentials-cases :
      (value : Text)
      → (IsListed value × (are_valid_credentials app value ≡ ok true))
        ⊎ ((¬ IsListed value)
            × ((e : Exception) → ¬ Raises value e)
            × (are_valid_credentials app value ≡ ok false))
        ⊎ ((e : Exception) × Raises value e × (are_valid_credentials app value ≡ err e))
  unfolding are_valid_credentials decode_basic_credentials
  are_valid_credentials-cases value = elim (Outcome-cases (app.decode value)) [
    | inr (e, raised) ↦ inr (inr (e, raised, rw (raised, are_valid_credentials) refl))
    | inl (none, undecoded) ↦ inr (
        inl (
          (λ (user, password, decoded, _, _). apart (sym undecoded ∙ decoded)),
          (λ e raised. clash e (sym undecoded ∙ raised)),
          rw (undecoded, are_valid_credentials) refl,
        ))
    | inl (some text, decoded) ↦
        elim (Bool-cases (among app (credentials_of (partition b':' text)))) [
          | inl listed ↦ inl (
            decoded-IsListed value text decoded listed,
            rw (decoded, are_valid_credentials) (ap (λ x. ok x) listed),
          )
          | inr other ↦ inr (
              inl (
                (λ has. no (sym other ∙ IsListed-decoded value text decoded has)),
                (λ e raised. clash e (sym decoded ∙ raised)),
                rw (decoded, are_valid_credentials) (ap (λ x. ok x) other),
              ))
        ]
  ]
    where
      no : false ≡ true → ⊥
      no e = cc

      apart : {text : Text} → ◌≡◌ {A = Outcome (Option Text)} (ok none) (ok (some text)) → ⊥
      apart e = cc

      clash : {o : Option Text} (e : Exception) → ok o ≡ err e → ⊥
      clash e p = cc

  -- The Authorization header holds a bearer token or Basic credentials that are listed.
  abbrev pub HasCredentials : Text → Type 0
  HasCredentials text =
      let (scheme, _, value) = partition b' ' text in
      (app.lower scheme ≡ codes "bearer") × Elem value app.bearer_tokens
      ⊎ (app.lower scheme ≡ codes "basic") × IsListed value

  -- It holds Basic credentials on which `b64decode` raises an exception that is not caught.
  abbrev pub HasUnread : Text → Exception → Type 0
  HasUnread text e =
      let (scheme, _, value) = partition b' ' text in
      (app.lower scheme ≡ codes "basic") × Raises value e

  -- What `check_auth` does with a header, when credentials are configured.
  abbrev pub Checked : Text → Outcome (Unit {0}) → Type 0
  Checked text outcome =
      (HasCredentials text × (outcome ≡ ok tt))
      ⊎ ((¬ HasCredentials text)
          × ((e : Exception) → ¬ HasUnread text e)
          × (outcome ≡ err unauthorized))
      ⊎ ((e : Exception) × HasUnread text e × (outcome ≡ err e))

  check_basic :
      (text : Text)
      → (app.lower (partition b' ' text).0 ≡ codes "basic")
      → Checked text (are_valid_credentials app (partition b' ' text).2 >>= refuse_unless app)
  check_basic text basic = elim (are_valid_credentials-cases (partition b' ' text).2) [
    | inl (listed, valid) ↦ inl (inr (basic, listed), rw valid refl)
    | inr (inl (unlisted, reads, invalid)) ↦ inr (
        inl (
          (λ has. elim has [
            | inl (bearer, _) ↦ schemes (sym bearer ∙ basic)
            | inr (_, listed) ↦ unlisted listed
          ]),
          (λ e (_, raised). reads e raised),
          rw invalid refl,
        ))
    | inr (inr (e, raised, unread)) ↦ inr (inr (e, (basic, raised), rw unread refl))
  ]
    where
      schemes : codes "bearer" ≡ codes "basic" → ⊥
      schemes e = cc

  check_parts-Checked : (text : Text) → Checked text (check_parts app (partition b' ' text))
  unfolding is_valid_token
  check_parts-Checked text =
      let scheme = app.lower (partition b' ' text).0 in
      let value = (partition b' ' text).2 in
      elim (Bool-cases (scheme == codes "bearer" && contains app.bearer_tokens value)) [
        | inl token ↦ inl (
          inl (
              ground (
                arith,
                token,
                ==_iff scheme (codes "bearer"),
                Elem-contains app.bearer_tokens value,
              )),
          rw token refl,
        )
        | inr no_token ↦ elim (Bool-cases (scheme == codes "basic")) [
          | inl basic ↦
              rw (no_token, basic) (check_basic text ((==_iff scheme (codes "basic")).0 basic))
          | inr other ↦ inr (
              inl (
                (λ has. ground (
                  arith,
                  has,
                  no_token,
                  other,
                  ==_iff scheme (codes "bearer"),
                  ==_iff scheme (codes "basic"),
                  Elem-contains app.bearer_tokens value,
                )),
                (λ e (basic, _). ground (arith, basic, other, ==_iff scheme (codes "basic"))),
                rw (no_token, other) refl,
              ))
        ]
      ]

  -- The `Authorization` header of a request, or an empty text.
  abbrev pub authorization : ScimRequest → Text
  authorization r = or_empty (header app.lower (codes "Authorization") r)

  abbrev pub AcceptsAll : Type 0
  AcceptsAll = (app.bearer_tokens ≡ []) × (app.basic_credentials ≡ [])

  -- `check_auth` accepts a request when no credentials are configured, or when its Authorization header holds a listed bearer token, or Basic
  -- credentials that decode to a listed user without a colon, a colon, and its password. It refuses any other request: as unauthorized,
  -- or, for Basic credentials on which `b64decode` raises an exception that the code does not catch, with this exception.
  pub check_auth-cases :
      (r : ScimRequest)
      → (AcceptsAll × (check_auth app r ≡ ok tt))
        ⊎ (¬ AcceptsAll) × Checked (authorization r) (check_auth app r)
  unfolding check_auth
  check_auth-cases r =
      elim (Bool-cases (is_empty app.bearer_tokens && is_empty app.basic_credentials)) [
        | inl open_to_all ↦ inl (none_configured open_to_all, rw (open_to_all, check_auth) refl)
        | inr restricted ↦ inr (
          (λ all. clash (sym restricted ∙ both all)),
          rw (restricted, check_auth) (check_parts-Checked (authorization r)),
        )
      ]
    where
      none_configured :
          (is_empty app.bearer_tokens && is_empty app.basic_credentials) ≡ true → AcceptsAll
      none_configured e =
          ground (arith, e, is_empty_iff app.bearer_tokens, is_empty_iff app.basic_credentials)

      both : AcceptsAll → (is_empty app.bearer_tokens && is_empty app.basic_credentials) ≡ true
      both all =
          ground (arith, all, is_empty_iff app.bearer_tokens, is_empty_iff app.basic_credentials)

      clash : false ≡ true → ⊥
      clash e = cc
