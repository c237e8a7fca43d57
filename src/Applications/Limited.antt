-- ===== src/Applications/Limited.antt =====
-- The limit of the body of a request, and what a bulk request answers to a body that is cut there.
use scim2_server.Routing.{
  Operation, Target, Route, Values, target_of, refuse, match_routes, match_pattern,
}
use scim2_server.Requests.{ScimRequest}
use scim2_server.Service.{BulkConfig, ScimService, ensure_bulk_payload_size, ensure_supported}
use scim2_server.Service.Routes.{match_request, same_operation, max_body_size, value_of_operation}
use scim2_server.Service.BulkSteps.{read_bulk}
use scim2_server.Handler.Requested.{content_type}
use scim2_server.Applications.{cut}
use scim2_server.Base.{
  text_beq, ℕ, zero, suc, ◌+◌, ◌≤◌, ◌≡◌, refl, ap, ◌∙◌, subst, inl, inr, true, false, not, Option,
  none, some, List, [], ◌∷◌, ◌++◌, arith, ltb, if◌then◌else◌, Bool-cases, Option-cases, All, ◌==◌,
  nat_eq, Text, text_eq, option_text_eq, length, Outcome, ok, err, not_found, Exception,
  not_implemented, payload_too_large, take, ◌⊎◌,
}

pub take-all : {A : Type 0} (n : ℕ) (xs : List A) → length xs ≤ n → take n xs ≡ xs
take-all zero [] h = refl
take-all (suc n) [] h = refl
take-all zero (x ∷ xs) h = absurd (omega arith)
take-all (suc n) (x ∷ xs) h = ap (λ ys. x ∷ ys) (take-all n xs (omega arith))

pub length-take : {A : Type 0} (n : ℕ) (xs : List A) → n ≤ length xs → length (take n xs) ≡ n
length-take zero xs h = refl
length-take (suc n) [] h = absurd (omega arith)
length-take (suc n) (x ∷ xs) h = ap suc (length-take n xs (omega arith))

-- The routes of an operation other than `/Me`.
pub match_routes-target :
    (Q : Target → Type 0) (rs : List Route) (method : Text) (segments allowed : List Text)
    (t : Target)
    → All (λ r. (values : Values) → Q (target_of r values)) rs
    → match_routes rs method segments allowed ≡ ok t
    → Q t
unfolding match_routes
match_routes-target Q [] method segments [] t all e = absurd (no e)
  where
    no : ◌≡◌ {A = Outcome Target} (err not_found) (ok t) → ⊥
    no e = cc
match_routes-target Q [] method segments (m ∷ allowed) t all e = absurd (no e)
  where
    no : ◌≡◌ {A = Outcome Target} (refuse (m ∷ allowed)) (ok t) → ⊥
    no e = cc
match_routes-target Q (r ∷ rs) method segments allowed t (h, all) e =
    elim (Option-cases (match_pattern r.pattern segments)) [
      | inl p ↦ match_routes-target Q rs method segments allowed t all (rw (p, match_routes) at e)
      | inr (values, p) ↦ elim (Bool-cases (r.method == method)) [
        | inl q ↦ subst Q (found (rw (p, match_routes, q) at e)) (h values)
        | inr q ↦
            match_routes-target Q rs method segments (allowed ++ r.method ∷ []) t all
              (rw (p, match_routes, q) at e)
      ]
    ]
  where
    found : {values : Values} → ok (target_of r values) ≡ ok t → target_of r values ≡ t
    found e = ground (arith, e)

pub bulk-cases : (o : Operation) → (o ≡ Operation.bulk) ⊎ (same_operation o Operation.bulk ≡ false)
unfolding value_of_operation text_beq
bulk-cases Operation.create = inr refl
bulk-cases Operation.query = inr refl
bulk-cases Operation.replace = inr refl
bulk-cases Operation.patch = inr refl
bulk-cases Operation.delete = inr refl
bulk-cases Operation.search = inr refl
bulk-cases Operation.search_with_body = inr refl
bulk-cases Operation.bulk = inl refl
bulk-cases Operation.service_provider_config = inr refl
bulk-cases Operation.resource_types = inr refl
bulk-cases Operation.resource_type = inr refl
bulk-cases Operation.schemas = inr refl
bulk-cases Operation.schema = inr refl

module _ {P D J C : Type 0} (sv : ScimService P D J C) where
  -- The request with the body that an application reads.
  abbrev pub cut_request : ScimRequest → ScimRequest
  cut_request r = record r { body = cut (max_body_size sv r) r.body }

  -- The limit of a bulk request.
  abbrev bulk_limit : Option BulkConfig → Option ℕ
  bulk_limit none = some 0
  bulk_limit (some b) = if b.supported then b.max_payload_size else some 0

  max_body_size-bulk :
      (r : ScimRequest) (target : Target)
      → match_request sv r ≡ ok target
      → target.operation ≡ Operation.bulk
      → max_body_size sv r ≡ bulk_limit sv.config.bulk
  unfolding max_body_size value_of_operation text_beq
  max_body_size-bulk r target e o = rw (e, max_body_size, o) (settled sv.config.bulk)
    where
      settled :
          (c : Option BulkConfig)
          → (if not (same_operation Operation.bulk Operation.bulk)
              then none
              else elim c as (λ x. Option ℕ) [
                | none ↦ some 0
                | some b ↦ if b.supported then b.max_payload_size else some 0
              ])
            ≡ bulk_limit c
      settled none = refl
      settled (some b) = refl

  read_bulk-missing :
      (body : List ℕ) (content_type : Option Text)
      → sv.config.bulk ≡ none
      → read_bulk sv body content_type ≡ err not_implemented
  unfolding read_bulk
  read_bulk-missing body content_type e = rw (e, read_bulk) refl

  read_bulk-unsupported :
      (b : BulkConfig) (body : List ℕ) (content_type : Option Text)
      → sv.config.bulk ≡ some b
      → b.supported ≡ false
      → read_bulk sv body content_type ≡ err not_implemented
  unfolding read_bulk ensure_supported
  read_bulk-unsupported b body content_type e f = rw (e, read_bulk, f) refl

  payload-over :
      (b : BulkConfig) (limit size : ℕ)
      → sv.config.bulk ≡ some b
      → b.max_payload_size ≡ some limit
      → ltb limit size ≡ true
      → ensure_bulk_payload_size sv size ≡ err payload_too_large
  unfolding ensure_bulk_payload_size
  payload-over b limit size e g h = rw (e, ensure_bulk_payload_size, g, h) refl

  read_bulk-over :
      (b : BulkConfig) (limit : ℕ) (body : List ℕ) (content_type : Option Text)
      → sv.config.bulk ≡ some b
      → b.supported ≡ true
      → b.max_payload_size ≡ some limit
      → ltb limit (length body) ≡ true
      → read_bulk sv body content_type ≡ err payload_too_large
  unfolding read_bulk ensure_supported
  read_bulk-over b limit body content_type e f g h =
      rw (e, read_bulk, f, payload-over b limit (length body) e g h) refl

  -- Only a bulk request has a limit.
  pub no_limit :
      (r : ScimRequest) (target : Target)
      → match_request sv r ≡ ok target
      → same_operation target.operation Operation.bulk ≡ false
      → max_body_size sv r ≡ none
  unfolding max_body_size
  no_limit r target e o = rw (e, max_body_size, o) refl

  -- The body is not cut, or it is refused in either form.
  abbrev pub Uncut : ScimRequest → Option Text → Type 0
  Uncut r content_type =
      (cut_request r ≡ r)
      ⊎ (e : Exception) × (read_bulk sv (cut_request r).body content_type ≡ err e)
        × (read_bulk sv r.body content_type ≡ err e)

  limited-Uncut :
      (b : BulkConfig) (limit : ℕ) (r : ScimRequest) (content_type : Option Text)
      → sv.config.bulk ≡ some b
      → b.supported ≡ true
      → b.max_payload_size ≡ some limit
      → max_body_size sv r ≡ some limit
      → Uncut r content_type
  limited-Uncut b limit r content_type e f g m = elim (Bool-cases (ltb limit (length r.body))) [
    | inl over ↦ inr (
      payload_too_large,
      rw m (
          read_bulk-over b limit (take (limit + 1) r.body) content_type e f g
            (ground (arith, over, length-take (limit + 1) r.body (ground (arith, over))))),
      read_bulk-over b limit r.body content_type e f g over,
    )
    | inr within ↦ inl (
        ap (λ body. record r { body = body })
          (ap (λ x. cut x r.body) m ∙ take-all (limit + 1) r.body (ground (arith, within))))
  ]

  supported-Uncut :
      (b : BulkConfig) (limit : Option ℕ) (r : ScimRequest) (content_type : Option Text)
      → sv.config.bulk ≡ some b
      → b.supported ≡ true
      → b.max_payload_size ≡ limit
      → max_body_size sv r ≡ limit
      → Uncut r content_type
  supported-Uncut b none r content_type e f g m = inl (ap (λ x. record r { body = cut x r.body }) m)
  supported-Uncut b (some limit) r content_type e f g m =
      limited-Uncut b limit r content_type e f g m

  pub bulk-Uncut :
      (r : ScimRequest) (target : Target) (content_type : Option Text)
      → match_request sv r ≡ ok target
      → target.operation ≡ Operation.bulk
      → Uncut r content_type
  bulk-Uncut r target content_type e o = elim (Option-cases sv.config.bulk) [
    | inl missing ↦ inr (
      not_implemented,
      read_bulk-missing _ content_type missing,
      read_bulk-missing r.body content_type missing,
    )
    | inr (b, given) ↦ elim (Bool-cases b.supported) [
      | inl f ↦
          supported-Uncut b b.max_payload_size r content_type given f refl
            (max_body_size-bulk r target e o ∙ ground (arith, given, f))
      | inr f ↦ inr (
        not_implemented,
        read_bulk-unsupported b _ content_type given f,
        read_bulk-unsupported b r.body content_type given f,
      )
    ]
  ]
