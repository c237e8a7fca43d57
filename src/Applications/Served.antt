-- ===== src/Applications/Served.antt =====
-- What the two applications answer, and when they reach the storage.
use scim2_server.Base.Dict
use scim2_server.Base.Dict.{Dict, get-put}
use scim2_server.Requests.{ScimRequest, ScimResponse, url}
use scim2_server.Service.Discovery.{
  is_scim, error_response, error_of_status, error_status, http_statuses,
}
use scim2_server.Handler.{ScimStorage}
use scim2_server.AsyncHandler.{done, run}
use scim2_server.AsyncHandler.Alone.{async_in_memory, run-attempt, given-Runs}
use scim2_server.AsyncHandler.Refines.{handle-Runs}
use scim2_server.Applications.{
  BaseApplication, set_default, propagates, handle_exception, finalize_response, authenticate,
  answer,
}
use scim2_server.Applications.Wsgi as Wsgi
use scim2_server.Applications.Asgi as Asgi
use scim2_server.Base.{
  contains, value_error, ◌≢◌, ◌≡◌, refl, ap, ◌∙◌, inl, inr, true, false, some, arith, Bool-cases,
  Option-cases, ◌==◌, ==_refl, nat_eq, Text, text_eq, option_text_eq, codes, Outcome, ok, err,
  Exception, ◌⊎◌, ◌≢◌,
}

-- The response has the header.
abbrev pub Has : {P : Type 0} → Text → ScimResponse P → Type 0
Has name response = (value : Text) × (Dict.get response.headers name ≡ some value)

abbrev Present : Dict Text Text → Text → Type 0
Present headers name = (value : Text) × (Dict.get headers name ≡ some value)

Present-set_default :
    (headers : Dict Text Text) (name value : Text) → Present (set_default headers name value) name
Present-set_default headers name value = elim (Option-cases (Dict.get headers name)) [
  | inl e ↦
      (value, rw (e, set_default) (ground (arith, get-put headers name value name, ==_refl name)))
  | inr (v, e) ↦ (v, rw (e, set_default) e)
]

Present-kept :
    (headers : Dict Text Text) (name value other_name : Text)
    → Present headers other_name
    → Present (set_default headers name value) other_name
Present-kept headers name value other_name (w, p) = elim (Option-cases (Dict.get headers name)) [
  | inl e ↦ elim (Bool-cases (name == other_name)) [
    | inl same ↦
        (value, rw (e, set_default) (ground (arith, get-put headers name value other_name, same)))
    | inr different ↦ (
      w,
      rw (e, set_default) (ground (arith, get-put headers name value other_name, different, p)),
    )
  ]
  | inr (v, e) ↦ (w, rw (e, set_default) p)
]

-- The response has the headers that every response carries.
pub record IsComplete {P : Type 0} (response : ScimResponse P) : Type 0 where
  pub located : Has (codes "Location") response
  pub cached : Has (codes "Cache-Control") response

module _ {P D J C : Type 0} (app : BaseApplication P D J C) where
  finalize_response-IsComplete :
      (r : ScimRequest) (response : ScimResponse P) → IsComplete (finalize_response app r response)
  unfolding finalize_response
  finalize_response-IsComplete r response =
      let located = set_default response.headers (codes "Location") (url r) in
      record {
        located =
            Present-kept located (codes "Cache-Control") (codes "no-cache") (codes "Location")
              (Present-set_default response.headers (codes "Location") (url r));
        cached = Present-set_default located (codes "Cache-Control") (codes "no-cache");
      }

  -- The exception reaches the server.
  abbrev pub Escapes : Exception → Type 0
  Escapes e = (app.propagate_exceptions ≡ true) × (is_scim e ≡ false)

  propagates-Escapes : (e : Exception) → propagates app e ≡ true → Escapes e
  unfolding propagates
  propagates-Escapes e h = ground (arith, h)

  -- `http.HTTPStatus` does not have the status of the exception.
  abbrev pub HasNoStatus : Exception → Type 0
  HasNoStatus e = contains http_statuses (error_status app.service e) ≡ false

  handle_exception-cases :
      (e : Exception)
      → ((response : ScimResponse P) × (handle_exception app e ≡ ok response))
        ⊎ HasNoStatus e × (handle_exception app e ≡ err value_error)
  unfolding handle_exception error_response
  handle_exception-cases e =
      elim (Bool-cases (contains http_statuses (error_status app.service e))) [
        | inl known ↦
            inl (error_of_status app.service e, rw (known, handle_exception, error_response) refl)
        | inr unknown ↦ inr (unknown, rw (unknown, handle_exception, error_response) refl)
      ]

  -- What an application answers to an outcome, or lets escape.
  abbrev pub Served : ScimRequest → Outcome (ScimResponse P) → Outcome (ScimResponse P) → Type 0
  Served r outcome served =
      ((response : ScimResponse P) × (served ≡ ok response) × IsComplete response)
      ⊎ ((e : Exception) × (outcome ≡ err e)
          × ((served ≡ err e) × Escapes e ⊎ (served ≡ err value_error) × HasNoStatus e))

  answer-handled :
      (r : ScimRequest) (e : Exception)
      → propagates app e ≡ false
      → Served r (err e) (answer app r (err e))
  answer-handled r e kept = elim (handle_exception-cases e) [
    | inl (response, handled) ↦ inl (
      finalize_response app r response,
      rw (kept, handled) refl,
      finalize_response-IsComplete r response,
    )
    | inr (unknown, raised) ↦ inr (e, refl, inr (rw (kept, raised) refl, unknown))
  ]

  answer-cases :
      (r : ScimRequest) (outcome : Outcome (ScimResponse P))
      → Served r outcome (answer app r outcome)
  answer-cases r (ok response) =
      inl (finalize_response app r response, refl, finalize_response-IsComplete r response)
  answer-cases r (err e) = elim (Bool-cases (propagates app e)) [
    | inr kept ↦ answer-handled r e kept
    | inl escapes ↦ inr (e, refl, inl (rw escapes refl, propagates-Escapes e escapes))
  ]

  module _ {S : Type 0} (storage : ScimStorage P C S) where
    -- `WSGIApplication.serve` answers every request, with a Location and a Cache-Control header, but for two cases: an exception that is no SCIM exception
    -- escapes from an application that propagates exceptions, and for an exception whose status is no `HTTPStatus` of Python
    -- a `ValueError` escapes.
    pub serve-answers :
        (r : ScimRequest) (s : S)
        → Served r (Wsgi.dispatch_request app storage r s).0 (Wsgi.serve app storage r s).0
    unfolding Wsgi.serve
    serve-answers r s = answer-cases r (Wsgi.dispatch_request app storage r s).0

    -- `ASGIApplication.serve` alone over an asynchronous storage that delegates to a storage gives the answer or the exception of
    -- `WSGIApplication.serve` over this storage, and leaves the same state.
    pub serve-Runs :
        (r : ScimRequest) (s : S)
        → run (async_in_memory storage) (Asgi.serve app (async_in_memory storage) r) s
          ≡ Wsgi.serve app storage r s
    unfolding Wsgi.serve Asgi.serve Wsgi.dispatch_request Asgi.dispatch_request
    serve-Runs r s =
        run-attempt (async_in_memory storage)
          (Asgi.dispatch_request app (async_in_memory storage) r)
          (λ outcome. done (answer app r outcome)) s
        ∙ ap (λ x. (answer app r x.0, x.1))
            (given-Runs app.service storage (authenticate app r) _ _
              (λ known. handle-Runs app.service storage known) s)
