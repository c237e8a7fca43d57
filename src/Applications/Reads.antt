-- ===== src/Applications/Reads.antt =====
-- What the two applications read of a body: the same, however the client sends it.
use scim2_server.Requests.{ScimRequest}
use scim2_server.Service.Routes.{max_body_size}
use scim2_server.Handler.{ScimStorage}
use scim2_server.Handler.Requested.{handle}
use scim2_server.Applications.{BaseApplication, cut}
use scim2_server.Applications.Wsgi as Wsgi
use scim2_server.Applications.Wsgi.{WsgiEnvironment, read, limited, body_size, read_body, is_given}
use scim2_server.Applications.Asgi as Asgi
use scim2_server.Applications.Asgi.{Message, Scope, extended, read_messages}
use scim2_server.Applications.Bodies.{handle-cut_request, async_handle-cut_request}
use scim2_server.AsyncHandler.{ImmediateStorage}
use scim2_server.AsyncHandler.Requested as Async
use scim2_server.Base.{
  ok-injective, some-injective, ℕ, ◌≡◌, sym, ap, ◌∙◌, subst, inl, inr, none, some, List, [],
  Option-cases, nat_eq, text_eq, option_text_eq, ok, >>=-eq-ok,
}
use scim2_server.Applications.Received.{
  WasSent, whole_body, body_size-WasSent, joined_body, cut_behind, cut_read, read_messages-cut,
  IsWithin, cut-IsWithin, read_whole,
}

module _ {P D J C S : Type 0} (app : BaseApplication P D J C) (storage : ScimStorage P C S) where
  -- The request with the body that the client sent gets the same answer, and its body was read within the limit.
  abbrev pub Answers : ScimRequest → List ℕ → Type 0
  Answers r whole =
      ((s : S)
        → handle app.service storage r s ≡ handle app.service storage (record r { body = whole }) s)
      × IsWithin (max_body_size app.service r) r.body

  cut-Answers :
      (r : ScimRequest) (body whole : List ℕ)
      → body ≡ cut (max_body_size app.service r) whole
      → Answers (record r { body = body }) whole
  unfolding max_body_size
  cut-Answers r body whole e =
      subst (λ b. Answers (record r { body = b }) whole) (sym e)
        (
          handle-cut_request app.service storage (record r { body = whole }),
          cut-IsWithin (max_body_size app.service r) whole,
        )

  -- When `WSGIApplication.read_request` gives a request, the handler answers it as if its body were
  -- all that the client sent: as many bytes of the input as the Content-Length says (all of it for a negative number), or without one the whole input if the server marks it as terminated,
  -- and else nothing. And the application read no more of it than one byte more than the service accepts.
  pub wsgi-whole :
      (library : Wsgi.Library P) (environ : WsgiEnvironment) (r : ScimRequest)
      → Wsgi.read_request app library environ ≡ ok r
      → (whole : List ℕ) × WasSent library environ whole × Answers r whole
  unfolding Wsgi.read_request read_body
  wsgi-whole library environ r e =
      let request = Wsgi.empty_request app library environ in
      let (body, read_it, same) =
        >>=-eq-ok (read_body app library environ request)
          (λ body. ok (record request { body = body })) e in
      let (size, found, given) = >>=-eq-ok (body_size app library environ) _ read_it in
      (
        whole_body environ.input size,
        body_size-WasSent app library environ size found,
        subst (λ x. Answers x (whole_body environ.input size)) (ok-injective same)
            (cut-Answers request body (whole_body environ.input size) (
              sym (ok-injective given)
              ∙ read_whole (max_body_size app.service request) environ.input size)),
      )

module _ {P D J C S : Type 0} (app : BaseApplication P D J C)
    (storage : ImmediateStorage P C S) where
  -- The request with the body that the client sent is served by the same coroutine, and its body was read within the limit.
  abbrev pub AwaitsSame : ScimRequest → List ℕ → Type 0
  AwaitsSame r whole =
      (Async.handle app.service storage r
        ≡ Async.handle app.service storage (record r { body = whole }))
      × IsWithin (max_body_size app.service r) r.body

  cut-AwaitsSame :
      (r : ScimRequest) (whole : List ℕ)
      → AwaitsSame (record r { body = cut (max_body_size app.service r) whole }) whole
  unfolding max_body_size
  cut-AwaitsSame r whole = (
    async_handle-cut_request app.service storage (record r { body = whole }),
    cut-IsWithin (max_body_size app.service r) whole,
  )

  -- However a client cuts its body into messages, when `ASGIApplication.read_request` gives a request, the last message has come, and the
  -- coroutine of `AsyncScimHandler.handle` for the request is the one for a request whose body is all the bytes of the messages. And the application kept no more of
  -- them than one byte more than the service accepts.
  pub asgi-whole :
      (library : Asgi.Library P) (scope : Scope) (messages : List Message) (r : ScimRequest)
      → Asgi.read_request app library scope messages ≡ some r
      → (whole : List ℕ) × (joined_body messages ≡ some whole) × AwaitsSame r whole
  unfolding Asgi.read_request
  asgi-whole library scope messages r e =
      let request = Asgi.empty_request app library scope in
      let limit = max_body_size app.service request in
      elim (Option-cases (read_messages limit messages [])) [
        | inl waits ↦ absurd (no (rw (waits, Asgi.read_request) at e))
        | inr (body, came) ↦
            let equal : some (cut limit body) ≡ cut_behind limit [] (joined_body messages) =
              sym (ap (cut_read limit) came) ∙ read_messages-cut limit messages [] in
            elim (Option-cases (joined_body messages)) [
              | inl waits ↦ absurd (never (equal ∙ ap (cut_behind limit []) waits))
              | inr (whole, joined) ↦ (
                whole,
                joined,
                subst (λ x. AwaitsSame x whole)
                    (some-injective (
                      ap (λ b. some (record request { body = b }))
                        (some-injective (sym (equal ∙ ap (cut_behind limit []) joined)))
                      ∙ (rw (came, Asgi.read_request) at e)))
                    (cut-AwaitsSame request whole),
              )
            ]
      ]
    where
      no : none ≡ some r → ⊥
      no e = cc

      never : {b : List ℕ} → some b ≡ none → ⊥
      never e = cc
