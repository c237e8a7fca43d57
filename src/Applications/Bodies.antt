-- ===== src/Applications/Bodies.antt =====
-- The body of a request that the applications cut: the handler answers as if it had the whole body.
use scim2_server.Routing.{Operation, Target, Values, routes, match, segments_of}
use scim2_server.Requests.{ScimRequest, header}
use scim2_server.Service.{ScimService}
use scim2_server.Service.Routes.{match_request, route, value_of_operation}
use scim2_server.Service.BulkSteps.{read_bulk}
use scim2_server.Handler.{ScimStorage}
use scim2_server.AsyncHandler.{done, ImmediateStorage}
use scim2_server.AsyncHandler.Requested as Async
use scim2_server.Handler.Requested.{handle, serve, bulk, content_type}
use scim2_server.Applications.{cut}
use scim2_server.Base.{
  text_beq, ◌≡◌, refl, sym, ap, ◌∙◌, inl, inr, true, false, [], nat_eq, text_eq, option_text_eq, ok,
  err, Exception, Outcome-cases, ◌≢◌,
}
use scim2_server.Applications.Limited.{
  match_routes-target, bulk-cases, cut_request, no_limit, bulk-Uncut,
}

module _ {P D J C : Type 0} (sv : ScimService P D J C) where
  -- A bulk request is not on `/Me`.
  bulk-me :
      (r : ScimRequest) (target : Target)
      → match_request sv r ≡ ok target
      → target.operation ≡ Operation.bulk
      → target.me ≡ false
  unfolding match_request match text_beq
  bulk-me r target e =
      match_routes-target (λ t. t.operation ≡ Operation.bulk → t.me ≡ false) routes
        (sv.upper r.method) (segments_of r.path) [] target
        (
          free,
          (
            free,
            (
              free,
              (
                free,
                (
                  free,
                  (
                    free,
                    (
                      me Operation.query (λ p. cc),
                      (
                        me Operation.replace (λ p. cc),
                        (
                          me Operation.patch (λ p. cc),
                          (
                            me Operation.delete (λ p. cc),
                            (
                              me Operation.create (λ p. cc),
                              (
                                free,
                                (free, (free, (free, (free, (free, (free, (free, (free, tt)))))))),
                              ),
                            ),
                          ),
                        ),
                      ),
                    ),
                  ),
                ),
              ),
            ),
          ),
        )
        e
    where
      free : {A : Type 0} → Values → A → false ≡ false
      free values o = refl

      me : (o : Operation) → o ≢ Operation.bulk → Values → o ≡ Operation.bulk → true ≡ false
      me o clash values e = absurd (clash e)

  route-bulk :
      (r : ScimRequest) (target : Target)
      → match_request sv r ≡ ok target
      → target.operation ≡ Operation.bulk
      → route sv r Operation.bulk ≡ ok target
  unfolding route value_of_operation text_beq
  route-bulk r target e o = rw (e, route, o, bulk-me r target e o) refl

  module _ {S : Type 0} (storage : ScimStorage P C S) where
    bulk-refused :
        (r : ScimRequest) (target : Target) (e : Exception) (s : S)
        → match_request sv r ≡ ok target
        → target.operation ≡ Operation.bulk
        → read_bulk sv r.body (content_type sv storage r) ≡ err e
        → bulk sv storage r s ≡ (err e, s)
    unfolding bulk
    bulk-refused r target e s m o refused = rw (route-bulk r target m o, bulk, refused) refl

    -- A request of which the application only read the body up to one byte more than the service accepts gets
    -- the same answer from the handler, and leaves the same state, as with its whole body.
    pub handle-cut_request :
        (r : ScimRequest) (s : S) → handle sv storage (cut_request sv r) s ≡ handle sv storage r s
    unfolding handle serve match_request header
    handle-cut_request r s = elim (Outcome-cases (match_request sv r)) [
      | inr (e, p) ↦ rw p refl
      | inl (target, p) ↦ elim (bulk-cases target.operation) [
        | inr other_operation ↦
            ap (λ x. handle sv storage x s)
              (ap (λ l. record r { body = cut l r.body }) (no_limit sv r target p other_operation))
        | inl o ↦ elim (bulk-Uncut sv r target (content_type sv storage r) p o) [
          | inl same ↦ ap (λ x. handle sv storage x s) same
          | inr (e, refused, refused') ↦
              rw (p, o)
                (bulk-refused (cut_request sv r) target e s p o refused
                  ∙ sym (bulk-refused r target e s p o refused'))
        ]
      ]
    ]

  module _ {S : Type 0} (storage : ImmediateStorage P C S) where
    async_bulk-refused :
        (r : ScimRequest) (target : Target) (e : Exception)
        → match_request sv r ≡ ok target
        → target.operation ≡ Operation.bulk
        → read_bulk sv r.body (Async.content_type sv storage r) ≡ err e
        → Async.bulk sv storage r ≡ done (err e)
    unfolding Async.bulk
    async_bulk-refused r target e m o refused =
        rw (route-bulk r target m o, Async.bulk, refused) refl

    -- The coroutine of a request that is cut is the one of the request with its whole body.
    pub async_handle-cut_request :
        (r : ScimRequest) → Async.handle sv storage (cut_request sv r) ≡ Async.handle sv storage r
    unfolding Async.handle Async.serve match_request header
    async_handle-cut_request r = elim (Outcome-cases (match_request sv r)) [
      | inr (e, p) ↦ rw p refl
      | inl (target, p) ↦ elim (bulk-cases target.operation) [
        | inr other_operation ↦
            ap (Async.handle sv storage)
              (ap (λ l. record r { body = cut l r.body }) (no_limit sv r target p other_operation))
        | inl o ↦ elim (bulk-Uncut sv r target (Async.content_type sv storage r) p o) [
          | inl same ↦ ap (Async.handle sv storage) same
          | inr (e, refused, refused') ↦
              rw (p, o)
                (async_bulk-refused (cut_request sv r) target e p o refused
                  ∙ sym (async_bulk-refused r target e p o refused'))
        ]
      ]
    ]
