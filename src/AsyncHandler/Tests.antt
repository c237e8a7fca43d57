-- ===== src/AsyncHandler/Tests.antt =====
-- The asynchronous handler at concrete requests.
use scim2_server.Memory.{Storage}
use scim2_server.Memory.Store.{create}
use scim2_server.Memory.Store as Store
use scim2_server.Memory as Memory
use scim2_server.Routing as Routing
use scim2_server.Conditions as Conditions
use scim2_server.Requests as Requests
use scim2_server.Service as Service
use scim2_server.Handler as Handler
use scim2_server.Base.Dict as Dict
use scim2_server.Memory.Tests.{policy, bjensen}
use scim2_server.Memory.Valid.{IsValid, empty, new, next, created, Reached, Reached-IsValid}
use scim2_server.Requests.{ScimRequest, ScimResponse}
use scim2_server.Service.Tests.{service, request, users}
use scim2_server.Handler.Requested.{handle}
use scim2_server.Handler.Tests.{surroundings}
use scim2_server.Handler.InMemory.{in_memory}
use scim2_server.AsyncHandler.{Coroutine, ImmediateStorage, run, done}
use scim2_server.AsyncHandler.Counted.{IsSingle}
use scim2_server.Routing.{Operation, Target}
use scim2_server.Service.Routes.{match_request}
use scim2_server.AsyncHandler.Alone.{async_in_memory}
use scim2_server.AsyncHandler.Requested as Async
use scim2_server.AsyncHandler.Refines.{handle-Runs}
use scim2_server.AsyncHandler.Effects.{shared}
use scim2_server.AsyncHandler.EventLoop.{Loop-IsAtomic, Loop-IsValid}
use scim2_server.AsyncHandler.Ending.{turns, Loop-ends, AllDone}
use scim2_server.AsyncHandler.Turns.{Loop, run-Loop, TakesEffect}
use scim2_server.Base.{
  ℕ, ◌+◌, ◌≤◌, ◌≡◌, refl, sym, ap, ◌∙◌, Bool, false, none, some, List, [], ◌∷◌, map, arith, nat_eq,
  Text, text_eq, option_text_eq, codes, ok, rstrip, lstrip, strip, is_space, split, join,
  starts_with, ◌≢◌, text_beq, get_elem?, ◌≢◌,
}

abbrev one_user : Storage Text Text
one_user = (create policy (codes "1") 7 users bjensen empty).1

abbrev patch_request : ScimRequest
patch_request = record request { method = codes "PATCH"; path = codes "/Users/1" }

abbrev response : ScimResponse Bool
response = record {
  status = 204;
  body = none;
  headers =
      (codes "ETag", codes "W/\"2\"") ∷ (codes "Content-Type", codes "application/scim+json") ∷ [];
}

patched : (handle service (in_memory policy surroundings) patch_request one_user).0 ≡ ok response
unfolding handle Handler.Requested.serve Handler.Requested.patch Handler.patch_resource
    Routing.segments_of Routing.match_part Routing.match_parts Routing.match_pattern
    Routing.match_routes Routing.match Memory.same_key Memory.disown Memory.own Memory.forget_values
    Memory.keep_values Memory.check_uniqueness Store.decimal_from Store.decimal Store.version_text
    Store.key_of Store.check_version Store.discard_equal Store.remove Store.stored Store.get
    Store.comparable_value Store.collect_values Store.values_of Store.index_equality Store.store
    Store.store_checked Store.create Store.write_update Store.update Requests.header_values
    Requests.header Requests.respond Service.ensure_supported Service.before_semicolon
    Service.is_json_media_type Service.resource_type_at Service.get_resource_type_by_endpoint
    Service.find_type Service.get_resource_type Service.get_resource_type_of Service.ensure_json
    Service.ensure_patch_supported Service.Routes.value_of_operation Service.Routes.endpoint_of
    Service.Routes.resource_location Service.Routes.match_request Service.Routes.route
    Service.Routes.me_response Service.Routes.read_conditions Service.Answers.rpartition
    Service.Answers.read_body Service.Answers.read_patch Service.Answers.decode_body
    Service.Answers.read_response_parameters Service.Answers.reference_location
    Service.Answers.publish Service.Answers.resource_response Service.Answers.check_preconditions
    Service.Answers.apply_patch Service.Answers.patch_response Conditions.check Dict.get Dict.put
    Dict.pop text_beq lstrip rstrip strip is_space split join starts_with Conditions.drop_weak
    Conditions.init Conditions.ends_quoted Conditions.drop_quotes Conditions.opaque_tag
    Conditions.parse
patched = refl

handle-Runs_example :
    run
      (async_in_memory (in_memory policy surroundings))
      (Async.handle service (async_in_memory (in_memory policy surroundings)) patch_request)
      one_user
    ≡ handle service (in_memory policy surroundings) patch_request one_user
handle-Runs_example = handle-Runs service (in_memory policy surroundings) patch_request one_user

abbrev get_request : ScimRequest
get_request = record request { path = codes "/Users/1" }

abbrev storage : ImmediateStorage Bool ℕ (Storage Text Text)
storage = shared policy surroundings

-- The first of two requests is served, and the other waits.
abbrev last : Storage Text Text
last = (run storage (Async.handle service storage patch_request) one_user).1

abbrev last_tasks : List (Coroutine Bool ℕ (ScimResponse Bool))
last_tasks =
    done (run storage (Async.handle service storage patch_request) one_user).0
    ∷ Async.handle service storage get_request
    ∷ []

abbrev both : List ScimRequest
both = patch_request ∷ get_request ∷ []

one_served : Loop storage one_user (map (Async.handle service storage) both) last last_tasks
one_served =
    run-Loop storage (Async.handle service storage patch_request) one_user
      (Async.handle service storage get_request ∷ [])

one_user-Reached : Reached policy one_user
one_user-Reached = next new (created (codes "1") 7 users bjensen)

abbrev users_target : Operation → Target
users_target o = record {
  operation = o;
  endpoint = some (codes "Users");
  resource_id = some (codes "1");
  me = false;
}

patch-matched : match_request service patch_request ≡ ok (users_target Operation.patch)
unfolding match_request Routing.segments_of Routing.match_part Routing.match_parts
    Routing.match_pattern Routing.match_routes Routing.match text_beq lstrip rstrip strip split join
    starts_with
patch-matched = refl

get-matched : match_request service get_request ≡ ok (users_target Operation.query)
unfolding match_request Routing.segments_of Routing.match_part Routing.match_parts
    Routing.match_pattern Routing.match_routes Routing.match text_beq lstrip rstrip strip split join
    starts_with
get-matched = refl

matched-IsSingle :
    (r : ScimRequest) (o : Operation)
    → match_request service r ≡ ok (users_target o)
    → o ≢ Operation.bulk
    → IsSingle service storage r
matched-IsSingle r o matched single target e b =
    single (ap (λ t. t.operation) (the_same (sym matched ∙ e)) ∙ b)
  where
    the_same : ok (users_target o) ≡ ok target → users_target o ≡ target
    the_same e = ground (arith, e)

patch-IsSingle : IsSingle service storage patch_request
patch-IsSingle = matched-IsSingle patch_request Operation.patch patch-matched (λ e. cc)

get-IsSingle : IsSingle service storage get_request
get-IsSingle = matched-IsSingle get_request Operation.query get-matched (λ e. cc)

served_first : get_elem? last_tasks 0 ≡ some (done (ok response))
served_first =
    ap (λ o. some (done o))
      (ap (λ x. x.0) (handle-Runs service (in_memory policy surroundings) patch_request one_user)
        ∙ patched)

Loop-IsAtomic_example :
    TakesEffect storage 0
      (ok response)
      (λ before after.
        handle service (in_memory policy surroundings) patch_request before ≡ (ok response, after))
      one_served
Loop-IsAtomic_example =
    Loop-IsAtomic policy surroundings service 0 patch_request response one_user-Reached
      patch-IsSingle one_served refl served_first

Loop-IsValid_example : IsValid policy last
Loop-IsValid_example =
    Loop-IsValid policy surroundings (Reached-IsValid policy one_user-Reached) one_served

Loop-ends_example :
    (v : Storage Text Text) × (ended : List (Coroutine Bool ℕ (ScimResponse Bool))) × (rest : Loop
      storage last last_tasks v ended)
    × AllDone storage ended
    × (turns storage one_served + turns storage rest ≤ 4)
Loop-ends_example = Loop-ends service storage both one_served (patch-IsSingle, (get-IsSingle, tt))
