-- ===== src/AsyncHandler.antt =====
-- scim2_server/handler.py: `AsyncScimHandler`, whose methods are coroutines that await a storage.
pub mod Resources
pub mod BulkRun
pub mod Requested
pub mod Alone
mod BulkAlone
pub mod Refines
pub mod Turns
pub mod Guarded
pub mod Optimistic
pub mod Effects
pub mod Atomic
pub mod EventLoop
pub mod Counted
pub mod Ending
mod Tests
use scim2_server.Models.{Meta, Resource, ResourceType, BulkOperation, BulkOutcome}
use scim2_server.Conditions.{Conditions}
use scim2_server.Bulk.Plan.{BulkPlan, record_outcome, stopped, resolve}
use scim2_server.Requests.{ScimRequest, ScimResponse, header, url}
use scim2_server.Service.{
  ScimService, SearchRequest, PaginationMethod, cursor, ensure_patch_supported, or_empty,
  resource_type_at,
}
use scim2_server.Service.Routes.{
  authorize_bulk_operation, match_request, route, me_response, authorized_types, read_conditions,
  searched_types,
}
use scim2_server.Service.Answers.{
  apply_replacement, apply_patch, check_deletion, read_creation, read_replacement, read_patch,
  read_response_parameters, creation_response, query_response, replacement_response, patch_response,
  deletion_response,
}
use scim2_server.Handler.{Act, handled, when_given}
use scim2_server.Service.Search.{
  SearchPage, pages_by, read_search_query, read_search_body, search_response,
}
use scim2_server.Service.BulkSteps.{
  bulk_outcome, bulk_validation_failure, route_bulk_operation, locate_bulk_operation, bulk_failure,
  bulk_success, read_bulk, bulk_response,
}
use scim2_server.Service.Discovery.{
  service_provider_config, resource_types, resource_type, schemas, schema,
}
use scim2_server.Base.{
  ℕ, zero, suc, ◌+◌, ◌<◌, ◌≤◌, ◌≡◌, refl, sym, ap, ◌∙◌, subst, ◌↔◌, inl, inr, Bool, true, false,
  not, ◌&&◌, ◌||◌, Option, none, some, List, [], ◌∷◌, ◌++◌, map, arith, ltb, if◌then◌else◌,
  Bool-cases, Option-cases, All, contains, ◌==◌, ==_iff, ==_refl, nat_eq, Text, text_eq,
  option_text_eq, Eq, length, codes, keep, Outcome, ok, err, uniqueness, not_found,
  precondition_failed, ◌>>=◌, ◌>>◌, >>=-eq-ok, rstrip, lstrip, strip, is_slash, is_space, raise_if,
  assertion_error, runtime_error, forbidden, Exception, not_implemented, invalid_value,
  payload_too_large, value_error, unsupported_media_type, method_not_allowed, scim_error,
  type_error, split, join, take, drop, leb, nat_beq, type_error, unauthorized, invalid_syntax,
  invalid_cursor, invalid_count, expired_cursor, conflict, option_beq, Outcome-cases, min,
  get_elem?,
}

-- A call of an asynchronous storage, which a coroutine awaits. `P` is `ResponseParameters` and `C`
-- the position of a page.
pub data Call (P C : Type 0) : Type 0 where
  get : ResourceType → Text → Option P → Call P C
  search : List ResourceType → SearchRequest → Option C → Call P C
  create : ResourceType → Resource → Call P C
  update : ResourceType → Resource → Option Text → Call P C
  delete : ResourceType → Text → Option Text → Call P C

-- What a call returns, when it does not raise.
abbrev pub Answer : {P C : Type 0} → Call P C → Type 0
Answer (Call.get rt id p) = Resource
Answer {C} (Call.search rts r c) = SearchPage C
Answer (Call.create rt r) = Resource
Answer (Call.update rt r v) = Resource
Answer (Call.delete rt id v) = Unit {0}

-- A coroutine: it has returned or raised, or it awaits a call and goes on with its outcome.
pub data Coroutine (P C A : Type 0) : Type 0 where
  done : Outcome A → Coroutine P C A
  await : (c : Call P C) → (Outcome (Answer c) → Coroutine P C A) → Coroutine P C A

-- A statement and the code behind it, which an exception skips.
infixl 4 ◌>>>=◌
abbrev pub ◌>>>=◌ : {P C A B : Type 0} → Coroutine P C A → (A → Coroutine P C B) → Coroutine P C B
done (ok a) >>>= f = f a
done (err e) >>>= f = done (err e)
await c k >>>= f = await c (λ o. k o >>>= f)

-- The code behind a `try` and its `except`, which gets the outcome.
abbrev pub attempt :
    {P C A B : Type 0} → Coroutine P C A → (Outcome A → Coroutine P C B) → Coroutine P C B
attempt (done o) f = f o
attempt (await c k) f = await c (λ o. attempt (k o) f)

-- `await` of one call of the storage.
abbrev pub awaited : {P C : Type 0} (c : Call P C) → Coroutine P C (Answer c)
awaited c = await c (λ o. done o)

-- `assert resource.meta is not None`, and the code behind it.
abbrev pub asserting : {P C A : Type 0} → Option Meta → (Meta → Coroutine P C A) → Coroutine P C A
asserting none f = done (err assertion_error)
asserting (some m) f = f m

-- An `AsyncScimStorage` of scim2_server/storage.py whose methods await nothing, so that the event loop
-- runs each call in one step, and whose `operation` is the default, which encloses nothing: what each
-- call does to the state, and the flags of its class. `AsyncInMemoryStorage` is one.
pub record ImmediateStorage (P C S : Type 0) : Type 0 where
  pub get : ResourceType → Text → Option P → Act S Resource
  pub search : List ResourceType → SearchRequest → Option C → Act S (SearchPage C)
  pub create : ResourceType → Resource → Act S Resource
  pub update : ResourceType → Resource → Option Text → Act S Resource
  pub delete : ResourceType → Text → Option Text → Act S (Unit {0})
  pub supports_cursors : Bool
  pub search_takes_position : Bool
  pub get_takes_response_parameters : Bool

-- The call of a coroutine, run on the storage.
abbrev pub serve_call :
    {P C S : Type 0} → ImmediateStorage P C S → (c : Call P C) → Act S (Answer c)
serve_call storage (Call.get rt id p) = storage.get rt id p
serve_call storage (Call.search rts r c) = storage.search rts r c
serve_call storage (Call.create rt r) = storage.create rt r
serve_call storage (Call.update rt r v) = storage.update rt r v
serve_call storage (Call.delete rt id v) = storage.delete rt id v

-- A coroutine that runs alone, from the first call to the last.
abbrev pub run : {P C S A : Type 0} → ImmediateStorage P C S → Coroutine P C A → Act S A
run storage (done o) s = (o, s)
run storage (await c k) s = run storage (k (serve_call storage c s).0) (serve_call storage c s).1

-- `projection` of scim2_server/storage.py, on an asynchronous storage.
abbrev pub projection : {P C S : Type 0} → ImmediateStorage P C S → P → Option P
projection storage parameters =
    if storage.get_takes_response_parameters then some parameters else none

-- `async_search_page` of scim2_server/storage.py, for a storage whose `search` gives a page.
unfoldable pub async_search_page :
    {P C S : Type 0}
    → ImmediateStorage P C S
    → List ResourceType
    → SearchRequest
    → Option C
    → Coroutine P C (SearchPage C)
async_search_page storage rts request position =
    awaited (Call.search rts request (if storage.search_takes_position then position else none))

-- `_check_cursors`, on an asynchronous storage.
unfoldable pub check_cursors :
    {P D J C S : Type 0} → ScimService P D J C → ImmediateStorage P C S → Outcome (Unit {0})
check_cursors sv storage =
    raise_if (pages_by sv cursor && not (storage.supports_cursors && storage.search_takes_position))
      type_error
