-- ===== src/Routing.antt =====
-- scim2_server/routing.py: the operations, the table of the routes, and `match`.
pub mod Table
mod Rows
pub mod Match
mod Tests
use scim2_server.Base.{
  ℕ, zero, suc, ◌+◌, ◌-◌, ◌≤◌, ◌<◌, min, String, ◌≡◌, refl, sym, ap, ◌∙◌, subst, ◌≢◌, ◌↔◌, ◌⊎◌, inl,
  inr, Bool, true, false, not, ◌&&◌, ◌||◌, Option, none, some, List, [], ◌∷◌, ◌++◌, map, arith, ltb,
  leb, nat_beq, if◌then◌else◌, ltb→lt, nat_beq_iff, Bool-cases, Option-cases, length, get_elem?,
  take, drop, length-append, keep, All, Elem, contains, ◌==◌, ==_iff, ==_refl, nat_eq, list_beq,
  list_beq_iff, option_beq, option_beq_iff, Text, codes, text_beq, text_beq_iff, text_eq,
  option_text_eq, Eq, lstrip, strip_before, rstrip, strip, is_slash, is_space, cons_head, split,
  join, text_ltb, sorted_set, starts_with, ◌>>=◌, ◌>>◌, raise_if, >>=-eq-ok, Exception, Outcome, ok,
  err, not_found, invalid_value, conflict, precondition_failed, uniqueness, not_implemented,
  forbidden, unauthorized, payload_too_large, invalid_syntax, invalid_cursor, invalid_count,
  expired_cursor, unsupported_media_type, method_not_allowed, scim_error, runtime_error,
  value_error, type_error, assertion_error,
}

pub data Operation : Type 0 where
  create query replace patch delete search search_with_body bulk : Operation
  service_provider_config resource_types resource_type schemas schema : Operation

abbrev pub reserved_names : List Text
reserved_names =
    codes "ServiceProviderConfig"
    ∷ codes "ResourceTypes"
    ∷ codes "Schemas"
    ∷ codes "Bulk"
    ∷ codes "Me"
    ∷ []

pub record Route : Type 0 where
  pub method : Text
  pub pattern : Text
  pub operation : Operation
  pub name : Text

abbrev pub route : String → String → Operation → String → Route
route method pattern operation name = record {
  method = codes method;
  pattern = codes pattern;
  operation = operation;
  name = codes name;
}

abbrev pub routes : List Route
routes =
    route "GET" "/ServiceProviderConfig" service_provider_config "service_provider_config"
    ∷ route "GET" "/ResourceTypes" resource_types "resource_types"
    ∷ route "GET" "/ResourceTypes/{resource_id}" resource_type "resource_type"
    ∷ route "GET" "/Schemas" schemas "schemas"
    ∷ route "GET" "/Schemas/{resource_id}" schema "schema"
    ∷ route "POST" "/Bulk" bulk "bulk"
    ∷ route "GET" "/Me" query "me_query"
    ∷ route "PUT" "/Me" replace "me_replace"
    ∷ route "PATCH" "/Me" patch "me_patch"
    ∷ route "DELETE" "/Me" delete "me_delete"
    ∷ route "POST" "/Me" create "me_create"
    ∷ route "GET" "/" search "search_root"
    ∷ route "POST" "/.search" search_with_body "search_root_with_body"
    ∷ route "POST" "/{endpoint}/.search" search_with_body "search_with_body"
    ∷ route "GET" "/{endpoint}" search "search"
    ∷ route "POST" "/{endpoint}" create "create"
    ∷ route "GET" "/{endpoint}/{resource_id}" query "query"
    ∷ route "PUT" "/{endpoint}/{resource_id}" replace "replace"
    ∷ route "PATCH" "/{endpoint}/{resource_id}" patch "patch"
    ∷ route "DELETE" "/{endpoint}/{resource_id}" delete "delete"
    ∷ []

-- The values of the placeholders, whose only names are these two.
pub record Values : Type 0 where
  pub endpoint : Option Text
  pub resource_id : Option Text

pub record Target : Type 0 where
  pub operation : Operation
  pub endpoint : Option Text
  pub resource_id : Option Text
  pub me : Bool

-- `text.strip("/").split("/") if text.strip("/") else []`
unfoldable pub segments_of : Text → List Text
unfolding strip split
segments_of path =
    let stripped = strip is_slash path in if stripped == [] then [] else split b'/' stripped

-- The body of the loop of `match_pattern`.
unfoldable pub match_part : Text → Text → Values → Option Values
match_part part segment values =
    if part == codes "{endpoint}"
    then (if contains reserved_names segment || segment == codes ".search"
        then none
        else some (record values { endpoint = some segment }))
    else (if part == codes "{resource_id}"
        then some (record values { resource_id = some segment })
        else if part == segment
        then some values
        else none)

unfoldable pub match_parts : List Text → List Text → Values → Option Values
match_parts [] [] values = some values
match_parts (part ∷ parts) (segment ∷ segments) values = elim (match_part part segment values) [
  | none ↦ none
  | some values' ↦ match_parts parts segments values'
]
match_parts _ _ values = none

abbrev pub no_values : Values
no_values = record { endpoint = none; resource_id = none }

unfoldable pub match_pattern : Text → List Text → Option Values
match_pattern pattern segments =
    let parts = segments_of pattern in
    if nat_beq (length parts) (length segments) then match_parts parts segments no_values else none

abbrev pub target_of : Route → Values → Target
target_of r values = record {
  operation = r.operation;
  endpoint = values.endpoint;
  resource_id = values.resource_id;
  me = r.pattern == codes "/Me";
}

-- What `match` raises behind its loop.
abbrev pub refuse : List Text → Outcome Target
refuse [] = err not_found
refuse (m ∷ allowed) = err (method_not_allowed (sorted_set (m ∷ allowed)))

-- The loop of `match`, with the methods of the routes that had the path.
unfoldable pub match_routes : List Route → Text → List Text → List Text → Outcome Target
match_routes [] method segments allowed = refuse allowed
match_routes (r ∷ rs) method segments allowed = elim (match_pattern r.pattern segments) [
  | none ↦ match_routes rs method segments allowed
  | some values ↦
      let rest = match_routes rs method segments (allowed ++ r.method ∷ []) in
      if r.method == method then ok (target_of r values) else rest
]

unfoldable pub match : Text → Text → Outcome Target
unfolding match_routes match_pattern match_parts match_part segments_of
match method path = match_routes routes method (segments_of path) []
