-- ===== src/Service.antt =====
-- scim2_server/service.py: the configuration, the resource types and the capabilities of
-- `ScimService`.
pub mod Routes
pub mod Answers
pub mod Search
pub mod Bounds
pub mod Paged
pub mod Authorized
pub mod Tests
pub mod BulkSteps
pub mod Discovery
use scim2_server.Base.Dict.{Dict}
use scim2_server.Models.{Resource, ResourceType, BulkOperation}
use scim2_server.Routing.{Target}
use scim2_server.Requests.{ScimRequest}
use scim2_server.Base.{
  ℕ, ◌-◌, Bool, true, false, not, ◌&&◌, ◌||◌, Option, none, some, List, [], ◌∷◌, ltb, nat_beq,
  if◌then◌else◌, length, take, drop, nat_eq, Text, codes, ◌==◌, text_eq, option_text_eq, lstrip,
  strip, is_slash, is_space, starts_with, raise_if, Exception, Outcome, ok, err, not_found,
  not_implemented, payload_too_large, unsupported_media_type, value_error,
}

pub data PaginationMethod : Type 0 where
  cursor index : PaginationMethod

-- A flag that is not set counts as false.
pub record BulkConfig : Type 0 where
  pub supported : Bool
  pub max_operations : Option ℕ
  pub max_payload_size : Option ℕ

pub record FilterConfig : Type 0 where
  pub supported : Bool
  pub max_results : Option ℕ

pub record PaginationConfig : Type 0 where
  pub cursor : Bool
  pub index : Bool
  pub default_pagination_method : Option PaginationMethod
  pub default_page_size : Option ℕ
  pub max_page_size : Option ℕ
  pub cursor_timeout : Option ℕ

-- `AuthenticationScheme.Type`
pub data Scheme : Type 0 where
  oauth oauth2 oauthbearertoken httpbasic httpdigest : Scheme

-- `patch`, `sort` and `etag` hold their flag `supported`.
pub record Config : Type 0 where
  pub patch : Option Bool
  pub bulk : Option BulkConfig
  pub filter : Option FilterConfig
  pub sort : Option Bool
  pub etag : Option Bool
  pub pagination : Option PaginationConfig
  pub authentication_schemes : List Scheme

abbrev pub patch_only_config : Config
patch_only_config = record {
  patch = some true;
  bulk = some (record { supported = false; max_operations = some 0; max_payload_size = some 0 });
  filter = some (record { supported = false; max_results = none });
  sort = some false;
  etag = some false;
  pagination = none;
  authentication_schemes = [];
}

pub record SearchRequest : Type 0 where
  pub cursor : Option Text
  pub start_index : Option ℕ
  pub count : Option ℕ

pub data Context : Type 0 where
  creation_request replacement_request : Context

-- What the service does not compute itself. The string methods of Python on Unicode; scim2_models,
-- which validates; the sealing of cursors; and the methods that an application overrides. `P` is
-- `ResponseParameters`, `D` is `PatchOp`, `J` a JSON value, and `C` the position of a page.
pub record Library (P D J C : Type 0) : Type 0 where
  pub upper : Text → Text
  pub lower : Text → Text
  pub casefold : Text → Text
  pub has_scheme : Text → Bool
  pub from_json : List ℕ → Outcome J
  pub names : J → List Text
  pub query_value : Dict Text Text → J
  pub validate : Context → ResourceType → List ℕ → Outcome Resource
  pub validate_patch : ResourceType → List ℕ → Outcome D
  pub validate_bulk : List ℕ → Outcome (List BulkOperation × Option ℕ)
  pub validate_search : List ResourceType → J → Outcome SearchRequest
  pub validate_parameters : ResourceType → Dict Text Text → Outcome P
  pub requests_attributes : P → Bool
  pub publish_references : (Text → Outcome Text) → Resource → Outcome Resource
  pub replace_with : Resource → Resource → Outcome (Option Resource)
  pub patch_with : D → Resource → Outcome (Option Resource)
  pub resource_id_of : BulkOperation → Option Text
  pub resource_data : BulkOperation → Resource
  pub patch_data : BulkOperation → D
  pub digest : List ResourceType → SearchRequest → Text
  pub open_cursor : Text → Text → Option ℕ → Option ℕ → Outcome C
  pub seal_cursor : Text → Option ℕ → C → Text
  pub library_status : Exception → ℕ
  pub me_target : ScimRequest → Outcome (ResourceType × Text)
  pub me_creation_type : ScimRequest → Outcome ResourceType
  pub authorize : ScimRequest → Target → ResourceType → Outcome (Unit {0})

-- The service with its provider. A schema is its identifier.
pub record ScimService (P D J C : Type 0) : Type 0 where
  pub resource_types : List ResourceType
  pub schemas : List Text
  pub config : Config
  pub library : Library P D J C
  pub open library use *

-- `next((r for r in resource_types if test(r)), None)`
unfoldable pub find_type : (ResourceType → Bool) → List ResourceType → Option ResourceType
find_type test [] = none
find_type test (r ∷ rs) = let rest = find_type test rs in if test r then some r else rest

abbrev pub or_empty : Option Text → Text
or_empty none = []
or_empty (some t) = t

-- `capability is not None and capability.supported`
abbrev pub is_supported : Option Bool → Bool
is_supported none = false
is_supported (some supported) = supported

unfoldable pub ensure_supported : Option Bool → Outcome (Unit {0})
ensure_supported capability = raise_if (not (is_supported capability)) not_implemented

abbrev pub ends_with : Text → Text → Bool
ends_with suffix s = take (length suffix) (drop (length s - length suffix) s) == suffix

-- `s.partition(";")[0]`
unfoldable pub before_semicolon : Text → Text
before_semicolon [] = []
before_semicolon (c ∷ s) = let rest = before_semicolon s in if nat_beq c b';' then [] else c ∷ rest

unfoldable pub is_json_media_type : (Text → Text) → Option Text → Bool
unfolding before_semicolon
is_json_media_type lower none = false
is_json_media_type lower (some []) = false
is_json_media_type lower (some (c ∷ content_type)) =
    let media_type = lower (strip is_space (before_semicolon (c ∷ content_type))) in
    media_type == codes "application/json"
    || starts_with media_type (codes "application/") && ends_with (codes "+json") media_type

module _ {P D J C : Type 0} (sv : ScimService P D J C) where
  unfoldable pub get_resource_type_by_endpoint : Text → Option ResourceType
  unfolding find_type
  get_resource_type_by_endpoint endpoint =
      find_type
        (λ r.
          sv.casefold (lstrip is_slash (or_empty r.endpoint))
          == sv.casefold (lstrip is_slash endpoint))
        sv.resource_types

  unfoldable pub resource_type_at : Text → Outcome ResourceType
  unfolding get_resource_type_by_endpoint
  resource_type_at endpoint = elim (get_resource_type_by_endpoint endpoint) [
    | none ↦ err not_found
    | some r ↦ ok r
  ]

  unfoldable pub get_resource_type : Text → Outcome ResourceType
  unfolding find_type
  get_resource_type name = elim (find_type (λ r. r.name == name) sv.resource_types) [
    | none ↦ err value_error
    | some r ↦ ok r
  ]

  abbrev pub type_name : Resource → Option Text
  type_name r = elim r.meta [ none ↦ none | some m ↦ m.resource_type ]

  unfoldable pub get_resource_type_of : Resource → Outcome ResourceType
  unfolding find_type
  get_resource_type_of r = elim (find_type (λ t. some t.name == type_name r) sv.resource_types) [
    | none ↦ err value_error
    | some t ↦ ok t
  ]

  abbrev pub etag_supported : Bool
  etag_supported = is_supported sv.config.etag

  abbrev pub bulk_max_payload_size : Option ℕ
  bulk_max_payload_size = elim sv.config.bulk [ none ↦ none | some b ↦ b.max_payload_size ]

  unfoldable pub ensure_bulk_payload_size : ℕ → Outcome (Unit {0})
  ensure_bulk_payload_size size = elim bulk_max_payload_size [
    | none ↦ ok tt
    | some limit ↦ raise_if (ltb limit size) payload_too_large
  ]

  -- An empty Content-Type counts as none.
  unfoldable pub ensure_json : Option Text → Outcome (Unit {0})
  unfolding is_json_media_type
  ensure_json none = ok tt
  ensure_json (some content_type) =
      raise_if (not (content_type == []) && not (is_json_media_type sv.lower (some content_type)))
        unsupported_media_type

  unfoldable pub ensure_patch_supported : Outcome (Unit {0})
  unfolding ensure_supported
  ensure_patch_supported = ensure_supported sv.config.patch
