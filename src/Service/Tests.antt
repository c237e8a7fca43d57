-- ===== src/Service/Tests.antt =====
-- A service with one resource type, at concrete searches.
use scim2_server.Models.{Resource, ResourceType, other}
use scim2_server.Routing.{Operation, Target}
use scim2_server.Requests.{ScimRequest}
use scim2_server.Service.{ScimService, Library, Config, SearchRequest}
use scim2_server.Service.Routes.{authorized_types, keep_authorized}
use scim2_server.Service.Search.{
  given, bound_count, cap, max_results, max_page_size, page_search, pages_by, default_pagination,
  open_position,
}
use scim2_server.Service.Bounds.{AtMost, bound_count-bounds, bound_count-some}
use scim2_server.Service.Paged.{IsPaged, page_search-IsPaged}
use scim2_server.Service.Authorized.{allows, authorized_types-keep}
use scim2_server.Base.{
  text_beq, ◌≢◌, ℕ, ◌≡◌, refl, Bool, true, false, none, some, List, [], ◌∷◌, All, ◌==◌, nat_eq,
  Text, text_eq, option_text_eq, codes, keep, ok, err, raise_if, forbidden, not_implemented,
}

abbrev pub users : ResourceType
users = record { id = some (codes "User"); name = codes "User"; endpoint = some (codes "/Users") }

abbrev groups : ResourceType
groups = record {
  id = some (codes "Group");
  name = codes "Group";
  endpoint = some (codes "/Groups");
}

abbrev pub nobody : Resource
nobody = record { id = none; meta = none; attributes = other 0 }

-- Only the users may be searched.
abbrev pub library : Library Bool ℕ (List Text) ℕ
library = record {
  upper = λ t. t;
  lower = λ t. t;
  casefold = λ t. t;
  has_scheme = λ t. false;
  from_json = λ t. ok [];
  names = λ j. j;
  query_value = λ q. [];
  validate = λ c rt t. ok nobody;
  validate_patch = λ rt t. ok 0;
  validate_bulk = λ t. ok ([], none);
  validate_search = λ rts j. ok (record { cursor = none; start_index = none; count = none });
  validate_parameters = λ rt q. ok false;
  requests_attributes = λ p. p;
  publish_references = λ f r. ok r;
  replace_with = λ r current. ok (some r);
  patch_with = λ d r. ok (some r);
  resource_id_of = λ o. none;
  resource_data = λ o. nobody;
  patch_data = λ o. 0;
  digest = λ rts r. [];
  open_cursor = λ c q n t. ok 7;
  seal_cursor = λ q n c. [];
  library_status = λ e. 404;
  me_target = λ r. err not_implemented;
  me_creation_type = λ r. err not_implemented;
  authorize = λ r t rt. raise_if (rt.name == codes "Group") forbidden;
}

abbrev pub config : Config
config = record {
  patch = some true;
  bulk = none;
  filter = some (record { supported = true; max_results = some 100 });
  sort = none;
  etag = some true;
  pagination = some (record {
    cursor = true;
    index = false;
    default_pagination_method = none;
    default_page_size = some 70;
    max_page_size = some 50;
    cursor_timeout = none;
  });
  authentication_schemes = [];
}

abbrev pub service : ScimService Bool ℕ (List Text) ℕ
service = record {
  resource_types = users ∷ groups ∷ [];
  schemas = [];
  config = config;
  library = library;
}

abbrev pub request : ScimRequest
request = record {
  method = codes "GET";
  base_url = codes "https://example.com";
  path = codes "/";
  query = [];
  headers = [];
  body = [];
  subject = none;
}

bound_count-bounds_example :
    All (AtMost (bound_count service none)) (given (max_results service) (max_page_size service))
bound_count-bounds_example = bound_count-bounds service none

bound_count-some_example : AtMost (bound_count service (some 60)) 60
bound_count-some_example = bound_count-some service 60

abbrev first_page : SearchRequest
first_page = record { cursor = none; start_index = none; count = some 60 }

abbrev paged : SearchRequest
paged = record { cursor = some []; start_index = none; count = some 50 }

first_page-paged : page_search service (users ∷ []) first_page ≡ ok (paged, none)
unfolding page_search pages_by default_pagination bound_count cap open_position
first_page-paged = refl

page_search-IsPaged_example : IsPaged service paged × (some 50 ≡ bound_count service (some 60))
page_search-IsPaged_example =
    page_search-IsPaged service (users ∷ []) first_page paged none first_page-paged

abbrev root : Target
root = record { operation = Operation.search; endpoint = none; resource_id = none; me = false }

root-users : authorized_types service request root (users ∷ groups ∷ []) ≡ ok (users ∷ [])
unfolding authorized_types keep_authorized text_beq
root-users = refl

authorized_types-keep_example :
    ((users ∷ []) ≡ keep (allows service request root) (users ∷ groups ∷ [])) × ((users ∷ []) ≢ [])
authorized_types-keep_example =
    authorized_types-keep service request root (users ∷ groups ∷ []) (users ∷ []) refl root-users
