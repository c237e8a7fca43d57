-- ===== src/Requests.antt =====
-- scim2_server/requests.py and scim2_server/responses.py: a request and a response, without a web
-- framework.
use scim2_server.Base.Dict
use scim2_server.Base.Dict.{Dict}
use scim2_server.Models.{ResourceType, Resource, BulkOutcome}
use scim2_server.Base.{
  ℕ, Option, none, some, List, [], ◌∷◌, ◌++◌, if◌then◌else◌, nat_eq, Text, codes, ◌==◌, text_eq,
  option_text_eq, rstrip, strip, is_slash, join,
}

-- The headers as pairs: a mapping is read through its items. The subject may be any object, which the
-- program passes on; a text stands for it.
pub record ScimRequest : Type 0 where
  pub method : Text
  pub base_url : Text
  pub path : Text
  pub query : Dict Text Text
  pub headers : List (Text × Text)
  pub body : List ℕ
  pub subject : Option Text

unfoldable pub url : ScimRequest → Text
url r =
    let base_url = rstrip is_slash r.base_url in
    let path = strip is_slash r.path in if path == [] then base_url else base_url ++ b'/' ∷ path

-- `[value for key, value in pairs if key.lower() == name.lower()]`
unfoldable pub header_values : (Text → Text) → Text → List (Text × Text) → List Text
header_values lower name [] = []
header_values lower name ((key, value) ∷ pairs) =
    let rest = header_values lower name pairs in
    if lower key == lower name then value ∷ rest else rest

abbrev pub joined : List Text → Option Text
joined [] = none
joined (v ∷ vs) = some (join (codes ", ") (v ∷ vs))

-- `lower` is `str.lower`.
unfoldable pub header : (Text → Text) → Text → ScimRequest → Option Text
unfolding header_values
header lower name r = joined (header_values lower name r.headers)

-- A discovery resource with the location in its meta: the configuration, a resource type, or a
-- schema by its identifier.
pub data Document : Type 0 where
  config_document : Text → Document
  type_document : ResourceType → Text → Document
  schema_document : Text → Text → Document

-- What `model_dump` is called on: the body of a response, before it becomes JSON. `P` is
-- `ResponseParameters`.
pub data Body (P : Type 0) : Type 0 where
  resource_body : Resource → Option P → Body P
  list_body :
      (total : Option ℕ) (items_per_page : ℕ) (start_index : Option ℕ)
      → (next_cursor previous_cursor : Option Text) → List Resource
      → Body P
  document_body : Document → Body P
  documents_body : List Document → Body P
  bulk_body : List BulkOutcome → Body P
  error_body : ℕ → Body P

pub record ScimResponse (P : Type 0) : Type 0 where
  pub status : ℕ
  pub body : Option (Body P)
  pub headers : Dict Text Text

-- The constructor, with `__post_init__`.
unfoldable pub respond : {P : Type 0} → ℕ → Option (Body P) → Dict Text Text → ScimResponse P
respond status body headers = record {
  status = status;
  body = body;
  headers = elim (Dict.get headers (codes "Content-Type")) [
    | none ↦ Dict.put headers (codes "Content-Type") (codes "application/scim+json")
    | some _ ↦ headers
  ];
}

-- `response.headers[name] = value`
abbrev pub set_header : {P : Type 0} → Text → Text → ScimResponse P → ScimResponse P
set_header name value r = record r { headers = Dict.put r.headers name value }
