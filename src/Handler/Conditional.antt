-- ===== src/Handler/Conditional.antt =====
-- Writes with a list of versions in If-Match.
use scim2_server.Models.{Resource, Meta, ResourceType}
use scim2_server.Conditions.Lists.{weak_tag, list_header, Unquoted}
use scim2_server.Routing.{Operation, Target}
use scim2_server.Requests.{ScimRequest, header}
use scim2_server.Handler.Requested.{
  replace, patch, delete, read_target, authorized_target, content_type,
}
use scim2_server.Service.{ScimService, etag_supported}
use scim2_server.Service.Answers.{read_replacement, read_patch}
use scim2_server.Handler.{ScimStorage}
use scim2_server.Base.{
  ◌≡◌, true, false, some, List, ◌∷◌, All, contains, nat_eq, Text, text_eq, option_text_eq, codes,
  ok,
}

-- The resource `r` in the version `v`.
abbrev pub versioned : Resource → Meta → Text → Resource
versioned r m v = record r { meta = some (record m { version = some (weak_tag v) }) }

module _ {P D J C S : Type 0} (sv : ScimService P D J C) (storage : ScimStorage P C S) where
  -- The If-Match header of the request holds weak tags, of which none is the version.
  pub record OnlyIfOther (r : ScimRequest) (x : Text) (xs : List Text) (v : Text) : Type 0 where
    pub supported : etag_supported sv ≡ true
    pub given : header sv.lower (codes "If-Match") r ≡ some (list_header (x ∷ xs))
    pub unquoted : All Unquoted (x ∷ xs)
    pub other : contains (x ∷ xs) v ≡ false

  -- The request is authorized, and its parameters and its body are read.
  pub data Accepted (r : ScimRequest) (target : Target) (rt : ResourceType)
      : Operation → Type 0 where
    replacing :
        (parameters : P) (replacement : Resource)
        → read_target sv storage r Operation.replace ≡ ok (target, rt, parameters)
        → read_replacement sv rt r.body (content_type sv storage r) ≡ ok replacement
        → Accepted r target rt Operation.replace
    patching :
        (parameters : P) (patch_op : D)
        → read_target sv storage r Operation.patch ≡ ok (target, rt, parameters)
        → read_patch sv rt r.body (content_type sv storage r) ≡ ok patch_op
        → Accepted r target rt Operation.patch
    deleting :
        authorized_target sv storage r Operation.delete ≡ ok (target, rt)
        → Accepted r target rt Operation.delete
