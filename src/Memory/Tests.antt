-- ===== src/Memory/Tests.antt =====
-- The storage with one unique attribute, `userName`, at concrete writes.
use scim2_server.Models.{Value, text, Resource, ResourceType}
use scim2_server.Memory.{
  Key, same_key, forget_values, keep_values, disown, own, check_uniqueness, Attributes, Storage,
}
use scim2_server.Memory.Store.{
  store_checked, store, remove, discard_equal, index_equality, version_text, decimal, decimal_from,
  check_version, write_update, key_of, collect_values, comparable_value, create, update,
  new_resource, values_of, stored, tick,
}
use scim2_server.Memory.Found.{found}
use scim2_server.Memory.Valid.{empty, Reached, new, next, created, Reached-unique, Reached-IsValid}
use scim2_server.Memory.Search.{Query, SameStored, candidates, search, search-SameStored}
use scim2_server.Memory.Equal.Answered.{Used, fresh, written, searched, candidates-Elem}
use scim2_server.Memory.Paging.{Direction, bounds, IsStrict, bounds-adjacent}
use scim2_server.Memory.Writes.{
  Holds, Conflict, SameContent, HasVersion, create-cases, update-atomic, update-expected,
}
use scim2_server.Base.Dict
use scim2_server.Base.{
  false, Elem, ◌↔◌, ltb, arith, ℕ, nat_eq, List, ◌≡◌, refl, ◌⊎◌, none, some, [], ◌∷◌, true, Text,
  text_eq, codes, text_beq, ok, err, not_found, uniqueness, nat_eq,
}

abbrev pub user_name : Value → Text
user_name (text t) = t
user_name _ = []

abbrev pub policy : Attributes Text Text Text
policy = record {
  unique_attributes = λ r. codes "userName" ∷ [];
  urn = λ b. b;
  path_get = λ u r. user_name r.attributes;
  comparable = λ b v. some (some v);
  raw_text = λ t. t;
  revalidate = λ r. ok r;
  hashes = λ v. true;
  repr = λ v. v;
}

abbrev users : ResourceType
users = record { id = some (codes "User"); name = codes "User"; endpoint = some (codes "/Users") }

abbrev pub bjensen : Resource
bjensen = record { id = none; meta = none; attributes = text (codes "bjensen") }

abbrev one_user : Storage Text Text
one_user = (create policy (codes "1") 7 users bjensen empty).1

abbrev stored_user : Resource
stored_user = new_resource (codes "1") 7 users bjensen 1

one_user-Reached : Reached policy one_user
one_user-Reached = next new (created (codes "1") 7 users bjensen)

abbrev user_key : Key
user_key = (some (codes "User"), codes "1")

one_user-found : found one_user user_key ≡ some stored_user
unfolding create store_checked check_uniqueness store remove forget_values keep_values disown own
    discard_equal index_equality values_of collect_values comparable_value version_text decimal
    decimal_from Dict.get Dict.put Dict.pop text_beq same_key
one_user-found = refl

stored_user-name :
    Dict.get (values_of policy stored_user) (codes "userName") ≡ some (codes "bjensen")
unfolding values_of collect_values comparable_value Dict.get Dict.put text_beq
stored_user-name = refl

Reached-unique_example : user_key ≡ user_key
Reached-unique_example =
    Reached-unique policy one_user-Reached (codes "userName") (codes "bjensen") user_key user_key
      stored_user stored_user one_user-found one_user-found stored_user-name stored_user-name

create-cases_example :
    (¬ Conflict policy user_key stored_user empty)
      × ((create policy (codes "1") 7 users bjensen empty).0 ≡ ok stored_user)
      × Holds policy user_key stored_user empty one_user
    ⊎ Conflict policy user_key stored_user empty
      × (create policy (codes "1") 7 users bjensen empty ≡ (err uniqueness, tick empty))
create-cases_example =
    create-cases policy (codes "1") 7 users bjensen empty (Reached-IsValid policy new)

missing_update : (update policy 8 users bjensen (some (codes "x")) empty).0 ≡ err not_found
unfolding update stored Dict.get
missing_update = refl

update-atomic_example :
    SameContent policy empty (update policy 8 users bjensen (some (codes "x")) empty).1
update-atomic_example =
    update-atomic policy 8 users bjensen (some (codes "x")) empty not_found missing_update

abbrev by_name : Query Text (List Resource)
by_name = record {
  equality = some (codes "userName", codes "bjensen");
  matches = λ found r. true;
  page = λ found. found;
}

search-SameStored_example :
    SameStored policy one_user (search policy (users ∷ []) by_name one_user).1
search-SameStored_example = search-SameStored policy (users ∷ []) by_name one_user

abbrev updated_user : Resource
updated_user = record stored_user {
  meta = some (record {
    resource_type = some (codes "User");
    created = some 7;
    last_modified = some 8;
    location = none;
    version = some (version_text 2);
  });
}

expected_update :
    (update policy 8 users stored_user (some (version_text 1)) one_user).0 ≡ ok updated_user
unfolding update stored check_version write_update key_of create store_checked check_uniqueness
    store remove forget_values keep_values disown own discard_equal index_equality values_of
    collect_values comparable_value version_text decimal decimal_from Dict.get Dict.put Dict.pop
    text_beq same_key
expected_update = refl

update-expected_example :
    (old : Resource) × (stored one_user users (some (codes "1")) ≡ ok old)
    × HasVersion policy old (version_text 1)
update-expected_example =
    update-expected policy 8 users stored_user updated_user (version_text 1) one_user
      expected_update

ltb-IsStrict : IsStrict ltb
ltb-IsStrict = record { irreflexive = λ k. ground arith; asymmetric = λ j k e. ground (arith, e) }

abbrev keys : List ℕ
keys = 3 ∷ 5 ∷ 8 ∷ []

bounds-adjacent_example :
    ((bounds ltb keys (some (Direction.next, 5)) (some 2) false).0 ≡ 2)
    × ((bounds ltb keys (some (Direction.previous, 5)) (some 2) false).1 ≡ 1)
bounds-adjacent_example =
    bounds-adjacent ltb ltb-IsStrict false keys 1 5 2 ((refl, (refl, tt)), ((refl, tt), (tt, tt)))
      refl

abbrev searched_users : Storage Text Text
searched_users = (search policy (users ∷ []) by_name one_user).1

searched_users-Used : Used policy searched_users
searched_users-Used =
    searched (users ∷ []) by_name (written fresh (created (codes "1") 7 users bjensen))

candidates-Elem_example :
    Elem stored_user
      (candidates policy
        (codes "User" ∷ [])
        (some (codes "userName", codes "bjensen"))
        searched_users).0
    ↔ ((id : Text) × (found searched_users (some (codes "User"), id) ≡ some stored_user)
        × (comparable_value policy stored_user (codes "userName") ≡ some (codes "bjensen")))
candidates-Elem_example =
    candidates-Elem policy searched_users-Used (codes "User") (codes "userName") (codes "bjensen")
      (some (codes "bjensen")) stored_user refl
