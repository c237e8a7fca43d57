-- ===== src/Memory/Store.antt =====
-- The operations of `InMemoryStorage`. The lock serializes them, so each is one step of the state.
use Prim.Native.Nat.{◌/◌, ◌%◌}
use scim2_server.Base.Dict
use scim2_server.Base.Dict.{Dict, values}
use scim2_server.Models.{Resource, Meta, ResourceType}
use scim2_server.Memory.{
  Key, key_eq, Attributes, Storage, inner, get_in, forget_values, keep_values, check_uniqueness,
}
use mathlib.Core.List.{flat_map}
use scim2_server.Base.{
  option_beq, option_beq_iff, assertion_error, ℕ, zero, suc, ◌+◌, Bool, Option, none, some, List,
  [], ◌∷◌, ◌++◌, map, ltb, if◌then◌else◌, contains, ◌==◌, nat_eq, Text, text_eq, option_text_eq, Eq,
  codes, Outcome, ok, err, not_found, precondition_failed, ◌>>◌,
}

-- `str(n)`
unfoldable pub decimal_from : ℕ → ℕ → Text
decimal_from zero n = []
decimal_from (suc fuel) n =
    let front = decimal_from fuel (n / 10) in
    if ltb n 10 then (b'0' + n) ∷ [] else front ++ (b'0' + n % 10) ∷ []

unfoldable pub decimal : ℕ → Text
unfolding decimal_from
decimal n = decimal_from (suc n) n

-- `next_version`, before the counter moves on
unfoldable pub version_text : ℕ → Text
unfolding decimal
version_text n = codes "W/\"" ++ (decimal n ++ codes "\"")

-- A stored resource has an identifier, so the cast of `_key` holds.
unfoldable pub key_of : Resource → Outcome Key
key_of r = elim r.meta [
  | none ↦ err assertion_error
  | some m ↦ elim r.id [ none ↦ err assertion_error | some id ↦ ok (m.resource_type, id) ]
]

-- `d.get(k, {}).pop(l, None)`
abbrev pub pop_in :
    {K L W : Type 0} ⦃e : Eq K⦄ ⦃f : Eq L⦄ → Dict K (Dict L W) → K → L → Dict K (Dict L W)
pop_in d k l = elim (Dict.get d k) [ none ↦ d | some m ↦ Dict.put d k (Dict.pop m l) ]

-- `d.setdefault(k, {})[l] = w`
abbrev pub put_in :
    {K L W : Type 0} ⦃e : Eq K⦄ ⦃f : Eq L⦄ → Dict K (Dict L W) → K → L → W → Dict K (Dict L W)
put_in d k l w = Dict.put d k (Dict.put (inner d k) l w)

-- `ids.discard(id)` and `ids.add(id)`
unfoldable pub discard_id : Text → List Text → List Text
discard_id id [] = []
discard_id id (i ∷ ids) = let rest = discard_id id ids in if i == id then rest else i ∷ rest

unfoldable pub add_id : Text → List Text → List Text
add_id id ids = if contains ids id then ids else id ∷ ids

abbrev pub Equalities : Type 0 → Type 0 → Type 0
Equalities B V = Dict (Option Text) (Dict B (Dict (Option V) (List Text)))

-- `_check_version`
unfoldable pub check_version : Resource → Option Text → Outcome (Unit {0})
check_version r expected = elim r.meta [
  | none ↦ err assertion_error
  | some m ↦ elim expected [
    | none ↦ ok tt
    | some v ↦ if m.version == some v then ok tt else err precondition_failed
  ]
]

instance abbrev pub missing_eq : {V : Type 0} ⦃ev : Eq V⦄ → Eq (Option V)
missing_eq ⦃ev⦄ = record { beq = option_beq ev; beq_iff = option_beq_iff ev }

module _ {B V : Type 0} ⦃eb : Eq B⦄ ⦃ev : Eq V⦄ where
  abbrev pub ids_at : Equalities B V → Option Text → B → Option V → List Text
  ids_at eqs name b v = elim (Dict.get (inner (inner eqs name) b) v) [ none ↦ [] | some ids ↦ ids ]

  abbrev pub set_ids : Equalities B V → Option Text → B → Option V → List Text → Equalities B V
  set_ids eqs name b v ids =
      Dict.put eqs name (Dict.put (inner eqs name) b (Dict.put (inner (inner eqs name) b) v ids))

  -- The last loop of `_remove`. What is in `equal_values` is in `equalities`, so no key is missing.
  unfoldable pub discard_equal : Key → Equalities B V → Dict B (Option V) → Equalities B V
  unfolding discard_id
  discard_equal key eqs [] = eqs
  discard_equal key eqs ((b, v) ∷ rest) =
      discard_equal key (set_ids eqs key.0 b v (discard_id key.1 (ids_at eqs key.0 b v))) rest

  unfoldable pub remove : Key → Storage B V → Storage B V
  unfolding forget_values discard_equal
  remove key s = record {
    resources = pop_in s.resources key.0 key.1;
    index = forget_values key s.index;
    equalities = discard_equal key s.equalities (inner s.equal_values key);
    equal_values = Dict.pop s.equal_values key;
    versions = s.versions;
  }

  -- `_stored`; a resource without an identifier is not found.
  unfoldable pub stored : Storage B V → ResourceType → Option Text → Outcome Resource
  stored s rt none = err not_found
  stored s rt (some id) = elim (get_in s.resources (some rt.name) id) [
    | none ↦ err not_found
    | some r ↦ ok r
  ]

  unfoldable pub get : Storage B V → ResourceType → Text → Outcome Resource
  unfolding stored
  get s rt id = stored s rt (some id)

  -- The property `resources`.
  unfoldable pub resources_of : Storage B V → List Resource
  resources_of s = flat_map values (values s.resources)

abbrev pub tick : {B V : Type 0} → Storage B V → Storage B V
tick s = record s { versions = s.versions + 1 }

abbrev pub written_meta : ℕ → ℕ → Meta → Meta
written_meta now version m = record m {
  location = none;
  last_modified = some now;
  version = some (version_text version);
}

-- The copy that `create` fills.
abbrev pub new_resource : Text → ℕ → ResourceType → Resource → ℕ → Resource
new_resource id now rt r version = record {
  id = some id;
  meta = some (record {
    resource_type = some rt.name;
    created = some now;
    last_modified = some now;
    location = none;
    version = some (version_text version);
  });
  attributes = r.attributes;
}

abbrev pub hashable : {V : Type 0} → (V → Bool) → (V → V) → V → V
hashable hashes repr v = if hashes v then v else repr v

module _ {B V R : Type 0} ⦃eb : Eq B⦄ ⦃ev : Eq V⦄ (a : Attributes B V R) where
  open a use {unique_attributes, urn, path_get, comparable, hashes, repr, revalidate}

  -- `_comparable_value`: a `ValueError` is a missing value.
  unfoldable pub comparable_value : Resource → B → Option V
  comparable_value r b = elim (comparable b (path_get (urn b) r)) [ none ↦ none | some v ↦ v ]

  -- The loop of `_values_of`.
  unfoldable pub collect_values : Resource → List B → Dict Text V → Dict Text V
  unfolding comparable_value
  collect_values r [] vs = vs
  collect_values r (b ∷ bs) vs = collect_values r bs (elim (comparable_value r b) [
    | none ↦ vs
    | some v ↦ Dict.put vs (urn b) (hashable hashes repr v)
  ])

  unfoldable pub values_of : Resource → Dict Text V
  unfolding collect_values
  values_of r = collect_values r (unique_attributes r) []

  -- `_index_equality`, for a resource stored under a key.
  unfoldable pub index_equality : Key → Resource → Storage B V → B → Storage B V
  unfolding comparable_value add_id
  index_equality key r s b =
      let v = comparable_value r b in
      record s {
        equal_values = put_in s.equal_values key b v;
        equalities = set_ids s.equalities key.0 b v (add_id key.1 (ids_at s.equalities key.0 b v));
      }

  abbrev pub index_equalities : Key → Resource → List B → Storage B V → Storage B V
  index_equalities key r [] s = s
  index_equalities key r (b ∷ bs) s = index_equalities key r bs (index_equality key r s b)

  -- `_store`, with the key of the resource.
  unfoldable pub store : Key → Resource → Dict Text V → Storage B V → Storage B V
  unfolding remove keep_values index_equality
  store key r vs s =
      let s' = remove key s in
      let bindings = map (λ e. e.0) (inner s'.equalities key.0) in
      index_equalities key r bindings (record s' {
        resources = put_in s'.resources key.0 key.1 r;
        index = keep_values key vs s'.index;
      })

  -- `_check_uniqueness`, `_store`, and the resource that a write returns.
  unfoldable pub store_checked : Key → Resource → Storage B V → Outcome Resource × Storage B V
  unfolding values_of check_uniqueness store
  store_checked key r s = elim (check_uniqueness key s.owners (values_of r)) [
    | err e ↦ (err e, s)
    | ok _ ↦ (ok r, store key r (values_of r) s)
  ]

  -- `id` is what `generate_id` returns and `now` what the clock returns.
  unfoldable pub create :
      Text → ℕ → ResourceType → Resource → Storage B V → Outcome Resource × Storage B V
  unfolding store_checked version_text
  create id now rt r s =
      store_checked (some rt.name, id) (new_resource id now rt r s.versions) (tick s)

  -- Behind the checks of `update`: the resource validated again, with the meta of the stored one.
  unfoldable pub write_update :
      ℕ → Resource → Option Meta → Storage B V → Outcome Resource × Storage B V
  unfolding store_checked key_of version_text
  write_update now updated none s = (err assertion_error, s)
  write_update now updated (some m) s =
      let r : Resource = record updated { meta = some (written_meta now s.versions m) } in
      elim (key_of r) [ err e ↦ (err e, tick s) | ok key ↦ store_checked key r (tick s) ]

  unfoldable pub update :
      ℕ → ResourceType → Resource → Option Text → Storage B V → Outcome Resource × Storage B V
  unfolding stored check_version write_update
  update now rt r expected s = elim (stored s rt r.id) [
    | err e ↦ (err e, s)
    | ok old ↦ elim (check_version old expected >> revalidate r) [
      | err e ↦ (err e, s)
      | ok updated ↦ write_update now updated old.meta s
    ]
  ]

  unfoldable pub delete :
      ResourceType → Text → Option Text → Storage B V → Outcome (Unit {0}) × Storage B V
  unfolding stored check_version key_of remove
  delete rt id expected s = elim (stored s rt (some id)) [
    | err e ↦ (err e, s)
    | ok old ↦ elim (check_version old expected >> key_of old) [
      | err e ↦ (err e, s)
      | ok key ↦ (ok tt, remove key s)
    ]
  ]
