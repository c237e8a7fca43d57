-- ===== src/Memory.antt =====
-- scim2_server/memory.py: `InMemoryStorage`, its indexes and its operations.
mod Owning
mod Index
pub mod Store
pub mod Found
pub mod Keeps
pub mod Valid
pub mod Writes
mod Versions
pub mod Later
pub mod Lost
pub mod Equal
pub mod Search
pub mod Paging
pub mod Positions
pub mod Pages
pub mod Sorting
pub mod Following
pub mod PageTests
pub mod Tests
use scim2_server.Base.Dict
use scim2_server.Base.Dict.{Dict, values}
use scim2_server.Models.{Resource, Meta, ResourceType}
use scim2_server.Base.{
  ℕ, zero, suc, ◌+◌, ◌<◌, ◌≤◌, ◌≡◌, refl, sym, ap, ◌∙◌, subst, ◌↔◌, inl, inr, Bool, true, false,
  not, ◌&&◌, ◌||◌, Option, none, some, List, [], ◌∷◌, ◌++◌, map, arith, ltb, if◌then◌else◌,
  Bool-cases, Option-cases, All, contains, ◌==◌, ==_iff, ==_refl, nat_eq, Text, text_eq,
  option_text_eq, Eq, length, codes, keep, Outcome, ok, err, uniqueness, not_found,
  precondition_failed, ◌>>=◌, ◌>>◌,
}

-- The resource type and the identifier that a resource is stored under.
abbrev pub Key : Type 0
Key = Option Text × Text

abbrev pub key_beq : Key → Key → Bool
key_beq a b = a.0 == b.0 && a.1 == b.1

pub key_beq_iff : (a b : Key) → (key_beq a b ≡ true) ↔ (a ≡ b)
key_beq_iff a b = ground (arith, ==_iff a.0 b.0, ==_iff a.1 b.1)

-- Shut, so that a comparison of two keys stays one test.
unfoldable pub same_key : Key → Key → Bool
same_key = key_beq

pub same_key_iff : (a b : Key) → (same_key a b ≡ true) ↔ (a ≡ b)
unfolding same_key
same_key_iff = key_beq_iff

instance abbrev pub key_eq : Eq Key
key_eq = record { beq = same_key; beq_iff = same_key_iff }

-- What scim2_models and the policy of the service compute. `B` is `AttributeBinding`, `R` a value as
-- a resource holds it, and `V` a value in the form it is compared in. `comparable` gives `none` for
-- a `ValueError`, and `some none` for a value that is missing. `revalidate` is
-- `type(resource).model_validate(resource.model_dump())`.
pub record Attributes (B V R : Type 0) : Type 0 where
  pub unique_attributes : Resource → List B
  pub urn : B → Text
  pub path_get : Text → Resource → R
  pub comparable : B → R → Option (Option V)
  pub raw_text : Text → R
  pub revalidate : Resource → Outcome Resource
  pub hashes : V → Bool
  pub repr : V → V

-- The part of a storage that indexes the unique values.
pub record Owners (V : Type 0) : Type 0 where
  pub owners : Dict Text (Dict V Key)
  pub unique_values : Dict Key (Dict Text V)

pub record Storage (B V : Type 0) : Type 0 where
  pub resources : Dict (Option Text) (Dict Text Resource)
  pub index : Owners V
  pub open index use *
  pub equalities : Dict (Option Text) (Dict B (Dict (Option V) (List Text)))
  pub equal_values : Dict Key (Dict B (Option V))
  pub versions : ℕ

-- `d.get(k, {})` for a dict of dicts
abbrev pub inner : {K L W : Type 0} ⦃e : Eq K⦄ → Dict K (Dict L W) → K → Dict L W
inner d k = elim (Dict.get d k) [ none ↦ [] | some m ↦ m ]

-- `d.get(k, {}).get(l)`
abbrev pub get_in : {K L W : Type 0} ⦃e : Eq K⦄ ⦃f : Eq L⦄ → Dict K (Dict L W) → K → L → Option W
get_in d k l = Dict.get (inner d k) l

abbrev pub taken_by_other : Key → Option Key → Bool
taken_by_other key none = false
taken_by_other key (some k) = not (k == key)

module _ {V : Type 0} ⦃ev : Eq V⦄ where
  -- `for urn, value in values.items(): del owners[urn][value]`
  unfoldable pub disown : Dict Text (Dict V Key) → Dict Text V → Dict Text (Dict V Key)
  disown owners [] = owners
  disown owners ((urn, value) ∷ rest) =
      disown (Dict.put owners urn (Dict.pop (inner owners urn) value)) rest

  -- `for urn, value in values.items(): owners.setdefault(urn, {})[value] = key`
  unfoldable pub own : Key → Dict Text (Dict V Key) → Dict Text V → Dict Text (Dict V Key)
  own key owners [] = owners
  own key owners ((urn, value) ∷ rest) =
      own key (Dict.put owners urn (Dict.put (inner owners urn) value key)) rest

  -- The part of `_remove` that forgets the unique values of a key.
  unfoldable pub forget_values : Key → Owners V → Owners V
  unfolding disown
  forget_values key o = record {
    owners = disown o.owners (inner o.unique_values key);
    unique_values = Dict.pop o.unique_values key;
  }

  -- The part of `_store` that keeps them.
  unfoldable pub keep_values : Key → Dict Text V → Owners V → Owners V
  unfolding own
  keep_values key vs o = record {
    owners = own key o.owners vs;
    unique_values = Dict.put o.unique_values key vs;
  }

  -- `_check_uniqueness`
  unfoldable pub check_uniqueness : Key → Dict Text (Dict V Key) → Dict Text V → Outcome (Unit {0})
  check_uniqueness key owners [] = ok tt
  check_uniqueness key owners ((urn, value) ∷ rest) =
      let others = check_uniqueness key owners rest in
      if taken_by_other key (get_in owners urn value) then err uniqueness else others
