-- ===== src/Memory/Valid.antt =====
-- The invariant of `InMemoryStorage`: the index of the unique values describes the resources that
-- are stored, so no two of them share a unique value.
use scim2_server.Base.Dict
use scim2_server.Base.Dict.{Dict, get-put, get-pop}
use scim2_server.Models.{Resource, ResourceType}
use scim2_server.Memory.{Key, key_eq, Attributes, Storage, get_in, forget_values, check_uniqueness}
use scim2_server.Memory.Index.{
  IsIndex, IsIndex-unique, forget_values-IsIndex, forget_values-values, keep_values-values,
  store_values-IsIndex,
}
use scim2_server.Memory.Owning.{Distinct}
use scim2_server.Memory.Store.{
  remove, store, hashable, comparable_value, collect_values, values_of, create, update, delete,
  tick,
}
use scim2_server.Memory.Keeps.{IsKept, create-keeps, update-keeps, delete-keeps}
use scim2_server.Memory.Found.{found, found-remove, found-store, index-store}
use scim2_server.Base.{
  ℕ, ◌≡◌, refl, ◌∙◌, inl, inr, Option, none, some, List, [], ◌∷◌, arith, Bool-cases, Option-cases,
  ◌==◌, ==_iff, nat_eq, Text, text_eq, option_text_eq, Eq, ok,
}

pub Distinct-put :
    {K W : Type 0} ⦃e : Eq K⦄ (d : Dict K W) (k : K) (w : W)
    → Distinct d
    → Distinct (Dict.put d k w)
unfolding Dict.put Dict.get
Distinct-put [] k w h = (refl, tt)
Distinct-put ((j, v) ∷ d) k w h = elim (Bool-cases (j == k)) [
  | inl e ↦ rw (e, Dict.put) h
  | inr e ↦
      rw (e, Dict.put)
        (ground (arith, e, h.0, get-put d k w j, ==_iff j k, ==_iff k j), Distinct-put d k w h.1)
]

-- A new storage.
abbrev pub empty : {B V : Type 0} → Storage B V
empty = record {
  resources = [];
  index = record { owners = []; unique_values = [] };
  equalities = [];
  equal_values = [];
  versions = 1;
}

module _ {B V R : Type 0} ⦃eb : Eq B⦄ ⦃ev : Eq V⦄ (a : Attributes B V R) where
  collect_values-Distinct :
      (r : Resource) (bs : List B) (vs : Dict Text V)
      → Distinct vs
      → Distinct (collect_values a r bs vs)
  unfolding collect_values
  collect_values-Distinct r [] vs h = h
  collect_values-Distinct r (b ∷ bs) vs h = elim (Option-cases (comparable_value a r b)) [
    | inl e ↦ rw (e, collect_values) (collect_values-Distinct r bs vs h)
    | inr (v, e) ↦
        rw (e, collect_values)
          (collect_values-Distinct r bs (Dict.put vs (a.urn b) (hashable a.hashes a.repr v))
            (Distinct-put vs (a.urn b) (hashable a.hashes a.repr v) h))
  ]

  pub values_of-Distinct : (r : Resource) → Distinct (values_of a r)
  unfolding values_of
  values_of-Distinct r = collect_values-Distinct r (a.unique_attributes r) [] tt

  pub record IsValid (s : Storage B V) : Type 0 where
    pub indexed : IsIndex s.index
    pub described :
        (k : Key) (u : Text)
        → get_in s.unique_values k u ≡ elim (found s k) as (λ x. Option V) [
          | none ↦ none
          | some r ↦ Dict.get (values_of a r) u
        ]

  -- In a valid storage, two resources that hold the same value of a unique attribute are one.
  pub IsValid-unique :
      (s : Storage B V)
      → IsValid s
      → (u : Text) (w : V) (k k' : Key) (r r' : Resource) → found s k ≡ some r
      → found s k' ≡ some r'
      → Dict.get (values_of a r) u ≡ some w
      → Dict.get (values_of a r') u ≡ some w
      → k ≡ k'
  IsValid-unique s h u w k k' r r' e e' p p' =
      IsIndex-unique s.index h.indexed u w k k' (h.described k u ∙ rw e p)
        (h.described k' u ∙ rw e' p')

  store-IsValid :
      (key : Key) (r : Resource) (s : Storage B V)
      → check_uniqueness key s.owners (values_of a r) ≡ ok tt
      → IsValid s
      → IsValid (store a key r (values_of a r) s)
  store-IsValid key r s passed h = record {
    indexed =
        rw index-store (
          store_values-IsIndex key (values_of a r) s.index (values_of-Distinct r) passed h.indexed);
    described = λ k u. rw index-store (
        ground (
          arith,
          keep_values-values key (values_of a r) (forget_values key s.index) k u,
          forget_values-values key s.index k u,
          found-store a key k r (values_of a r) s,
          h.described k u,
        ));
  }

  remove-IsValid : (key : Key) (s : Storage B V) → IsValid s → IsValid (remove key s)
  unfolding remove
  remove-IsValid key s h = record {
    indexed = forget_values-IsIndex key s.index h.indexed;
    described = λ k u.
        ground (arith, forget_values-values key s.index k u, found-remove key k s, h.described k u);
  }

  tick-IsValid : (s : Storage B V) → IsValid s → IsValid (tick s)
  tick-IsValid s h = record { indexed = h.indexed; described = h.described }

  IsValid-IsKept : IsKept a (IsValid)
  IsValid-IsKept = record {
    ticking = tick-IsValid;
    storing = store-IsValid;
    removing = remove-IsValid;
  }

  pub create-IsValid :
      (id : Text) (now : ℕ) (rt : ResourceType) (r : Resource) (s : Storage B V)
      → IsValid s
      → IsValid (create a id now rt r s).1
  create-IsValid = create-keeps a IsValid IsValid-IsKept

  pub update-IsValid :
      (now : ℕ) (rt : ResourceType) (r : Resource) (expected : Option Text) (s : Storage B V)
      → IsValid s
      → IsValid (update a now rt r expected s).1
  update-IsValid = update-keeps a IsValid IsValid-IsKept

  pub delete-IsValid :
      (rt : ResourceType) (id : Text) (expected : Option Text) (s : Storage B V)
      → IsValid s
      → IsValid (delete a rt id expected s).1
  delete-IsValid = delete-keeps a IsValid IsValid-IsKept

  -- The writes of a storage, with whatever arguments, and whether they succeed or raise.
  pub data Write (s : Storage B V) : Storage B V → Type 0 where
    created :
        (id : Text) (now : ℕ) (rt : ResourceType) (r : Resource)
        → Write s (create a id now rt r s).1
    updated :
        (now : ℕ) (rt : ResourceType) (r : Resource) (expected : Option Text)
        → Write s (update a now rt r expected s).1
    deleted :
        (rt : ResourceType) (id : Text) (expected : Option Text)
        → Write s (delete a rt id expected s).1

  pub Write-keeps :
      (P : Storage B V → Type 0) → IsKept a P → {s t : Storage B V} → Write s t → P s → P t
  Write-keeps P kept {s} (created id now rt r) h = create-keeps a P kept id now rt r s h
  Write-keeps P kept {s} (updated now rt r expected) h = update-keeps a P kept now rt r expected s h
  Write-keeps P kept {s} (deleted rt id expected) h = delete-keeps a P kept rt id expected s h

  -- The storages that writes reach from a new one.
  pub data Reached : Storage B V → Type 0 where
    new : Reached empty
    next : {s t : Storage B V} → Reached s → Write s t → Reached t

  empty-IsValid : IsValid empty
  unfolding Dict.get
  empty-IsValid = record {
    indexed = record { owned = λ u w k p. cc; owning = λ u w k p. cc; distinct = λ k vs p. cc };
    described = λ k u. refl;
  }

  pub Reached-IsValid : {s : Storage B V} → Reached s → IsValid s
  Reached-IsValid new = empty-IsValid
  Reached-IsValid (next r w) = Write-keeps IsValid IsValid-IsKept w (Reached-IsValid r)

  -- After any writes, two stored resources that hold the same value of a unique attribute are one.
  pub Reached-unique :
      {s : Storage B V}
      → Reached s
      → (u : Text) (w : V) (k k' : Key) (r r' : Resource) → found s k ≡ some r
      → found s k' ≡ some r'
      → Dict.get (values_of a r) u ≡ some w
      → Dict.get (values_of a r') u ≡ some w
      → k ≡ k'
  Reached-unique {s} reached = IsValid-unique s (Reached-IsValid reached)
