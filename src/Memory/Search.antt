-- ===== src/Memory/Search.antt =====
-- `search` of `InMemoryStorage`, with the index of equal values that it fills on demand.
use scim2_server.Base.Dict
use scim2_server.Base.Dict.{Dict, values}
use scim2_server.Models.{Resource, ResourceType}
use scim2_server.Memory.{key_eq, Attributes, Storage, inner}
use scim2_server.Memory.Store.{missing_eq, index_equality}
use scim2_server.Memory.Valid.{IsValid}
use mathlib.Core.List.{flat_map}
use scim2_server.Base.{
  ◌≡◌, refl, inl, inr, Bool, Option, none, some, List, [], ◌∷◌, ◌++◌, if◌then◌else◌, Option-cases,
  contains, nat_eq, Text, text_eq, option_text_eq, Eq, keep, Outcome, ok,
}

-- `list(dict.fromkeys(rt.name for rt in resource_types))`
unfoldable pub names_of : List ResourceType → List Text → List Text
names_of [] seen = seen
names_of (rt ∷ rts) seen =
    names_of rts (if contains seen rt.name then seen else seen ++ rt.name ∷ [])

-- What a search asks for, as scim2_models reads it: the attribute and the string of a filter that is
-- one `eq`, the test of the filter, which may take its models from the candidates, and the page.
pub record Query (B G : Type 0) : Type 0 where
  pub equality : Option (B × Text)
  pub matches : List Resource → Resource → Bool
  pub page : List Resource → G

-- `[resources[id] for id in ids]`: each identifier of the index is one of a stored resource.
unfoldable pub pick : Dict Text Resource → List Text → List Resource
pick resources [] = []
pick resources (id ∷ ids) =
    let rest = pick resources ids in
    elim (Dict.get resources id) [ none ↦ rest | some r ↦ r ∷ rest ]

module _ {B V R : Type 0} ⦃eb : Eq B⦄ ⦃ev : Eq V⦄ (a : Attributes B V R) where
  -- The loop of `_equality_index`, over the resources of a type with their identifiers.
  unfoldable pub index_all : Text → B → Dict Text Resource → Storage B V → Storage B V
  index_all name b [] s = s
  index_all name b ((id, r) ∷ rest) s =
      index_all name b rest (index_equality a (some name, id) r s b)

  unfoldable pub equality_index : Text → B → Storage B V → Storage B V
  unfolding index_all
  equality_index name b s = elim (Dict.get (inner s.equalities (some name)) b) [
    | some _ ↦ s
    | none ↦ index_all name b (inner s.resources (some name)) (record s {
      equalities =
          Dict.put s.equalities (some name) (Dict.put (inner s.equalities (some name)) b []);
    })
  ]

  -- The resources that hold an equal value; `none` is a `ValueError`.
  abbrev pub equal_resources :
      Text → B → Option (Option V) → Storage B V → List Resource × Storage B V
  equal_resources name b none s = ([], s)
  equal_resources name b (some value) s =
      let s' = equality_index name b s in
      (
        pick (inner s'.resources (some name))
            (elim (Dict.get (inner (inner s'.equalities (some name)) b) value) [
              | none ↦ []
              | some ids ↦ ids
            ]),
        s',
      )

  abbrev pub every_resource : List Text → Storage B V → List Resource
  every_resource names s = flat_map (λ name. values (inner s.resources (some name))) names

  unfoldable pub candidates :
      List Text → Option (B × Text) → Storage B V → List Resource × Storage B V
  unfolding equality_index pick
  candidates (name ∷ []) (some (b, text)) s =
      equal_resources name b (a.comparable b (a.raw_text text)) s
  candidates names _ s = (every_resource names s, s)

  unfoldable pub search :
      {G : Type 0} → List ResourceType → Query B G → Storage B V → Outcome G × Storage B V
  unfolding candidates names_of
  search rts q s =
      let (found, s') = candidates (names_of rts []) q.equality s in
      (ok (q.page (keep (q.matches found) found)), s')

  -- What a search may not change.
  abbrev pub SameStored : Storage B V → Storage B V → Type 0
  SameStored s t = (t.resources ≡ s.resources) × (t.index ≡ s.index) × (t.versions ≡ s.versions)

  pub index_all-SameStored :
      (name : Text) (b : B) (rs : Dict Text Resource) (s : Storage B V)
      → SameStored s (index_all name b rs s)
  unfolding index_all index_equality
  index_all-SameStored name b [] s = (refl, refl, refl)
  index_all-SameStored name b ((id, r) ∷ rs) s =
      index_all-SameStored name b rs (index_equality a (some name, id) r s b)

  pub equality_index-SameStored :
      (name : Text) (b : B) (s : Storage B V) → SameStored s (equality_index name b s)
  unfolding equality_index
  equality_index-SameStored name b s =
      elim (Option-cases (Dict.get (inner s.equalities (some name)) b)) [
        | inl e ↦
            rw (e, equality_index) (index_all-SameStored name b (inner s.resources (some name)) _)
        | inr (_, e) ↦ rw (e, equality_index) (refl, refl, refl)
      ]

  equal_resources-SameStored :
      (name : Text) (b : B) (v : Option (Option V)) (s : Storage B V)
      → SameStored s (equal_resources name b v s).1
  equal_resources-SameStored name b none s = (refl, refl, refl)
  equal_resources-SameStored name b (some v) s = equality_index-SameStored name b s

  candidates-SameStored :
      (names : List Text) (e : Option (B × Text)) (s : Storage B V)
      → SameStored s (candidates names e s).1
  unfolding candidates
  candidates-SameStored [] none s = (refl, refl, refl)
  candidates-SameStored [] (some e) s = (refl, refl, refl)
  candidates-SameStored (name ∷ []) none s = (refl, refl, refl)
  candidates-SameStored (name ∷ []) (some (b, text)) s =
      equal_resources-SameStored name b (a.comparable b (a.raw_text text)) s
  candidates-SameStored (n ∷ m ∷ names) none s = (refl, refl, refl)
  candidates-SameStored (n ∷ m ∷ names) (some e) s = (refl, refl, refl)

  -- A search, which may fill the index of equal values, changes no resource, no index of unique
  -- values and no version.
  pub search-SameStored :
      {G : Type 0} (rts : List ResourceType) (q : Query B G) (s : Storage B V)
      → SameStored s (search rts q s).1
  unfolding search
  search-SameStored rts q s = candidates-SameStored (names_of rts []) q.equality s

  pub search-IsValid :
      {G : Type 0} (rts : List ResourceType) (q : Query B G) (s : Storage B V)
      → IsValid a s
      → IsValid a (search rts q s).1
  search-IsValid rts q s i =
      let (resources, index, _) = search-SameStored rts q s in
      record {
        indexed = rw index i.indexed;
        described = λ k u. rw (index, resources) (i.described k u);
      }
