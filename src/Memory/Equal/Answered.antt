-- ===== src/Memory/Equal/Answered.antt =====
-- What a search for one value finds, in a storage at any time of its life.
use scim2_server.Base.Dict
use scim2_server.Base.Dict.{Dict, get-put, get-pop}
use scim2_server.Models.{Resource, ResourceType}
use scim2_server.Memory.{key_eq, Attributes, Storage, inner, get_in}
use scim2_server.Memory.Store.{missing_eq, ids_at, comparable_value}
use scim2_server.Memory.Found.{found}
use scim2_server.Base.{
  Elem, ◌≡◌, refl, sym, ap, ◌∙◌, ◌↔◌, inl, inr, true, Option, none, some, List, [], ◌∷◌, arith,
  Bool-cases, Option-cases, contains, ◌==◌, ==_iff, ==_refl, nat_eq, Text, text_eq, option_text_eq,
  Eq,
}
use scim2_server.Memory.Valid.{Write, Write-keeps, empty}
use scim2_server.Memory.Search.{
  pick, equality_index, equal_resources, candidates, equality_index-SameStored, search, Query,
  names_of,
}
use scim2_server.Memory.Equal.Used.{IsSearchable, empty-IsSearchable, IsSearchable-IsKept}
use scim2_server.Memory.Equal.Searched.{equality_index-IsSearchable}

-- The identifiers of an index, and the resources that they pick.
abbrev Picked : Dict Text Resource → List Text → Resource → Type 0
Picked resources ids r = (id : Text) × (contains ids id ≡ true) × (Dict.get resources id ≡ some r)

cons-Picked :
    (resources : Dict Text Resource) (i : Text) (ids : List Text) (r r' : Resource)
    → Dict.get resources i ≡ some r'
    → (Elem r (pick resources ids) → Picked resources ids r)
    → Elem r (r' ∷ pick resources ids)
    → Picked resources (i ∷ ids) r
cons-Picked resources i ids r r' e rest (inl p) =
    (i, ground (arith, ==_refl i), e ∙ ap (λ x. some x) (sym p))
cons-Picked resources i ids r r' e rest (inr m) =
    let (id, c, g) = rest m in (id, ground (arith, c), g)

pick-Picked :
    (resources : Dict Text Resource) (ids : List Text) (r : Resource)
    → Elem r (pick resources ids)
    → Picked resources ids r
unfolding pick
pick-Picked resources [] r m = absurd m
pick-Picked resources (i ∷ ids) r m = elim (Option-cases (Dict.get resources i)) [
  | inl e ↦
      let (id, c, g) = pick-Picked resources ids r (rw (e, pick) at m) in (id, ground (arith, c), g)
  | inr (r', e) ↦
      cons-Picked resources i ids r r' e (pick-Picked resources ids r) (rw (e, pick) at m)
]

Picked-pick :
    (resources : Dict Text Resource) (ids : List Text) (r : Resource)
    → Picked resources ids r
    → Elem r (pick resources ids)
unfolding pick
Picked-pick resources [] r (id, c, g) = cc
Picked-pick resources (i ∷ ids) r (id, c, g) = elim (Bool-cases (i == id)) [
  | inl e ↦
      let here : Dict.get resources i ≡ some r = ap (Dict.get resources) ((==_iff i id).0 e) ∙ g in
      rw (here, pick) (inl refl)
  | inr e ↦
      let rest = Picked-pick resources ids r (id, ground (arith, c, e), g) in
      elim (Option-cases (Dict.get resources i)) [
        | inl missing ↦ rw (missing, pick) rest
        | inr (r', there) ↦ rw (there, pick) (inr rest)
      ]
]

module _ {B V R : Type 0} ⦃eb : Eq B⦄ ⦃ev : Eq V⦄ (a : Attributes B V R) where
  candidates-IsSearchable :
      (names : List Text) (e : Option (B × Text)) (s : Storage B V)
      → IsSearchable a s
      → IsSearchable a (candidates a names e s).1
  unfolding candidates
  candidates-IsSearchable [] none s h = h
  candidates-IsSearchable [] (some e) s h = h
  candidates-IsSearchable (name ∷ []) none s h = h
  candidates-IsSearchable (name ∷ []) (some (b, text)) s h =
      elim (Option-cases (a.comparable b (a.raw_text text))) [
        | inl e ↦ rw e h
        | inr (v, e) ↦ rw e (equality_index-IsSearchable a name b s h).0
      ]
  candidates-IsSearchable (n ∷ m ∷ names) none s h = h
  candidates-IsSearchable (n ∷ m ∷ names) (some e) s h = h

  search-IsSearchable :
      {G : Type 0} (rts : List ResourceType) (q : Query B G) (s : Storage B V)
      → IsSearchable a s
      → IsSearchable a (search a rts q s).1
  unfolding search
  search-IsSearchable rts q s h = candidates-IsSearchable (names_of rts []) q.equality s h

  -- The storages that writes and searches reach from a new one.
  pub data Used : Storage B V → Type 1 where
    fresh : Used empty
    written : {s t : Storage B V} → Used s → Write a s t → Used t
    searched :
        {s : Storage B V} {G : Type 0} (rts : List ResourceType) (q : Query B G)
        → Used s
        → Used (search a rts q s).1

  pub Used-IsSearchable : {s : Storage B V} → Used s → IsSearchable a s
  Used-IsSearchable fresh = empty-IsSearchable a
  Used-IsSearchable (written u w) =
      Write-keeps a (IsSearchable a) (IsSearchable-IsKept a) w (Used-IsSearchable u)
  Used-IsSearchable (searched {s} rts q u) = search-IsSearchable rts q s (Used-IsSearchable u)

  equality_index-listed :
      (name : Text) (b : B) (v : Option V) (s : Storage B V) (id : Text) (r : Resource)
      → IsSearchable a s
      → found s (some name, id) ≡ some r
      → contains (ids_at (equality_index a name b s).equalities (some name) b v) id
        ≡ (comparable_value a r b == v)
  equality_index-listed name b v s id r h there =
      let t = equality_index a name b s in
      let (i, there') = equality_index-IsSearchable a name b s h in
      let same : found t (some name, id) ≡ some r =
        ap (λ (d : Dict (Option Text) (Dict Text Resource)). get_in d (some name) id)
          (equality_index-SameStored a name b s).0
        ∙ there in
      i.described.listed (some name) b v id ∙ ground (arith, there', same)

  equal-Elem :
      (name : Text) (b : B) (v : Option V) (s : Storage B V) (r : Resource)
      → IsSearchable a s
      → Elem r (equal_resources a name b (some v) s).0
        ↔ ((id : Text) × (found s (some name, id) ≡ some r) × (comparable_value a r b ≡ v))
  equal-Elem name b v s r h =
      let t = equality_index a name b s in
      let ids = ids_at t.equalities (some name) b v in
      let same : (id : Text) → found t (some name, id) ≡ found s (some name, id) = λ id.
        ap (λ (d : Dict (Option Text) (Dict Text Resource)). get_in d (some name) id)
          (equality_index-SameStored a name b s).0 in
      (
        λ m.
            let (id, c, g) = pick-Picked (inner t.resources (some name)) ids r m in
            let there = sym (same id) ∙ g in
            (
              id,
              there,
              (==_iff (comparable_value a r b) v).0
                  (sym (equality_index-listed name b v s id r h there) ∙ c),
            ),
        λ p.
            let (id, there, e) = p in
            Picked-pick (inner t.resources (some name)) ids r (
              id,
              equality_index-listed name b v s id r h there
                  ∙ (==_iff (comparable_value a r b) v).1 e,
              same id ∙ there,
            ),
      )

  -- In a storage that any writes and searches reach from a new one, each of which may have raised or
  -- filled the index of equal values: a search of one type for an attribute and a value that the
  -- attribute can hold takes as its candidates exactly the resources stored under that type whose
  -- attribute compares equal to the value.
  pub candidates-Elem :
      {s : Storage B V}
      → Used s
      → (name : Text) (b : B) (value : Text) (v : Option V) (r : Resource)
      → a.comparable b (a.raw_text value) ≡ some v
      → Elem r (candidates a (name ∷ []) (some (b, value)) s).0
        ↔ ((id : Text) × (found s (some name, id) ≡ some r) × (comparable_value a r b ≡ v))
  unfolding candidates
  candidates-Elem {s} used name b value v r e =
      rw e (equal-Elem name b v s r (Used-IsSearchable used))
