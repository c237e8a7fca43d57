-- ===== src/Memory/Found.antt =====
-- Which resource a storage holds under a key, and how the two internal writes change it.
use scim2_server.Base.Dict
use scim2_server.Base.Dict.{Dict, get-put, get-pop}
use scim2_server.Models.{Resource}
use scim2_server.Memory.{
  Key, key_eq, same_key, Attributes, Storage, inner, get_in, forget_values, keep_values,
}
use scim2_server.Memory.Store.{pop_in, put_in, remove, store, index_equality, index_equalities}
use scim2_server.Base.{
  ◌≡◌, refl, ap, ◌∙◌, inl, inr, true, ◌&&◌, Option, none, some, List, [], ◌∷◌, map, arith,
  if◌then◌else◌, Bool-cases, Option-cases, ◌==◌, ==_iff, nat_eq, Text, text_eq, option_text_eq, Eq,
}

module _ {K L W : Type 0} ⦃e : Eq K⦄ ⦃f : Eq L⦄ where
  pub inner-put :
      (d : Dict K (Dict L W)) (k j : K) (m : Dict L W)
      → inner (Dict.put d k m) j ≡ (if k == j then m else inner d j)
  inner-put d k j m = ground (arith, get-put d k m j)

  pub inner-eq : (d : Dict K (Dict L W)) (k j : K) → (k == j) ≡ true → inner d k ≡ inner d j
  inner-eq d k j h = ap (inner d) ((==_iff k j).0 h)

  pub get_in-put_in :
      (d : Dict K (Dict L W)) (k j : K) (l i : L) (w : W)
      → get_in (put_in d k l w) j i ≡ (if k == j && l == i then some w else get_in d j i)
  get_in-put_in d k j l i w = elim (Bool-cases (k == j)) [
    | inl h ↦ rw (inner-put d k j (Dict.put (inner d k) l w), h, inner-eq d k j h, get-put)
    | inr h ↦ rw (inner-put d k j (Dict.put (inner d k) l w), h)
  ]

  pub get_in-pop_in :
      (d : Dict K (Dict L W)) (k j : K) (l i : L)
      → get_in (pop_in d k l) j i ≡ (if k == j && l == i then none else get_in d j i)
  unfolding Dict.get
  get_in-pop_in d k j l i = elim (Option-cases (Dict.get d k)) [
    | inl missing ↦ ground (arith, missing, ==_iff k j)
    | inr (m, there) ↦
        ground (arith, there, ==_iff k j, get-put d k (Dict.pop m l) j, get-pop m l i)
  ]

module _ {B V : Type 0} ⦃eb : Eq B⦄ ⦃ev : Eq V⦄ where
  -- The resource under a key.
  abbrev pub found : Storage B V → Key → Option Resource
  found s k = get_in s.resources k.0 k.1

  pub found-remove :
      (key k : Key) (s : Storage B V)
      → found (remove key s) k ≡ (if key == k then none else found s k)
  unfolding remove same_key
  found-remove key k s = get_in-pop_in s.resources key.0 k.0 key.1 k.1

module _ {B V R : Type 0} ⦃eb : Eq B⦄ ⦃ev : Eq V⦄ (a : Attributes B V R) where
  pub index_equalities-keeps :
      (key : Key) (r : Resource) (bs : List B) (s : Storage B V)
      → ((index_equalities a key r bs s).resources ≡ s.resources)
        × ((index_equalities a key r bs s).index ≡ s.index)
        × ((index_equalities a key r bs s).versions ≡ s.versions)
  unfolding index_equality
  index_equalities-keeps key r [] s = (refl, refl, refl)
  index_equalities-keeps key r (b ∷ bs) s =
      index_equalities-keeps key r bs (index_equality a key r s b)

  -- The state that `_store` indexes.
  abbrev pub placed : Key → Resource → Dict Text V → Storage B V → Storage B V
  placed key r vs s =
      let s' = remove key s in
      record s' {
        resources = put_in s'.resources key.0 key.1 r;
        index = keep_values key vs s'.index;
      }

  pub store-keeps :
      (key : Key) (r : Resource) (vs : Dict Text V) (s : Storage B V)
      → ((store a key r vs s).resources ≡ (placed key r vs s).resources)
        × ((store a key r vs s).index ≡ (placed key r vs s).index)
        × ((store a key r vs s).versions ≡ (placed key r vs s).versions)
  unfolding store
  store-keeps key r vs s =
      index_equalities-keeps key r (map (λ e. e.0) (inner (remove key s).equalities key.0))
        (placed key r vs s)

  pub index-store :
      (key : Key) (r : Resource) (vs : Dict Text V) (s : Storage B V)
      → (store a key r vs s).index ≡ keep_values key vs (forget_values key s.index)
  index-store key r vs s = (store-keeps key r vs s).1 ∙ unfold remove in refl

  pub versions-store :
      (key : Key) (r : Resource) (vs : Dict Text V) (s : Storage B V)
      → (store a key r vs s).versions ≡ s.versions
  versions-store key r vs s = (store-keeps key r vs s).2 ∙ unfold remove in refl

  pub found-placed :
      (key k : Key) (r : Resource) (vs : Dict Text V) (s : Storage B V)
      → found (placed key r vs s) k ≡ (if key == k then some r else found s k)
  unfolding same_key
  found-placed key k r vs s =
      get_in-put_in (remove key s).resources key.0 k.0 key.1 k.1 r
      ∙ ground (arith, found-remove key k s)

  pub found-store :
      (key k : Key) (r : Resource) (vs : Dict Text V) (s : Storage B V)
      → found (store a key r vs s) k ≡ (if key == k then some r else found s k)
  found-store key k r vs s =
      ap (λ (d : Dict (Option Text) (Dict Text Resource)). get_in d k.0 k.1)
        (store-keeps key r vs s).0
      ∙ found-placed key k r vs s
