-- ===== src/Memory/Equal/Searched.antt =====
-- What a search for one value finds with the index of equal values, which it may first build.
use scim2_server.Base.Dict
use scim2_server.Base.Dict.{Dict, get-put, get-pop}
use scim2_server.Models.{Resource}
use scim2_server.Memory.{key_eq, Attributes, Storage, inner, get_in}
use scim2_server.Memory.Store.{missing_eq, add_id, ids_at, comparable_value, index_equality}
use scim2_server.Memory.Found.{found, inner-eq}
use scim2_server.Memory.Equal.{indexed, indexed-set_ids}
use scim2_server.Memory.Owning.{Distinct}
use scim2_server.Memory.Equal.Described.{at_key, held, Describes, Describes-change}
use scim2_server.Base.{
  ◌≡◌, refl, sym, ap, ◌∙◌, subst, inl, inr, Bool, true, false, ◌&&◌, ◌||◌, Option, none, some, [],
  ◌∷◌, map, arith, Bool-cases, Option-cases, contains, ◌==◌, ==_iff, ==_refl, nat_eq, Text, text_eq,
  option_text_eq, Eq,
}
use scim2_server.Memory.Equal.Kept.{IsIndexed, Apart}
use scim2_server.Memory.Owning.{Distinct}
use scim2_server.Memory.Search.{index_all, equality_index, index_all-SameStored}
use scim2_server.Memory.Equal.Described.{
  held, Describes, Describes-change, index_equality-Describes, at_key,
}
use scim2_server.Memory.Equal.Begun.{begun, begun-indexed, begun-Describes}
use scim2_server.Memory.Equal.Used.{IsSearchable}

keys-contains :
    {W : Type 0} (d : Dict Text W) (id : Text)
    → contains (map (λ e. e.0) d) id
      ≡ elim (Dict.get d id) as (λ x. Bool) [ none ↦ false | some _ ↦ true ]
unfolding Dict.get
keys-contains [] id = refl
keys-contains ((j, w) ∷ d) id = ground (arith, keys-contains d id)

-- The entries of a dict, under their keys.
abbrev AreFound : Dict Text Resource → Dict Text Resource → Type 0
AreFound d [] = Unit
AreFound d ((id, r) ∷ es) = (Dict.get d id ≡ some r) × AreFound d es

AreFound-cons :
    (d es : Dict Text Resource) (k : Text) (w : Resource)
    → Dict.get d k ≡ none
    → AreFound d es
    → AreFound ((k, w) ∷ d) es
unfolding Dict.get
AreFound-cons d [] k w h f = tt
AreFound-cons d ((id, r) ∷ es) k w h (f, fs) =
    (ground (arith, f, h, ==_iff k id), AreFound-cons d es k w h fs)

Distinct-AreFound : (d : Dict Text Resource) → Distinct d → AreFound d d
unfolding Dict.get
Distinct-AreFound [] h = tt
Distinct-AreFound ((k, w) ∷ d) (h, hs) =
    (rw (==_refl k) refl, AreFound-cons d d k w h (Distinct-AreFound d hs))

module _ {B V R : Type 0} ⦃eb : Eq B⦄ ⦃ev : Eq V⦄ (a : Attributes B V R) where
  index_all-Describes :
      (cover : Option Text → B → Text → Bool) (name : Text) (b : B) (rs : Dict Text Resource)
      (s : Storage B V)
      → AreFound (inner s.resources (some name)) rs
      → Describes a cover s
      → Describes a
          (λ n b' id.
            cover n b' id || (some name == n && contains (map (λ e. e.0) rs) id) && b == b')
          (index_all a name b rs s)
  unfolding index_all index_equality
  index_all-Describes cover name b [] s f d =
      Describes-change a cover _ s (λ n b' v id. ground arith) d
  index_all-Describes cover name b ((i, r) ∷ rs) s (f, fs) d =
      Describes-change a _ _ (index_all a name b ((i, r) ∷ rs) s)
        (λ n b' v id.
          merge (cover n b' id) (some name == n) (i == id) (contains (map (λ e. e.0) rs) id)
            (b == b') _)
        (index_all-Describes (λ n b' id. cover n b' id || at_key (some name, i) n id && b == b')
          name b rs (index_equality a (some name, i) r s b) fs
          (index_equality-Describes a cover (some name, i) r s b f d))
    where
      merge :
          (x k p c q h : Bool)
          → ((x || (k && p) && q) || (k && c) && q) && h ≡ (x || (k && (p || c)) && q) && h
      merge x k p c q h = ground arith

  index_all-indexed :
      (name : Text) (b : B) (rs : Dict Text Resource) (s : Storage B V) (n : Option Text) (b' : B)
      → indexed s.equalities (some name) b ≡ true
      → indexed (index_all a name b rs s).equalities n b' ≡ indexed s.equalities n b'
  unfolding index_all index_equality
  index_all-indexed name b [] s n b' h = refl
  index_all-indexed name b ((i, r) ∷ rs) s n b' h =
      let w = comparable_value a r b in
      let ids = add_id i (ids_at s.equalities (some name) b w) in
      let same : (some name == n && b == b') ≡ true
          → indexed s.equalities (some name) b ≡ indexed s.equalities n b' =
        λ e.
          ap (λ x. indexed s.equalities x b) ((==_iff (some name) n).0 (ground (arith, e)))
          ∙ ap (λ x. indexed s.equalities n x) ((==_iff b b').0 (ground (arith, e))) in
      index_all-indexed name b rs (index_equality a (some name, i) r s b) n b'
        (indexed-set_ids s.equalities (some name) b w ids (some name) b ∙ ground (arith, h))
      ∙ indexed-set_ids s.equalities (some name) b w ids n b'
      ∙ ground (arith, h, same)

  -- The cover of a full index, where a resource is held only under an identifier that is there.
  full_cover :
      (name : Text) (b : B) (s : Storage B V) (n : Option Text) (b' : B) (v : Option V) (id : Text)
      → (indexed s.equalities n b'
            || (some name == n && contains (map (λ e. e.0) (inner s.resources (some name))) id)
              && b == b')
          && held a (found s (n, id)) b' v
        ≡ ((some name == n && b == b') || indexed s.equalities n b')
          && held a (found s (n, id)) b' v
  full_cover name b s n b' v id = elim (Bool-cases (some name == n)) [
    | inr e ↦ ground (arith, e)
    | inl e ↦ elim (Option-cases (found s (n, id))) [
      | inl missing ↦
          ap
            (λ o.
              (indexed s.equalities n b'
                || (some name == n && contains (map (λ e. e.0) (inner s.resources (some name))) id)
                  && b == b')
              && held a o b' v)
            missing
          ∙ ground arith
          ∙ ap (λ o. ((some name == n && b == b') || indexed s.equalities n b') && held a o b' v)
              (sym missing)
      | inr (r, there) ↦
          let here : Dict.get (inner s.resources (some name)) id ≡ some r =
            ap (λ d. Dict.get d id) (inner-eq s.resources (some name) n e) ∙ there in
          ground (arith, e, keys-contains (inner s.resources (some name)) id, here)
    ]
  ]

  begun-there :
      (name : Text) (b : B) (s : Storage B V)
      → indexed (begun name b s).equalities (some name) b ≡ true
  begun-there name b s =
      begun-indexed name b s (some name) b ∙ ground (arith, ==_refl (some name), ==_refl b)

  built-IsSearchable :
      (name : Text) (b : B) (s : Storage B V)
      → Dict.get (inner s.equalities (some name)) b ≡ none
      → IsSearchable a s
      → IsIndexed a (index_all a name b (inner s.resources (some name)) (begun name b s))
  built-IsSearchable name b s missing h =
      let rs = inner s.resources (some name) in
      let t = index_all a name b rs (begun name b s) in
      let same : (n : Option Text) (id : Text) → found t (n, id) ≡ found s (n, id) = λ n id.
        ap (λ (d : Dict (Option Text) (Dict Text Resource)). get_in d n id)
          (index_all-SameStored a name b rs (begun name b s)).0 in
      let there = begun-there name b s in
      Describes-change a _ _ (index_all a name b rs (begun name b s))
        (λ n b' v id.
          ap
            (λ o.
              (indexed s.equalities n b'
                || (some name == n && contains (map (λ e. e.0) rs) id) && b == b')
              && held a o b' v)
            (same n id)
          ∙ full_cover name b s n b' v id
          ∙ ap (λ x. x && held a (found s (n, id)) b' v)
              (sym (
                index_all-indexed name b rs (begun name b s) n b' there
                ∙ begun-indexed name b s n b'))
          ∙ ap (λ o. indexed t.equalities n b' && held a o b' v) (sym (same n id)))
        (index_all-Describes _ name b rs (begun name b s)
          (Distinct-AreFound rs (h.apart (some name)))
          (begun-Describes a _ name b s missing h.described))

  -- The index of a name and an attribute, which is there after `_equality_index`.
  pub equality_index-IsSearchable :
      (name : Text) (b : B) (s : Storage B V)
      → IsSearchable a s
      → IsSearchable a (equality_index a name b s)
        × (indexed (equality_index a name b s).equalities (some name) b ≡ true)
  unfolding equality_index
  equality_index-IsSearchable name b s h =
      elim (Option-cases (Dict.get (inner s.equalities (some name)) b)) [
        | inr (m, e) ↦ rw (e, equality_index) (h, ground (arith, e))
        | inl e ↦
            rw (e, equality_index)
              (
                record {
                  described = built-IsSearchable name b s e h;
                  apart =
                      subst Apart
                        (sym
                          (index_all-SameStored a name b (inner s.resources (some name))
                            (begun name b s)).0)
                        h.apart;
                },
                index_all-indexed name b (inner s.resources (some name)) (begun name b s)
                      (some name) b (begun-there name b s)
                    ∙ begun-there name b s,
              )
      ]
