-- ===== src/Memory/Sorting.antt =====
-- The order of the sorted resources: distinct sort keys are sorted strictly.
use scim2_server.Models.{Resource}
use scim2_server.Memory.Paging.{before, Sorted, IsStrict}
use scim2_server.Memory.Pages.{PageRequest, descends, insert, sorted_pairs, keys_of}
use scim2_server.Memory.Positions.{SortKey, sort_key, Dates}
use scim2_server.Base.{
  ◌≡◌, ◌⊎◌, inl, inr, Bool, true, false, List, [], ◌∷◌, map, Bool-cases, All, Eq, nat_eq, text_eq,
  option_text_eq,
}

-- What `<` on tuples of comparable values satisfies.
pub record IsOrder {D : Type 0} ⦃ek : Eq (SortKey D)⦄ (less : SortKey D → SortKey D → Bool)
    : Type 0 where
  pub strict : IsStrict less
  pub transitive : (i j k : SortKey D) → less i j ≡ true → less j k ≡ true → less i k ≡ true

-- One of the keys is smaller.
abbrev pub Differ : {D : Type 0} → (SortKey D → SortKey D → Bool) → SortKey D → SortKey D → Type 0
Differ less j k = (less j k ≡ true) ⊎ (less k j ≡ true)

-- Of any two of the resources, one has the smaller sort key.
abbrev pub AllDiffer :
    {D : Type 0} → (SortKey D → SortKey D → Bool) → (Resource → SortKey D) → List Resource → Type 0
AllDiffer less key [] = Unit
AllDiffer less key (r ∷ rs) = All (λ r'. Differ less (key r) (key r')) rs × AllDiffer less key rs

module _ {D : Type 0} ⦃ek : Eq (SortKey D)⦄ (dates : Dates D)
    (less : SortKey D → SortKey D → Bool) where
  All-insert :
      (P : SortKey D → Type 0) (d : Bool) (x : SortKey D × Resource)
      (ys : List (SortKey D × Resource))
      → P x.0
      → All P (map (λ p. p.0) ys)
      → All P (map (λ p. p.0) (insert dates less d x ys))
  unfolding insert
  All-insert P d x [] p ps = (p, tt)
  All-insert P d x (y ∷ ys) p ps = elim (Bool-cases (before less d x.0 y.0)) [
    | inl e ↦ rw (e, insert) (ps.0, All-insert P d x ys p ps.1)
    | inr e ↦ rw (e, insert) (p, ps)
  ]

  pub All-keys :
      (P : SortKey D → Type 0) (rq : PageRequest D) (rs : List Resource)
      → All (λ r. P (sort_key rq.sort_value r)) rs
      → All P (keys_of dates less rq rs)
  unfolding sorted_pairs
  All-keys P rq [] ps = tt
  All-keys P rq (r ∷ rs) ps =
      All-insert P (descends rq) (sort_key rq.sort_value r, r) (sorted_pairs dates less rq rs) ps.0
        (All-keys P rq rs ps.1)

module _ {D : Type 0} ⦃ek : Eq (SortKey D)⦄ (dates : Dates D) (less : SortKey D → SortKey D → Bool)
    (h : IsOrder less) where
  after-before :
      (d : Bool) (x y : SortKey D)
      → Differ less x y
      → before less d x y ≡ false
      → before less d y x ≡ true
  after-before true x y (inl p) e = cc
  after-before true x y (inr p) e = p
  after-before false x y (inl p) e = p
  after-before false x y (inr p) e = cc

  before-transitive :
      (d : Bool) (i j k : SortKey D)
      → before less d i j ≡ true
      → before less d j k ≡ true
      → before less d i k ≡ true
  before-transitive true i j k p q = h.transitive i j k p q
  before-transitive false i j k p q = h.transitive k j i q p

  All-behind :
      (d : Bool) (x y : SortKey D) (ks : List (SortKey D))
      → before less d y x ≡ true
      → All (λ later. before less d later y ≡ true) ks
      → All (λ later. before less d later x ≡ true) ks
  All-behind d x y [] e hs = tt
  All-behind d x y (k ∷ ks) e hs = (before-transitive d k y x hs.0 e, All-behind d x y ks e hs.1)

  insert-Sorted :
      (d : Bool) (x : SortKey D × Resource) (ys : List (SortKey D × Resource))
      → All (λ k. Differ less x.0 k) (map (λ p. p.0) ys)
      → Sorted less d (map (λ p. p.0) ys)
      → Sorted less d (map (λ p. p.0) (insert dates less d x ys))
  unfolding insert
  insert-Sorted d x [] n s = (tt, tt)
  insert-Sorted d x (y ∷ ys) n s = elim (Bool-cases (before less d x.0 y.0)) [
    | inl e ↦
        rw (e, insert)
          (
            All-insert dates less (λ later. before less d later y.0 ≡ true) d x ys e s.0,
            insert-Sorted d x ys n.1 s.1,
          )
    | inr e ↦
        let behind = after-before d x.0 y.0 n.0 e in
        rw (e, insert) ((behind, All-behind d x.0 y.0 (map (λ p. p.0) ys) behind s.0), s)
  ]

  pub keys_of-Sorted :
      (rq : PageRequest D) (rs : List Resource)
      → AllDiffer less (sort_key rq.sort_value) rs
      → Sorted less (descends rq) (keys_of dates less rq rs)
  unfolding sorted_pairs
  keys_of-Sorted rq [] n = tt
  keys_of-Sorted rq (r ∷ rs) n =
      insert-Sorted (descends rq) (sort_key rq.sort_value r, r) (sorted_pairs dates less rq rs)
        (All-keys dates less (λ k. Differ less (sort_key rq.sort_value r) k) rq rs n.0)
        (keys_of-Sorted rq rs n.1)
