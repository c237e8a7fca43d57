-- ===== src/Memory/Paging.antt =====
-- The slice of the sorted resources that a cursor page covers: `_bounds` of memory.py.
use scim2_server.Base.{
  ℕ, zero, suc, ◌+◌, ◌≡◌, refl, subst, inl, inr, Bool, true, false, ◌||◌, Option, none, some, List,
  [], ◌∷◌, if◌then◌else◌, Bool-cases, All, ◌==◌, ==_iff, ==_refl, nat_eq, text_eq, option_text_eq,
  Eq, length, min, ◌-◌, get_elem?,
}

-- The direction of a position.
pub data Direction : Type 0 where
  next previous : Direction

-- `sum(1 for key in keys if test(key))`
unfoldable pub count_keys : {K : Type 0} → (K → Bool) → List K → ℕ
count_keys test [] = 0
count_keys test (k ∷ ks) = let rest = count_keys test ks in if test k then suc rest else rest

-- `K` is a sort key, which `less` orders as Python orders the tuples.
module _ {K : Type 0} ⦃ek : Eq K⦄ (less : K → K → Bool) where
  abbrev pub before : Bool → K → K → Bool
  before descending anchor key = if descending then less anchor key else less key anchor

  -- A position that is read is a direction and the key of the resource next to the page.
  unfoldable pub bounds : List K → Option (Direction × K) → Option ℕ → Bool → ℕ × ℕ
  unfolding count_keys
  bounds keys none none descending = (0, length keys)
  bounds keys none (some count) descending = (0, min count (length keys))
  bounds keys (some (next, anchor)) none descending =
      (count_keys (λ key. before descending anchor key || key == anchor) keys, length keys)
  bounds keys (some (next, anchor)) (some count) descending =
      let start = count_keys (λ key. before descending anchor key || key == anchor) keys in
      (start, min (start + count) (length keys))
  bounds keys (some (previous, anchor)) none descending =
      (0, count_keys (before descending anchor) keys)
  bounds keys (some (previous, anchor)) (some count) descending =
      let stop = count_keys (before descending anchor) keys in (stop - count, stop)

  -- Each key comes before those behind it.
  abbrev pub Sorted : Bool → List K → Type 0
  Sorted descending [] = Unit
  Sorted descending (k ∷ ks) =
      All (λ later. before descending later k ≡ true) ks × Sorted descending ks

  -- What `<` on the keys satisfies.
  pub record IsStrict : Type 0 where
    pub irreflexive : (k : K) → less k k ≡ false
    pub asymmetric : (j k : K) → less j k ≡ true → less k j ≡ false

  before-asymmetric : IsStrict → (d : Bool) (j k : K) → before d j k ≡ true → before d k j ≡ false
  before-asymmetric h true j k e = h.asymmetric j k e
  before-asymmetric h false j k e = h.asymmetric k j e

  before-irreflexive : IsStrict → (d : Bool) (k : K) → before d k k ≡ false
  before-irreflexive h true k = h.irreflexive k
  before-irreflexive h false k = h.irreflexive k

  count_keys-none :
      (test : K → Bool) (ks : List K) → All (λ k. test k ≡ false) ks → count_keys test ks ≡ 0
  unfolding count_keys
  count_keys-none test [] h = refl
  count_keys-none test (k ∷ ks) h = rw (h.0, count_keys-none test ks h.1) refl

  All-map : (P Q : K → Type 0) (ks : List K) → ((k : K) → P k → Q k) → All P ks → All Q ks
  All-map P Q [] f h = tt
  All-map P Q (k ∷ ks) f h = (f k h.0, All-map P Q ks f h.1)

  pub All-get_elem? :
      (P : K → Type 0) (ks : List K) (i : ℕ) (k : K) → All P ks → get_elem? ks i ≡ some k → P k
  All-get_elem? P [] i k h e = cc
  All-get_elem? P (j ∷ ks) zero k h e = subst P (same e) h.0
    where
      same : some j ≡ some k → j ≡ k
      same q = cc
  All-get_elem? P (j ∷ ks) (suc i) k h e = All-get_elem? P ks i k h.1 e

  unwrap : (j k : K) → some j ≡ some k → j ≡ k
  unwrap j k e = cc

  clash : (t : Bool) → t ≡ true → t ≡ false → ⊥
  clash t e e' = cc

  before-other :
      (h : IsStrict) (d : Bool) (later k : K) → before d later k ≡ true → (later == k) ≡ false
  before-other h d later k e = elim (Bool-cases (later == k)) [
    | inr other ↦ other
    | inl same ↦ absurd (
        clash (before d k k) (subst (λ x. before d x k ≡ true) ((==_iff later k).0 same) e)
          (before-irreflexive h d k))
  ]

  count_keys-before_head :
      (h : IsStrict) (d : Bool) (k : K) (ks : List K)
      → Sorted d (k ∷ ks)
      → count_keys (before d k) (k ∷ ks) ≡ 0
  unfolding count_keys
  count_keys-before_head h d k ks sorted =
      rw
        (
          before-irreflexive h d k,
          count_keys-none (before d k) ks (
              All-map (λ later. before d later k ≡ true) (λ later. before d k later ≡ false) ks
                (λ later. before-asymmetric h d later k) sorted.0),
        )
        refl

  not-through :
      (h : IsStrict) (d : Bool) (k later : K)
      → before d later k ≡ true
      → (before d k later || later == k) ≡ false
  not-through h d k later e = rw (before-asymmetric h d later k e, before-other h d later k e) refl

  count_keys-through_head :
      (h : IsStrict) (d : Bool) (k : K) (ks : List K)
      → Sorted d (k ∷ ks)
      → count_keys (λ key. before d k key || key == k) (k ∷ ks) ≡ 1
  unfolding count_keys
  count_keys-through_head h d k ks sorted =
      rw
        (
          before-irreflexive h d k,
          ==_refl k,
          count_keys-none (λ key. before d k key || key == k) ks
              (All-map (λ later. before d later k ≡ true)
                (λ later. (before d k later || later == k) ≡ false) ks (not-through h d k)
                sorted.0),
        )
        refl

  count_keys-before :
      (h : IsStrict) (d : Bool) (ks : List K) (i : ℕ) (k : K)
      → Sorted d ks
      → get_elem? ks i ≡ some k
      → count_keys (before d k) ks ≡ i
  unfolding count_keys
  count_keys-before h d [] i k sorted e = cc
  count_keys-before h d (j ∷ ks) zero k sorted e =
      subst (λ x. count_keys (before d x) (j ∷ ks) ≡ 0) (unwrap j k e)
        (count_keys-before_head h d j ks sorted)
  count_keys-before h d (j ∷ ks) (suc i) k sorted e =
      rw
        (
          All-get_elem? (λ later. before d later j ≡ true) ks i k sorted.0 e,
          count_keys-before h d ks i k sorted.1 e,
        )
        refl

  count_keys-through :
      (h : IsStrict) (d : Bool) (ks : List K) (i : ℕ) (k : K)
      → Sorted d ks
      → get_elem? ks i ≡ some k
      → count_keys (λ key. before d k key || key == k) ks ≡ suc i
  unfolding count_keys
  count_keys-through h d [] i k sorted e = cc
  count_keys-through h d (j ∷ ks) zero k sorted e =
      subst (λ x. count_keys (λ key. before d x key || key == x) (j ∷ ks) ≡ 1) (unwrap j k e)
        (count_keys-through_head h d j ks sorted)
  count_keys-through h d (j ∷ ks) (suc i) k sorted e =
      rw
        (
          All-get_elem? (λ later. before d later j ≡ true) ks i k sorted.0 e,
          count_keys-through h d ks i k sorted.1 e,
        )
        refl

  -- For keys that a strict order sorts, ascending or descending: the page behind the key at an index
  -- starts at the next index, and the page in front of it ends at this index, whatever the count.
  pub bounds-adjacent :
      (h : IsStrict) (d : Bool) (ks : List K) (i : ℕ) (k : K) (count : ℕ)
      → Sorted d ks
      → get_elem? ks i ≡ some k
      → ((bounds ks (some (next, k)) (some count) d).0 ≡ suc i)
        × ((bounds ks (some (previous, k)) (some count) d).1 ≡ i)
  unfolding bounds
  bounds-adjacent h d ks i k count sorted e =
      (count_keys-through h d ks i k sorted e, count_keys-before h d ks i k sorted e)
