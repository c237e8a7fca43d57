-- ===== src/Service/Bounds.antt =====
-- The bounds of the count of a search.
use scim2_server.Service.{ScimService}
use scim2_server.Service.Search.{
  given, minimum, cap, bound_count, default_count, max_results, max_page_size,
}
use scim2_server.Base.{
  ℕ, ◌≤◌, min, ◌≡◌, inl, inr, Option, none, some, List, [], ◌∷◌, arith, ltb, Bool-cases,
  Option-cases, All, nat_eq, text_eq, option_text_eq,
}

-- A count is given, and at most this bound.
abbrev pub AtMost : Option ℕ → ℕ → Type 0
AtMost none bound = ⊥
AtMost (some count) bound = count ≤ bound

minimum-given : (b : ℕ) (bs : List ℕ) → ¬ (minimum (b ∷ bs) ≡ none)
minimum-given b [] h = cc
minimum-given b (c ∷ bs) h = elim (Option-cases (minimum (c ∷ bs))) [
  | inl e ↦ absurd (minimum-given c bs e)
  | inr (n, e) ↦ ground (arith, h, e)
]

All-map : (P Q : ℕ → Type 0) (bs : List ℕ) → ((b : ℕ) → P b → Q b) → All P bs → All Q bs
All-map P Q [] f h = tt
All-map P Q (b ∷ bs) f h = (f b h.0, All-map P Q bs f h.1)

unwrap : {a m : ℕ} → some a ≡ some m → a ≡ m
unwrap e = cc

minimum-All : (bounds : List ℕ) (m : ℕ) → minimum bounds ≡ some m → All (λ b. m ≤ b) bounds
minimum-All [] m h = tt
minimum-All (b ∷ []) m h = (ground (arith, h), tt)
minimum-All (b ∷ c ∷ bounds) m h = elim (Option-cases (minimum (c ∷ bounds))) [
  | inl e ↦ absurd (minimum-given c bounds e)
  | inr (n, e) ↦
      let least : min b n ≡ m = unwrap (rw e at h) in
      (
        omega (arith, least),
        All-map (λ b'. n ≤ b') (λ b'. m ≤ b') (c ∷ bounds) (λ b' le. omega (arith, least))
            (minimum-All (c ∷ bounds) n e),
      )
]

cap-least :
    (bounds : List ℕ) (count : Option ℕ) (m : ℕ)
    → minimum bounds ≡ some m
    → (n : ℕ) × (cap bounds count ≡ some n) × (n ≤ m)
unfolding cap
cap-least bounds none m h = (m, rw (h, cap), omega arith)
cap-least bounds (some c) m h = elim (Bool-cases (ltb m c)) [
  | inl e ↦ (m, rw (h, cap, e), omega arith)
  | inr e ↦ (c, rw (h, cap, e), ground (arith, e))
]

no_bounds : (P : ℕ → Type 0) (bounds : List ℕ) → minimum bounds ≡ none → All P bounds
no_bounds P [] e = tt
no_bounds P (b ∷ bounds) e = absurd (minimum-given b bounds e)

cap-bounds : (bounds : List ℕ) (count : Option ℕ) → All (AtMost (cap bounds count)) bounds
cap-bounds bounds count = elim (Option-cases (minimum bounds)) [
  | inl e ↦ no_bounds (AtMost (cap bounds count)) bounds e
  | inr (m, e) ↦
      let (n, capped, least) = cap-least bounds count m e in
      rw capped
        (All-map (λ b. m ≤ b) (λ b. n ≤ b) bounds (λ b h. omega arith) (minimum-All bounds m e))
]

cap-some : (bounds : List ℕ) (count : ℕ) → AtMost (cap bounds (some count)) count
unfolding cap
cap-some bounds count = elim (Option-cases (minimum bounds)) [
  | inl e ↦ rw (e, cap) (omega arith)
  | inr (m, e) ↦ elim (Bool-cases (ltb m count)) [
    | inl e' ↦ rw (e, cap, e') (ground (arith, e'))
    | inr e' ↦ rw (e, cap, e') (omega arith)
  ]
]

module _ {P D J C : Type 0} (sv : ScimService P D J C) where
  -- Whatever count a search asks for, it is answered with a count that is at most `maxResults` and at
  -- most `maxPageSize`, as far as the configuration sets them.
  pub bound_count-bounds :
      (count : Option ℕ)
      → All (AtMost (bound_count sv count)) (given (max_results sv) (max_page_size sv))
  unfolding bound_count
  bound_count-bounds count =
      cap-bounds (given (max_results sv) (max_page_size sv)) (default_count sv count)

  -- The count of an answer is never more than the count that the search asks for.
  pub bound_count-some : (count : ℕ) → AtMost (bound_count sv (some count)) count
  unfolding bound_count
  bound_count-some count = cap-some (given (max_results sv) (max_page_size sv)) count
