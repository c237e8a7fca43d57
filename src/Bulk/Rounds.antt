-- ===== src/Bulk/Rounds.antt =====
-- The rounds that the walk of a bulk plan takes: the fuel is enough.
use scim2_server.Bulk.Walk.{Walk, discard, walk_body, walk_stack, rounds, is_empty}
use scim2_server.Bulk.Invariant.{
  IsConsistent, Low, at_stack, contains-discard, walk_body-IsConsistent,
}
use scim2_server.Base.{
  ℕ, zero, suc, ◌+◌, ◌≤◌, ◌<◌, ◌≡◌, refl, inl, inr, Bool, true, false, not, ◌&&◌, List, [], ◌∷◌,
  arith, ltb, if◌then◌else◌, Bool-cases, length, keep, contains, ◌==◌, ==_iff, nat_eq, text_eq,
  option_text_eq,
}

abbrev pub fresh : List ℕ → List ℕ → ℕ → Bool
fresh visited on_path j = not (contains visited j) && not (contains on_path j)

unfoldable pub frame_rounds : List (ℕ × List ℕ) → ℕ
frame_rounds [] = 0
frame_rounds ((i, ds) ∷ fs) = 1 + length ds + frame_rounds fs

is_empty-nil : (stack : List (ℕ × List ℕ)) → is_empty stack ≡ true → stack ≡ []
is_empty-nil [] e = refl
is_empty-nil (f ∷ fs) e = cc

no_rounds : (stack : List (ℕ × List ℕ)) → frame_rounds stack ≤ 0 → is_empty stack ≡ true
unfolding frame_rounds
no_rounds [] h = refl
no_rounds ((i, ds) ∷ fs) h = absurd (omega arith)

module _ (dependencies : ℕ → List ℕ) where
  -- What the positions below `k` that are neither visited nor on the path may still take.
  pub unseen : ℕ → (ℕ → Bool) → ℕ
  unseen zero f = 0
  unseen (suc k) f = unseen k f + (if f k then 2 + length (dependencies k) else 0)

  unseen-eq : (k : ℕ) (f g : ℕ → Bool) → ((j : ℕ) → f j ≡ g j) → unseen k f ≡ unseen k g
  unfolding unseen
  unseen-eq zero f g h = refl
  unseen-eq (suc k) f g h = rw (unseen-eq k f g h, h k)

  pub unseen-le_rounds : (k : ℕ) (f : ℕ → Bool) → unseen k f ≤ rounds dependencies k
  unfolding unseen rounds
  unseen-le_rounds zero f = omega arith
  unseen-le_rounds (suc k) f = ground (arith, unseen-le_rounds k f)

  -- A position that is no longer fresh gives up what it may take.
  pub unseen-drop :
      (k d : ℕ) (f g : ℕ → Bool)
      → f d ≡ true
      → ((j : ℕ) → g j ≡ (f j && not (d == j)))
      → unseen k f ≡ unseen k g + (if ltb d k then 2 + length (dependencies d) else 0)
  unfolding unseen
  unseen-drop zero d f g t h = ground arith
  unseen-drop (suc k) d f g t h = ground (arith, t, h k, unseen-drop k d f g t h, ==_iff d k)

  abbrev pub left : Walk → ℕ → ℕ
  left w n = frame_rounds w.stack + unseen n (fresh w.visited w.on_path)

  module _ (n : ℕ) where
    leave-left :
        (w : Walk) (index : ℕ) (rest : List (ℕ × List ℕ))
        → IsConsistent n (at_stack w ((index, []) ∷ rest))
        → left (walk_body dependencies ((index, []) ∷ rest) w) n
          < left (at_stack w ((index, []) ∷ rest)) n
    unfolding walk_body frame_rounds
    leave-left w index rest h =
        rw
          (unseen-eq n (fresh (index ∷ w.visited) (discard index w.on_path))
            (fresh w.visited w.on_path)
            (λ j.
              ground (arith, ==_iff index j, h.seen_path j, contains-discard index j w.on_path)))
          (omega arith)

    enter-left :
        (w : Walk) (index d : ℕ) (ds : List ℕ) (rest : List (ℕ × List ℕ))
        → d < n
        → left (walk_body dependencies ((index, d ∷ ds) ∷ rest) w) n
          < left (at_stack w ((index, d ∷ ds) ∷ rest)) n
    unfolding walk_body frame_rounds
    enter-left w index d ds rest h = elim (Bool-cases (fresh w.visited w.on_path d)) [
      | inl t ↦ rw t (
          ground (
            arith,
            unseen-drop n d (fresh w.visited w.on_path) (fresh w.visited (d ∷ w.on_path)) t
                (λ j. ground arith),
          ))
      | inr t ↦ rw t (omega arith)
    ]

    body-left :
        (stack : List (ℕ × List ℕ)) (w : Walk)
        → is_empty stack ≡ false
        → IsConsistent n (at_stack w stack)
        → left (walk_body dependencies stack w) n < left (at_stack w stack) n
    body-left [] w e h = cc
    body-left ((index, []) ∷ rest) w e h = leave-left w index rest h
    body-left ((index, d ∷ ds) ∷ rest) w e h = enter-left w index d ds rest h.frames.0.1.0

  module _ (n : ℕ) (low : (i : ℕ) → Low n (dependencies i)) where
    -- With enough fuel the loop empties the stack, and leaves the walk consistent.
    pub walk_stack-ends :
        (P : Walk → Type 0)
        → ((w : Walk) → IsConsistent n w → P w → P (walk_body dependencies w.stack w))
        → (fuel : ℕ) (w : Walk) → left w n ≤ fuel
        → IsConsistent n w
        → P w
        → (IsConsistent n (walk_stack dependencies fuel w))
          × ((walk_stack dependencies fuel w).stack ≡ [])
          × (P (walk_stack dependencies fuel w))
    unfolding walk_stack
    walk_stack-ends P keep zero w m h p =
        (h, is_empty-nil w.stack (no_rounds w.stack (omega arith)), p)
    walk_stack-ends P keep (suc fuel) w m h p = elim (Bool-cases (is_empty w.stack)) [
      | inl e ↦ rw e (h, is_empty-nil w.stack e, p)
      | inr e ↦ rw e (
          walk_stack-ends P keep fuel (walk_body dependencies w.stack w)
            (omega (arith, body-left n w.stack w e h))
            (walk_body-IsConsistent dependencies n low w h) (keep w h p))
    ]
