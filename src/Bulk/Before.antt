-- ===== src/Bulk/Before.antt =====
-- Where the references of a bulk request have no circle, the plan places a creation before the
-- operations that reference it.
use scim2_server.Bulk.Walk.{Walk, walk_body, plan_steps}
use scim2_server.Bulk.Invariant.{IsConsistent, Low, nodes, at_stack}
use scim2_server.Bulk.Once.{walk_roots-ends}
use scim2_server.Base.{
  ℕ, ◌<◌, ◌≡◌, refl, sym, subst, inl, inr, Bool, true, false, not, ◌&&◌, ◌||◌, Option, none, some,
  List, [], ◌∷◌, ◌++◌, arith, Bool-cases, All, contains, ◌==◌, ==_iff, nat_eq,
}

-- Each position stands behind its dependencies, or these are in `seen`.
abbrev pub IsOrdered : (ℕ → List ℕ) → List ℕ → List ℕ → Type 0
IsOrdered dependencies seen [] = Unit
IsOrdered dependencies seen (i ∷ rest) =
    ((d : ℕ) → contains (dependencies i) d ≡ true → contains seen d ≡ true)
    × IsOrdered dependencies (i ∷ seen) rest

contains-append :
    (xs ys : List ℕ) (d : ℕ) → contains (xs ++ ys) d ≡ (contains xs d || contains ys d)
contains-append [] ys d = refl
contains-append (x ∷ xs) ys d = ground (arith, contains-append xs ys d)

module _ (dependencies : ℕ → List ℕ) where
  IsOrdered-snoc :
      (seen xs : List ℕ) (i : ℕ)
      → IsOrdered dependencies seen xs
      → ((d : ℕ) → contains (dependencies i) d ≡ true → (contains seen d || contains xs d) ≡ true)
      → IsOrdered dependencies seen (xs ++ i ∷ [])
  IsOrdered-snoc seen [] i h p = (λ d m. ground (arith, p d m), tt)
  IsOrdered-snoc seen (x ∷ xs) i h p =
      (h.0, IsOrdered-snoc (x ∷ seen) xs i h.1 (λ d m. ground (arith, p d m)))

  module _ (rank : ℕ → ℕ) where
    abbrev is_above : Option ℕ → ℕ → Bool
    is_above none d = false
    is_above (some a) d = a == d

    abbrev RanksBelow : Option ℕ → ℕ → Type 0
    RanksBelow none i = Unit
    RanksBelow (some a) i = rank a < rank i

    -- Each entry of the stack: its dependencies are placed, still to come, or just above it.
    abbrev Waits : List ℕ → Option ℕ → List (ℕ × List ℕ) → Type 0
    Waits visited above [] = Unit
    Waits visited above ((i, ds) ∷ rest) =
        ((d : ℕ)
          → contains (dependencies i) d ≡ true
          → (contains visited d || (contains ds d || is_above above d)) ≡ true)
        × RanksBelow above i
        × All (λ d. rank d < rank i) ds
        × Waits visited (some i) rest

    Waits-visit :
        (visited : List ℕ) (above : Option ℕ) (stack : List (ℕ × List ℕ)) (i : ℕ)
        → Waits visited above stack
        → Waits (i ∷ visited) above stack
    Waits-visit visited above [] i h = tt
    Waits-visit visited above ((j, ds) ∷ rest) i h =
        (λ d m. ground (arith, h.0 d m), h.1, h.2, Waits-visit visited (some j) rest i h.3)

    Waits-leave :
        (visited : List ℕ) (i : ℕ) (rest : List (ℕ × List ℕ))
        → Waits visited (some i) rest
        → Waits (i ∷ visited) none rest
    Waits-leave visited i [] h = tt
    Waits-leave visited i ((j, ds) ∷ rest) h =
        (λ d m. ground (arith, h.0 d m), tt, h.2, Waits-visit visited (some j) rest i h.3)

    -- What is on the path below an entry has a higher rank.
    nodes-rank :
        (visited : List ℕ) (i : ℕ) (rest : List (ℕ × List ℕ)) (x : ℕ)
        → Waits visited (some i) rest
        → contains (nodes rest) x ≡ true
        → rank i < rank x
    nodes-rank visited i [] x h m = cc
    nodes-rank visited i ((j, ds) ∷ rest) x h m = elim (Bool-cases (j == x)) [
      | inl e ↦ subst (λ y. rank i < rank y) ((==_iff j x).0 e) h.1
      | inr e ↦ ground (arith, nodes-rank visited j rest x h.3)
    ]

    -- A dependency of the entry on top is not on the path: there would be a circle.
    not_on_path :
        (visited : List ℕ) (i d : ℕ) (rest : List (ℕ × List ℕ))
        → rank d < rank i
        → Waits visited (some i) rest
        → contains (i ∷ nodes rest) d ≡ false
    not_on_path visited i d rest lt h = elim (Bool-cases (contains (i ∷ nodes rest) d)) [
      | inr e ↦ e
      | inl e ↦ elim (Bool-cases (i == d)) [
        | inl same ↦ absurd (omega (arith, subst (λ y. rank d < rank y) ((==_iff i d).0 same) lt))
        | inr other ↦ absurd (omega (arith, lt, nodes-rank visited i rest d h (ground arith)))
      ]
    ]

    abbrev Planned : Walk → Type 0
    Planned w = IsOrdered dependencies [] w.order × Waits w.visited none w.stack

    module _ (n : ℕ) (acyclic : (i : ℕ) → All (λ d. rank d < rank i) (dependencies i)) where
      body-Planned :
          (stack : List (ℕ × List ℕ)) (w : Walk)
          → IsConsistent n (at_stack w stack)
          → Planned (at_stack w stack)
          → w.stack ≡ stack
          → Planned (walk_body dependencies stack w)
      unfolding walk_body
      body-Planned [] w c h e = subst (λ s. Planned (at_stack w s)) (sym e) h
      body-Planned ((i, []) ∷ rest) w c h e = (
        IsOrdered-snoc [] w.order i h.0 (λ d m. ground (arith, h.1.0 d m, c.seen_order d)),
        Waits-leave w.visited i rest h.1.3,
      )
      body-Planned ((i, d ∷ ds) ∷ rest) w c h e =
          elim (Bool-cases (not (contains w.visited d) && not (contains w.on_path d))) [
            | inl fresh ↦ rw fresh (
              h.0,
              (
                λ x m. ground arith,
                tt,
                acyclic d,
                (λ x m. ground (arith, h.1.0 x m), h.1.2.0, h.1.2.1, h.1.3),
              ),
            )
            | inr seen ↦ rw seen (
              h.0,
              (
                λ x m. ground (
                  arith,
                  h.1.0 x m,
                  ==_iff d x,
                  c.seen_path d,
                  not_on_path w.visited i d rest h.1.2.0 h.1.3,
                ),
                tt,
                h.1.2.1,
                h.1.3,
              ),
            )
          ]

-- For dependencies within `n` and without a circle, which a rank shows, each position of the plan
-- stands behind all of its dependencies.
pub plan_steps-IsOrdered :
    (dependencies : ℕ → List ℕ) (n : ℕ) (rank : ℕ → ℕ)
    → ((i : ℕ) → Low n (dependencies i))
    → ((i : ℕ) → All (λ d. rank d < rank i) (dependencies i))
    → IsOrdered dependencies [] (plan_steps dependencies n)
unfolding plan_steps
plan_steps-IsOrdered dependencies n rank low acyclic =
    (walk_roots-ends dependencies n low (Planned dependencies rank)
      (λ w c p. body-Planned dependencies rank n acyclic w.stack w c p refl)
      (λ w root e p. (p.0, (λ d m. ground arith, tt, acyclic root, tt))) n (omega arith)
      (tt, tt)).1.0
