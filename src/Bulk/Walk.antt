-- ===== src/Bulk/Walk.antt =====
-- The depth-first walk of `BulkPlan.plan_steps`, over the positions that each position depends on.
use scim2_server.Base.{
  ℕ, zero, suc, ◌+◌, Bool, true, false, not, ◌&&◌, List, [], ◌∷◌, ◌++◌, if◌then◌else◌, length,
  contains, ◌==◌, nat_eq, text_eq, option_text_eq,
}

-- The variables of the loops. `order` holds the indices of the steps; `visited` and `on_path` are
-- sets; the iterator of a stack entry is the list of what it has still to give.
pub record Walk : Type 0 where
  pub order : List ℕ
  pub visited : List ℕ
  pub on_path : List ℕ
  pub stack : List (ℕ × List ℕ)

-- `on_path.discard(index)`
unfoldable pub discard : ℕ → List ℕ → List ℕ
discard i [] = []
discard i (j ∷ js) = let rest = discard i js in if j == i then rest else j ∷ rest

abbrev pub is_empty : List (ℕ × List ℕ) → Bool
is_empty [] = true
is_empty (f ∷ fs) = false

abbrev pub start : Walk
start = record { order = []; visited = []; on_path = []; stack = [] }

module _ (dependencies : ℕ → List ℕ) where
  -- The body of `while stack`.
  unfoldable pub walk_body : List (ℕ × List ℕ) → Walk → Walk
  unfolding discard
  walk_body [] w = w
  walk_body ((index, []) ∷ rest) w = record {
    order = w.order ++ index ∷ [];
    visited = index ∷ w.visited;
    on_path = discard index w.on_path;
    stack = rest;
  }
  walk_body ((index, dependency ∷ ds) ∷ rest) w =
      if not (contains w.visited dependency) && not (contains w.on_path dependency)
      then record w {
        on_path = dependency ∷ w.on_path;
        stack = (dependency, dependencies dependency) ∷ (index, ds) ∷ rest;
      }
      else record w { stack = (index, ds) ∷ rest }

  -- `while stack`, with fuel for the number of rounds.
  unfoldable pub walk_stack : ℕ → Walk → Walk
  walk_stack zero w = w
  walk_stack (suc fuel) w =
      let next = walk_stack fuel (walk_body w.stack w) in if is_empty w.stack then w else next

  -- The body of `for root in range(…)`.
  unfoldable pub walk_root : ℕ → ℕ → Walk → Walk
  walk_root fuel root w =
      if contains w.visited root
      then w
      else walk_stack fuel
          (record w { on_path = root ∷ []; stack = (root, dependencies root) ∷ [] })

  -- The roots `0`, …, `n - 1`, in this order.
  unfoldable pub walk_roots : ℕ → ℕ → Walk → Walk
  walk_roots fuel zero w = w
  walk_roots fuel (suc n) w = walk_root fuel n (walk_roots fuel n w)

  -- Each position is pushed once at most, and each of its dependencies takes one round.
  unfoldable pub rounds : ℕ → ℕ
  rounds zero = 0
  rounds (suc n) = rounds n + (2 + length (dependencies n))

  unfoldable pub plan_steps : ℕ → List ℕ
  unfolding walk_roots walk_root walk_stack walk_body rounds
  plan_steps n = (walk_roots (rounds n) n start).order
