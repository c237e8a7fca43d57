-- ===== src/Bulk/Once.antt =====
-- The plan of a bulk request runs each of its operations exactly once.
use scim2_server.Bulk.Walk.{
  Walk, walk_body, walk_stack, walk_root, walk_roots, rounds, start, plan_steps,
}
use scim2_server.Bulk.Invariant.{IsConsistent, Low, nodes, count, at_stack, contains-count}
use scim2_server.Bulk.Rounds.{
  fresh, left, unseen-drop, unseen-le_rounds, frame_rounds, walk_stack-ends,
}
use scim2_server.Base.{
  ℕ, zero, suc, ◌≤◌, ◌<◌, ◌≡◌, refl, subst, inl, inr, true, false, ◌||◌, List, [], ◌∷◌, arith, ltb,
  if◌then◌else◌, Bool-cases, contains, nat_eq, text_eq, option_text_eq,
}

-- Position `x` is placed, or waits on the path.
abbrev Reached : ℕ → Walk → Type 0
Reached x w = (contains w.visited x || contains (nodes w.stack) x) ≡ true

Reached-placed : (x : ℕ) (w : Walk) → w.stack ≡ [] → Reached x w → contains w.visited x ≡ true
Reached-placed x w e h =
    let h' : (contains w.visited x || contains (nodes []) x) ≡ true =
      subst (λ s. (contains w.visited x || contains (nodes s) x) ≡ true) e h in
    ground arith

module _ (dependencies : ℕ → List ℕ) where
  body-Reached :
      (x : ℕ) (stack : List (ℕ × List ℕ)) (w : Walk)
      → Reached x (at_stack w stack)
      → w.stack ≡ stack
      → Reached x (walk_body dependencies stack w)
  unfolding walk_body
  body-Reached x [] w h e = rw e h
  body-Reached x ((index, []) ∷ rest) w h e = ground arith
  body-Reached x ((index, d ∷ ds) ∷ rest) w h e = ground arith

  module _ (n : ℕ) (low : (i : ℕ) → Low n (dependencies i)) where
    -- What holds between the walks from two roots.
    pub record IsDone (k : ℕ) (w : Walk) : Type 0 where
      pub consistent : IsConsistent n w
      pub empty : w.stack ≡ []
      pub visited_below : (i : ℕ) → i < k → contains w.visited i ≡ true

    start-IsDone : IsDone 0 start
    start-IsDone = record {
      consistent = record {
        seen_order = λ i. refl;
        seen_path = λ i. refl;
        once = λ i. omega arith;
        low = tt;
        frames = tt;
      };
      empty = refl;
      visited_below = λ i h. elim h [ ];
    }

    abbrev pub rooted : ℕ → Walk → Walk
    rooted root w = record w { on_path = root ∷ []; stack = (root, dependencies root) ∷ [] }

    pub rooted-IsConsistent :
        (w : Walk) (root : ℕ)
        → root < n
        → contains w.visited root ≡ false
        → w.stack ≡ []
        → IsConsistent n w
        → IsConsistent n (rooted root w)
    rooted-IsConsistent w root lt new e h = record {
      seen_order = h.seen_order;
      seen_path = λ i. refl;
      once = λ i. ground (arith, new, h.once i, h.seen_order root, contains-count root w.order);
      low = h.low;
      frames = ((lt, low root), tt);
    }

    pub rooted-left :
        (w : Walk) (root : ℕ)
        → root < n
        → contains w.visited root ≡ false
        → left dependencies (rooted root w) n ≤ rounds dependencies n
    unfolding frame_rounds
    rooted-left w root lt new = ground (
      arith,
      unseen-drop dependencies n root (fresh w.visited []) (fresh w.visited (root ∷ [])) (rw new)
          (λ j. ground arith),
      unseen-le_rounds dependencies n (fresh w.visited []),
    )

    module _ (P : Walk → Type 0)
        (keep : (w : Walk) → IsConsistent n w → P w → P (walk_body dependencies w.stack w))
        (root_P : (w : Walk) (root : ℕ) → w.stack ≡ [] → P w → P (rooted root w)) where
      walk_root-ends :
          (root : ℕ) (w : Walk)
          → root < n
          → IsDone root w
          → P w
          → IsDone (suc root) (walk_root dependencies (rounds dependencies n) root w)
            × P (walk_root dependencies (rounds dependencies n) root w)
      unfolding walk_root
      walk_root-ends root w lt done p = elim (Bool-cases (contains w.visited root)) [
        | inl old ↦ rw old (
          record {
            consistent = done.consistent;
            empty = done.empty;
            visited_below = λ i h. ground (arith, old, done.visited_below i);
          },
          p,
        )
        | inr new ↦
            let (consistent, empty, both) =
              walk_stack-ends dependencies n low (λ v. P v × ((i : ℕ) → i < suc root → Reached i v))
                (λ v c q. (keep v c q.0, λ i h. body-Reached i v.stack v (q.1 i h) refl))
                (rounds dependencies n) (rooted root w) (rooted-left w root lt new)
                (rooted-IsConsistent w root lt new done.empty done.consistent)
                (root_P w root done.empty p, λ i h. ground (arith, done.visited_below i)) in
            rw new (
              record {
                consistent = consistent;
                empty = empty;
                visited_below = λ i h.
                    Reached-placed i
                      (walk_stack dependencies (rounds dependencies n) (rooted root w)) empty
                      (both.1 i h);
              },
              both.0,
            )
      ]

      -- After the walks from the roots below `k`, the stack is empty and these roots are placed.
      pub walk_roots-ends :
          (k : ℕ)
          → k ≤ n
          → P start
          → IsDone k (walk_roots dependencies (rounds dependencies n) k start)
            × P (walk_roots dependencies (rounds dependencies n) k start)
      unfolding walk_roots
      walk_roots-ends zero h p = (start-IsDone, p)
      walk_roots-ends (suc k) h p =
          let (done, p') = walk_roots-ends k (omega arith) p in
          walk_root-ends k (walk_roots dependencies (rounds dependencies n) k start) h done p'

Low-count : (n i : ℕ) (xs : List ℕ) → Low n xs → n ≤ i → count i xs ≡ 0
Low-count n i [] h le = refl
Low-count n i (x ∷ xs) h le = ground (arith, h.0, Low-count n i xs h.1 le)

placed-once :
    (n i : ℕ) (w : Walk)
    → IsConsistent n w
    → w.stack ≡ []
    → (i < n → contains w.visited i ≡ true)
    → count i w.order ≡ (if ltb i n then 1 else 0)
placed-once n i w c e seen =
    ground (arith, c.once i, c.seen_order i, contains-count i w.order, Low-count n i w.order c.low)

-- For dependencies within `n`, the plan holds each position below `n` exactly once, and no other.
pub plan_steps-once :
    (dependencies : ℕ → List ℕ) (n : ℕ)
    → ((i : ℕ) → Low n (dependencies i))
    → (i : ℕ) → count i (plan_steps dependencies n) ≡ (if ltb i n then 1 else 0)
unfolding plan_steps
plan_steps-once dependencies n low i =
    let (done, trivial) =
      walk_roots-ends dependencies n low (λ w. Unit {0}) (λ w c p. tt) (λ w root e p. tt) n
        (omega arith) tt in
    placed-once n i (walk_roots dependencies (rounds dependencies n) n start) done.consistent
      done.empty (done.visited_below i)
