-- ===== src/Bulk/Invariant.antt =====
-- What the depth-first walk of a bulk plan keeps true: each position is placed or on the path once
-- at most, and the two sets describe the two lists.
use scim2_server.Bulk.Walk.{Walk, discard, walk_body}
use scim2_server.Base.{
  ℕ, ◌+◌, ◌≤◌, ◌<◌, ◌≡◌, refl, sym, subst, inl, inr, false, not, ◌&&◌, List, [], ◌∷◌, ◌++◌, map,
  arith, ltb, if◌then◌else◌, Bool-cases, All, contains, ◌==◌, nat_eq, text_eq, option_text_eq,
}

abbrev pub count : ℕ → List ℕ → ℕ
count i [] = 0
count i (j ∷ js) = (if j == i then 1 else 0) + count i js

abbrev pub nodes : List (ℕ × List ℕ) → List ℕ
nodes stack = map (λ f. f.0) stack

pub count-append : (i : ℕ) (xs ys : List ℕ) → count i (xs ++ ys) ≡ count i xs + count i ys
count-append i [] ys = omega arith
count-append i (x ∷ xs) ys = omega (arith, count-append i xs ys)

pub contains-count : (i : ℕ) (xs : List ℕ) → contains xs i ≡ ltb 0 (count i xs)
contains-count i [] = ground arith
contains-count i (x ∷ xs) = ground (arith, contains-count i xs)

pub contains-discard :
    (i j : ℕ) (xs : List ℕ) → contains (discard i xs) j ≡ (if i == j then false else contains xs j)
unfolding discard
contains-discard i j [] = ground arith
contains-discard i j (x ∷ xs) = ground (arith, contains-discard i j xs)

module _ (n : ℕ) where
  abbrev pub Low : List ℕ → Type 0
  Low xs = All (λ d. d < n) xs

  pub record IsConsistent (w : Walk) : Type 0 where
    pub seen_order : (i : ℕ) → contains w.visited i ≡ contains w.order i
    pub seen_path : (i : ℕ) → contains w.on_path i ≡ contains (nodes w.stack) i
    pub once : (i : ℕ) → count i w.order + count i (nodes w.stack) ≤ 1
    pub low : Low w.order
    pub frames : All (λ f. (f.0 < n) × Low f.1) w.stack

pub Low-snoc : (n : ℕ) (xs : List ℕ) (x : ℕ) → Low n xs → x < n → Low n (xs ++ x ∷ [])
Low-snoc n [] x h p = (p, tt)
Low-snoc n (y ∷ xs) x h p = (h.0, Low-snoc n xs x h.1 p)

-- A consistent walk, with its stack given apart.
abbrev pub at_stack : Walk → List (ℕ × List ℕ) → Walk
at_stack w stack = record w { stack = stack }

module _ (dependencies : ℕ → List ℕ) (n : ℕ) (low : (i : ℕ) → Low n (dependencies i)) where
  leave-IsConsistent :
      (w : Walk) (index : ℕ) (rest : List (ℕ × List ℕ))
      → IsConsistent n (at_stack w ((index, []) ∷ rest))
      → IsConsistent n (walk_body dependencies ((index, []) ∷ rest) w)
  unfolding walk_body
  leave-IsConsistent w index rest h = record {
    seen_order = λ i. ground (
      arith,
      h.seen_order i,
      contains-count i w.order,
      contains-count i (w.order ++ index ∷ []),
      count-append i w.order (index ∷ []),
    );
    seen_path = λ i. ground (
      arith,
      h.seen_path i,
      h.once i,
      contains-discard index i w.on_path,
      contains-count i (nodes rest),
    );
    once = λ i. omega (arith, h.once i, count-append i w.order (index ∷ []));
    low = Low-snoc n w.order index h.low h.frames.0.0;
    frames = h.frames.1;
  }

  enter-IsConsistent :
      (w : Walk) (index d : ℕ) (ds : List ℕ) (rest : List (ℕ × List ℕ))
      → IsConsistent n (at_stack w ((index, d ∷ ds) ∷ rest))
      → IsConsistent n (walk_body dependencies ((index, d ∷ ds) ∷ rest) w)
  unfolding walk_body
  enter-IsConsistent w index d ds rest h =
      elim (Bool-cases (not (contains w.visited d) && not (contains w.on_path d))) [
        | inl fresh ↦ rw fresh (record {
          seen_order = h.seen_order;
          seen_path = λ i. ground (arith, h.seen_path i);
          once = λ i. ground (
            arith,
            fresh,
            h.once i,
            h.seen_order d,
            h.seen_path d,
            contains-count d w.order,
            contains-count d (index ∷ nodes rest),
          );
          low = h.low;
          frames = ((h.frames.0.1.0, low d), ((h.frames.0.0, h.frames.0.1.1), h.frames.1));
        })
        | inr seen ↦ rw seen (record {
          seen_order = h.seen_order;
          seen_path = h.seen_path;
          once = h.once;
          low = h.low;
          frames = ((h.frames.0.0, h.frames.0.1.1), h.frames.1);
        })
      ]

  body-IsConsistent :
      (stack : List (ℕ × List ℕ)) (w : Walk)
      → IsConsistent n (at_stack w stack)
      → w.stack ≡ stack
      → IsConsistent n (walk_body dependencies stack w)
  unfolding walk_body
  body-IsConsistent [] w h e = subst (λ s. IsConsistent n (at_stack w s)) (sym e) h
  body-IsConsistent ((index, []) ∷ rest) w h e = leave-IsConsistent w index rest h
  body-IsConsistent ((index, d ∷ ds) ∷ rest) w h e = enter-IsConsistent w index d ds rest h

  -- A round of `while stack` keeps the walk consistent.
  pub walk_body-IsConsistent :
      (w : Walk) → IsConsistent n w → IsConsistent n (walk_body dependencies w.stack w)
  walk_body-IsConsistent w h = body-IsConsistent w.stack w h refl
