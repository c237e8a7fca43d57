-- ===== src/Memory/Pages.antt =====
-- The page that a search of `InMemoryStorage` gives: `_page` of memory.py.
use scim2_server.Models.{Resource}
use scim2_server.Service.Search.{SearchPage}
use scim2_server.Memory.Paging.{Direction, bounds, before}
use scim2_server.Memory.Paging.Direction.{next, previous}
use scim2_server.Memory.Positions.{
  Json, SortValue, SortKey, sort_key, Dates, position, read_position,
}
use scim2_server.Base.{
  ℕ, zero, ◌+◌, ◌-◌, Bool, true, false, not, ◌&&◌, Option, none, some, List, [], ◌∷◌, map, ltb,
  if◌then◌else◌, Eq, nat_eq, Text, text_eq, option_text_eq, length, get_elem?, take, drop, Outcome,
  ok, err, assertion_error, ◌>>=◌,
}

-- What a search request asks of its page, as scim2_models reads it.
pub record PageRequest (D : Type 0) : Type 0 where
  pub sort_by : Option Text
  pub is_descending : Bool
  pub sort_value : Resource → Option (SortValue D)
  pub start_index_0 : Option ℕ
  pub count : Option ℕ
  pub cursor : Option Text

-- `xs[start:stop]`
abbrev pub slice : {A : Type 0} → ℕ → ℕ → List A → List A
slice start stop xs = take (stop - start) (drop start xs)

abbrev pub is_empty : {A : Type 0} → List A → Bool
is_empty [] = true
is_empty (x ∷ xs) = false

-- `or 0`
abbrev or_zero : Option ℕ → ℕ
or_zero none = 0
or_zero (some n) = n

abbrev pub descends : {D : Type 0} → PageRequest D → Bool
descends rq = elim rq.sort_by [ none ↦ false | some _ ↦ rq.is_descending ]

-- `less` orders the sort keys as Python orders the tuples.
module _ {D : Type 0} ⦃ek : Eq (SortKey D)⦄ (dates : Dates D)
    (less : SortKey D → SortKey D → Bool) where
  -- `sorted`, which is stable in both directions.
  unfoldable pub insert :
      Bool → SortKey D × Resource → List (SortKey D × Resource) → List (SortKey D × Resource)
  insert d x [] = x ∷ []
  insert d x (y ∷ ys) =
      let rest = insert d x ys in if before less d x.0 y.0 then y ∷ rest else x ∷ y ∷ ys

  unfoldable pub sorted_pairs : PageRequest D → List Resource → List (SortKey D × Resource)
  unfolding insert sort_key
  sorted_pairs rq [] = []
  sorted_pairs rq (r ∷ rs) = insert (descends rq) (sort_key rq.sort_value r, r) (sorted_pairs rq rs)

  abbrev pub keys_of : PageRequest D → List Resource → List (SortKey D)
  keys_of rq rs = map (λ p. p.0) (sorted_pairs rq rs)

  abbrev pub found_of : PageRequest D → List Resource → List Resource
  found_of rq rs = map (λ p. p.1) (sorted_pairs rq rs)

  -- The position of a neighbour page. The pairs have the index, as the page is not empty.
  abbrev pub link : Bool → Direction → Option (SortKey D) → Outcome (Option Json)
  link false d k = ok none
  link true d none = err assertion_error
  link true d (some k) = elim (position dates d k) [ err e ↦ err e | ok q ↦ ok (some q) ]

  abbrev pub next_link : List (SortKey D) → List Resource → ℕ → ℕ → Outcome (Option Json)
  next_link keys found start stop =
      link (not (is_empty (slice start stop found)) && ltb stop (length found)) next
        (get_elem? keys (stop - 1))

  abbrev pub previous_link : List (SortKey D) → List Resource → ℕ → ℕ → Outcome (Option Json)
  previous_link keys found start stop =
      link (not (is_empty (slice start stop found)) && ltb 0 start) previous (get_elem? keys start)

  abbrev pub made_page : List Resource → ℕ → ℕ → Option Json → Option Json → SearchPage Json
  made_page found start stop after in_front = record {
    total = some (length found);
    resources = slice start stop found;
    next = after;
    previous = in_front;
  }

  -- The start and the end of the page that a position asks for.
  unfoldable pub window : PageRequest D → Option Json → List (SortKey D) → Outcome (ℕ × ℕ)
  unfolding bounds read_position
  window rq none keys = ok (bounds less keys none rq.count (descends rq))
  window rq (some q) keys =
      read_position dates q >>= λ anchor. ok (bounds less keys (some anchor) rq.count (descends rq))

  unfoldable pub cut : List (SortKey D) → List Resource → ℕ × ℕ → Outcome (SearchPage Json)
  unfolding position
  cut keys found (start, stop) = next_link keys found start stop >>= λ after.
      previous_link keys found start stop >>= λ in_front.
      ok (made_page found start stop after in_front)

  abbrev alone : List Resource → List Resource → SearchPage Json
  alone found resources = record {
    total = some (length found);
    resources = resources;
    next = none;
    previous = none;
  }

  -- `_page`
  unfoldable pub page : PageRequest D → Option Json → List Resource → Outcome (SearchPage Json)
  unfolding sorted_pairs window cut
  page rq pos rs =
      let found = found_of rq rs in
      elim rq.cursor [
        | none ↦
            let start = or_zero rq.start_index_0 in
            ok (
              alone found (elim rq.count [
                | none ↦ drop start found
                | some count ↦ slice start (start + count) found
              ]))
        | some _ ↦ elim rq.count as (λ x. Outcome (SearchPage Json)) [
          | some zero ↦ ok (alone found [])
          | _ ↦ window rq pos (keys_of rq rs) >>= cut (keys_of rq rs) found
        ]
      ]
