-- ===== src/Memory/PageTests.antt =====
-- The pages of two resources that are sorted by their identifier, one resource on each.
use native.Mathlib.Decide.{ℕ_discrete}
use scim2_server.Models.{text, Resource}
use scim2_server.Service.Search.{SearchPage}
use scim2_server.Memory.Paging.{Direction, bounds, count_keys}
use scim2_server.Memory.Positions.{
  Json, Members, SortValue, SortKey, sort_key, Dates, IsDates, position, read_position,
  read_direction, encode, decode, member_of, read_position-position, position_of,
}
use scim2_server.Memory.Pages.{
  PageRequest, slice, insert, sorted_pairs, found_of, keys_of, window, cut, page,
}
use scim2_server.Memory.Sorting.{IsOrder, AllDiffer}
use scim2_server.Memory.Following.{page-next}
use scim2_server.Base.{
  ℕ, ◌+◌, min, ◌≡◌, refl, ◌↔◌, inr, Bool, true, false, Option, none, some, List, [], ◌∷◌, arith,
  ltb, length, Eq, Text, text_eq, text_beq, option_text_eq, nat_eq, codes, ok,
}

unfoldable Key-discrete : Discrete (SortKey ℕ)
Key-discrete = hlevel (ℕ_discrete)

instance abbrev key_eq : Eq (SortKey ℕ)
unfolding Key-discrete
key_eq = record {
  beq = λ j k. elim (Key-discrete j k) as (λ x. Bool) [ yes _ ↦ true | no _ ↦ false ];
  beq_iff = λ j k. go (Key-discrete j k);
}
  where
    go :
        {j k : SortKey ℕ} (x : Dec (j ≡ k))
        → (elim x as (λ y. Bool) [ yes _ ↦ true | no _ ↦ false ] ≡ true) ↔ (j ≡ k)
    go (yes p) = (λ _. p, λ _. refl)
    go (no n) = (λ e. cc, λ p. absurd (n p))

-- A date is a number, and its text has the one code.
abbrev read_date : Text → Option ℕ
read_date (d ∷ []) = some d
read_date _ = none

abbrev dates : Dates ℕ
dates = record { isoformat = λ d. d ∷ []; fromisoformat = read_date }

dates-IsDates : IsDates dates
dates-IsDates = record { read = λ d. refl }

abbrev rank : Text → ℕ
rank [] = 0
rank (c ∷ cs) = c

abbrev by_rank : SortKey ℕ → SortKey ℕ → Bool
by_rank j k = ltb (rank j.2) (rank k.2)

by_rank-IsOrder : IsOrder by_rank
by_rank-IsOrder = record {
  strict = record { irreflexive = λ k. ground arith; asymmetric = λ j k e. ground (arith, e) };
  transitive = λ i j k e f. ground (arith, e, f);
}

abbrev user : Text → Resource
user id = record { id = some id; meta = none; attributes = text [] }

abbrev two_users : List Resource
two_users = user (codes "2") ∷ user (codes "1") ∷ []

abbrev one_each : PageRequest ℕ
one_each = record {
  sort_by = none;
  is_descending = false;
  sort_value = λ r. some (SortValue.date 5);
  start_index_0 = none;
  count = some 1;
  cursor = some [];
}

abbrev key_of_one : SortKey ℕ
key_of_one = sort_key one_each.sort_value (user (codes "1"))

abbrev next_position : Json
next_position =
    position_of dates Direction.next (codes "1")
      (Json.object (Members.member (codes "datetime") (Json.string (5 ∷ [])) Members.end))

next_position-position :
    position dates Direction.next (sort_key one_each.sort_value (user (codes "1")))
    ≡ ok next_position
unfolding position encode sort_key
next_position-position = refl

read_position-position_example :
    read_position dates next_position
    ≡ ok (Direction.next, sort_key one_each.sort_value (user (codes "1")))
read_position-position_example =
    read_position-position dates dates-IsDates one_each.sort_value (user (codes "1")) Direction.next
      next_position next_position-position

abbrev first_page : SearchPage Json
first_page = record {
  total = some 2;
  resources = user (codes "1") ∷ [];
  next = some next_position;
  previous = none;
}

first_page-page : page dates by_rank one_each none two_users ≡ ok first_page
unfolding page sorted_pairs insert sort_key window bounds cut position encode
first_page-page = refl

abbrev second_page : SearchPage Json
second_page = record {
  total = some 2;
  resources = user (codes "2") ∷ [];
  next = none;
  previous = some (
      position_of dates Direction.previous (codes "2")
        (Json.object (Members.member (codes "datetime") (Json.string (5 ∷ [])) Members.end)));
}

second_page-page : page dates by_rank one_each (some next_position) two_users ≡ ok second_page
unfolding page sorted_pairs insert sort_key window bounds cut position encode read_position
    read_direction decode member_of text_beq count_keys Key-discrete ℕ_discrete
second_page-page = refl

two_users-AllDiffer : AllDiffer by_rank (sort_key one_each.sort_value) two_users
unfolding sort_key
two_users-AllDiffer = ((inr refl, tt), (tt, tt))

page-next_example :
    (start : ℕ) × (stop : ℕ) × (first_page.resources
      ≡ slice start stop (found_of dates by_rank one_each two_users))
    × (second_page.resources
        ≡ slice stop
            (min (stop + 1) (length (keys_of dates by_rank one_each two_users)))
            (found_of dates by_rank one_each two_users))
page-next_example =
    page-next dates by_rank by_rank-IsOrder dates-IsDates one_each none two_users [] 0 first_page
      second_page next_position two_users-AllDiffer refl refl first_page-page refl second_page-page
