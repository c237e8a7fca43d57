-- ===== src/Memory/Following.antt =====
-- The page that the position of another page leads to.
use scim2_server.Models.{Resource}
use scim2_server.Service.Search.{SearchPage}
use scim2_server.Memory.Paging.{Direction, bounds, Sorted, IsStrict, bounds-adjacent, All-get_elem?}
use scim2_server.Memory.Paging.Direction.{next}
use scim2_server.Memory.Pages.{
  PageRequest, slice, is_empty, descends, keys_of, found_of, link, next_link, previous_link,
  made_page, window, cut, page,
}
use scim2_server.Memory.Sorting.{IsOrder, AllDiffer, All-keys, keys_of-Sorted}
use scim2_server.Memory.Positions.{
  Json, SortKey, sort_key, Dates, IsDates, position, read_position, IsSortKey, sort_key-IsSortKey,
  read-position,
}
use scim2_server.Base.{
  ℕ, zero, suc, ◌+◌, ◌-◌, min, ◌≡◌, refl, sym, ap, ◌∙◌, subst, inl, inr, Exception, Bool, true,
  false, not, ◌&&◌, Option, none, some, List, [], ◌∷◌, arith, ltb, Outcome-cases, All, Eq, nat_eq,
  Text, text_eq, option_text_eq, length, get_elem?, take, drop, ok, err, ◌>>=◌, >>=-eq-ok,
  ok-injective,
}

module _ {D : Type 0} ⦃ek : Eq (SortKey D)⦄ (dates : Dates D)
    (less : SortKey D → SortKey D → Bool) where
  link-some :
      (b : Bool) (d : Direction) (key : Option (SortKey D)) (q : Json)
      → link dates less b d key ≡ ok (some q)
      → (b ≡ true) × ((k : SortKey D) × (key ≡ some k) × (position dates d k ≡ ok q))
  link-some false d key q e = cc
  link-some true d none q e = cc
  link-some true d (some k) q e = elim (Outcome-cases (position dates d k)) [
    | inl (q', made) ↦ (refl, (k, refl, made ∙ same q' (rw (made, link) at e)))
    | inr (x, failed) ↦ absurd (clash x (rw (failed, link) at e))
  ]
    where
      same : (q' : Json) → ok (some q') ≡ ok (some q) → ok q' ≡ ok q
      same q' f = cc

      clash : (x : Exception) → err x ≡ ok (some q) → ⊥
      clash x f = cc

  positive :
      (start stop : ℕ) (found : List Resource) (b : Bool)
      → not (is_empty (slice start stop found)) && b ≡ true
      → (i : ℕ) × (stop ≡ suc i)
  positive start zero found b e = absurd (empty_slice (0 - start) (omega arith) e)
    where
      empty_slice : (n : ℕ) → n ≡ 0 → not (is_empty (take n (drop start found))) && b ≡ true → ⊥
      empty_slice zero h f = cc
      empty_slice (suc n) h f = omega arith
  positive start (suc i) found b e = (i, refl)

  cut-ok :
      (keys : List (SortKey D)) (found : List Resource) (start stop : ℕ) (p : SearchPage Json)
      → cut dates less keys found (start, stop) ≡ ok p
      → (next_link dates less keys found start stop ≡ ok p.next)
        × (p.resources ≡ slice start stop found)
  unfolding cut
  cut-ok keys found start stop p e =
      let (after, linked, rest) =
        >>=-eq-ok (next_link dates less keys found start stop)
          (λ after. previous_link dates less keys found start stop >>= λ in_front.
            ok (made_page dates less found start stop after in_front))
          e in
      let (in_front, _, made) =
        >>=-eq-ok (previous_link dates less keys found start stop)
          (λ in_front. ok (made_page dates less found start stop after in_front)) rest in
      let same : made_page dates less found start stop after in_front ≡ p = ok-injective made in
      (
        linked ∙ ap (λ (x : SearchPage Json). ok x.next) same,
        sym (ap (λ (x : SearchPage Json). x.resources) same),
      )

  -- The last key of a page that has a next one.
  cut-next :
      (keys : List (SortKey D)) (found : List Resource) (start stop : ℕ) (p : SearchPage Json)
      (q : Json)
      → cut dates less keys found (start, stop) ≡ ok p
      → p.next ≡ some q
      → (p.resources ≡ slice start stop found)
        × ((k : SortKey D) × (i : ℕ) × (stop ≡ suc i)
            × (get_elem? keys i ≡ some k)
            × (position dates next k ≡ ok q))
  cut-next keys found start stop p q e n =
      let (linked, resources) = cut-ok keys found start stop p e in
      let (b, more) =
        link-some (not (is_empty (slice start stop found)) && ltb stop (length found)) next
          (get_elem? keys (stop - 1)) q (linked ∙ ap (λ x. ok x) n) in
      let (k, there, at_k) = more in
      let (i, last) = positive start stop found (ltb stop (length found)) b in
      (
        resources,
        (k, i, last, subst (λ x. get_elem? keys x ≡ some k) (omega (arith, last)) there, at_k),
      )

  -- Every key of the sorted pairs is one that `_sort_key` gives.
  keys-IsSortKey :
      (rq : PageRequest D) (rs : List Resource)
      → All (λ k. IsSortKey dates k) (keys_of dates less rq rs)
  keys-IsSortKey rq rs = All-keys dates less (λ k. IsSortKey dates k) rq rs (each rs)
    where
      each : (rs : List Resource) → All (λ r. IsSortKey dates (sort_key rq.sort_value r)) rs
      each [] = tt
      each (r ∷ rs) = (sort_key-IsSortKey dates rq.sort_value r, each rs)

  cursor_page :
      (rq : PageRequest D) (pos : Option Json) (rs : List Resource) (cursor : Text) (c : ℕ)
      → rq.cursor ≡ some cursor
      → rq.count ≡ some (suc c)
      → page dates less rq pos rs ≡ (
          window dates less rq pos (keys_of dates less rq rs)
          >>= cut dates less (keys_of dates less rq rs) (found_of dates less rq rs))
  unfolding page
  cursor_page rq pos rs cursor c e f = simp (page, e, f)

  window-next :
      (rq : PageRequest D) (keys : List (SortKey D)) (i c : ℕ) (k : SortKey D) (q : Json)
      → IsStrict less
      → Sorted less (descends rq) keys
      → get_elem? keys i ≡ some k
      → read_position dates q ≡ ok (next, k)
      → rq.count ≡ some (suc c)
      → window dates less rq (some q) keys ≡ ok (suc i, min (suc i + suc c) (length keys))
  unfolding window bounds
  window-next rq keys i c k q h sorted there read counted =
      rw (read, window, counted)
        (ap (λ start. ok (start, min (start + suc c) (length keys)))
          (bounds-adjacent less h (descends rq) keys i k (suc c) sorted there).0)

  following :
      (rq : PageRequest D) (keys : List (SortKey D)) (found : List Resource) (i c : ℕ)
      (k : SortKey D) (q : Json) (p : SearchPage Json)
      → IsStrict less
      → Sorted less (descends rq) keys
      → get_elem? keys i ≡ some k
      → read_position dates q ≡ ok (next, k)
      → rq.count ≡ some (suc c)
      → (window dates less rq (some q) keys >>= cut dates less keys found) ≡ ok p
      → p.resources ≡ slice (suc i) (min (suc i + suc c) (length keys)) found
  following rq keys found i c k q p h sorted there read counted e =
      (cut-ok keys found (suc i) (min (suc i + suc c) (length keys)) p
        (rw (window-next rq keys i c k q h sorted there read counted) at e)).1

  -- When `<` orders the sort keys strictly and transitively, one of any two resources has the smaller
  -- key, and `datetime` reads the text that it writes of a date: if a search with a cursor and a count
  -- above zero gives a page with a next position, and the same search with that position gives a
  -- page, then this page starts in the sorted resources where the first one stops, and goes on for
  -- the count or to their end.
  pub page-next :
      IsOrder less
      → IsDates dates
      → (rq : PageRequest D) (pos : Option Json) (rs : List Resource) (cursor : Text) (c : ℕ)
        (p p' : SearchPage Json) (q : Json)
      → AllDiffer less (sort_key rq.sort_value) rs
      → rq.cursor ≡ some cursor
      → rq.count ≡ some (suc c)
      → page dates less rq pos rs ≡ ok p
      → p.next ≡ some q
      → page dates less rq (some q) rs ≡ ok p'
      → (start : ℕ) × (stop : ℕ) × (p.resources ≡ slice start stop (found_of dates less rq rs))
        × (p'.resources
            ≡ slice stop
                (min (stop + suc c) (length (keys_of dates less rq rs)))
                (found_of dates less rq rs))
  page-next h dh rq pos rs cursor c p p' q differ cursored counted e n e' =
      let keys = keys_of dates less rq rs in
      let found = found_of dates less rq rs in
      let ((start, stop), _, first) =
        >>=-eq-ok (window dates less rq pos keys) (cut dates less keys found)
          (sym (cursor_page rq pos rs cursor c cursored counted) ∙ e) in
      let (here, more) = cut-next keys found start stop p q first n in
      let (k, i, last, there, made) = more in
      let read =
        read-position dates dh next k q
          (All-get_elem? less (λ x. IsSortKey dates x) keys i k (keys-IsSortKey rq rs) there)
          made in
      (
        start,
        suc i,
        here ∙ rw last refl,
        following rq keys found i c k q p' h.strict (keys_of-Sorted dates less h rq rs differ) there
            read counted (sym (cursor_page rq (some q) rs cursor c cursored counted) ∙ e'),
      )
