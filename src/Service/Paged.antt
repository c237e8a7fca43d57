-- ===== src/Service/Paged.antt =====
-- By which method a search is paged.
use scim2_server.Models.{ResourceType}
use scim2_server.Service.{ScimService, SearchRequest, PaginationConfig, cursor, index, or_empty}
use scim2_server.Service.Search.{
  bound_count, pages_by, page_search, page_by, with_default, open_position, open_paged, page_with,
  is_given, is_index, default_pagination, or_one, ensure_pages_by,
}
use scim2_server.Base.{
  ℕ, zero, suc, ◌≡◌, refl, ap, ◌∙◌, ◌⊎◌, inl, inr, Bool, true, false, not, ◌&&◌, Option, none, some,
  List, [], ◌∷◌, Bool-cases, nat_eq, Text, text_eq, option_text_eq, ◌>>◌, raise_if, >>=-eq-ok,
  Exception, Outcome, ok, err, invalid_value, assertion_error,
}

module _ {P D J C : Type 0} (sv : ScimService P D J C) where
  -- How a search is paged: by cursor, with an empty cursor left in the request, or by index, from a
  -- start of at least 1; and the configuration announces the method.
  abbrev pub IsPaged : SearchRequest → Type 0
  IsPaged r =
      (r.cursor ≡ some []) × (pages_by sv cursor ≡ true)
      ⊎ (r.cursor ≡ none) × (pages_by sv index ≡ true) × ((n : ℕ) × (r.start_index ≡ some (suc n)))

  or_one-suc : (o : Option ℕ) → (n : ℕ) × (some (or_one o) ≡ some (suc n))
  or_one-suc none = (0, refl)
  or_one-suc (some zero) = (0, refl)
  or_one-suc (some (suc n)) = (n, refl)

  abbrev emptied : Option Text → Option Text
  emptied none = none
  emptied (some _) = some []

  pair-ok :
      (r r' : SearchRequest) (o o' : Option C)
      → ◌≡◌ {A = Outcome (SearchRequest × Option C)} (ok (r, o)) (ok (r', o'))
      → r' ≡ r
  pair-ok r r' o o' h = cc

  no-pair :
      (e : Exception) (r' : SearchRequest) (o : Option C)
      → ¬ (◌≡◌ {A = Outcome (SearchRequest × Option C)} (err e) (ok (r', o)))
  no-pair e r' o h = cc

  open_paged-ok :
      (p : Option PaginationConfig) (rts : List ResourceType) (r r' : SearchRequest)
      (position : Option C) (token : Text)
      → open_paged sv p rts r token ≡ ok (r', position)
      → (r' ≡ r) × (token ≡ []) ⊎ (r' ≡ record r { cursor = some [] })
  open_paged-ok none rts r r' position [] h = inl (pair-ok r r' none position h, refl)
  open_paged-ok (some p) rts r r' position [] h = inl (pair-ok r r' none position h, refl)
  open_paged-ok none rts r r' position (c ∷ token) h =
      absurd (no-pair assertion_error r' position h)
  open_paged-ok (some p) rts r r' position (c ∷ token) h =
      let (opened, _, h') =
        >>=-eq-ok
          (raise_if (not (pages_by sv cursor)) assertion_error
            >> sv.open_cursor (c ∷ token) (sv.digest rts r) r.count p.cursor_timeout)
          (λ o. ok (record r { cursor = some [] }, some o)) h in
      inr (pair-ok (record r { cursor = some [] }) r' (some opened) position h')

  -- What `_open_cursor` leaves of a request whose cursor is `o`.
  open_option-ok :
      (o : Option Text) (rts : List ResourceType) (r r' : SearchRequest) (position : Option C)
      → r.cursor ≡ o
      → open_paged sv sv.config.pagination rts r (or_empty o) ≡ ok (r', position)
      → (r'.cursor ≡ emptied o) × (r'.start_index ≡ r.start_index) × (r'.count ≡ r.count)
  open_option-ok none rts r r' position e h =
      let same = pair-ok r r' none position h in
      (ap (λ x. x.cursor) same ∙ e, ap (λ x. x.start_index) same, ap (λ x. x.count) same)
  open_option-ok (some token) rts r r' position e h =
      elim (open_paged-ok sv.config.pagination rts r r' position token h) [
        | inl (same, blank) ↦ (
          ap (λ x. x.cursor) same ∙ e ∙ rw blank refl,
          ap (λ x. x.start_index) same,
          ap (λ x. x.count) same,
        )
        | inr same ↦ (ap (λ x. x.cursor) same, ap (λ x. x.start_index) same, ap (λ x. x.count) same)
      ]

  open_position-ok :
      (rts : List ResourceType) (r r' : SearchRequest) (position : Option C)
      → open_position sv rts r ≡ ok (r', position)
      → (r'.cursor ≡ emptied r.cursor) × (r'.start_index ≡ r.start_index) × (r'.count ≡ r.count)
  unfolding open_position
  open_position-ok rts r r' position h = open_option-ok r.cursor rts r r' position refl h

  raise_if-ok : (b : Bool) (e : Exception) → raise_if b e ≡ ok tt → b ≡ false
  raise_if-ok true e h = cc
  raise_if-ok false e h = refl

  not-false : (b : Bool) → not b ≡ false → b ≡ true
  not-false true h = refl
  not-false false h = cc

  ok-eq : (r r' : SearchRequest) → ok r ≡ ok r' → r' ≡ r
  ok-eq r r' h = cc

  page_with-ok :
      (o : Option Text) (r r' : SearchRequest)
      → r.cursor ≡ o
      → page_with sv o r ≡ ok r'
      → ((r'.cursor ≡ none)
            × (pages_by sv index ≡ true)
            × ((n : ℕ) × (r'.start_index ≡ some (suc n)))
          ⊎ ((c : Text) × (r'.cursor ≡ some c)) × (pages_by sv cursor ≡ true))
        × (r'.count ≡ r.count)
  page_with-ok none r r' e h =
      let paged : SearchRequest = record r { start_index = some (or_one r.start_index) } in
      let (_, announced, h') = >>=-eq-ok (ensure_pages_by sv index) (λ _. ok paged) h in
      let same = ok-eq paged r' h' in
      let (n, start) = or_one-suc r.start_index in
      (
        inl (
          ap (λ x. x.cursor) same ∙ e,
          not-false (pages_by sv index) (raise_if-ok _ _ announced),
          (n, ap (λ x. x.start_index) same ∙ start),
        ),
        ap (λ x. x.count) same,
      )
  page_with-ok (some c) r r' e h =
      let (_, announced, h') = >>=-eq-ok (ensure_pages_by sv cursor) (λ _. ok r) h in
      let same = ok-eq r r' h' in
      (
        inr (
          (c, ap (λ x. x.cursor) same ∙ e),
          not-false (pages_by sv cursor) (raise_if-ok _ _ announced),
        ),
        ap (λ x. x.count) same,
      )

  with_default-count : (r : SearchRequest) → (with_default sv r).count ≡ r.count
  with_default-count r =
      elim (Bool-cases (
        not (is_given r.cursor)
        && not (is_given r.start_index)
        && not (is_index (default_pagination sv)))) [ inl e ↦ rw e refl | inr e ↦ rw e refl ]

  -- Behind its validation, a search that the service accepts is paged by exactly one method, which the configuration
  -- announces, with a bounded count: by cursor, or by index from a start of at least 1.
  pub page_search-IsPaged :
      (rts : List ResourceType) (r r' : SearchRequest) (position : Option C)
      → page_search sv rts r ≡ ok (r', position)
      → IsPaged r' × (r'.count ≡ bound_count sv r.count)
  unfolding page_search
  page_search-IsPaged rts r r' position h =
      let (paged, h1, h2) =
        >>=-eq-ok
          (raise_if (is_given r.cursor && is_given r.start_index) invalid_value
            >> page_by sv (with_default sv r))
          (λ r1. open_position sv rts (record r1 { count = bound_count sv r1.count })) h in
      let (_, _, h3) =
        >>=-eq-ok (raise_if (is_given r.cursor && is_given r.start_index) invalid_value)
          (λ _. page_by sv (with_default sv r)) h1 in
      let (method, same_count) =
        page_with-ok (with_default sv r).cursor (with_default sv r) paged refl h3 in
      let (emptied_cursor, start, count) =
        open_position-ok rts (record paged { count = bound_count sv paged.count }) r' position h2 in
      (
        elim method [
          | inl (no_cursor, announced, (n, start')) ↦
              inr (emptied_cursor ∙ rw no_cursor refl, announced, (n, start ∙ start'))
          | inr ((c, has_cursor), announced) ↦ inl (emptied_cursor ∙ rw has_cursor refl, announced)
        ],
        count ∙ ap (bound_count sv) (same_count ∙ with_default-count r),
      )
