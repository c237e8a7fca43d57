-- ===== src/Service/Search.antt =====
-- The search requests of scim2_server/service.py: how a search is paged, and the page it answers.
use scim2_server.Base.Dict
use scim2_server.Base.Dict.{Dict}
use scim2_server.Models.{Resource, ResourceType}
use scim2_server.Requests.{ScimResponse, list_body, respond}
use scim2_server.Service.{
  ScimService, SearchRequest, PaginationMethod, cursor, index, PaginationConfig, or_empty,
  ensure_supported,
}
use scim2_server.Service.Answers.{decode_body, publish}
use scim2_server.Base.{
  ℕ, zero, suc, min, Bool, true, false, not, ◌&&◌, ◌||◌, Option, none, some, List, [], ◌∷◌, map,
  ltb, if◌then◌else◌, length, contains, nat_eq, option_beq, Text, codes, text_eq, option_text_eq,
  ◌>>=◌, ◌>>◌, raise_if, Outcome, ok, err, invalid_value, not_implemented, value_error,
  assertion_error,
}

-- `SearchPage` of scim2_server/storage.py. `C` is the position of a page.
pub record SearchPage (C : Type 0) : Type 0 where
  pub total : Option ℕ
  pub resources : List Resource
  pub next : Option C
  pub previous : Option C

abbrev pub announces : PaginationConfig → PaginationMethod → Bool
announces p cursor = p.cursor
announces p index = p.index

abbrev pub is_index : PaginationMethod → Bool
is_index cursor = false
is_index index = true

-- `[b for b in (x, y) if b is not None]`
abbrev pub given : Option ℕ → Option ℕ → List ℕ
given none none = []
given none (some b) = b ∷ []
given (some a) none = a ∷ []
given (some a) (some b) = a ∷ b ∷ []

abbrev pub minimum : List ℕ → Option ℕ
minimum [] = none
minimum (b ∷ []) = some b
minimum (b ∷ c ∷ bs) = elim (minimum (c ∷ bs)) [ none ↦ some b | some m ↦ some (min b m) ]

-- `count is None or count > bound`
abbrev pub exceeds : Option ℕ → ℕ → Bool
exceeds none bound = true
exceeds (some count) bound = ltb bound count

-- The end of `_bound_count`: the count under the least of the bounds.
unfoldable pub cap : List ℕ → Option ℕ → Option ℕ
cap bounds count = elim (minimum bounds) [
  | none ↦ count
  | some bound ↦ if exceeds count bound then some bound else count
]

-- `start_index or 1`
abbrev pub or_one : Option ℕ → ℕ
or_one none = 1
or_one (some zero) = 1
or_one (some (suc n)) = suc n

abbrev pub is_given : {A : Type 0} → Option A → Bool
is_given none = false
is_given (some a) = true

-- `[f(x) for x in xs]` where `f` may raise
unfoldable pub each : {A B : Type 0} → (A → Outcome B) → List A → Outcome (List B)
each f [] = ok []
each f (x ∷ xs) = f x >>= λ y. each f xs >>= λ ys. ok (y ∷ ys)

-- `{key: query[key] for key in keys if key in query}`
unfoldable pub select : List Text → Dict Text Text → Dict Text Text
select [] query = []
select (key ∷ keys) query =
    let rest = select keys query in
    elim (Dict.get query key) [ none ↦ rest | some value ↦ (key, value) ∷ rest ]

abbrev pub search_request_parameters : List Text
search_request_parameters =
    codes "attributes"
    ∷ codes "excludedAttributes"
    ∷ codes "filter"
    ∷ codes "sortBy"
    ∷ codes "sortOrder"
    ∷ codes "startIndex"
    ∷ codes "count"
    ∷ codes "cursor"
    ∷ []

module _ {P D J C : Type 0} (sv : ScimService P D J C) where
  unfoldable pub pages_by : PaginationMethod → Bool
  pages_by method = elim sv.config.pagination [
    | none ↦ is_index method
    | some p ↦ announces p method
  ]

  abbrev pub ensure_pages_by : PaginationMethod → Outcome (Unit {0})
  ensure_pages_by method = raise_if (not (pages_by method)) not_implemented

  abbrev pub configured_pagination : Option PaginationMethod
  configured_pagination = elim sv.config.pagination [
    | none ↦ none
    | some p ↦ p.default_pagination_method
  ]

  unfoldable pub default_pagination : PaginationMethod
  unfolding pages_by
  default_pagination = elim configured_pagination [
    | some method ↦ method
    | none ↦ if pages_by index then index else cursor
  ]

  abbrev pub default_count : Option ℕ → Option ℕ
  default_count (some count) = some count
  default_count none = elim sv.config.pagination [ none ↦ none | some p ↦ p.default_page_size ]

  abbrev pub max_results : Option ℕ
  max_results = elim sv.config.filter [ none ↦ none | some f ↦ f.max_results ]

  abbrev pub max_page_size : Option ℕ
  max_page_size = elim sv.config.pagination [ none ↦ none | some p ↦ p.max_page_size ]

  -- The new `count` of a search.
  unfoldable pub bound_count : Option ℕ → Option ℕ
  unfolding cap
  bound_count count = cap (given max_results max_page_size) (default_count count)

  -- The cursor of a search that asks for no pagination.
  abbrev pub with_default : SearchRequest → SearchRequest
  with_default r =
      if not (is_given r.cursor)
        && not (is_given r.start_index)
        && not (is_index default_pagination)
      then record r { cursor = some [] }
      else r

  -- By the cursor of the request.
  abbrev pub page_with : Option Text → SearchRequest → Outcome SearchRequest
  page_with none r =
      ensure_pages_by index >> ok (record r { start_index = some (or_one r.start_index) })
  page_with (some _) r = ensure_pages_by cursor >> ok r

  abbrev pub page_by : SearchRequest → Outcome SearchRequest
  page_by r = page_with r.cursor r

  -- Open a cursor that is not empty, and leave an empty one.
  abbrev pub open_token :
      List ResourceType
      → SearchRequest
      → Text
      → PaginationConfig
      → Outcome (SearchRequest × Option C)
  open_token rts r token p =
      raise_if (not (pages_by cursor)) assertion_error
      >> sv.open_cursor token (sv.digest rts r) r.count p.cursor_timeout
      >>= λ position. ok (record r { cursor = some [] }, some position)

  abbrev pub open_paged :
      Option PaginationConfig
      → List ResourceType
      → SearchRequest
      → Text
      → Outcome (SearchRequest × Option C)
  open_paged p rts r [] = ok (r, none)
  open_paged none rts r (c ∷ token) = err assertion_error
  open_paged (some p) rts r (c ∷ token) = open_token rts r (c ∷ token) p

  -- The service has its cursors exactly when it pages by cursor.
  unfoldable pub open_position :
      List ResourceType → SearchRequest → Outcome (SearchRequest × Option C)
  unfolding pages_by
  open_position rts r = open_paged sv.config.pagination rts r (or_empty r.cursor)

  -- Behind the validation of the request.
  unfoldable pub page_search :
      List ResourceType → SearchRequest → Outcome (SearchRequest × Option C)
  unfolding pages_by default_pagination bound_count open_position
  page_search rts r =
      raise_if (is_given r.cursor && is_given r.start_index) invalid_value
      >> page_by (with_default r)
      >>= λ r'. open_position rts (record r' { count = bound_count r'.count })

  abbrev pub ensure_if : Bool → Option Bool → Outcome (Unit {0})
  ensure_if asked capability = if asked then ensure_supported capability else ok tt

  unfoldable pub read_search : List ResourceType → J → Outcome (SearchRequest × Option C)
  unfolding page_search
  read_search rts payload =
      let parameters = map sv.casefold (sv.names payload) in
      ensure_if (contains parameters (codes "filter"))
        (elim sv.config.filter [ none ↦ none | some f ↦ some f.supported ])
      >> ensure_if (contains parameters (codes "sortby") || contains parameters (codes "sortorder"))
          sv.config.sort
      >> sv.validate_search rts payload
      >>= page_search rts

  unfoldable pub read_search_query :
      List ResourceType → Dict Text Text → Outcome (SearchRequest × Option C)
  unfolding read_search select
  read_search_query rts query =
      read_search rts (sv.query_value (select search_request_parameters query))

  unfoldable pub read_search_body :
      List ResourceType → List ℕ → Option Text → Outcome (SearchRequest × Option C)
  unfolding read_search
  read_search_body rts body content_type = decode_body sv body content_type >>= read_search rts

  abbrev pub seal : List ResourceType → SearchRequest → Option C → Outcome (Option Text)
  seal rts r none = ok none
  seal rts r (some position) =
      raise_if (not (pages_by cursor)) assertion_error
      >> ok (some (sv.seal_cursor (sv.digest rts r) r.count position))

  abbrev pub list_response :
      Option ℕ → Option ℕ → Option Text → Option Text → List Resource → ScimResponse P
  list_response total start_index next previous dumped =
      respond 200 (some (list_body total (length dumped) start_index next previous dumped)) []

  unfoldable pub search_response :
      Text → List ResourceType → SearchPage C → SearchRequest → Outcome (ScimResponse P)
  unfolding pages_by each publish
  search_response base_url rts page r =
      let by_cursor = is_given r.cursor in
      let sealed = by_cursor && not (option_beq nat_eq r.count (some 0)) in
      raise_if (not by_cursor && not (is_given page.total)) value_error
      >> (if sealed then seal rts r page.next else ok none)
      >>= λ next. (if sealed then seal rts r page.previous else ok none) >>= λ previous.
          each (publish sv base_url) page.resources >>= λ dumped. ok (
            list_response page.total (if by_cursor then none else r.start_index) next previous
              dumped)
