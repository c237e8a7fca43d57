-- ===== src/Routing/Match.antt =====
-- `match` of routing.py answers from the table of the endpoints.
use scim2_server.Routing.{create, search, search_with_body, routes, segments_of, match}
use scim2_server.Routing.Table.{on, resource_table, one_table, two_table, endpoint_table, answer}
use scim2_server.Routing.Rows.{
  match_routes-candidates, match_shape, row_candidates, rows, candidates-shape,
}
use scim2_server.Base.{
  ◌≡◌, refl, sym, ◌∙◌, ◌⊎◌, inl, inr, false, none, some, List, [], ◌∷◌, arith, if◌then◌else◌,
  Bool-cases, Elem, All-elem, ◌==◌, ==_iff, nat_eq, Text, codes, text_beq, text_eq, option_text_eq,
}

-- A first segment that is the name of no special endpoint.
record IsPlain (a : Text) : Type 0 where
  config : (codes "ServiceProviderConfig" == a) ≡ false
  types : (codes "ResourceTypes" == a) ≡ false
  schemas_name : (codes "Schemas" == a) ≡ false
  bulk_name : (codes "Bulk" == a) ≡ false
  me_name : (codes "Me" == a) ≡ false
  search_name : (codes ".search" == a) ≡ false

module _ (a : Text) (plain : IsPlain a) where
  open plain use {config, types, schemas_name, bulk_name, me_name, search_name}

  IsPlain-search : (a == codes ".search") ≡ false
  IsPlain-search = ground (arith, ==_iff (codes ".search") a, ==_iff a (codes ".search"))

  candidates_one :
      row_candidates rows (a ∷ [])
      ≡ on "GET" search (some a) none false ∷ on "POST" create (some a) none false ∷ []
  unfolding row_candidates match_shape
  candidates_one = rw (config, types, schemas_name, bulk_name, me_name, search_name, IsPlain-search)

  candidates_two :
      (b : Text)
      → row_candidates rows (a ∷ b ∷ []) ≡ (
          if codes ".search" == b
          then on "POST" search_with_body (some a) none false ∷ resource_table a b
          else resource_table a b)
  unfolding row_candidates match_shape
  candidates_two b = elim (Bool-cases (codes ".search" == b)) [
    | inl e ↦ rw (config, types, schemas_name, bulk_name, me_name, search_name, IsPlain-search, e)
    | inr e ↦ rw (config, types, schemas_name, bulk_name, me_name, search_name, IsPlain-search, e)
  ]

  candidates_long : (b c : Text) (rest : List Text) → row_candidates rows (a ∷ b ∷ c ∷ rest) ≡ []
  unfolding row_candidates match_shape
  candidates_long b c rest = elim (Bool-cases (codes ".search" == b)) [
    | inl e ↦ rw (config, types, schemas_name, bulk_name, me_name, search_name, IsPlain-search, e)
    | inr e ↦ rw (config, types, schemas_name, bulk_name, me_name, search_name, IsPlain-search, e)
  ]

abbrev special : List Text
special =
    codes "ServiceProviderConfig"
    ∷ codes "ResourceTypes"
    ∷ codes "Schemas"
    ∷ codes "Bulk"
    ∷ codes "Me"
    ∷ codes ".search"
    ∷ []

Plain-cases : (a : Text) → Elem a special ⊎ IsPlain a
Plain-cases a = grind (
  arith,
  ==_iff (codes "ServiceProviderConfig") a,
  ==_iff (codes "ResourceTypes") a,
  ==_iff (codes "Schemas") a,
  ==_iff (codes "Bulk") a,
  ==_iff (codes "Me") a,
  ==_iff (codes ".search") a,
)

one_table-plain :
    (a : Text)
    → IsPlain a
    → one_table a ≡ on "GET" search (some a) none false ∷ on "POST" create (some a) none false ∷ []
unfolding one_table
one_table-plain a plain = rw (
  plain.config, plain.types, plain.schemas_name, plain.bulk_name, plain.me_name, plain.search_name,
)

two_table-plain :
    (a b : Text)
    → IsPlain a
    → two_table a b ≡ (
        if codes ".search" == b
        then on "POST" search_with_body (some a) none false ∷ resource_table a b
        else resource_table a b)
unfolding two_table
two_table-plain a b plain = rw (
  plain.config, plain.types, plain.schemas_name, plain.bulk_name, plain.me_name, plain.search_name,
)

one-table : (a : Text) → row_candidates rows (a ∷ []) ≡ one_table a
unfolding row_candidates match_shape one_table text_beq
one-table a = elim (Plain-cases a) [
  | inl m ↦
      All-elem (λ x. row_candidates rows (x ∷ []) ≡ one_table x) special
        (refl, (refl, (refl, (refl, (refl, (refl, tt)))))) a m
  | inr plain ↦ candidates_one a plain ∙ sym (one_table-plain a plain)
]

two-table : (a b : Text) → row_candidates rows (a ∷ b ∷ []) ≡ two_table a b
unfolding row_candidates match_shape two_table text_beq
two-table a b = elim (Plain-cases a) [
  | inl m ↦
      All-elem (λ x. row_candidates rows (x ∷ b ∷ []) ≡ two_table x b) special
        (refl, (refl, (refl, (refl, (refl, (refl, tt)))))) a m
  | inr plain ↦ candidates_two a plain b ∙ sym (two_table-plain a b plain)
]

long-table : (a b c : Text) (rest : List Text) → row_candidates rows (a ∷ b ∷ c ∷ rest) ≡ []
unfolding row_candidates match_shape text_beq
long-table a b c rest = elim (Plain-cases a) [
  | inl m ↦
      All-elem (λ x. row_candidates rows (x ∷ b ∷ c ∷ rest) ≡ []) special
        (refl, (refl, (refl, (refl, (refl, (refl, tt)))))) a m
  | inr plain ↦ candidates_long a plain b c rest
]

table_lem : (ss : List Text) → row_candidates rows ss ≡ endpoint_table ss
unfolding endpoint_table row_candidates match_shape
table_lem [] = refl
table_lem (a ∷ []) = one-table a
table_lem (a ∷ b ∷ []) = two-table a b
table_lem (a ∷ b ∷ c ∷ rest) = long-table a b c rest

-- For each method and each path, `match` finds what the table of the endpoints lists for the path:
-- the operation and its target, a 405 with the methods the endpoint has, or a 404.
pub match-answer :
    (method path : Text) → match method path ≡ answer method (endpoint_table (segments_of path))
unfolding match answer
match-answer method path = rw (
  match_routes-candidates routes method (segments_of path) [],
  candidates-shape (segments_of path),
  table_lem (segments_of path),
)
