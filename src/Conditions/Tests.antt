-- ===== src/Conditions/Tests.antt =====
-- Entity tags and conditional requests at concrete inputs.
use scim2_server.Conditions.{check, parse, opaque_tag}
use scim2_server.Conditions.Lists.{weak_tag, list_header, listed, parse-list_header}
use scim2_server.Conditions.Checks.{opaque_tag-weak_tag, check-if_match, check-if_none_match}
use scim2_server.Base.{
  ◌≡◌, refl, none, some, [], ◌∷◌, false, codes, text_beq, ok, err, precondition_failed,
}

parse-list_header_example :
    parse (some (list_header (codes "1" ∷ codes "2" ∷ [])))
    ≡ some (record { tags = listed (codes "1" ∷ codes "2" ∷ []) []; any = false })
parse-list_header_example =
    parse-list_header (codes "1") (codes "2" ∷ []) ((refl, tt), ((refl, tt), tt))

opaque_tag-weak_tag_example : opaque_tag (weak_tag (codes "12")) ≡ codes "12"
opaque_tag-weak_tag_example = opaque_tag-weak_tag (codes "12")

check-if_match_example :
    check
      (record { if_match = some (list_header (codes "1" ∷ codes "2" ∷ [])); if_none_match = none })
      (some (weak_tag (codes "3")))
      (codes "PUT")
    ≡ err precondition_failed
unfolding text_beq
check-if_match_example =
    check-if_match (codes "1") (codes "2" ∷ []) (codes "3") (codes "PUT")
      ((refl, tt), ((refl, tt), tt))

check-if_none_match_example :
    check
      (record { if_match = none; if_none_match = some (list_header (codes "1" ∷ codes "2" ∷ [])) })
      (some (weak_tag (codes "2")))
      (codes "GET")
    ≡ ok false
unfolding text_beq
check-if_none_match_example =
    check-if_none_match (codes "1") (codes "2" ∷ []) (codes "2") (codes "GET")
      ((refl, tt), ((refl, tt), tt))
