-- ===== src/Routing/Tests.antt =====
-- Routes at concrete requests.
use scim2_server.Routing.{segments_of, match}
use scim2_server.Routing.Table.{endpoint_table, answer}
use scim2_server.Routing.Match.{match-answer}
use scim2_server.Base.{◌≡◌, codes}

match-answer_example :
    match (codes "GET") (codes "/Users/42")
    ≡ answer (codes "GET") (endpoint_table (segments_of (codes "/Users/42")))
match-answer_example = match-answer (codes "GET") (codes "/Users/42")
