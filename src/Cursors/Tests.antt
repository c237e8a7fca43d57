-- ===== src/Cursors/Tests.antt =====
-- A cursor sealed by a codec that hides nothing.
use scim2_server.Cursors.{Content, Codec, seal, open_cursor}
use scim2_server.Cursors.Opened.{IsSound, open_cursor-seal}
use scim2_server.Base.{
  text_beq, ℕ, zero, suc, ◌≡◌, refl, Option, none, some, List, [], ◌∷◌, ◌++◌, arith, nat_eq, Text,
  text_eq, option_text_eq, codes, ok, drop,
}

abbrev dumps : Content ℕ → List ℕ
dumps c = c.position ∷ c.issued ∷ elim c.count [ none ↦ 0 ∷ c.query | some n ↦ suc n ∷ c.query ]

abbrev loads : List ℕ → Content ℕ
loads (p ∷ t ∷ zero ∷ q) = record { query = q; count = none; issued = t; position = p }
loads (p ∷ t ∷ suc n ∷ q) = record { query = q; count = some n; issued = t; position = p }
loads _ = record { query = []; count = none; issued = 0; position = 0 }

abbrev tag : List ℕ
tag = 0 ∷ 0 ∷ 0 ∷ 0 ∷ 0 ∷ 0 ∷ 0 ∷ 0 ∷ 0 ∷ 0 ∷ 0 ∷ 0 ∷ 0 ∷ 0 ∷ 0 ∷ 0 ∷ []

abbrev plain : Codec ℕ
plain = record {
  encode = λ t. t;
  decode = λ t. some t;
  dumps = dumps;
  loads = loads;
  encrypt = λ s n t. tag ++ t;
  decrypt = λ s n t. some (drop 16 t);
}

loads-dumps :
    (q : Text) (n : Option ℕ) (t p : ℕ)
    → loads (dumps (record { query = q; count = n; issued = t; position = p }))
      ≡ record { query = q; count = n; issued = t; position = p }
loads-dumps q none t p = refl
loads-dumps q (some n) t p = refl

plain-IsSound : IsSound plain
plain-IsSound = record {
  decoding = λ t. refl;
  loading = λ c. loads-dumps c.query c.count c.issued c.position;
  decrypting = λ s n t. refl;
  tagged = λ s n t. omega arith;
}

abbrev nonce : List ℕ
nonce = 1 ∷ 2 ∷ 3 ∷ 4 ∷ 5 ∷ 6 ∷ 7 ∷ 8 ∷ 9 ∷ 10 ∷ 11 ∷ 12 ∷ []

open_cursor-seal_example :
    open_cursor plain 9000000
      (seal plain tag nonce 5000000 (codes "q") (some 10) 42)
      (codes "q")
      (some 10)
      (some 4)
    ≡ ok 42
unfolding text_beq
open_cursor-seal_example =
    open_cursor-seal plain plain-IsSound tag nonce 5000000 9000000 (codes "q") (codes "q") (some 10)
      (some 10) (some 4) 42 refl refl
