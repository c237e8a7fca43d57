-- ===== src/Cursors/Opened.antt =====
-- A cursor that was sealed opens to its position.
use Prim.Native.Nat.{◌/◌}
use scim2_server.Cursors.{
  Content, Codec, second, count_eq, is_old, seal, check_content, open_token, open_cursor,
}
use scim2_server.Base.{
  length-append, text_beq, ℕ, zero, suc, ◌+◌, ◌≤◌, ◌≡◌, refl, ap, false, not, Option, some, List,
  [], ◌∷◌, ◌++◌, arith, ltb, if◌then◌else◌, ◌==◌, nat_eq, Text, text_eq, option_text_eq, length, ok,
  err, take, drop, invalid_cursor, invalid_count, expired_cursor,
}

take-append : (n : ℕ) (xs ys : List ℕ) → length xs ≡ n → take n (xs ++ ys) ≡ xs
take-append zero [] ys h = refl
take-append zero (x ∷ xs) ys h = absurd (omega (arith, h))
take-append (suc n) [] ys h = absurd (omega (arith, h))
take-append (suc n) (x ∷ xs) ys h = rw (take-append n xs ys (omega (arith, h))) refl

drop-append :
    (n m k : ℕ) (xs ys : List ℕ) → length xs ≡ n → k ≡ n + m → drop k (xs ++ ys) ≡ drop m ys
drop-append n m k [] ys h e = ap (λ i. drop i ys) (omega (arith, h, e))
drop-append n m zero (x ∷ xs) ys h e = absurd (omega (arith, h, e))
drop-append zero m (suc k) (x ∷ xs) ys h e = absurd (omega (arith, h))
drop-append (suc n) m (suc k) (x ∷ xs) ys h e =
    drop-append n m k xs ys (omega (arith, h)) (omega (arith, e))

-- What the libraries promise: each decoding undoes its encoding, and a sealed text is not shorter
-- than its tag.
pub record IsSound {C : Type 0} (codec : Codec C) : Type 0 where
  pub decoding : (token : List ℕ) → codec.decode (codec.encode token) ≡ some token
  pub loading : (content : Content C) → codec.loads (codec.dumps content) ≡ content
  pub decrypting :
      (salt nonce text : List ℕ)
      → codec.decrypt salt nonce (codec.encrypt salt nonce text) ≡ some text
  pub tagged : (salt nonce text : List ℕ) → 16 ≤ length (codec.encrypt salt nonce text)

module _ {C : Type 0} (codec : Codec C) (sound : IsSound codec) where
  -- A cursor opens to the position that it was sealed with; but for another query it is invalid, for
  -- another count it is refused as such, and after its timeout it is expired. The salt has 16 and the
  -- nonce 12 bytes.
  pub open_cursor-seal :
      (salt nonce : List ℕ) (sealed_at now : ℕ) (query query' : Text)
      (count count' timeout : Option ℕ) (position : C)
      → length salt ≡ 16
      → length nonce ≡ 12
      → open_cursor codec now
          (seal codec salt nonce sealed_at query count position)
          query'
          count'
          timeout
        ≡ (if not (query == query')
            then err invalid_cursor
            else if not (count == count')
            then err invalid_count
            else if is_old now (sealed_at / second) timeout
            then err expired_cursor
            else ok position)
  unfolding open_cursor open_token check_content seal text_beq
  open_cursor-seal salt nonce sealed_at now query query' count count' timeout position hs hn =
      let content : Content C = record {
        query = query;
        count = count;
        issued = sealed_at / second;
        position = position;
      } in
      let sealed = codec.encrypt salt nonce (codec.dumps content) in
      let long : ltb (suc (length (salt ++ (nonce ++ sealed)))) 45 ≡ false = ground (
        arith,
        length-append salt (nonce ++ sealed),
        length-append nonce sealed,
        sound.tagged salt nonce (codec.dumps content),
        hs,
        hn,
      ) in
      rw
        (
          sound.decoding (1 ∷ (salt ++ (nonce ++ sealed))),
          long,
          take-append 16 salt (nonce ++ sealed) hs,
          drop-append 16 0 16 salt (nonce ++ sealed) hs (omega arith),
          take-append 12 nonce sealed hn,
          drop-append 16 12 28 salt (nonce ++ sealed) hs (omega arith),
          drop-append 12 0 12 nonce sealed hn (omega arith),
          sound.decrypting salt nonce (codec.dumps content),
          sound.loading content,
        )
        refl
