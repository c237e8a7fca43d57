-- ===== src/Cursors.antt =====
-- scim2_server/cursor.py: the cursors that hide the position of a page.
mod Opened
mod Tests
use Prim.Native.Nat.{◌/◌, ◌*◌}
use scim2_server.Base.{
  option_beq_iff, length, length-append, ℕ, zero, suc, ◌+◌, ◌<◌, ◌≤◌, ◌≡◌, refl, sym, ap, ◌∙◌,
  subst, ◌↔◌, inl, inr, Bool, true, false, not, ◌&&◌, ◌||◌, Option, none, some, List, [], ◌∷◌, ◌++◌,
  map, arith, ltb, if◌then◌else◌, Bool-cases, Option-cases, All, contains, ◌==◌, ==_iff, ==_refl,
  nat_eq, Text, text_eq, option_text_eq, Eq, length, codes, keep, Outcome, ok, err, uniqueness,
  not_found, precondition_failed, ◌>>=◌, ◌>>◌, >>=-eq-ok, rstrip, lstrip, strip, is_slash, is_space,
  raise_if, assertion_error, runtime_error, forbidden, Exception, not_implemented, invalid_value,
  payload_too_large, value_error, unsupported_media_type, method_not_allowed, scim_error,
  type_error, split, join, take, drop, leb, nat_beq, type_error, unauthorized, invalid_syntax,
  invalid_cursor, invalid_count, expired_cursor, conflict, option_beq, Outcome-cases, min, ◌-◌,
}

-- The JSON object in a cursor: the query, its count, the time in seconds, and the position.
pub record Content (C : Type 0) : Type 0 where
  pub query : Text
  pub count : Option ℕ
  pub issued : ℕ
  pub position : C

-- What `base64`, `json` and `cryptography` compute: base64 without its padding, the JSON text of a
-- content, and AES-GCM with the key that the secret and a salt give. `decode` gives `none` for a
-- `ValueError`, `decrypt` for an `InvalidTag`.
pub record Codec (C : Type 0) : Type 0 where
  pub encode : List ℕ → Text
  pub decode : Text → Option (List ℕ)
  pub dumps : Content C → List ℕ
  pub loads : List ℕ → Content C
  pub encrypt : (salt nonce content : List ℕ) → List ℕ
  pub decrypt : (salt nonce sealed : List ℕ) → Option (List ℕ)

abbrev pub salt_size : ℕ
salt_size = 16

abbrev pub nonce_size : ℕ
nonce_size = 12

abbrev pub tag_size : ℕ
tag_size = 16

-- A clock counts microseconds.
abbrev pub second : ℕ
second = 1000000

instance abbrev pub count_eq : Eq (Option ℕ)
count_eq = record { beq = option_beq nat_eq; beq_iff = option_beq_iff nat_eq }

abbrev pub is_old : (now issued : ℕ) → Option ℕ → Bool
is_old now issued none = false
is_old now issued (some timeout) = ltb (timeout * second) (now - issued * second)

module _ {C : Type 0} (codec : Codec C) where
  open codec use {encode, decode, dumps, loads, encrypt, decrypt}

  -- `salt` and `nonce` are what `os.urandom` gives.
  unfoldable pub seal : (salt nonce : List ℕ) → (now : ℕ) → Text → Option ℕ → C → Text
  seal salt nonce now query count position =
      let content : Content C = record {
        query = query;
        count = count;
        issued = now / second;
        position = position;
      } in
      encode (1 ∷ (salt ++ (nonce ++ encrypt salt nonce (dumps content))))

  -- The checks on the content of a cursor.
  unfoldable pub check_content : ℕ → Content C → Text → Option ℕ → Option ℕ → Outcome C
  check_content now content query count timeout =
      if not (content.query == query)
      then err invalid_cursor
      else if not (content.count == count)
      then err invalid_count
      else if is_old now content.issued timeout
      then err expired_cursor
      else ok content.position

  abbrev pub when_decrypted : Option (List ℕ) → (Content C → Outcome C) → Outcome C
  when_decrypted none f = err invalid_cursor
  when_decrypted (some text) f = f (loads text)

  unfoldable pub open_token : ℕ → List ℕ → Text → Option ℕ → Option ℕ → Outcome C
  unfolding check_content
  open_token now token query count timeout =
      if not (take 1 token == 1 ∷ []) || ltb (length token) (1 + salt_size + nonce_size + tag_size)
      then err invalid_cursor
      else when_decrypted
          (decrypt (take 16 (drop 1 token)) (take 12 (drop 17 token)) (drop 29 token))
          (λ content. check_content now content query count timeout)

  abbrev pub when_decoded : Option (List ℕ) → (List ℕ → Outcome C) → Outcome C
  when_decoded none f = err invalid_cursor
  when_decoded (some token) f = f token

  unfoldable pub open_cursor : ℕ → Text → Text → Option ℕ → Option ℕ → Outcome C
  unfolding open_token
  open_cursor now cursor query count timeout =
      when_decoded (decode cursor) (λ token. open_token now token query count timeout)
