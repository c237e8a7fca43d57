-- ===== src/Applications/Received.antt =====
-- The bodies that clients send to the two applications, and what these read of them.
use scim2_server.Applications.{BaseApplication, cut}
use scim2_server.Applications.Wsgi as Wsgi
use scim2_server.Applications.Wsgi.{WsgiEnvironment, read, limited, body_size, read_body, is_given}
use scim2_server.Applications.Asgi.{Message, extended, read_messages}
use scim2_server.Base.Dict
use scim2_server.Base.Dict.{Dict}
use scim2_server.Service.{or_empty}
use scim2_server.Applications.Limited.{take-all}
use scim2_server.Base.{
  ◌≢◌, ◌⊎◌, Text, codes, true, false, text_beq, ok-injective, ℕ, zero, suc, ◌+◌, ◌≤◌, ◌≡◌, refl,
  sym, ap, ◌∙◌, subst, inl, inr, Option, none, some, List, [], ◌∷◌, ◌++◌, arith, ltb, if◌then◌else◌,
  Bool-cases, nat_eq, text_eq, option_text_eq, length, ok, >>=-eq-ok, take, leb,
}

take-take : {A : Type 0} (n m : ℕ) (xs : List A) → n ≤ m → take n (take m xs) ≡ take n xs
take-take zero m xs h = refl
take-take (suc n) zero xs h = absurd (omega arith)
take-take (suc n) (suc m) [] h = refl
take-take (suc n) (suc m) (x ∷ xs) h = ap (λ ys. x ∷ ys) (take-take n m xs (omega arith))

length-take-le : {A : Type 0} (n : ℕ) (xs : List A) → length (take n xs) ≤ n
length-take-le zero xs = omega arith
length-take-le (suc n) [] = omega arith
length-take-le (suc n) (x ∷ xs) = ground (arith, length-take-le n xs)

take-append : {A : Type 0} (n : ℕ) (xs ys : List A) → n ≤ length xs → take n (xs ++ ys) ≡ take n xs
take-append zero xs ys h = refl
take-append (suc n) [] ys h = absurd (omega arith)
take-append (suc n) (x ∷ xs) ys h = ap (λ zs. x ∷ zs) (take-append n xs ys (omega arith))

append_assoc : {A : Type 0} (xs ys zs : List A) → (xs ++ ys) ++ zs ≡ xs ++ (ys ++ zs)
append_assoc [] ys zs = refl
append_assoc (x ∷ xs) ys zs = ap (λ ws. x ∷ ws) (append_assoc xs ys zs)

read-limited :
    (limit size : Option ℕ) (input : List ℕ)
    → read input (limited limit size) ≡ cut limit (read input size)
read-limited none size input = refl
read-limited (some limit) none input = refl
read-limited (some limit) (some size) input = elim (Bool-cases (ltb limit size)) [
  | inl over ↦ rw over (sym (take-take (limit + 1) size input (ground (arith, over))))
  | inr within ↦ rw within (
      sym (
        take-all (limit + 1) (take size input) (ground (arith, within, length-take-le size input))))
]

-- The body that a client sent, as a WSGI server announces it. With a Content-Length, it is as many bytes of the
-- input, or all of it when the number is negative. Without one, it is the input when the server marks it as terminated,
-- and counts as empty otherwise, since its end is then unknown.
pub data WasSent {P : Type 0} (library : Wsgi.Library P) (environ : WsgiEnvironment)
    : List ℕ → Type 0 where
  sized :
      (text : Text) (n : ℕ)
      → Dict.get environ.variables (codes "CONTENT_LENGTH") ≡ some text
      → text ≢ []
      → library.int text ≡ ok (some n)
      → WasSent library environ (take n environ.input)
  negative :
      (text : Text)
      → Dict.get environ.variables (codes "CONTENT_LENGTH") ≡ some text
      → text ≢ []
      → library.int text ≡ ok none
      → WasSent library environ environ.input
  terminated :
      or_empty (Dict.get environ.variables (codes "CONTENT_LENGTH")) ≡ []
      → environ.input_terminated ≡ true
      → WasSent library environ environ.input
  unknown :
      or_empty (Dict.get environ.variables (codes "CONTENT_LENGTH")) ≡ []
      → environ.input_terminated ≡ false
      → WasSent library environ []

-- What is read up to the size that `read_body` finds.
abbrev pub whole_body : List ℕ → Option (Option ℕ) → List ℕ
whole_body input none = []
whole_body input (some size) = read input size

is_given-cases :
    (o : Option Text)
    → ((text : Text) × (o ≡ some text) × (text ≢ []) × (is_given o ≡ true))
      ⊎ ((or_empty o ≡ []) × (is_given o ≡ false))
unfolding text_beq
is_given-cases none = inr (refl, refl)
is_given-cases (some []) = inr (refl, refl)
is_given-cases (some (c ∷ text)) = inl (c ∷ text, refl, (λ e. cc), refl)

pub body_size-WasSent :
    {P D J C : Type 0} (app : BaseApplication P D J C) (library : Wsgi.Library P)
    (environ : WsgiEnvironment) (size : Option (Option ℕ))
    → body_size app library environ ≡ ok size
    → WasSent library environ (whole_body environ.input size)
body_size-WasSent {P} app library environ size e =
    elim (is_given-cases (Dict.get environ.variables (codes "CONTENT_LENGTH"))) [
      | inl (text, there, filled, given) ↦
          let (n, read, same) =
            >>=-eq-ok (library.int text) (λ n. ok (some n)) (rw (given, there) at e) in
          subst (λ x. WasSent library environ (whole_body environ.input x)) (ok-injective same)
            (announced text n there filled read)
      | inr (missing, absent) ↦ elim (Bool-cases environ.input_terminated) [
        | inl ends ↦
            subst (λ x. WasSent library environ (whole_body environ.input x))
              (ok-injective (rw (absent, ends) at e)) (terminated missing ends)
        | inr open_ended ↦
            subst (λ x. WasSent library environ (whole_body environ.input x))
              (ok-injective (rw (absent, open_ended) at e)) (unknown missing open_ended)
      ]
    ]
  where
    announced :
        (text : Text) (n : Option ℕ)
        → Dict.get environ.variables (codes "CONTENT_LENGTH") ≡ some text
        → text ≢ []
        → library.int text ≡ ok n
        → WasSent library environ (read environ.input n)
    announced text none there filled read = negative text there filled read
    announced text (some n) there filled read = sized text n there filled read

-- The body that the client sent, in the chunks of the messages up to the last.
unfoldable pub joined_body : List Message → Option (List ℕ)
joined_body [] = none
joined_body (message ∷ messages) =
    let rest = joined_body messages in
    if message.more_body
    then elim rest [ none ↦ none | some body ↦ some (message.body ++ body) ]
    else some message.body

-- The cut of a body that has come, behind what was read before.
abbrev pub cut_behind : Option ℕ → List ℕ → Option (List ℕ) → Option (List ℕ)
cut_behind limit body none = none
cut_behind limit body (some rest) = some (cut limit (body ++ rest))

cut-extended :
    (limit : Option ℕ) (body more rest : List ℕ)
    → cut limit (extended limit body more ++ rest) ≡ cut limit (body ++ (more ++ rest))
cut-extended none body more rest = append_assoc body more rest
cut-extended (some limit) body more rest = elim (Bool-cases (leb (length body) limit)) [
  | inl within ↦ rw within (ap (λ b. take (limit + 1) b) (append_assoc body more rest))
  | inr over ↦ rw over (
      take-append (limit + 1) body rest (ground (arith, over))
      ∙ sym (take-append (limit + 1) body (more ++ rest) (ground (arith, over))))
]

append-nil : {A : Type 0} (xs : List A) → xs ++ [] ≡ xs
append-nil [] = refl
append-nil (x ∷ xs) = ap (λ ys. x ∷ ys) (append-nil xs)

abbrev pub cut_read : Option ℕ → Option (List ℕ) → Option (List ℕ)
cut_read limit none = none
cut_read limit (some body) = some (cut limit body)

cut_behind-extended :
    (limit : Option ℕ) (body more : List ℕ) (rest : Option (List ℕ))
    → cut_behind limit (extended limit body more) rest
      ≡ cut_behind limit body
          (elim rest as (λ x. Option (List ℕ)) [ none ↦ none | some b ↦ some (more ++ b) ])
cut_behind-extended limit body more none = refl
cut_behind-extended limit body more (some b) = ap (λ x. some x) (cut-extended limit body more b)

pub read_messages-cut :
    (limit : Option ℕ) (messages : List Message) (body : List ℕ)
    → cut_read limit (read_messages limit messages body)
      ≡ cut_behind limit body (joined_body messages)
unfolding read_messages joined_body
read_messages-cut limit [] body = refl
read_messages-cut limit (message ∷ messages) body = elim (Bool-cases message.more_body) [
  | inl more ↦
      rw (more, read_messages, joined_body)
        (read_messages-cut limit messages (extended limit body message.body)
          ∙ cut_behind-extended limit body message.body (joined_body messages))
  | inr last ↦
      rw (last, read_messages, joined_body)
        (ap (λ b. some (cut limit b)) (sym (append-nil (extended limit body message.body)))
          ∙ ap (λ x. some x) (cut-extended limit body message.body [])
          ∙ ap (λ b. some (cut limit (body ++ b))) (append-nil message.body))
]

-- A body is read up to one byte more than the limit.
abbrev pub IsWithin : Option ℕ → List ℕ → Type 0
IsWithin none body = Unit
IsWithin (some limit) body = length body ≤ limit + 1

pub cut-IsWithin : (limit : Option ℕ) (body : List ℕ) → IsWithin limit (cut limit body)
cut-IsWithin none body = tt
cut-IsWithin (some limit) body = length-take-le (limit + 1) body

cut-nil : (limit : Option ℕ) → [] ≡ cut limit []
cut-nil none = refl
cut-nil (some limit) = sym (take-all (limit + 1) [] (omega arith))

pub read_whole :
    (limit : Option ℕ) (input : List ℕ) (size : Option (Option ℕ))
    → (elim size as (λ x. List ℕ) [ none ↦ [] | some size ↦ read input (limited limit size) ])
      ≡ cut limit (whole_body input size)
read_whole limit input none = cut-nil limit
read_whole limit input (some size) = read-limited limit size input
