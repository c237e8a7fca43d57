-- ===== src/Memory/Versions.antt =====
-- The versions that a storage gives: the text of a counter that only grows.
use Prim.Native.Nat.{◌*◌, ◌/◌, ◌-◌}
use scim2_server.Memory.{key_eq}
use scim2_server.Memory.Store.{decimal_from, decimal, version_text}
use scim2_server.Base.{
  ℕ, zero, suc, ◌+◌, ◌<◌, ◌≡◌, refl, sym, ap, ◌∙◌, inl, inr, [], ◌∷◌, ◌++◌, arith, ltb, Bool-cases,
  nat_eq, Text, text_eq, option_text_eq, drop,
}

-- The number that digits write, behind a number that is read.
abbrev read_from : ℕ → Text → ℕ
read_from n [] = n
read_from n (c ∷ cs) = read_from (n * 10 + (c - b'0')) cs

read_from-append :
    (n c : ℕ) (cs : Text) → read_from n (cs ++ c ∷ []) ≡ read_from n cs * 10 + (c - b'0')
read_from-append n c [] = refl
read_from-append n c (d ∷ cs) = read_from-append (n * 10 + (d - b'0')) c cs

read-decimal_from : (fuel n : ℕ) → n < fuel → read_from 0 (decimal_from fuel n) ≡ n
unfolding decimal_from
read-decimal_from zero n h = omega arith
read-decimal_from (suc fuel) n h = elim (Bool-cases (ltb n 10)) [
  | inl e ↦ rw (e, decimal_from) (ground arith)
  | inr e ↦
      rw (e, decimal_from, read_from-append, read-decimal_from fuel (n / 10) (ground arith))
        (ground arith)
]

-- The number of a version: between the `W/"` and the last `"`.
abbrev read_version : Text → ℕ
read_version version = read_from 0 (drop 3 version) / 10

read-version_text : (n : ℕ) → read_version (version_text n) ≡ n
unfolding version_text decimal
read-version_text n =
    let read : read_from 0 (decimal n) ≡ n = read-decimal_from (suc n) n (ground arith) in
    ap (λ d. d / 10) (read_from-append 0 b'"' (decimal n)) ∙ ground (arith, read)

-- Two versions with the same text are the same version.
pub version_text-injective : (n m : ℕ) → version_text n ≡ version_text m → n ≡ m
version_text-injective n m e = sym (read-version_text n) ∙ ap read_version e ∙ read-version_text m
