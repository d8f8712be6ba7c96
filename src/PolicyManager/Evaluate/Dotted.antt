-- ===== src/PolicyManager/Evaluate/Dotted.antt =====
-- Version numbers as texts, and how services/policy-manager/src/api/evaluate.rs reads them.
use native.Mathlib.Omega.{arith}
use lentropy.Common.{
  ℕ, zero, suc, ◌+◌, ◌/◌, ◌%◌, ◌^◌, ◌≤◌, ◌<◌, ◌≡◌, refl, ap, false, List, [], ◌∷◌, ◌++◌, Text, All,
  some, ltb, ◌==◌, inl, inr, Bool-cases, lt→ltb,
}
use lentropy.Common.Digits.{decimal_loop, decimal, parse_digits, read_decimal, parse_unsigned}
use lentropy.Common.Net.{split}
use lentropy.PolicyManager.Evaluate.{numbers, parse_version}

abbrev IsDigit : ℕ → Type 0
IsDigit c = (b'0' ≤ c) × (c ≤ b'9')

decimal_loop-IsDigit :
    (fuel n : ℕ) (acc : Text) → All IsDigit acc → All IsDigit (decimal_loop fuel n acc)
unfolding decimal_loop
decimal_loop-IsDigit zero n acc h = h
decimal_loop-IsDigit (suc fuel) n acc h = elim (Bool-cases (ltb n 10)) [
  | inl small ↦ rw small ((omega arith, ground arith), h)
  | inr large ↦
      rw large
        (decimal_loop-IsDigit fuel (n / 10) ((b'0' + n % 10) ∷ acc) ((omega arith, omega arith), h))
]

abbrev Filled : Text → Type 0
Filled t = (c : ℕ) × (rest : Text) × (t ≡ c ∷ rest)

decimal_loop-Filled : (fuel n a : ℕ) (acc : Text) → Filled (decimal_loop fuel n (a ∷ acc))
unfolding decimal_loop
decimal_loop-Filled zero n a acc = (a, acc, refl)
decimal_loop-Filled (suc fuel) n a acc = elim (Bool-cases (ltb n 10)) [
  | inl small ↦ rw small (b'0' + n, a ∷ acc, refl)
  | inr large ↦ rw large (decimal_loop-Filled fuel (n / 10) (b'0' + n % 10) (a ∷ acc))
]

decimal-Filled : (n : ℕ) → Filled (decimal n)
unfolding decimal decimal_loop
decimal-Filled n = elim (Bool-cases (ltb n 10)) [
  | inl small ↦ rw small (b'0' + n, [], refl)
  | inr large ↦ rw large (decimal_loop-Filled n (n / 10) (b'0' + n % 10) [])
]

decimal-IsDigit : (n : ℕ) → All IsDigit (decimal n)
unfolding decimal
decimal-IsDigit n = decimal_loop-IsDigit (suc n) n [] tt

parse_unsigned_lem :
    (limit n c : ℕ) (rest : Text)
    → IsDigit c
    → parse_digits 0 (c ∷ rest) ≡ some n
    → n < limit
    → parse_unsigned limit (c ∷ rest) ≡ some n
unfolding parse_unsigned
parse_unsigned_lem limit n c [] h e small =
    let not_plus : (c == b'+') ≡ false = ground arith in rw (not_plus, e, lt→ltb n limit small) refl
parse_unsigned_lem limit n c (d ∷ rest) h e small =
    let not_plus : (c == b'+') ≡ false = ground arith in rw (not_plus, e, lt→ltb n limit small) refl

parse_unsigned-decimal : (limit n : ℕ) → n < limit → parse_unsigned limit (decimal n) ≡ some n
parse_unsigned-decimal limit n small =
    let (c, rest, e) = decimal-Filled n in
    let digits : All IsDigit (c ∷ rest) = rw e at (decimal-IsDigit n) in
    let reads : parse_digits 0 (c ∷ rest) ≡ some n = rw e at (read_decimal n) in
    rw e (parse_unsigned_lem limit n c rest digits.0 reads small)

split_last : (t : Text) → All IsDigit t → split b'.' t ≡ t ∷ []
unfolding split
split_last [] h = refl
split_last (c ∷ rest) (d, h) =
    let no_dot : (c == b'.') ≡ false = ground arith in rw (no_dot, split_last rest h) refl

split_first :
    (t behind : Text) → All IsDigit t → split b'.' (t ++ b'.' ∷ behind) ≡ t ∷ split b'.' behind
unfolding split
split_first [] behind h = refl
split_first (c ∷ rest) behind (d, h) =
    let no_dot : (c == b'.') ≡ false = ground arith in rw (no_dot, split_first rest behind h) refl

-- The numbers in decimal, joined by ".".
abbrev pub dotted : List ℕ → Text
dotted [] = []
dotted (n ∷ []) = decimal n
dotted (n ∷ m ∷ rest) = decimal n ++ b'.' ∷ dotted (m ∷ rest)

-- A version that is printed is read back.
pub parse_version-dotted :
    (parts : List ℕ) → All (λ n. n < 2 ^ 64) parts → parse_version (dotted parts) ≡ parts
unfolding parse_version numbers
parse_version-dotted [] h = unfold split parse_unsigned in refl
parse_version-dotted (n ∷ []) (small, h) =
    rw (split_last (decimal n) (decimal-IsDigit n), parse_unsigned-decimal (2 ^ 64) n small) refl
parse_version-dotted (n ∷ m ∷ rest) (small, h) =
    rw
      (
        split_first (decimal n) (dotted (m ∷ rest)) (decimal-IsDigit n),
        parse_unsigned-decimal (2 ^ 64) n small,
      )
      (ap (◌∷◌ n) (parse_version-dotted (m ∷ rest) h))
