-- ===== src/Common/Digits.antt =====
-- Hexadecimal and decimal digits in texts: what the services' MAC helpers and Rust's `u16` parser
-- and printer do.
use Prim.Native.Nat.{ℕ, zero, suc, ◌+◌, ◌-◌, ◌*◌, ◌/◌, ◌%◌, ◌<◌, ◌≤◌}
use mathlib.Core.Path.{◌≡◌, refl, ap, ◌∙◌}
use mathlib.Core.Logic.{inl, inr}
use mathlib.Core.Bool.{true, ◌&&◌}
use mathlib.Core.Option.{Option, none, some}
use mathlib.Core.List.{List, [], ◌∷◌, map}
use native.Mathlib.Omega.{arith}
use lentropy.Common.Tests.{leb, ltb, ◌==◌, if◌then◌else◌, Bool-cases}
use lentropy.Common.Lists.{length, filter, All}
use lentropy.Common.Texts.{Text, ascii_lower, is_hexdigit}

-- "aabbcc…" as "aa:bb:cc:…".
abbrev pub colon_pairs : Text → Text
colon_pairs [] = []
colon_pairs (a ∷ []) = a ∷ []
colon_pairs (a ∷ b ∷ []) = a ∷ b ∷ []
colon_pairs (a ∷ b ∷ c ∷ rest) = a ∷ b ∷ b':' ∷ colon_pairs (c ∷ rest)

-- `chars().filter(|c| c.is_ascii_hexdigit())`.
unfoldable pub hex_digits : Text → Text
unfolding is_hexdigit
hex_digits = filter is_hexdigit

abbrev pub IsHex : ℕ → Type 0
IsHex c = is_hexdigit c ≡ true

hex_cons : (c : ℕ) (t : Text) → IsHex c → hex_digits (c ∷ t) ≡ c ∷ hex_digits t
unfolding hex_digits
hex_cons c t h = ground arith

filter-IsHex : (t : Text) → All IsHex (filter is_hexdigit t)
filter-IsHex [] = tt
filter-IsHex (c ∷ t) = elim (Bool-cases (is_hexdigit c)) [
  | inl e ↦ rw e (e, filter-IsHex t)
  | inr e ↦ rw e (filter-IsHex t)
]

pub hex_digits-IsHex : (t : Text) → All IsHex (hex_digits t)
unfolding hex_digits
hex_digits-IsHex t = filter-IsHex t

lower-IsHex : (c : ℕ) → IsHex c → IsHex (ascii_lower c)
unfolding ascii_lower is_hexdigit
lower-IsHex c h = ground arith

lower-lower : (c : ℕ) → ascii_lower (ascii_lower c) ≡ ascii_lower c
unfolding ascii_lower
lower-lower c = ground arith

pub map-lower-IsHex : (t : Text) → All IsHex t → All IsHex (map ascii_lower t)
map-lower-IsHex [] h = tt
map-lower-IsHex (c ∷ t) h = (lower-IsHex c h.0, map-lower-IsHex t h.1)

pub map-lower-lower : (t : Text) → map ascii_lower (map ascii_lower t) ≡ map ascii_lower t
map-lower-lower [] = refl
map-lower-lower (c ∷ t) = cc (lower-lower c, map-lower-lower t)

hex_colon : (t : Text) → hex_digits (b':' ∷ t) ≡ hex_digits t
unfolding hex_digits
hex_colon t = refl

-- The separators go away again.
pub hex_digits-colon_pairs : (t : Text) → All IsHex t → hex_digits (colon_pairs t) ≡ t
hex_digits-colon_pairs [] h = unfold hex_digits in refl
hex_digits-colon_pairs (a ∷ []) h = hex_cons a [] h.0 ∙ ap (◌∷◌ a) (unfold hex_digits in refl)
hex_digits-colon_pairs (a ∷ b ∷ []) h =
    hex_cons a (b ∷ []) h.0
    ∙ ap (◌∷◌ a) (hex_cons b [] h.1.0 ∙ ap (◌∷◌ b) (unfold hex_digits in refl))
hex_digits-colon_pairs (a ∷ b ∷ c ∷ rest) h =
    hex_cons a (b ∷ b':' ∷ colon_pairs (c ∷ rest)) h.0
    ∙ ap (◌∷◌ a) (
        hex_cons b (b':' ∷ colon_pairs (c ∷ rest)) h.1.0
        ∙ ap (◌∷◌ b) (hex_colon (colon_pairs (c ∷ rest)) ∙ hex_digits-colon_pairs (c ∷ rest) h.1.1))

-- `u16::to_string`: the decimal digits of a number, the last one first in the accumulator. A number
-- has fewer digits than it has fuel.
unfoldable pub decimal_loop : ℕ → ℕ → Text → Text
decimal_loop zero n acc = acc
decimal_loop (suc fuel) n acc =
    let more = decimal_loop fuel (n / 10) ((b'0' + n % 10) ∷ acc) in
    if ltb n 10 then (b'0' + n) ∷ acc else more

unfoldable pub decimal : ℕ → Text
unfolding decimal_loop
decimal n = decimal_loop (suc n) n []

unfoldable pub parse_digits : ℕ → Text → Option ℕ
parse_digits acc [] = some acc
parse_digits acc (c ∷ rest) =
    let more = parse_digits (acc * 10 + (c - b'0')) rest in
    if leb b'0' c && leb c b'9' then more else none

abbrev below_limit : ℕ → Option ℕ → Option ℕ
below_limit limit none = none
below_limit limit (some n) = if ltb n limit then some n else none

-- `u16::from_str` and `u64::from_str`: a sign `+` may stand in front, and at least one digit must.
unfoldable pub parse_unsigned : ℕ → Text → Option ℕ
unfolding parse_digits
parse_unsigned limit [] = none
parse_unsigned limit (c ∷ []) =
    if c == b'+' then none else below_limit limit (parse_digits 0 (c ∷ []))
parse_unsigned limit (c ∷ d ∷ rest) =
    below_limit limit (parse_digits 0 (if c == b'+' then d ∷ rest else c ∷ d ∷ rest))

decimal_loop-parse :
    (fuel n : ℕ) (acc : Text)
    → n < fuel
    → parse_digits 0 (decimal_loop fuel n acc) ≡ parse_digits n acc
unfolding decimal_loop parse_digits
decimal_loop-parse zero n acc h = absurd (omega arith)
decimal_loop-parse (suc fuel) n acc h = elim (Bool-cases (ltb n 10)) [
  | inl small ↦ rw small (rw (digit n small) (ap (λ (k : ℕ). parse_digits k acc) (omega arith)))
  | inr large ↦ rw large (
      decimal_loop-parse fuel (n / 10) ((b'0' + n % 10) ∷ acc) (ground arith)
      ∙ rw (digit (n % 10) (ground arith)) (ap (λ (k : ℕ). parse_digits k acc) (omega arith)))
]
  where
    digit : (d : ℕ) → ltb d 10 ≡ true → (leb b'0' (b'0' + d) && leb (b'0' + d) b'9') ≡ true
    digit d e = ground arith

-- Reading the digits of a printed number gives the number.
pub read_decimal : (n : ℕ) → parse_digits 0 (decimal n) ≡ some n
unfolding decimal
read_decimal n = decimal_loop-parse (suc n) n [] (omega arith) ∙ (unfold parse_digits in refl)

-- 10 ^ k, by multiplication.
abbrev pub power_of_ten : ℕ → ℕ
power_of_ten zero = 1
power_of_ten (suc k) = 10 * power_of_ten k

decimal_loop-length :
    (k fuel n : ℕ) (acc : Text)
    → n < power_of_ten (suc k)
    → length (decimal_loop fuel n acc) ≤ suc k + length acc
unfolding decimal_loop
decimal_loop-length k zero n acc h = omega arith
decimal_loop-length zero (suc fuel) n acc h = ground arith
decimal_loop-length (suc k) (suc fuel) n acc h =
    ground (arith, decimal_loop-length k fuel (n / 10) ((b'0' + n % 10) ∷ acc))

-- A `u16` has five digits at most.
pub decimal-length : (n : ℕ) → n < 65536 → length (decimal n) ≤ 5
unfolding decimal
decimal-length n h = omega (arith, decimal_loop-length 4 (suc n) n [])

pub parse_unsigned-lt : (limit n : ℕ) (t : Text) → parse_unsigned limit t ≡ some n → n < limit
unfolding parse_unsigned
parse_unsigned-lt limit n [] h = cc
parse_unsigned-lt limit n (c ∷ []) h = ground arith
parse_unsigned-lt limit n (c ∷ d ∷ rest) h = ground arith

-- `{:x}` and `{:X}` of a number below 16.
unfoldable pub hex_lower : ℕ → ℕ
hex_lower d = if ltb d 10 then b'0' + d else b'a' + (d - 10)

unfoldable pub hex_upper : ℕ → ℕ
hex_upper d = if ltb d 10 then b'0' + d else b'A' + (d - 10)

-- The two digits of each byte.
abbrev pub hex_pairs : (ℕ → ℕ) → List ℕ → Text
hex_pairs digit [] = []
hex_pairs digit (b ∷ rest) = digit (b / 16) ∷ digit (b % 16) ∷ hex_pairs digit rest

hex_lower-IsHex : (d : ℕ) → d < 16 → IsHex (hex_lower d)
unfolding hex_lower is_hexdigit
hex_lower-IsHex d h = ground arith

hex_lower-lower : (d : ℕ) → d < 16 → ascii_lower (hex_lower d) ≡ hex_lower d
unfolding hex_lower ascii_lower
hex_lower-lower d h = ground arith

pub hex_pairs-IsHex :
    (bytes : List ℕ) → All (λ b. b < 256) bytes → All IsHex (hex_pairs hex_lower bytes)
hex_pairs-IsHex [] h = tt
hex_pairs-IsHex (b ∷ rest) h = (
  hex_lower-IsHex (b / 16) (omega arith),
  (hex_lower-IsHex (b % 16) (omega arith), hex_pairs-IsHex rest h.1),
)

pub map-lower-hex_pairs :
    (bytes : List ℕ)
    → All (λ b. b < 256) bytes
    → map ascii_lower (hex_pairs hex_lower bytes) ≡ hex_pairs hex_lower bytes
map-lower-hex_pairs [] h = refl
map-lower-hex_pairs (b ∷ rest) h = cc (
  hex_lower-lower (b / 16) (omega arith),
  hex_lower-lower (b % 16) (omega arith),
  map-lower-hex_pairs rest h.1,
)

pub length-hex_pairs :
    (digit : ℕ → ℕ) (bytes : List ℕ) → length (hex_pairs digit bytes) ≡ 2 * length bytes
length-hex_pairs digit [] = omega arith
length-hex_pairs digit (b ∷ rest) = omega (arith, length-hex_pairs digit rest)
