-- ===== src/Common/Net.antt =====
-- IPv4 addresses as text, the way that `Ipv4Addr::from_str` and `Ipv4Addr::to_string` go, and the
-- part of a text before a character.
use Prim.Native.Nat.{ℕ, ◌+◌, ◌-◌}
use mathlib.Core.Bool.{◌||◌}
use mathlib.Core.Option.{Option, none, some}
use mathlib.Core.List.{List, [], ◌∷◌, ◌++◌}
use lentropy.Common.Tests.{leb, ◌==◌, if◌then◌else◌}
use lentropy.Common.Texts.{Text}
use lentropy.Common.Digits.{decimal, parse_unsigned}

-- `s.split(c).next().unwrap_or("")`.
unfoldable pub before : ℕ → Text → Text
before c [] = []
before c (x ∷ rest) = if x == c then [] else x ∷ before c rest

-- `s.split(c)`: never empty.
split_onto : ℕ → List Text → List Text
split_onto x [] = (x ∷ []) ∷ []
split_onto x (part ∷ parts) = (x ∷ part) ∷ parts

unfoldable pub split : ℕ → Text → List Text
unfolding split_onto
split c [] = [] ∷ []
split c (x ∷ rest) = let parts = split c rest in if x == c then [] ∷ parts else split_onto x parts

-- A decimal octet: one to three digits, and no zero in front of another digit.
unfoldable pub parse_octet : Text → Option ℕ
parse_octet [] = none
parse_octet (a ∷ []) = if a == b'+' then none else parse_unsigned 256 (a ∷ [])
parse_octet (a ∷ b ∷ []) = if a == b'0' || a == b'+' then none else parse_unsigned 256 (a ∷ b ∷ [])
parse_octet (a ∷ b ∷ c ∷ []) =
    if a == b'0' || a == b'+' then none else parse_unsigned 256 (a ∷ b ∷ c ∷ [])
parse_octet _ = none

four_octets : Option ℕ → Option ℕ → Option ℕ → Option ℕ → Option (ℕ × ℕ × ℕ × ℕ)
four_octets (some a) (some b) (some c) (some d) = some (a, b, c, d)
four_octets _ _ _ _ = none

four_parts : List Text → Option (ℕ × ℕ × ℕ × ℕ)
unfolding four_octets parse_octet
four_parts (a ∷ b ∷ c ∷ d ∷ []) =
    four_octets (parse_octet a) (parse_octet b) (parse_octet c) (parse_octet d)
four_parts _ = none

unfoldable pub parse_ipv4 : Text → Option (ℕ × ℕ × ℕ × ℕ)
unfolding four_parts split
parse_ipv4 t = four_parts (split b'.' t)

unfoldable pub ipv4_text : ℕ × ℕ × ℕ × ℕ → Text
ipv4_text (a, b, c, d) =
    decimal a ++ (b'.' ∷ (decimal b ++ (b'.' ∷ (decimal c ++ (b'.' ∷ decimal d)))))

-- The value of a hexadecimal digit.
unfoldable pub hex_value : ℕ → ℕ
hex_value c = if leb c b'9' then c - b'0' else if leb c b'F' then c - b'A' + 10 else c - b'a' + 10
