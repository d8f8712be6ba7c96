-- ===== src/Enforcement/Proc.antt =====
-- services/enforcement/src/consumer.rs and arp_spoof.rs: what is read out of /proc/net/route and
-- /proc/net/arp. The content of a file is a parameter, `none` if it cannot be read; these files are
-- ASCII, so that white space is that of ASCII, which also takes the place of what `str::lines` does
-- with a carriage return.
use lentropy.Common.{
  ℕ, ◌+◌, ◌*◌, ◌/◌, ◌%◌, ◌^◌, Bool, not, ◌&&◌, ◌||◌, Option, none, some, List, [], ◌∷◌, ◌++◌, ltb,
  leb, ◌==◌, codes, Text, text_eq, is_hexdigit, and_then, if◌then◌else◌,
}
use lentropy.Common.Net.{split, hex_value, ipv4_text}
use lentropy.Outcome.{Mac, Ipv4}

-- `str::lines`: no empty line behind a line feed at the end.
drop_last_empty : List Text → List Text
drop_last_empty [] = []
drop_last_empty ([] ∷ []) = []
drop_last_empty (l ∷ ls) = l ∷ drop_last_empty ls

unfoldable pub lines : Text → List Text
unfolding drop_last_empty
lines t = drop_last_empty (split 10 t)

abbrev pub skip_one {ℓ} : {A : Type ℓ} → List A → List A
skip_one [] = []
skip_one (x ∷ xs) = xs

abbrev is_space : ℕ → Bool
is_space c = (leb 9 c && leb c 13) || (c == 32)

abbrev push : Text → List Text → List Text
push [] words = words
push (c ∷ cs) words = (c ∷ cs) ∷ words

abbrev onto : ℕ → Text × List Text → Text × List Text
onto c (word, words) = if is_space c then ([], push word words) else (c ∷ word, words)

-- The word that the text begins with, and the words behind it.
unfoldable pub words_from : Text → Text × List Text
words_from [] = ([], [])
words_from (c ∷ cs) = onto c (words_from cs)

unfoldable pub split_whitespace : Text → List Text
unfolding words_from
split_whitespace t = let (word, words) = words_from t in push word words

-- `from_str_radix(s, 16)` of an unsigned type below `limit`.
unfoldable pub hex_digits_from : ℕ → ℕ → Text → Option ℕ
hex_digits_from limit acc [] = some acc
hex_digits_from limit acc (c ∷ cs) =
    let next = acc * 16 + hex_value c in
    let rest = hex_digits_from limit next cs in
    if is_hexdigit c && ltb next limit then rest else none

unfoldable pub from_hex : ℕ → Text → Option ℕ
unfolding hex_digits_from
from_hex limit [] = none
from_hex limit (c ∷ []) = if c == b'+' then none else hex_digits_from limit 0 (c ∷ [])
from_hex limit (c ∷ d ∷ cs) =
    if c == b'+' then hex_digits_from limit 0 (d ∷ cs) else hex_digits_from limit 0 (c ∷ d ∷ cs)

-- `u32::to_le_bytes`.
abbrev pub le_bytes : ℕ → Ipv4
le_bytes n = (n % 256, n / 256 % 256, n / 65536 % 256, n / 16777216 % 256)

-- A line's gateway, if it is the default route.
abbrev gateway_if : Option ℕ → Text → Option Ipv4
gateway_if none gw_hex = none
gateway_if (some dest) gw_hex =
    if dest == 0 then and_then (from_hex (2 ^ 32) gw_hex) (λ gw. some (le_bytes gw)) else none

abbrev route_line : List Text → Option Ipv4
route_line (iface ∷ dest ∷ gw ∷ rest) = gateway_if (from_hex (2 ^ 32) dest) gw
route_line _ = none

-- The first line that gives a result.
abbrev pub first_of {ℓ} : {A : Type ℓ} → (List Text → Option A) → List Text → Option A
first_of f [] = none
first_of f (l ∷ ls) = elim (f (split_whitespace l)) [ some a ↦ some a | none ↦ first_of f ls ]

unfoldable pub detect_default_gateway : Option Text → Option Ipv4
unfolding from_hex
detect_default_gateway none = none
detect_default_gateway (some content) = first_of route_line (skip_one (lines content))

abbrev filter_some : List (Option ℕ) → List ℕ
filter_some [] = []
filter_some (none ∷ os) = filter_some os
filter_some (some a ∷ os) = a ∷ filter_some os

abbrev bytes_of : List Text → List ℕ
bytes_of [] = []
bytes_of (h ∷ hs) = filter_some (from_hex 256 h ∷ []) ++ bytes_of hs

abbrev six : List ℕ → Option Mac
six (a ∷ b ∷ c ∷ d ∷ e ∷ f ∷ []) = some (a, b, c, d, e, f)
six _ = none

abbrev arp_line : Text → List Text → Option Mac
arp_line ip_str (ip ∷ hw_type ∷ flags ∷ mac ∷ rest) =
    if text_eq ip ip_str && not (text_eq mac (codes "00:00:00:00:00:00"))
    then six (bytes_of (split b':' mac))
    else none
arp_line ip_str _ = none

-- `arp_mac_lookup` and `get_arp_mac`, which are the same.
unfoldable pub get_arp_mac : Option Text → Ipv4 → Option Mac
unfolding from_hex
get_arp_mac none ip = none
get_arp_mac (some content) ip = first_of (arp_line (ipv4_text ip)) (skip_one (lines content))
