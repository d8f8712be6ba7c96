-- ===== src/PolicyManager/ArpTable.antt =====
-- services/policy-manager/src/background.rs: the readers of the ARP table and of the routes, and the
-- maps that they fill; and the statement that writes an address.
use lentropy.Common.{
  ℕ, ◌^◌, Bool, true, false, not, ◌&&◌, ◌||◌, Option, none, some, List, [], ◌∷◌, codes, Text,
  text_eq, ◌==◌, ltb, if◌then◌else◌, any, map, unwrap_or,
}
use lentropy.Common.Net.{ipv4_text}
use lentropy.Outcome.{ok, ◌>>=◌}
use lentropy.Store.Database.{Platform, Db, statement, update_where, cast}
use lentropy.Store.Endpoints.{has_mac}
use lentropy.Enforcement.Proc.{lines, skip_one, split_whitespace, from_hex, le_bytes}

-- `HashMap<String, A>`.
abbrev pub Dict : Type 0 → Type 0
Dict A = List (Text × A)

module _ {A : Type 0} where
  unfoldable pub lookup : Text → Dict A → Option A
  lookup key [] = none
  lookup key ((k, a) ∷ rest) = if text_eq k key then some a else lookup key rest

  unfoldable pub without : Text → Dict A → Dict A
  without key [] = []
  without key ((k, a) ∷ rest) =
      let others = without key rest in if text_eq k key then others else (k, a) ∷ others

  abbrev pub insert : Text → A → Dict A → Dict A
  insert key a entries = (key, a) ∷ without key entries

  -- `into_iter().collect()`: of two values for a key, the last one stays.
  unfoldable pub collect_into : Dict A → Dict A → Dict A
  unfolding without
  collect_into entries [] = entries
  collect_into entries ((key, a) ∷ rest) = collect_into (insert key a entries) rest

-- `str::starts_with`.
unfoldable pub starts_with : Text → Text → Bool
starts_with [] t = true
starts_with (c ∷ cs) [] = false
starts_with (c ∷ cs) (d ∷ ds) = (c == d) && starts_with cs ds

-- `trim_start_matches("0x")`.
unfoldable pub trim_0x : Text → Text
trim_0x (c ∷ d ∷ rest) =
    let shorter = trim_0x rest in if (c == b'0') && (d == b'x') then shorter else c ∷ d ∷ rest
trim_0x t = t

unfoldable pub flags_of : Text → ℕ
unfolding trim_0x
flags_of t = unwrap_or (from_hex 256 (trim_0x t)) 0

-- The addresses of Docker, of this machine and of links.
unfoldable pub is_local : Text → Bool
unfolding starts_with
is_local ip =
    starts_with (codes "172.") ip
    || (starts_with (codes "127.") ip || starts_with (codes "169.254.") ip)

-- `entry(mac).or_insert((ip, flags))`, replaced if the flags are greater.
unfoldable pub enter : Text → Text → ℕ → Dict (Text × ℕ) → Dict (Text × ℕ)
unfolding lookup without
enter mac ip flags raw = elim (lookup mac raw) [
  | none ↦ insert mac (ip, flags) raw
  | some (old, old_flags) ↦ if ltb old_flags flags then insert mac (ip, flags) raw else raw
]

module _ (to_lowercase : Text → Text) where
  abbrev arp_line : List Text → Dict (Text × ℕ) → Dict (Text × ℕ)
  arp_line (ip ∷ kind ∷ flags ∷ address ∷ rest) raw =
      let mac = to_lowercase address in
      if text_eq mac (codes "00:00:00:00:00:00") || (flags_of flags == 0)
      then raw
      else if is_local ip
      then raw
      else enter mac ip (flags_of flags) raw
  arp_line parts raw = raw

  unfoldable pub arp_lines : List Text → Dict (Text × ℕ) → Dict (Text × ℕ)
  unfolding enter flags_of is_local
  arp_lines [] raw = raw
  arp_lines (l ∷ ls) raw = arp_lines ls (arp_line (split_whitespace l) raw)

  unfoldable pub parse_arp_table : Text → Dict Text
  unfolding arp_lines
  parse_arp_table content = map (λ e. (e.0, e.1.0)) (arp_lines (skip_one (lines content)) [])

abbrev gateway_of : Option ℕ → Option ℕ → List Text → List Text
gateway_of (some dest) (some gw) rest =
    if (dest == 0) && not (gw == 0) then ipv4_text (le_bytes gw) ∷ rest else rest
gateway_of dest gw rest = rest

abbrev gateway_line : List Text → List Text → List Text
gateway_line (iface ∷ dest ∷ gw ∷ more) rest =
    gateway_of (from_hex (2 ^ 32) dest) (from_hex (2 ^ 32) gw) rest
gateway_line parts rest = rest

unfoldable pub gateway_lines : List Text → List Text
gateway_lines [] = []
gateway_lines (l ∷ ls) = gateway_line (split_whitespace l) (gateway_lines ls)

unfoldable pub detect_default_gateways : Option Text → List Text
unfolding gateway_lines
detect_default_gateways none = []
detect_default_gateways (some content) = gateway_lines (skip_one (lines content))

unfoldable pub contains_key : Text → List Text → Bool
contains_key t l = any (λ s. text_eq s t) l

-- `UPDATE endpoints SET ip_address = $1::inet, last_seen = NOW() WHERE mac_address = $2::macaddr`.
module _ {Json : Type 0} (platform : Platform Json) where
  open platform use {now, macaddr, inet}

  unfoldable pub update_ip : Text → Text → Db Json (Unit {0})
  update_ip mac ip = statement platform λ n tables. cast inet ip >>= λ i. cast macaddr mac >>= λ m.
      ok (
        tt,
        record tables {
          endpoints =
              update_where (has_mac m) (λ r. record r { ip_address = some i; last_seen = now n })
                tables.endpoints;
        },
      )
