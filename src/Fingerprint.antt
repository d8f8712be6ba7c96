-- ===== src/Fingerprint.antt =====
-- crates/nac-fingerprint/src: lib.rs and ttl.rs. `contains` is `str::contains`, with the part that is
-- looked for last.
pub mod Vendors
pub mod Oui
pub mod Evidence
use lentropy.Common.{
  ℕ, Bool, true, false, ◌&&◌, ◌||◌, Option, none, some, List, [], ◌∷◌, Text, codes, text_eq, String,
  str_eq, ◌==◌, leb, if◌then◌else◌, or_else, and_then,
}
use lentropy.Fingerprint.Oui.{lookup}

pub data Confidence : Type 0 where
  low medium high : Confidence

pub record Fingerprint : Type 0 where
  pub os_family : Option String
  pub os_version : Option String
  pub device_type : Option String
  pub vendor : Option String
  pub confidence : Confidence

pub record FingerprintSignals : Type 0 where
  pub oui : Option Text
  pub dhcp_prl : Option (List ℕ)
  pub user_agent : Option Text
  pub tcp_win_size : Option ℕ
  pub tcp_options : Option Text
  pub ttl : Option ℕ

unfoldable pub os_from_ttl : ℕ → Option String
os_from_ttl ttl =
    if leb 113 ttl && leb ttl 128
    then some "Windows"
    else if leb 49 ttl && leb ttl 64
    then some "Linux"
    else if leb 240 ttl && leb ttl 255
    then some "Network Equipment"
    else if ttl == 239
    then some "Unix"
    else none

abbrev pub unknown : Fingerprint
unknown = record {
  os_family = none;
  os_version = none;
  device_type = none;
  vendor = none;
  confidence = low;
}

abbrev is_network_vendor : String → Bool
is_network_vendor vendor =
    str_eq vendor "Netgear"
    || (str_eq vendor "TP-Link"
        || (str_eq vendor "D-Link" || (str_eq vendor "ASUS" || str_eq vendor "Ubiquiti")))

-- What a well-known vendor says of the device.
abbrev infer_from_vendor : String → Fingerprint → Fingerprint
infer_from_vendor vendor fp =
    if str_eq vendor "Apple"
    then record fp { os_family = or_else fp.os_family (some "iOS/macOS") }
    else if str_eq vendor "Cisco"
    then record fp { device_type = or_else fp.device_type (some "Network Equipment") }
    else if is_network_vendor vendor
    then record fp { device_type = or_else fp.device_type (some "Network Equipment") }
    else if str_eq vendor "VMware"
    then record fp { device_type = or_else fp.device_type (some "Virtual Machine") }
    else if str_eq vendor "Raspberry Pi"
    then record fp {
      device_type = or_else fp.device_type (some "IoT");
      os_family = or_else fp.os_family (some "Linux");
    }
    else fp

abbrev pub windows_prl : List ℕ
windows_prl = 1 ∷ 3 ∷ 6 ∷ 15 ∷ 31 ∷ 33 ∷ 43 ∷ 44 ∷ 46 ∷ 47 ∷ 119 ∷ 121 ∷ 249 ∷ 252 ∷ []

abbrev pub linux_prl : List ℕ
linux_prl = 1 ∷ 28 ∷ 2 ∷ 3 ∷ 15 ∷ 6 ∷ 119 ∷ 12 ∷ 44 ∷ 47 ∷ 26 ∷ 121 ∷ 42 ∷ []

abbrev with_os : String → Confidence → Fingerprint → Fingerprint
with_os os confidence fp = record fp { os_family = some os; confidence = confidence }

abbrev prl_if : List ℕ → List ℕ → String → Fingerprint → Fingerprint
prl_if expected prl os fp = if text_eq prl expected then with_os os high fp else fp

module _ (to_uppercase : Text → Text) (contains : Text → Text → Bool) where
  abbrev pub from_vendor : Option String → Fingerprint → Fingerprint
  from_vendor none fp = fp
  from_vendor (some vendor) fp =
      infer_from_vendor vendor (record fp { vendor = some vendor; confidence = medium })

  unfoldable pub from_oui : Option Text → Fingerprint → Fingerprint
  unfolding lookup
  from_oui none fp = fp
  from_oui (some oui) fp = from_vendor (lookup to_uppercase oui) fp

  unfoldable pub from_dhcp : Option (List ℕ) → Fingerprint → Fingerprint
  from_dhcp none fp = fp
  from_dhcp (some prl) fp = prl_if linux_prl prl "Linux" (prl_if windows_prl prl "Windows" fp)

  unfoldable pub from_ttl : Option ℕ → Fingerprint → Fingerprint
  unfolding os_from_ttl
  from_ttl none fp = fp
  from_ttl (some t) fp = record fp { os_family = or_else fp.os_family (os_from_ttl t) }

  abbrev mobile : String → Fingerprint → Fingerprint
  mobile os fp = record fp { os_family = some os; device_type = some "Mobile"; confidence = high }

  unfoldable pub from_user_agent : Option Text → Fingerprint → Fingerprint
  from_user_agent none fp = fp
  from_user_agent (some ua) fp =
      if contains ua (codes "Windows NT")
      then with_os "Windows" high fp
      else if contains ua (codes "iPhone") || contains ua (codes "iPad")
      then mobile "iOS" fp
      else if contains ua (codes "Android")
      then mobile "Android" fp
      else if contains ua (codes "Macintosh")
      then with_os "macOS" high fp
      else if contains ua (codes "Linux")
      then with_os "Linux" medium fp
      else fp

  unfoldable pub identify : FingerprintSignals → Fingerprint
  unfolding from_oui from_dhcp from_ttl from_user_agent
  identify signals =
      from_user_agent signals.user_agent
        (from_ttl signals.ttl (from_dhcp signals.dhcp_prl (from_oui signals.oui unknown)))
