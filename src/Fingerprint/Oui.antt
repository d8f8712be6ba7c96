-- ===== src/Fingerprint/Oui.antt =====
-- crates/nac-fingerprint/src/oui.rs: the look-up of a vendor. The static map is built from the
-- entries in their order, so that the last of two entries for one key stays.
use lentropy.Common.{
  Option, none, some, List, [], ◌∷◌, ◌++◌, map, Text, codes, text_eq, String, or_else,
  if◌then◌else◌,
}
use lentropy.Fingerprint.Vendors.{
  apple, samsung, cisco, dell, hp, lenovo, intel, microsoft, google, amazon, netgear, tp_link, asus,
  vmware, broadcom, huawei, sony, lg, xiaomi, oneplus, d_link, raspberry_pi, ubiquiti,
}

abbrev of : String → List String → List (String × String)
of vendor keys = map (λ k. (k, vendor)) keys

abbrev pub entries : List (String × String)
entries =
    of "Apple" apple
    ++ of "Samsung" samsung
    ++ of "Cisco" cisco
    ++ of "Dell" dell
    ++ of "HP" hp
    ++ of "Lenovo" lenovo
    ++ of "Intel" intel
    ++ of "Microsoft" microsoft
    ++ of "Google" google
    ++ of "Amazon" amazon
    ++ of "Netgear" netgear
    ++ of "TP-Link" tp_link
    ++ of "ASUS" asus
    ++ of "VMware" vmware
    ++ of "Broadcom" broadcom
    ++ of "Huawei" huawei
    ++ of "Sony" sony
    ++ of "LG" lg
    ++ of "Xiaomi" xiaomi
    ++ of "OnePlus" oneplus
    ++ of "D-Link" d_link
    ++ of "Raspberry Pi" raspberry_pi
    ++ of "Ubiquiti" ubiquiti

unfoldable pub last_of : Text → List (String × String) → Option String
last_of key [] = none
last_of key ((k, vendor) ∷ rest) =
    or_else (last_of key rest) (if text_eq (codes k) key then some vendor else none)

module _ (to_uppercase : Text → Text) where
  unfoldable pub lookup : Text → Option String
  unfolding last_of
  lookup oui_hex = last_of (to_uppercase oui_hex) entries
