-- ===== src/Fingerprint/Evidence.antt =====
-- What crates/nac-fingerprint goes by, and the vendors' keys.
use native.Mathlib.Omega.{arith}
use lentropy.Common.{
  ℕ, Bool, true, ◌&&◌, ◌||◌, Option, none, some, List, [], ◌∷◌, Text, codes, text_eq, text_eq_iff,
  String, str_eq, ◌==◌, leb, length, all, if◌then◌else◌, if_lem, or_else, and_then, ◌≡◌, refl, ap,
  sym, ◌∙◌, &&_split, Bool-cases, Option-cases, inl, inr, eq_iff,
}
use lentropy.Fingerprint.Oui.{lookup, last_of, entries}
use lentropy.Fingerprint.{
  Fingerprint, FingerprintSignals, os_from_ttl, unknown, windows_prl, linux_prl, from_vendor,
  from_oui, from_dhcp, from_ttl, from_user_agent, identify,
}

-- Six digits of a hexadecimal number, in upper case.
abbrev is_upper_hex : ℕ → Bool
is_upper_hex c = (leb 48 c && leb c 57) || (leb 65 c && leb c 70)

abbrev pub is_oui : Text → Bool
is_oui t = (length t == 6) && all is_upper_hex t

last_of-key :
    (p : Text → Bool) (key : Text) (rows : List (String × String)) (v : String)
    → all (λ e. p (codes e.0)) rows ≡ true
    → last_of key rows ≡ some v
    → p key ≡ true
unfolding last_of
last_of-key p key [] v good e = absurd cc
last_of-key p key ((k, vendor) ∷ rest) v good e =
    let (first, others) = &&_split (p (codes k)) (all (λ e. p (codes e.0)) rest) good in
    elim (Option-cases (last_of key rest)) [
      | inr (w, found) ↦ last_of-key p key rest w others found
      | inl none_left ↦
          if_lem (λ o. o ≡ some v → p key ≡ true) (text_eq (codes k) key) (some vendor) none
            (λ b e. let same = (text_eq_iff (codes k) key).0 b in rw (sym same) first)
            (λ b e. absurd cc) (rw (none_left) at e)
    ]

-- Only six digits of a hexadecimal number have a vendor, after the change to upper case.
pub lookup-key :
    (to_uppercase : Text → Text) (oui : Text) (v : String)
    → lookup to_uppercase oui ≡ some v
    → is_oui (to_uppercase oui) ≡ true
unfolding lookup
lookup-key to_uppercase oui v e = last_of-key is_oui (to_uppercase oui) entries v refl e

or_else-none : (o : Option String) → or_else o none ≡ o
or_else-none none = refl
or_else-none (some v) = refl

or_else_assoc : (a b c : Option String) → or_else (or_else a b) c ≡ or_else a (or_else b c)
or_else_assoc none b c = refl
or_else_assoc (some v) b c = refl

module _ (to_uppercase : Text → Text) (contains : Text → Text → Bool) where
  -- What each kind of evidence says of the operating system.
  abbrev pub agent_os : Option Text → Option String
  agent_os none = none
  agent_os (some ua) =
      if contains ua (codes "Windows NT")
      then some "Windows"
      else if contains ua (codes "iPhone") || contains ua (codes "iPad")
      then some "iOS"
      else if contains ua (codes "Android")
      then some "Android"
      else if contains ua (codes "Macintosh")
      then some "macOS"
      else if contains ua (codes "Linux")
      then some "Linux"
      else none

  abbrev pub prl_os : Option (List ℕ) → Option String
  prl_os none = none
  prl_os (some prl) =
      if text_eq prl linux_prl
      then some "Linux"
      else if text_eq prl windows_prl
      then some "Windows"
      else none

  abbrev pub vendor_os : Option String → Option String
  vendor_os none = none
  vendor_os (some vendor) =
      if str_eq vendor "Apple"
      then some "iOS/macOS"
      else if str_eq vendor "Raspberry Pi"
      then some "Linux"
      else none

  from_user_agent-os :
      (ua : Option Text) (fp : Fingerprint)
      → (from_user_agent to_uppercase contains ua fp).os_family ≡ or_else (agent_os ua) fp.os_family
  unfolding from_user_agent
  from_user_agent-os none fp = refl
  from_user_agent-os (some ua) fp = ground arith

  from_dhcp-os :
      (prl : Option (List ℕ)) (fp : Fingerprint)
      → (from_dhcp to_uppercase contains prl fp).os_family ≡ or_else (prl_os prl) fp.os_family
  unfolding from_dhcp
  from_dhcp-os none fp = refl
  from_dhcp-os (some prl) fp = ground arith

  from_vendor-os :
      (v : Option String) → (from_vendor to_uppercase contains v unknown).os_family ≡ vendor_os v
  from_vendor-os none = refl
  from_vendor-os (some v) = elim (Bool-cases (str_eq v "Raspberry Pi")) [
    | inl b ↦ let same : v ≡ "Raspberry Pi" = (eq_iff v "Raspberry Pi").0 b in rw (same) refl
    | inr b ↦ ground arith
  ]

  from_oui-os :
      (oui : Option Text)
      → (from_oui to_uppercase contains oui unknown).os_family
        ≡ vendor_os (and_then oui (lookup to_uppercase))
  unfolding from_oui
  from_oui-os none = refl
  from_oui-os (some oui) = from_vendor-os (lookup to_uppercase oui)

  from_ttl-os :
      (ttl : Option ℕ) (fp : Fingerprint)
      → (from_ttl to_uppercase contains ttl fp).os_family
        ≡ or_else fp.os_family (and_then ttl os_from_ttl)
  unfolding from_ttl
  from_ttl-os none fp = sym (or_else-none fp.os_family)
  from_ttl-os (some t) fp = refl

  -- The operating system is what the user agent says, else what the DHCP request says, else what the
  -- vendor says, else what the TTL says.
  pub identify-os :
      (s : FingerprintSignals)
      → (identify to_uppercase contains s).os_family
        ≡ or_else (agent_os s.user_agent) (
            or_else (prl_os s.dhcp_prl) (
              or_else
                (vendor_os (and_then s.oui (lookup to_uppercase)))
                (and_then s.ttl os_from_ttl)))
  unfolding identify
  identify-os s =
      from_user_agent-os s.user_agent _
      ∙ ap (or_else (agent_os s.user_agent)) (
          from_ttl-os s.ttl _
          ∙ ap (λ o. or_else o (and_then s.ttl os_from_ttl))
              (from_dhcp-os s.dhcp_prl _ ∙ ap (or_else (prl_os s.dhcp_prl)) (from_oui-os s.oui))
          ∙ or_else_assoc (prl_os s.dhcp_prl) _ _)
