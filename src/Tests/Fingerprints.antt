-- ===== src/Tests/Fingerprints.antt =====
-- The identification of crates/nac-fingerprint.
use lentropy.Common.{
  ◌≡◌, refl, Bool, true, false, some, none, Text, codes, or_else, and_then, text_eq,
}
use lentropy.Fingerprint.{FingerprintSignals, os_from_ttl, linux_prl, identify}
use lentropy.Fingerprint.Oui.{lookup, last_of}
use lentropy.Fingerprint.Evidence.{agent_os, prl_os, vendor_os, is_oui, identify-os, lookup-key}

abbrev signals : FingerprintSignals
signals = record {
  oui = some (codes "000393");
  dhcp_prl = some linux_prl;
  user_agent = some (codes "Mozilla/5.0 (Windows NT 10.0)");
  tcp_win_size = none;
  tcp_options = none;
  ttl = some 60;
}

abbrev same_text : Text → Text
same_text t = t

abbrev starts_nowhere : Text → Text → Bool
starts_nowhere s t = false

identify-os_example :
    (identify same_text starts_nowhere signals).os_family
    ≡ or_else (agent_os same_text starts_nowhere signals.user_agent) (
        or_else (prl_os same_text starts_nowhere signals.dhcp_prl) (
          or_else
            (vendor_os same_text starts_nowhere (and_then signals.oui (lookup same_text)))
            (and_then signals.ttl os_from_ttl)))
identify-os_example = identify-os same_text starts_nowhere signals

lookup-key_example : is_oui (codes "000393") ≡ true
unfolding lookup last_of text_eq
lookup-key_example = lookup-key same_text (codes "000393") "Apple" refl
