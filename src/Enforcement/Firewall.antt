-- ===== src/Enforcement/Firewall.antt =====
-- services/enforcement/src/iptables.rs: `IptablesEnforcer` and its nft backend. The `nft` program is
-- a parameter: what it answers to a change of a set may depend on the sets and on how often it was
-- run; a change is made if it answers with success.
pub mod Changes
pub mod Sets
use lentropy.Common.{
  ℕ, ◌+◌, Bool, true, false, not, ◌&&◌, ◌||◌, Option, none, some, List, [], ◌∷◌, map, length, ◌==◌,
  codes, Text, text_eq, ascii_lower, if◌then◌else◌,
}
use lentropy.Common.Digits.{hex_digits, colon_pairs}
use lentropy.Outcome.{Outcome, ok, err, panic, timeout}
use lentropy.Enforcement.Legacy.{
  Answer, History, success, failure, not_started, LegacyError, LegacyTool, Ran, ipt_block,
  ipt_quarantine, ipt_allow,
}

pub data SetName : Type 0 where
  blocked_macs quarantined_macs blocked_ips quarantined_ips : SetName

abbrev pub set_eq : SetName → SetName → Bool
set_eq blocked_macs blocked_macs = true
set_eq quarantined_macs quarantined_macs = true
set_eq blocked_ips blocked_ips = true
set_eq quarantined_ips quarantined_ips = true
set_eq _ _ = false

-- Whether an element is in a set.
abbrev pub Members : Type 0
Members = SetName → Text → Bool

unfoldable pub update : Members → SetName → Text → Bool → Members
update members set elem b = λ s e. if set_eq s set && text_eq e elem then b else members s e

pub data Change : Type 0 where
  add delete : Change

pub data Backend : Type 0 where
  nft iptables_legacy unavailable : Backend

pub record Firewall : Type 0 where
  pub backend : Backend
  pub members : Members
  -- How often nft was run, and what iptables-legacy was.
  pub runs : ℕ
  pub legacy_runs : History

pub data FirewallError : Type 0 where
  refused : SetName → Text → Text → FirewallError
  not_run : FirewallError
  legacy_failed : LegacyError → FirewallError

abbrev pub Done : Type 0
Done = Outcome FirewallError (Unit {0}) × Firewall

pub record Tools : Type 0 where
  pub run_nft : ℕ → Change → SetName → Text → Members → Answer
  pub legacy : LegacyTool
  -- `str::to_lowercase`, and `str::contains` with its argument last.
  pub to_lowercase : Text → Text
  pub contains : Text → Text → Bool

-- What the fallback did; the sets are those of nft.
abbrev pub with_legacy : Firewall → Ran → Done
with_legacy fw (ok _, n) = (ok tt, record fw { legacy_runs = n })
with_legacy fw (err e, n) = (err (legacy_failed e), record fw { legacy_runs = n })
with_legacy fw (panic, n) = (panic, record fw { legacy_runs = n })
with_legacy fw (timeout, n) = (timeout, record fw { legacy_runs = n })

module _ (tools : Tools) where
  open tools use {run_nft, to_lowercase, contains}

  -- The messages that are ignored: "already exists", and those of a missing element.
  abbrev pub ignored : Change → Text → Bool
  ignored add stderr = contains (to_lowercase stderr) (codes "exists")
  ignored delete stderr =
      contains (to_lowercase stderr) (codes "could not")
      || contains (to_lowercase stderr) (codes "no element")

  abbrev pub is_add : Change → Bool
  is_add add = true
  is_add delete = false

  abbrev pub answered : Firewall → Change → SetName → Text → Answer → Done
  answered fw change set elem success = (
    ok tt,
    record fw { members = update fw.members set elem (is_add change); runs = fw.runs + 1 },
  )
  answered fw change set elem (failure stderr) = (
    (if ignored change stderr then ok tt else err (refused set elem stderr)),
    record fw { runs = fw.runs + 1 },
  )
  answered fw change set elem not_started = (err not_run, record fw { runs = fw.runs + 1 })

  abbrev run_change : Change → SetName → Text → Firewall → Done
  run_change change set elem fw =
      answered fw change set elem (run_nft fw.runs change set elem fw.members)

  unfoldable pub nft_add_elem : SetName → Text → Firewall → Done
  unfolding update
  nft_add_elem = run_change add

  -- Every caller drops the result by `.ok()`.
  unfoldable pub nft_del_elem : SetName → Text → Firewall → Firewall
  unfolding update
  nft_del_elem set elem fw = (run_change delete set elem fw).1

  unfoldable pub nft_mac : Text → Text
  nft_mac mac =
      let clean = hex_digits mac in
      if length clean == 12 then colon_pairs (map ascii_lower clean) else to_lowercase mac

  -- `ip.filter(|s| !s.is_empty() && *s != "0.0.0.0")`.
  abbrev pub usable : Text → Bool
  usable ip = not (text_eq ip []) && not (text_eq ip (codes "0.0.0.0"))

  abbrev move_ip : SetName → SetName → Option Text → Firewall → Firewall
  move_ip from to none fw = fw
  move_ip from to (some ip) fw =
      if usable ip then (nft_add_elem to ip (nft_del_elem from ip fw)).1 else fw

  -- Out of one set of MAC addresses into the other, and so for the IP address; a failure to add the
  -- IP address is only logged.
  abbrev added : SetName → SetName → Option Text → Done → Done
  added from to ip (ok _, fw) = (ok tt, move_ip from to ip fw)
  added from to ip (failed, fw) = (failed, fw)

  unfoldable pub block : Text → Option Text → Firewall → Done
  unfolding nft_mac
  block mac ip fw = elim fw.backend [
    | nft ↦
        let m = nft_mac mac in
        added quarantined_ips blocked_ips ip
          (nft_add_elem blocked_macs m (nft_del_elem quarantined_macs m fw))
    | iptables_legacy ↦ with_legacy fw (ipt_block tools.legacy mac fw.legacy_runs)
    | unavailable ↦ (ok tt, fw)
  ]

  unfoldable pub quarantine : Text → Option Text → Firewall → Done
  unfolding nft_mac
  quarantine mac ip fw = elim fw.backend [
    | nft ↦
        let m = nft_mac mac in
        added blocked_ips quarantined_ips ip
          (nft_add_elem quarantined_macs m (nft_del_elem blocked_macs m fw))
    | iptables_legacy ↦ with_legacy fw (ipt_quarantine tools.legacy mac fw.legacy_runs)
    | unavailable ↦ (ok tt, fw)
  ]

  unfoldable pub remove_ip : Text → Firewall → Firewall
  remove_ip ip fw = elim fw.backend [
    | nft ↦ nft_del_elem quarantined_ips ip (nft_del_elem blocked_ips ip fw)
    | _ ↦ fw
  ]

  abbrev clear_ip : Option Text → Firewall → Firewall
  clear_ip none fw = fw
  clear_ip (some ip) fw =
      if usable ip then nft_del_elem quarantined_ips ip (nft_del_elem blocked_ips ip fw) else fw

  unfoldable pub allow : Text → Option Text → Firewall → Done
  unfolding nft_mac
  allow mac ip fw = elim fw.backend [
    | nft ↦
        let m = nft_mac mac in
        (ok tt, clear_ip ip (nft_del_elem quarantined_macs m (nft_del_elem blocked_macs m fw)))
    | iptables_legacy ↦ with_legacy fw (ipt_allow tools.legacy mac fw.legacy_runs)
    | unavailable ↦ (ok tt, fw)
  ]
