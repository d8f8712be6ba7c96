-- ===== src/Tests/Firewalls.antt =====
-- The firewall and the commands of services/enforcement.
use native.Mathlib.Omega.{arith}
use lentropy.Common.{
  ℕ, ◌<◌, ◌≡◌, refl, ◌⊎◌, inl, inr, Bool, true, false, List, [], ◌∷◌, some, none, Option, Text,
  codes, String,
}
use lentropy.Common.Net.{before}
use lentropy.Outcome.{ok}
use lentropy.Enforcement.Legacy.{Answer, success, History, LegacyTool, failure, ipt_mac, ipt_allow}
use lentropy.Enforcement.Legacy.Loops.{deletion, Chains, NoRules, ipt_allow-clears}
use lentropy.Enforcement.Firewall.{
  blocked_macs, quarantined_macs, blocked_ips, quarantined_ips, nft, Firewall, Tools, nft_mac,
  nft_add_elem, nft_del_elem, block,
}
use lentropy.Enforcement.Firewall.Changes.{SaysExists, Deletes}
use lentropy.Enforcement.Spoofer.Poison.{always}
use lentropy.Enforcement.Consumer.{
  EnforcementCommand, World, Host, get, key, is_allow_action, map_action, handle, execute_command,
  spoof_command,
}
use lentropy.Enforcement.Consumer.Effects.{set_of, other_set, handle-enforces, handle-allows}

-- A chain without rules.
abbrev pub legacy : LegacyTool
legacy = record { run = λ n args. failure []; rules_limit = 1; to_uppercase = λ t. t }

-- One rule, which the first deletion takes.
abbrev answers_once : History → List Text → Answer
answers_once [] args = success
answers_once (earlier ∷ rest) args = failure []

abbrev one_rule : LegacyTool
one_rule = record { run = answers_once; rules_limit = 2; to_uppercase = λ t. t }

abbrev rule_count : History → Text → List Text → ℕ
rule_count [] chain rule = 1
rule_count (earlier ∷ rest) chain rule = 0

one_rule-Chains : Chains one_rule rule_count
one_rule-Chains = record {
  takes_one = taken;
  fails_on_none = λ h chain rule fails. refl;
  adds_none = λ h chain other rule another. omega arith;
  short = few;
}
  where
    taken :
        (h : History) (chain : Text) (rule : List Text)
        → answers_once h (deletion chain rule) ≡ success
        → 0 < rule_count h chain rule
    taken [] chain rule e = omega arith
    taken (earlier ∷ rest) chain rule e = absurd cc

    few : (h : History) (chain : Text) (rule : List Text) → rule_count h chain rule < 2
    few [] chain rule = omega arith
    few (earlier ∷ rest) chain rule = omega arith

ipt_allow-clears_example :
    ((ipt_allow one_rule (codes "02:00:00:00:00:09") []).0 ≡ ok tt)
    × NoRules one_rule rule_count one_rule-Chains
        (ipt_mac one_rule (codes "02:00:00:00:00:09"))
        (ipt_allow one_rule (codes "02:00:00:00:00:09") []).1
ipt_allow-clears_example =
    ipt_allow-clears one_rule rule_count one_rule-Chains (codes "02:00:00:00:00:09") []

-- A tool that makes every change.
abbrev pub tools : Tools
tools = record {
  run_nft = λ n change set elem members. success;
  legacy = legacy;
  to_lowercase = λ t. t;
  contains = λ s t. false;
}

pub tools-SaysExists : SaysExists tools
unfolding SaysExists
tools-SaysExists n set elem members stderr e h = absurd cc

pub tools-Deletes : Deletes tools
unfolding Deletes
tools-Deletes n set elem members = inl refl

abbrev pub firewall : Firewall
firewall = record { backend = nft; members = λ set elem. false; runs = 0; legacy_runs = [] }

abbrev mac : Text
mac = codes "02:00:00:00:00:09"

abbrev ip : Text
ip = codes "192.168.0.24"

abbrev pub host : Host
host = record { tools = tools; takes = always; proc_route = none; proc_arp = none }

abbrev pub world : World
world = record { firewall = firewall; spoofer = none; state = [] }

abbrev command : String → EnforcementCommand
command action = record {
  mac_address = mac;
  ip_address = codes "192.168.0.24/32";
  action = action;
  gateway_ip = [];
  gateway_mac = none;
  vlan_id = none;
}

handle-enforces_example :
    let members = (handle host (command "denied") world).1.firewall.members in
    (members (set_of host (map_action "denied")) (nft_mac tools mac) ≡ true)
    × (members (other_set host (map_action "denied")) (nft_mac tools mac) ≡ false)
unfolding handle is_allow_action execute_command map_action block nft_add_elem nft_del_elem
    spoof_command lentropy.Common.text_eq before get lentropy.Common.Net.parse_ipv4
    lentropy.Common.Digits.parse_unsigned lentropy.Common.Digits.hex_digits
    lentropy.Enforcement.Proc.detect_default_gateway
handle-enforces_example =
    handle-enforces host tools-SaysExists tools-Deletes (command "denied") world refl refl refl

handle-allows_example :
    let after = (handle host (command "allowed") world).1 in
    let members = after.firewall.members in
    (get (key host (command "allowed")) after.state ≡ none)
    × (members blocked_macs (nft_mac tools mac) ≡ false)
    × (members quarantined_macs (nft_mac tools mac) ≡ false)
    × (members blocked_ips (before b'/' (codes "192.168.0.24/32")) ≡ false)
    × (members quarantined_ips (before b'/' (codes "192.168.0.24/32")) ≡ false)
unfolding is_allow_action before lentropy.Common.text_eq
handle-allows_example = handle-allows host tools-Deletes (command "allowed") world refl refl refl
