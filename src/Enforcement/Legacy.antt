-- ===== src/Enforcement/Legacy.antt =====
-- services/enforcement/src/iptables.rs: the fallback with `iptables-legacy`. What the program answers
-- to its arguments is a parameter, which may depend on the arguments of its earlier runs.
pub mod Loops
use lentropy.Common.{
  ℕ, zero, suc, ◌+◌, Bool, true, false, not, List, [], ◌∷◌, ◌++◌, map, length, ◌==◌, codes, Text,
  ascii_upper, if◌then◌else◌,
}
use lentropy.Common.Digits.{hex_digits, colon_pairs}
use lentropy.Outcome.{Outcome, ok, err, panic, timeout}

-- What a run of a program ends in.
pub data Answer : Type 0 where
  success : Answer
  -- The exit status is not zero; what it wrote to stderr.
  failure : Text → Answer
  -- `Command::output` fails.
  not_started : Answer

pub data LegacyError : Type 0 where
  bail : List Text → Text → LegacyError
  not_run : LegacyError

-- The arguments of the earlier runs, the last one first.
abbrev pub History : Type 0
History = List (List Text)

abbrev pub Ran : Type 0
Ran = Outcome LegacyError (Unit {0}) × History

pub record LegacyTool : Type 0 where
  pub run : History → List Text → Answer
  -- The fuel of the loops that delete a rule as long as there is one.
  pub rules_limit : ℕ
  -- `str::to_uppercase`.
  pub to_uppercase : Text → Text

abbrev pub mac_args : Text → List Text
mac_args mac = codes "-m" ∷ codes "mac" ∷ codes "--mac-source" ∷ mac ∷ []

abbrev pub drop_args : Text → List Text
drop_args mac = mac_args mac ++ (codes "-j" ∷ codes "DROP" ∷ [])

abbrev pub return_args : Text → Text → Text → List Text
return_args mac proto port =
    mac_args mac ++ (codes "-p" ∷ proto ∷ codes "--dport" ∷ port ∷ codes "-j" ∷ codes "RETURN" ∷ [])

abbrev pub dns_args : Text → List Text
dns_args mac = return_args mac (codes "udp") (codes "53")

abbrev pub portal_args : Text → List Text
portal_args mac = return_args mac (codes "tcp") (codes "8080")

abbrev pub chain_block : Text
chain_block = codes "NAC_BLOCK"

abbrev pub chain_quarantine : Text
chain_quarantine = codes "NAC_QUARANTINE"

-- `?` between two steps.
abbrev pub and_run : Ran → (History → Ran) → Ran
and_run (ok _, n) next = next n
and_run (err e, n) next = (err e, n)
and_run (panic, n) next = (panic, n)
and_run (timeout, n) next = (timeout, n)

module _ (tool : LegacyTool) where
  abbrev pub result_of : List Text → Answer → Outcome LegacyError (Unit {0})
  result_of args success = ok tt
  result_of args (failure stderr) = err (bail args stderr)
  result_of args not_started = err not_run

  unfoldable pub run_ipt : List Text → History → Ran
  run_ipt args n = (result_of args (tool.run n args), args ∷ n)

  abbrev is_success : Answer → Bool
  is_success success = true
  is_success _ = false

  unfoldable pub ipt_rule_exists : Text → List Text → History → Bool
  ipt_rule_exists chain rule n = is_success (tool.run n (codes "-C" ∷ chain ∷ rule))

  unfoldable pub ipt_mac : Text → Text
  ipt_mac mac =
      let clean = hex_digits mac in
      if length clean == 12 then colon_pairs (map ascii_upper clean) else tool.to_uppercase mac

  -- `while run_ipt(args).is_ok() {}`
  abbrev pub delete_rest : (History → Ran) → Ran → Ran
  delete_rest rest (ok _, n) = rest n
  delete_rest rest (err e, n) = (ok tt, n)
  delete_rest rest (panic, n) = (panic, n)
  delete_rest rest (timeout, n) = (timeout, n)

  unfoldable pub delete_loop : ℕ → List Text → History → Ran
  unfolding run_ipt
  delete_loop zero args n = (timeout, n)
  delete_loop (suc fuel) args n = delete_rest (delete_loop fuel args) (run_ipt args n)

  abbrev pub delete_all : Text → List Text → History → Ran
  delete_all chain rule = delete_loop tool.rules_limit (codes "-D" ∷ chain ∷ rule)

  unfoldable pub ipt_remove_block : Text → History → Ran
  unfolding delete_loop
  ipt_remove_block mac = delete_all chain_block (drop_args mac)

  unfoldable pub ipt_remove_quarantine : Text → History → Ran
  unfolding delete_loop
  ipt_remove_quarantine mac n = and_run (delete_all chain_quarantine (dns_args mac) n) λ n'.
      and_run (delete_all chain_quarantine (portal_args mac) n')
        λ n''. delete_all chain_quarantine (drop_args mac) n''

  -- The rule is looked for, which is a run too, and set up if it is not there.
  abbrev pub unless_exists : Text → Text → (History → Ran) → History → Ran
  unless_exists chain mac set_up n =
      let asked = (codes "-C" ∷ chain ∷ drop_args mac) ∷ n in
      if not (ipt_rule_exists chain (drop_args mac) n) then set_up asked else (ok tt, asked)

  unfoldable pub ipt_block : Text → History → Ran
  unfolding ipt_remove_quarantine
  ipt_block raw n =
      let mac = ipt_mac raw in
      and_run (ipt_remove_quarantine mac n)
        (unless_exists chain_block mac (run_ipt (codes "-I" ∷ chain_block ∷ drop_args mac)))

  unfoldable pub ipt_quarantine : Text → History → Ran
  unfolding ipt_remove_block
  ipt_quarantine raw n =
      let mac = ipt_mac raw in
      and_run (ipt_remove_block mac n) (
        unless_exists chain_quarantine mac λ n'.
          and_run (run_ipt (codes "-I" ∷ chain_quarantine ∷ dns_args mac) n') λ n''.
            and_run (run_ipt (codes "-I" ∷ chain_quarantine ∷ portal_args mac) n'')
              (run_ipt (codes "-A" ∷ chain_quarantine ∷ drop_args mac)))

  unfoldable pub ipt_allow : Text → History → Ran
  unfolding ipt_remove_block ipt_remove_quarantine
  ipt_allow raw n =
      let mac = ipt_mac raw in and_run (ipt_remove_block mac n) (ipt_remove_quarantine mac)
