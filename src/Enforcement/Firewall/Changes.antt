-- ===== src/Enforcement/Firewall/Changes.antt =====
-- What one change of a set does with nft (services/enforcement/src/iptables.rs).
use lentropy.Common.{
  ℕ, ◌≡◌, refl, ◌∙◌, inl, inr, ◌⊎◌, Bool, true, false, ◌&&◌, Option, none, some, Text, text_eq,
  text_eq_refl, if◌then◌else◌, Bool-cases,
}
use native.Mathlib.Omega.{arith}
use lentropy.Outcome.{ok, err, panic, timeout}
use lentropy.Enforcement.Legacy.{Answer, success, failure, not_started}
use lentropy.Enforcement.Firewall.{
  SetName, blocked_macs, quarantined_macs, blocked_ips, quarantined_ips, set_eq, Members, update,
  Change, add, delete, Firewall, Done, Tools, ignored, answered, nft_add_elem, nft_del_elem, usable,
  move_ip, added,
}

-- An element that is said to exist is in the set.
unfoldable pub SaysExists : Tools → Type 0
SaysExists tools =
    (n : ℕ) (set : SetName) (elem : Text) (members : Members) (stderr : Text)
    → tools.run_nft n add set elem members ≡ failure stderr
    → ignored tools add stderr ≡ true
    → members set elem ≡ true

-- A deletion fails only when the element is not in the set.
unfoldable pub Deletes : Tools → Type 0
Deletes tools =
    (n : ℕ) (set : SetName) (elem : Text) (members : Members)
    → (tools.run_nft n delete set elem members ≡ success) ⊎ (members set elem ≡ false)

set_eq_refl : (s : SetName) → set_eq s s ≡ true
set_eq_refl blocked_macs = refl
set_eq_refl quarantined_macs = refl
set_eq_refl blocked_ips = refl
set_eq_refl quarantined_ips = refl

update-same :
    (m : Members) (set : SetName) (elem : Text) (b : Bool) → update m set elem b set elem ≡ b
unfolding update
update-same m set elem b = rw (set_eq_refl set, text_eq_refl elem)

module _ (tools : Tools) where
  open tools use {run_nft}

  answered-other :
      (fw : Firewall) (change : Change) (set : SetName) (elem : Text) (a : Answer) (s : SetName)
      (e : Text)
      → (set_eq s set && text_eq e elem) ≡ false
      → (answered tools fw change set elem a).1.members s e ≡ fw.members s e
  unfolding update
  answered-other fw change set elem success s e h = rw h
  answered-other fw change set elem (failure stderr) s e h = refl
  answered-other fw change set elem not_started s e h = refl

  answered-ok :
      (fw : Firewall) (set : SetName) (elem : Text) (a : Answer)
      → ((stderr : Text)
          → a ≡ failure stderr
          → ignored tools add stderr ≡ true
          → fw.members set elem ≡ true)
      → (answered tools fw add set elem a).0 ≡ ok tt
      → (answered tools fw add set elem a).1.members set elem ≡ true
  answered-ok fw set elem success says h = update-same fw.members set elem true
  answered-ok fw set elem (failure stderr) says h = elim (Bool-cases (ignored tools add stderr)) [
    | inl e ↦ says stderr refl e
    | inr e ↦ absurd (ground arith)
  ]
  answered-ok fw set elem not_started says h = absurd cc

  answered-gone :
      (fw : Firewall) (set : SetName) (elem : Text) (a : Answer)
      → (a ≡ success) ⊎ (fw.members set elem ≡ false)
      → (answered tools fw delete set elem a).1.members set elem ≡ false
  answered-gone fw set elem success h = update-same fw.members set elem false
  answered-gone fw set elem (failure stderr) (inr h) = h
  answered-gone fw set elem not_started (inr h) = h
  answered-gone fw set elem (failure stderr) (inl h) = absurd cc
  answered-gone fw set elem not_started (inl h) = absurd cc

  pub add-present :
      SaysExists tools
      → (set : SetName) (elem : Text) (fw : Firewall) → (nft_add_elem tools set elem fw).0 ≡ ok tt
      → (nft_add_elem tools set elem fw).1.members set elem ≡ true
  unfolding nft_add_elem SaysExists
  add-present says set elem fw =
      answered-ok fw set elem _ λ stderr. says fw.runs set elem fw.members stderr

  pub add-other :
      (set : SetName) (elem : Text) (fw : Firewall) (s : SetName) (e : Text)
      → (set_eq s set && text_eq e elem) ≡ false
      → (nft_add_elem tools set elem fw).1.members s e ≡ fw.members s e
  unfolding nft_add_elem
  add-other set elem fw s e = answered-other fw add set elem _ s e

  pub del-other :
      (set : SetName) (elem : Text) (fw : Firewall) (s : SetName) (e : Text)
      → (set_eq s set && text_eq e elem) ≡ false
      → (nft_del_elem tools set elem fw).members s e ≡ fw.members s e
  unfolding nft_del_elem
  del-other set elem fw s e = answered-other fw delete set elem _ s e

  pub del-gone :
      Deletes tools
      → (set : SetName) (elem : Text) (fw : Firewall)
      → (nft_del_elem tools set elem fw).members set elem ≡ false
  unfolding nft_del_elem Deletes
  del-gone deletes set elem fw = answered-gone fw set elem _ (deletes fw.runs set elem fw.members)

  -- Where the moves of an address leave the elements that it is not about.
  pub move_ip-other :
      (from to : SetName) (ip : Option Text) (fw : Firewall) (s : SetName) (e : Text)
      → set_eq s from ≡ false
      → set_eq s to ≡ false
      → (move_ip tools from to ip fw).members s e ≡ fw.members s e
  move_ip-other from to none fw s e h k = refl
  move_ip-other from to (some ip) fw s e h k =
      elim (usable tools ip)
        as (λ b.
          (if b then (nft_add_elem tools to ip (nft_del_elem tools from ip fw)).1 else fw).members s
            e
          ≡ fw.members s e) [
            | true ↦ add-other to ip _ s e (rw k refl) ∙ del-other from ip fw s e (rw h refl)
            | false ↦ refl
          ]

  pub added-ok :
      (from to : SetName) (ip : Option Text) (d : Done)
      → (added tools from to ip d).0 ≡ ok tt
      → d.0 ≡ ok tt
  added-ok from to ip (ok _, fw) h = refl
  added-ok from to ip (err e, fw) h = h
  added-ok from to ip (panic, fw) h = h
  added-ok from to ip (timeout, fw) h = h

  pub added-other :
      (from to : SetName) (ip : Option Text) (d : Done) (s : SetName) (e : Text)
      → set_eq s from ≡ false
      → set_eq s to ≡ false
      → (added tools from to ip d).1.members s e ≡ d.1.members s e
  added-other from to ip (ok _, fw) s e h k = move_ip-other from to ip fw s e h k
  added-other from to ip (err _, fw) s e h k = refl
  added-other from to ip (panic, fw) s e h k = refl
  added-other from to ip (timeout, fw) s e h k = refl
