-- ===== src/PolicyManager/Events/Enforced.antt =====
-- The policy manager and the enforcement service together: what a command that consumer.rs of the one
-- publishes does in consumer.rs of the other.
use native.Mathlib.Omega.{arith}
use lentropy.Common.{
  true, false, List, [], ◌∷◌, ◌++◌, str_eq, ◌≡◌, refl, sym, ap, ◌∙◌, Any, Any-map, drop,
  drop-append, length, length-append, Text, String, Bool,
}
use lentropy.Outcome.{ok}
use lentropy.Store.Endpoint.{EndpointRow}
use lentropy.Store.Database.{Platform, Message, command, World}
use lentropy.Enforcement.Firewall.{SetName, blocked_macs, quarantined_macs, nft, nft_mac}
use lentropy.Enforcement.Firewall.Changes.{SaysExists, Deletes}
use lentropy.Enforcement.Consumer.{EnforcementCommand, Host, NacAction, is_allow_action, map_action}
use lentropy.Enforcement.Consumer
use lentropy.Enforcement.Consumer.Effects.{handle-enforces}
use lentropy.PolicyManager.Detected.{EndpointDetectedEvent, process_event}
use lentropy.PolicyManager.Events.Announced.{Means, Backs, Announced, nothing, one}
use lentropy.PolicyManager.Events.Announced.Handlers.{process_event-Announced}

module _ (before : List Message) where
  pub not_longer : (a : EnforcementCommand) → ¬ (before ≡ before ++ command a ∷ [])
  not_longer a e = omega (arith, ap length e, length-append before (command a ∷ []))

  pub last_message :
      (a b : EnforcementCommand) → before ++ command a ∷ [] ≡ before ++ command b ∷ [] → a ≡ b
  last_message a b e =
      let tails =
        sym (drop-append before (command a ∷ []))
        ∙ ap (drop (length before)) e
        ∙ drop-append before (command b ∷ []) in
      cc

  backed :
      {Json : Type 0} {rows : List (EndpointRow Json)} {sent : List Message}
      (cmd : EnforcementCommand)
      → Announced before rows sent
      → sent ≡ before ++ command cmd ∷ []
      → Any (Backs cmd) rows
  backed cmd nothing e = absurd (not_longer cmd e)
  backed {rows = rows} cmd (one cmd' e' a) e =
      let same = last_message cmd' cmd (sym e' ∙ e) in rw (sym same) a

-- What a status asks of the nft sets: a denied device is among the blocked and not among those in
-- quarantine, a quarantined one the other way round.
pub record Restricted (members : SetName → Text → Bool) (status : String) (mac : Text)
    : Type 0 where
  pub denied :
      status ≡ "denied" → (members blocked_macs mac ≡ true) × (members quarantined_macs mac ≡ false)
  pub quarantined :
      status ≡ "quarantined"
      → (members quarantined_macs mac ≡ true) × (members blocked_macs mac ≡ false)

module _ (host : Host) where
  open host use {tools}

  -- What the enforcement service does for an action that stands for a restriction.
  abbrev Takes : String → NacAction → Type 0
  Takes action what = (is_allow_action action ≡ false) × (map_action action ≡ what)

  pub handled-Restricted :
      SaysExists tools
      → Deletes tools
      → (status : String) (cmd : EnforcementCommand) (firewall : Consumer.World)
      → (status ≡ "denied" → Takes cmd.action NacAction.block)
      → (status ≡ "quarantined" → Takes cmd.action NacAction.quarantine)
      → firewall.firewall.backend ≡ nft
      → (Consumer.handle host cmd firewall).0 ≡ ok tt
      → Restricted
          (Consumer.handle host cmd firewall).1.firewall.members
          status
          (nft_mac tools cmd.mac_address)
  handled-Restricted says deletes status cmd firewall blocks quarantines is_nft done = record {
    denied = λ is.
        let (no_allow, act) = blocks is in
        rw act at (handle-enforces host says deletes cmd firewall is_nft no_allow done);
    quarantined = λ is.
        let (no_allow, act) = quarantines is in
        rw act at (handle-enforces host says deletes cmd firewall is_nft no_allow done);
  }

  Means-Restricted :
      SaysExists tools
      → Deletes tools
      → (status : String) (cmd : EnforcementCommand) (firewall : Consumer.World)
      → Means status cmd.action
      → firewall.firewall.backend ≡ nft
      → (Consumer.handle host cmd firewall).0 ≡ ok tt
      → Restricted
          (Consumer.handle host cmd firewall).1.firewall.members
          status
          (nft_mac tools cmd.mac_address)
  unfolding map_action
  Means-Restricted says deletes status cmd firewall (is_allow, acts) is_nft done =
      handled-Restricted says deletes status cmd firewall
        (λ is. (is_allow ∙ ap (λ s. str_eq s "allowed") is, acts ∙ ap map_action is))
        (λ is. (is_allow ∙ ap (λ s. str_eq s "allowed") is, acts ∙ ap map_action is)) is_nft done

module _ {Json : Type 0} (platform : Platform Json) (host : Host) where
  open host use {tools}

  -- With nft, if it reports as existing only elements that exist and fails to delete only missing
  -- ones: once the enforcement service has handled, without an error, the command that the policy
  -- manager published for a detected device, a device of the policy manager's table has the MAC
  -- address of the command. If its status is "denied", this address is in the set of the blocked MAC
  -- addresses and not in that of the quarantined ones; if it is "quarantined", the other way round.
  pub detected_then_enforced :
      SaysExists tools
      → Deletes tools
      → (event : EndpointDetectedEvent) (w : World Json) (cmd : EnforcementCommand)
        (firewall : Consumer.World)
      → let after = (process_event platform event w).1 in
        after.sent ≡ w.sent ++ command cmd ∷ []
        → firewall.firewall.backend ≡ nft
        → (Consumer.handle host cmd firewall).0 ≡ ok tt
        → Any
            (λ r.
              (r.mac_address ≡ cmd.mac_address)
              × Restricted
                  (Consumer.handle host cmd firewall).1.firewall.members
                  r.status
                  (nft_mac tools cmd.mac_address))
            after.tables.endpoints
  detected_then_enforced says deletes event w cmd firewall published is_nft done =
      let after = (process_event platform event w).1 in
      Any-map after.tables.endpoints
        (λ r b.
          (b.mac, Means-Restricted host says deletes r.status cmd firewall b.means is_nft done))
        (backed w.sent cmd (process_event-Announced platform w.sent event w refl) published)
