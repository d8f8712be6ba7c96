-- ===== src/PolicyManager/Api/Enforced.antt =====
-- services/policy-manager/src/api/endpoints.rs and services/enforcement/src/consumer.rs together: a
-- restriction that is asked for over the API, and the firewall after its command.
use lentropy.Common.{some, [], ◌∷◌, ◌++◌, ◌≡◌, ap, sym, ◌∙◌, inl, inr, find}
use lentropy.Common.{ℕ, String}
use lentropy.Outcome.{Outcome, ok, err, panic, timeout}
use lentropy.Exec.Triples.{Ends}
use lentropy.Store.Endpoint.{EndpointRow}
use lentropy.Store.Endpoints.{has_id}
use lentropy.Store.Database.{Platform, command, World}
use lentropy.Enforcement.Firewall.{nft, nft_mac}
use lentropy.Enforcement.Firewall.Changes.{SaysExists, Deletes}
use lentropy.Enforcement.Consumer.{EnforcementCommand, Host, is_allow_action, map_action}
use lentropy.Enforcement.Consumer
use lentropy.PolicyManager.Commands.{enforcement}
use lentropy.PolicyManager.Events.Enforced.{
  Restricted, handled-Restricted, not_longer, last_message,
}
use lentropy.PolicyManager.Api.{update_endpoint_status}
use lentropy.PolicyManager.Api.Decided.{update_endpoint_status-Applied}

module _ {W E A : Type 0} where
  Ends-ok :
      (Q : A → W → Type 0) (X : W → Type 0) (r : Outcome E A × W) (a : A)
      → r.0 ≡ ok a
      → Ends Q X r
      → Q a r.1
  Ends-ok Q X (ok b, w) a e h = let same : b ≡ a = cc in rw (sym same) h
  Ends-ok Q X (err b, w) a e h = absurd cc
  Ends-ok Q X (panic, w) a e h = absurd cc
  Ends-ok Q X (timeout, w) a e h = absurd cc

module _ {Json : Type 0} (platform : Platform Json) (host : Host) where
  open host use {tools}

  -- With nft, if it reports as existing only elements that exist and fails to delete only missing
  -- ones: once a request has set a status, its command was published, and the enforcement service
  -- has handled this command without an error, the MAC address of the device with the request's id
  -- is, for the status "denied", in the set of the blocked MAC addresses and not in that of the
  -- quarantined ones, and for the status "quarantined" the other way round.
  pub request_then_enforced :
      SaysExists tools
      → Deletes tools
      → (id : ℕ) (status event_type : String) (w : World Json) (ep : EndpointRow Json) (v : Json)
        (cmd : EnforcementCommand) (firewall : Consumer.World)
      → let answer = update_endpoint_status platform id status event_type w in
        find (has_id id) w.tables.endpoints ≡ some ep
        → answer.0 ≡ ok v
        → answer.1.sent ≡ w.sent ++ command cmd ∷ []
        → firewall.firewall.backend ≡ nft
        → (Consumer.handle host cmd firewall).0 ≡ ok tt
        → Restricted
            (Consumer.handle host cmd firewall).1.firewall.members
            status
            (nft_mac tools ep.mac_address)
  unfolding enforcement is_allow_action map_action
  request_then_enforced says deletes id status event_type w ep v cmd firewall known done published
        is_nft handled =
      let a =
        Ends-ok _ _ _ v done (update_endpoint_status-Applied platform id status event_type w) in
      elim a.messages [
        | inl e ↦ absurd (not_longer w.sent cmd (sym e ∙ published))
        | inr e ↦
            let same = last_message w.sent cmd _ (sym published ∙ e) in
            let device : a.device ≡ ep = cc in
            let mac : cmd.mac_address ≡ ep.mac_address =
              ap (λ c. c.mac_address) same ∙ ap (λ r. r.mac_address) device in
            let acts : cmd.action ≡ status = ap (λ c. c.action) same in
            let restricted =
              handled-Restricted host says deletes status cmd firewall
                (λ is. let a = acts ∙ is in (ap is_allow_action a, ap map_action a))
                (λ is. let a = acts ∙ is in (ap is_allow_action a, ap map_action a)) is_nft
                handled in
            rw (sym mac) restricted
      ]
