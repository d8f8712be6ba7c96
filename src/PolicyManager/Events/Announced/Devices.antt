-- ===== src/PolicyManager/Events/Announced/Devices.antt =====
-- The statements of services/policy-manager/src that come before a command is published keep the
-- device that it is about in the table.
use native.Mathlib.Omega.{arith}
use lentropy.Common.{
  ℕ, Bool, true, Option, none, some, List, [], ◌∷◌, ◌++◌, Text, String, ◌≡◌, refl, ap, inl, inr,
  Option-cases, find, any, Any, Any-last, Any-map, find-Any,
}
use lentropy.Outcome.{ok}
use lentropy.Exec.{Exec}
use lentropy.Exec.Triples.{Meets, Keeps, Meets-fails}
use lentropy.Store.Endpoint.{EndpointRow}
use lentropy.Store.Database.{
  Platform, Db, StoreError, Tables, Message, command, World, statement, cast, cast_option,
}
use lentropy.Store.Endpoints.{
  UpsertEndpoint, PostureFields, has_mac, has_id, insert_endpoint, merge_endpoint, upsert_rows,
  upsert, find_by_mac, set_status, set_username, set_compliance, update_posture_fields, update_row,
}
use lentropy.Store.Steps.{
  OnEndpoints, Yields-ok, Yields-bail, Yields-bind, Meets-statement, Meets-publish,
}
use lentropy.PolicyManager.Commands.{enforcement, send}
use lentropy.PolicyManager.Events.Announced.{Means, Announced, nothing, one, Device, Any-update}

module _ {Json : Type 0} (before : List Message) where
  abbrev pub Quiet : List (EndpointRow Json) → List Message → Type 0
  Quiet rows sent = sent ≡ before

  -- Nothing is published yet, and the table holds the device.
  unfoldable pub Stored : ℕ → Text → String → List (EndpointRow Json) → List Message → Type 0
  Stored id mac status rows sent = (sent ≡ before) × Any (Device id mac status) rows

  abbrev pub Ready : EndpointRow Json → List (EndpointRow Json) → List Message → Type 0
  Ready row = Stored row.id row.mac_address row.status

  pub Quiet-Announced :
      (rows : List (EndpointRow Json)) (sent : List Message)
      → sent ≡ before
      → Announced before rows sent
  Quiet-Announced rows sent e = rw e nothing

  abbrev pub Found : Option (EndpointRow Json) → List (EndpointRow Json) → List Message → Type 0
  Found none rows sent = sent ≡ before
  Found (some row) rows sent = Ready row rows sent

  module _ {A : Type 0} {m : Exec (World Json) StoreError A} (id : ℕ) (mac : Text)
      (status : String) where
    -- A piece of code that keeps the device.
    pub keeping :
        Keeps (OnEndpoints (Stored id mac status)) m
        → Meets
            (OnEndpoints (Stored id mac status))
            (OnEndpoints (Announced before))
            m
            (λ _. OnEndpoints (Stored id mac status))
    unfolding Stored
    keeping k = Meets-fails k λ w h. Quiet-Announced w.tables.endpoints w.sent h.0

  module _ (platform : Platform Json) where
    stored_by_find :
        (p : EndpointRow Json → Bool) (rows : List (EndpointRow Json)) (sent : List Message)
        → sent ≡ before
        → Found (find p rows) rows sent
    unfolding Stored
    stored_by_find p rows sent q = elim (Option-cases (find p rows)) [
      | inl e ↦ rw e q
      | inr (r, e) ↦ rw e (
        q,
        find-Any p rows r e λ b. record { same_id = refl; same_mac = refl; same_status = refl },
      )
    ]

    abbrev pub Finding : Db Json (Option (EndpointRow Json)) → Type 0
    Finding m =
        Meets (OnEndpoints Quiet) (OnEndpoints (Announced before)) m (λ o. OnEndpoints (Found o))

    pub Finding-statement :
        (p : Tables Json → EndpointRow Json → Bool)
        → Finding (statement platform λ n t. ok (find (p t) t.endpoints, t))
    Finding-statement p =
        Meets-statement platform _ (λ w q. Quiet-Announced w.tables.endpoints w.sent q)
          λ w q. Yields-ok (stored_by_find (p w.tables) w.tables.endpoints w.sent q)

    pub Finding-find_by_mac : (mac : Text) → Finding (find_by_mac platform mac)
    unfolding find_by_mac
    Finding-find_by_mac mac =
        Meets-statement platform _ (λ w q. Quiet-Announced w.tables.endpoints w.sent q)
          λ w q.
            Yields-bind (cast platform.macaddr mac) _
              λ m e. Yields-ok (stored_by_find (has_mac m) w.tables.endpoints w.sent q)

    pub upsert-Ready :
        (ep : UpsertEndpoint)
        → Meets
            (OnEndpoints Quiet)
            (OnEndpoints (Announced before))
            (upsert platform ep)
            (λ row. OnEndpoints (Ready row))
    unfolding upsert upsert_rows insert_endpoint merge_endpoint Stored
    upsert-Ready ep =
        Meets-statement platform _ (λ w q. Quiet-Announced w.tables.endpoints w.sent q)
          λ w q. Yields-bind (cast platform.macaddr ep.mac_address) _ λ mac e.
            Yields-bind (cast_option platform.inet ep.ip_address) _ λ ip e'.
              Yields-bail _ _ _ λ free.
                elim (Option-cases (find (has_mac mac) w.tables.endpoints)) [
                  | inl new ↦ rw new (
                      Yields-bail (any (has_id (platform.uuid w.calls)) w.tables.endpoints) _ _
                        λ fresh. Yields-ok (
                          q,
                          Any-last w.tables.endpoints _
                              (record { same_id = refl; same_mac = refl; same_status = refl }),
                        ))
                  | inr (r, old) ↦ rw old (
                      Yields-ok (
                        q,
                        Any-update
                            {P = λ s. Device r.id r.mac_address r.status s × (has_mac mac s ≡ true)}
                            (has_mac mac) _ w.tables.endpoints
                            (λ s (d, t) b. record {
                              same_id = d.same_id;
                              same_mac = d.same_mac;
                              same_status = d.same_status;
                            })
                            (λ s (d, t) b. absurd cc)
                            (find-Any (has_mac mac) w.tables.endpoints r old λ b.
                              (record { same_id = refl; same_mac = refl; same_status = refl }, b)),
                      ))
                ]

    -- An `UPDATE` of another column.
    Keeps-update_row :
        (f : ℕ → EndpointRow Json → EndpointRow Json) (id' id : ℕ) (mac : Text) (status : String)
        → ((n : ℕ) (r : EndpointRow Json) → Device id mac status r → Device id mac status (f n r))
        → Keeps
            (OnEndpoints (Stored id mac status))
            (statement platform (update_row platform f id'))
    unfolding Stored
    Keeps-update_row f id' id mac status same =
        Meets-statement platform _ (λ w q. q)
          λ w (q, a). Yields-ok (
            q,
            Any-update (has_id id') (f w.calls) w.tables.endpoints (λ r d b. same w.calls r d)
                (λ r d b. d) a,
          )

    module _ (id' id : ℕ) (mac : Text) (status : String) where
      pub set_username-Stored :
          (username : Text)
          → Keeps (OnEndpoints (Stored id mac status)) (set_username platform id' username)
      unfolding set_username
      set_username-Stored username = Keeps-update_row _ id' id mac status λ n r d. record {
        same_id = d.same_id;
        same_mac = d.same_mac;
        same_status = d.same_status;
      }

      pub set_compliance-Stored :
          (is_compliant : Bool)
          → Keeps (OnEndpoints (Stored id mac status)) (set_compliance platform id' is_compliant)
      unfolding set_compliance
      set_compliance-Stored is_compliant = Keeps-update_row _ id' id mac status λ n r d. record {
        same_id = d.same_id;
        same_mac = d.same_mac;
        same_status = d.same_status;
      }

      pub update_posture_fields-Stored :
          (fields : PostureFields Json)
          → Keeps (OnEndpoints (Stored id mac status)) (update_posture_fields platform id' fields)
      unfolding update_posture_fields
      update_posture_fields-Stored fields = Keeps-update_row _ id' id mac status λ n r d. record {
        same_id = d.same_id;
        same_mac = d.same_mac;
        same_status = d.same_status;
      }

    pub set_status-Stored :
        (id : ℕ) (mac : Text) (old new : String)
        → Meets
            (OnEndpoints (Stored id mac old))
            (OnEndpoints (Announced before))
            (set_status platform id new)
            (λ _. OnEndpoints (Stored id mac new))
    unfolding set_status Stored
    set_status-Stored id mac old new =
        Meets-statement platform _ (λ w (q, a). Quiet-Announced w.tables.endpoints w.sent q)
          λ w (q, a). Yields-bail _ _ _ λ checked. Yields-ok (
            q,
            Any-update (has_id id) _ w.tables.endpoints
                (λ r d b. record { same_id = d.same_id; same_mac = d.same_mac; same_status = refl })
                (λ r d b. let same = d.same_id in absurd (ground arith)) a,
          )

    -- The command for the status that the device has.
    pub send-Announced :
        (id : ℕ) (mac : Text) (status : String) (ip : Text) (action : String) (vlan_id : Option ℕ)
        → Means status action
        → Meets
            (OnEndpoints (Stored id mac status))
            (OnEndpoints (Announced before))
            (send platform mac ip action vlan_id)
            (λ _. OnEndpoints (Announced before))
    unfolding send enforcement Stored
    send-Announced id mac status ip action vlan_id means =
        Meets-publish platform _ (λ w (q, a). Quiet-Announced w.tables.endpoints w.sent q)
          (λ w (q, a).
            let cmd = enforcement mac ip action vlan_id in
            one cmd (ap (λ s. s ++ command cmd ∷ []) q) (
              Any-map w.tables.endpoints
                (λ r d. record { mac = d.same_mac; means = rw (d.same_status) means }) a))
