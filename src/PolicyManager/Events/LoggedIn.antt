-- ===== src/PolicyManager/Events/LoggedIn.antt =====
-- What services/policy-manager/src/consumer.rs does for a device that is logged in.
use native.Mathlib.Omega.{arith}
use lentropy.Common.{
  ℕ, Bool, true, false, not, ◌&&◌, Option, some, List, Text, String, str_eq, eq_iff, ◌≡◌, refl, ap,
  ◌∙◌, find, map, &&_split,
}
use lentropy.Exec.{attempt, ◌>>=◌}
use lentropy.Exec.Triples.{
  Ends-state, Meets, Meets-if, Meets-bind, Meets-fails, Meets-when, Meets-fact, Keeps, Keeps-pure,
  Keeps-lift, Keeps-attempt, Keeps-when,
}
use lentropy.PolicyEngine.{PolicyDecision}
use lentropy.Store.Endpoint.{EndpointRow}
use lentropy.Store.Policy.{decision_to_status}
use lentropy.Store.Posture.{is_empty}
use lentropy.Store.Database.{Platform, SessionRow, Message, World, statement, cast, cast_option}
use lentropy.Store.Endpoints.{UpsertEndpoint, has_mac, merge_endpoint, upsert_rows, upsert}
use lentropy.Store.Sessions.{find_active, find_active_by_endpoint}
use lentropy.Store.Steps.{
  On, Yields-ok, Yields-bail, Yields-bind, Meets-statement, Keeps-log, Keeps-load_rules,
  Keeps-find_by_mac,
}
use lentropy.Store.Devices.{of_cast}
use lentropy.Store.Valid.{map-update}
use lentropy.PolicyManager.Commands.{evaluate_rules, is_some}
use lentropy.PolicyManager.Detected.{
  EndpointDetectedEvent, upsert_of, has_login, already_authenticated, apply_decision,
  apply_policies, after_upsert, process_event, is_restricted,
}

module _ {Json : Type 0} where
  abbrev pub statuses : List (EndpointRow Json) → List (ℕ × String)
  statuses = map (λ r. (r.id, r.status))

  -- The row is one of the same device, with the same login.
  pub record SameLogin (row r : EndpointRow Json) : Type 0 where
    pub id : r.id ≡ row.id
    pub status : r.status ≡ row.status
    pub username : r.username ≡ row.username

module _ {Json : Type 0} (platform : Platform Json) (rows : List (EndpointRow Json))
    (sessions : List SessionRow) (before : List Message) where
  Start : List (EndpointRow Json) → List SessionRow → List Message → Type 0
  Start e s m = (e ≡ rows) × (s ≡ sessions) × (m ≡ before)

  Same : List (EndpointRow Json) → List SessionRow → List Message → Type 0
  Same e s m = (statuses e ≡ statuses rows) × (s ≡ sessions) × (m ≡ before)

  module _ (row : EndpointRow Json) (session : SessionRow) where
    upsert-Same :
        (ep : UpsertEndpoint) (mac : Text)
        → platform.macaddr ep.mac_address ≡ some mac
        → find (has_mac mac) rows ≡ some row
        → Meets (On Start) (On Same) (upsert platform ep) (λ r w. On Same w × SameLogin row r)
    unfolding upsert upsert_rows merge_endpoint Start Same
    upsert-Same ep mac reads there =
        Meets-statement platform _ (λ w (e, s, m). (ap statuses e, s, m))
          λ w (e, s, m). Yields-bind (cast platform.macaddr ep.mac_address) _ λ mac' c.
            Yields-bind (cast_option platform.inet ep.ip_address) _ λ ip c'.
              Yields-bail _ _ _ λ free.
                let read =
                  of_cast platform (platform.macaddr ep.mac_address) ep.mac_address mac' c in
                let is_mac : mac' ≡ mac = cc in
                let found =
                  ap (λ k. find (has_mac k) w.tables.endpoints) is_mac
                  ∙ ap (find (has_mac mac)) e
                  ∙ there in
                rw (found) (
                  Yields-ok (
                    (
                      map-update (λ r. (r.id, r.status)) (has_mac mac') _ w.tables.endpoints
                            (λ r. refl)
                          ∙ ap statuses e,
                      s,
                      m,
                    ),
                    record { id = refl; status = refl; username = refl },
                  ))

    same-has_login :
        (r : EndpointRow Json) → SameLogin row r → has_login row ≡ true → has_login r ≡ true
    unfolding has_login
    same-has_login r same login = rw (same.status, same.username) login

    already_authenticated-true :
        ((n : ℕ) → platform.answers n ≡ true)
        → has_login row ≡ true
        → find_active row.id sessions ≡ some session
        → session.state ≡ "active"
        → (r : EndpointRow Json) → SameLogin row r
        → Meets
            (On Same)
            (On Same)
            (already_authenticated platform r)
            (λ b w. On Same w × (b ≡ true))
    unfolding already_authenticated attempt statement find_active_by_endpoint ◌>>=◌ Same
    already_authenticated-true answers login active state r same = record {
      at = λ w (e, s, m).
          let is_active =
            ap (find_active r.id) s ∙ ap (λ i. find_active i sessions) same.id ∙ active in
          rw (same-has_login r same login, answers w.calls, is_active, state) ((e, s, m), refl);
    }

    not_restricted :
        (r : EndpointRow Json) → has_login r ≡ true → is_restricted platform r.status ≡ false
    unfolding has_login
    not_restricted r login = ap (is_restricted platform) (
        (eq_iff r.status "allowed").0
          ((&&_split (str_eq r.status "allowed") (is_some r.username) login).0))

    apply_decision-Same :
        (r : EndpointRow Json) (ip : Option Text) (moved : Bool) (d : PolicyDecision) (known : Bool)
        → has_login r ≡ true
        → known ≡ true
        → Keeps (On Same) (apply_decision platform r ip moved d known)
    unfolding apply_decision has_login
    apply_decision-Same r ip moved d known login is_known =
        Meets-if (not known && not (str_eq r.status (decision_to_status d))) _ _ (λ b. absurd cc)
          (λ b.
            Meets-when _ (λ c. let never = not_restricted r login in absurd (ground arith))
              (λ c w h. h))

    -- The steps behind the upsert.
    after_upsert-Same :
        ((n : ℕ) → platform.answers n ≡ true)
        → has_login row ≡ true
        → find_active row.id sessions ≡ some session
        → session.state ≡ "active"
        → (event : EndpointDetectedEvent) (old : Option Text) (r : EndpointRow Json)
        → SameLogin row r
        → Keeps (On Same) (after_upsert platform event old r)
    unfolding after_upsert apply_policies evaluate_rules
    after_upsert-Same answers login active state event old r same =
        Meets-bind (Keeps-log Same platform _ _ _ _) λ d.
          Meets-bind (Keeps-when _ (Keeps-log Same platform _ _ _ _)) λ c.
            Meets-bind (Keeps-load_rules Same platform) λ rules.
              Meets-if (is_empty rules) _ _ (λ b. Keeps-pure tt)
                λ b. Meets-bind (Keeps-lift _) λ decision.
                  Meets-bind (already_authenticated-true answers login active state r same) λ known.
                    Meets-fact λ is_known.
                      apply_decision-Same r _ _ decision known (same-has_login r same login)
                        is_known

    process_event-Same :
        ((n : ℕ) → platform.answers n ≡ true)
        → has_login row ≡ true
        → find_active row.id sessions ≡ some session
        → session.state ≡ "active"
        → (event : EndpointDetectedEvent) (mac : Text)
        → platform.macaddr event.mac_address ≡ some mac
        → find (has_mac mac) rows ≡ some row
        → Meets (On Start) (On Same) (process_event platform event) (λ _. On Same)
    unfolding process_event Start Same
    process_event-Same answers login active state event mac reads there =
        Meets-bind
          (Meets-fails (Keeps-attempt (Keeps-find_by_mac Start platform event.mac_address))
            λ w (e, s, m). (ap statuses e, s, m))
          λ old.
            Meets-bind (upsert-Same (upsert_of event) mac reads there)
              λ r. Meets-fact λ same. after_upsert-Same answers login active state event _ r same

module _ {Json : Type 0} (platform : Platform Json) where
  -- While the database answers, the detection of a device that is allowed, has a user name and has an
  -- active session, which is the latest of its open ones, publishes nothing and leaves the ids and
  -- statuses of all devices, and all sessions, as they are, whatever the policies say.
  pub logged_in_untouched :
      ((n : ℕ) → platform.answers n ≡ true)
      → (event : EndpointDetectedEvent) (w : World Json) (mac : Text) (row : EndpointRow Json)
        (session : SessionRow)
      → platform.macaddr event.mac_address ≡ some mac
      → find (has_mac mac) w.tables.endpoints ≡ some row
      → has_login row ≡ true
      → find_active row.id w.tables.sessions ≡ some session
      → session.state ≡ "active"
      → let after = (process_event platform event w).1 in
        (statuses after.tables.endpoints ≡ statuses w.tables.endpoints)
        × (after.tables.sessions ≡ w.tables.sessions)
        × (after.sent ≡ w.sent)
  unfolding Start Same
  logged_in_untouched answers event w mac row session reads there login active state =
      Ends-state (On (Same platform w.tables.endpoints w.tables.sessions w.sent))
        (process_event platform event w)
        ((process_event-Same platform w.tables.endpoints w.tables.sessions w.sent row session
            answers login active state event mac reads there).at
          w (refl, refl, refl))
