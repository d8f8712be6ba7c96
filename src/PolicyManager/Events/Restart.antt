-- ===== src/PolicyManager/Events/Restart.antt =====
-- What the reconciliation of services/policy-manager/src/background.rs leaves behind.
use lentropy.Common.{
  ℕ, true, false, none, List, [], ◌∷◌, ◌++◌, str_eq, ◌≡◌, refl, sym, if◌then◌else◌, if_lem, filter,
  All, All-map, Any, here, there, Any-last,
}
use lentropy.Outcome.{ok}
use lentropy.Exec.{for_each}
use lentropy.Exec.Triples.{
  Ends, Meets, Meets-pure, Meets-if, Meets-bind, Meets-fails, Meets-weaken, Keeps, Keeps-attempt,
}
use lentropy.Store.Endpoint.{EndpointRow}
use lentropy.Store.Database.{
  Platform, Db, IpRuleRow, Message, command, World, publish, update_where,
}
use lentropy.Store.Steps.{
  called, OnEndpoints, Yields-ok, Yields-bail, Keeps-statement, Meets-statement,
}
use lentropy.PolicyManager.Commands.{enforcement, send}
use lentropy.PolicyManager.Reconcile.{
  is_logged_in, log_out, is_restricted, ip_of, end_open_sessions, log_out_all, insert_session,
  quarantine_again, list_restricted, restrict_again, list_ip_rules, apply_ip_rule, reconcile,
}

Any-before :
    (P : Message → Type 0) (xs : List Message) (m : Message) → Any P xs → Any P (xs ++ m ∷ [])
Any-before P [] m h = elim h [ ]
Any-before P (x ∷ xs) m (here p) = here p
Any-before P (x ∷ xs) m (there a) = there (Any-before P xs m a)

module _ {Json : Type 0} where
  abbrev Nothing : World Json → Type 0
  Nothing w = Unit

  -- The command that restricts a device.
  pub restriction : EndpointRow Json → Message
  restriction r = command (
      enforcement r.mac_address (ip_of r)
        (if str_eq r.status "denied" then "block" else "quarantine") none)

  Sends : List Message → EndpointRow Json → Type 0
  Sends sent r = Any (λ m. m ≡ restriction r) sent

  -- A condition that more messages do not harm.
  record Growing (I : List (EndpointRow Json) → List Message → Type 0) : Type 0 where
    more :
        (e : List (EndpointRow Json)) (sent : List Message) (m : Message)
        → I e sent
        → I e (sent ++ m ∷ [])

  Growing-Sends :
      (I : List (EndpointRow Json) → List Message → Type 0) (r : EndpointRow Json)
      → Growing I
      → Growing (λ e sent. I e sent × Sends sent r)
  unfolding Sends
  Growing-Sends I r g = record {
    more = λ e sent m (h, a). (g.more e sent m h, Any-before _ sent m a);
  }

  module _ (platform : Platform Json) (taken : (n : ℕ) → platform.takes n ≡ true) where
    Meets-taken :
        {P Q : World Json → Type 0} (m : Message)
        → ((w : World Json) → P w → Q (record (called w) { sent = w.sent ++ m ∷ [] }))
        → Meets P Nothing (publish platform m) (λ _. Q)
    unfolding publish
    Meets-taken {Q = Q} m h = record {
      at = λ w p.
          if_lem (Ends (λ _. Q) Nothing) (platform.takes w.calls) _ _ (λ b. h w p)
            (λ b. let yes = taken w.calls in absurd cc);
    }

    module _ (I : List (EndpointRow Json) → List Message → Type 0) (g : Growing I) where
      lasting :
          {A : Type 0} {m : Db Json A}
          → Keeps (OnEndpoints I) m
          → Meets (OnEndpoints I) Nothing m (λ _. OnEndpoints I)
      lasting k = Meets-fails k λ w h. tt

      publish-lasts :
          (m : Message) → Meets (OnEndpoints I) Nothing (publish platform m) (λ _. OnEndpoints I)
      publish-lasts m = Meets-taken m λ w h. g.more w.tables.endpoints w.sent m h

      quarantine_again-lasts :
          (r : EndpointRow Json)
          → Meets (OnEndpoints I) Nothing (quarantine_again platform r) (λ _. OnEndpoints I)
      unfolding quarantine_again send insert_session
      quarantine_again-lasts r =
          Meets-bind
            (lasting (
              Keeps-attempt (
                Keeps-statement (λ e s m. I e m) platform _
                  λ n t sent h. Yields-bail _ _ _ λ b. Yields-ok h)))
            λ s. publish-lasts _

      apply_ip_rule-lasts :
          (r : IpRuleRow)
          → Meets (OnEndpoints I) Nothing (apply_ip_rule platform r) (λ _. OnEndpoints I)
      unfolding apply_ip_rule send
      apply_ip_rule-lasts r =
          Meets-if (str_eq r.action "block") _ _ (λ b. publish-lasts _)
            λ b.
              Meets-if (str_eq r.action "quarantine") _ _ (λ b. publish-lasts _)
                λ b. Meets-pure tt λ w h. h

      all_last :
          {A : Type 0} (body : A → Db Json (Unit {0})) (xs : List A)
          → ((a : A) → Meets (OnEndpoints I) Nothing (body a) (λ _. OnEndpoints I))
          → Meets (OnEndpoints I) Nothing (for_each body xs) (λ _. OnEndpoints I)
      unfolding for_each
      all_last body [] h = Meets-pure tt λ w h. h
      all_last body (x ∷ xs) h = Meets-bind (h x) λ _. all_last body xs h

      restrict_again-Sends :
          (r : EndpointRow Json)
          → Meets
              (OnEndpoints I)
              Nothing
              (restrict_again platform r)
              (λ _. OnEndpoints (λ e sent. I e sent × Sends sent r))
      unfolding restrict_again send Sends restriction
      restrict_again-Sends r =
          Meets-taken _ λ w h. (g.more w.tables.endpoints w.sent _ h, Any-last w.sent _ refl)

    restricted_all :
        (I : List (EndpointRow Json) → List Message → Type 0) (rows : List (EndpointRow Json))
        → Growing I
        → Meets
            (OnEndpoints I)
            Nothing
            (for_each (restrict_again platform) rows)
            (λ _. OnEndpoints (λ e sent. I e sent × All (Sends sent) rows))
    unfolding for_each
    restricted_all I [] g = Meets-pure tt λ w h. (h, tt)
    restricted_all I (r ∷ rows) g = Meets-bind (restrict_again-Sends I g r) λ _.
        Meets-weaken (restricted_all (λ e sent. I e sent × Sends sent r) rows (Growing-Sends I r g))
          (λ w h. h) (λ _ w ((h, a), all). (h, (a, all)))

    LoggedOut : List (EndpointRow Json) → List Message → Type 0
    LoggedOut e sent = All (λ r. is_logged_in r ≡ false) e

    logged_out :
        (rows : List (EndpointRow Json))
        → All (λ r. is_logged_in r ≡ false) (update_where is_logged_in log_out rows)
    unfolding is_logged_in log_out
    logged_out [] = tt
    logged_out (r ∷ rows) = (
      if_lem (λ r. is_logged_in r ≡ false) (is_logged_in r) (log_out r) r (λ b. refl) (λ b. b),
      logged_out rows,
    )

    log_out_all-LoggedOut :
        Meets Nothing Nothing (log_out_all platform) (λ _. OnEndpoints LoggedOut)
    unfolding log_out_all LoggedOut
    log_out_all-LoggedOut =
        Meets-statement platform _ (λ w h. tt) λ w h. Yields-ok (logged_out w.tables.endpoints)

    Listed : List (EndpointRow Json) → List (EndpointRow Json) → List Message → Type 0
    Listed rows e sent = LoggedOut e sent × (rows ≡ filter is_restricted e)

    list_restricted-Listed :
        Meets
          (OnEndpoints LoggedOut)
          Nothing
          (list_restricted platform)
          (λ rows. OnEndpoints (Listed rows))
    unfolding list_restricted Listed LoggedOut
    list_restricted-Listed = Meets-statement platform _ (λ w h. tt) λ w h. Yields-ok (h, refl)

    All-filter :
        (P : EndpointRow Json → Type 0) (rows : List (EndpointRow Json))
        → All P (filter is_restricted rows)
        → All (λ r. is_restricted r ≡ true → P r) rows
    All-filter P [] h = tt
    All-filter P (r ∷ rows) h =
        if_lem (λ ys. All P ys → All (λ r. is_restricted r ≡ true → P r) (r ∷ rows))
          (is_restricted r) (r ∷ filter is_restricted rows) (filter is_restricted rows)
          (λ b h. ((λ t. h.0), All-filter P rows h.1))
          (λ b h. ((λ t. absurd cc), All-filter P rows h)) h

    Growing-LoggedOut : Growing LoggedOut
    unfolding LoggedOut
    Growing-LoggedOut = record { more = λ e sent m h. h }

    Growing-Listed : (rows : List (EndpointRow Json)) → Growing (Listed rows)
    unfolding Listed LoggedOut
    Growing-Listed rows = record { more = λ e sent m h. h }

    DoneWith : List (EndpointRow Json) → List (EndpointRow Json) → List Message → Type 0
    DoneWith rows e sent = Listed rows e sent × All (Sends sent) rows

    Growing-DoneWith : (rows : List (EndpointRow Json)) → Growing (DoneWith rows)
    unfolding Listed LoggedOut Sends DoneWith
    Growing-DoneWith rows = record {
      more = λ e sent m (h, all). (h, All-map rows (λ r a. Any-before _ sent m a) all);
    }

    ended_somehow : Keeps Nothing (end_open_sessions platform)
    unfolding end_open_sessions
    ended_somehow = Meets-statement platform _ (λ w h. tt) λ w h. Yields-ok tt

    reconcile-Done : Meets Nothing Nothing (reconcile platform) (λ _. OnEndpoints (λ e sent.
        All (λ r. is_logged_in r ≡ false) e × All (λ r. is_restricted r ≡ true → Sends sent r) e))
    unfolding reconcile DoneWith Listed LoggedOut list_ip_rules
    reconcile-Done = Meets-bind (Meets-fails (Keeps-attempt ended_somehow) λ w h. h) λ ended.
        Meets-bind log_out_all-LoggedOut λ reauth.
          Meets-bind
            (all_last LoggedOut Growing-LoggedOut _ reauth
              (quarantine_again-lasts LoggedOut Growing-LoggedOut))
            λ q. Meets-bind list_restricted-Listed λ rows.
              Meets-bind (restricted_all (Listed rows) rows (Growing-Listed rows)) λ r.
                Meets-bind (Meets-statement platform _ (λ w h. tt) λ w h. Yields-ok h) λ rules.
                  Meets-weaken
                    (all_last (DoneWith rows) (Growing-DoneWith rows) _ rules
                      (apply_ip_rule-lasts (DoneWith rows) (Growing-DoneWith rows)))
                    (λ w h. h) (λ u w ((out, e), all). (out, All-filter _ _ (rw (sym e) all)))

  -- After a reconciliation that succeeded, over a bus that takes every message, no device of the table
  -- counts as logged in, and for each device that is denied or quarantined a command that says so, to
  -- its MAC address, has been published.
  pub reconcile_restricts :
      (platform : Platform Json)
      → ((n : ℕ) → platform.takes n ≡ true)
      → (w w' : World Json) → reconcile platform w ≡ (ok tt, w')
      → All (λ r. is_logged_in r ≡ false) w'.tables.endpoints
        × All
            (λ r. is_restricted r ≡ true → Any (λ m. m ≡ restriction r) w'.sent)
            w'.tables.endpoints
  unfolding Sends
  reconcile_restricts platform taken w w' e = rw e at ((reconcile-Done platform taken).at w tt)
