-- ===== src/PolicyManager/Events/Failures.antt =====
-- What a failed login does in services/policy-manager/src/session_handler.rs.
use lentropy.Common.{
  false, Option, none, some, List, [], ◌∷◌, ◌≡◌, refl, inl, inr, Option-cases, find, map, ◌++◌, ap,
  sym, ◌∙◌, ℕ, Text, String,
}
use lentropy.Exec.Triples.{
  Ends-state, Meets, Keeps, Meets-pure, Meets-fails, Meets-if, Meets-option, Meets-bind, Keeps-pure,
}
use lentropy.Store.Endpoint.{EndpointRow}
use lentropy.Store.Database.{Platform, SessionRow, Message, World, cast, cast_option}
use lentropy.Store.Endpoints.{
  UpsertEndpoint, has_mac, insert_endpoint, merge_endpoint, upsert_rows, upsert,
}
use lentropy.Store.Steps.{
  OnEndpoints, Meets-statement, Yields-ok, Yields-bail, Yields-bind, Keeps-statement, Keeps-log,
  Keeps-find_by_mac, Keeps-find_by_id, Keeps-find_active_by_endpoint, Keeps-find_session,
  Keeps-terminate,
}
use lentropy.Store.Valid.{map-update, map-append}
use lentropy.PolicyManager.Commands.{non_empty}
use lentropy.PolicyManager.AuthResponse.{
  AuthResponse, look_up, find_by_host, resolve, find_session, end_found, auth_failed, answer_login,
  process_auth_response,
}

module _ {Json : Type 0} where
  -- What a failed login must not touch.
  abbrev pub status_of : EndpointRow Json → ℕ × Text × String
  status_of r = (r.id, r.mac_address, r.status)

  -- The devices are the same, in the same order and with the same status; or one is new: it comes
  -- last, is pending, and has a MAC address that no device had.
  pub data Untouched (rows after : List (EndpointRow Json)) : Type 0 where
    same : map status_of after ≡ map status_of rows → Untouched rows after
    one_more :
        (r : EndpointRow Json)
        → map status_of after ≡ map status_of rows ++ status_of r ∷ []
        → r.status ≡ "pending"
        → find (has_mac r.mac_address) rows ≡ none
        → Untouched rows after

  pub Unchanged :
      List (EndpointRow Json) → List Message → List (EndpointRow Json) → List Message → Type 0
  Unchanged rows before e m = (m ≡ before) × Untouched rows e

  module _ (platform : Platform Json) (rows : List (EndpointRow Json)) (before : List Message) where
    -- Before a device is registered.
    abbrev Nothing : List (EndpointRow Json) → List Message → Type 0
    Nothing e m = (m ≡ before) × (e ≡ rows)

    Nothing-Unchanged :
        (w : World Json) → OnEndpoints Nothing w → OnEndpoints (Unchanged rows before) w
    unfolding Unchanged
    Nothing-Unchanged w (q, e) = (q, same (ap (map status_of) e))

    upsert-Unchanged :
        (ep : UpsertEndpoint)
        → Meets
            (OnEndpoints Nothing)
            (OnEndpoints (Unchanged rows before))
            (upsert platform ep)
            (λ _. OnEndpoints (Unchanged rows before))
    unfolding upsert upsert_rows insert_endpoint merge_endpoint Unchanged
    upsert-Unchanged ep = Meets-statement platform _ Nothing-Unchanged λ w (q, is).
        Yields-bind (cast platform.macaddr ep.mac_address) _ λ mac e.
          Yields-bind (cast_option platform.inet ep.ip_address) _ λ ip e'. Yields-bail _ _ _ λ free.
            elim (Option-cases (find (has_mac mac) w.tables.endpoints)) [
              | inl new ↦ rw new (
                  Yields-bail _ _ _ λ fresh. Yields-ok (
                    q,
                    let row = insert_endpoint platform w.calls mac ip ep in
                        one_more row
                          (map-append status_of w.tables.endpoints row
                            ∙ ap (λ l. map status_of l ++ status_of row ∷ []) is)
                          refl (ap (find (has_mac mac)) (sym is) ∙ new),
                  ))
              | inr (r, old) ↦ rw old (
                  Yields-ok (
                    q,
                    same (
                        map-update status_of (has_mac mac) _ w.tables.endpoints (λ r. refl)
                        ∙ ap (map status_of) is),
                  ))
            ]

    abbrev I : List (EndpointRow Json) → List SessionRow → List Message → Type 0
    I e s m = Unchanged rows before e m

    abbrev N : List (EndpointRow Json) → List SessionRow → List Message → Type 0
    N e s m = Nothing e m

    look_up-Nothing : (resp : AuthResponse) → Keeps (OnEndpoints Nothing) (look_up platform resp)
    unfolding look_up find_by_host
    look_up-Nothing resp =
        Meets-option resp.endpoint_id _ _
          (λ e.
            Meets-option (non_empty resp.mac_address) _ _
              (λ e.
                Meets-option (non_empty resp.ip_address) _ _ (λ e. Keeps-pure none)
                  (λ ip e. Keeps-statement N platform _ λ n t sent u. Yields-ok u))
              (λ mac e. Keeps-find_by_mac N platform mac))
          (λ eid e. Keeps-find_by_id N platform eid)

    resolve-Unchanged :
        (resp : AuthResponse)
        → Meets
            (OnEndpoints Nothing)
            (OnEndpoints (Unchanged rows before))
            (resolve platform resp)
            (λ _. OnEndpoints (Unchanged rows before))
    unfolding resolve
    resolve-Unchanged resp =
        Meets-bind (Meets-fails (look_up-Nothing resp) Nothing-Unchanged) λ found.
          Meets-option found _ _
            (λ e.
              Meets-option (non_empty resp.mac_address) _ _ (λ e. Meets-pure none Nothing-Unchanged)
                λ mac e. Meets-bind (upsert-Unchanged _) λ row. Keeps-pure (some row))
            (λ row e. Meets-pure (some row) Nothing-Unchanged)

    end_found-Unchanged :
        (session : Option SessionRow)
        → Keeps (OnEndpoints (Unchanged rows before)) (end_found platform session)
    end_found-Unchanged none = Keeps-pure tt
    end_found-Unchanged (some s) = Keeps-terminate (Unchanged rows before) platform s.id

    failed_login-Unchanged :
        (resp : AuthResponse)
        → resp.success ≡ false
        → Meets
            (OnEndpoints Nothing)
            (OnEndpoints (Unchanged rows before))
            (process_auth_response platform resp)
            (λ _. OnEndpoints (Unchanged rows before))
    unfolding process_auth_response answer_login find_session auth_failed
    failed_login-Unchanged resp fails = Meets-bind (resolve-Unchanged resp) λ found.
        Meets-option found _ _ (λ e. Keeps-pure tt)
          λ endpoint e.
            Meets-bind
              (Meets-option resp.session_id _ _
                (λ e. Keeps-find_active_by_endpoint I platform endpoint.id)
                (λ sid e. Keeps-find_session I platform sid))
              λ session.
                Meets-if resp.success _ _ (λ b. absurd cc)
                  (λ b. Meets-bind (end_found-Unchanged session) λ t. Keeps-log I platform _ _ _ _)

module _ {Json : Type 0} (platform : Platform Json) where
  -- A login that failed publishes nothing and changes no device's status: the devices are the ones
  -- that were there, in order, each with its id, its MAC address and its status, and after them at
  -- most one that is new, pending, and of a MAC address that no device had. This holds also if the
  -- database fails on the way.
  pub failed_login :
      (resp : AuthResponse) (w : World Json)
      → resp.success ≡ false
      → let after = (process_auth_response platform resp w).1 in
        (after.sent ≡ w.sent) × Untouched w.tables.endpoints after.tables.endpoints
  unfolding Unchanged
  failed_login resp w fails =
      let rows = w.tables.endpoints in
      Ends-state (OnEndpoints (Unchanged rows w.sent)) (process_auth_response platform resp w)
        ((failed_login-Unchanged platform rows w.sent resp fails).at w (refl, refl))
