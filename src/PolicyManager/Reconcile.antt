-- ===== src/PolicyManager/Reconcile.antt =====
-- services/policy-manager/src/background.rs: what is done once at the start.
use lentropy.Common.{
  ℕ, Bool, not, ◌&&◌, ◌||◌, none, List, [], ◌∷◌, ◌++◌, codes, Text, str_eq, ◌==◌, if◌then◌else◌,
  any, filter, length, map, unwrap_or,
}
use lentropy.Outcome.{ok, bail_if, ◌>>◌}
use lentropy.Exec.{pure, attempt, for_each, ◌>>=◌}
use lentropy.Store.Endpoint.{EndpointRow}
use lentropy.Store.Database.{Platform, Db, violated, IpRuleRow, statement, update_where}
use lentropy.Store.Sessions.{is_open, end_session, session_has_id, new_session}
use lentropy.PolicyManager.Commands.{strip_cidr, map_some, is_some, send}

module _ {Json : Type 0} where
  -- `status = 'allowed' AND username IS NOT NULL`.
  unfoldable pub is_logged_in : EndpointRow Json → Bool
  is_logged_in r = str_eq r.status "allowed" && is_some r.username

  unfoldable pub log_out : EndpointRow Json → EndpointRow Json
  log_out r = record r { status = "quarantined"; username = none }

  unfoldable pub is_restricted : EndpointRow Json → Bool
  is_restricted r = str_eq r.status "denied" || str_eq r.status "quarantined"

  abbrev pub ip_of : EndpointRow Json → Text
  ip_of r = unwrap_or (map_some strip_cidr r.ip_address) []

  module _ (platform : Platform Json) where
    open platform use {now, uuid}

    unfoldable pub end_open_sessions : Db Json ℕ
    unfolding end_session
    end_open_sessions = statement platform λ n tables. ok (
      length (filter is_open tables.sessions),
      record tables { sessions = update_where is_open (end_session (now n)) tables.sessions },
    )

    -- `UPDATE … RETURNING`: the rows as they are then.
    unfoldable pub log_out_all : Db Json (List (EndpointRow Json))
    unfolding is_logged_in log_out
    log_out_all = statement platform λ n tables. ok (
      map log_out (filter is_logged_in tables.endpoints),
      record tables { endpoints = update_where is_logged_in log_out tables.endpoints },
    )

    -- `INSERT INTO sessions (endpoint_id, auth_method)`.
    unfoldable pub insert_session : ℕ → Db Json (Unit {0})
    insert_session endpoint_id = statement platform λ n tables.
        bail_if
          (any (session_has_id (uuid n)) tables.sessions
            || not (any (λ e. e.id == endpoint_id) tables.endpoints))
          violated
        >> ok (
          tt,
          record tables {
            sessions =
                tables.sessions
                ++ new_session platform n (record {
                  endpoint_id = endpoint_id;
                  auth_method = "captive_portal";
                  vlan_id = none;
                })
                  ∷ [];
          },
        )

    unfoldable pub quarantine_again : EndpointRow Json → Db Json (Unit {0})
    unfolding strip_cidr
    quarantine_again r = do
      s ← attempt (insert_session r.id)
      send platform r.mac_address (ip_of r) "quarantine" none

    unfoldable pub list_restricted : Db Json (List (EndpointRow Json))
    unfolding is_restricted
    list_restricted =
        statement platform λ n tables. ok (filter is_restricted tables.endpoints, tables)

    unfoldable pub restrict_again : EndpointRow Json → Db Json (Unit {0})
    unfolding strip_cidr
    restrict_again r =
        send platform r.mac_address (ip_of r)
          (if str_eq r.status "denied" then "block" else "quarantine") none

    unfoldable pub list_ip_rules : Db Json (List IpRuleRow)
    list_ip_rules =
        statement platform λ n tables. ok (filter (λ r. r.enabled) tables.ip_rules, tables)

    unfoldable pub apply_ip_rule : IpRuleRow → Db Json (Unit {0})
    unfolding strip_cidr
    apply_ip_rule r =
        let ip = strip_cidr r.ip_cidr in
        if str_eq r.action "block"
        then send platform (codes "00:00:00:00:00:00") ip "block" none
        else if str_eq r.action "quarantine"
        then send platform (codes "00:00:00:00:00:00") ip "quarantine" none
        else pure tt

    unfoldable pub reconcile : Db Json (Unit {0})
    reconcile = do
      terminated ← attempt end_open_sessions
      reauth ← log_out_all
      q ← for_each quarantine_again reauth
      rows ← list_restricted
      r ← for_each restrict_again rows
      rules ← list_ip_rules
      for_each apply_ip_rule rules
