-- ===== src/Store/Sessions.antt =====
-- crates/nac-store/src/session.rs: the statements of `SessionRepo`.
use lentropy.Common.{
  ℕ, Bool, not, ◌&&◌, ◌||◌, Option, none, some, List, [], ◌∷◌, ◌++◌, Text, String, ◌==◌, ltb,
  if◌then◌else◌, any, find, filter, or_else,
}
use lentropy.Common.Int.{ℤ}
use lentropy.Outcome.{ok, bail_if, ◌>>◌}
use lentropy.Store.Database.{SessionRow, violated, Platform, Db, is_state, statement, update_where}

pub record CreateSession : Type 0 where
  pub endpoint_id : ℕ
  pub auth_method : String
  pub vlan_id : Option ℤ

abbrev pub is_none : {A : Type 0} → Option A → Bool
is_none none = Bool.true
is_none (some a) = Bool.false

abbrev pub session_has_id : ℕ → SessionRow → Bool
session_has_id id s = s.id == id

abbrev pub is_open : SessionRow → Bool
is_open s = is_none s.ended_at

-- `ORDER BY started_at DESC LIMIT 1`; of two that began at once, the one that stands first.
unfoldable pub latest : List SessionRow → Option SessionRow
latest [] = none
latest (s ∷ rest) = elim (latest rest) [
  | none ↦ some s
  | some t ↦ if ltb s.started_at t.started_at then some t else some s
]

unfoldable pub find_active : ℕ → List SessionRow → Option SessionRow
unfolding latest
find_active endpoint_id rows =
    latest (filter (λ s. (s.endpoint_id == endpoint_id) && is_open s) rows)

unfoldable pub end_session : ℕ → SessionRow → SessionRow
end_session now s = record s { state = "terminated"; ended_at = some now; updated_at = now }

abbrev pub move_session : ℕ → String → Option Text → SessionRow → SessionRow
move_session now new_state username s = record s {
  state = new_state;
  username = or_else username s.username;
  updated_at = now;
}

module _ {Json : Type 0} (platform : Platform Json) where
  open platform use {checks, now, uuid}

  abbrev pub new_session : ℕ → CreateSession → SessionRow
  new_session n s = record {
    id = uuid n;
    endpoint_id = s.endpoint_id;
    username = none;
    auth_method = some s.auth_method;
    state = "detecting";
    vlan_id = s.vlan_id;
    started_at = now n;
    ended_at = none;
    updated_at = now n;
  }

  -- The primary key, and the reference to an endpoint.
  unfoldable pub create : CreateSession → Db Json SessionRow
  create s = statement platform λ n tables.
      bail_if
        (any (session_has_id (uuid n)) tables.sessions
          || not (any (λ e. e.id == s.endpoint_id) tables.endpoints))
        violated
      >> ok (new_session n s, record tables { sessions = tables.sessions ++ new_session n s ∷ [] })

  unfoldable pub find_active_by_endpoint : ℕ → Db Json (Option SessionRow)
  unfolding find_active
  find_active_by_endpoint endpoint_id =
      statement platform λ n tables. ok (find_active endpoint_id tables.sessions, tables)

  unfoldable pub find_by_id : ℕ → Db Json (Option SessionRow)
  find_by_id id =
      statement platform λ n tables. ok (find (session_has_id id) tables.sessions, tables)

  unfoldable pub transition : ℕ → String → Option Text → Db Json (Unit {0})
  transition id new_state username = statement platform λ n tables.
      bail_if (checks && (not (is_state new_state) && any (session_has_id id) tables.sessions))
        violated
      >> ok (
        tt,
        record tables {
          sessions =
              update_where (session_has_id id) (move_session (now n) new_state username)
                tables.sessions;
        },
      )

  unfoldable pub terminate : ℕ → Db Json (Unit {0})
  unfolding end_session
  terminate id = statement platform λ n tables. ok (
    tt,
    record tables {
      sessions = update_where (session_has_id id) (end_session (now n)) tables.sessions;
    },
  )
