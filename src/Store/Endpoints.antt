-- ===== src/Store/Endpoints.antt =====
-- crates/nac-store/src/endpoint.rs: the statements of `EndpointRepo`, but for its sorted list.
use lentropy.Common.{
  ℕ, Bool, false, not, ◌&&◌, Option, none, some, List, [], ◌∷◌, ◌++◌, Text, text_eq, String, ◌==◌,
  any, find, or_else, length,
}
use lentropy.Common.Int.{ℤ, pos}
use lentropy.Outcome.{Outcome, ok, bail_if, ◌>>=◌, ◌>>◌}
use lentropy.Exec.{pure}
use lentropy.Store.Endpoint.{EndpointRow}
use lentropy.Store.Database.{
  Tables, StoreError, violated, Platform, Db, cast, cast_option, is_status, statement, update_where,
}

pub record UpsertEndpoint : Type 0 where
  pub mac_address : Text
  pub ip_address : Option Text
  pub hostname : Option Text
  pub os_family : Option Text
  pub os_version : Option Text
  pub device_type : Option Text
  pub vendor : Option Text
  pub interface : Option Text
  pub agent_id : Option Text

pub record PostureFields (Json : Type 0) : Type 0 where
  pub sw : Json
  pub missing_patches : ℤ
  pub usb_enabled : Bool
  pub bluetooth : Bool
  pub folder_sharing : Bool
  pub os_version : Text

-- SQL's `=` on a column that may be NULL.
abbrev pub is_text : Option Text → Text → Bool
is_text none t = false
is_text (some s) t = text_eq s t

module _ {Json : Type 0} where
  abbrev pub has_mac : Text → EndpointRow Json → Bool
  has_mac mac r = text_eq r.mac_address mac

  abbrev pub has_id : ℕ → EndpointRow Json → Bool
  has_id id r = r.id == id

  -- The unique index on `agent_id`, which NULLs do not count for.
  abbrev pub agent_taken : Option Text → Text → List (EndpointRow Json) → Bool
  agent_taken none mac rows = false
  agent_taken (some a) mac rows = any (λ r. is_text r.agent_id a && not (has_mac mac r)) rows

  -- `INSERT`: the defaults of the columns, and the keys.
  unfoldable pub insert_endpoint :
      Platform Json → ℕ → Text → Option Text → UpsertEndpoint → EndpointRow Json
  insert_endpoint platform n mac ip ep = record {
    id = platform.uuid n;
    mac_address = mac;
    ip_address = ip;
    hostname = ep.hostname;
    os_family = ep.os_family;
    os_version = ep.os_version;
    device_type = ep.device_type;
    vendor = ep.vendor;
    vlan_id = none;
    switch_port = none;
    interface = ep.interface;
    username = none;
    status = "pending";
    first_seen = platform.now n;
    last_seen = platform.now n;
    is_compliant = none;
    last_posture_check = none;
    assigned_policy_id = none;
    policy_exempt = false;
    posture_sw = none;
    posture_missing_patches = pos 0;
    posture_usb_enabled = none;
    posture_bluetooth = none;
    posture_folder_sharing = none;
    posture_os_version = none;
    agent_id = ep.agent_id;
  }

  -- `ON CONFLICT (mac_address) DO UPDATE`, with `COALESCE(EXCLUDED.…, endpoints.…)`.
  unfoldable pub merge_endpoint :
      ℕ → Option Text → UpsertEndpoint → EndpointRow Json → EndpointRow Json
  merge_endpoint now ip ep r = record r {
    ip_address = or_else ip r.ip_address;
    hostname = or_else ep.hostname r.hostname;
    os_family = or_else ep.os_family r.os_family;
    os_version = or_else ep.os_version r.os_version;
    device_type = or_else ep.device_type r.device_type;
    vendor = or_else ep.vendor r.vendor;
    interface = or_else ep.interface r.interface;
    agent_id = or_else ep.agent_id r.agent_id;
    last_seen = now;
  }

  module _ (platform : Platform Json) where
    open platform use {checks, now, uuid, macaddr, inet}

    abbrev upserted :
        ℕ
        → Text
        → Option Text
        → UpsertEndpoint
        → Tables Json
        → Option (EndpointRow Json)
        → Outcome StoreError (EndpointRow Json × Tables Json)
    upserted n mac ip ep tables (some r) =
        let row = merge_endpoint (now n) ip ep r in
        ok (
          row,
          record tables {
            endpoints = update_where (has_mac mac) (merge_endpoint (now n) ip ep) tables.endpoints;
          },
        )
    upserted n mac ip ep tables none =
        let row = insert_endpoint platform n mac ip ep in
        bail_if (any (has_id (uuid n)) tables.endpoints) violated
        >> ok (row, record tables { endpoints = tables.endpoints ++ row ∷ [] })

    unfoldable pub upsert_rows :
        UpsertEndpoint → ℕ → Tables Json → Outcome StoreError (EndpointRow Json × Tables Json)
    unfolding insert_endpoint merge_endpoint
    upsert_rows ep n tables = do
      mac ← cast macaddr ep.mac_address
      ip ← cast_option inet ep.ip_address
      bail_if (agent_taken ep.agent_id mac tables.endpoints) violated
      upserted n mac ip ep tables (find (has_mac mac) tables.endpoints)

    unfoldable pub upsert : UpsertEndpoint → Db Json (EndpointRow Json)
    unfolding upsert_rows
    upsert ep = statement platform (upsert_rows ep)

    -- The `UPDATE` of `upsert_by_agent_id`: the address must not be another row's.
    unfoldable pub move_endpoint :
        ℕ → Text → Option Text → UpsertEndpoint → EndpointRow Json → EndpointRow Json
    move_endpoint n mac ip ep r = record r {
      mac_address = mac;
      ip_address = or_else ip r.ip_address;
      hostname = or_else ep.hostname r.hostname;
      os_family = or_else ep.os_family r.os_family;
      os_version = or_else ep.os_version r.os_version;
      last_seen = now n;
    }

    abbrev mac_taken : Text → Text → List (EndpointRow Json) → Bool
    mac_taken agent mac rows =
        any (λ r. is_text r.agent_id agent) rows
        && any (λ r. has_mac mac r && not (is_text r.agent_id agent)) rows

    unfoldable pub upsert_by_agent_id : UpsertEndpoint → Db Json (Option (EndpointRow Json))
    unfolding move_endpoint
    upsert_by_agent_id ep = elim ep.agent_id [
      | none ↦ pure none
      | some [] ↦ pure none
      | some (c ∷ cs) ↦
          let agent = c ∷ cs in
          statement platform λ n tables. do
            mac ← cast macaddr ep.mac_address
            ip ← cast_option inet ep.ip_address
            bail_if (mac_taken agent mac tables.endpoints) violated
            let rows =
                update_where (λ r. is_text r.agent_id agent) (move_endpoint n mac ip ep)
                  tables.endpoints
            ok (find (λ r. is_text r.agent_id agent) rows, record tables { endpoints = rows })
    ]

    unfoldable pub find_by_mac : Text → Db Json (Option (EndpointRow Json))
    find_by_mac mac =
        statement platform
          λ n tables. do m ← cast macaddr mac; ok (find (has_mac m) tables.endpoints, tables)

    unfoldable pub find_by_agent_id : Text → Db Json (Option (EndpointRow Json))
    find_by_agent_id agent =
        statement platform
          λ n tables. ok (find (λ r. is_text r.agent_id agent) tables.endpoints, tables)

    unfoldable pub find_by_id : ℕ → Db Json (Option (EndpointRow Json))
    find_by_id id = statement platform λ n tables. ok (find (has_id id) tables.endpoints, tables)

    -- An `UPDATE` of the row with an id.
    abbrev pub update_row :
        (ℕ → EndpointRow Json → EndpointRow Json)
        → ℕ
        → ℕ
        → Tables Json
        → Outcome StoreError (Unit {0} × Tables Json)
    update_row f id n tables =
        ok (tt, record tables { endpoints = update_where (has_id id) (f n) tables.endpoints })

    -- The CHECK is made for a row that changes.
    unfoldable pub set_status : ℕ → String → Db Json (Unit {0})
    set_status id status = statement platform λ n tables.
        bail_if (checks && (not (is_status status) && any (has_id id) tables.endpoints)) violated
        >> update_row (λ n r. record r { status = status }) id n tables

    abbrev dangling : Option ℕ → Tables Json → Bool
    dangling none tables = false
    dangling (some pid) tables = not (any (λ p. p.id == pid) tables.policies)

    -- The reference to a policy is checked for a row that changes.
    unfoldable pub set_policy : ℕ → Option ℕ → Db Json (Unit {0})
    set_policy id policy_id = statement platform λ n tables.
        bail_if (dangling policy_id tables && any (has_id id) tables.endpoints) violated
        >> update_row (λ n r. record r { assigned_policy_id = policy_id }) id n tables

    unfoldable pub set_exempt : ℕ → Bool → Db Json (Unit {0})
    set_exempt id exempt =
        statement platform (update_row (λ n r. record r { policy_exempt = exempt }) id)

    unfoldable pub set_username : ℕ → Text → Db Json (Unit {0})
    set_username id username =
        statement platform (update_row (λ n r. record r { username = some username }) id)

    unfoldable pub set_compliance : ℕ → Bool → Db Json (Unit {0})
    set_compliance id is_compliant = statement platform (
        update_row
          (λ n r. record r { is_compliant = some is_compliant; last_posture_check = some (now n) })
          id)

    unfoldable pub update_posture_fields : ℕ → PostureFields Json → Db Json (Unit {0})
    update_posture_fields id f = statement platform (
        update_row
          (λ n r. record r {
            posture_sw = some f.sw;
            posture_missing_patches = f.missing_patches;
            posture_usb_enabled = some f.usb_enabled;
            posture_bluetooth = some f.bluetooth;
            posture_folder_sharing = some f.folder_sharing;
            posture_os_version = some f.os_version;
          })
          id)

    unfoldable pub count : Db Json ℕ
    count = statement platform λ n tables. ok (length tables.endpoints, tables)
