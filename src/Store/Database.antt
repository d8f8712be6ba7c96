-- ===== src/Store/Database.antt =====
-- The tables of services/policy-manager/migrations as lists of rows, and the statements of
-- crates/nac-store on them. A statement is done as a whole or fails and leaves the tables as they
-- are. What is not in the repository is a parameter: whether PostgreSQL answers, its clock and its
-- new UUIDs, how it reads and writes MACADDR and INET, and serde's and Unicode's functions.
use lentropy.Common.{
  ℕ, suc, Bool, ◌||◌, Option, none, some, List, [], ◌∷◌, ◌++◌, Text, String, str_eq, if◌then◌else◌,
  map,
}
use lentropy.Common.Int.{ℤ}
use lentropy.Outcome.{Outcome, ok, err, panic, timeout}
use lentropy.Exec.{Exec}
use lentropy.PolicyEngine.{PolicyError, PolicyDecision, Condition}
use lentropy.Store.Endpoint.{EndpointRow}
use lentropy.Store.Policy.{PolicyRow}
use lentropy.Store.Posture.{SoftwareItem, PatchItem}
use lentropy.Enforcement.Consumer.{EnforcementCommand}

pub record SessionRow : Type 0 where
  pub id : ℕ
  pub endpoint_id : ℕ
  pub username : Option Text
  pub auth_method : Option String
  pub state : String
  pub vlan_id : Option ℤ
  pub started_at : ℕ
  pub ended_at : Option ℕ
  pub updated_at : ℕ

-- The values of the `json!` objects that are logged.
pub data Value : Type 0 where
  null : Value
  bool : Bool → Value
  number : ℕ → Value
  text : Text → Value
  name : String → Value
  texts : List Text → Value

abbrev pub value_of : Option Text → Value
value_of none = null
value_of (some t) = text t

pub record AuditRow : Type 0 where
  pub id : ℕ
  pub event_type : String
  pub endpoint_id : Option ℕ
  pub actor : Text
  pub detail : List (String × Value)
  pub created_at : ℕ

pub record PostureRow (Json : Type 0) : Type 0 where
  pub id : ℕ
  pub endpoint_id : ℕ
  pub os : Text
  pub os_version : Text
  pub installed_sw : Json
  pub missing_patches : Json
  pub usb_enabled : Bool
  pub bluetooth_enabled : Bool
  pub folder_sharing : Bool
  pub is_compliant : Bool
  pub reported_at : ℕ

pub record IpRuleRow : Type 0 where
  pub id : ℕ
  pub ip_cidr : Text
  pub action : String
  pub note : Option Text
  pub enabled : Bool
  pub created_at : ℕ

pub record Tables (Json : Type 0) : Type 0 where
  pub endpoints : List (EndpointRow Json)
  pub sessions : List SessionRow
  pub policies : List (PolicyRow Json)
  pub audit_log : List AuditRow
  pub posture_reports : List (PostureRow Json)
  pub ip_rules : List IpRuleRow

-- The `json!` object that the ARP sync publishes; `interface` is always "".
pub record DetectedEvent : Type 0 where
  pub mac_address : Text
  pub ip_address : Text
  pub source : String
  pub timestamp : ℕ

pub data Message : Type 0 where
  command : EnforcementCommand → Message
  detected : DetectedEvent → Message

-- `calls` counts the calls of the database and of the message bus.
pub record World (Json : Type 0) : Type 0 where
  pub tables : Tables Json
  pub sent : List Message
  pub calls : ℕ

pub data StoreError : Type 0 where
  unreachable : StoreError
  -- A text that is no MACADDR or INET.
  invalid_input : Text → StoreError
  -- A CHECK, a UNIQUE, a primary key or a reference.
  violated : StoreError
  serde_failed : StoreError
  policy_failed : PolicyError → StoreError

pub record Platform (Json : Type 0) : Type 0 where
  pub answers : ℕ → Bool
  pub takes : ℕ → Bool
  -- Whether the CHECKs on statuses and states are in force, as the migrations declare them. What
  -- holds without them is done by the code itself.
  pub checks : Bool
  pub now : ℕ → ℕ
  pub uuid : ℕ → ℕ
  -- `::macaddr` and `::inet`, then `::text`; and `host(inet)` of that text.
  pub macaddr : Text → Option Text
  pub inet : Text → Option Text
  pub host : Text → Text
  pub is_null_or_empty : Json → Bool
  pub conditions_from_value : Json → Outcome StoreError (List Condition)
  pub empty_array : Json
  pub software_to_value : List SoftwareItem → Option Json
  pub patches_to_value : List PatchItem → Option Json
  pub null_value : Json
  pub to_uppercase : Text → Text
  pub to_lowercase : Text → Text
  pub contains : Text → Text → Bool
  pub endpoint_to_value : EndpointRow Json → Option Json
  pub trim : Text → Text
  -- `format!("{:?}", decision)`.
  pub debug : PolicyDecision → Text

abbrev pub Db : Type 0 → Type 0 → Type 0
Db Json A = Exec (World Json) StoreError A

abbrev pub cast : (Text → Option Text) → Text → Outcome StoreError Text
cast read t = elim (read t) [ some v ↦ ok v | none ↦ err (invalid_input t) ]

abbrev pub cast_option : (Text → Option Text) → Option Text → Outcome StoreError (Option Text)
cast_option read none = ok none
cast_option read (some t) = elim (read t) [ some v ↦ ok (some v) | none ↦ err (invalid_input t) ]

unfoldable pub is_status : String → Bool
is_status s =
    str_eq s "allowed" || (str_eq s "quarantined" || (str_eq s "denied" || str_eq s "pending"))

unfoldable pub is_state : String → Bool
is_state s =
    str_eq s "detecting"
    || (str_eq s "authenticating"
        || (str_eq s "checking_integrity"
            || (str_eq s "active" || (str_eq s "quarantined" || str_eq s "terminated"))))

module _ {Json : Type 0} (platform : Platform Json) where
  open platform use {answers, takes}

  module _ {A : Type 0} where
    abbrev pub settle :
        World Json → Outcome StoreError (A × Tables Json) → Outcome StoreError A × World Json
    settle w (ok (a, tables)) = (ok a, record w { tables = tables })
    settle w (err e) = (err e, w)
    settle w panic = (panic, w)
    settle w timeout = (timeout, w)

    -- One statement; it is given the number of the call, for the clock and the UUIDs.
    unfoldable pub statement : (ℕ → Tables Json → Outcome StoreError (A × Tables Json)) → Db Json A
    statement f w =
        let called = record w { calls = suc w.calls } in
        if answers w.calls then settle called (f w.calls w.tables) else (err unreachable, called)

  -- `nats.publish`, whose failure is only logged.
  unfoldable pub publish : Message → Db Json (Unit {0})
  publish m w =
      let called = record w { calls = suc w.calls } in
      if takes w.calls then (ok tt, record called { sent = w.sent ++ m ∷ [] }) else (ok tt, called)

-- `UPDATE … WHERE`.
abbrev pub update_where {ℓ} : {A : Type ℓ} → (A → Bool) → (A → A) → List A → List A
update_where p f rows = map (λ r. if p r then f r else r) rows
