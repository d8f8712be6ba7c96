-- ===== src/PolicyManager/Api.antt =====
-- services/policy-manager/src/api/endpoints.rs: the requests for one device. The text of an error
-- message is left out.
pub mod Decided
pub mod Enforced
pub mod IpRules
pub mod Requests
pub mod Valid
use lentropy.Common.{
  ℕ, Bool, Option, none, some, List, [], ◌∷◌, Text, String, codes, if◌then◌else◌, unwrap_or,
}
use lentropy.Outcome.{Outcome, ok, err, panic, timeout}
use lentropy.Exec.{Exec, pure, fail, ◌>>=◌}
use lentropy.Store.Endpoint.{EndpointRow}
use lentropy.Store.Database.{Platform, Db, StoreError, World, Value, null, bool, number, name}
use lentropy.Store.Endpoints.{find_by_id, find_by_mac, set_status, set_policy}
use lentropy.Store.Endpoints
use lentropy.Store.Logs.{log}
use lentropy.PolicyManager.Commands.{strip_cidr, send}

pub data AppError : Type 0 where
  db : StoreError → AppError
  not_found : AppError
  serialization : AppError

unfoldable pub status_code : AppError → ℕ
status_code not_found = 404
status_code (db e) = 500
status_code serialization = 500

abbrev pub Api : Type 0 → Type 0 → Type 0
Api Json A = Exec (World Json) AppError A

module _ {Json A : Type 0} where
  -- `From<anyhow::Error>`.
  abbrev pub from_store : Outcome StoreError A × World Json → Outcome AppError A × World Json
  from_store (ok a, w) = (ok a, w)
  from_store (err e, w) = (err (db e), w)
  from_store (panic, w) = (panic, w)
  from_store (timeout, w) = (timeout, w)

  unfoldable pub asked : Db Json A → Api Json A
  asked m w = from_store (m w)

module _ {Json : Type 0} (platform : Platform Json) where
  unfoldable pub answer_with : Option (EndpointRow Json) → Api Json Json
  answer_with none = fail not_found
  answer_with (some ep) = elim (platform.endpoint_to_value ep) [
    | some v ↦ pure v
    | none ↦ fail serialization
  ]

  unfoldable pub get_endpoint : ℕ → Api Json Json
  unfolding asked answer_with
  get_endpoint id = do found ← asked (find_by_id platform id); answer_with found

  unfoldable pub get_endpoint_by_mac : Text → Api Json Json
  unfolding asked answer_with
  get_endpoint_by_mac mac = do found ← asked (find_by_mac platform mac); answer_with found

  abbrev note_change : String → ℕ → List (String × Value) → Api Json (Unit {0})
  note_change event_type id detail = asked (log platform event_type (some id) (codes "api") detail)

  unfoldable pub set_and_send : EndpointRow Json → ℕ → String → String → Api Json Json
  unfolding asked answer_with send strip_cidr
  set_and_send ep id status event_type = do
    s ← asked (set_status platform id status)
    l ← note_change event_type id (("status", name status) ∷ [])
    p ← asked (send platform ep.mac_address (strip_cidr (unwrap_or ep.ip_address [])) status none)
    updated ← asked (find_by_id platform id)
    answer_with updated

  unfoldable pub update_endpoint_status : ℕ → String → String → Api Json Json
  unfolding asked set_and_send
  update_endpoint_status id status event_type = do
    found ← asked (find_by_id platform id)
    elim found [ none ↦ fail not_found | some ep ↦ set_and_send ep id status event_type ]

  unfoldable pub allow_endpoint : ℕ → Api Json Json
  unfolding update_endpoint_status
  allow_endpoint id = update_endpoint_status id "allowed" "endpoint_allowed"

  unfoldable pub block_endpoint : ℕ → Api Json Json
  unfolding update_endpoint_status
  block_endpoint id = update_endpoint_status id "denied" "endpoint_blocked"

  unfoldable pub quarantine_endpoint : ℕ → Api Json Json
  unfolding update_endpoint_status
  quarantine_endpoint id = update_endpoint_status id "quarantined" "endpoint_quarantined"

  abbrev policy_value : Option ℕ → Value
  policy_value none = null
  policy_value (some id) = number id

  unfoldable pub set_and_note :
      Db Json (Unit {0}) → String → ℕ → List (String × Value) → Api Json Json
  unfolding asked answer_with
  set_and_note m event_type id detail = do
    s ← asked m
    l ← note_change event_type id detail
    updated ← asked (find_by_id platform id)
    answer_with updated

  unfoldable pub assign_policy : ℕ → Option ℕ → Api Json Json
  unfolding asked set_and_note
  assign_policy id policy_id = do
    found ← asked (find_by_id platform id)
    elim found [
      | none ↦ fail not_found
      | some ep ↦
          set_and_note (set_policy platform id policy_id) "endpoint_policy_assigned" id
            (("policy_id", policy_value policy_id) ∷ [])
    ]

  unfoldable pub set_exempt : ℕ → Bool → Api Json Json
  unfolding asked set_and_note
  set_exempt id exempt = do
    found ← asked (find_by_id platform id)
    elim found [
      | none ↦ fail not_found
      | some ep ↦
          set_and_note (Endpoints.set_exempt platform id exempt)
            (if exempt then "endpoint_policy_exempted" else "endpoint_policy_unexempted") id
            (("exempt", bool exempt) ∷ [])
    ]
