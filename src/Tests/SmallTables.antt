-- ===== src/Tests/SmallTables.antt =====
-- Small tables of services/policy-manager, its events, and calls that all succeed.
use lentropy.Common.{Bool, true, false, List, [], ◌∷◌, some, none, Text, codes, String}
use lentropy.Common.Int.{pos}
use lentropy.Outcome.{ok}
use lentropy.Store.Endpoint.{EndpointRow}
use lentropy.Store.Policy.{PolicyRow}
use lentropy.Store.Posture.{PostureReport}
use lentropy.Store.Database.{Platform, World, SessionRow}
use lentropy.PolicyManager.Detected.{EndpointDetectedEvent}
use lentropy.PolicyManager.AuthResponse.{AuthResponse}
use lentropy.PolicyManager.ArpSync.{Files}
use lentropy.PolicyManager.Api.Requests.{block, create_rule}
use lentropy.PolicyManager.Events.{
  Event, endpoint_detected, auth_response, posture_report, reconciliation, arp_scan, request, State,
}

abbrev pub platform : Platform (Unit {0})
platform = record {
  answers = λ n. true;
  takes = λ n. true;
  checks = true;
  now = λ n. n;
  uuid = λ n. n;
  macaddr = λ t. some t;
  inet = λ t. some t;
  host = λ t. t;
  is_null_or_empty = λ j. true;
  conditions_from_value = λ j. ok [];
  empty_array = tt;
  software_to_value = λ s. some tt;
  patches_to_value = λ p. some tt;
  null_value = tt;
  to_uppercase = λ t. t;
  to_lowercase = λ t. t;
  contains = λ s t. false;
  endpoint_to_value = λ r. some tt;
  trim = λ t. t;
  debug = λ d. [];
}

abbrev pub mac : Text
mac = codes "02:00:00:00:00:09"

abbrev pub device : String → EndpointRow (Unit {0})
device status = record {
  id = 100;
  mac_address = mac;
  ip_address = some (codes "192.168.0.24");
  hostname = none;
  os_family = none;
  os_version = none;
  device_type = none;
  vendor = none;
  vlan_id = none;
  switch_port = none;
  interface = none;
  username = some (codes "kim");
  status = status;
  first_seen = 0;
  last_seen = 0;
  is_compliant = none;
  last_posture_check = none;
  assigned_policy_id = none;
  policy_exempt = false;
  posture_sw = none;
  posture_missing_patches = pos 0;
  posture_usb_enabled = none;
  posture_bluetooth = none;
  posture_folder_sharing = none;
  posture_os_version = none;
  agent_id = none;
}

abbrev pub session : SessionRow
session = record {
  id = 101;
  endpoint_id = 100;
  username = none;
  auth_method = some "captive_portal";
  state = "active";
  vlan_id = none;
  started_at = 0;
  ended_at = none;
  updated_at = 0;
}

abbrev pub quarantine_all : PolicyRow (Unit {0})
quarantine_all = record {
  id = 102;
  name = codes "all";
  description = none;
  priority = pos 1;
  conditions = tt;
  action = "quarantine";
  vlan_id = none;
  enabled = true;
  created_at = 0;
}

abbrev pub start : String → List SessionRow → World (Unit {0})
start status sessions = record {
  tables = record {
    endpoints = device status ∷ [];
    sessions = sessions;
    policies = quarantine_all ∷ [];
    audit_log = [];
    posture_reports = [];
    ip_rules = [];
  };
  sent = [];
  calls = 0;
}

abbrev pub event : EndpointDetectedEvent
event = record {
  mac_address = mac;
  ip_address = codes "192.168.0.25";
  interface = [];
  source = codes "arp";
  timestamp = pos 0;
  hostname = none;
  os_family = none;
  os_version = none;
  device_type = none;
  vendor = none;
}

abbrev pub login : Bool → AuthResponse
login success = record {
  session_id = none;
  endpoint_id = none;
  mac_address = mac;
  ip_address = [];
  success = success;
  username = some (codes "kim");
  groups = [];
  reason = none;
}

abbrev pub report : PostureReport
report = record {
  device_id = mac;
  os = codes "Linux";
  os_version = codes "6.1";
  installed_software = [];
  missing_patches = [];
  usb_enabled = false;
  bluetooth_enabled = false;
  folder_sharing_enabled = false;
  timestamp = pos 0;
}

abbrev pub files : Files
files = record {
  host_arp_exists = false;
  host_arp = none;
  arp = some (codes "IP\n10.0.0.1 0x1 0x2 02:00:00:00:00:01\n10.0.0.7 0x1 0x2 02:00:00:00:00:07\n");
  route = some (codes "Iface\neth0 00000000 0100000A\n");
  seconds = 0;
  order = λ entries. entries;
}

abbrev pub events : List Event
events =
    endpoint_detected event
    ∷ auth_response (login true)
    ∷ posture_report report
    ∷ arp_scan files
    ∷ request (block 100)
    ∷ request (create_rule (record { ip_cidr = mac; action = "block"; note = none }))
    ∷ reconciliation
    ∷ []

abbrev pub state : State (Unit {0})
state = record { world = start "pending" (session ∷ []); pending_ip = [] }
