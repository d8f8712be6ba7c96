-- ===== src/Store/Devices.antt =====
-- The endpoints table of crates/nac-store as a map from MAC addresses to devices, and `upsert` as a
-- write to one place of that map.
use lentropy.Common.{ℕ, false, Option, none, some, Text, text_eq, ◌≡◌, if◌then◌else◌, find}
use lentropy.Outcome.{ok, err}
use lentropy.Store.Endpoint.{EndpointRow}
use lentropy.Store.Database.{Platform, Tables, invalid_input, cast_option}
use lentropy.Store.Endpoints.{UpsertEndpoint, has_mac}

module _ {Json : Type 0} where
  -- The map: what it holds for a MAC address.
  unfoldable pub device_of : Text → Tables Json → Option (EndpointRow Json)
  device_of mac tables = find (has_mac mac) tables.endpoints

  -- A map with another value at one place.
  abbrev pub put :
      Text
      → EndpointRow Json
      → (Text → Option (EndpointRow Json))
      → Text
      → Option (EndpointRow Json)
  put mac row f m = if text_eq mac m then some row else f m

  module _ (mac : Text) (f : EndpointRow Json → EndpointRow Json)
      (same : (r : EndpointRow Json) → (f r).mac_address ≡ r.mac_address) where
    abbrev changed : Option (EndpointRow Json) → Option (EndpointRow Json)
    changed none = none
    changed (some r) = some (f r)

  module _ (platform : Platform Json) where
    -- A value that is given replaces the old one, and without one the old one stays.
    abbrev pub Replaces : Option Text → Option Text → Option Text → Type 0
    Replaces given old new =
        ((v : Text) → given ≡ some v → new ≡ some v) × (given ≡ none → new ≡ old)

    -- A known device: nine columns may change, and the rest of the row stays.
    pub record Merged (now : ℕ) (ip : Option Text) (ep : UpsertEndpoint)
        (old new : EndpointRow Json) : Type 0 where
      pub ip_address : Replaces ip old.ip_address new.ip_address
      pub hostname : Replaces ep.hostname old.hostname new.hostname
      pub os_family : Replaces ep.os_family old.os_family new.os_family
      pub os_version : Replaces ep.os_version old.os_version new.os_version
      pub device_type : Replaces ep.device_type old.device_type new.device_type
      pub vendor : Replaces ep.vendor old.vendor new.vendor
      pub interface : Replaces ep.interface old.interface new.interface
      pub agent_id : Replaces ep.agent_id old.agent_id new.agent_id
      pub last_seen : new.last_seen ≡ now
      pub others : new ≡ record old {
        ip_address = new.ip_address;
        hostname = new.hostname;
        os_family = new.os_family;
        os_version = new.os_version;
        device_type = new.device_type;
        vendor = new.vendor;
        interface = new.interface;
        agent_id = new.agent_id;
        last_seen = new.last_seen;
      }

    -- A new device: pending, with what is given, no policy, no login and no posture.
    pub record Fresh (now : ℕ) (mac : Text) (ip : Option Text) (ep : UpsertEndpoint)
        (new : EndpointRow Json) : Type 0 where
      pub mac_address : new.mac_address ≡ mac
      pub ip_address : new.ip_address ≡ ip
      pub hostname : new.hostname ≡ ep.hostname
      pub os_family : new.os_family ≡ ep.os_family
      pub os_version : new.os_version ≡ ep.os_version
      pub device_type : new.device_type ≡ ep.device_type
      pub vendor : new.vendor ≡ ep.vendor
      pub interface : new.interface ≡ ep.interface
      pub agent_id : new.agent_id ≡ ep.agent_id
      pub status : new.status ≡ "pending"
      pub seen : (new.first_seen ≡ now) × (new.last_seen ≡ now)
      pub no_login : new.username ≡ none
      pub no_policy : (new.assigned_policy_id ≡ none) × (new.policy_exempt ≡ false)
      pub no_posture : (new.is_compliant ≡ none) × (new.last_posture_check ≡ none)

    -- The row that is written, by the one that was there.
    abbrev pub Made :
        ℕ
        → Text
        → Option Text
        → UpsertEndpoint
        → Option (EndpointRow Json)
        → EndpointRow Json
        → Type 0
    Made n mac ip ep none new = Fresh (platform.now n) mac ip ep new
    Made n mac ip ep (some old) new = Merged (platform.now n) ip ep old new

    -- What a write of `upsert` is: a row for the MAC address that PostgreSQL reads, made of the one
    -- that was there, is put there, and the rest of the map stays.
    abbrev pub Written :
        (ep : UpsertEndpoint) → ℕ → Tables Json → EndpointRow Json × Tables Json → Type 0
    Written ep n t (row, t') =
        (mac : Text) × (ip : Option Text) × (platform.macaddr ep.mac_address ≡ some mac)
        × (cast_option platform.inet ep.ip_address ≡ ok ip)
        × Made n mac ip ep (device_of mac t) row
        × ((m : Text) → device_of m t' ≡ put mac row (λ k. device_of k t) m)

    pub of_cast :
        (o : Option Text) (t v : Text)
        → (elim o [ some v ↦ ok v | none ↦ err (invalid_input t) ]) ≡ ok v
        → o ≡ some v
    of_cast none t v e = absurd cc
    of_cast (some u) t v e = cc
