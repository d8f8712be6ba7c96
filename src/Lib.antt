-- ===== src/Lib.antt =====
-- LEntropy is a network access control system. Sensors and agents report the devices of a network;
-- the policy manager stores them and decides their status from policies; the RADIUS service answers
-- switches by that status; the DHCP service leases addresses; and the enforcement service blocks or
-- quarantines a device by firewall sets and forged ARP and NDP answers. The services talk over a
-- message bus and share a database.
--
-- The files, and the code that they model:
-- Common and its children: the library names that all files share, texts as bytes, digits, IPv4
--   addresses as text, integers and lists.
-- Outcome: results of code that returns an error or panics; byte buffers and their index checks.
-- Exec: code that changes a state and may return an error; Exec.Triples what holds when it ends.
-- PolicyEngine: crates/nac-policy-engine, the rules, `matches_condition` and `evaluate`.
-- NetProto: crates/nac-netproto, Arp for arp.rs, Dhcp for dhcp.rs, Icmpv6 for icmpv6.rs.
-- Fingerprint: crates/nac-fingerprint, lib.rs and ttl.rs, Fingerprint.Vendors and Fingerprint.Oui the
--   table and the look-up of oui.rs.
-- Store: crates/nac-store, Endpoint for the record of endpoint.rs, Policy for `to_policy_rule` and
--   `decision_to_status` of policy.rs, Posture for the compliance policy of posture.rs; Database for
--   the tables of services/policy-manager/migrations, and Endpoints, Sessions, Policies and Logs for
--   the repositories of endpoint.rs, session.rs, policy.rs, audit.rs and posture.rs over them.
-- Radius: services/aaa/src/radius.rs, the packets; Radius.Attributes the helpers; Radius.Access the
--   handlers `handle_access_request`, `handle_auth_packet` and `handle_acct_packet`.
-- DhcpService: services/dhcp/src, Pool for pool.rs and Server for server.rs.
-- Enforcement: services/enforcement/src, Firewall for the enforcer of iptables.rs and its nft sets,
--   Legacy for its iptables-legacy fallback, Spoofer for arp_spoof.rs, Ipv6Block for ipv6_block.rs,
--   Proc for the readers of /proc/net/route and /proc/net/arp, and Consumer for the commands of
--   consumer.rs over them.
-- PolicyManager: services/policy-manager/src, Evaluate for api/evaluate.rs, Detected for the handler
--   of consumer.rs, AuthResponse for session_handler.rs, PostureReports for posture_handler.rs,
--   Reconcile, ArpTable and ArpSync for background.rs, Commands for what they share, Api for
--   api/endpoints.rs with Api.IpRules for api/ip_rules.rs and Api.Requests for their routes, and Events
--   for the tasks that main.rs starts and the requests, as any sequence of events.
-- Tests: the theorems at concrete inputs.
-- The other children of these modules hold proofs and say which code they are about.
--
-- How the code is read: a text is the list of its bytes in UTF-8; unsigned integers are natural
-- numbers with their bounds written out; a loop over a buffer runs on fuel that is one more than the
-- buffer's length, which is enough because every round moves the index forward, and the end of the
-- fuel is a result of its own, `timeout`. The loops of the iptables-legacy fallback, which delete a
-- rule until that fails, run on the fuel `rules_limit`, enough if a chain has fewer rules of a kind.
-- State is passed explicitly, and calls of the outside are effects that a function returns. Parameters
-- stand for what is not in the repository: MD5, Unicode case maps, serde, dhcproto, the programs nft
-- and iptables-legacy, sockets and the contents of files. A table of the database is a list of rows,
-- in the order in which they were inserted, and a statement is a function of the tables that is done
-- as a whole, or fails and changes nothing; whether PostgreSQL and the message bus answer, its clock
-- and its UUIDs, and its reading of MACADDR and INET are parameters, and so is whether its CHECKs are
-- in force. A handler runs to its end before the next one begins.
--
-- Not modelled: sockets, HTTP and the loops that start the services; the interleaving of the handlers'
-- statements; the paged lists of the store; the requests for policies, users and statistics; the rules that iptables.rs installs and its choice of a
-- backend; the portal, the gateway, the agents and the sensor.
pub mod Common
pub mod Outcome
pub mod Exec
pub mod PolicyEngine
pub mod NetProto
pub mod Fingerprint
pub mod Store
pub mod Radius
pub mod DhcpService
pub mod Enforcement
pub mod PolicyManager
mod Tests
