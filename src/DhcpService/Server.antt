-- ===== src/DhcpService/Server.antt =====
-- services/dhcp/src/server.rs: the message handlers. dhcproto's decoder and encoder are parameters;
-- a request is the fields that the server reads of it, a response those that it sets.
pub mod Offers
use lentropy.Common.{
  ℕ, Bool, true, false, Option, none, some, List, [], ◌∷◌, ◌==◌, Text, take, min, length,
  if◌then◌else◌,
}
use lentropy.Common.Digits.{colon_pairs, hex_pairs, hex_lower}
use lentropy.DhcpService.Pool.{LeasePool, get_or_allocate}

pub data MessageType : Type 0 where
  discover offer request ack : MessageType
  -- Any other type of the protocol.
  unhandled : MessageType

pub record Message : Type 0 where
  pub msg_type : Option MessageType
  pub htype : ℕ
  pub xid : ℕ
  pub flags : ℕ
  pub giaddr : ℕ
  pub chaddr : List ℕ
  -- Option 50, if the message has it with an address.
  pub requested_ip : Option ℕ

-- Opcode BootReply and no hops.
pub record Response : Type 0 where
  pub htype : ℕ
  pub xid : ℕ
  pub flags : ℕ
  pub yiaddr : ℕ
  pub siaddr : ℕ
  pub giaddr : ℕ
  pub chaddr : List ℕ
  pub message_type : MessageType
  pub server_identifier : ℕ
  pub address_lease_time : ℕ
  pub subnet_mask : ℕ
  pub router : List ℕ

pub record DhcpServer : Type 0 where
  pub pool : LeasePool
  pub server_ip : ℕ

abbrev respond : DhcpServer → Message → MessageType → ℕ → Response
respond server msg kind ip = record {
  htype = msg.htype;
  xid = msg.xid;
  flags = msg.flags;
  yiaddr = ip;
  siaddr = server.server_ip;
  giaddr = msg.giaddr;
  chaddr = msg.chaddr;
  message_type = kind;
  server_identifier = server.server_ip;
  address_lease_time = 86400;
  subnet_mask = server.pool.subnet_mask;
  router = server.pool.gateway ∷ [];
}

unfoldable pub handle_discover : DhcpServer → Message → Response × DhcpServer
handle_discover server msg =
    let (ip, pool) = get_or_allocate server.pool msg.chaddr in
    (respond server msg offer ip, record server { pool = pool })

-- The address that the client names is taken as it is; only without one is the pool asked.
abbrev requested_or_allocated : LeasePool → Message → Option ℕ → ℕ × LeasePool
requested_or_allocated pool msg (some ip) = (ip, pool)
requested_or_allocated pool msg none = get_or_allocate pool msg.chaddr

unfoldable pub handle_request : DhcpServer → Message → Response × DhcpServer
handle_request server msg =
    let (ip, pool) = requested_or_allocated server.pool msg msg.requested_ip in
    (respond server msg ack ip, record server { pool = pool })

-- Lower case and colons: `{b:02x}` joined by ":".
unfoldable pub format_mac : List ℕ → Text
format_mac chaddr = colon_pairs (hex_pairs hex_lower (take (min 6 (length chaddr)) chaddr))

-- What a message makes the server do: a datagram to the peer, and a binding event with the MAC
-- address, the IP address and the type of the message that was answered.
pub data DhcpEffect : Type 0 where
  send : List ℕ → DhcpEffect
  publish_binding : Text → ℕ → MessageType → DhcpEffect

module _ (from_bytes : List ℕ → Option Message) (to_vec : Response → Option (List ℕ))
    -- Whether the socket takes the datagram.
    (sent : List ℕ → Bool) where
  -- `if !yiaddr.is_unspecified()`.
  abbrev binding_event : Response → MessageType → List DhcpEffect
  binding_event response kind =
      if response.yiaddr == 0
      then []
      else publish_binding (format_mac response.chaddr) response.yiaddr kind ∷ []

  abbrev deliver : Response → MessageType → Option (List ℕ) → List DhcpEffect
  deliver response kind none = []
  deliver response kind (some bytes) =
      if sent bytes then send bytes ∷ binding_event response kind else []

  abbrev dispatch : DhcpServer → Message → Option MessageType → List DhcpEffect × DhcpServer
  dispatch server msg (some discover) =
      let (response, server') = handle_discover server msg in
      (deliver response discover (to_vec response), server')
  dispatch server msg (some request) =
      let (response, server') = handle_request server msg in
      (deliver response request (to_vec response), server')
  dispatch server msg _ = ([], server)

  abbrev handle_decoded : DhcpServer → Option Message → List DhcpEffect × DhcpServer
  handle_decoded server none = ([], server)
  handle_decoded server (some msg) = dispatch server msg msg.msg_type

  -- `handle`, whose errors the caller logs; the binding is published only behind a sent answer.
  unfoldable pub handle : DhcpServer → List ℕ → List DhcpEffect × DhcpServer
  unfolding handle_discover handle_request format_mac
  handle server bytes = handle_decoded server (from_bytes bytes)
