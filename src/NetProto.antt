-- ===== src/NetProto.antt =====
-- crates/nac-netproto/src: packet builders and parsers over byte slices.
pub mod Arp
pub mod Dhcp
pub mod Icmpv6
use lentropy.Common.{Text}

pub data NetProtoError : Type 0 where
  parse : Text → NetProtoError
  interface : Text → NetProtoError
  io : NetProtoError
