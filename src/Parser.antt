-- ===== src/Parser.antt =====
-- gtests/net/packetdrill/packet_parser.c: the parser of sniffed packets.
pub mod Outcome
pub mod Transport
pub mod Network
pub mod Rules
pub mod FieldRestored
pub mod TransportSafety
pub mod NetworkSafety
pub mod TunnelSafety
pub mod Safety
pub mod Overread
