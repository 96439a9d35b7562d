-- ===== src/SctpMatch.antt =====
-- How run_packet.c of gtests/net/packetdrill compares the SCTP chunks of an outbound live packet
-- with the script's: `verify_sctp` and what it calls.
pub mod Flags
pub mod Compare
pub mod Fixed
pub mod Sacks
pub mod Forward
pub mod Blobs
pub mod Items
pub mod Parameters
pub mod Packet
pub mod Laws
pub mod Tiles
pub mod Spec
pub mod SpecItems
pub mod Matches
pub mod MatchesItems
pub mod MatchesPacket
pub mod Copies
pub mod Exact
pub mod Own
