-- ===== src/Lib.antt =====
-- Verification of packetdrill, the network stack testing tool under gtests/net/packetdrill.
--
-- packetdrill runs a script of system calls and packets against a kernel. Packets from the device
-- are parsed (packet_parser.c) into a packet with an array of headers (packet.c), whose checksums
-- are verified (checksum.c). A packet event (run_packet.c) finds the socket of the script, rewrites
-- sequence numbers, SACK blocks and timestamps between the script's values and the live ones with
-- the iterators over options and chunks and with a hash map of timestamps, and compares the live
-- packet with the script's field by field. The files model these parts:
--
-- - Base, Base/Tests, Base/Lists, Base/Words: names of the libraries, Boolean tests, arrays as lists,
--   casts to the fixed widths and byte orders.
-- - Checksum: checksum.c. `ip_checksum_partial` is by clauses over the bytes, the two loops of
--   `ip_checksum_fold` are recursions on accessibility; Checksum/Crc has `sctp_crc32c` and its table.
--   Checksum/Fold and Checksum/Verify hold the proofs.
-- - Packet: `struct header`, `struct packet` and the functions on the array of headers of packet.c,
--   header.h and packet.h; Packet/Headers has the layout of headers.
-- - Parser: packet_parser.c. Parser/Outcome has the results, with a value for a failed assertion or a
--   read outside the buffer; Parser/Transport the functions for layer 4; Parser/Network those below,
--   which take `parse_layer4` as an argument, and the recursion between them. Parser/Rules,
--   Parser/FieldRestored, Parser/TransportSafety, Parser/NetworkSafety, Parser/TunnelSafety,
--   Parser/Safety and Parser/Overread hold the proofs.
-- - TcpOptions: tcp_options.c and tcp_options_iterator.c; TcpOptions/Loops the loops over options of
--   run_packet.c. TcpOptions/Append, TcpOptions/Walk, TcpOptions/RoundTrip, TcpOptions/Sack and
--   TcpOptions/Timestamp hold the proofs.
-- - Sctp: sctp_iterator.c and the loop of its callers; Sctp/Walk the proofs.
-- - SctpMatch: `verify_sctp` of run_packet.c and what it calls. SctpMatch/Flags has the wildcards' marks
--   of sctp_packet.h; SctpMatch/Compare fields, loads, chains and loops of checks; SctpMatch/Fixed,
--   SctpMatch/Sacks, SctpMatch/Forward and SctpMatch/Blobs the chunks by their shape;
--   SctpMatch/Items the loop over a live packet and a list of the script; SctpMatch/Parameters
--   parameters and causes; SctpMatch/Packet the chunks that hold them, and `verify_sctp`.
--   SctpMatch/Spec and SctpMatch/SpecItems say what it means to match. SctpMatch/Laws,
--   SctpMatch/Tiles, SctpMatch/Matches, SctpMatch/MatchesItems, SctpMatch/MatchesPacket,
--   SctpMatch/Copies, SctpMatch/Exact and SctpMatch/Own hold the proofs.
-- - SctpPacket: the constructors of chunks of sctp_packet.c, those with fields at fixed offsets in
--   SctpPacket/Fixed; SctpPacket/Own, SctpPacket/Marks, SctpPacket/Accepts, SctpPacket/Data and
--   SctpPacket/Small the proofs.
-- - HashMap: hash_map.c and hash_map.h; HashMap/Buckets, HashMap/Replace, HashMap/Laws, HashMap/Set and
--   HashMap/New the proofs. The hash function of hash.c is a parameter.
-- - Socket: the offsets of sequence numbers of socket.h, the timestamp map of run_packet.c, and the
--   sequence numbers and timestamps in `map_inbound_packet` and `map_outbound_live_packet`;
--   Socket/Translate the proofs.
-- - Connect: the socket under test with its tuples (socket.h). Connect/Listen and Connect/Script have
--   the functions of run_packet.c that look it up, create it or move it on for a packet of the script,
--   the first for a listening socket; Connect/Live those for a packet from the device and the loop of
--   `sniff_outbound_live_packet`. Connect/Laws, Connect/Child, Connect/Kept and Connect/Invariant hold
--   the proofs.
-- - SctpRewrite: `map_inbound_sctp_packet` and `map_outbound_live_sctp_packet` of run_packet.c. The
--   parent has the changes of fields and the loop over items; SctpRewrite/Inbound and
--   SctpRewrite/Outbound the two functions; SctpRewrite/Layout says what they mean to do.
--   SctpRewrite/Edits, SctpRewrite/Fields, SctpRewrite/Chunks, SctpRewrite/Whole, SctpRewrite/Numbers,
--   SctpRewrite/InboundChunk, SctpRewrite/OutboundChunk, SctpRewrite/ToLive, SctpRewrite/ToScript and
--   SctpRewrite/Faults hold the proofs.
-- - Verify: the comparison of IPv4, IPv6 and TCP headers of run_packet.c; Verify/Layers that of UDP,
--   UDPLite, GRE and MPLS headers, Verify/Live that of all layers (`verify_header`,
--   `verify_outbound_live_headers`), and Verify/Options that of TCP options and payloads
--   (`verify_outbound_live_tcp_options`, `verify_outbound_live_payload`). Verify/Fields, Verify/Matches,
--   Verify/Labels, Verify/LiveMatches, Verify/TsVal and Verify/OptionsMatch hold the proofs.
-- - Timing: the times of events of run.c and run.h, with the clock and the handlers of
--   events in `run_script` as parameters, since most of what these do is not modelled; Base/Int the
--   integers. Timing/Wait and Timing/Order hold the proofs.
-- - Tests: the model on concrete inputs.
--
-- Conventions: a pointer into the packet is an offset from the start of the buffer, or from the
-- start of the memory at hand, and NULL is `none`; the buffer is a list of bytes, aligned to four
-- bytes; the host is little-endian, and a field in network order is given by its bytes or by the
-- number that they stand for. A read is a lookup that may fail, and a failed lookup or assertion is
-- a value of the result. Error messages are values without their numbers. The numbers of protocols
-- and EtherTypes come from the system's headers.
--
-- Fuel: `parse_layer4` has one round more than PACKET_MAX_HEADERS, since every nested header is
-- appended to the array; the loop over MPLS labels one more than the bytes of the packet; the loops
-- over options, chunks and parameters one more than the bytes that are left; the choice of a bucket count 31
-- rounds, as it doubles up to 2 ^ 30; the loop over a script one more than its events.
--
-- Not modelled: system calls, threads, devices and the wire protocol, since they are input and
-- output; the formatting of packets, errors and scripts; the lexer, the grammar and the evaluation
-- of scripts; the construction of packets; the moves of a socket's status by system calls; the
-- rewriting of addresses, of ports and of what ICMP messages echo; the constructors of SCTP parameters and causes and of
-- the chunks that hold them or blocks; encapsulation and copying of packets. The record of Packet
-- leaves out the fields of `struct packet` for the direction, the chunk list, the ECN treatment and the
-- time, and the records of Connect the fields that its functions do not use; the cached port is one
-- that the system gave. The error path of a wrong IPv4 checksum, which computes the expected value for
-- the message and restores the field, is left out, as is the hex dump of a bad packet.
pub mod Base
pub mod Checksum
pub mod Connect
pub mod HashMap
pub mod Packet
pub mod Parser
pub mod Sctp
pub mod SctpMatch
pub mod Timing
pub mod SctpRewrite
pub mod SctpPacket
pub mod Socket
pub mod TcpOptions
pub mod Verify
mod Tests
