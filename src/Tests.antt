-- ===== src/Tests.antt =====
-- Runs of the model on concrete packets, and the theorems at inputs that meet their hypotheses.
mod Checksums
mod Parsing
mod Chunks
mod Connections
mod SctpMatching
mod SctpRewriting
mod Maps
mod Matching
mod LiveMatching
mod Options
mod Sequences
mod Timings
