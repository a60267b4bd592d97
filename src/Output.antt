-- ===== src/Output.antt =====
-- ts/output.go: which output packets take the place of which input packet.
pub mod Aligner
pub mod Assembler
