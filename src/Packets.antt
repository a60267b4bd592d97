-- ===== src/Packets.antt =====
-- ts/internal/packets and ts/packets: what is collected from the payloads of TS packets.
pub mod Quiet
pub mod Psi
pub mod Pes
pub mod Pat
pub mod Pmt
