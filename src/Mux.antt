-- ===== src/Mux.antt =====
-- ts/internal/mux
pub mod Packetizer
