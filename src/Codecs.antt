-- ===== src/Codecs.antt =====
-- ts/codecs: the elementary-stream transformers.
pub mod PesQueue
pub mod Frame
pub mod Aac
pub mod Ac3
pub mod Eac3
pub mod Avc
