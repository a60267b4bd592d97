-- ===== src/Codecs/Avc.antt =====
-- ts/codecs/avc: Sample-AES for H.264. The state of the transformer; its children hold the escaper,
-- the writer, the NAL pattern and the Annex-B scanner.
pub mod Ebsp
pub mod State
pub mod Writer
pub mod Nal
pub mod Annexb
pub mod Pmt
