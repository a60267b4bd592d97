-- ===== src/Codecs/Avc/Pmt.antt =====
-- ts/codecs/avc/pmt.go
use mpegenc.Common.{ℕ, [], ◌∷◌, ◌++◌}
use mpegenc.Pmt.{private_data, Patch, private_data_tag}

abbrev pub sample_aes_stream_type : ℕ
sample_aes_stream_type = 0xDB

unfoldable pub patch_pmt : Patch
patch_pmt stream = record stream {
  stream_type = sample_aes_stream_type;
  descriptors =
      stream.descriptors
      ++ record { tag = private_data_tag; size = 4; body = private_data 0x7A617663 } ∷ [];
}
