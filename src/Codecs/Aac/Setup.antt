-- ===== src/Codecs/Aac/Setup.antt =====
-- The AudioSpecificConfig that the AAC transformer makes of an ADTS header.
use mpegenc.Common.{
  AreBytes, ℕ, ◌+◌, ◌*◌, ◌/◌, ◌%◌, ◌≤◌, ◌≡◌, refl, [], ◌∷◌, ◌++◌, Bytes, arith, get_or,
}
use mpegenc.Pmt.{
  ElementaryStream, private_data, registration, private_data_tag, registration_tag,
  audio_setup_format,
}
use mpegenc.Codecs.Aac.{sample_aes_stream_type, patch_pmt, config_patch}

-- The two bytes, as they stand in the entry, read as an AudioSpecificConfig.
pub record Configures (buf : Bytes) (old new : ElementaryStream) : Type 0 where
  pub config0 : ℕ
  pub config1 : ℕ
  pub are_bytes : (config0 ≤ 255) × (config1 ≤ 255)
  pub same_pid : new.elementary_pid ≡ old.elementary_pid
  pub encrypted_type : new.stream_type ≡ sample_aes_stream_type
  pub two_descriptors :
      new.descriptors
      ≡ old.descriptors
        ++ record { tag = private_data_tag; size = 4; body = private_data 0x61616364 }
          ∷ record {
            tag = registration_tag;
            size = 14;
            body =
                registration audio_setup_format
                  (b'z' ∷ b'a' ∷ b'a' ∷ b'c' ∷ 0 ∷ 0 ∷ 1 ∷ 2 ∷ config0 ∷ config1 ∷ []);
          }
          ∷ []
  pub object_type : config0 / 8 ≡ get_or buf 2 0 / 64 + 1
  pub frequency_index : config0 % 8 * 2 + config1 / 128 ≡ get_or buf 2 0 / 4 % 16
  pub channels : config1 / 8 % 16 ≡ get_or buf 2 0 % 2 * 4 + get_or buf 3 0 / 64
  pub no_flags : config1 % 8 ≡ 0

-- For any ADTS header, the patched entry keeps its PID and its descriptors, and two are added with
-- their lengths. The second has an AudioSpecificConfig of two bytes, from which the header's object
-- type, frequency index and channels are read back; the three flags behind are zero.
pub config_patch-Configures :
    (buf : Bytes) (s : ElementaryStream) → AreBytes buf → Configures buf s (config_patch buf s)
unfolding patch_pmt
config_patch-Configures buf s u =
    let two = u 2 in
    let three = u 3 in
    record {
      config0 = ((get_or buf 2 0 / 64 % 4 + 1) * 8 + get_or buf 2 0 / 4 % 16 / 2) % 256;
      config1 =
          (get_or buf 2 0 / 4 % 16 * 128 + (get_or buf 2 0 % 2 * 4 + get_or buf 3 0 / 64) * 8)
          % 256;
      are_bytes = (omega arith, omega arith);
      same_pid = refl;
      encrypted_type = refl;
      two_descriptors = refl;
      object_type = omega arith;
      frequency_index = omega arith;
      channels = omega arith;
      no_flags = omega arith;
    }
