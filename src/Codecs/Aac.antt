-- ===== src/Codecs/Aac.antt =====
-- ts/codecs/aac: ADTS frames. Each frame is clear in its header and the 16 bytes behind it; the whole
-- blocks after that are encrypted from a fresh chain.
pub mod Setup
pub mod Guarded
pub mod Frames
use mpegenc.Common.{
  ℕ, zero, suc, ◌+◌, ◌*◌, ◌/◌, ◌%◌, Bool, true, false, not, ◌&&◌, [], ◌∷◌, ◌++◌, Bytes, length,
  get_or, ltb, ◌==◌, if◌then◌else◌, Method, ok, err, and_then, missing_syncword, bad_frame_size,
  out_of_fuel,
}
use mpegenc.SampleAes.{BlockCryptor}
use mpegenc.Packets.Pes.{PesHandler}
use mpegenc.Codecs.PesQueue.{Transformer}
use mpegenc.Codecs.PesQueue
use mpegenc.Codecs.Frame.{protect, send_config, write_frame}
use mpegenc.Pmt.{
  private_data, registration, Patch, private_data_tag, registration_tag, audio_setup_format,
}

abbrev pub adts_header_size : ℕ
adts_header_size = 7

abbrev pub sample_aes_stream_type : ℕ
sample_aes_stream_type = 0xCF

-- `patchPMT` of the two bytes of the AudioSpecificConfig.
unfoldable pub patch_pmt : ℕ → ℕ → Patch
patch_pmt config0 config1 stream =
    let setup = b'z' ∷ b'a' ∷ b'a' ∷ b'c' ∷ 0 ∷ 0 ∷ 1 ∷ 2 ∷ config0 ∷ config1 ∷ [] in
    record stream {
      stream_type = sample_aes_stream_type;
      descriptors =
          stream.descriptors
          ++ record { tag = private_data_tag; size = 4; body = private_data 0x61616364 }
            ∷ record {
              tag = registration_tag;
              size = (4 + length setup) % 256;
              body = registration audio_setup_format setup;
            }
            ∷ [];
    }

-- The sync word is twelve ones.
abbrev pub has_syncword : Bytes → Bool
has_syncword buf = get_or buf 0 0 == 0xFF && get_or buf 1 0 / 16 % 16 * 16 == 0xF0

-- With a checksum the header has two bytes more.
abbrev pub header_size : Bytes → ℕ
header_size buf = if get_or buf 1 0 % 2 == 0 then 9 else adts_header_size

-- `int(buf[3]&0x03)<<11 | int(buf[4])<<3 | int(buf[5]>>5)`
abbrev pub frame_size : Bytes → ℕ
frame_size buf = get_or buf 3 0 % 4 * 2048 + get_or buf 4 0 * 8 + get_or buf 5 0 / 32

-- The patch of the first frame: object type, frequency index and channels, in two bytes.
abbrev pub config_patch : Bytes → Patch
config_patch buf =
    let profile = get_or buf 2 0 / 64 % 4 in
    let sampling_frequency_index = get_or buf 2 0 / 4 % 16 in
    let channel_configuration = get_or buf 2 0 % 2 * 4 + get_or buf 3 0 / 64 in
    let audio_object_type = profile + 1 in
    patch_pmt ((audio_object_type * 8 + sampling_frequency_index / 2) % 256)
      ((sampling_frequency_index * 128 + channel_configuration * 8) % 256)

module _ {W B : Type 0} (handler : PesHandler W) (block : BlockCryptor B)
    (signal : Patch → Method W (Unit {0})) where
  -- The part of a round behind the config: the frame is encrypted, written and taken off.
  process_frame : Method (Transformer W B) Bool
  unfolding protect write_frame
  process_frame t =
      let size = frame_size t.buffer in
      let head = header_size t.buffer in
      if ltb size head
      then err bad_frame_size t
      else if ltb (length t.buffer) size
      then ok false t
      else and_then (protect block (head + 16) size t) (λ _ t1. write_frame handler signal size t1)

  -- A round of the loop of `processFrames`; `false` is its `return nil`.
  process_round : Method (Transformer W B) Bool
  unfolding process_frame send_config
  process_round t =
      if ltb (length t.buffer) adts_header_size
      then ok false t
      else if not (has_syncword t.buffer)
      then err missing_syncword t
      else if ltb (length t.buffer) (header_size t.buffer)
      then ok false t
      else if t.config_sent
      then process_frame t
      else and_then (send_config handler signal (config_patch t.buffer) t)
          (λ _ t1. process_frame t1)

  -- Each round takes a frame of at least seven bytes off the buffer.
  process_loop : ℕ → Method (Transformer W B) (Unit {0})
  unfolding process_round
  process_loop zero t = err out_of_fuel t
  process_loop (suc f) t =
      and_then (process_round t)
        (λ more t1. elim more [ true ↦ process_loop f t1 | false ↦ ok tt t1 ])

  pub process_frames : Method (Transformer W B) (Unit {0})
  process_frames t = process_loop (suc (length t.buffer)) t

  pub pes_header : Bytes → Method (Transformer W B) (Unit {0})
  pes_header header t = PesQueue.pes_header handler header t

  pub pes_payload : Bytes → Method (Transformer W B) (Unit {0})
  pes_payload payload t = PesQueue.pes_payload handler process_frames payload t

  pub pes_end : Method (Transformer W B) (Unit {0})
  pes_end t = PesQueue.pes_end handler t

  pub flush : Method (Transformer W B) (Unit {0})
  flush t = PesQueue.flush handler process_frames t
