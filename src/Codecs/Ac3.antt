-- ===== src/Codecs/Ac3.antt =====
-- ts/codecs/ac3: AC-3 syncframes, clear in their first 16 bytes.
pub mod Frames
pub mod Guarded
use mpegenc.Common.{
  ℕ, zero, suc, ◌+◌, ◌*◌, ◌/◌, ◌%◌, Bool, true, false, not, ◌&&◌, ◌||◌, List, [], ◌∷◌, ◌++◌, Bytes,
  length, get_or, take, ltb, ◌==◌, if◌then◌else◌, Method, ok, err, and_then, missing_syncword,
  bad_frame_code, bad_bitstream_id, out_of_fuel,
}
use mpegenc.SampleAes.{BlockCryptor}
use mpegenc.Packets.Pes.{PesHandler}
use mpegenc.Codecs.PesQueue.{Transformer}
use mpegenc.Codecs.PesQueue
use mpegenc.Codecs.Frame.{protect, send_config, write_frame}
use mpegenc.Pmt.{
  private_data, registration, Patch, private_data_tag, registration_tag, audio_setup_format,
}

abbrev pub ac3_header_size : ℕ
ac3_header_size = 5

abbrev pub ac3_setup_size : ℕ
ac3_setup_size = 10

abbrev pub ac3_clear_lead : ℕ
ac3_clear_lead = 16

abbrev pub sample_aes_stream_type : ℕ
sample_aes_stream_type = 0xC1

-- `patchPMT` of the first ten bytes of the stream.
unfoldable pub patch_pmt : Bytes → Patch
patch_pmt setup stream =
    let info = b'z' ∷ b'a' ∷ b'c' ∷ b'3' ∷ 0 ∷ 0 ∷ 1 ∷ 10 ∷ setup in
    record stream {
      stream_type = sample_aes_stream_type;
      descriptors =
          stream.descriptors
          ++ record { tag = private_data_tag; size = 4; body = private_data 0x61633364 }
            ∷ record {
              tag = registration_tag;
              size = (4 + length info) % 256;
              body = registration audio_setup_format info;
            }
            ∷ [];
    }

abbrev pub words : ℕ → ℕ → ℕ → List ℕ
words a b c = a ∷ b ∷ c ∷ []

-- `frameSizeWords[frmsizecod][fscod]`
abbrev pub frame_size_words : List (List ℕ)
frame_size_words =
    words 64 69 96
    ∷ words 64 70 96
    ∷ words 80 87 120
    ∷ words 80 88 120
    ∷ words 96 104 144
    ∷ words 96 105 144
    ∷ words 112 121 168
    ∷ words 112 122 168
    ∷ words 128 139 192
    ∷ words 128 140 192
    ∷ words 160 174 240
    ∷ words 160 175 240
    ∷ words 192 208 288
    ∷ words 192 209 288
    ∷ words 224 243 336
    ∷ words 224 244 336
    ∷ words 256 278 384
    ∷ words 256 279 384
    ∷ words 320 348 480
    ∷ words 320 349 480
    ∷ words 384 417 576
    ∷ words 384 418 576
    ∷ words 448 487 672
    ∷ words 448 488 672
    ∷ words 512 557 768
    ∷ words 512 558 768
    ∷ words 640 696 960
    ∷ words 640 697 960
    ∷ words 768 835 1152
    ∷ words 768 836 1152
    ∷ words 896 975 1344
    ∷ words 896 976 1344
    ∷ words 1024 1114 1536
    ∷ words 1024 1115 1536
    ∷ words 1152 1253 1728
    ∷ words 1152 1254 1728
    ∷ words 1280 1393 1920
    ∷ words 1280 1394 1920
    ∷ []

-- The size of a frame in bytes, by its fifth byte.
abbrev pub frame_size : ℕ → ℕ
frame_size code = get_or (get_or frame_size_words (code % 64) []) (code / 64) 0 * 2

abbrev pub has_syncword : Bytes → Bool
has_syncword buf = get_or buf 0 0 == 0x0B && get_or buf 1 0 == 0x77

module _ {W B : Type 0} (handler : PesHandler W) (block : BlockCryptor B)
    (signal : Patch → Method W (Unit {0})) where
  -- The part of a round behind the config.
  process_frame : ℕ → Method (Transformer W B) Bool
  unfolding protect write_frame
  process_frame size t =
      if ltb (length t.buffer) size
      then ok false t
      else and_then (protect block ac3_clear_lead size t)
          (λ _ t1. write_frame handler signal size t1)

  -- A round of the loop of `processFrames`; `false` is its `return nil`.
  process_round : Method (Transformer W B) Bool
  unfolding process_frame send_config
  process_round t =
      let code = get_or t.buffer 4 0 in
      if ltb (length t.buffer) ac3_header_size
      then ok false t
      else if not (has_syncword t.buffer)
      then err missing_syncword t
      else if ltb 2 (code / 64) || ltb 37 (code % 64)
      then err bad_frame_code t
      else if ltb (length t.buffer) ac3_setup_size
      then ok false t
      else if ltb 8 (get_or t.buffer 5 0 / 8)
      then err bad_bitstream_id t
      else if t.config_sent
      then process_frame (frame_size code) t
      else and_then (send_config handler signal (patch_pmt (take ac3_setup_size t.buffer)) t)
          (λ _ t1. process_frame (frame_size code) t1)

  -- Each round takes a frame of at least 128 bytes off the buffer.
  process_loop : ℕ → Method (Transformer W B) (Unit {0})
  unfolding process_round
  process_loop zero t = err out_of_fuel t
  process_loop (suc f) t =
      and_then (process_round t)
        (λ more t1. elim more [ true ↦ process_loop f t1 | false ↦ ok tt t1 ])

  pub process_frames : Method (Transformer W B) (Unit {0})
  process_frames t = process_loop (suc (length t.buffer)) t

  pub pes_header : Bytes → Method (Transformer W B) (Unit {0})
  pes_header header t = PesQueue.pes_header handler header t

  pub pes_payload : Bytes → Method (Transformer W B) (Unit {0})
  pes_payload payload t = PesQueue.pes_payload handler process_frames payload t

  pub pes_end : Method (Transformer W B) (Unit {0})
  pes_end t = PesQueue.pes_end handler t

  pub flush : Method (Transformer W B) (Unit {0})
  flush t = PesQueue.flush handler process_frames t
