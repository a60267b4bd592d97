-- ===== src/Codecs/Eac3.antt =====
-- ts/codecs/eac3: E-AC-3 syncframes, clear in their first 16 bytes. Dependent frames go on with the
-- chain of the independent one before them.
pub mod Setup
pub mod Errors
pub mod Chained
pub mod Frames
pub mod Guarded
use mpegenc.Common.{
  ℕ, zero, suc, ◌+◌, ◌*◌, ◌/◌, ◌%◌, Bool, true, false, not, ◌&&◌, ◌||◌, List, [], ◌∷◌, ◌++◌, Bytes,
  length, get_or, ltb, ◌==◌, if◌then◌else◌, Method, ok, err, and_then, missing_syncword,
  reserved_frame_type, bad_frame_size, bad_sample_rate, bad_bitstream_id, independent_frame_first,
  out_of_fuel,
}
use mpegenc.SampleAes.{BlockCryptor}
use mpegenc.Packets.Pes.{PesHandler}
use mpegenc.Codecs.PesQueue.{Transformer}
use mpegenc.Codecs.PesQueue
use mpegenc.Codecs.Frame.{protected_size, reset_block, crypt_range, send_config, write_frame}
use mpegenc.Pmt.{
  private_data, registration, Patch, private_data_tag, registration_tag, audio_setup_format,
}

abbrev pub eac3_header_size : ℕ
eac3_header_size = 7

abbrev pub eac3_clear_lead : ℕ
eac3_clear_lead = 16

abbrev pub sample_rates : List ℕ
sample_rates = 48000 ∷ 44100 ∷ 32000 ∷ 0 ∷ []

abbrev pub frame_blocks : List ℕ
frame_blocks = 1 ∷ 2 ∷ 3 ∷ 6 ∷ []

abbrev pub sample_aes_stream_type : ℕ
sample_aes_stream_type = 0xC2

-- `patchPMT` of the five setup bytes.
unfoldable pub patch_pmt : Bytes → Patch
patch_pmt setup stream =
    let info = b'z' ∷ b'e' ∷ b'c' ∷ b'3' ∷ 0 ∷ 0 ∷ 1 ∷ 5 ∷ setup in
    record stream {
      stream_type = sample_aes_stream_type;
      descriptors =
          stream.descriptors
          ++ record { tag = private_data_tag; size = 4; body = private_data 0x65633364 }
            ∷ record {
              tag = registration_tag;
              size = (4 + length info) % 256;
              body = registration audio_setup_format info;
            }
            ∷ [];
    }

pub record SyncframeHeader : Type 0 where
  pub frame_type : ℕ
  pub frame_size : ℕ
  pub sample_rate : ℕ
  pub blocks : ℕ
  pub fscod : ℕ
  pub bsid : ℕ
  pub acmod : ℕ
  pub lfeon : ℕ

-- `(((int(data[2]&0x07) << 8) | int(data[3])) + 1) * 2`
abbrev pub declared_size : Bytes → ℕ
declared_size buf = (get_or buf 2 0 % 8 * 256 + get_or buf 3 0 + 1) * 2

-- The part of `parseSyncframeHeader` behind the sample rate.
finish_header : ℕ → ℕ → Bytes → Method Bytes SyncframeHeader
finish_header sample_rate blocks buf s =
    let bsid = get_or buf 5 0 / 8 in
    if ltb bsid 11 || ltb 16 bsid
    then err bad_bitstream_id s
    else ok
        (record {
          frame_type = get_or buf 2 0 / 64;
          frame_size = declared_size buf;
          sample_rate = sample_rate;
          blocks = blocks;
          fscod = get_or buf 4 0 / 64;
          bsid = bsid;
          acmod = get_or buf 4 0 / 2 % 8;
          lfeon = get_or buf 4 0 % 2;
        })
        s

-- `parseSyncframeHeader` reads its argument, the state of this method, and leaves it as it is.
pub parse_syncframe_header : Method Bytes SyncframeHeader
unfolding finish_header
parse_syncframe_header buf =
    let fscod = get_or buf 4 0 / 64 in
    let code = get_or buf 4 0 / 16 % 4 in
    if not (get_or buf 0 0 == 0x0B && get_or buf 1 0 == 0x77)
    then err missing_syncword buf
    else if get_or buf 2 0 / 64 == 3
    then err reserved_frame_type buf
    else if ltb (declared_size buf) eac3_header_size
    then err bad_frame_size buf
    else if fscod == 3
    then if code == 3
      then err bad_sample_rate buf
      else finish_header (get_or sample_rates code 0 / 2) 6 buf buf
    else finish_header (get_or sample_rates fscod 0) (get_or frame_blocks code 0) buf buf

unfoldable pub setup : SyncframeHeader → Bytes
setup h =
    let data_rate = h.frame_size * 8 * h.sample_rate / (h.blocks * 256) / 1000 in
    data_rate / 32 % 256
    ∷ data_rate * 8 % 256
    ∷ (h.fscod * 64 + h.bsid * 2) % 256
    ∷ (h.acmod * 2 + h.lfeon) % 256
    ∷ 0
    ∷ []

-- `header.frameType == 0 || header.frameType == 2`
abbrev pub is_independent : SyncframeHeader → Bool
is_independent h = h.frame_type == 0 || h.frame_type == 2

module _ {W B : Type 0} (handler : PesHandler W) (block : BlockCryptor B)
    (signal : Patch → Method W (Unit {0})) where
  -- `CryptBlocks` over the whole blocks behind the clear lead, without a reset.
  pub crypt_frame : ℕ → Method (Transformer W B) (Unit {0})
  unfolding crypt_range
  crypt_frame size t =
      let count = protected_size eac3_clear_lead size in
      if ltb eac3_clear_lead size
      then if ltb 0 count then crypt_range block eac3_clear_lead count t else ok tt t
      else ok tt t

  -- The part of a round behind the config.
  process_frame : SyncframeHeader → Method (Transformer W B) Bool
  unfolding crypt_frame write_frame reset_block
  process_frame h t =
      if ltb (length t.buffer) h.frame_size
      then ok false t
      else and_then (if is_independent h then reset_block block t else ok tt t) (λ _ t1.
        and_then (crypt_frame h.frame_size t1) (λ _ t2. write_frame handler signal h.frame_size t2))

  -- `if !t.configSent { … }`
  ensure_config : SyncframeHeader → Method (Transformer W B) (Unit {0})
  unfolding send_config setup
  ensure_config h t =
      if t.config_sent
      then ok tt t
      else if not (is_independent h)
      then err independent_frame_first t
      else send_config handler signal (patch_pmt (setup h)) t

  -- A round of the loop of `processFrames`; `false` is its `return nil`.
  process_round : Method (Transformer W B) Bool
  unfolding process_frame ensure_config parse_syncframe_header
  process_round t =
      if ltb (length t.buffer) eac3_header_size
      then ok false t
      else elim (parse_syncframe_header t.buffer) [
        | err e _ ↦ err e t
        | ok h _ ↦ and_then (ensure_config h t) (λ _ t1. process_frame h t1)
      ]

  -- Each round takes a frame of at least seven bytes off the buffer.
  process_loop : ℕ → Method (Transformer W B) (Unit {0})
  unfolding process_round
  process_loop zero t = err out_of_fuel t
  process_loop (suc f) t =
      and_then (process_round t)
        (λ more t1. elim more [ true ↦ process_loop f t1 | false ↦ ok tt t1 ])

  pub process_frames : Method (Transformer W B) (Unit {0})
  process_frames t = process_loop (suc (length t.buffer)) t

  pub pes_header : Bytes → Method (Transformer W B) (Unit {0})
  pes_header header t = PesQueue.pes_header handler header t

  pub pes_payload : Bytes → Method (Transformer W B) (Unit {0})
  pes_payload payload t = PesQueue.pes_payload handler process_frames payload t

  pub pes_end : Method (Transformer W B) (Unit {0})
  pes_end t = PesQueue.pes_end handler t

  pub flush : Method (Transformer W B) (Unit {0})
  flush t = PesQueue.flush handler process_frames t
