-- ===== src/Remux/Media.antt =====
-- ts/codecs/transformer.go and ts/internal/transformer/factory.go: the transformers of the four codecs
-- behind one interface, and their choice by stream type.
pub mod Factory
pub mod Guarded
use mpegenc.Common.{
  ℕ, Bool, not, ◌&&◌, ◌||◌, some, Bytes, ◌==◌, if◌then◌else◌, Method, ok, err, and_then, map_state,
  unsupported_stream_type,
}
use mpegenc.SampleAes.{Config, BlockCryptor, CbcEncryptor, new_cbc_encryptor, cbc_cryptor}
use mpegenc.Pmt.{Patch, h264_type, adts_type, ac3_type, eac3_type}
use mpegenc.Packets.Pes.{PesHandler}
use mpegenc.Codecs.PesQueue
use mpegenc.Codecs.Aac
use mpegenc.Codecs.Ac3
use mpegenc.Codecs.Eac3
use mpegenc.Codecs.Avc.State
use mpegenc.Codecs.Avc.Annexb

-- `MediaTransformer`, an interface, by the types that implement it; `W` is the state that `next` and
-- `signal` change, `B` the cipher's.
pub data MediaTransformer (W B : Type 0) : Type 0 where
  avc : State.Transformer W B → MediaTransformer W B
  aac : PesQueue.Transformer W B → MediaTransformer W B
  ac3 : PesQueue.Transformer W B → MediaTransformer W B
  eac3 : PesQueue.Transformer W B → MediaTransformer W B

unfoldable pub supported_media_type : ℕ → Bool → Bool
supported_media_type stream_type input_encrypted =
    stream_type == h264_type
    || (not input_encrypted
        && (stream_type == adts_type || stream_type == ac3_type || stream_type == eac3_type))

abbrev pub next_of : {W B : Type 0} → MediaTransformer W B → W
next_of (avc t) = t.next
next_of (aac t) = t.next
next_of (ac3 t) = t.next
next_of (eac3 t) = t.next

module _ {W V B : Type 0} where
  abbrev with_next : V → PesQueue.Transformer W B → PesQueue.Transformer V B
  with_next v t = record {
    next = v;
    block = t.block;
    input_pes_open = t.input_pes_open;
    buffer = t.buffer;
    pes = t.pes;
    config_sent = t.config_sent;
  }

  -- The transformer with another state behind `next`.
  abbrev pub put_next : V → MediaTransformer W B → MediaTransformer V B
  put_next v (avc t) = avc (record {
    next = v;
    block = t.block;
    input_pes_open = t.input_pes_open;
    pes = t.pes;
    nal_state = t.nal_state;
    zero_run = t.zero_run;
    nal_encrypted = t.nal_encrypted;
    pattern = t.pattern;
    skip = t.skip;
    escaper = t.escaper;
  })
  put_next v (aac t) = aac (with_next v t)
  put_next v (ac3 t) = ac3 (with_next v t)
  put_next v (eac3 t) = eac3 (with_next v t)

module _ {W B : Type 0} (handler : PesHandler W) (block : BlockCryptor B)
    (signal : Patch → Method W (Unit {0})) where
  pub pes_header : Bytes → Method (MediaTransformer W B) (Unit {0})
  pes_header header (avc t) = map_state avc (Annexb.pes_header handler block header t)
  pes_header header (aac t) = map_state aac (Aac.pes_header handler block signal header t)
  pes_header header (ac3 t) = map_state ac3 (Ac3.pes_header handler block signal header t)
  pes_header header (eac3 t) = map_state eac3 (Eac3.pes_header handler block signal header t)

  pub pes_payload : Bytes → Method (MediaTransformer W B) (Unit {0})
  pes_payload payload (avc t) = map_state avc (Annexb.pes_payload handler block payload t)
  pes_payload payload (aac t) = map_state aac (Aac.pes_payload handler block signal payload t)
  pes_payload payload (ac3 t) = map_state ac3 (Ac3.pes_payload handler block signal payload t)
  pes_payload payload (eac3 t) = map_state eac3 (Eac3.pes_payload handler block signal payload t)

  pub pes_end : Method (MediaTransformer W B) (Unit {0})
  pes_end (avc t) = map_state avc (Annexb.pes_end handler block t)
  pes_end (aac t) = map_state aac (Aac.pes_end handler block signal t)
  pes_end (ac3 t) = map_state ac3 (Ac3.pes_end handler block signal t)
  pes_end (eac3 t) = map_state eac3 (Eac3.pes_end handler block signal t)

  pub flush : Method (MediaTransformer W B) (Unit {0})
  flush (avc t) = map_state avc (Annexb.flush handler block t)
  flush (aac t) = map_state aac (Aac.flush handler block signal t)
  flush (ac3 t) = map_state ac3 (Ac3.flush handler block signal t)
  flush (eac3 t) = map_state eac3 (Eac3.flush handler block signal t)

  -- A transformer is what the PES collector calls.
  pub media_handler : PesHandler (MediaTransformer W B)
  media_handler = record { pes_header = pes_header; pes_payload = pes_payload; pes_end = pes_end }

-- The transformer of a stream type, over the state that AVC signals to at once.
unfoldable pub new_transformer :
    {W : Type 0}
    → (Bytes → Bytes → Bytes)
    → PesHandler W
    → (Patch → Method W (Unit {0}))
    → Config
    → ℕ
    → Method W (MediaTransformer W CbcEncryptor)
new_transformer aes handler signal cfg stream_type w =
    let block = new_cbc_encryptor aes cfg in
    if stream_type == h264_type
    then and_then (Annexb.init handler cbc_cryptor signal w (some block)) (λ t w'. ok (avc t) w')
    else if stream_type == adts_type
    then ok (aac (PesQueue.new_transformer w block)) w
    else if stream_type == ac3_type
    then ok (ac3 (PesQueue.new_transformer w block)) w
    else if stream_type == eac3_type
    then ok (eac3 (PesQueue.new_transformer w block)) w
    else err unsupported_stream_type w
