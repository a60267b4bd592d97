-- ===== src/Remux/Stream.antt =====
-- ts/media_stream.go: the pipeline of one PID, from the input packet to the slots of the output.
pub mod Tokens
use mpegenc.Common.{
  pos, false, [], ℕ, Bool, not, Option, none, some, List, ◌==◌, if◌then◌else◌, Method, ok, err,
  and_then, within, nil_packet, wrong_pid,
}
use mpegenc.SampleAes.{BlockCryptor}
use mpegenc.Astits.{Astits, Packet}
use mpegenc.Pmt.{Patch}
use mpegenc.Packets.Pes.{PesHandler, PesCollector}
use mpegenc.Packets.Pes
use mpegenc.Output.Aligner.{OutputAligner, CompletedSlot, register_input_packet, align}
use mpegenc.Output.Aligner
use mpegenc.Remux.Media.{MediaTransformer, next_of, put_next, media_handler}
use mpegenc.Remux.Media

-- `sink` is the aligner behind the transformer's `next`: both point to the same object, which the
-- model has once, in the transformer.
pub record MediaStream (W B : Type 0) : Type 0 where
  pub pid : ℕ
  pub stream_type : ℕ
  pub pes : PesCollector
  pub transformer : MediaTransformer W B

unfoldable pub new_media_stream : {W B : Type 0} → ℕ → ℕ → MediaTransformer W B → MediaStream W B
new_media_stream pid stream_type transformer = record {
  pid = pid;
  stream_type = stream_type;
  pes = record { active = false; header = []; header_length = 0; payload_remaining = pos 0 };
  transformer = transformer;
}

abbrev pub active : {W B : Type 0} → MediaStream W B → Bool
active s = s.pes.active

-- Where the aligner is in the state behind `next`.
pub record Sink (AF W : Type 0) : Type 0 where
  pub get : W → OutputAligner AF
  pub put : OutputAligner AF → W → W

module _ {AF W B : Type 0} (lib : Astits AF) (sink : Sink AF W) (block : BlockCryptor B)
    (signal : Patch → Method W (Unit {0})) where
  -- The aligner as a handler on the state behind `next`.
  abbrev pub on_sink : {A : Type 0} → Method (OutputAligner AF) A → Method W A
  on_sink call w = within (λ w a. sink.put a w) w (call (sink.get w))

  abbrev pub next_handler : PesHandler W
  next_handler = record {
    pes_header = λ header. on_sink (Aligner.pes_header lib header);
    pes_payload = λ payload. on_sink (Aligner.pes_payload lib payload);
    pes_end = on_sink (Aligner.pes_end lib);
  }

  abbrev pub handler : PesHandler (MediaTransformer W B)
  handler = media_handler next_handler block signal

  -- A call of the aligner, of the collector, or of the transformer.
  abbrev pub with_sink : {A : Type 0} → Method (OutputAligner AF) A → Method (MediaStream W B) A
  with_sink call s =
      within (λ s w. record s { transformer = put_next w s.transformer }) s
        (on_sink call (next_of s.transformer))

  abbrev pub with_pes :
      {A : Type 0} → Method (PesCollector × MediaTransformer W B) A → Method (MediaStream W B) A
  with_pes call s =
      within (λ s q. record s { pes = q.0; transformer = q.1 }) s (call (s.pes, s.transformer))

  abbrev pub with_transformer :
      {A : Type 0} → Method (MediaTransformer W B) A → Method (MediaStream W B) A
  with_transformer call s = within (λ s t. record s { transformer = t }) s (call s.transformer)

  -- `s.sink.align()`
  align_sink : Method (OutputAligner AF) (List (CompletedSlot AF))
  align_sink a = let (completed, a') = align a in ok completed a'

  feed : ℕ → Packet AF → Method (MediaStream W B) (List (CompletedSlot AF))
  unfolding align_sink
  feed token packet s = and_then (with_sink (register_input_packet lib token packet) s) (λ _ s1.
      and_then (with_pes (Pes.consume handler packet.head.payload_unit_start packet.payload) s1)
        (λ _ s2. with_sink align_sink s2))

  pub consume : ℕ → Option (Packet AF) → Method (MediaStream W B) (List (CompletedSlot AF))
  unfolding feed
  consume token none s = err nil_packet s
  consume token (some packet) s =
      if not (packet.head.pid == s.pid) then err wrong_pid s else feed token packet s

  pub flush : Method (MediaStream W B) (List (CompletedSlot AF))
  flush s = and_then (with_pes (Pes.flush handler) s) (λ _ s1.
      and_then (with_transformer (Media.flush next_handler block signal) s1)
        (λ _ s2. with_sink (Aligner.flush lib) s2))
