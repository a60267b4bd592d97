-- ===== src/Remux/Remuxer.antt =====
-- ts/remuxer.go: the packets of the input, routed by PID.
pub mod Passing
pub mod Open
use mpegenc.Common.{
  ℕ, Bool, not, ◌&&◌, ◌||◌, Option, none, some, List, [], ◌∷◌, Bytes, ◌==◌, if◌then◌else◌, Method,
  ok, err, and_then, within, Dict, lookup, insert, keys, is_some, nil_packet,
}
use mpegenc.SampleAes.{Config, CbcEncryptor, cbc_cryptor}
use mpegenc.Astits.{Astits, Packet}
use mpegenc.Astits.Tables.{Tables, pat_pid}
use mpegenc.Pmt.{ElementaryStream, Patch}
use mpegenc.Packets.Pat.{PatCollector, new_pat_collector}
use mpegenc.Packets.Pat
use mpegenc.Output.Aligner.{OutputAligner, CompletedSlot, new_output_aligner}
use mpegenc.Output.Assembler.{OutputAssembler, new_output_assembler}
use mpegenc.Output.Assembler
use mpegenc.Remux.PmtTransformer.{PmtTransformer, new_pmt_transformer}
use mpegenc.Remux.PmtTransformer
use mpegenc.Remux.Media.{supported_media_type, new_transformer, next_of, put_next}
use mpegenc.Remux.Stream.{MediaStream, new_media_stream, active, Sink, next_handler}
use mpegenc.Remux.Stream

-- A stream at rest: behind its transformer is its aligner.
abbrev pub StoredStream : Type 0 → Type 0
StoredStream AF = MediaStream (OutputAligner AF) CbcEncryptor

-- `streams` is nil before the first PMT.
pub record Remuxer (AF Wr : Type 0) : Type 0 where
  pub pat : PatCollector
  pub pmt : PmtTransformer AF
  pub streams : Option (Dict (StoredStream AF))
  pub output : OutputAssembler AF Wr
  pub pmt_pid : ℕ
  pub input_encrypted : Bool
  pub cfg : Config

unfoldable pub new_remuxer : {AF Wr : Type 0} → Option Wr → Bool → Config → Remuxer AF Wr
unfolding new_pmt_transformer new_pat_collector new_output_assembler
new_remuxer writer input_encrypted cfg = record {
  pat = new_pat_collector 1;
  pmt = new_pmt_transformer input_encrypted;
  streams = none;
  output = new_output_assembler writer;
  pmt_pid = 0;
  input_encrypted = input_encrypted;
  cfg = cfg;
}

-- What a running stream can change: its aligner and, by its signal, the PMT transformer and, through
-- that, the output.
pub record World (AF Wr : Type 0) : Type 0 where
  pub aligner : OutputAligner AF
  pub pmt : PmtTransformer AF
  pub output : OutputAssembler AF Wr

abbrev pub world_sink : {AF Wr : Type 0} → Sink AF (World AF Wr)
world_sink = record { get = λ w. w.aligner; put = λ a w. record w { aligner = a } }

module _ {AF Wr : Type 0} where
  -- A stream with the remuxer's parts behind it.
  abbrev pub wake : Remuxer AF Wr → StoredStream AF → MediaStream (World AF Wr) CbcEncryptor
  wake r s = record {
    pid = s.pid;
    stream_type = s.stream_type;
    pes = s.pes;
    transformer =
        put_next (record { aligner = next_of s.transformer; pmt = r.pmt; output = r.output })
          s.transformer;
  }

  abbrev pub rest : MediaStream (World AF Wr) CbcEncryptor → StoredStream AF
  rest s = record {
    pid = s.pid;
    stream_type = s.stream_type;
    pes = s.pes;
    transformer = put_next (next_of s.transformer).aligner s.transformer;
  }

  -- Puts a stream back under its PID, and what it changed besides.
  abbrev pub put_stream :
      ℕ
      → Dict (StoredStream AF)
      → Remuxer AF Wr
      → MediaStream (World AF Wr) CbcEncryptor
      → Remuxer AF Wr
  put_stream pid streams r s =
      let w = next_of s.transformer in
      record r { pmt = w.pmt; output = w.output; streams = some (insert pid (rest s) streams) }

  abbrev pub streams_or_nil : Remuxer AF Wr → Dict (StoredStream AF)
  streams_or_nil r = elim r.streams [ none ↦ [] | some m ↦ m ]

-- `pidToStreamType`: the first entry of each PID that is supported.
abbrev pub stream_types : Bool → List ElementaryStream → Dict ℕ → Dict ℕ
stream_types encrypted [] m = m
stream_types encrypted (s ∷ ss) m = stream_types encrypted ss (
    if not (supported_media_type s.stream_type encrypted) || is_some (lookup s.elementary_pid m)
    then m
    else insert s.elementary_pid s.stream_type m)

-- The libraries' parameters, AES on one block, the writer, and the order in which Go ranges over the
-- keys of a map.
module _ {AF Wr : Type 0} (lib : Astits AF) (tables : Tables AF) (aes : Bytes → Bytes → Bytes)
    (write_packet : Packet AF → Method Wr (Unit {0})) (order : List ℕ → List ℕ) where
  abbrev pub complete : CompletedSlot AF → Method (OutputAssembler AF Wr) (Unit {0})
  complete = Assembler.commit write_packet

  -- A call of the output, or of the PMT transformer with the output behind it.
  abbrev pub on_output : {A : Type 0} → Method (OutputAssembler AF Wr) A → Method (Remuxer AF Wr) A
  on_output call r = within (λ r o. record r { output = o }) r (call r.output)

  abbrev pub on_pmt :
      {A : Type 0} → Method (PmtTransformer AF × OutputAssembler AF Wr) A → Method (Remuxer AF Wr) A
  on_pmt call r = within (λ r q. record r { pmt = q.0; output = q.1 }) r (call (r.pmt, r.output))

  -- `r.pmt.Signal(pid)` for a running stream.
  abbrev pub signal_of : ℕ → Patch → Method (World AF Wr) (Unit {0})
  signal_of pid patch w =
      within (λ w q. record w { pmt = q.0; output = q.1 }) w
        (PmtTransformer.signal tables complete pid patch (w.pmt, w.output))

  abbrev pub run_stream :
      {A : Type 0}
      → ℕ
      → Dict (StoredStream AF)
      → StoredStream AF
      → Method (MediaStream (World AF Wr) CbcEncryptor) A
      → Method (Remuxer AF Wr) A
  run_stream pid streams s call r = within (put_stream pid streams) r (call (wake r s))

  pub commit_all : List (CompletedSlot AF) → Method (Remuxer AF Wr) (Unit {0})
  commit_all [] r = ok tt r
  commit_all (s ∷ ss) r = and_then (on_output (complete s) r) (λ _ r'. commit_all ss r')

  -- A new stream: `NewTransformer` may signal at once.
  create_stream : ℕ → ℕ → Dict (StoredStream AF) → Method (Remuxer AF Wr) (Unit {0})
  create_stream pid stream_type streams r =
      let w : World AF Wr = record {
        aligner = new_output_aligner pid;
        pmt = r.pmt;
        output = r.output;
      } in
      let back = λ (w : World AF Wr). record r { pmt = w.pmt; output = w.output } in
      elim (new_transformer aes (next_handler lib world_sink cbc_cryptor (signal_of pid))
        (signal_of pid) r.cfg stream_type w) [
          | err e w' ↦ err e (back w')
          | ok t w' ↦ ok tt (record (back w') {
            streams = some (
                insert pid (new_media_stream pid stream_type (put_next (next_of t).aligner t))
                  streams);
          })
        ]

  -- The loop over `pidToStreamType`, by the keys in the order of the range.
  create_streams : Dict ℕ → List ℕ → Method (Remuxer AF Wr) (Unit {0})
  unfolding create_stream
  create_streams types [] r = ok tt r
  create_streams types (pid ∷ pids) r = elim (lookup pid types) [
    | none ↦ create_streams types pids r
    | some stream_type ↦
        and_then (create_stream pid stream_type (streams_or_nil r) r)
          (λ _ r'. create_streams types pids r')
  ]

  pub update_media_streams : List ElementaryStream → Method (Remuxer AF Wr) (Unit {0})
  unfolding create_streams
  update_media_streams streams r =
      if is_some r.streams
      then ok tt r
      else let types = stream_types r.input_encrypted streams [] in
        create_streams types (order (keys types)) (record r { streams = some [] })

  -- The three cases of the switch.
  consume_pat : ℕ → Packet AF → Method (Remuxer AF Wr) (Unit {0})
  consume_pat token packet r =
      and_then
        (within (λ r c. record r { pat = c }) r
          (Pat.consume tables packet.head.payload_unit_start packet.payload r.pat))
        (λ found r1.
          on_output (Assembler.commit_original write_packet token packet)
            (elim found [ none ↦ r1 | some pid ↦ record r1 { pmt_pid = pid } ]))

  pub consume_pmt : ℕ → Packet AF → Method (Remuxer AF Wr) (Unit {0})
  unfolding update_media_streams
  consume_pmt token packet r =
      and_then (on_pmt (PmtTransformer.consume tables complete token packet) r)
        (λ streams r1. elim streams [ none ↦ ok tt r1 | some ss ↦ update_media_streams ss r1 ])

  pub consume_media : ℕ → Packet AF → StoredStream AF → Method (Remuxer AF Wr) (Unit {0})
  unfolding commit_all
  consume_media token packet s r =
      if not (active s) && packet.head.has_payload && not packet.head.payload_unit_start
      then on_output (Assembler.commit_original write_packet token packet) r
      else and_then
          (run_stream packet.head.pid (streams_or_nil r) s
            (Stream.consume lib world_sink cbc_cryptor (signal_of packet.head.pid) token
              (some packet))
            r)
          (λ completed r1. commit_all completed r1)

  route : ℕ → Packet AF → Method (Remuxer AF Wr) (Unit {0})
  unfolding consume_pat consume_pmt consume_media
  route token packet r =
      if packet.head.pid == pat_pid
      then consume_pat token packet r
      else if packet.head.pid == r.pmt_pid
      then consume_pmt token packet r
      else elim (lookup packet.head.pid (streams_or_nil r)) [
        | none ↦ on_output (Assembler.commit_original write_packet token packet) r
        | some s ↦ consume_media token packet s r
      ]

  pub consume : Option (Packet AF) → Method (Remuxer AF Wr) (Unit {0})
  unfolding route
  consume none r = err nil_packet r
  consume (some packet) r =
      let (token, output) = Assembler.reserve r.output in
      route token packet (record r { output = output })

  -- The loop over the streams, by the keys in the order of the range.
  unfoldable pub flush_streams : List ℕ → Method (Remuxer AF Wr) (Unit {0})
  flush_streams [] r = ok tt r
  flush_streams (pid ∷ pids) r = elim (lookup pid (streams_or_nil r)) [
    | none ↦ flush_streams pids r
    | some s ↦
        and_then
          (and_then
            (run_stream pid (streams_or_nil r) s
              (Stream.flush lib world_sink cbc_cryptor (signal_of pid)) r)
            (λ completed r1. commit_all completed r1))
          (λ _ r2. flush_streams pids r2)
  ]

  unfoldable pub flush : Method (Remuxer AF Wr) (Unit {0})
  unfolding flush_streams
  flush r = and_then (flush_streams (order (keys (streams_or_nil r))) r) (λ _ r1.
      and_then (within (λ r p. record r { pmt = p }) r1 (PmtTransformer.flush tables r1.pmt))
        (λ _ r2. on_output (Assembler.flush write_packet) r2))
