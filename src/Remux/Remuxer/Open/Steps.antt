-- ===== src/Remux/Remuxer/Open/Steps.antt =====
-- What a packet of the input does to the slots, as a relation between the histories before and behind.
use mpegenc.Common.{
  ℕ, ◌≡◌, refl, Bool, true, false, not, ◌&&◌, Option, none, some, List, [], ◌∷◌, ◌++◌, Bytes,
  length, ◌==◌, if◌then◌else◌, ok, lookup,
}
use mpegenc.SampleAes.{cbc_cryptor}
use mpegenc.Astits.{Astits, Packet}
use mpegenc.Astits.Tables.{Tables, pat_pid}
use mpegenc.Output.Aligner.{CompletedSlot}
use mpegenc.Output.Assembler.History.{History}
use mpegenc.Output.Assembler.Steps.{recorder, Shows}
use mpegenc.Output.Assembler.Open.{Adds}
use mpegenc.Output.Assembler.Due.{fill, Meets, append-Meets, append-Meets_packet}
use mpegenc.Remux.Stream.{active}
use mpegenc.Remux.Stream
use mpegenc.Remux.Remuxer.{StoredStream, world_sink, streams_or_nil, signal_of, run_stream}
use mpegenc.Remux.Remuxer.Open.Exactly.{Recorded, Exactly, SameButOutput}

-- What is due in the slot of a packet: a PAT goes out as it is.
abbrev pub due_of : {AF : Type 0} → Option (Packet AF) → Option (Packet AF)
due_of none = none
due_of (some packet) = if packet.head.pid == pat_pid then some packet else none

-- Payload that begins no PES, while the stream is in none.
abbrev pub passes : {AF : Type 0} → StoredStream AF → Packet AF → Bool
passes s packet = not (active s) && packet.head.has_payload && not packet.head.payload_unit_start

-- A PAT, or a packet of a PID that is neither the PMT's nor a stream's, or one that passes its stream.
abbrev pub is_copied : {AF : Type 0} → Packet AF → Recorded AF → Bool
is_copied packet r =
    if packet.head.pid == pat_pid
    then true
    else if packet.head.pid == r.pmt_pid
    then false
    else elim (lookup packet.head.pid (streams_or_nil r)) [ none ↦ true | some s ↦ passes s packet ]

module _ {AF : Type 0} (lib : Astits AF) (tables : Tables AF) (aes : Bytes → Bytes → Bytes)
    (order : List ℕ → List ℕ) where
  -- `h` are the slots before the packet's own is reserved, and `h'` those behind. PMTs that were held
  -- can be let out on the way, which `Adds` says, with one packet each.
  pub data Step (packet : Packet AF) (h : History AF) (r r' : Recorded AF) (h' : History AF)
      : Type 0 where
    -- Its slot holds the packet, and nothing else changes.
    copied :
        is_copied packet r ≡ true
        → h' ≡ h ++ some (packet ∷ []) ∷ []
        → r'.streams ≡ r.streams
        → r'.pmt ≡ r.pmt
        → Step packet h r r' h'
    -- A packet of the PMT.
    tabled :
        (packet.head.pid == pat_pid) ≡ false
        → (packet.head.pid == r.pmt_pid) ≡ true
        → Adds (h ++ none ∷ []) h'
        → Step packet h r r' h'
    -- The slots that the stream hands out for the packet hold what it hands out.
    filled :
        (s : StoredStream AF) (completed : List (CompletedSlot AF)) (r1 : Recorded AF)
        (h1 : History AF)
        → (packet.head.pid == pat_pid) ≡ false
        → (packet.head.pid == r.pmt_pid) ≡ false
        → lookup packet.head.pid (streams_or_nil r) ≡ some s
        → passes s packet ≡ false
        → run_stream lib tables aes recorder order packet.head.pid
            (streams_or_nil r)
            s
            (Stream.consume lib world_sink cbc_cryptor
              (signal_of lib tables aes recorder order packet.head.pid)
              (length h)
              (some packet))
            r
          ≡ ok completed r1
        → Adds (h ++ none ∷ []) h1
        → Shows h1 r1.output
        → SameButOutput lib tables aes order r1 r'
        → h' ≡ fill completed h1
        → Step packet h r r' h'

  -- A step was taken, behind which the output shows the slots, with what was due in them.
  abbrev pub Steps : Packet AF → History AF → Recorded AF → Recorded AF → Type 0
  Steps packet h r r' =
      (h' : History AF) × Step packet h r r' h'
      × Exactly lib tables aes order h' [] r'
      × ((ds : List (Option (Packet AF))) → Meets ds h → Meets (ds ++ due_of (some packet) ∷ []) h')

-- A packet in its slot is what is due there.
pub due_original :
    {AF : Type 0} (h : History AF) (packet : Packet AF) (ds : List (Option (Packet AF)))
    → Meets ds h
    → Meets (ds ++ due_of (some packet) ∷ []) (h ++ some (packet ∷ []) ∷ [])
due_original h packet ds m = by_pid (packet.head.pid == pat_pid)
  where
    by_pid :
        (b : Bool)
        → Meets (ds ++ (if b then some packet else none) ∷ []) (h ++ some (packet ∷ []) ∷ [])
    by_pid true = append-Meets_packet ds h packet m
    by_pid false = append-Meets ds h (some (packet ∷ [])) m

pub due_other :
    {AF : Type 0} (packet : Packet AF)
    → (packet.head.pid == pat_pid) ≡ false
    → none ≡ due_of (some packet)
due_other packet e = rw e refl
