-- ===== src/Mux/Packetizer/Run.antt =====
-- Any sequence of calls of the packetizer's methods.
use mpegenc.Common.{
  ℕ, ◌≡◌, refl, sym, ap, ◌∙◌, Option, List, [], ◌∷◌, ◌++◌, append-nil, append_assoc, Bytes, arith,
  Method, Outcome, ok, err, and_then,
}
use mpegenc.Astits.{Astits, packet_body, IsLawful}
use mpegenc.Mux.Packetizer.{
  TsPacketizer, new_ts_packetizer, set_continuity_counter, begin_pes, write_pes_payload, end_pes,
  set_next_packet_adaptation_field, write_adaptation_only, flush,
}
use mpegenc.Mux.Packetizer.Stream.{accepted, IsValid, Writes}
use mpegenc.Mux.Packetizer.Calls.{
  begin_pes-Writes, write_pes_payload-Writes, end_pes-Writes, set_next-Writes,
  write_adaptation_only-Writes, flush-Writes,
}

pub data Call (AF : Type 0) : Type 0 where
  begins writes : Bytes → Call AF
  ends flushes : Call AF
  carries preserves : Option AF → Call AF

module _ {AF : Type 0} where
  -- The PES bytes that a call hands over.
  abbrev pub given : Call AF → Bytes
  given (begins h) = h
  given (writes p) = p
  given ends = []
  given flushes = []
  given (carries f) = []
  given (preserves f) = []

  abbrev pub all_given : List (Call AF) → Bytes
  all_given [] = []
  all_given (c ∷ cs) = given c ++ all_given cs

  abbrev pub call : Astits AF → Call AF → Method (TsPacketizer AF) (Unit {0})
  call lib (begins h) = begin_pes lib h
  call lib (writes p) = write_pes_payload lib p
  call lib ends = end_pes lib
  call lib flushes = flush lib
  call lib (carries f) = set_next_packet_adaptation_field lib f
  call lib (preserves f) = write_adaptation_only lib f

  abbrev pub run : Astits AF → List (Call AF) → Method (TsPacketizer AF) (Unit {0})
  run lib [] w = ok tt w
  run lib (c ∷ cs) w = and_then (call lib c w) (λ _ w'. run lib cs w')

module _ {AF : Type 0} (lib : Astits AF) (size : AF → ℕ) (lawful : IsLawful lib size)
    (start : ℕ) where
  abbrev Good : TsPacketizer AF → Type 0
  Good = IsValid lib size lawful start

  abbrev Result : Bytes → Outcome (TsPacketizer AF) (Unit {0}) → Type 0
  Result = Writes lib size lawful start

  call-Writes :
      (c : Call AF) (w : TsPacketizer AF) → Good w → Result (accepted w ++ given c) (call lib c w)
  call-Writes (begins h) w v = begin_pes-Writes lib size lawful start h w v
  call-Writes (writes p) w v = write_pes_payload-Writes lib size lawful start p w v
  call-Writes ends w v = rw append-nil (end_pes-Writes lib size lawful start w v)
  call-Writes flushes w v = rw append-nil (flush-Writes lib size lawful start w v)
  call-Writes (carries f) w v = rw append-nil (set_next-Writes lib size lawful start f w v)
  call-Writes (preserves f) w v =
      rw append-nil (write_adaptation_only-Writes lib size lawful start f w v)

  run-Writes :
      (cs : List (Call AF)) (w : TsPacketizer AF) (stream : Bytes)
      → Good w
      → accepted w ++ all_given cs ≡ stream
      → Result stream (run lib cs w)
  run-Writes [] w stream v e = (v, e)
  run-Writes (c ∷ cs) w stream v e = continue (call lib c w) (call-Writes c w v) (λ w' v' a.
      run-Writes cs w' stream v'
        (ap (λ l. l ++ all_given cs) a ∙ append_assoc (accepted w) (given c) (all_given cs) ∙ e))
    where
      continue :
          (o : Outcome (TsPacketizer AF) (Unit {0}))
          → Result (accepted w ++ given c) o
          → ((w' : TsPacketizer AF)
              → Good w'
              → accepted w' ≡ accepted w ++ given c
              → Result stream (run lib cs w'))
          → Result stream (and_then o (λ _ w'. run lib cs w'))
      continue (ok a w') h k = k w' h.0 (sym (append-nil (accepted w')) ∙ h.1)
      continue (err e' w') h k = h

  -- Whatever is called on a new packetizer, in any order: if no call fails, the payloads of the
  -- packets and what is pending are exactly the bytes handed over, in order. Every packet is full
  -- (field and payload take the 184 bytes behind the TS header), the packets with payload count on
  -- from `start` mod 16 and the others repeat the last counter; this holds up to an error too, and
  -- the error is never that a loop of the model ran out of fuel. The library is taken to make
  -- adaptation fields of the size that is asked for, wherever that size is allowed.
  pub run-new-Writes :
      (pid : ℕ) (cs : List (Call AF))
      → Result (all_given cs) (run lib cs (set_continuity_counter start (new_ts_packetizer pid)))
  unfolding set_continuity_counter new_ts_packetizer
  run-new-Writes pid cs =
      run-Writes cs (set_continuity_counter start (new_ts_packetizer pid)) (all_given cs)
        (record {
          queued = record { full = tt; counted = refl };
          capacity = packet_body;
          fits = refl;
          room = omega arith;
        })
        refl
