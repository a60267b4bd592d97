-- ===== src/Mux/Packetizer/Calls.antt =====
-- Each method of the packetizer keeps it valid.
use mpegenc.Common.{
  ℕ, ◌≤◌, ◌<◌, ◌≡◌, refl, sym, subst, ap, ◌∙◌, inl, inr, Bool, true, false, not, ◌&&◌, ◌||◌, Option,
  none, some, ◌++◌, append-nil, Bytes, arith, length, get_or, ltb, leb, ◌==◌, if◌then◌else◌,
  Outcome, ok, err, and_then, pes_still_open, pes_header_short, missing_start_code,
  pending_outside_pes, Bool-cases,
}
use mpegenc.Astits.{Astits, packet_body, IsLawful}
use mpegenc.Mux.Packetizer.{
  PendingTsPacket, TsPacketizer, payload_capacity, queue_payload, flush_payload_packet,
  queue_adaptation, flush_pending_adaptation, write_pes_bytes, begin_pes, write_pes_payload,
  flush_metadata, end_pes, flush_older, carry_field, set_next_packet_adaptation_field,
  write_adaptation_only, flush, no_pending,
}
use mpegenc.Mux.Packetizer.Stream.{
  IsQueued, IsValid, Writes, capacity-le, flush_payload_packet-Writes, queue_adaptation-Writes,
  accepted,
}
use mpegenc.Mux.Packetizer.Write.{
  write_pes_bytes-Writes, refusal, unchanged_if, if-Writes, and_then-Writes,
}

module _ {AF : Type 0} (lib : Astits AF) (size : AF → ℕ) (lawful : IsLawful lib size)
    (start : ℕ) where
  -- A change of the fields that validity does not read.
  pub marked :
      (w : TsPacketizer AF) (pusi open_now : Bool)
      → IsValid lib size lawful start w
      → IsValid lib size lawful start
          (record w { current = record (w.current) { pusi = pusi }; pes_open = open_now })
  marked w pusi open_now v = record {
    queued = record { full = v.queued.full; counted = v.queued.counted };
    capacity = v.capacity;
    fits = v.fits;
    room = v.room;
  }

  pub write_pes_payload-Writes :
      (bs : Bytes) (w : TsPacketizer AF)
      → IsValid lib size lawful start w
      → Writes lib size lawful start (accepted w ++ bs) (write_pes_payload lib bs w)
  unfolding write_pes_payload
  write_pes_payload-Writes bs w v =
      if-Writes lib size lawful start (not w.pes_open) _ _ _ (v.queued, λ e. cc)
        (write_pes_bytes-Writes lib size lawful start bs w v)

  pub begin_pes-Writes :
      (bs : Bytes) (w : TsPacketizer AF)
      → IsValid lib size lawful start w
      → Writes lib size lawful start (accepted w ++ bs) (begin_pes lib bs w)
  unfolding begin_pes
  begin_pes-Writes bs w v =
      let out = accepted w ++ bs in
      let write =
        write_pes_bytes lib bs
          (record w { current = record (w.current) { pusi = true }; pes_open = true }) in
      refusal lib size lawful start w.pes_open out pes_still_open w _ v (λ e. cc)
        (refusal lib size lawful start (ltb (length bs) 6) out pes_header_short w _ v (λ e. cc)
          (refusal lib size lawful start
            (not (get_or bs 0 0 == 0 && get_or bs 1 0 == 0 && get_or bs 2 0 == 1)) out
            missing_start_code w _ v (λ e. cc)
            (refusal lib size lawful start (ltb 0 (length w.current.payload) || w.current.pusi) out
              pending_outside_pes w write v (λ e. cc)
              (write_pes_bytes-Writes lib size lawful start bs _ (marked w true true v)))))

  flush_pending-Writes :
      (f : AF) (w : TsPacketizer AF)
      → IsValid lib size lawful start w
      → Writes lib size lawful start (accepted w) (flush_pending_adaptation lib f w)
  unfolding flush_pending_adaptation
  flush_pending-Writes f w v =
      and_then-Writes lib size lawful start (accepted w) (queue_adaptation lib f w) _
        (queue_adaptation-Writes lib size lawful start f w v)
        (λ w' v' e. (
          record {
            queued = record { full = v'.queued.full; counted = v'.queued.counted };
            capacity = packet_body;
            fits = refl;
            room = omega (
              arith,
              v'.room,
              (capacity-le lib size lawful start) w'.current.adaptation v'.capacity v'.fits,
            );
          },
          append-nil (accepted w') ∙ e,
        ))

  flush_metadata-Writes :
      (f : Option AF) (w : TsPacketizer AF)
      → IsValid lib size lawful start w
      → Writes lib size lawful start (accepted w) (flush_metadata lib f w)
  unfolding flush_metadata
  flush_metadata-Writes none w v = (v, append-nil (accepted w))
  flush_metadata-Writes (some f) w v = flush_pending-Writes f w v

  fits_packet :
      (w : TsPacketizer AF)
      → IsValid lib size lawful start w
      → length w.current.payload ≤ packet_body
  fits_packet w v =
      omega
        (arith, v.room, (capacity-le lib size lawful start) w.current.adaptation v.capacity v.fits)

  pub end_pes-Writes :
      (w : TsPacketizer AF)
      → IsValid lib size lawful start w
      → Writes lib size lawful start (accepted w) (end_pes lib w)
  unfolding end_pes
  end_pes-Writes w v =
      if-Writes lib size lawful start (not w.pes_open) _ _ _ (v.queued, λ e. cc)
        (if-Writes lib size lawful start (ltb 0 (length w.current.payload)) _ _ _
          (and_then-Writes lib size lawful start _ _ _
            (flush_payload_packet-Writes lib size lawful start w v.queued (fits_packet w v)) close)
          (and_then-Writes lib size lawful start _ _ _
            (flush_metadata-Writes w.current.adaptation _ (marked w false w.pes_open v)) close))
    where
      close :
          (w' : TsPacketizer AF)
          → IsValid lib size lawful start w'
          → accepted w' ≡ accepted w
          → Writes lib size lawful start (accepted w) (ok tt (record w' { pes_open = false }))
      close w' v' e = (marked w' w'.current.pusi false v', append-nil (accepted w') ∙ e)

  -- A packet flushed leaves nothing pending.
  abbrev Empties : Outcome (TsPacketizer AF) (Unit {0}) → Type 0
  Empties (ok a w) = w.current ≡ no_pending
  Empties (err e w) = Unit

  flush_payload_packet-Empties : (w : TsPacketizer AF) → Empties (flush_payload_packet lib w)
  unfolding flush_payload_packet queue_payload
  flush_payload_packet-Empties w = ground arith

  place_field :
      (f : AF) (c : ℕ) (w : TsPacketizer AF) (stream : Bytes)
      → IsQueued lib size lawful start w
      → payload_capacity lib (some f) ≡ some c
      → length w.current.payload < c
      → accepted w ≡ stream
      → Writes lib size lawful start stream
          (ok tt (record w { current = record (w.current) { adaptation = some f } }))
  place_field f c w stream q e h a = (
    record {
      queued = record { full = q.full; counted = q.counted };
      capacity = c;
      fits = e;
      room = h;
    },
    append-nil (accepted w) ∙ a,
  )

  carry_field-Writes :
      (f : AF) (c : Option ℕ) (w : TsPacketizer AF)
      → IsValid lib size lawful start w
      → payload_capacity lib (some f) ≡ c
      → Writes lib size lawful start (accepted w) (carry_field lib f c w)
  unfolding carry_field
  carry_field-Writes f none w v e = (v.queued, λ e. cc)
  carry_field-Writes f (some c) w v e = elim (Bool-cases (c == 0)) [
    | inl z ↦ rw (z, carry_field) (v.queued, λ e. cc)
    | inr z ↦ elim (Bool-cases (leb c (length w.current.payload))) [
      | inr room ↦
          rw (z, room, carry_field) (place_field f c w (accepted w) v.queued e (ground arith) refl)
      | inl no_room ↦
          rw (z, no_room, carry_field)
            (flushed (flush_payload_packet lib w)
              (flush_payload_packet-Writes lib size lawful start w v.queued (fits_packet w v))
              (flush_payload_packet-Empties w) (ground arith))
    ]
  ]
    where
      flushed :
          (o : Outcome (TsPacketizer AF) (Unit {0}))
          → Writes lib size lawful start (accepted w) o
          → Empties o
          → 0 < c
          → Writes lib size lawful start (accepted w) (
              and_then o (λ _ w'.
                ok tt (record w' { current = record (w'.current) { adaptation = some f } })))
      flushed (ok a w') h n z =
          place_field f c w' (accepted w) h.0.queued e
            (omega (arith, ap (λ (k : PendingTsPacket AF). length k.payload) n))
            (sym (append-nil (accepted w')) ∙ h.1)
      flushed (err e' w') h n z = h

  flush_older-Writes :
      (f : Option AF) (w : TsPacketizer AF)
      → IsValid lib size lawful start w
      → Writes lib size lawful start (accepted w) (flush_older lib f w)
  unfolding flush_older
  flush_older-Writes none w v = (v, append-nil (accepted w))
  flush_older-Writes (some f) w v =
      if-Writes lib size lawful start _ _ _ _
        (flush_payload_packet-Writes lib size lawful start w v.queued (fits_packet w v))
        (flush_pending-Writes f w v)

  pub set_next-Writes :
      (f : Option AF) (w : TsPacketizer AF)
      → IsValid lib size lawful start w
      → Writes lib size lawful start (accepted w) (set_next_packet_adaptation_field lib f w)
  unfolding set_next_packet_adaptation_field
  set_next-Writes none w v = (v, append-nil (accepted w))
  set_next-Writes (some f) w v = unchanged_if lib size lawful start (not (lib.has_data f)) w _ v (
      and_then-Writes lib size lawful start (accepted w) (flush_older lib w.current.adaptation w)
        (carry_field lib f (payload_capacity lib (some f)))
        (flush_older-Writes w.current.adaptation w v)
        (λ w' v' e.
          subst
            (λ s.
              (Writes lib size lawful start) s
                (carry_field lib f (payload_capacity lib (some f)) w'))
            e (carry_field-Writes f (payload_capacity lib (some f)) w' v' refl)))

  pub write_adaptation_only-Writes :
      (f : Option AF) (w : TsPacketizer AF)
      → IsValid lib size lawful start w
      → Writes lib size lawful start (accepted w) (write_adaptation_only lib f w)
  unfolding write_adaptation_only
  write_adaptation_only-Writes none w v = (v, append-nil (accepted w))
  write_adaptation_only-Writes (some f) w v =
      let pending = ltb 0 (length w.current.payload) in
      unchanged_if lib size lawful start (not (lib.has_data f)) w _ v (
        and_then-Writes lib size lawful start (accepted w)
          (if pending
            then flush_payload_packet lib w
            else flush_metadata lib w.current.adaptation w)
          (queue_adaptation lib f)
          (if-Writes lib size lawful start pending (accepted w) (flush_payload_packet lib w)
            (flush_metadata lib w.current.adaptation w)
            (flush_payload_packet-Writes lib size lawful start w v.queued (fits_packet w v))
            (flush_metadata-Writes w.current.adaptation w v))
          (λ w' v' e.
            subst (λ s. (Writes lib size lawful start) s (queue_adaptation lib f w')) e
              (queue_adaptation-Writes lib size lawful start f w' v')))

  pub flush-Writes :
      (w : TsPacketizer AF)
      → IsValid lib size lawful start w
      → Writes lib size lawful start (accepted w) (flush lib w)
  unfolding flush
  flush-Writes w v =
      refusal lib size lawful start
        (w.pes_open || ltb 0 (length w.current.payload) || w.current.pusi) (accepted w)
        pes_still_open w (flush_metadata lib w.current.adaptation w) v (λ e. cc)
        (flush_metadata-Writes w.current.adaptation w v)
