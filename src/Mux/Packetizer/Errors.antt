-- ===== src/Mux/Packetizer/Errors.antt =====
-- The packetizer's errors are its own.
use mpegenc.Common.{
  ℕ, zero, suc, refl, true, false, Option, none, some, [], ◌∷◌, Bytes, length, ◌==◌, Method,
  Outcome, ok, err, and_then, Leaves, on_ok, on_err, Leaves-if, external, adaptation_too_large,
  no_payload_to_flush, ◌-◌, ltb, ◌++◌,
}
use mpegenc.Astits.{Astits, packet_body}
use mpegenc.Packets.Pes.Guards.{Anything}
use mpegenc.Mux.Packetizer.{
  TsPacketizer, queue_payload, filling, flush_payload_packet, queue_adaptation,
  flush_pending_adaptation, flush_if_full, write_piece, write_round, write_loop, write_pes_bytes,
  begin_pes, write_pes_payload, flush_metadata, end_pes, flush_older, carry_field,
  set_next_packet_adaptation_field, write_adaptation_only, flush, payload_capacity, prepare_failed,
  adaptation_packet,
}

module _ {AF : Type 0} (lib : Astits AF) where
  abbrev Quiet : {A : Type 0} → Outcome (TsPacketizer AF) A → Type 0
  Quiet o = Leaves Anything o

  then-Quiet :
      {A C : Type 0} (o : Outcome (TsPacketizer AF) A) (f : A → Method (TsPacketizer AF) C)
      → Quiet o
      → ((a : A) (w : TsPacketizer AF) → Quiet (f a w))
      → Quiet (and_then o f)
  then-Quiet (ok a w) f (on_ok h) k = k a w
  then-Quiet (err e w) f (on_err n) k = on_err n

  done-Quiet : {A : Type 0} (a : A) (w : TsPacketizer AF) → Quiet (ok a w)
  done-Quiet a w = on_ok tt

  -- What the library prepares, or its error.
  prepared-Quiet :
      (o : Option AF) (e : ℕ) (w : TsPacketizer AF) (f : AF → Outcome (TsPacketizer AF) (Unit {0}))
      → ((a : AF) → Quiet (f a))
      → Quiet {A = Unit {0}} (elim o [ none ↦ err (external e) w | some a ↦ f a ])
  prepared-Quiet none e w f k = on_err refl
  prepared-Quiet (some a) e w f k = k a

  flush_payload_packet-Quiet : (w : TsPacketizer AF) → Quiet (flush_payload_packet lib w)
  unfolding flush_payload_packet queue_payload
  flush_payload_packet-Quiet w =
      let remaining = packet_body - length w.current.payload in
      Leaves-if (length w.current.payload == 0) (err no_payload_to_flush w) _ (on_err refl) (
        Leaves-if (ltb 0 remaining) _ (queue_payload lib false none w)
          (prepared-Quiet (filling lib w.current.adaptation remaining) prepare_failed w
            (λ a. queue_payload lib true (some a) w) (λ a. on_ok tt))
          (on_ok tt))

  queue_adaptation-Quiet : (field : AF) (w : TsPacketizer AF) → Quiet (queue_adaptation lib field w)
  unfolding queue_adaptation
  queue_adaptation-Quiet field w =
      prepared-Quiet (lib.field_with_size field packet_body) prepare_failed w
        (λ a. ok tt (record w { packets = w.packets ++ adaptation_packet lib a w ∷ [] }))
        (λ a. on_ok tt)

  flush_pending-Quiet :
      (field : AF) (w : TsPacketizer AF) → Quiet (flush_pending_adaptation lib field w)
  unfolding flush_pending_adaptation
  flush_pending-Quiet field w = search (then-Quiet, queue_adaptation-Quiet, done-Quiet)

  flush_if_full-Quiet : (n : ℕ) (w : TsPacketizer AF) → Quiet (flush_if_full lib n w)
  unfolding flush_if_full
  flush_if_full-Quiet n w = search (Leaves-if, flush_payload_packet-Quiet, done-Quiet)

  write_piece-Quiet : (n : ℕ) (bs : Bytes) (w : TsPacketizer AF) → Quiet (write_piece lib n bs w)
  unfolding write_piece
  write_piece-Quiet n bs w =
      search
        (
          Leaves-if, then-Quiet, flush_payload_packet-Quiet, flush_if_full-Quiet, done-Quiet,
          on_err, refl,
        )
        depth 8

  write_round-Quiet : (bs : Bytes) (w : TsPacketizer AF) → Quiet (write_round lib bs w)
  unfolding write_round
  write_round-Quiet bs w = at_capacity (payload_capacity lib w.current.adaptation)
    where
      at_capacity :
          (c : Option ℕ)
          → Quiet {A = Bytes} (elim c [
            | none ↦ err adaptation_too_large w
            | some capacity ↦ write_piece lib capacity bs w
          ])
      at_capacity none = on_err refl
      at_capacity (some c) = write_piece-Quiet c bs w

  write_loop-Quiet : (f : ℕ) (bs : Bytes) (w : TsPacketizer AF) → Quiet (write_loop lib f bs w)
  unfolding write_loop
  write_loop-Quiet f [] w = on_ok tt
  write_loop-Quiet zero (b ∷ bs) w = on_err refl
  write_loop-Quiet (suc f) (b ∷ bs) w =
      then-Quiet (write_round lib (b ∷ bs) w) (λ rest w'. write_loop lib f rest w')
        (write_round-Quiet (b ∷ bs) w) (λ rest w'. write_loop-Quiet f rest w')

  pub begin_pes-Quiet : (bs : Bytes) (w : TsPacketizer AF) → Quiet (begin_pes lib bs w)
  unfolding begin_pes write_pes_bytes
  begin_pes-Quiet bs w = search (Leaves-if, write_loop-Quiet, on_err, refl) depth 8

  pub write_pes_payload-Quiet :
      (bs : Bytes) (w : TsPacketizer AF) → Quiet (write_pes_payload lib bs w)
  unfolding write_pes_payload write_pes_bytes
  write_pes_payload-Quiet bs w = search (Leaves-if, write_loop-Quiet, on_err, refl)

  flush_metadata-Quiet :
      (field : Option AF) (w : TsPacketizer AF) → Quiet (flush_metadata lib field w)
  unfolding flush_metadata
  flush_metadata-Quiet none w = on_ok tt
  flush_metadata-Quiet (some a) w = flush_pending-Quiet a w

  pub end_pes-Quiet : (w : TsPacketizer AF) → Quiet (end_pes lib w)
  unfolding end_pes
  end_pes-Quiet w =
      search
        (
          Leaves-if, then-Quiet, flush_payload_packet-Quiet, flush_metadata-Quiet, done-Quiet,
          on_err, refl,
        )
        depth 8

  flush_older-Quiet : (field : Option AF) (w : TsPacketizer AF) → Quiet (flush_older lib field w)
  unfolding flush_older
  flush_older-Quiet none w = on_ok tt
  flush_older-Quiet (some a) w = search (Leaves-if, flush_payload_packet-Quiet, flush_pending-Quiet)

  carry_field-Quiet :
      (field : AF) (c : Option ℕ) (w : TsPacketizer AF) → Quiet (carry_field lib field c w)
  unfolding carry_field
  carry_field-Quiet field none w = on_err refl
  carry_field-Quiet field (some c) w =
      search (Leaves-if, then-Quiet, flush_payload_packet-Quiet, done-Quiet, on_err, refl) depth 8

  pub set_next-Quiet :
      (field : Option AF) (w : TsPacketizer AF)
      → Quiet (set_next_packet_adaptation_field lib field w)
  unfolding set_next_packet_adaptation_field
  set_next-Quiet none w = on_ok tt
  set_next-Quiet (some a) w =
      search (Leaves-if, then-Quiet, flush_older-Quiet, carry_field-Quiet, done-Quiet)

  pub write_adaptation_only-Quiet :
      (field : Option AF) (w : TsPacketizer AF) → Quiet (write_adaptation_only lib field w)
  unfolding write_adaptation_only
  write_adaptation_only-Quiet none w = on_ok tt
  write_adaptation_only-Quiet (some a) w =
      search
        (
          Leaves-if, then-Quiet, flush_payload_packet-Quiet, flush_metadata-Quiet,
          queue_adaptation-Quiet, done-Quiet,
        )
        depth 8

  pub flush-Quiet : (w : TsPacketizer AF) → Quiet (flush lib w)
  unfolding flush
  flush-Quiet w = search (Leaves-if, flush_metadata-Quiet, on_err, refl)
