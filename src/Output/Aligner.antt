-- ===== src/Output/Aligner.antt =====
-- ts/output.go, `outputAligner`: the source metadata that waits for its PES, and the match of output
-- packets to the slots that the input packets of one PID reserved.
pub mod Order
pub mod Guarded
use mpegenc.Common.{
  is_some, ℕ, zero, suc, ◌+◌, ◌%◌, min, Bool, true, false, not, ◌&&◌, Option, none, some, List, [],
  ◌∷◌, ◌++◌, Bytes, length, drop, ltb, ◌==◌, if◌then◌else◌, Method, ok, err, and_then, within,
  Outcome, map, index_out_of_range,
}
use mpegenc.Astits.{Astits, Packet}
use mpegenc.Packets.Pes.{PesHandler}
use mpegenc.Mux.Packetizer.{
  TsPacketizer, new_ts_packetizer, set_continuity_counter, take_packets,
  set_next_packet_adaptation_field, write_adaptation_only, begin_pes, write_pes_payload, end_pes,
}
use mpegenc.Mux.Packetizer

pub record PacketMetadata (AF : Type 0) : Type 0 where
  pub cc : ℕ
  pub has_payload : Bool
  pub adaptation : Option AF

-- One input position whose replacement is ready.
pub record CompletedSlot (AF : Type 0) : Type 0 where
  pub token : ℕ
  pub packets : List (Packet AF)

pub record PendingPesMetadata (AF : Type 0) : Type 0 where
  pub start_adaptation : Option AF
  pub events : List (PacketMetadata AF)

pub record OutputAligner (AF : Type 0) : Type 0 where
  pub packetizer : TsPacketizer AF
  pub pending_pes : List (PendingPesMetadata AF)
  pub cc_initialized : Bool
  pub tokens : List ℕ
  pub pending : Option (CompletedSlot AF)

unfoldable pub new_output_aligner : {AF : Type 0} → ℕ → OutputAligner AF
unfolding new_ts_packetizer
new_output_aligner pid = record {
  packetizer = new_ts_packetizer pid;
  pending_pes = [];
  cc_initialized = false;
  tokens = [];
  pending = none;
}

module _ {AF : Type 0} where
  -- A method of the packetizer.
  abbrev pub on_packetizer : {A : Type 0} → Method (TsPacketizer AF) A → Method (OutputAligner AF) A
  on_packetizer call a = within (λ a w. record a { packetizer = w }) a (call a.packetizer)

  -- A change of `a.pendingPES[len(a.pendingPES)-1]`: one more event.
  add_event : PacketMetadata AF → List (PendingPesMetadata AF) → List (PendingPesMetadata AF)
  add_event e [] = []
  add_event e (p ∷ []) = record p { events = p.events ++ e ∷ [] } ∷ []
  add_event e (p ∷ q ∷ ps) = p ∷ add_event e (q ∷ ps)

  -- The pairs of the two lists up to the shorter; the last token takes the packets that are left.
  pub pair_up : List ℕ → List (Packet AF) → List (CompletedSlot AF)
  pair_up [] packets = []
  pair_up (t ∷ ts) [] = []
  pair_up (t ∷ []) (p ∷ ps) = record { token = t; packets = p ∷ ps } ∷ []
  pair_up (t ∷ u ∷ ts) (p ∷ ps) = record { token = t; packets = p ∷ [] } ∷ pair_up (u ∷ ts) ps

  -- Takes the last slot off, to be kept back.
  pub split_last : List (CompletedSlot AF) → List (CompletedSlot AF) × Option (CompletedSlot AF)
  split_last [] = ([], none)
  split_last (s ∷ []) = ([], some s)
  split_last (s ∷ s' ∷ ss) = let (front, last) = split_last (s' ∷ ss) in (s ∷ front, last)

  -- `align` behind the pending slot, which went to `completed`.
  match_tokens :
      List (CompletedSlot AF)
      → List (Packet AF)
      → OutputAligner AF
      → List (CompletedSlot AF) × OutputAligner AF
  unfolding pair_up split_last
  match_tokens completed [] a = (completed, a)
  match_tokens completed (p ∷ ps) a =
      let (front, last) = split_last (pair_up a.tokens (p ∷ ps)) in
      (
        completed ++ front,
        record a {
          tokens = drop (min (length (p ∷ ps)) (length a.tokens)) a.tokens;
          pending = last;
        },
      )

  -- `align` by the pending slot and the tokens.
  align_pending :
      Option (CompletedSlot AF)
      → List ℕ
      → List (Packet AF)
      → OutputAligner AF
      → List (CompletedSlot AF) × OutputAligner AF
  unfolding match_tokens
  align_pending none tokens packets a = match_tokens [] packets a
  align_pending (some s) [] packets a =
      ([], record a { pending = some (record s { packets = s.packets ++ packets }) })
  align_pending (some s) (t ∷ ts) packets a =
      match_tokens (s ∷ []) packets (record a { pending = none })

  unfoldable pub align : OutputAligner AF → List (CompletedSlot AF) × OutputAligner AF
  unfolding align_pending take_packets
  align a =
      let (packets, w) = take_packets a.packetizer in
      align_pending a.pending a.tokens packets (record a { packetizer = w })

  -- The slots of the tokens that no packet was left for.
  abbrev pub empty_slots : List ℕ → List (CompletedSlot AF)
  empty_slots = map (λ t. record { token = t; packets = [] })

  abbrev pub pending_slots : Option (CompletedSlot AF) → List (CompletedSlot AF)
  pending_slots none = []
  pending_slots (some s) = s ∷ []

  -- `flush` behind the packetizer's.
  pub resolve : OutputAligner AF → List (CompletedSlot AF) × OutputAligner AF
  unfolding align
  resolve a =
      let (completed, a') = align a in
      (
        completed ++ pending_slots a'.pending ++ empty_slots a'.tokens,
        record a' { pending = none; tokens = [] },
      )

module _ {AF : Type 0} (lib : Astits AF) where
  -- The field of an input packet, if it holds more than stuffing, without it.
  abbrev pub meaningful : Option AF → Option AF
  meaningful none = none
  meaningful (some f) = if lib.has_data f then some (lib.clone_without_stuffing f) else none

  clone_packet_metadata : Packet AF → PacketMetadata AF
  clone_packet_metadata packet = record {
    cc = packet.head.continuity_counter % 16;
    has_payload = packet.head.has_payload;
    adaptation = meaningful packet.adaptation_field;
  }

  -- `if !a.ccInitialized { … }`
  init_cc : PacketMetadata AF → OutputAligner AF → OutputAligner AF
  unfolding set_continuity_counter
  init_cc meta a = if a.cc_initialized then a else record a {
    packetizer =
        set_continuity_counter (if meta.has_payload then meta.cc else (meta.cc + 1) % 16)
          a.packetizer;
    cc_initialized = true;
  }

  -- Metadata of a packet that starts no PES, given to the packetizer.
  apply_event : PacketMetadata AF → Method (OutputAligner AF) (Unit {0})
  apply_event meta a =
      if meta.has_payload
      then on_packetizer (set_next_packet_adaptation_field lib meta.adaptation) a
      else on_packetizer (write_adaptation_only lib meta.adaptation) a

  -- The `switch` of `registerInputPacket`.
  register_metadata : Bool → PacketMetadata AF → Method (OutputAligner AF) (Unit {0})
  unfolding add_event apply_event
  register_metadata pusi meta a =
      if meta.has_payload && pusi
      then ok tt (record a {
        pending_pes =
            a.pending_pes ++ record { start_adaptation = meta.adaptation; events = [] } ∷ [];
      })
      else if ltb 0 (length a.pending_pes) && is_some meta.adaptation
      then ok tt (record a { pending_pes = add_event meta a.pending_pes })
      else apply_event meta a

  pub register_input_packet : ℕ → Packet AF → Method (OutputAligner AF) (Unit {0})
  unfolding clone_packet_metadata init_cc register_metadata
  register_input_packet token packet a =
      let meta = clone_packet_metadata packet in
      and_then (register_metadata packet.head.payload_unit_start meta (init_cc meta a))
        (λ _ a'. ok tt (record a' { tokens = a'.tokens ++ token ∷ [] }))

  -- The metadata that waited, in the order of arrival.
  replay : List (PacketMetadata AF) → Method (OutputAligner AF) (Unit {0})
  unfolding apply_event
  replay [] a = ok tt a
  replay (e ∷ es) a = and_then (apply_event e a) (λ _ a'. replay es a')

  -- A field that the packetizer refuses leaves the entry in the queue.
  start_pending :
      PendingPesMetadata AF
      → List (PendingPesMetadata AF)
      → Bytes
      → Method (OutputAligner AF) (Unit {0})
  unfolding replay
  start_pending p ps header a =
      elim (set_next_packet_adaptation_field lib p.start_adaptation a.packetizer) [
        | err e w ↦ err e (record a { packetizer = w; pending_pes = p ∷ ps })
        | ok _ w ↦
            and_then
              (on_packetizer (begin_pes lib header) (record a { packetizer = w; pending_pes = ps }))
              (λ _ a'. replay p.events a')
      ]

  pes_header_from : List (PendingPesMetadata AF) → Bytes → Method (OutputAligner AF) (Unit {0})
  unfolding start_pending
  pes_header_from [] header a = err index_out_of_range a
  pes_header_from (p ∷ ps) header a = start_pending p ps header a

  pub pes_header : Bytes → Method (OutputAligner AF) (Unit {0})
  unfolding pes_header_from
  pes_header header a = pes_header_from a.pending_pes header a

  pub pes_payload : Bytes → Method (OutputAligner AF) (Unit {0})
  pes_payload payload a = on_packetizer (write_pes_payload lib payload) a

  pub pes_end : Method (OutputAligner AF) (Unit {0})
  pes_end a = on_packetizer (end_pes lib) a

  -- The aligner is what the transformers write to.
  pub sink : PesHandler (OutputAligner AF)
  unfolding pes_header
  sink = record { pes_header = pes_header; pes_payload = pes_payload; pes_end = pes_end }

  pub flush : Method (OutputAligner AF) (List (CompletedSlot AF))
  unfolding resolve
  flush a =
      and_then (on_packetizer (Packetizer.flush lib) a)
        (λ _ a1. let (completed, a2) = resolve a1 in ok completed a2)
