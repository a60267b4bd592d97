-- ===== src/Mux/Packetizer.antt =====
-- ts/internal/mux/ts_packetizer.go: the output PES bytes of one PID cut into TS packets.
pub mod Stream
pub mod Write
pub mod Calls
pub mod Run
pub mod Errors
use mpegenc.Common.{
  ℕ, zero, suc, ◌+◌, ◌-◌, ◌%◌, min, Bool, true, false, not, ◌&&◌, ◌||◌, Option, none, some, List,
  [], ◌∷◌, ◌++◌, Bytes, length, get_or, take, drop, ltb, leb, ◌==◌, if◌then◌else◌, Method, ok, err,
  and_then, external, pes_still_open, pes_header_short, missing_start_code, pending_outside_pes,
  payload_outside_pes, no_open_pes, adaptation_too_large, no_payload_capacity, no_payload_to_flush,
  out_of_fuel,
}
use mpegenc.Astits.{Astits, Packet, packet_body}

-- `payload` holds the first `payloadLen` bytes of the array.
pub record PendingTsPacket (AF : Type 0) : Type 0 where
  pub payload : Bytes
  pub pusi : Bool
  pub adaptation : Option AF

pub record TsPacketizer (AF : Type 0) : Type 0 where
  pub pid : ℕ
  pub cc : ℕ
  pub current : PendingTsPacket AF
  pub pes_open : Bool
  pub packets : List (Packet AF)

-- `pendingTSPacket.reset`
abbrev pub no_pending : {AF : Type 0} → PendingTsPacket AF
no_pending = record { payload = []; pusi = false; adaptation = none }

unfoldable pub new_ts_packetizer : {AF : Type 0} → ℕ → TsPacketizer AF
new_ts_packetizer pid = record {
  pid = pid;
  cc = 0;
  current = no_pending;
  pes_open = false;
  packets = [];
}

unfoldable pub set_continuity_counter : {AF : Type 0} → ℕ → TsPacketizer AF → TsPacketizer AF
set_continuity_counter cc w = record w { cc = cc }

unfoldable pub take_packets : {AF : Type 0} → TsPacketizer AF → List (Packet AF) × TsPacketizer AF
take_packets w = (w.packets, record w { packets = [] })

-- The error of the library, whose text the code wraps.
abbrev pub prepare_failed : ℕ
prepare_failed = 0

-- `none` is the error for a field that does not fit.
abbrev pub payload_capacity : {AF : Type 0} → Astits AF → Option AF → Option ℕ
payload_capacity lib none = some packet_body
payload_capacity lib (some a) =
    let size = lib.size_without_stuffing a in
    if ltb packet_body size then none else some (packet_body - size)

module _ {AF : Type 0} (lib : Astits AF) where
  abbrev pub Writing : Type 0
  Writing = Method (TsPacketizer AF) (Unit {0})

  -- The packet that carries what is pending.
  abbrev pub payload_packet : Bool → Option AF → TsPacketizer AF → Packet AF
  payload_packet has_field field w = record {
    head = record {
      continuity_counter = w.cc;
      has_adaptation_field = has_field;
      has_payload = true;
      payload_unit_start = w.current.pusi;
      pid = w.pid;
    };
    adaptation_field = field;
    payload = w.current.payload;
  }

  -- The packet whose whole body is a field.
  abbrev pub adaptation_packet : AF → TsPacketizer AF → Packet AF
  adaptation_packet field w = record {
    head = record {
      continuity_counter = (w.cc + 15) % 16;
      has_adaptation_field = true;
      has_payload = false;
      payload_unit_start = false;
      pid = w.pid;
    };
    adaptation_field = some field;
    payload = [];
  }

  queue_payload : Bool → Option AF → Writing
  queue_payload has_field field w = ok tt (record w {
    packets = w.packets ++ payload_packet has_field field w ∷ [];
    cc = (w.cc + 1) % 16;
    current = no_pending;
  })

  -- The field that fills `remaining` bytes.
  abbrev pub filling : Option AF → ℕ → Option AF
  filling none remaining = lib.stuffing_field remaining
  filling (some a) remaining = lib.field_with_size a remaining

  pub flush_payload_packet : Writing
  unfolding queue_payload
  flush_payload_packet w =
      let remaining = packet_body - length w.current.payload in
      if length w.current.payload == 0
      then err no_payload_to_flush w
      else if ltb 0 remaining
      then elim (filling w.current.adaptation remaining) [
        | none ↦ err (external prepare_failed) w
        | some a ↦ queue_payload true (some a) w
      ]
      else queue_payload false none w

  -- `writeAdaptationOnly`
  pub queue_adaptation : AF → Writing
  queue_adaptation field w = elim (lib.field_with_size field packet_body) [
    | none ↦ err (external prepare_failed) w
    | some a ↦ ok tt (record w { packets = w.packets ++ adaptation_packet a w ∷ [] })
  ]

  flush_pending_adaptation : AF → Writing
  unfolding queue_adaptation
  flush_pending_adaptation field w =
      and_then (queue_adaptation field w)
        (λ _ w'. ok tt (record w' { current = record (w'.current) { adaptation = none } }))

  -- `if payloadLen == capacity { flushPayloadPacket }`
  pub flush_if_full : ℕ → Writing
  unfolding flush_payload_packet
  flush_if_full capacity w =
      if length w.current.payload == capacity then flush_payload_packet w else ok tt w

  -- A round of the loop of `writePESBytes` at a capacity; the result is the data left.
  write_piece : ℕ → Bytes → Method (TsPacketizer AF) Bytes
  unfolding flush_payload_packet flush_if_full
  write_piece capacity bs w =
      let n = min (length bs) (capacity - length w.current.payload) in
      if capacity == 0
      then err no_payload_capacity w
      else if length w.current.payload == capacity
      then and_then (flush_payload_packet w) (λ _ w'. ok bs w')
      else and_then
          (flush_if_full capacity (record w {
            current = record (w.current) { payload = w.current.payload ++ take n bs };
          }))
          (λ _ w'. ok (drop n bs) w')

  write_round : Bytes → Method (TsPacketizer AF) Bytes
  unfolding write_piece
  write_round bs w = elim (payload_capacity lib w.current.adaptation) [
    | none ↦ err adaptation_too_large w
    | some capacity ↦ write_piece capacity bs w
  ]

  write_loop : ℕ → Bytes → Writing
  unfolding write_round
  write_loop f [] w = ok tt w
  write_loop zero (b ∷ bs) w = err out_of_fuel w
  write_loop (suc f) (b ∷ bs) w =
      and_then (write_round (b ∷ bs) w) (λ rest w'. write_loop f rest w')

  -- A round that only flushes a full packet is followed by one that takes a byte.
  pub write_pes_bytes : Bytes → Writing
  unfolding write_loop
  write_pes_bytes bs w = write_loop (suc (length bs)) bs w

  pub begin_pes : Bytes → Writing
  unfolding write_pes_bytes
  begin_pes header w =
      if w.pes_open
      then err pes_still_open w
      else if ltb (length header) 6
      then err pes_header_short w
      else if not (get_or header 0 0 == 0 && get_or header 1 0 == 0 && get_or header 2 0 == 1)
      then err missing_start_code w
      else if ltb 0 (length w.current.payload) || w.current.pusi
      then err pending_outside_pes w
      else write_pes_bytes header
          (record w { current = record (w.current) { pusi = true }; pes_open = true })

  pub write_pes_payload : Bytes → Writing
  unfolding write_pes_bytes
  write_pes_payload payload w =
      if not w.pes_open then err payload_outside_pes w else write_pes_bytes payload w

  -- Metadata that no payload followed.
  flush_metadata : Option AF → Writing
  unfolding flush_pending_adaptation
  flush_metadata none w = ok tt w
  flush_metadata (some a) w = flush_pending_adaptation a w

  pub end_pes : Writing
  unfolding flush_payload_packet flush_metadata
  end_pes w =
      if not w.pes_open
      then err no_open_pes w
      else if ltb 0 (length w.current.payload)
      then and_then (flush_payload_packet w) (λ _ w'. ok tt (record w' { pes_open = false }))
      else and_then
          (flush_metadata w.current.adaptation
            (record w { current = record (w.current) { pusi = false } }))
          (λ _ w'. ok tt (record w' { pes_open = false }))

  -- Emits an older field with its payload, or by itself.
  flush_older : Option AF → Writing
  unfolding flush_payload_packet flush_pending_adaptation
  flush_older none w = ok tt w
  flush_older (some a) w =
      if ltb 0 (length w.current.payload)
      then flush_payload_packet w
      else flush_pending_adaptation a w

  -- The part of `SetNextPacketAdaptationField` behind the older field.
  carry_field : AF → Option ℕ → Writing
  unfolding flush_payload_packet
  carry_field field none w = err no_payload_capacity w
  carry_field field (some capacity) w =
      if capacity == 0
      then err no_payload_capacity w
      else and_then
          (if leb capacity (length w.current.payload) then flush_payload_packet w else ok tt w)
          (λ _ w'. ok tt (record w' { current = record (w'.current) { adaptation = some field } }))

  pub set_next_packet_adaptation_field : Option AF → Writing
  unfolding flush_older carry_field
  set_next_packet_adaptation_field none w = ok tt w
  set_next_packet_adaptation_field (some field) w =
      if not (lib.has_data field)
      then ok tt w
      else and_then (flush_older w.current.adaptation w)
          (λ _ w'. carry_field field (payload_capacity lib (some field)) w')

  pub write_adaptation_only : Option AF → Writing
  unfolding flush_payload_packet flush_metadata queue_adaptation
  write_adaptation_only none w = ok tt w
  write_adaptation_only (some field) w =
      if not (lib.has_data field)
      then ok tt w
      else and_then
          (if ltb 0 (length w.current.payload)
            then flush_payload_packet w
            else flush_metadata w.current.adaptation w)
          (λ _ w'. queue_adaptation field w')

  pub flush : Writing
  unfolding flush_metadata
  flush w =
      if w.pes_open || ltb 0 (length w.current.payload) || w.current.pusi
      then err pes_still_open w
      else flush_metadata w.current.adaptation w
