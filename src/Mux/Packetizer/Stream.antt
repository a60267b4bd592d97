-- ===== src/Mux/Packetizer/Stream.antt =====
-- The packets carry the PES bytes unchanged, each is full, and the counters go on without a gap.
use mpegenc.Common.{
  ℕ, ◌+◌, ◌-◌, ◌%◌, ◌≤◌, ◌<◌, ◌≡◌, ◌≢◌, refl, sym, ap, ◌∙◌, inl, inr, Bool, true, false, Option,
  none, some, List, [], ◌∷◌, ◌++◌, append-nil, append_assoc, Bytes, arith, length, ltb, ◌==◌,
  if◌then◌else◌, Method, Outcome, ok, err, and_then, out_of_fuel, Bool-cases, Option-cases,
}
use mpegenc.Astits.{Astits, Packet, packet_body, IsLawful}
use mpegenc.Mux.Packetizer.{
  PendingTsPacket, TsPacketizer, payload_capacity, queue_payload, filling, flush_payload_packet,
  queue_adaptation, flush_if_full, no_pending, payload_packet, adaptation_packet,
}

module _ {AF : Type 0} where
  abbrev pub payloads : List (Packet AF) → Bytes
  payloads [] = []
  payloads (p ∷ ps) = p.payload ++ payloads ps

  payloads-snoc :
      (ps : List (Packet AF)) (p : Packet AF) → payloads (ps ++ p ∷ []) ≡ payloads ps ++ p.payload
  payloads-snoc [] p = append-nil p.payload
  payloads-snoc (q ∷ ps) p = rw (payloads-snoc ps p) (sym (append_assoc q.payload _ _))

  -- The bytes accepted so far: those in packets and those pending.
  abbrev pub accepted : TsPacketizer AF → Bytes
  accepted w = payloads w.packets ++ w.current.payload

  -- A packet with payload shows the counter and advances it mod 16; one without shows the last.
  abbrev pub shown_cc : ℕ → Packet AF → ℕ
  shown_cc c p = if p.head.has_payload then c else (c + 15) % 16

  abbrev pub next_cc : ℕ → Packet AF → ℕ
  next_cc c p = if p.head.has_payload then (c + 1) % 16 else c

  abbrev pub Continues : ℕ → List (Packet AF) → ℕ → Type 0
  Continues c [] c' = c ≡ c'
  Continues c (p ∷ ps) c' =
      (p.head.continuity_counter ≡ shown_cc c p) × Continues (next_cc c p) ps c'

  Continues-snoc :
      (c d : ℕ) (ps : List (Packet AF)) (p : Packet AF)
      → Continues c ps d
      → p.head.continuity_counter ≡ shown_cc d p
      → Continues c (ps ++ p ∷ []) (next_cc d p)
  Continues-snoc c d [] p h e = (e ∙ ap (λ k. shown_cc k p) (sym h), ap (λ k. next_cc k p) h)
  Continues-snoc c d (q ∷ ps) p h e = (h.0, Continues-snoc (next_cc c q) d ps p h.1 e)

module _ {AF : Type 0} (lib : Astits AF) (size : AF → ℕ) (lawful : IsLawful lib size)
    (start : ℕ) where
  abbrev pub field_bytes : Option AF → ℕ
  field_bytes none = 0
  field_bytes (some a) = size a

  -- Field and payload fill the 184 bytes behind the TS header.
  abbrev pub AllFull : List (Packet AF) → Type 0
  AllFull [] = Unit
  AllFull (p ∷ ps) = (field_bytes p.adaptation_field + length p.payload ≡ packet_body) × AllFull ps

  AllFull-snoc :
      (ps : List (Packet AF)) (p : Packet AF)
      → AllFull ps
      → field_bytes p.adaptation_field + length p.payload ≡ packet_body
      → AllFull (ps ++ p ∷ [])
  AllFull-snoc [] p a e = (e, tt)
  AllFull-snoc (q ∷ ps) p a e = (a.0, AllFull-snoc ps p a.1 e)

  -- The queued packets are full and counted from `start`.
  pub record IsQueued (w : TsPacketizer AF) : Type 0 where
    pub full : AllFull w.packets
    pub counted : Continues start w.packets w.cc

  -- Besides, the pending payload leaves room beside the field that it is to go with.
  pub record IsValid (w : TsPacketizer AF) : Type 0 where
    pub queued : IsQueued w
    pub capacity : ℕ
    pub fits : payload_capacity lib w.current.adaptation ≡ some capacity
    pub room : length w.current.payload < capacity

  -- What a method may do: on success it leaves a valid packetizer that has accepted `stream`, but for
  -- the bytes that the result leaves; on an error the queued packets are as they should be, and the
  -- error is not that a loop of the model ran out of fuel.
  abbrev pub Accepts : {A : Type 0} → Bytes → (A → Bytes) → Outcome (TsPacketizer AF) A → Type 0
  Accepts stream rest (ok a w) = IsValid w × (accepted w ++ rest a ≡ stream)
  Accepts stream rest (err e w) = IsQueued w × (e ≢ out_of_fuel)

  abbrev pub Writes : Bytes → Outcome (TsPacketizer AF) (Unit {0}) → Type 0
  Writes stream = Accepts stream (λ _. [])

  pub capacity-le : (f : Option AF) (c : ℕ) → payload_capacity lib f ≡ some c → c ≤ packet_body
  capacity-le none c e = ground arith
  capacity-le (some a) c e = ground arith

  -- A packet queued: it shows the right counter and is full.
  snoc-IsQueued :
      (w : TsPacketizer AF) (p : Packet AF) (cur : PendingTsPacket AF)
      → IsQueued w
      → p.head.continuity_counter ≡ shown_cc w.cc p
      → field_bytes p.adaptation_field + length p.payload ≡ packet_body
      → IsQueued (record w { packets = w.packets ++ p ∷ []; cc = next_cc w.cc p; current = cur })
  snoc-IsQueued w p cur v e f = record {
    full = AllFull-snoc w.packets p v.full f;
    counted = Continues-snoc start w.cc w.packets p v.counted e;
  }

  queue_payload-Writes :
      (b : Bool) (f : Option AF) (w : TsPacketizer AF)
      → IsQueued w
      → field_bytes f + length w.current.payload ≡ packet_body
      → Writes (accepted w) (queue_payload lib b f w)
  unfolding queue_payload
  queue_payload-Writes b f w v e =
      let p = payload_packet lib b f w in
      (
        record {
          queued = snoc-IsQueued w p no_pending v refl e;
          capacity = packet_body;
          fits = refl;
          room = omega arith;
        },
        append-nil _ ∙ append-nil _ ∙ payloads-snoc w.packets p,
      )

  filling-size : (f : Option AF) {n : ℕ} (a : AF) → filling lib f n ≡ some a → size a ≡ n
  filling-size none a e = lawful.stuffing_size a e
  filling-size (some f) a e = lawful.field_size f a e

  pub flush_payload_packet-Writes :
      (w : TsPacketizer AF)
      → IsQueued w
      → length w.current.payload ≤ packet_body
      → Writes (accepted w) (flush_payload_packet lib w)
  unfolding flush_payload_packet
  flush_payload_packet-Writes w v h =
      let r = packet_body - length w.current.payload in
      elim (Bool-cases (length w.current.payload == 0)) [
        | inl z ↦ rw (z, flush_payload_packet) (v, λ e. cc)
        | inr z ↦ elim (Bool-cases (ltb 0 r)) [
          | inr full ↦
              rw (z, full, flush_payload_packet)
                (queue_payload-Writes false none w v (ground arith))
          | inl partial ↦ elim (Option-cases (filling lib w.current.adaptation r)) [
            | inl e ↦ rw (z, partial, e, flush_payload_packet) (v, λ e. cc)
            | inr (a, e) ↦
                let s = filling-size w.current.adaptation a e in
                rw (z, partial, e, flush_payload_packet)
                  (queue_payload-Writes true (some a) w v (omega arith))
          ]
        ]
      ]

  pub queue_adaptation-Writes :
      (f : AF) (w : TsPacketizer AF) → IsValid w → Writes (accepted w) (queue_adaptation lib f w)
  unfolding queue_adaptation
  queue_adaptation-Writes f w v = elim (Option-cases (lib.field_with_size f packet_body)) [
    | inl e ↦ rw (e, queue_adaptation) (v.queued, λ e. cc)
    | inr (a, e) ↦
        let s = lawful.field_size f a e in
        let p = adaptation_packet lib a w in
        rw (e, queue_adaptation)
          (
            record {
              queued = snoc-IsQueued w p w.current v.queued refl (omega arith);
              capacity = v.capacity;
              fits = v.fits;
              room = v.room;
            },
            append-nil _
                ∙ ap (λ l. l ++ w.current.payload) (payloads-snoc w.packets p ∙ append-nil _),
          )
  ]

  -- Methods in a row.
  and_then-Accepts :
      {A B : Type 0} (stream : Bytes) (rest : A → Bytes) (rest' : B → Bytes)
      (o : Outcome (TsPacketizer AF) A) (f : A → Method (TsPacketizer AF) B)
      → Accepts stream rest o
      → ((a : A) (w : TsPacketizer AF)
          → IsValid w
          → accepted w ++ rest a ≡ stream
          → Accepts stream rest' (f a w))
      → Accepts stream rest' (and_then o f)
  and_then-Accepts stream rest rest' (ok a w) f h k = k a w h.0 h.1
  and_then-Accepts stream rest rest' (err e w) f h k = h

  pub flush_if_full-Writes :
      (c : ℕ) (w : TsPacketizer AF)
      → IsQueued w
      → payload_capacity lib w.current.adaptation ≡ some c
      → length w.current.payload ≤ c
      → Writes (accepted w) (flush_if_full lib c w)
  unfolding flush_if_full
  flush_if_full-Writes c w q e h = elim (Bool-cases (length w.current.payload == c)) [
    | inl t ↦
        rw (t, flush_if_full)
          (flush_payload_packet-Writes w q (omega (arith, capacity-le w.current.adaptation c e)))
    | inr t ↦
        rw (t, flush_if_full)
          (
            record { queued = q; capacity = c; fits = e; room = ground arith },
            append-nil (accepted w),
          )
  ]
