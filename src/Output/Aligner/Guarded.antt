-- ===== src/Output/Aligner/Guarded.antt =====
-- The aligner's methods and the tokens that it holds: the calls of a transformer leave them alone,
-- an input packet adds one, and aligning and flushing hand them out.
use mpegenc.Common.{
  ℕ, ◌≡◌, refl, sym, ap, ap₂, ◌+◌, ◌%◌, ◌∙◌, Bool, true, false, Option, none, some, List, [], ◌∷◌,
  ◌++◌, append_assoc, Bytes, length, drop, min, if◌then◌else◌, Method, Outcome, ok, err, and_then,
  within, Leaves, on_ok, on_err, Leaves-if, Gives, gives_ok, Gives-and_then,
}
use mpegenc.Astits.{Astits, Packet}
use mpegenc.Packets.Pes.Guards.{Anything}
use mpegenc.Mux.Packetizer.{TsPacketizer, set_next_packet_adaptation_field, begin_pes}
use mpegenc.Mux.Packetizer
use mpegenc.Mux.Packetizer.Errors.{
  set_next-Quiet, write_adaptation_only-Quiet, begin_pes-Quiet, write_pes_payload-Quiet,
  end_pes-Quiet, flush-Quiet,
}
use mpegenc.Output.Aligner.{
  PacketMetadata, PendingPesMetadata, CompletedSlot, OutputAligner, on_packetizer, init_cc,
  apply_event, register_metadata, register_input_packet, replay, start_pending, pes_header_from,
  pes_header, pes_payload, pes_end, match_tokens, align_pending, align, pending_slots, empty_slots,
  resolve, flush, pair_up, split_last, clone_packet_metadata,
}
use mpegenc.Output.Aligner.Order.{
  tokens_of, held_tokens, tokens_of-append, tokens_of-pair_up, split_last-append,
  tokens_of-empty_slots,
}

module _ {AF : Type 0} where
  abbrev pub Holding : List ℕ → OutputAligner AF → Type 0
  Holding ts a = held_tokens a ≡ ts

  -- What is handed out and what is still held.
  abbrev pub Shares : List ℕ → List (CompletedSlot AF) × OutputAligner AF → Type 0
  Shares ts r = tokens_of r.0 ++ held_tokens r.1 ≡ ts

  match_tokens-Shares :
      (completed : List (CompletedSlot AF)) (packets : List (Packet AF)) (a : OutputAligner AF)
      → a.pending ≡ none
      → Shares (tokens_of completed ++ a.tokens) (match_tokens completed packets a)
  unfolding match_tokens
  match_tokens-Shares completed [] a e = rw e refl
  match_tokens-Shares completed (p ∷ ps) a e =
      let pairs = pair_up a.tokens (p ∷ ps) in
      let (front, last) = split_last pairs in
      let rest = drop (min (length (p ∷ ps)) (length a.tokens)) a.tokens in
      ap (λ l. l ++ (tokens_of (pending_slots last) ++ rest)) (tokens_of-append completed front)
      ∙ append_assoc (tokens_of completed) (tokens_of front)
          (tokens_of (pending_slots last) ++ rest)
      ∙ ap (◌++◌ (tokens_of completed)) (
          sym (append_assoc (tokens_of front) (tokens_of (pending_slots last)) rest)
          ∙ ap (λ l. l ++ rest)
              (sym (tokens_of-append front (pending_slots last))
                ∙ ap tokens_of (split_last-append pairs))
          ∙ tokens_of-pair_up a.tokens (p ∷ ps))

  align_pending-Shares :
      (o : Option (CompletedSlot AF)) (ts : List ℕ) (packets : List (Packet AF))
      (a : OutputAligner AF)
      → a.pending ≡ o
      → a.tokens ≡ ts
      → Shares (tokens_of (pending_slots o) ++ ts) (align_pending o ts packets a)
  unfolding align_pending
  align_pending-Shares none ts packets a e t = match_tokens-Shares [] packets a e ∙ t
  align_pending-Shares (some s) [] packets a e t = ap (◌∷◌ s.token) t
  align_pending-Shares (some s) (u ∷ ts) packets a e t =
      match_tokens-Shares (s ∷ []) packets (record a { pending = none }) refl ∙ ap (◌∷◌ s.token) t

  -- Aligning hands the tokens out in their order, or holds them on.
  pub align-Shares : (ts : List ℕ) (a : OutputAligner AF) → Holding ts a → Shares ts (align a)
  unfolding align
  align-Shares ts a h =
      align_pending-Shares a.pending a.tokens a.packetizer.packets
        (record a { packetizer = (Packetizer.take_packets a.packetizer).1 }) refl refl
      ∙ h

  packetizer-Leaves :
      {A : Type 0} (ts : List ℕ) (a : OutputAligner AF) (o : Outcome (TsPacketizer AF) A)
      → Leaves Anything o
      → Holding ts a
      → Leaves (Holding ts) (within (λ (a : OutputAligner AF) w. record a { packetizer = w }) a o)
  packetizer-Leaves ts a (ok x w) (on_ok u) h = on_ok h
  packetizer-Leaves ts a (err e w) (on_err n) h = on_err n

  then-Leaves :
      {A C : Type 0} (ts : List ℕ) (o : Outcome (OutputAligner AF) A)
      (f : A → Method (OutputAligner AF) C)
      → Leaves (Holding ts) o
      → ((x : A) (a : OutputAligner AF) → Holding ts a → Leaves (Holding ts) (f x a))
      → Leaves (Holding ts) (and_then o f)
  then-Leaves ts (ok x a) f (on_ok h) k = k x a h
  then-Leaves ts (err e a) f (on_err n) k = on_err n

module _ {AF : Type 0} (lib : Astits AF) (ts : List ℕ) where
  abbrev Holds : {A : Type 0} → Outcome (OutputAligner AF) A → Type 0
  Holds o = Leaves (Holding ts) o

  apply_event-Leaves :
      (m : PacketMetadata AF) (a : OutputAligner AF) → Holding ts a → Holds (apply_event lib m a)
  unfolding apply_event
  apply_event-Leaves m a h =
      search (Leaves-if, packetizer-Leaves, set_next-Quiet, write_adaptation_only-Quiet)

  replay-Leaves :
      (es : List (PacketMetadata AF)) (a : OutputAligner AF)
      → Holding ts a
      → Holds (replay lib es a)
  unfolding replay
  replay-Leaves [] a h = on_ok h
  replay-Leaves (e ∷ es) a h =
      then-Leaves ts (apply_event lib e a) (λ _ a'. replay lib es a') (apply_event-Leaves e a h)
        (λ _ a' h'. replay-Leaves es a' h')

  start_pending-Leaves :
      (p : PendingPesMetadata AF) (ps : List (PendingPesMetadata AF)) (header : Bytes)
      (a : OutputAligner AF)
      → Holding ts a
      → Holds (start_pending lib p ps header a)
  unfolding start_pending
  start_pending-Leaves p ps header a h =
      started (set_next_packet_adaptation_field lib p.start_adaptation a.packetizer)
        (set_next-Quiet lib p.start_adaptation a.packetizer)
    where
      started :
          (o : Outcome (TsPacketizer AF) (Unit {0}))
          → Leaves Anything o
          → Holds {A = Unit {0}} (elim o [
            | err e w ↦ err e (record a { packetizer = w; pending_pes = p ∷ ps })
            | ok _ w ↦
                and_then
                  (on_packetizer
                    (begin_pes lib header)
                    (record a { packetizer = w; pending_pes = ps }))
                  (λ _ a'. replay lib p.events a')
          ])
      started (err e w) (on_err n) = on_err n
      started (ok x w) l = search (then-Leaves, packetizer-Leaves, begin_pes-Quiet, replay-Leaves)

  pes_header_from-Leaves :
      (ps : List (PendingPesMetadata AF)) (header : Bytes) (a : OutputAligner AF)
      → Holding ts a
      → Holds (pes_header_from lib ps header a)
  unfolding pes_header_from
  pes_header_from-Leaves [] header a h = on_err refl
  pes_header_from-Leaves (p ∷ ps) header a h = start_pending-Leaves p ps header a h

  pub pes_header-Leaves :
      (header : Bytes) (a : OutputAligner AF) → Holding ts a → Holds (pes_header lib header a)
  unfolding pes_header
  pes_header-Leaves header a h = pes_header_from-Leaves a.pending_pes header a h

  pub pes_payload-Leaves :
      (bs : Bytes) (a : OutputAligner AF) → Holding ts a → Holds (pes_payload lib bs a)
  unfolding pes_payload
  pes_payload-Leaves bs a h =
      packetizer-Leaves ts a (Packetizer.write_pes_payload lib bs a.packetizer)
        (write_pes_payload-Quiet lib bs a.packetizer) h

  pub pes_end-Leaves : (a : OutputAligner AF) → Holding ts a → Holds (pes_end lib a)
  unfolding pes_end
  pes_end-Leaves a h =
      packetizer-Leaves ts a (Packetizer.end_pes lib a.packetizer) (end_pes-Quiet lib a.packetizer)
        h

  init_cc-Holding :
      (m : PacketMetadata AF) (a : OutputAligner AF) → Holding ts a → Holding ts (init_cc lib m a)
  unfolding init_cc
  init_cc-Holding m a h = by_flag a.cc_initialized
    where
      by_flag :
          (b : Bool)
          → Holding ts (
              if b then a else record a {
                packetizer =
                    Packetizer.set_continuity_counter
                      (if m.has_payload then m.cc else (m.cc + 1) % 16)
                      a.packetizer;
                cc_initialized = true;
              })
      by_flag true = h
      by_flag false = h

  register_metadata-Leaves :
      (pusi : Bool) (m : PacketMetadata AF) (a : OutputAligner AF)
      → Holding ts a
      → Holds (register_metadata lib pusi m a)
  unfolding register_metadata
  register_metadata-Leaves pusi m a h = search (Leaves-if, on_ok, apply_event-Leaves)

  -- An input packet's token stands behind those that are held.
  pub register-Leaves :
      (token : ℕ) (packet : Packet AF) (a : OutputAligner AF)
      → Holding ts a
      → Leaves (Holding (ts ++ token ∷ [])) (register_input_packet lib token packet a)
  unfolding register_input_packet
  register-Leaves token packet a h =
      let m = clone_packet_metadata lib packet in
      registered (register_metadata lib packet.head.payload_unit_start m (init_cc lib m a)) (
        register_metadata-Leaves packet.head.payload_unit_start m (init_cc lib m a)
          (init_cc-Holding m a h))
    where
      registered :
          (o : Outcome (OutputAligner AF) (Unit {0}))
          → Holds o
          → Leaves
              (Holding (ts ++ token ∷ []))
              (and_then o (λ _ a'. ok tt (record a' { tokens = a'.tokens ++ token ∷ [] })))
      registered (ok x a') (on_ok h') = on_ok (
          sym (append_assoc (tokens_of (pending_slots a'.pending)) a'.tokens (token ∷ []))
          ∙ ap (λ l. l ++ token ∷ []) h')
      registered (err e a') (on_err n) = on_err n

  resolve-Shares :
      (a : OutputAligner AF)
      → Holding ts a
      → (tokens_of (resolve a).0 ≡ ts) × (held_tokens (resolve a).1 ≡ [])
  unfolding resolve
  resolve-Shares a h =
      let (completed, a') = align a in
      let kept = pending_slots a'.pending in
      let empty = empty_slots {AF = AF} a'.tokens in
      (
        tokens_of-append (completed ++ kept) empty
            ∙ ap₂ ◌++◌ (tokens_of-append completed kept) (tokens_of-empty_slots AF a'.tokens)
            ∙ append_assoc (tokens_of completed) (tokens_of kept) a'.tokens
            ∙ align-Shares ts a h,
        refl,
      )

  -- A flush hands all out.
  pub flush-Gives :
      (a : OutputAligner AF)
      → Holding ts a
      → Gives (λ completed a'. (tokens_of completed ≡ ts) × Holding [] a') (flush lib a)
  unfolding flush
  flush-Gives a h =
      Gives-and_then (on_packetizer (Packetizer.flush lib) a)
        (λ _ a1. let (completed, a2) = resolve a1 in ok completed a2)
        (packetizer-Leaves ts a (Packetizer.flush lib a.packetizer) (flush-Quiet lib a.packetizer)
          h)
        (λ _ a1 h1. gives_ok (resolve-Shares a1 h1))
