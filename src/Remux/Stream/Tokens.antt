-- ===== src/Remux/Stream/Tokens.antt =====
-- A media stream answers the tokens of its packets in their order, and keeps what is behind its signal.
use mpegenc.Common.{
  wrong_pid, Bool, true, false, ℕ, ◌≡◌, refl, sym, ap, subst, not, some, List, [], ◌∷◌, ◌++◌, ◌==◌,
  if◌then◌else◌, Method, Outcome, ok, err, within, Leaves, on_ok, on_err, Gives, gives_ok,
  gives_err, Gives-and_then,
}
use mpegenc.SampleAes.{BlockCryptor}
use mpegenc.Astits.{Astits, Packet}
use mpegenc.Pmt.{Patch}
use mpegenc.Packets.Pes.{PesHandler, PesCollector}
use mpegenc.Packets.Pes
use mpegenc.Packets.Pes.Guards.{Guards, GuardsSignal, IsQuiet}
use mpegenc.Packets.Pes.Guarded as PesGuarded
use mpegenc.Output.Aligner.{OutputAligner, CompletedSlot, register_input_packet, align}
use mpegenc.Output.Aligner
use mpegenc.Output.Aligner.Order.{tokens_of, held_tokens}
use mpegenc.Output.Aligner.Guarded.{
  Holding, pes_header-Leaves, pes_payload-Leaves, pes_end-Leaves, register-Leaves, align-Shares,
  flush-Gives,
}
use mpegenc.Remux.Media.{MediaTransformer, avc, aac, ac3, eac3, next_of, put_next}
use mpegenc.Remux.Media
use mpegenc.Remux.Media.Guarded as MediaGuarded
use mpegenc.Remux.Stream.{
  MediaStream, Sink, on_sink, next_handler, handler, with_sink, with_pes, with_transformer,
  align_sink, feed, consume, flush,
}

pub next_of-put_next :
    {W V B : Type 0} (v : V) (t : MediaTransformer W B) → next_of (put_next v t) ≡ v
next_of-put_next v (avc t) = refl
next_of-put_next v (aac t) = refl
next_of-put_next v (ac3 t) = refl
next_of-put_next v (eac3 t) = refl

-- The aligner has a place of its own in the state behind `next`, and `R` does not read it.
pub record IsSink {AF W : Type 0} (sink : Sink AF W) (R : W → Type 0) : Type 0 where
  pub get-put : (a : OutputAligner AF) (w : W) → sink.get (sink.put a w) ≡ a
  pub keeps_rest : (a : OutputAligner AF) (w : W) → R w → R (sink.put a w)

module _ {AF W B : Type 0} (lib : Astits AF) (sink : Sink AF W) (block : BlockCryptor B)
    (signal : Patch → Method W (Unit {0})) (R : W → Type 0) (lawful : IsSink sink R)
    (quiet : IsQuiet block) where
  -- The tokens that the stream's aligner holds, and `R`.
  abbrev pub Stands : List ℕ → W → Type 0
  Stands ts w = Holding ts (sink.get w) × R w

  on_sink-Leaves :
      {A : Type 0} (us : List ℕ) (w : W) (o : Outcome (OutputAligner AF) A)
      → R w
      → Leaves (Holding us) o
      → Leaves (Stands us) (within (λ (w : W) a. sink.put a w) w o)
  on_sink-Leaves us w (ok x a) r (on_ok h) =
      on_ok (subst (Holding us) (sym (lawful.get-put a w)) h, lawful.keeps_rest a w r)
  on_sink-Leaves us w (err e a) r (on_err n) = on_err n

  next_handler-Guards : (ts : List ℕ) → Guards (next_handler lib sink block signal) (Stands ts)
  next_handler-Guards ts = record {
    guards_header = λ header w (h, r).
        on_sink-Leaves ts w (Aligner.pes_header lib header (sink.get w)) r
          (pes_header-Leaves lib ts header (sink.get w) h);
    guards_payload = λ bs w (h, r).
        on_sink-Leaves ts w (Aligner.pes_payload lib bs (sink.get w)) r
          (pes_payload-Leaves lib ts bs (sink.get w) h);
    guards_end = λ w (h, r).
        on_sink-Leaves ts w (Aligner.pes_end lib (sink.get w)) r
          (pes_end-Leaves lib ts (sink.get w) h);
  }

  module _ (signals : (ts : List ℕ) → GuardsSignal signal (Stands ts)) where
    abbrev pub At : List ℕ → MediaStream W B → Type 0
    At ts s = Stands ts (next_of s.transformer)

    handler-Guards :
        (ts : List ℕ) → Guards (handler lib sink block signal) (MediaGuarded.Behind (Stands ts))
    handler-Guards ts =
        MediaGuarded.media_handler-Guards (next_handler lib sink block signal) block signal
          (Stands ts) (next_handler-Guards ts) (signals ts) quiet

    with_sink-Leaves :
        {A : Type 0} (us : List ℕ) (s : MediaStream W B) (o : Outcome W A)
        → Leaves (Stands us) o
        → Leaves (At us) (
            within
              (λ (s : MediaStream W B) w. record s { transformer = put_next w s.transformer })
              s
              o)
    with_sink-Leaves us s (ok x w) (on_ok h) =
        on_ok (subst (Stands us) (sym (next_of-put_next w s.transformer)) h)
    with_sink-Leaves us s (err e w) (on_err n) = on_err n

    with_pes-Leaves :
        {A : Type 0} (ts : List ℕ) (s : MediaStream W B)
        (o : Outcome (PesCollector × MediaTransformer W B) A)
        → Leaves (PesGuarded.BehindPair (MediaGuarded.Behind (Stands ts))) o
        → Leaves (At ts) (
            within
              (λ (s : MediaStream W B) (q : PesCollector × MediaTransformer W B). record s {
                pes = q.0;
                transformer = q.1;
              })
              s
              o)
    with_pes-Leaves ts s (ok x (m, t)) (on_ok h) = on_ok h
    with_pes-Leaves ts s (err e q) (on_err n) = on_err n

    with_transformer-Leaves :
        {A : Type 0} (ts : List ℕ) (s : MediaStream W B) (o : Outcome (MediaTransformer W B) A)
        → Leaves (MediaGuarded.Behind (Stands ts)) o
        → Leaves (At ts) (within (λ (s : MediaStream W B) t. record s { transformer = t }) s o)
    with_transformer-Leaves ts s (ok x t) (on_ok h) = on_ok h
    with_transformer-Leaves ts s (err e t) (on_err n) = on_err n

    -- Slots handed out, and the tokens that the stream goes on holding.
    abbrev pub Hands : List ℕ → List (CompletedSlot AF) → MediaStream W B → Type 0
    Hands ts completed s = (us : List ℕ) × (tokens_of completed ++ us ≡ ts) × At us s

    aligned-Gives :
        (ts : List ℕ) (s : MediaStream W B)
        → At ts s
        → Gives (Hands ts) (with_sink lib sink block signal (align_sink lib sink block signal) s)
    unfolding align_sink
    aligned-Gives ts s (h, r) =
        let w = next_of s.transformer in
        let (completed, a') = align (sink.get w) in
        let e = align-Shares ts (sink.get w) h in
        gives_ok (
          held_tokens a',
          e,
          subst (Stands (held_tokens a')) (sym (next_of-put_next (sink.put a' w) s.transformer))
              (ap held_tokens (lawful.get-put a' w), lawful.keeps_rest a' w r),
        )

    feed-Gives :
        (ts : List ℕ) (token : ℕ) (packet : Packet AF) (s : MediaStream W B)
        → At ts s
        → Gives (Hands (ts ++ token ∷ [])) (feed lib sink block signal token packet s)
    unfolding feed
    feed-Gives ts token packet s (h, r) =
        let us = ts ++ token ∷ [] in
        let w = next_of s.transformer in
        Gives-and_then (with_sink lib sink block signal (register_input_packet lib token packet) s)
          _
          (with_sink-Leaves us s
            (on_sink lib sink block signal (register_input_packet lib token packet) w)
            (on_sink-Leaves us w (register_input_packet lib token packet (sink.get w)) r
              (register-Leaves lib ts token packet (sink.get w) h)))
          (λ _ s1 h1.
            Gives-and_then
              (with_pes lib sink block signal
                (Pes.consume (handler lib sink block signal) packet.head.payload_unit_start
                  packet.payload)
                s1)
              _
              (with_pes-Leaves us s1
                (Pes.consume (handler lib sink block signal) packet.head.payload_unit_start
                  packet.payload (s1.pes, s1.transformer))
                (PesGuarded.consume-Leaves (handler lib sink block signal)
                  (MediaGuarded.Behind (Stands us)) (handler-Guards us)
                  packet.head.payload_unit_start packet.payload s1.pes s1.transformer h1))
              (λ _ s2 h2. aligned-Gives us s2 h2))

    -- A stream that holds tokens is given another with its packet: then the tokens of the slots that it
    -- hands out and the tokens that it goes on holding are, in this order, those that it held and
    -- the new one. It can fail, but not with an error of the output's slots. It takes a signal and a
    -- cipher that do not fail with such an error either, and a signal that leaves the aligner alone.
    pub consume-Hands :
        (ts : List ℕ) (token : ℕ) (packet : Packet AF) (s : MediaStream W B)
        → At ts s
        → Gives (Hands (ts ++ token ∷ [])) (consume lib sink block signal token (some packet) s)
    unfolding consume
    consume-Hands ts token packet s h = by_pid (packet.head.pid == s.pid)
      where
        by_pid :
            (b : Bool)
            → Gives
                (Hands (ts ++ token ∷ []))
                (if not b then err wrong_pid s else feed lib sink block signal token packet s)
        by_pid true = feed-Gives ts token packet s h
        by_pid false = gives_err refl

    -- All slots handed out.
    abbrev pub HandsAll : List ℕ → List (CompletedSlot AF) → MediaStream W B → Type 0
    HandsAll ts completed s = (tokens_of completed ≡ ts) × At [] s

    flushed-Gives :
        (ts : List ℕ) (s : MediaStream W B)
        → At ts s
        → Gives (HandsAll ts) (with_sink lib sink block signal (Aligner.flush lib) s)
    flushed-Gives ts s (h, r) =
        put (Aligner.flush lib (sink.get (next_of s.transformer)))
          (flush-Gives lib ts (sink.get (next_of s.transformer)) h)
      where
        put :
            (o : Outcome (OutputAligner AF) (List (CompletedSlot AF)))
            → Gives (λ completed a'. (tokens_of completed ≡ ts) × Holding [] a') o
            → Gives (HandsAll ts) (
                within
                  (λ (s : MediaStream W B) w. record s { transformer = put_next w s.transformer })
                  s
                  (within (λ (w : W) a. sink.put a w) (next_of s.transformer) o))
        put (ok completed a') (gives_ok (e, h')) =
            let w = next_of s.transformer in
            gives_ok (
              e,
              subst (Stands []) (sym (next_of-put_next (sink.put a' w) s.transformer))
                  (subst (Holding []) (sym (lawful.get-put a' w)) h', lawful.keeps_rest a' w r),
            )
        put (err e a') (gives_err n) = gives_err n

    -- At its end it hands out the slots of all tokens that it held, in their order, and holds none
    -- any more, under the same conditions.
    pub flush-HandsAll :
        (ts : List ℕ) (s : MediaStream W B)
        → At ts s
        → Gives (HandsAll ts) (flush lib sink block signal s)
    unfolding flush
    flush-HandsAll ts s h =
        Gives-and_then
          (with_pes lib sink block signal (Pes.flush (handler lib sink block signal)) s) _
          (with_pes-Leaves ts s (Pes.flush (handler lib sink block signal) (s.pes, s.transformer)) (
            PesGuarded.flush-Leaves (handler lib sink block signal)
              (MediaGuarded.Behind (Stands ts)) (handler-Guards ts) s.pes s.transformer h))
          (λ _ s1 h1.
            Gives-and_then
              (with_transformer lib sink block signal
                (Media.flush (next_handler lib sink block signal) block signal) s1)
              _
              (with_transformer-Leaves ts s1
                (Media.flush (next_handler lib sink block signal) block signal s1.transformer)
                (MediaGuarded.flush-Leaves (next_handler lib sink block signal) block signal
                  (Stands ts) (next_handler-Guards ts) (signals ts) quiet s1.transformer h1))
              (λ _ s2 h2. flushed-Gives ts s2 h2))
