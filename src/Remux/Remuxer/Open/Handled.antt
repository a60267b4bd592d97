-- ===== src/Remux/Remuxer/Open/Handled.antt =====
-- What a packet of the PMT, of a stream or of an unknown PID does to the slots.
use mpegenc.Common.{
  true, false, Bool-cases, inl, inr, refl, ap, subst, length, ◌++◌, and_then, ◌==◌, ℕ, ◌+◌, ◌≡◌,
  Option, none, some, List, [], ◌∷◌, Bytes, arith, copies, ok, lookup, Leaves, on_ok,
  Leaves-and_then, Leaves-after, Leaves-map, Leaves-within,
}
use mpegenc.SampleAes.{cbc_cryptor}
use mpegenc.Astits.{Astits, Packet}
use mpegenc.Astits.Tables.{Tables, pat_pid}
use mpegenc.Pmt.{ElementaryStream}
use mpegenc.Output.Aligner.{CompletedSlot}
use mpegenc.Output.Aligner.Order.{tokens_of}
use mpegenc.Output.Assembler.{commit, commit_original}
use mpegenc.Output.Assembler.Steps.{recorder}
use mpegenc.Output.Assembler.Open.{one_at, Open-same, Exact, commit-Exact}
use mpegenc.Remux.PmtTransformer.{PmtTransformer}
use mpegenc.Remux.PmtTransformer
use mpegenc.Remux.PmtTransformer.Held.{tokens_held}
use mpegenc.Remux.PmtTransformer.Open as PmtOpen
use mpegenc.Remux.Stream.{active}
use mpegenc.Remux.Stream
use mpegenc.Remux.Remuxer.{
  StoredStream, world_sink, streams_or_nil, on_output, on_pmt, signal_of, run_stream, commit_all,
  update_media_streams, consume_pmt, consume_media,
}
use mpegenc.Remux.Remuxer.Open.{held_in, Since, packet-Gives}
use mpegenc.Remux.Remuxer.Open.Exactly.{
  Recorded, tokens_out, Exactly, SameButOutput, Exactly-Since, Since-Exactly, Gives-known,
  commit_all-Exactly,
}
use mpegenc.Remux.Remuxer.Open.Steps.{
  copied, filled, Steps, passes, due_original, due_other, is_copied,
}
use mpegenc.Output.Assembler.History.{History, set-last}
use mpegenc.Output.Assembler.Due.{fill, Meets, append-Meets, Adds-Keeps}
use mpegenc.Remux.Remuxer.Open.Created.{update_media_streams-Leaves}

module _ {AF : Type 0} (lib : Astits AF) (tables : Tables AF) (aes : Bytes → Bytes → Bytes)
    (order : List ℕ → List ℕ) where
  -- The packet as it is into the last slot.
  pub original-Leaves :
      (h : History AF) (packet : Packet AF) (r : Recorded AF)
      → Exactly lib tables aes order (h ++ none ∷ []) (length h ∷ []) r
      → Leaves
          (λ r'.
            Exactly lib tables aes order (h ++ some (packet ∷ []) ∷ []) [] r'
            × SameButOutput lib tables aes order r r')
          (on_output lib tables aes recorder order (commit_original recorder (length h) packet) r)
  unfolding commit_original
  original-Leaves h packet r x =
      let slot : CompletedSlot AF = record { token = length h; packets = packet ∷ [] } in
      Leaves-within (λ r o. record r { output = o }) r (commit recorder slot r.output)
        (commit-Exact (h ++ none ∷ []) (tokens_out lib tables aes order (length h ∷ []) r)
          (tokens_out lib tables aes order [] r) slot r.output x.exact (λ t. omega arith))
        (λ o c. (
          record {
            exact =
                subst (λ k. Exact k (tokens_out lib tables aes order [] r) o)
                  (set-last h none (some (packet ∷ []))) c;
            distinct = x.distinct;
          },
          refl,
        ))

  pub original-Steps :
      (h : History AF) (packet : Packet AF) (r : Recorded AF)
      → is_copied packet r ≡ true
      → Exactly lib tables aes order (h ++ none ∷ []) (length h ∷ []) r
      → Leaves
          (Steps lib tables aes order packet h r)
          (on_output lib tables aes recorder order (commit_original recorder (length h) packet) r)
  original-Steps h packet r c x =
      Leaves-map
        (on_output lib tables aes recorder order (commit_original recorder (length h) packet) r)
        (original-Leaves h packet r x)
        (λ r' (x', e). (
          h ++ some (packet ∷ []) ∷ [],
          copied c refl (ap (λ r. r.streams) e) (ap (λ r. r.pmt) e),
          x',
          due_original h packet,
        ))

module _ {AF : Type 0} (lib : Astits AF) (tables : Tables AF) (aes : Bytes → Bytes → Bytes)
    (order : List ℕ → List ℕ) (base : History AF) where
  pub consume_pmt-Leaves :
      (token : ℕ) (packet : Packet AF) (r : Recorded AF)
      → Since lib tables aes order base (token ∷ []) r
      → Leaves
          (Since lib tables aes order base [])
          (consume_pmt lib tables aes recorder order token packet r)
  unfolding consume_pmt
  consume_pmt-Leaves token packet r w =
      let out = λ (t : ℕ). 0 + held_in t (streams_or_nil r) in
      let call = PmtTransformer.consume tables (commit recorder) token packet (r.pmt, r.output) in
      Leaves-and_then (on_pmt lib tables aes recorder order (λ q. call) r)
        (λ streams r1. elim streams [
          | none ↦ ok tt r1
          | some ss ↦ update_media_streams lib tables aes recorder order ss r1
        ])
        (Leaves-within (λ r q. record r { pmt = q.0; output = q.1 }) r call
          (PmtOpen.consume-Stands tables base out token packet r.pmt r.output (
            Open-same base
              (λ t.
                copies t (token ∷ [])
                + held_in t (streams_or_nil r)
                + copies t (tokens_held tables r.pmt.pending))
              (λ t. one_at token t + out t + copies t (tokens_held tables r.pmt.pending)) r.output
              w.accounted (λ t. omega arith)))
          (λ q h. record { accounted = h; distinct = w.distinct }))
        (λ streams r1 h. with_streams streams r1 h)
    where
      with_streams :
          (streams : Option (List ElementaryStream)) (r1 : Recorded AF)
          → Since lib tables aes order base [] r1
          → Leaves {A = Unit {0}} (Since lib tables aes order base []) (elim streams [
            | none ↦ ok tt r1
            | some ss ↦ update_media_streams lib tables aes recorder order ss r1
          ])
      with_streams none r1 h = on_ok h
      with_streams (some ss) r1 h = update_media_streams-Leaves lib tables aes order base ss r1 h

module _ {AF : Type 0} (lib : Astits AF) (tables : Tables AF) (aes : Bytes → Bytes → Bytes)
    (order : List ℕ → List ℕ) where
  -- A stream is given the packet, and the slots that it hands out are filled.
  stream-Steps :
      (h : History AF) (packet : Packet AF) (s : StoredStream AF) (r : Recorded AF)
      → (packet.head.pid == pat_pid) ≡ false
      → (packet.head.pid == r.pmt_pid) ≡ false
      → lookup packet.head.pid (streams_or_nil r) ≡ some s
      → passes s packet ≡ false
      → Exactly lib tables aes order (h ++ none ∷ []) (length h ∷ []) r
      → Leaves (Steps lib tables aes order packet h r) (
          and_then
            (run_stream lib tables aes recorder order packet.head.pid
              (streams_or_nil r)
              s
              (Stream.consume lib world_sink cbc_cryptor
                (signal_of lib tables aes recorder order packet.head.pid)
                (length h)
                (some packet))
              r)
            (λ completed r1. commit_all lib tables aes recorder order completed r1))
  stream-Steps h packet s r a b e p x =
      let call =
        run_stream lib tables aes recorder order packet.head.pid (streams_or_nil r) s
          (Stream.consume lib world_sink cbc_cryptor
            (signal_of lib tables aes recorder order packet.head.pid) (length h) (some packet))
          r in
      Leaves-after call (λ completed r1. commit_all lib tables aes recorder order completed r1)
        (Gives-known call (
          packet-Gives lib tables aes order (h ++ none ∷ []) packet.head.pid s r e (length h) packet
            (Exactly-Since lib tables aes order (h ++ none ∷ []) (length h ∷ []) r x)))
        (λ completed r1 (f, w).
          let h1 = w.accounted.history in
          Leaves-map (commit_all lib tables aes recorder order completed r1)
            (commit_all-Exactly lib tables aes order completed h1 r1
              (Since-Exactly lib tables aes order (h ++ none ∷ []) (tokens_of completed) r1 w))
            (λ r2 (x2, same, k). (
              fill completed h1,
              filled s completed r1 h1 a b e p f w.accounted.adds w.accounted.exact.shows same refl,
              x2,
              λ ds m.
                  subst (λ d. Meets (ds ++ d ∷ []) (fill completed h1)) (due_other packet a)
                    (k (ds ++ none ∷ []) (
                      Adds-Keeps (h ++ none ∷ []) h1 w.accounted.adds (ds ++ none ∷ [])
                        (append-Meets ds h none m))),
            )))

  pub consume_media-Steps :
      (h : History AF) (packet : Packet AF) (s : StoredStream AF) (r : Recorded AF)
      → (packet.head.pid == pat_pid) ≡ false
      → (packet.head.pid == r.pmt_pid) ≡ false
      → lookup packet.head.pid (streams_or_nil r) ≡ some s
      → Exactly lib tables aes order (h ++ none ∷ []) (length h ∷ []) r
      → Leaves
          (Steps lib tables aes order packet h r)
          (consume_media lib tables aes recorder order (length h) packet s r)
  unfolding consume_media
  consume_media-Steps h packet s r a b e x = elim (Bool-cases (passes s packet)) [
    | inl p ↦ rw p (original-Steps lib tables aes order h packet r (rw (a, b, e) p) x)
    | inr p ↦ rw p (stream-Steps h packet s r a b e p x)
  ]
