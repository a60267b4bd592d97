-- ===== src/Remux/Remuxer/Open/Routed.antt =====
-- A packet of the input, whatever its PID: its slot is committed at once, or its token is held.
use mpegenc.Common.{
  ◌∙◌, Leaves-map, Bool-cases, inl, inr, ap, true, false, length, ◌++◌, ℕ, ◌+◌, ◌<◌, ◌≡◌, refl, sym,
  subst, Option, none, some, List, [], ◌∷◌, Bytes, arith, ◌==◌, Outcome, ok, err, and_then, within,
  lookup, Leaves, on_ok, on_err,
}
use mpegenc.Astits.{Astits, Packet}
use mpegenc.Astits.Tables.{Tables, pat_pid}
use mpegenc.Packets.Pat.{PatCollector}
use mpegenc.Packets.Pat
use mpegenc.Packets.Pat.Errors as PatErrors
use mpegenc.Packets.Pes.Guards.{Anything}
use mpegenc.Utils.CommitQueue.{token_count}
use mpegenc.Output.Assembler.{commit_original, reserve}
use mpegenc.Output.Assembler.Steps.{recorder}
use mpegenc.Output.Assembler.Open.{one_at, Exact-same, reserve-Exact}
use mpegenc.Output.Assembler.History.{History}
use mpegenc.Output.Assembler.Due.{Meets, length-Meets, append-Meets, Adds-Keeps}
use mpegenc.Remux.Remuxer.{
  StoredStream, streams_or_nil, on_output, consume_pat, consume_pmt, consume_media, route, consume,
}
use mpegenc.Remux.Remuxer.Open.Exactly.{Recorded, tokens_out, Exactly, Exactly-Since, Since-Exactly}
use mpegenc.Remux.Remuxer.Open.Steps.{copied, tabled, Steps, due_of, due_original, due_other}
use mpegenc.Remux.Remuxer.Open.Handled.{
  original-Leaves, original-Steps, consume_pmt-Leaves, consume_media-Steps,
}

module _ {AF : Type 0} (lib : Astits AF) (tables : Tables AF) (aes : Bytes → Bytes → Bytes)
    (order : List ℕ → List ℕ) where
  consume_pat-Steps :
      (h : History AF) (packet : Packet AF) (r : Recorded AF)
      → (packet.head.pid == pat_pid) ≡ true
      → Exactly lib tables aes order (h ++ none ∷ []) (length h ∷ []) r
      → Leaves
          (Steps lib tables aes order packet h r)
          (consume_pat lib tables aes recorder order (length h) packet r)
  unfolding consume_pat
  consume_pat-Steps h packet r a x =
      collected (Pat.consume tables packet.head.payload_unit_start packet.payload r.pat)
        (PatErrors.consume-Quiet tables packet.head.payload_unit_start packet.payload r.pat)
    where
      original :
          (r1 : Recorded AF)
          → r1.streams ≡ r.streams
          → r1.pmt ≡ r.pmt
          → Exactly lib tables aes order (h ++ none ∷ []) (length h ∷ []) r1
          → Leaves (Steps lib tables aes order packet h r) (
              on_output lib tables aes recorder order
                (commit_original recorder (length h) packet)
                r1)
      original r1 e f y =
          Leaves-map
            (on_output lib tables aes recorder order (commit_original recorder (length h) packet)
              r1)
            (original-Leaves lib tables aes order h packet r1 y)
            (λ r' (x', g). (
              h ++ some (packet ∷ []) ∷ [],
              copied (rw a refl) refl (ap (λ r. r.streams) g ∙ e) (ap (λ r. r.pmt) g ∙ f),
              x',
              due_original h packet,
            ))

      collected :
          (o : Outcome PatCollector (Option ℕ))
          → Leaves Anything o
          → Leaves {A = Unit {0}} (Steps lib tables aes order packet h r) (
              and_then (within (λ (r : Recorded AF) c. record r { pat = c }) r o) (λ found r1.
                on_output lib tables aes recorder order
                  (commit_original recorder (length h) packet)
                  (elim found [ none ↦ r1 | some pid ↦ record r1 { pmt_pid = pid } ])))
      collected (err e c) (on_err m) = on_err m
      collected (ok none c) (on_ok u) =
          original (record r { pat = c }) refl refl
            (record { exact = x.exact; distinct = x.distinct })
      collected (ok (some pid) c) (on_ok u) =
          original (record r { pat = c; pmt_pid = pid }) refl refl
            (record { exact = x.exact; distinct = x.distinct })

  consume_pmt-Steps :
      (h : History AF) (packet : Packet AF) (r : Recorded AF)
      → (packet.head.pid == pat_pid) ≡ false
      → (packet.head.pid == r.pmt_pid) ≡ true
      → Exactly lib tables aes order (h ++ none ∷ []) (length h ∷ []) r
      → Leaves
          (Steps lib tables aes order packet h r)
          (consume_pmt lib tables aes recorder order (length h) packet r)
  consume_pmt-Steps h packet r a b x =
      Leaves-map (consume_pmt lib tables aes recorder order (length h) packet r)
        (consume_pmt-Leaves lib tables aes order (h ++ none ∷ []) (length h) packet r
          (Exactly-Since lib tables aes order (h ++ none ∷ []) (length h ∷ []) r x))
        (λ r' w.
          let h' = w.accounted.history in
          (
            h',
            tabled a b w.accounted.adds,
            Since-Exactly lib tables aes order (h ++ none ∷ []) [] r' w,
            λ ds m.
                subst (λ d. Meets (ds ++ d ∷ []) h') (due_other packet a)
                  (Adds-Keeps (h ++ none ∷ []) h' w.accounted.adds (ds ++ none ∷ [])
                    (append-Meets ds h none m)),
          ))

  route-Steps :
      (h : History AF) (packet : Packet AF) (r : Recorded AF)
      → Exactly lib tables aes order (h ++ none ∷ []) (length h ∷ []) r
      → Leaves
          (Steps lib tables aes order packet h r)
          (route lib tables aes recorder order (length h) packet r)
  unfolding route
  route-Steps h packet r x = elim (Bool-cases (packet.head.pid == pat_pid)) [
    | inl a ↦ rw (a, route) (consume_pat-Steps h packet r a x)
    | inr a ↦ elim (Bool-cases (packet.head.pid == r.pmt_pid)) [
      | inl b ↦ rw (a, b, route) (consume_pmt-Steps h packet r a b x)
      | inr b ↦ rw (a, b, route) (by_stream a b (lookup packet.head.pid (streams_or_nil r)) refl)
    ]
  ]
    where
      by_stream :
          (packet.head.pid == pat_pid) ≡ false
          → (packet.head.pid == r.pmt_pid) ≡ false
          → (y : Option (StoredStream AF)) → lookup packet.head.pid (streams_or_nil r) ≡ y
          → Leaves {A = Unit {0}} (Steps lib tables aes order packet h r) (elim y [
            | none ↦
                on_output lib tables aes recorder order
                  (commit_original recorder (length h) packet)
                  r
            | some s ↦ consume_media lib tables aes recorder order (length h) packet s r
          ])
      by_stream a b none e = original-Steps lib tables aes order h packet r (rw (a, b, e) refl) x
      by_stream a b (some s) e = consume_media-Steps lib tables aes order h packet s r a b e x

  -- The remuxer with a slot more.
  abbrev pub reserved : Recorded AF → Recorded AF
  reserved r = record r { output = (reserve r.output).1 }

  pub consume-Steps :
      (h : History AF) (packet : Packet AF) (r : Recorded AF)
      → Exactly lib tables aes order h [] r
      → length h + 1 < token_count
      → Leaves
          (Steps lib tables aes order packet h (reserved r))
          (consume lib tables aes recorder order (some packet) r)
  unfolding consume
  consume-Steps h packet r x l =
      let out = tokens_out lib tables aes order [] r in
      let (e, o) = reserve-Exact h out r.output x.exact l in
      subst
        (λ t.
          Leaves (Steps lib tables aes order packet h (reserved r))
            (route lib tables aes recorder order t packet (reserved r)))
        (sym e)
        (route-Steps h packet (reserved r) (record {
          exact =
              Exact-same (h ++ none ∷ []) (λ t. one_at (length h) t + out t)
                (tokens_out lib tables aes order (length h ∷ []) (reserved r)) (reserve r.output).1
                o (λ t. omega arith);
          distinct = x.distinct;
        }))

  pub consume-nil :
      {P : Recorded AF → Type 0} (r : Recorded AF)
      → Leaves P (consume lib tables aes recorder order none r)
  unfolding consume
  consume-nil r = on_err refl

-- What is due stands in the slots that the output shows, and those are open whose token is in flight,
-- held by a stream or by the PMT transformer.
pub record Whole {AF : Type 0} (lib : Astits AF) (tables : Tables AF) (aes : Bytes → Bytes → Bytes)
    (order : List ℕ → List ℕ) (due : List (Option (Packet AF))) (flight : List ℕ) (r : Recorded AF)
    : Type 0 where
  pub slots : History AF
  pub meets : Meets due slots
  pub exactly : Exactly lib tables aes order slots flight r

module _ {AF : Type 0} (lib : Astits AF) (tables : Tables AF) (aes : Bytes → Bytes → Bytes)
    (order : List ℕ → List ℕ) where
  -- One more slot is reserved for every packet that the remuxer is given. When it returns, the slots
  -- that are open are exactly those whose tokens the streams and the PMT transformer hold, each by
  -- one of them and once, and the slots of PATs, this one's among them, hold the PAT as it came; or it
  -- fails, as it does on a nil packet, with an error that is none of the output's slots. It takes fewer
  -- than 2^64 packets and a writer that accepts every packet.
  pub consume-Whole :
      (due : List (Option (Packet AF))) (packet : Option (Packet AF)) (r : Recorded AF)
      → Whole lib tables aes order due [] r
      → length due + 1 < token_count
      → Leaves
          (Whole lib tables aes order (due ++ due_of packet ∷ []) [])
          (consume lib tables aes recorder order packet r)
  consume-Whole due none r w l = consume-nil lib tables aes order r
  consume-Whole due (some packet) r w l =
      Leaves-map (consume lib tables aes recorder order (some packet) r)
        (consume-Steps lib tables aes order w.slots packet r w.exactly
          (omega (arith, length-Meets due w.slots w.meets)))
        (λ r' (h', st, x, k). record { slots = h'; meets = k due w.meets; exactly = x })
