-- ===== src/Remux/Remuxer/Open/Flushed.antt =====
-- The end of the input: nothing is held any more, so every slot is committed and written.
use mpegenc.Common.{
  ℕ, ◌≡◌, refl, sym, ap, subst, ◌∙◌, Bool-cases, inl, inr, Option, none, some, List, [], ◌∷◌, Bytes,
  arith, length, copies, ◌==◌, length_zero, Outcome, ok, err, and_then, within, lookup, keys,
  Leaves, on_ok, on_err, Leaves-and_then, Leaves-after, Leaves-map, Leaves-within,
}
use mpegenc.SampleAes.{cbc_cryptor}
use mpegenc.Astits.{Astits, Packet}
use mpegenc.Astits.Tables.{Tables}
use mpegenc.Output.Aligner.{CompletedSlot}
use mpegenc.Output.Aligner.Order.{tokens_of}
use mpegenc.Output.Assembler.{OutputAssembler}
use mpegenc.Output.Assembler
use mpegenc.Output.Assembler.History.{History, front, waiting}
use mpegenc.Output.Assembler.Order.{Resolves, flush-Resolves}
use mpegenc.Output.Assembler.Steps.{recorder, Shows}
use mpegenc.Output.Assembler.Open.{Adds, waiting-nil}
use mpegenc.Output.Assembler.Due.{fill, Keeps, Adds-Keeps}
use mpegenc.Remux.PmtTransformer.{PmtTransformer}
use mpegenc.Remux.PmtTransformer
use mpegenc.Remux.PmtTransformer.Held.{tokens_held}
use mpegenc.Remux.Stream
use mpegenc.Remux.Remuxer.{
  StoredStream, world_sink, streams_or_nil, on_output, signal_of, run_stream, commit_all,
  flush_streams, flush,
}
use mpegenc.Remux.Remuxer.Open.{held_in, end-Gives}
use mpegenc.Remux.Remuxer.Open.Emptied.{IsEmptied, insert-IsEmptied, lookup-absent, held_in-emptied}
use mpegenc.Remux.Remuxer.Open.Exactly.{
  Recorded, Exactly, SameButOutput, Exactly-Since, Since-Exactly, Gives-known, commit_all-Exactly,
}

module _ {AF : Type 0} (lib : Astits AF) (tables : Tables AF) (aes : Bytes → Bytes → Bytes)
    (order : List ℕ → List ℕ) where
  abbrev end_stream :
      ℕ → StoredStream AF → Recorded AF → Outcome (Recorded AF) (List (CompletedSlot AF))
  end_stream pid s r =
      run_stream lib tables aes recorder order pid (streams_or_nil r) s
        (Stream.flush lib world_sink cbc_cryptor (signal_of lib tables aes recorder order pid)) r

  -- The ends of the streams of these PIDs, and the slots before and behind: each stream's slots hold what
  -- it hands out at its end.
  pub data Ends : List ℕ → Recorded AF → History AF → Recorded AF → History AF → Type 0 where
    ends_done : {r : Recorded AF} {h : History AF} → Ends [] r h r h
    ends_absent :
        {pid : ℕ} {pids : List ℕ} {r r' : Recorded AF} {h h' : History AF}
        → lookup pid (streams_or_nil r) ≡ none
        → Ends pids r h r' h'
        → Ends (pid ∷ pids) r h r' h'
    ends_stream :
        {pid : ℕ} {pids : List ℕ} {r r' : Recorded AF} {h h' : History AF} (s : StoredStream AF)
        (completed : List (CompletedSlot AF)) (r1 r2 : Recorded AF) (h1 : History AF)
        → lookup pid (streams_or_nil r) ≡ some s
        → run_stream lib tables aes recorder order pid
            (streams_or_nil r)
            s
            (Stream.flush lib world_sink cbc_cryptor (signal_of lib tables aes recorder order pid))
            r
          ≡ ok completed r1
        → Adds h h1
        → Shows h1 r1.output
        → SameButOutput lib tables aes order r1 r2
        → Shows (fill completed h1) r2.output
        → Ends pids r2 (fill completed h1) r' h'
        → Ends (pid ∷ pids) r h r' h'

  -- The streams of the PIDs are emptied, and no stream gets a token.
  abbrev Empties : List ℕ → Recorded AF → Recorded AF → Type 0
  Empties pids r r' =
      (j : ℕ)
      → (copies j pids ≡ 0 → IsEmptied (streams_or_nil r) j)
      → IsEmptied (streams_or_nil r') j

  -- The same of one stream, behind its commits.
  record EndsOne (pid : ℕ) (s : StoredStream AF) (h : History AF) (r r2 : Recorded AF)
      : Type 0 where
    completed : List (CompletedSlot AF)
    r1 : Recorded AF
    h1 : History AF
    ran : end_stream pid s r ≡ ok completed r1
    adds : Adds h h1
    shows : Shows h1 r1.output
    same : SameButOutput lib tables aes order r1 r2
    exactly : Exactly lib tables aes order (fill completed h1) [] r2
    keeps : Keeps h (fill completed h1)
    empties : Empties (pid ∷ []) r r2

  flush_stream-EndsOne :
      (pid : ℕ) (s : StoredStream AF) (h : History AF) (r : Recorded AF)
      → lookup pid (streams_or_nil r) ≡ some s
      → Exactly lib tables aes order h [] r
      → Leaves (EndsOne pid s h r) (
          and_then
            (end_stream pid s r)
            (λ completed r1. commit_all lib tables aes recorder order completed r1))
  flush_stream-EndsOne pid s h r e x =
      Leaves-after (end_stream pid s r)
        (λ completed r1. commit_all lib tables aes recorder order completed r1)
        (Gives-known (end_stream pid s r) (
          end-Gives lib tables aes order h pid s r e (Exactly-Since lib tables aes order h [] r x)))
        (λ completed r1 (ran, (w, (s', f, g))).
          let h1 = w.accounted.history in
          Leaves-map (commit_all lib tables aes recorder order completed r1)
            (commit_all-Exactly lib tables aes order completed h1 r1
              (Since-Exactly lib tables aes order h (tokens_of completed) r1 w))
            (λ r2 (x2, same, k). record {
              completed = completed;
              r1 = r1;
              h1 = h1;
              ran = ran;
              adds = w.accounted.adds;
              shows = w.accounted.exact.shows;
              same = same;
              exactly = x2;
              keeps = λ ds m. k ds (Adds-Keeps h h1 w.accounted.adds ds m);
              empties = λ j k.
                  subst (λ m. IsEmptied m j) (sym (ap streams_or_nil same ∙ g))
                    (insert-IsEmptied j pid s' (streams_or_nil r) f (λ b. k (ground (arith, b))));
            }))

  abbrev EndsAll : List ℕ → History AF → Recorded AF → Recorded AF → Type 0
  EndsAll pids h r r' =
      (h' : History AF) × Ends pids r h r' h'
      × Exactly lib tables aes order h' [] r'
      × Keeps h h'
      × Empties pids r r'

  flush_streams-EndsAll :
      (pids : List ℕ) (h : History AF) (r : Recorded AF)
      → Exactly lib tables aes order h [] r
      → Leaves (EndsAll pids h r) (flush_streams lib tables aes recorder order pids r)
  unfolding flush_streams
  flush_streams-EndsAll [] h r x = on_ok (h, ends_done, x, λ ds m. m, λ j k. k refl)
  flush_streams-EndsAll (pid ∷ pids) h r x =
      by_stream (lookup pid (streams_or_nil r)) refl
        (λ h' r' x'. flush_streams-EndsAll pids h' r' x')
    where
      by_stream :
          (y : Option (StoredStream AF))
          → lookup pid (streams_or_nil r) ≡ y
          → ((h' : History AF) (r' : Recorded AF)
              → Exactly lib tables aes order h' [] r'
              → Leaves (EndsAll pids h' r') (flush_streams lib tables aes recorder order pids r'))
          → Leaves {A = Unit {0}} (EndsAll (pid ∷ pids) h r) (elim y [
            | none ↦ flush_streams lib tables aes recorder order pids r
            | some s ↦
                and_then
                  (and_then
                    (end_stream pid s r)
                    (λ completed r1. commit_all lib tables aes recorder order completed r1))
                  (λ _ r2. flush_streams lib tables aes recorder order pids r2)
          ])
      by_stream none e k =
          Leaves-map (flush_streams lib tables aes recorder order pids r) (k h r x)
            (λ r' (h', d, x', q, f). (
              h',
              ends_absent e d,
              x',
              q,
              λ j g. f j (λ z s u. elim (Bool-cases (j == pid)) [
                | inl b ↦ let y : j ≡ pid = ground (arith, b) in cc (y, u, e)
                | inr b ↦ g (ground (arith, b, z)) s u
              ]),
            ))
      by_stream (some s) e k =
          Leaves-and_then
            (and_then (end_stream pid s r)
              (λ completed r1. commit_all lib tables aes recorder order completed r1))
            (λ _ r2. flush_streams lib tables aes recorder order pids r2)
            (flush_stream-EndsOne pid s h r e x)
            (λ _ r2 o.
              Leaves-map (flush_streams lib tables aes recorder order pids r2)
                (k (fill o.completed o.h1) r2 o.exactly)
                (λ r' (h', d, x', q, f). (
                  h',
                  ends_stream s o.completed o.r1 r2 o.h1 e o.ran o.adds o.shows o.same
                      o.exactly.exact.shows d,
                  x',
                  λ ds m. q ds (o.keeps ds m),
                  λ j g. f j (λ z. o.empties j (λ y. g (ground (arith, y, z)))),
                )))

  -- The streams came to their ends, and then all slots were committed and what they hold is written.
  pub record IsComplete (h : History AF) (r r' : Recorded AF) : Type 0 where
    pub at_end : Recorded AF
    pub slots : History AF
    pub ended : Ends (order (keys (streams_or_nil r))) r h at_end slots
    pub committed : waiting slots ≡ []
    pub written : r'.output.writer ≡ some (front slots)
    pub keeps : Keeps h slots

  -- Nothing is held.
  abbrev Settled : History AF → Recorded AF → Type 0
  Settled h r =
      Exactly lib tables aes order h [] r
      × ((t : ℕ) → held_in t (streams_or_nil r) ≡ 0)
      × (r.pmt.pending ≡ [])

  abbrev Written : History AF → Recorded AF → Type 0
  Written h r = (waiting h ≡ []) × (r.output.writer ≡ some (front h))

  flush_output-Leaves :
      (h : History AF) (r : Recorded AF)
      → Settled h r
      → Leaves (Written h) (on_output lib tables aes recorder order (Assembler.flush recorder) r)
  flush_output-Leaves h r (x, z, p) =
      resolved (Assembler.flush recorder r.output) (flush-Resolves h r.output x.exact.shows)
    where
      all_committed : waiting h ≡ []
      all_committed = waiting-nil h (λ t.
          omega (arith, x.exact.counted t, z t, ap (λ qs. copies t (tokens_held tables qs)) p))

      resolved :
          (o : Outcome (OutputAssembler AF (List (Packet AF))) (Unit {0}))
          → Resolves h o
          → Leaves (Written h) (within (λ (r : Recorded AF) o. record r { output = o }) r o)
      resolved (ok x o) (e, f) = on_ok (e, f)
      resolved (err x o) (e, f) = absurd (f all_committed)

  flush_pmt-Leaves :
      (p : PmtTransformer AF)
      → Leaves (λ p'. (p' ≡ p) × (p'.pending ≡ [])) (PmtTransformer.flush tables p)
  unfolding PmtTransformer.flush
  flush_pmt-Leaves p = elim (Bool-cases (length p.pending == 0)) [
    | inl b ↦ rw b (on_ok (refl, length_zero p.pending (ground (arith, b))))
    | inr b ↦ rw b (on_err refl)
  ]

  -- Let the output show the slots `h`, of which those are open whose tokens the streams and the PMT
  -- transformer hold. If the end of the input is reached without an error, then, stream by stream in
  -- the order of the range, the slots that the stream hands out at its end were filled with what it
  -- hands out, those of PMTs let out meanwhile with one packet each, and no other was changed; with
  -- that every slot is committed, and the writer has the packets of all slots, in the order of their
  -- reservations. If it fails, it is by no error of the output's slots. It takes an `order` that is a
  -- rearrangement of the keys, and a writer that accepts every packet.
  pub flush-IsComplete :
      (h : History AF) (r : Recorded AF)
      → Exactly lib tables aes order h [] r
      → ((k : ℕ) (ks : List ℕ) → copies k (order ks) ≡ copies k ks)
      → Leaves (IsComplete h r) (flush lib tables aes recorder order r)
  unfolding flush
  flush-IsComplete h r x same =
      let pids = order (keys (streams_or_nil r)) in
      Leaves-and_then (flush_streams lib tables aes recorder order pids r) _
        (flush_streams-EndsAll pids h r x)
        (λ _ r1 (h1, d, x1, q, f1).
          let z = λ (t : ℕ). held_in-emptied t (streams_or_nil r1) x1.distinct (λ j.
            f1 j
              (λ e s g. absurd (absent j s (cc (sym (same j (keys (streams_or_nil r))), e)) g))) in
          Leaves-and_then {P = Settled h1}
            (within (λ (r : Recorded AF) p. record r { pmt = p }) r1
              (PmtTransformer.flush tables r1.pmt))
            (λ _ r2. on_output lib tables aes recorder order (Assembler.flush recorder) r2)
            (Leaves-within (λ (r : Recorded AF) p. record r { pmt = p }) r1
              (PmtTransformer.flush tables r1.pmt) (flush_pmt-Leaves r1.pmt)
              (λ p (e, f). (
                subst (λ p. Exactly lib tables aes order h1 [] (record r1 { pmt = p })) (sym e) x1,
                z,
                f,
              )))
            (λ _ r2 y.
              Leaves-map (on_output lib tables aes recorder order (Assembler.flush recorder) r2)
                (flush_output-Leaves h1 r2 y)
                (λ r' (e, g). record {
                  at_end = r1;
                  slots = h1;
                  ended = d;
                  committed = e;
                  written = g;
                  keeps = q;
                })))
    where
      absent :
          (j : ℕ) (s : StoredStream AF)
          → copies j (keys (streams_or_nil r)) ≡ 0
          → lookup j (streams_or_nil r) ≡ some s
          → ⊥
      absent j s e g = cc (lookup-absent j (streams_or_nil r) e, g)
