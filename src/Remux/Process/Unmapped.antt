-- ===== src/Remux/Process/Unmapped.antt =====
-- A whole run over packets without a PAT: the output is the input.
use mpegenc.Common.{
  ℕ, suc, ◌+◌, ◌<◌, ◌≡◌, ◌≢◌, refl, sym, ap, subst, ◌∙◌, Bool, not, Option, none, some, List, [],
  ◌∷◌, ◌++◌, append-nil, append_assoc, Bytes, arith, length, length-append, lookup, keys, Dict,
  Outcome, ok, err, and_then, within,
}
use mpegenc.SampleAes.{Config, validate}
use mpegenc.Astits.{Astits, Packet}
use mpegenc.Astits.Tables.{Tables, pat_pid}
use mpegenc.Utils.CommitQueue.{token_count}
use mpegenc.Utils.CommitQueue
use mpegenc.Output.Assembler.{new_output_assembler}
use mpegenc.Output.Assembler
use mpegenc.Output.Assembler.History.{History, front, waiting}
use mpegenc.Output.Assembler.Steps.{recorder, Shows}
use mpegenc.Output.Assembler.Order.{Resolves, flush-Resolves}
use mpegenc.Remux.PmtTransformer
use mpegenc.Remux.Remuxer.{
  StoredStream, Remuxer, new_remuxer, streams_or_nil, on_output, flush_streams,
}
use mpegenc.Remux.Remuxer
use mpegenc.Remux.Remuxer.Passing.{Running, PassesTo, consume-PassesTo}
use mpegenc.Remux.Process.{Input, no_more, packet, consume_all, process}

module _ {AF : Type 0} where
  abbrev pub input_of : List (Packet AF) → Input AF
  input_of [] = no_more
  input_of (p ∷ ps) = packet (some p) (input_of ps)

  -- No packet is of the PAT's PID.
  abbrev pub HaveNoPat : List (Packet AF) → Type 0
  HaveNoPat [] = Unit
  HaveNoPat (p ∷ ps) = (p.head.pid ≢ pat_pid) × HaveNoPat ps

  -- One committed slot for each packet.
  abbrev pub singles : List (Packet AF) → History AF
  singles [] = []
  singles (p ∷ ps) = some (p ∷ []) ∷ singles ps

  front-singles : (ps : List (Packet AF)) → front (singles ps) ≡ ps
  front-singles [] = refl
  front-singles (p ∷ ps) = ap (◌∷◌ p) (front-singles ps)

  waiting-singles : (ps : List (Packet AF)) → waiting (singles ps) ≡ []
  waiting-singles [] = refl
  waiting-singles (p ∷ ps) = waiting-singles ps

  singles-append : (ps qs : List (Packet AF)) → singles (ps ++ qs) ≡ singles ps ++ singles qs
  singles-append [] qs = refl
  singles-append (p ∷ ps) qs = ap (◌∷◌ (some (p ∷ []))) (singles-append ps qs)

  length-singles : (ps : List (Packet AF)) → length (singles ps) ≡ length ps
  length-singles [] = refl
  length-singles (p ∷ ps) = ap suc (length-singles ps)

  -- The run ended without an error, with the packets written.
  abbrev pub Writes : List (Packet AF) → Outcome (Remuxer AF (List (Packet AF))) (Unit {0}) → Type 0
  Writes ps (ok x r) = r.output.writer ≡ some ps
  Writes ps (err e r) = ⊥

  module _ (lib : Astits AF) (tables : Tables AF) (aes : Bytes → Bytes → Bytes)
      (order : List ℕ → List ℕ) where
    -- No PAT and no PMT was read, and the packets so far are written.
    record Passed (ps : List (Packet AF)) (r : Running lib tables aes order) : Type 0 where
      no_pmt : r.pmt_pid ≡ pat_pid
      no_streams : r.streams ≡ none
      none_held : r.pmt.pending ≡ []
      shown : Shows (singles ps) r.output

    no_stream_lookup :
        (pid : ℕ) (s : Option (Dict (StoredStream AF)))
        → s ≡ none
        → lookup pid (elim s [ none ↦ [] | some m ↦ m ]) ≡ none
    no_stream_lookup pid none e = refl
    no_stream_lookup pid (some m) e = cc

    held-none :
        (p : PmtTransformer.PmtTransformer AF)
        → p.pending ≡ []
        → PmtTransformer.flush tables p ≡ ok tt p
    unfolding PmtTransformer.flush
    held-none p e = rw e refl

    flush_streams-none :
        (pids : List ℕ) (r : Running lib tables aes order)
        → r.streams ≡ none
        → flush_streams lib tables aes recorder order pids r ≡ ok tt r
    unfolding flush_streams
    flush_streams-none [] r e = refl
    flush_streams-none (pid ∷ pids) r e =
        rw (no_stream_lookup pid r.streams e, flush_streams) (flush_streams-none pids r e)

    flushed_output-Writes :
        (ps : List (Packet AF)) (r : Running lib tables aes order)
        → Shows (singles ps) r.output
        → Writes ps (on_output lib tables aes recorder order (Assembler.flush recorder) r)
    flushed_output-Writes ps r s =
        resolved (Assembler.flush recorder r.output) (flush-Resolves (singles ps) r.output s)
      where
        resolved :
            (o : Outcome (Assembler.OutputAssembler AF (List (Packet AF))) (Unit {0}))
            → Resolves (singles ps) o
            → Writes ps
                (within (λ (r : Running lib tables aes order) o. record r { output = o }) r o)
        resolved (ok x a) (w, f) = f ∙ ap some (front-singles ps)
        resolved (err e a) (w, f) = absurd (f (waiting-singles ps))

    flush-Writes :
        (ps : List (Packet AF)) (r : Running lib tables aes order)
        → Passed ps r
        → Writes ps (Remuxer.flush lib tables aes recorder order r)
    unfolding Remuxer.flush
    flush-Writes ps r v =
        rw
          (
            flush_streams-none (order (keys (streams_or_nil r))) r v.no_streams,
            held-none r.pmt v.none_held,
          )
          (flushed_output-Writes ps r v.shown)

    consume_all-Writes :
        (ps qs : List (Packet AF)) (r : Running lib tables aes order)
        → HaveNoPat qs
        → length ps + length qs < token_count
        → Passed ps r
        → Writes (ps ++ qs) (consume_all lib tables aes recorder order (input_of qs) r)
    unfolding consume_all
    consume_all-Writes ps [] r n l v =
        subst (λ xs. Writes xs (Remuxer.flush lib tables aes recorder order r))
          (sym (append-nil ps)) (flush-Writes ps r v)
    consume_all-Writes ps (q ∷ qs) r (n, ns) l v =
        subst (λ xs. Writes xs (consume_all lib tables aes recorder order (input_of (q ∷ qs)) r))
          (append_assoc ps (q ∷ []) qs)
          (then_all (Remuxer.consume lib tables aes recorder order (some q) r)
            (consume-PassesTo lib tables aes order (singles ps) q r v.shown
              (record {
                no_pat = n;
                no_pmt = λ e. n (e ∙ v.no_pmt);
                no_stream = no_stream_lookup q.head.pid r.streams v.no_streams;
              })
              (omega (arith, length-singles ps)))
            (λ r' v'.
              consume_all-Writes (ps ++ q ∷ []) qs r' ns (omega (arith, length-append ps (q ∷ [])))
                v'))
      where
        then_all :
            (o : Outcome (Running lib tables aes order) (Unit {0}))
            → PassesTo lib tables aes order r (singles ps ++ some (q ∷ []) ∷ []) o
            → ((r' : Running lib tables aes order)
                → Passed (ps ++ q ∷ []) r'
                → Writes
                    ((ps ++ q ∷ []) ++ qs)
                    (consume_all lib tables aes recorder order (input_of qs) r'))
            → Writes
                ((ps ++ q ∷ []) ++ qs)
                (and_then o (λ _ r'. consume_all lib tables aes recorder order (input_of qs) r'))
        then_all (ok x r') (e, s) f = f r' (record {
          no_pmt = ap (λ (r : Running lib tables aes order). r.pmt_pid) e ∙ v.no_pmt;
          no_streams = ap (λ (r : Running lib tables aes order). r.streams) e ∙ v.no_streams;
          none_held = ap (λ (r : Running lib tables aes order). r.pmt.pending) e ∙ v.none_held;
          shown = subst (λ h. Shows h r'.output) (sym (singles-append ps (q ∷ []))) s;
        })
        then_all (err e r') d f = absurd d

    -- A run over an input that has no PAT ends without an error, and writes exactly the packets of the
    -- input, in their order and as they are, whether it encrypts or decrypts. It takes a valid
    -- config, fewer than 2^64 packets and a writer that accepts every packet.
    pub process-Writes :
        (cfg : Config) (encrypt : Bool) (ps : List (Packet AF))
        → validate cfg ≡ none
        → HaveNoPat ps
        → length ps < token_count
        → Writes ps (process lib tables aes recorder order cfg encrypt [] (input_of ps))
    unfolding process new_remuxer new_output_assembler CommitQueue.empty
    process-Writes cfg encrypt ps e n l =
        rw (e, Writes)
          (consume_all-Writes [] ps (new_remuxer (some []) (not encrypt) cfg) n (omega arith)
            (record {
              no_pmt = refl;
              no_streams = refl;
              none_held = refl;
              shown = record {
                valid = record { head_in = omega arith; counted = refl; no_wrap = omega arith };
                shown = refl;
                written = refl;
              };
            }))
