-- ===== src/Remux/Process/Complete.antt =====
-- A whole run: which packets each slot gets, and that all are written.
use mpegenc.Common.{
  ok, Leaves-map, ◌∷◌, sym, length, ◌++◌, append-nil, append_assoc, length-append, ℕ, suc, ◌+◌, ◌<◌,
  ◌≡◌, refl, subst, Bool, false, not, Option, none, some, List, [], Bytes, arith, copies, Error,
  err, of_slots, Leaves, on_err, Leaves-and_then,
}
use mpegenc.SampleAes.{Config, validate}
use mpegenc.Astits.{Astits, Packet}
use mpegenc.Astits.Tables.{Tables}
use mpegenc.Utils.CommitQueue.{token_count}
use mpegenc.Utils.CommitQueue
use mpegenc.Output.Assembler.{new_output_assembler}
use mpegenc.Output.Assembler.Steps.{recorder, Shows}
use mpegenc.Remux.PmtTransformer.{new_pmt_transformer}
use mpegenc.Remux.Remuxer.{Remuxer, new_remuxer}
use mpegenc.Remux.Remuxer
use mpegenc.Output.Assembler.History.{History}
use mpegenc.Output.Assembler.Due.{Meets, length-Meets}
use mpegenc.Remux.Remuxer.Open.Exactly.{Recorded, Exactly, Leaves-known}
use mpegenc.Remux.Remuxer.Open.Steps.{Step, due_of}
use mpegenc.Remux.Remuxer.Open.Routed.{reserved, consume-Steps, consume-nil}
use mpegenc.Remux.Remuxer.Open.Flushed.{IsComplete, flush-IsComplete}
use mpegenc.Remux.Process.{Input, cancelled, no_more, failed, packet, consume_all, process}

-- The packets of the input.
abbrev pub rounds : {AF : Type 0} → Input AF → ℕ
rounds (packet p rest) = suc (rounds rest)
rounds _ = 0

-- What is due in the slots of the packets.
abbrev pub due_in : {AF : Type 0} → Input AF → List (Option (Packet AF))
due_in (packet p rest) = due_of p ∷ due_in rest
due_in _ = []

-- The errors of the input are its own.
abbrev pub IsOutside : {AF : Type 0} → Input AF → Type 0
IsOutside (cancelled e) = of_slots e ≡ false
IsOutside no_more = Unit
IsOutside (failed e none) = of_slots e ≡ false
IsOutside (failed e (some e')) = of_slots e' ≡ false
IsOutside (packet p rest) = IsOutside rest

validate-outside : (c : Config) (e : Error) → validate c ≡ some e → of_slots e ≡ false
unfolding validate
validate-outside c e f = ground arith

module _ {AF : Type 0} (lib : Astits AF) (tables : Tables AF) (aes : Bytes → Bytes → Bytes)
    (order : List ℕ → List ℕ) where
  -- The rounds of the loop, and the slots before and behind: one step of `Consume` for each
  -- packet of the input, behind which the output shows the slots.
  pub data Feeds : Input AF → Recorded AF → History AF → Recorded AF → History AF → Type 0 where
    feeds_end : {r : Recorded AF} {h : History AF} → Feeds no_more r h r h
    feeds_packet :
        {p : Packet AF} {rest : Input AF} {r r' : Recorded AF} {h h' : History AF}
        (r1 : Recorded AF) (h1 : History AF)
        → Remuxer.consume lib tables aes recorder order (some p) r ≡ ok tt r1
        → Step lib tables aes order p h (reserved lib tables aes order r) r1 h1
        → Shows h1 r1.output
        → Feeds rest r1 h1 r' h'
        → Feeds (packet (some p) rest) r h r' h'

  -- The run from a remuxer with the slots `h`, in which `ds` is due: the rounds, then the end.
  pub record IsRun (ds : List (Option (Packet AF))) (input : Input AF) (h : History AF)
      (r r' : Recorded AF) : Type 0 where
    pub before_end : Recorded AF
    pub so_far : History AF
    pub fed : Feeds input r h before_end so_far
    pub complete : IsComplete lib tables aes order so_far before_end r'
    pub all_due : Meets (ds ++ due_in input) complete.slots

  module _ (same : (k : ℕ) (ks : List ℕ) → copies k (order ks) ≡ copies k ks) where
    new_remuxer-Exactly :
        (cfg : Config) (input_encrypted : Bool)
        → Exactly lib tables aes order [] [] (new_remuxer (some []) input_encrypted cfg)
    unfolding new_remuxer new_output_assembler CommitQueue.empty new_pmt_transformer
    new_remuxer-Exactly cfg input_encrypted = record {
      exact = record {
        shows = record {
          valid = record { head_in = omega arith; counted = refl; no_wrap = omega arith };
          shown = refl;
          written = refl;
        };
        counted = λ t. refl;
      };
      distinct = tt;
    }

    consume_all-IsRun :
        (ds : List (Option (Packet AF))) (input : Input AF) (h : History AF) (r : Recorded AF)
        → Exactly lib tables aes order h [] r
        → Meets ds h
        → IsOutside input
        → length ds + rounds input < token_count
        → Leaves (IsRun ds input h r) (consume_all lib tables aes recorder order input r)
    unfolding consume_all
    consume_all-IsRun ds (cancelled e) h r x m o l = on_err o
    consume_all-IsRun ds no_more h r x m o l =
        Leaves-map (Remuxer.flush lib tables aes recorder order r)
          (flush-IsComplete lib tables aes order h r x same)
          (λ r' c. record {
            before_end = r;
            so_far = h;
            fed = feeds_end;
            complete = c;
            all_due = subst (λ ds. Meets ds c.slots) (sym (append-nil ds)) (c.keeps ds m);
          })
    consume_all-IsRun ds (failed e none) h r x m o l = on_err o
    consume_all-IsRun ds (failed e (some e')) h r x m o l = on_err o
    consume_all-IsRun ds (packet none rest) h r x m o l =
        Leaves-and_then (Remuxer.consume lib tables aes recorder order none r)
          (λ _ r'. consume_all lib tables aes recorder order rest r')
          (consume-nil lib tables aes order {P = λ r'. ⊥} r) (λ _ r' w. absurd w)
    consume_all-IsRun ds (packet (some p) rest) h r x m o l =
        Leaves-and_then (Remuxer.consume lib tables aes recorder order (some p) r)
          (λ _ r'. consume_all lib tables aes recorder order rest r')
          (Leaves-known (Remuxer.consume lib tables aes recorder order (some p) r)
            (consume-Steps lib tables aes order h p r x (omega (arith, length-Meets ds h m))))
          (λ _ r1 (e, (h1, st, x1, k)).
            Leaves-map (consume_all lib tables aes recorder order rest r1)
              (consume_all-IsRun (ds ++ due_of (some p) ∷ []) rest h1 r1 x1 (k ds m) o
                (omega (arith, length-append ds (due_of (some p) ∷ []))))
              (λ r' run. record {
                before_end = run.before_end;
                so_far = run.so_far;
                fed = feeds_packet r1 h1 e st x1.exact.shows run.fed;
                complete = run.complete;
                all_due =
                    subst (λ ds. Meets ds run.complete.slots)
                      (append_assoc ds (due_of (some p) ∷ []) (due_in rest)) run.all_due;
              }))

    -- A run over any input of fewer than 2^64 packets, whose own errors are none of the output's
    -- slots. If it ends without an error, the slots came to hold what they hold by one step for each packet,
    -- in their order, and the ends of the streams. A step reserves one slot. It fills that slot
    -- with the packet, if that is a PAT, or of a PID that is neither the PMT's nor a stream's, or payload
    -- that begins no PES while its stream is in none; else, for a stream's packet, it fills exactly the
    -- slots that the stream's `consume` hands out, with what it hands out. PMTs let out meanwhile,
    -- or by a packet of the PMT's PID, fill slots with one packet each, and a filled slot never
    -- changes. At the end each stream's `flush` hands out slots in the same way; then every slot is filled, and the
    -- writer has the packets of all slots, in the order of the input. If the run fails, it is by no
    -- error of the output's slots. It takes an `order` that is a rearrangement of the keys, and a
    -- writer that accepts every packet.
    pub process-IsRun :
        (cfg : Config) (encrypt : Bool) (input : Input AF)
        → IsOutside input
        → rounds input < token_count
        → Leaves
            (IsRun [] input [] (new_remuxer (some []) (not encrypt) cfg))
            (process lib tables aes recorder order cfg encrypt [] input)
    unfolding process
    process-IsRun cfg encrypt input o l = by_config (validate cfg) refl
      where
        by_config :
            (x : Option Error)
            → validate cfg ≡ x
            → Leaves (IsRun [] input [] (new_remuxer (some []) (not encrypt) cfg)) (elim x [
              | some e ↦ err e (new_remuxer (some []) (not encrypt) cfg)
              | none ↦
                  consume_all lib tables aes recorder order input
                    (new_remuxer (some []) (not encrypt) cfg)
            ])
        by_config none e =
            consume_all-IsRun [] input [] (new_remuxer (some []) (not encrypt) cfg)
              (new_remuxer-Exactly cfg (not encrypt)) tt o (omega arith)
        by_config (some x) e = on_err (validate-outside cfg x e)
