-- ===== src/Output/Assembler/Order.antt =====
-- The output is in the order of the reservations, whatever the order of the commits.
use mpegenc.Common.{
  ◌≤◌, ◌<◌, ◌≡◌, refl, sym, ap, subst, Option, none, some, List, [], ◌∷◌, ◌++◌, arith, length, set,
  get_elem?, if◌then◌else◌, Method, Outcome, ok, err, and_then, slots_unresolved, Bool-cases,
  length_zero, ◌≢◌, ◌==◌, not, length-drop, length-append, length-set, inl, inr,
}
use mpegenc.Astits.{Packet}
use mpegenc.Utils.CommitQueue.{CommitSlot, CommitQueue, token_count}
use mpegenc.Utils.CommitQueue
use mpegenc.Utils.CommitQueue.Spec.{Window}
use mpegenc.Output.Aligner.{CompletedSlot}
use mpegenc.Output.Assembler.{
  OutputAssembler, new_output_assembler, reserve, drain, commit, flush, len,
}
use mpegenc.Output.Assembler.History.{
  Op, reserves, commits, History, if_open, history, front, waiting, waiting-Grows, length-slots_of,
}
use mpegenc.Output.Assembler.Steps.{recorder, Shows, Does, drain-Does, commit-Does, reserve-Does}

module _ {AF : Type 0} where
  -- The calls, one after another.
  abbrev pub run : List (Op AF) → Method (OutputAssembler AF (List (Packet AF))) (Unit {0})
  run [] a = ok tt a
  run (reserves ∷ ops) a = run ops (reserve a).1
  run (commits s ∷ ops) a = and_then (commit recorder s a) (λ _ a'. run ops a')

  open_entry :
      (x : Option (Option (List (Packet AF)))) (k h' : History AF) (ops : List (Op AF))
      → (elim (if_open x k) as (λ _. Option (History AF)) [ none ↦ none | some h ↦ history ops h ])
        ≡ some h'
      → (x ≡ some none) × (history ops k ≡ some h')
  open_entry none k h' ops e = cc
  open_entry (some none) k h' ops e = (refl, e)
  open_entry (some (some ps)) k h' ops e = cc

  history_commit :
      (s : CompletedSlot AF) (ops : List (Op AF)) (h h' : History AF)
      → history (commits s ∷ ops) h ≡ some h'
      → (get_elem? h s.token ≡ some none) × (history ops (set h s.token (some s.packets)) ≡ some h')
  history_commit s ops h h' e =
      open_entry (get_elem? h s.token) (set h s.token (some s.packets)) h' ops e

  history-length :
      (ops : List (Op AF)) (h h' : History AF) → history ops h ≡ some h' → length h ≤ length h'
  history-length [] h h' e = omega (arith, let z : h ≡ h' = cc in ap length z)
  history-length (reserves ∷ ops) h h' e =
      omega (arith, history-length ops (h ++ none ∷ []) h' e, length-append h (none ∷ []))
  history-length (commits s ∷ ops) h h' e =
      let (at, rest) = history_commit s ops h h' e in
      omega (
        arith,
        history-length ops (set h s.token (some s.packets)) h' rest,
        length-set h s.token (some s.packets),
      )

  run-Does :
      (ops : List (Op AF)) (h h' : History AF) (a : OutputAssembler AF (List (Packet AF)))
      → Shows h a
      → history ops h ≡ some h'
      → length h' < token_count
      → Does h' (run ops a)
  run-Does [] h h' a s e l = subst (λ k. Shows k a) (cc) s
  run-Does (reserves ∷ ops) h h' a s e l =
      run-Does ops (h ++ none ∷ []) h' (reserve a).1
        (reserve-Does h a s
          (omega (arith, history-length ops (h ++ none ∷ []) h' e, length-append h (none ∷ [])))).1
        e l
  run-Does (commits s ∷ ops) h h' a v e l =
      let (at, rest) = history_commit s ops h h' e in
      then_run ops h' (set h s.token (some s.packets)) (commit recorder s a)
        (commit-Does h s.token s.packets a v at)
        (λ a' v'. run-Does ops (set h s.token (some s.packets)) h' a' v' rest l)
    where
      then_run :
          (ops : List (Op AF)) (h' k : History AF)
          (o : Outcome (OutputAssembler AF (List (Packet AF))) (Unit {0}))
          → Does k o
          → ((a' : OutputAssembler AF (List (Packet AF))) → Shows k a' → Does h' (run ops a'))
          → Does h' (and_then o (λ _ a'. run ops a'))
      then_run ops h' k (ok x a') d f = f a' d
      then_run ops h' k (err x a') d f = absurd d

  -- Whatever is reserved and committed, in any order, if every commit is for a slot that was reserved
  -- before and not committed yet: no call fails, and what is written is at every point the packets of
  -- the slots up to the first that is not committed, in the order of the reservations. It takes
  -- fewer than 2^64 reservations and a writer that accepts every packet.
  pub run-Does-history :
      (ops : List (Op AF)) (h : History AF)
      → history ops [] ≡ some h
      → length h < token_count
      → Does h (run ops (new_output_assembler (some [])))
  unfolding new_output_assembler CommitQueue.empty
  run-Does-history ops h e l =
      run-Does ops [] h (new_output_assembler (some []))
        (record {
          valid = record { head_in = omega arith; counted = refl; no_wrap = omega arith };
          shown = refl;
          written = refl;
        })
        e l

  -- All was written, or a slot was not committed.
  abbrev pub Resolves :
      History AF → Outcome (OutputAssembler AF (List (Packet AF))) (Unit {0}) → Type 0
  Resolves h (ok x a) = (waiting h ≡ []) × (a.writer ≡ some (front h))
  Resolves h (err e a) = (e ≡ slots_unresolved) × (waiting h ≢ [])

  len-Shows :
      (h : History AF) (a : OutputAssembler AF (List (Packet AF)))
      → Shows h a
      → len a ≡ length (waiting h)
  unfolding len CommitQueue.len
  len-Shows h a s = omega (
    arith,
    length-drop a.queue.head a.queue.slots,
    ap (λ (w : Window (List (Packet AF))). length w.slots) s.shown,
    length-slots_of (waiting h),
  )

  -- The end of the run succeeds exactly when every reserved slot was committed; all packets are
  -- written then, in the order of the reservations. Otherwise it says that slots are unresolved.
  pub flush-Resolves :
      (h : History AF) (a : OutputAssembler AF (List (Packet AF)))
      → Shows h a
      → Resolves h (flush recorder a)
  unfolding flush
  flush-Resolves h a s = resolved (drain recorder a) (
      subst (λ w. Does h (drain recorder (record a { writer = w }))) (sym s.written)
        (drain-Does h (waiting h) h a.queue s.valid s.shown (waiting-Grows h)))
    where
      resolved :
          (o : Outcome (OutputAssembler AF (List (Packet AF))) (Unit {0}))
          → Does h o
          → Resolves h
              (and_then o (λ _ a'. if not (len a' == 0) then err slots_unresolved a' else ok tt a'))
      resolved (ok x a') d = elim (Bool-cases (len a' == 0)) [
        | inl z ↦ rw z (length_zero (waiting h) (ground (arith, len-Shows h a' d)), d.written)
        | inr z ↦ rw z (refl, λ e. ground (arith, len-Shows h a' d, ap length e))
      ]
      resolved (err x a') d = absurd d
