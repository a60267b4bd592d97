-- ===== src/Output/Assembler/Steps.antt =====
-- What one call of the assembler does to the history that its queue and its writer show.
use mpegenc.Common.{
  ℕ, suc, ◌+◌, ◌-◌, ◌<◌, ◌≡◌, sym, ap, ap₂, subst, ◌∙◌, none, some, List, [], ◌∷◌, ◌++◌,
  append_assoc, append-nil, arith, length, set, get_elem?, false, Method, Outcome, ok, err,
  and_then, map_state, state_of, within, get_elem?-lt, length-drop, le→ltb, lt→leb,
}
use mpegenc.Astits.{Packet}
use mpegenc.Utils.CommitQueue.{CommitSlot, CommitQueue, token_count}
use mpegenc.Utils.CommitQueue
use mpegenc.Utils.CommitQueue.Spec.{Window, IsValid, view, find, fill, extend}
use mpegenc.Utils.CommitQueue.Spec
use mpegenc.Utils.CommitQueue.Refine.{observed, reserve_refines, commit_refines, drain_refines}
use mpegenc.Output.Assembler.{OutputAssembler, reserve, write_slot, drain, commit, assembled}
use mpegenc.Output.Assembler.History.{
  History, ready, front, waiting, slots_of, Grows, behind, set-Grows, append-Waits, slots_of-set,
  slots_of-append, slot-at, length-slots_of, length-waiting,
}

module _ {AF : Type 0} where
  -- A writer that keeps the packets.
  abbrev pub recorder : Packet AF → Method (List (Packet AF)) (Unit {0})
  recorder p w = ok tt (w ++ p ∷ [])

  write_slot-recorder : (ps w : List (Packet AF)) → write_slot recorder ps w ≡ ok tt (w ++ ps)
  unfolding write_slot
  write_slot-recorder [] w = ap (ok tt) (sym (append-nil w))
  write_slot-recorder (p ∷ ps) w =
      write_slot-recorder ps (w ++ p ∷ []) ∙ ap (ok tt) (append_assoc w (p ∷ []) ps)

  drain_slots :
      (h : History AF) (base : ℕ) (w : List (Packet AF))
      → Spec.drain (write_slot recorder) base (slots_of h) w
        ≡ ok tt (record { base = base + ready h; slots = slots_of (waiting h) }, w ++ front h)
  unfolding Spec.drain write_slot
  drain_slots [] base w =
      ap₂ (λ b l. ok tt (record { base = b; slots = [] }, l)) (omega arith) (sym (append-nil w))
  drain_slots (none ∷ h) base w =
      ap₂ (λ b l. ok tt (record { base = b; slots = slots_of (none ∷ h) }, l)) (omega arith)
        (sym (append-nil w))
  drain_slots (some ps ∷ h) base w = rw (write_slot-recorder ps w) (
      drain_slots h (suc base) (w ++ ps)
      ∙ ap₂ (λ b l. ok tt (record { base = b; slots = slots_of (waiting h) }, l)) (omega arith)
          (append_assoc w ps (front h)))

  -- The queue shows the entries behind the front, and the packets of the front are written.
  pub record Shows (h : History AF) (a : OutputAssembler AF (List (Packet AF))) : Type 0 where
    pub valid : IsValid a.queue
    pub shown : view a.queue ≡ record { base = ready h; slots = slots_of (waiting h) }
    pub written : a.writer ≡ some (front h)

  -- A call succeeded and shows the history.
  abbrev pub Does :
      {A : Type 0} → History AF → Outcome (OutputAssembler AF (List (Packet AF))) A → Type 0
  Does h (ok x a) = Shows h a
  Does h (err e a) = ⊥

  pub drain-Does :
      (h k h' : History AF) (q : CommitQueue (List (Packet AF)))
      → IsValid q
      → view q ≡ record { base = ready h; slots = slots_of k }
      → Grows h k h'
      → Does h' (drain recorder (record { queue = q; writer = some (front h) }))
  unfolding drain
  drain-Does h k h' q v e g =
      let (same, valid) = drain_refines [] (write_slot recorder) q (front h) v in
      drained (CommitQueue.drain [] (write_slot recorder) (q, front h)) valid (
        same
        ∙ ap
            (λ (w : Window (List (Packet AF))).
              Spec.drain (write_slot recorder) w.base w.slots (front h))
            e
        ∙ drain_slots k (ready h) (front h))
    where
      drained :
          (o : Outcome (CommitQueue (List (Packet AF)) × List (Packet AF)) (Unit {0}))
          → IsValid (state_of o).0
          → map_state observed o
            ≡ ok tt (
              record { base = ready h + ready k; slots = slots_of (waiting k) },
              front h ++ front k,
            )
          → Does h' (assembled recorder o)
      drained (ok x (q', w)) v' e' = record {
        valid = v';
        shown =
            ap
              (λ (o : Outcome (Window (List (Packet AF)) × List (Packet AF)) (Unit {0})).
                (state_of o).0)
              e'
            ∙ ap₂ (λ n l. record { base = n; slots = slots_of l }) (sym g.ready_sum)
                (sym g.same_rest);
        written = ap some (
            ap
              (λ (o : Outcome (Window (List (Packet AF)) × List (Packet AF)) (Unit {0})).
                (state_of o).1)
              e'
            ∙ sym g.front_sum);
      }
      drained (err x (q', w)) v' e' = cc

  find-waiting :
      (h : History AF) (t : ℕ)
      → get_elem? h t ≡ some none
      → let w : Window (List (Packet AF)) = record {
        base = ready h;
        slots = slots_of (waiting h);
      } in
        find t w ≡ ok (record { value = []; ready = false }) w
  find-waiting h t e =
      let (le, at) = behind h t e in
      let at' = slot-at (waiting h) (t - ready h) at in
      let lt = get_elem?-lt (slots_of (waiting h)) (t - ready h) at' in
      rw (
        le→ltb t (ready h) le,
        lt→leb (ready h + length (slots_of (waiting h))) t (omega arith),
        at',
      )

  -- A slot that was reserved and is not committed yet can be committed.
  pub commit-Does :
      (h : History AF) (t : ℕ) (ps : List (Packet AF)) (a : OutputAssembler AF (List (Packet AF)))
      → Shows h a
      → get_elem? h t ≡ some none
      → Does (set h t (some ps)) (commit recorder (record { token = t; packets = ps }) a)
  unfolding commit
  commit-Does h t ps a s e =
      let (same, valid) = commit_refines t ps a.queue s.valid in
      committed (CommitQueue.commit t ps a.queue) valid (
        same
        ∙ ap (λ w. and_then (find t w) (λ _ v. ok tt (fill t ps v))) s.shown
        ∙ ap (λ o. and_then o (λ _ v. ok tt (fill t ps v))) (find-waiting h t e))
    where
      committed :
          (o : Outcome (CommitQueue (List (Packet AF))) (Unit {0}))
          → IsValid (state_of o)
          → map_state view o
            ≡ ok tt (fill t ps (record { base = ready h; slots = slots_of (waiting h) }))
          → Does (set h t (some ps)) (
              and_then
                (within
                  (λ (a : OutputAssembler AF (List (Packet AF))) q. record a { queue = q })
                  a
                  o)
                (λ _ a'. drain recorder a'))
      committed (ok x q) v f =
          let (le, _) = behind h t e in
          subst (λ w. Does (set h t (some ps)) (drain recorder (record { queue = q; writer = w })))
            (sym s.written)
            (drain-Does h (set (waiting h) (t - ready h) (some ps)) (set h t (some ps)) q v
              (ap state_of f
                ∙ ap (λ l. record { base = ready h; slots = l })
                    (slots_of-set (waiting h) (t - ready h) ps))
              (set-Grows h t (t - ready h) (some ps) (omega arith)))
      committed (err x q) v f = cc

  pub reserve-Does :
      (h : History AF) (a : OutputAssembler AF (List (Packet AF)))
      → Shows h a
      → length h + 1 < token_count
      → ((reserve a).0 ≡ length h) × Shows (h ++ none ∷ []) (reserve a).1
  unfolding reserve
  reserve-Does h a s l =
      let g = append-Waits h in
      let q = a.queue in
      let n = length-slots_of (waiting h) in
      let d = length-drop q.head q.slots in
      let b = ap (λ (w : Window (List (Packet AF))). w.base) s.shown in
      let m = ap (λ (w : Window (List (Packet AF))). length w.slots) s.shown in
      let next : q.next ≡ length h = omega (arith, s.valid.counted, n, b, m, d, length-waiting h) in
      let (tok, same, valid) = (reserve_refines q [] [] s.valid (omega arith)).0 in
      (
        omega (arith, tok, n, b, m, length-waiting h),
        record {
          valid = valid;
          shown =
              same
              ∙ ap (extend (record { value = []; ready = false })) s.shown
              ∙ ap₂ (λ n l. record { base = n; slots = l }) (sym g.same_ready)
                  (sym (ap slots_of g.one_more ∙ slots_of-append (waiting h) (none ∷ [])));
          written = s.written ∙ ap some (sym g.same_front);
        },
      )
