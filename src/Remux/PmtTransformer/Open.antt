-- ===== src/Remux/PmtTransformer/Open.antt =====
-- The PMT transformer in front of the assembler: it completes only slots that are open, and what it
-- holds stays open.
use mpegenc.Common.{
  ℕ, ◌+◌, ◌≡◌, refl, sym, ap, subst, not, Option, none, some, List, [], ◌∷◌, ◌++◌, arith, length,
  copies, copies-append, get_or, drop, ltb, ◌==◌, ◌*◌, ◌%◌, Outcome, ok, err, and_then, within,
  external, Leaves, on_ok, on_err, Leaves-if, insert,
}
use mpegenc.Astits.{Packet}
use mpegenc.Astits.Tables.{Tables, PsiSection}
use mpegenc.Pmt.{Patch, ElementaryStream}
use mpegenc.Packets.Pmt.{PmtCollector}
use mpegenc.Packets.Pmt
use mpegenc.Packets.Pmt.Errors as PmtErrors
use mpegenc.Packets.Pes.Guards.{Anything}
use mpegenc.Output.Assembler.{OutputAssembler, commit}
use mpegenc.Output.Assembler.History.{History}
use mpegenc.Output.Assembler.Steps.{recorder}
use mpegenc.Output.Assembler.Open.{one_at, Open, Open-same, commit-Open}
use mpegenc.Remux.PmtTransformer.{
  PendingPmt, PmtTransformer, all_signalled, all_stuffing, patch_section, packetize_failed,
  output_packet, complete_loop, complete_ready, signal, collect_pmt, initialize, queue_section,
  consume, streams_of,
}
use mpegenc.Remux.PmtTransformer.Held.{tokens_held, tokens_held-append}
use mpegenc.Remux.PmtTransformer.Answered.{initialize-pending}

module _ {AF : Type 0} (lib : Tables AF) (base : History AF) where
  abbrev pub Out : Type 0
  Out = OutputAssembler AF (List (Packet AF))

  -- The open slots are those of the held PMTs and those that `out` counts.
  abbrev pub OpenWith : (ℕ → ℕ) → List (PendingPmt AF) → Out → Type 0
  OpenWith out qs o = Open base (λ t. out t + copies t (tokens_held lib qs)) o

  abbrev pub Stands : (ℕ → ℕ) → PmtTransformer AF × Out → Type 0
  Stands out s = OpenWith out s.0.pending s.1

  after_commit :
      {C : Type 0} (out : ℕ → ℕ) (o : Outcome Out (Unit {0})) (qs : List (PendingPmt AF))
      (p' : PmtTransformer AF) (f : Out → Outcome (PmtTransformer AF × Out) C)
      → Leaves (OpenWith out qs) o
      → ((o' : Out) → OpenWith out qs o' → Leaves (Stands out) (f o'))
      → Leaves (Stands out) (elim o [ err e o' ↦ err e (p', o') | ok _ o' ↦ f o' ])
  after_commit out (ok x o') qs p' f (on_ok h) k = k o' h
  after_commit out (err e o') qs p' f (on_err m) k = on_err m

  complete_loop-Leaves :
      (out : ℕ → ℕ) (done qs : List (PendingPmt AF)) (p : PmtTransformer AF) (o : Out)
      → OpenWith out qs o
      → Leaves (Stands out) (complete_loop lib (commit recorder) done qs (p, o))
  unfolding complete_loop
  complete_loop-Leaves out done [] p o h = on_ok h
  complete_loop-Leaves out done (q ∷ qs) p o h =
      let q' = record q { section = patch_section p.patches q.section } in
      sent (output_packet lib (commit {AF = AF} recorder) p.patches q) (λ packet.
        after_commit out (commit recorder (record { token = q.token; packets = packet ∷ [] }) o) qs
          (record p { pending = done ++ q' ∷ qs })
          (λ o'. complete_loop lib (commit recorder) (done ++ q' ∷ []) qs (p, o'))
          (commit-Open base (λ t. out t + copies t (tokens_held lib (q ∷ qs)))
            (λ t. out t + copies t (tokens_held lib qs))
            (record { token = q.token; packets = packet ∷ [] }) o tt h (λ t. omega arith))
          (λ o' h'. complete_loop-Leaves out (done ++ q' ∷ []) qs p o' h'))
    where
      sent :
          (x : Option (Packet AF))
          → ((packet : Packet AF)
              → Leaves {A = Unit {0}}
                  (Stands out)
                  (elim (commit recorder (record { token = q.token; packets = packet ∷ [] }) o) [
                    | err e c' ↦ err e (
                      record p {
                        pending =
                            done ++ record q { section = patch_section p.patches q.section } ∷ qs;
                      },
                      c',
                    )
                    | ok _ c' ↦
                        complete_loop lib
                          (commit recorder)
                          (done ++ record q { section = patch_section p.patches q.section } ∷ [])
                          qs
                          (p, c')
                  ]))
          → Leaves {A = Unit {0}} (Stands out) (elim x [
            | none ↦ err (external packetize_failed) (
              record p {
                pending = done ++ record q { section = patch_section p.patches q.section } ∷ qs;
              },
              o,
            )
            | some packet ↦
                elim (commit recorder (record { token = q.token; packets = packet ∷ [] }) o) [
                  | err e c' ↦ err e (
                    record p {
                      pending =
                          done ++ record q { section = patch_section p.patches q.section } ∷ qs;
                    },
                    c',
                  )
                  | ok _ c' ↦
                      complete_loop lib
                        (commit recorder)
                        (done ++ record q { section = patch_section p.patches q.section } ∷ [])
                        qs
                        (p, c')
                ]
          ])
      sent none k = on_err refl
      sent (some packet) k = k packet

  pub complete_ready-Leaves :
      (out : ℕ → ℕ) (p : PmtTransformer AF) (o : Out)
      → Stands out (p, o)
      → Leaves (Stands out) (complete_ready lib (commit recorder) (p, o))
  unfolding complete_ready
  complete_ready-Leaves out p o h =
      Leaves-if (not (all_signalled p.patches)) (ok tt (p, o))
        (complete_loop lib (commit recorder) [] p.pending (p, o)) (on_ok h)
        (complete_loop-Leaves out [] p.pending p o h)

  pub signal-Leaves :
      (out : ℕ → ℕ) (pid : ℕ) (patch : Patch) (p : PmtTransformer AF) (o : Out)
      → Stands out (p, o)
      → Leaves (Stands out) (signal lib (commit recorder) pid patch (p, o))
  unfolding signal
  signal-Leaves out pid patch p o h =
      complete_ready-Leaves out (record p { patches = insert pid (some patch) p.patches }) o h

  abbrev SamePending : PmtTransformer AF → PmtTransformer AF → Type 0
  SamePending p p' = p'.pending ≡ p.pending

  collected-Leaves :
      (p : PmtTransformer AF) (o : Outcome PmtCollector (Option PsiSection))
      → Leaves Anything o
      → Leaves
          (SamePending p)
          (within (λ (p : PmtTransformer AF) c. record p { collector = c }) p o)
  collected-Leaves p (ok a c) (on_ok u) = on_ok refl
  collected-Leaves p (err e c) (on_err m) = on_err m

  collect_pmt-Leaves :
      (packet : Packet AF) (p : PmtTransformer AF)
      → Leaves (SamePending p) (collect_pmt lib packet p)
  unfolding collect_pmt
  collect_pmt-Leaves packet p =
      let payload = packet.payload in
      let section_length = get_or payload 2 0 % 16 * 256 + get_or payload 3 0 in
      Leaves-if (not packet.head.has_payload) (ok none p) _ (on_ok refl) (
        Leaves-if (not packet.head.payload_unit_start) _ _ (on_err refl) (
          Leaves-if (ltb (length payload) 4) _ _ (on_err refl) (
            Leaves-if (not (get_or payload 0 0 == 0)) _ _ (on_err refl) (
              Leaves-if (ltb (length payload) (4 + section_length)) _ _ (on_err refl) (
                Leaves-if (not (all_stuffing (drop (4 + section_length) payload))) _ _ (on_err refl)
                  (collected-Leaves p
                    (Pmt.consume lib packet.head.payload_unit_start payload p.collector)
                    (PmtErrors.consume-Quiet lib packet.head.payload_unit_start payload
                      p.collector)))))))

  queue_section-Leaves :
      (out : ℕ → ℕ) (token : ℕ) (packet : Packet AF) (section : PsiSection) (p : PmtTransformer AF)
      (o : Out)
      → OpenWith (λ t. one_at token t + out t) p.pending o
      → Leaves (Stands out) (queue_section lib (commit recorder) token packet section (p, o))
  unfolding queue_section
  queue_section-Leaves out token packet section p o h =
      let p1 = initialize lib (commit {AF = AF} recorder) (streams_of section) p in
      let q : PendingPmt AF = record { token = token; packet = packet; section = section } in
      then_ok
        (complete_ready lib (commit recorder) (record p1 { pending = p1.pending ++ q ∷ [] }, o)) _
        (complete_ready-Leaves out (record p1 { pending = p1.pending ++ q ∷ [] }) o
          (Open-same base (λ t. one_at token t + out t + copies t (tokens_held lib p.pending))
            (λ t. out t + copies t (tokens_held lib (p1.pending ++ q ∷ []))) o h
            (λ t.
              let e =
                ap (λ qs. copies t (tokens_held lib qs))
                  (initialize-pending lib (commit {AF = AF} recorder) (streams_of section) p) in
              omega (
                arith,
                e,
                ap (copies t) (tokens_held-append lib p1.pending (q ∷ [])),
                copies-append t (tokens_held lib p1.pending) (token ∷ []),
              ))))
    where
      then_ok :
          {A : Type 0} (r : Outcome (PmtTransformer AF × Out) (Unit {0})) (a : A)
          → Leaves (Stands out) r
          → Leaves (Stands out) (and_then r (λ _ s. ok a s))
      then_ok (ok x s) a (on_ok h) = on_ok h
      then_ok (err e s) a (on_err m) = on_err m

  -- When a packet is given to the transformer, let its slot be open, with those of the PMTs that it
  -- holds and others that `out` counts. Afterwards the open slots are exactly those of the PMTs that
  -- it holds then, and the others: every slot that it no longer holds was committed, once, with one
  -- packet, and no other slot was changed. If it
  -- fails, it is not by an error of the output's slots. It takes a writer that accepts every packet.
  pub consume-Stands :
      (out : ℕ → ℕ) (token : ℕ) (packet : Packet AF) (p : PmtTransformer AF) (o : Out)
      → OpenWith (λ t. one_at token t + out t) p.pending o
      → Leaves (Stands out) (consume lib (commit recorder) token packet (p, o))
  unfolding consume
  consume-Stands out token packet p o h =
      collected (collect_pmt lib packet p) (collect_pmt-Leaves packet p)
    where
      with_slot :
          (p' : PmtTransformer AF) (r : Outcome Out (Unit {0}))
          → Leaves (OpenWith out p'.pending) r
          → Leaves {A = Option (List ElementaryStream)}
              (Stands out)
              (elim r [ err e c' ↦ err e (p', c') | ok _ c' ↦ ok none (p', c') ])
      with_slot p' (ok x o') (on_ok h) = on_ok h
      with_slot p' (err e o') (on_err m) = on_err m

      collected :
          (r : Outcome (PmtTransformer AF) (Option PsiSection))
          → Leaves (SamePending p) r
          → Leaves {A = Option (List ElementaryStream)} (Stands out) (elim r [
            | err e p' ↦ err e (p', o)
            | ok none p' ↦
                elim (commit recorder (record { token = token; packets = packet ∷ [] }) o) [
                  | err e c' ↦ err e (p', c')
                  | ok _ c' ↦ ok none (p', c')
                ]
            | ok (some section) p' ↦
                queue_section lib (commit recorder) token packet section (p', o)
          ])
      collected (err e p') (on_err m) = on_err m
      collected (ok none p') (on_ok s) =
          with_slot p' (commit recorder (record { token = token; packets = packet ∷ [] }) o) (
            commit-Open base (λ t. one_at token t + out t + copies t (tokens_held lib p'.pending))
              (λ t. out t + copies t (tokens_held lib p'.pending))
              (record { token = token; packets = packet ∷ [] }) o tt
              (subst (λ qs. OpenWith (λ t. one_at token t + out t) qs o) (sym s) h)
              (λ t. omega arith))
      collected (ok (some section) p') (on_ok s) =
          queue_section-Leaves out token packet section p' o
            (subst (λ qs. OpenWith (λ t. one_at token t + out t) qs o) (sym s) h)
