-- ===== src/Codecs/PesQueue/Delivery.antt =====
-- What the queue of pending PES records does to the handler behind it: the data goes out unchanged,
-- and the calls follow the protocol of `PESHandler`.
use native.Mathlib.Nat.{zero-add, le_refl}
use mpegenc.Common.{
  ℕ, zero, suc, ◌+◌, ◌-◌, ◌≤◌, ◌<◌, ◌≡◌, ◌≢◌, refl, sym, ap, subst, ◌∙◌, ◌⊎◌, inl, inr, min, Bool,
  true, false, ◌&&◌, List, [], ◌∷◌, ◌++◌, append-nil, append_assoc, Bytes, arith, length, take,
  drop, ◌==◌, Outcome, ok, err, and_then, Bool-cases, ==_false, length-drop, take-append-drop,
}
use mpegenc.Packets.Pes.Strict.{Downstream, strict}
use mpegenc.Codecs.PesQueue.{
  PendingPes, Transformer, start_pes, finish_loop, finish_pes, write_round, write_loop, write,
}

-- The bytes that the records still wait for.
abbrev pub total : List PendingPes → ℕ
total [] = 0
total (p ∷ ps) = p.bytes + total ps

-- Only the last record may wait for its end.
abbrev EndedBefore : PendingPes → List PendingPes → Type 0
EndedBefore p ps = (ps ≡ []) ⊎ (p.ended ≡ true)

-- Behind the front no record is started.
abbrev Waiting : List PendingPes → Type 0
Waiting [] = Unit
Waiting (p ∷ ps) = (p.started ≡ false) × EndedBefore p ps × Waiting ps

abbrev pub IsQueue : Bool → List PendingPes → Type 0
IsQueue opened [] = opened ≡ false
IsQueue opened (p ∷ ps) = (opened ≡ p.started) × EndedBefore p ps × Waiting ps

-- The front is not to be closed now.
abbrev pub Settled : List PendingPes → Type 0
Settled [] = Unit
Settled (p ∷ ps) = p.ended && p.bytes == 0 ≡ false

front_waits : (ps : List PendingPes) → Waiting ps → IsQueue false ps
front_waits [] w = refl
front_waits (p ∷ ps) (s, e, w) = (sym s, e, w)

module _ {B : Type 0} where
  -- The records in order, agreeing with what is open behind, none of them overdue.
  pub record IsValid (t : Transformer Downstream B) : Type 0 where
    pub queue : IsQueue t.next.open_pes t.pes
    pub settled : Settled t.pes

  -- It succeeds, has passed on `bytes`, waits for `n` more, and holds the buffer and the block `kept`.
  abbrev pub Delivers :
      {A : Type 0} → Bytes → ℕ → Bytes × B → Outcome (Transformer Downstream B) A → Type 0
  Delivers bytes n kept (ok a t) =
      IsValid t × (t.next.bytes ≡ bytes) × (total t.pes ≡ n) × ((t.buffer, t.block) ≡ kept)
  Delivers bytes n kept (err e t) = ⊥

  opened_next : Transformer Downstream B → Transformer Downstream B
  opened_next t = record t { next = record (t.next) { open_pes = true } }

  start_front :
      (p : PendingPes) (t : Transformer Downstream B)
      → t.next.open_pes ≡ p.started
      → start_pes strict p t ≡ ok tt (opened_next t)
  unfolding start_pes opened_next
  start_front p t h = elim (Bool-cases p.started) [
    | inl s ↦ rw s (ap (λ o. ok tt (record t { next = record (t.next) { open_pes = o } })) (h ∙ s))
    | inr s ↦ rw (s, h ∙ s) refl
  ]

  finish_loop-Delivers :
      (ps : List PendingPes) (t : Transformer Downstream B)
      → t.pes ≡ ps
      → IsQueue t.next.open_pes ps
      → Delivers t.next.bytes (total ps) (t.buffer, t.block) (finish_loop strict ps t)
  unfolding finish_loop opened_next
  finish_loop-Delivers [] t e q = (
    record {
      queue = subst (IsQueue t.next.open_pes) (sym e) q;
      settled = subst Settled (sym e) tt;
    },
    refl,
    ap total e,
    refl,
  )
  finish_loop-Delivers (p ∷ ps) t e (o, l, w) = elim (Bool-cases (p.ended && p.bytes == 0)) [
    | inl s ↦
        let z : p.bytes ≡ 0 = ground arith in
        rw (s, start_front p t o, z, zero-add)
          (finish_loop-Delivers ps
            (record t { next = record (t.next) { open_pes = false }; pes = ps }) refl
            (front_waits ps w))
    | inr s ↦
        rw (s, finish_loop)
          (
            record {
              queue = subst (IsQueue t.next.open_pes) (sym e) (o, l, w);
              settled = subst Settled (sym e) s;
            },
            refl,
            ap total e,
            refl,
          )
  ]

  -- A round leaves less to do: what has gone out and the rest are `stream`, and `r` more bytes are
  -- waited for behind the rest.
  abbrev Passes : Bytes → ℕ → Bytes × B → ℕ → Outcome (Transformer Downstream B) Bytes → Type 0
  Passes stream r kept l (ok rest t) =
      IsValid t
      × (t.next.bytes ++ rest ≡ stream)
      × (total t.pes ≡ length rest + r)
      × ((t.buffer, t.block) ≡ kept)
      × (length rest < l)
  Passes stream r kept l (err e t) = ⊥

  after_piece :
      (o : Outcome (Transformer Downstream B) (Unit {0})) (bytes rest : Bytes) (n r l : ℕ)
      (stream : Bytes) (kept : Bytes × B)
      → Delivers bytes n kept o
      → bytes ++ rest ≡ stream
      → n ≡ length rest + r
      → length rest < l
      → Passes stream r kept l (and_then o (λ _ t. ok rest t))
  after_piece (ok a t) bytes rest n r l stream kept (v, b, m, f) e h k =
      (v, ap (λ x. x ++ rest) b ∙ e, m ∙ h, f, k)
  after_piece (err x t) bytes rest n r l stream kept d e h k = absurd d

  write_round-Passes :
      (out : Bytes) (ps : List PendingPes) (t : Transformer Downstream B) (r : ℕ)
      → t.pes ≡ ps
      → IsQueue t.next.open_pes ps
      → Settled ps
      → total ps ≡ length out + r
      → 0 < length out
      → Passes
          (t.next.bytes ++ out)
          r
          (t.buffer, t.block)
          (length out)
          (write_round strict out ps t)
  unfolding write_round finish_pes opened_next
  write_round-Passes out [] t r e q s m l = absurd (omega arith)
  write_round-Passes out (p ∷ ps) t r e (o, b, w) s m l =
      let n = min (length out) p.bytes in
      let pos : p.bytes ≢ 0 =
        λ z. elim b [ inl x ↦ omega (arith, ap total x) | inr x ↦ ground arith ] in
      let t2 = record t {
        next = record { open_pes = true; bytes = t.next.bytes ++ take n out };
        pes = record p { started = true; bytes = p.bytes - n } ∷ ps;
      } in
      rw (==_false p.bytes 0 pos, start_front p t o)
        (after_piece (finish_loop strict t2.pes t2) (t.next.bytes ++ take n out) (drop n out)
          (p.bytes - n + total ps) r (length out) (t.next.bytes ++ out) (t.buffer, t.block)
          (finish_loop-Delivers t2.pes t2 refl (refl, b, w))
          (append_assoc t.next.bytes (take n out) (drop n out)
            ∙ ap (◌++◌ t.next.bytes) (take-append-drop n out))
          (omega (arith, length-drop n out)) (omega (arith, length-drop n out)))

  after_round :
      (f : ℕ) (o : Outcome (Transformer Downstream B) Bytes) (stream : Bytes) (kept : Bytes × B)
      (r l : ℕ)
      → Passes stream r kept l o
      → ((rest : Bytes) (t : Transformer Downstream B)
          → Passes stream r kept l (ok rest t)
          → Delivers stream r kept (write_loop strict f rest t))
      → Delivers stream r kept (and_then o (λ rest t. write_loop strict f rest t))
  after_round f (ok rest t) stream kept r l p k = k rest t p
  after_round f (err e t) stream kept r l p k = absurd p

  write_loop-Delivers :
      (f : ℕ) (out : Bytes) (t : Transformer Downstream B) (stream : Bytes) (kept : Bytes × B)
      (r : ℕ)
      → IsValid t
      → t.next.bytes ++ out ≡ stream
      → total t.pes ≡ length out + r
      → (t.buffer, t.block) ≡ kept
      → length out ≤ f
      → Delivers stream r kept (write_loop strict f out t)
  unfolding write_loop
  write_loop-Delivers f [] t stream kept r v e m b h =
      (v, sym (append-nil t.next.bytes) ∙ e, omega arith, b)
  write_loop-Delivers zero (x ∷ out) t stream kept r v e m b h = absurd (omega arith)
  write_loop-Delivers (suc f) (x ∷ out) t stream kept r v e m b h =
      after_round f (write_round strict (x ∷ out) t.pes t) stream kept r (suc (length out))
        (subst (λ c. Passes stream r c (suc (length out)) (write_round strict (x ∷ out) t.pes t)) b
          (subst
            (λ c.
              Passes c r (t.buffer, t.block) (suc (length out))
                (write_round strict (x ∷ out) t.pes t))
            e (write_round-Passes (x ∷ out) t.pes t r refl v.queue v.settled m (omega arith))))
        (λ rest t' (v', e', m', b', l').
          write_loop-Delivers f rest t' stream kept r v' e' m' b' (omega arith))

  -- Delayed data for which the pending PES records have bytes enough is written without an error to
  -- the strict handler, which refuses calls out of turn and keeps the elementary bytes: so every PES
  -- is opened before its payload and closed before the next. The elementary bytes are then those
  -- before and the data, in order, and exactly the data is taken off the records. The queue stays in
  -- order, and no record that can be closed is left in front.
  pub write-Delivers :
      (out : Bytes) (t : Transformer Downstream B)
      → IsValid t
      → length out ≤ total t.pes
      → Delivers
          (t.next.bytes ++ out)
          (total t.pes - length out)
          (t.buffer, t.block)
          (write strict out t)
  unfolding write
  write-Delivers out t v h =
      write_loop-Delivers (length out) out t (t.next.bytes ++ out) (t.buffer, t.block)
        (total t.pes - length out) v refl (omega arith) refl (le_refl (length out))
