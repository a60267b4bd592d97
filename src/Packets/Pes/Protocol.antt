-- ===== src/Packets/Pes/Protocol.antt =====
-- The collector calls its handler in turn and ends on every payload.
use mpegenc.Common.{
  ℕ, zero, suc, ◌<◌, ◌≡◌, refl, sym, ap, subst, ◌⊎◌, inl, inr, is_positive, Bool, true, false, not,
  [], ◌∷◌, Bytes, arith, length, ◌==◌, if◌then◌else◌, Method, Outcome, ok, err, and_then, Error,
  Bool-cases, truncated_header, truncated_payload,
}
use mpegenc.Packets.Pes.{
  PesCollector, header_missing, start, needed, finish, round, consume_loop, begin, consume, flush,
}
use mpegenc.Packets.Pes.Strict.{Downstream, strict}
use mpegenc.Packets.Pes.Stage.{
  Stage, rests, in_header, in_payload, Collects, Rounds, Closes, IsPesError, header_round-Rounds,
  payload_round-Rounds, finish-Closes, finish_closed,
}

missing_in_header : (m : PesCollector) → length m.header < needed m → header_missing m ≡ true
missing_in_header m h = elim (Bool-cases (m.header_length == 0)) [
  | inl d ↦ ground arith
  | inr d ↦ ground arith
]

on_true {ℓ κ} :
    {A : Type ℓ} (c : Bool) (P : A → Type κ) (x y : A) → c ≡ true → P x → P (if c then x else y)
on_true c P x y h p = subst (λ d. P (if d then x else y)) (sym h) p

on_false {ℓ κ} :
    {A : Type ℓ} (c : Bool) (P : A → Type κ) (x y : A) → c ≡ false → P y → P (if c then x else y)
on_false c P x y h p = subst (λ d. P (if d then x else y)) (sym h) p

round-Rounds :
    (bs : Bytes) (m : PesCollector) (w : Downstream)
    → Stage m w
    → 0 < length bs
    → Rounds (length bs) (round strict bs (m, w))
unfolding round
round-Rounds bs m w (rests a o) l = rw (a, round) (inl refl)
round-Rounds bs m w (in_header a h o) l =
    on_false (not m.active) (Rounds (length bs)) _ _ (ap not a) (
      on_true (header_missing m) (Rounds (length bs)) _ _ (missing_in_header m h)
        (header_round-Rounds bs m w a h o l))
round-Rounds bs m w (in_payload a h z o) l =
    on_false (not m.active) (Rounds (length bs)) _ _ (ap not a) (
      on_false (header_missing m) (Rounds (length bs)) _ _ h
        (payload_round-Rounds bs m w a h z o l))

after_round :
    (f : ℕ) (o : Outcome (PesCollector × Downstream) Bytes) (l : ℕ)
    → Rounds l o
    → l < suc (suc f)
    → ((bs : Bytes) (m : PesCollector) (w : Downstream)
        → Stage m w
        → length bs < suc f
        → Collects (consume_loop strict f bs (m, w)))
    → Collects (and_then o (λ rest s. consume_loop strict f rest s))
after_round f (ok rest s) l r h k = k rest s.0 s.1 r.0 (omega arith)
after_round f (err e s) l r h k = r

loop-Collects :
    (f : ℕ) (bs : Bytes) (m : PesCollector) (w : Downstream)
    → Stage m w
    → length bs < suc f
    → Collects (consume_loop strict f bs (m, w))
unfolding consume_loop
loop-Collects f [] m w g h = g
loop-Collects zero (b ∷ bs) m w g h = absurd (omega arith)
loop-Collects (suc f) (b ∷ bs) m w g h =
    after_round f (round strict (b ∷ bs) (m, w)) (length (b ∷ bs))
      (round-Rounds (b ∷ bs) m w g (omega arith)) h (loop-Collects f)

started : (m : PesCollector) (w : Downstream) → w.open_pes ≡ false → Stage (start m) w
unfolding start
started m w o = in_header refl (omega arith) o

abbrev restart : Unit {0} → Method (PesCollector × Downstream) (Unit {0})
restart a s = ok tt (start s.0, s.1)

restarted :
    (o : Outcome (PesCollector × Downstream) (Unit {0}))
    → Closes IsPesError o
    → Collects (and_then o restart)
restarted (ok a s) c = started s.0 s.1 c.1
restarted (err e s) c = c

begin-Collects :
    (pusi : Bool) (m : PesCollector) (w : Downstream)
    → Stage m w
    → Collects (begin strict pusi (m, w))
unfolding begin finish
begin-Collects false m w g = g
begin-Collects true m w g =
    restarted (if m.active then finish strict (m, w) else ok tt (m, w)) (before g)
  where
    before : Stage m w → Closes IsPesError (if m.active then finish strict (m, w) else ok tt (m, w))
    before (rests a o) = on_false m.active (Closes IsPesError) _ _ a (a, o)
    before (in_header a h o) = on_true m.active (Closes IsPesError) _ _ a (
        on_true (header_missing m) (Closes IsPesError) _ _ (missing_in_header m h)
          (inr (inr (inr (inl refl)))))
    before (in_payload a h z o) = on_true m.active (Closes IsPesError) _ _ a (finish-Closes m w h o)

-- Between two payloads the collector and its handler agree on what is open, whatever the payloads
-- hold: `Consume` calls the handler in turn, so that a handler that refuses a call out of turn never
-- refuses one, it ends, and its only errors are that the input has bytes behind a declared length, no
-- start code, a length below the header's, or a new PES before the last is complete.
pub consume-Collects :
    (pusi : Bool) (payload : Bytes) (m : PesCollector) (w : Downstream)
    → Stage m w
    → Collects (consume strict pusi payload (m, w))
unfolding consume
consume-Collects pusi payload m w g = go (begin strict pusi (m, w)) (begin-Collects pusi m w g)
  where
    go :
        (o : Outcome (PesCollector × Downstream) (Unit {0}))
        → Collects o
        → Collects (
            and_then o (λ _ s.
              if s.0.active then consume_loop strict (length payload) payload s else ok tt s))
    go (ok a s) c = elim (Bool-cases s.0.active) [
      | inl x ↦
          on_true s.0.active Collects _ _ x
            (loop-Collects (length payload) payload s.0 s.1 c (omega arith))
      | inr x ↦ on_false s.0.active Collects _ _ x c
    ]
    go (err e s) c = c

abbrev pub IsTruncation : Error → Type 0
IsTruncation e = (e ≡ truncated_header) ⊎ (e ≡ truncated_payload)

-- `Flush` at the end of the input leaves neither the collector nor the handler with an open PES, or
-- says that a header or a payload is truncated.
pub flush-Closes :
    (m : PesCollector) (w : Downstream) → Stage m w → Closes IsTruncation (flush strict (m, w))
unfolding flush
flush-Closes m w (rests a o) = on_true (not m.active) (Closes _) _ _ (ap not a) (a, o)
flush-Closes m w (in_header a h o) =
    on_false (not m.active) (Closes _) _ _ (ap not a)
      (on_true (header_missing m) (Closes _) _ _ (missing_in_header m h) (inl refl))
flush-Closes m w (in_payload a h z o) = on_false (not m.active) (Closes _) _ _ (ap not a) (
    on_false (header_missing m) (Closes _) _ _ h
      (elim (Bool-cases (is_positive m.payload_remaining)) [
        | inl p ↦ on_true (is_positive m.payload_remaining) (Closes _) _ _ p (inr refl)
        | inr p ↦
            on_false (is_positive m.payload_remaining) (Closes _) _ _ p
              (subst (Closes _) (sym (finish_closed m w h p o)) (refl, refl))
      ]))
