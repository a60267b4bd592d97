-- ===== src/Packets/Pes/Guarded.antt =====
-- The PES collector reaches its handler's state by the handler's calls alone.
use mpegenc.Common.{
  ℕ, zero, suc, refl, Bool, true, false, [], ◌∷◌, Bytes, length, drop, if◌then◌else◌, Method,
  Outcome, ok, err, and_then, within, Leaves, on_ok, on_err, Leaves-if,
}
use mpegenc.Packets.Pes.{
  PesHandler, PesCollector, read_lengths, check_header, consume_header, header_missing, on_handler,
  finish, finish_if_done, header_round, payload_round, round, consume_loop, begin, consume, flush,
}
use mpegenc.Packets.Pes.Guards.{Guards, Anything}

abbrev pub BehindPair : {M W : Type 0} → (W → Type 0) → M × W → Type 0
BehindPair I s = I s.1

module _ {W : Type 0} (I : W → Type 0) where
  call-Leaves :
      {A : Type 0} (m : PesCollector) (s : PesCollector × W) (o : Outcome W A)
      → Leaves I o
      → Leaves (BehindPair I) (within (λ (_ : PesCollector × W) w'. (m, w')) s o)
  call-Leaves m s (ok a w) (on_ok h) = on_ok h
  call-Leaves m s (err e w) (on_err n) = on_err n

  then-Leaves :
      {A C : Type 0} (o : Outcome (PesCollector × W) A) (f : A → Method (PesCollector × W) C)
      → Leaves (BehindPair I) o
      → ((a : A) (m : PesCollector) (w : W) → I w → Leaves (BehindPair I) (f a (m, w)))
      → Leaves (BehindPair I) (and_then o f)
  then-Leaves (ok a (m, w)) f (on_ok h) k = k a m w h
  then-Leaves (err e s) f (on_err n) k = on_err n

ruleset pair_rules = (Leaves-if, then-Leaves, call-Leaves, on_ok, on_err, refl)

-- Errors of the format only.
header-Leaves : (payload : Bytes) (m : PesCollector) → Leaves Anything (consume_header payload m)
unfolding consume_header check_header read_lengths
header-Leaves payload m = search (Leaves-if, on_ok, on_err, refl) depth 12

module _ {W : Type 0} (handler : PesHandler W) (I : W → Type 0) (guards : Guards handler I) where
  abbrev Keeps : {A : Type 0} → Outcome (PesCollector × W) A → Type 0
  Keeps o = Leaves (BehindPair I) o

  finish-Leaves : (m : PesCollector) (w : W) → I w → Keeps (finish handler (m, w))
  unfolding finish
  finish-Leaves m w h = search (pair_rules, guards.guards_end)

  finish_if_done-Leaves : (m : PesCollector) (w : W) → I w → Keeps (finish_if_done handler (m, w))
  unfolding finish_if_done
  finish_if_done-Leaves m w h = search (pair_rules, finish-Leaves)

  header_round-Leaves :
      (payload : Bytes) (m : PesCollector) (w : W)
      → I w
      → Keeps (header_round handler payload (m, w))
  unfolding header_round
  header_round-Leaves payload m w h = taken (consume_header payload m) (header-Leaves payload m)
    where
      taken :
          (o : Outcome PesCollector ℕ)
          → Leaves Anything o
          → Keeps {A = Bytes} (elim o [
            | err e m' ↦ err e (m', w)
            | ok n m' ↦
                if header_missing m'
                then ok (drop n payload) (m', w)
                else and_then
                    (on_handler handler (handler.pes_header m'.header) (m', w))
                    (λ _ s. and_then (finish_if_done handler s) (λ _ s'. ok (drop n payload) s'))
          ])
      taken (ok n m') l = search (pair_rules, guards.guards_header, finish_if_done-Leaves) depth 8
      taken (err e m') (on_err n) = on_err n

  payload_round-Leaves :
      (payload : Bytes) (m : PesCollector) (w : W)
      → I w
      → Keeps (payload_round handler payload (m, w))
  unfolding payload_round
  payload_round-Leaves payload m w h =
      search (pair_rules, guards.guards_payload, finish_if_done-Leaves) depth 8

  round-Leaves :
      (payload : Bytes) (m : PesCollector) (w : W) → I w → Keeps (round handler payload (m, w))
  unfolding round
  round-Leaves payload m w h = search (pair_rules, header_round-Leaves, payload_round-Leaves)

  consume_loop-Leaves :
      (f : ℕ) (payload : Bytes) (m : PesCollector) (w : W)
      → I w
      → Keeps (consume_loop handler f payload (m, w))
  unfolding consume_loop
  consume_loop-Leaves f [] m w h = on_ok h
  consume_loop-Leaves zero (b ∷ payload) m w h = on_err refl
  consume_loop-Leaves (suc f) (b ∷ payload) m w h =
      then-Leaves I (round handler (b ∷ payload) (m, w)) (λ rest s'. consume_loop handler f rest s')
        (round-Leaves (b ∷ payload) m w h) (λ rest m' w' h'. consume_loop-Leaves f rest m' w' h')

  begin-Leaves : (pusi : Bool) (m : PesCollector) (w : W) → I w → Keeps (begin handler pusi (m, w))
  unfolding begin
  begin-Leaves false m w h = on_ok h
  begin-Leaves true m w h = search (pair_rules, finish-Leaves)

  pub consume-Leaves :
      (pusi : Bool) (payload : Bytes) (m : PesCollector) (w : W)
      → I w
      → Keeps (consume handler pusi payload (m, w))
  unfolding consume
  consume-Leaves pusi payload m w h =
      then-Leaves I (begin handler pusi (m, w))
        (λ _ s'. if s'.0.active then consume_loop handler (length payload) payload s' else ok tt s')
        (begin-Leaves pusi m w h)
        (λ _ m' w' h'.
          Leaves-if m'.active (consume_loop handler (length payload) payload (m', w'))
            (ok tt (m', w')) (consume_loop-Leaves (length payload) payload m' w' h') (on_ok h'))

  pub flush-Leaves : (m : PesCollector) (w : W) → I w → Keeps (flush handler (m, w))
  unfolding flush
  flush-Leaves m w h = search (pair_rules, finish-Leaves) depth 8
