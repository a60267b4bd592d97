-- ===== src/Codecs/PesQueue/Guarded.antt =====
-- The methods that the audio transformers share reach what is behind them by the handler's calls alone.
use mpegenc.Common.{
  ℕ, zero, suc, ◌-◌, ◌≡◌, refl, min, ◌&&◌, not, Bool, true, false, List, [], ◌∷◌, ◌++◌, Bytes,
  length, take, drop, ltb, ◌==◌, if◌then◌else◌, Method, Outcome, ok, err, and_then, Leaves, on_ok,
  on_err, Leaves-if, Leaves-and_then, within, Leaves-map,
}
use mpegenc.Packets.Pes.{PesHandler}
use mpegenc.Packets.Pes.Guards.{Guards, Anything}
use mpegenc.Codecs.PesQueue.{
  PendingPes, Transformer, start_pes, finish_loop, finish_pes, write_round, write_loop, write,
  pes_header, pes_end, pes_payload, flush,
}

abbrev pub Behind : {W B : Type 0} → (W → Type 0) → Transformer W B → Type 0
Behind I t = I t.next

module _ {W B : Type 0} (I : W → Type 0) where
  pub on_next-Leaves :
      {A : Type 0} (t : Transformer W B) (o : Outcome W A)
      → Leaves I o
      → Leaves (Behind I) (within (λ (t : Transformer W B) w. record t { next = w }) t o)
  on_next-Leaves t (ok a w) (on_ok h) = on_ok h
  on_next-Leaves t (err e w) (on_err n) = on_err n

  pub on_block-Leaves :
      {A : Type 0} (t : Transformer W B) (o : Outcome B A)
      → I t.next
      → Leaves Anything o
      → Leaves (Behind I) (within (λ (t : Transformer W B) b. record t { block = b }) t o)
  on_block-Leaves t (ok a b) h (on_ok u) = on_ok h
  on_block-Leaves t (err e b) h (on_err n) = on_err n

  pub then-Leaves :
      {A C : Type 0} (o : Outcome (Transformer W B) A) (f : A → Method (Transformer W B) C)
      → Leaves (Behind I) o
      → ((a : A) (t : Transformer W B) → I t.next → Leaves (Behind I) (f a t))
      → Leaves (Behind I) (and_then o f)
  then-Leaves (ok a t) f (on_ok h) k = k a t h
  then-Leaves (err e t) f (on_err n) k = on_err n

pub ruleset behind_rules =
    (Leaves-if, then-Leaves, on_next-Leaves, on_block-Leaves, on_ok, on_err, refl)

module _ {W B : Type 0} (handler : PesHandler W) (I : W → Type 0) (guards : Guards handler I) where
  abbrev pub Keeps : {A : Type 0} → Outcome (Transformer W B) A → Type 0
  Keeps o = Leaves (Behind I) o

  pub start_pes-Leaves :
      (p : PendingPes) (t : Transformer W B) → I t.next → Keeps (start_pes handler p t)
  unfolding start_pes
  start_pes-Leaves p t h = search (behind_rules, guards.guards_header)

  pub finish_loop-Leaves :
      (ps : List PendingPes) (t : Transformer W B) → I t.next → Keeps (finish_loop handler ps t)
  unfolding finish_loop
  finish_loop-Leaves [] t h = on_ok h
  finish_loop-Leaves (p ∷ ps) t h = search (
    Leaves-if,
    then-Leaves,
    on_next-Leaves,
    on_ok,
    on_err,
    start_pes-Leaves,
    guards.guards_end,
    finish_loop-Leaves ps,
  )

  pub finish_pes-Leaves : (t : Transformer W B) → I t.next → Keeps (finish_pes handler t)
  unfolding finish_pes
  finish_pes-Leaves t h = finish_loop-Leaves t.pes t h

  pub write_round-Leaves :
      (out : Bytes) (ps : List PendingPes) (t : Transformer W B)
      → I t.next
      → Keeps (write_round handler out ps t)
  unfolding write_round
  write_round-Leaves out [] t h = on_err refl
  write_round-Leaves out (p ∷ ps) t h =
      search (behind_rules, start_pes-Leaves, guards.guards_payload, finish_pes-Leaves)

  pub write_loop-Leaves :
      (f : ℕ) (out : Bytes) (t : Transformer W B) → I t.next → Keeps (write_loop handler f out t)
  unfolding write_loop
  write_loop-Leaves f [] t h = on_ok h
  write_loop-Leaves zero (b ∷ out) t h = on_err refl
  write_loop-Leaves (suc f) (b ∷ out) t h =
      then-Leaves I (write_round handler (b ∷ out) t.pes t)
        (λ rest t'. write_loop handler f rest t') (write_round-Leaves (b ∷ out) t.pes t h)
        (λ rest t' h'. write_loop-Leaves f rest t' h')

  pub write-Leaves : (out : Bytes) (t : Transformer W B) → I t.next → Keeps (write handler out t)
  unfolding write
  write-Leaves out t h = write_loop-Leaves (length out) out t h

  pub pes_header-Leaves :
      (header : Bytes) (t : Transformer W B) → I t.next → Keeps (pes_header handler header t)
  unfolding pes_header
  pes_header-Leaves header t h = search behind_rules

  pub pes_end-Leaves : (t : Transformer W B) → I t.next → Keeps (pes_end handler t)
  unfolding pes_end
  pes_end-Leaves t h = search (behind_rules, finish_pes-Leaves)

  module _ (process_frames : Method (Transformer W B) (Unit {0}))
      (frames : (t : Transformer W B) → I t.next → Keeps (process_frames t)) where
    pub pes_payload-Leaves :
        (payload : Bytes) (t : Transformer W B)
        → I t.next
        → Keeps (pes_payload handler process_frames payload t)
    unfolding pes_payload
    pes_payload-Leaves payload t h = search (behind_rules, frames)

    pub flush-Leaves : (t : Transformer W B) → I t.next → Keeps (flush handler process_frames t)
    unfolding flush
    flush-Leaves t h = search (behind_rules, frames, finish_pes-Leaves) depth 9
