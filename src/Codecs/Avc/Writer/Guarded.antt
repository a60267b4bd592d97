-- ===== src/Codecs/Avc/Writer/Guarded.antt =====
-- `write` of the AVC transformer: what is behind it is reached by the calls of the handler alone.
use mpegenc.Common.{
  ℕ, zero, suc, ◌+◌, ◌-◌, ◌*◌, ◌≡◌, refl, min, Bool, true, false, Option, none, some, List, [], ◌∷◌,
  Bytes, length, take, drop, replicate, index, ltb, leb, ◌==◌, ◌&&◌, if◌then◌else◌, Method, Outcome,
  ok, err, and_then, within, Leaves, on_ok, on_err, Leaves-if,
}
use mpegenc.Packets.Pes.{PesHandler}
use mpegenc.Packets.Pes.Guards.{Guards}
use mpegenc.Codecs.PesQueue.{PendingPes}
use mpegenc.Codecs.Avc.State.{Transformer}
use mpegenc.Codecs.Avc.Writer.{
  start_pes, finish_loop, finish_pes, output, write_round, write_loop, write, write_zeros_loop,
  write_zeros,
}

abbrev pub Behind : {W B : Type 0} → (W → Type 0) → Transformer W B → Type 0
Behind I t = I t.next

module _ {W B : Type 0} (I : W → Type 0) where
  pub on_next-Leaves :
      {A : Type 0} (t : Transformer W B) (o : Outcome W A)
      → Leaves I o
      → Leaves (Behind I) (within (λ (t : Transformer W B) w. record t { next = w }) t o)
  on_next-Leaves t (ok a w) (on_ok h) = on_ok h
  on_next-Leaves t (err e w) (on_err n) = on_err n

  pub then-Leaves :
      {A C : Type 0} (o : Outcome (Transformer W B) A) (f : A → Method (Transformer W B) C)
      → Leaves (Behind I) o
      → ((a : A) (t : Transformer W B) → I t.next → Leaves (Behind I) (f a t))
      → Leaves (Behind I) (and_then o f)
  then-Leaves (ok a t) f (on_ok h) k = k a t h
  then-Leaves (err e t) f (on_err n) k = on_err n

pub ruleset avc_rules = (Leaves-if, then-Leaves, on_next-Leaves, on_ok, on_err, refl)

module _ {W B : Type 0} (handler : PesHandler W) (I : W → Type 0) (guards : Guards handler I) where
  abbrev pub Keeps : {A : Type 0} → Outcome (Transformer W B) A → Type 0
  Keeps o = Leaves (Behind I) o

  start_pes-Leaves :
      (p : PendingPes) (t : Transformer W B) → I t.next → Keeps (start_pes handler p t)
  unfolding start_pes
  start_pes-Leaves p t h = search (avc_rules, guards.guards_header)

  finish_loop-Leaves :
      (ps : List PendingPes) (t : Transformer W B) → I t.next → Keeps (finish_loop handler ps t)
  unfolding finish_loop
  finish_loop-Leaves [] t h = on_ok h
  finish_loop-Leaves (p ∷ ps) t h =
      search (avc_rules, start_pes-Leaves, guards.guards_end, finish_loop-Leaves ps)

  pub finish_pes-Leaves : (t : Transformer W B) → I t.next → Keeps (finish_pes handler t)
  unfolding finish_pes
  finish_pes-Leaves t h = finish_loop-Leaves t.pes t h

  output-next :
      (escaped : Bool) (piece : Bytes) (t : Transformer W B)
      → (output handler escaped piece t).1.next ≡ t.next
  unfolding output
  output-next false piece t = refl
  output-next true piece t = refl

  write_round-Leaves :
      (escaped : Bool) (bs : Bytes) (ps : List PendingPes) (t : Transformer W B)
      → I t.next
      → Keeps (write_round handler escaped bs ps t)
  unfolding write_round output
  write_round-Leaves escaped bs [] t h = on_err refl
  write_round-Leaves false bs (p ∷ ps) t h =
      search (avc_rules, start_pes-Leaves, guards.guards_payload, finish_pes-Leaves) depth 8
  write_round-Leaves true bs (p ∷ ps) t h =
      search (avc_rules, start_pes-Leaves, guards.guards_payload, finish_pes-Leaves) depth 8

  write_loop-Leaves :
      (f : ℕ) (escaped : Bool) (bs : Bytes) (t : Transformer W B)
      → I t.next
      → Keeps (write_loop handler f escaped bs t)
  unfolding write_loop
  write_loop-Leaves f escaped [] t h = on_ok h
  write_loop-Leaves zero escaped (b ∷ bs) t h = on_err refl
  write_loop-Leaves (suc f) escaped (b ∷ bs) t h =
      then-Leaves I (write_round handler escaped (b ∷ bs) t.pes t)
        (λ rest t'. write_loop handler f escaped rest t')
        (write_round-Leaves escaped (b ∷ bs) t.pes t h)
        (λ rest t' h'. write_loop-Leaves f escaped rest t' h')

  pub write-Leaves :
      (bs : Bytes) (escaped : Bool) (t : Transformer W B)
      → I t.next
      → Keeps (write handler bs escaped t)
  unfolding write
  write-Leaves bs escaped t h = write_loop-Leaves (length bs) escaped bs t h

  write_zeros_loop-Leaves :
      (f n : ℕ) (escaped : Bool) (t : Transformer W B)
      → I t.next
      → Keeps (write_zeros_loop handler f n escaped t)
  unfolding write_zeros_loop
  write_zeros_loop-Leaves zero n escaped t h = on_ok h
  write_zeros_loop-Leaves (suc f) n escaped t h = Leaves-if (n == 0) (ok tt t) _ (on_ok h) (
      then-Leaves I (write handler (replicate (min n 256) 0) escaped t)
        (λ _ t'. write_zeros_loop handler f (n - min n 256) escaped t')
        (write-Leaves (replicate (min n 256) 0) escaped t h)
        (λ _ t' h'. write_zeros_loop-Leaves f (n - min n 256) escaped t' h'))

  pub write_zeros-Leaves :
      (n : ℕ) (escaped : Bool) (t : Transformer W B)
      → I t.next
      → Keeps (write_zeros handler n escaped t)
  unfolding write_zeros
  write_zeros-Leaves n escaped t h = write_zeros_loop-Leaves n n escaped t h
