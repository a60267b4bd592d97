-- ===== src/Codecs/Avc/Writer.antt =====
-- ts/codecs/avc/transformer.go: `write` and `finishPES`, which split delayed bytes by the queue of
-- input PES records.
pub mod Guarded
use mpegenc.Common.{
  ℕ, zero, suc, ◌-◌, min, Bool, true, false, ◌&&◌, List, [], ◌∷◌, Bytes, length, take, drop,
  replicate, ◌==◌, if◌then◌else◌, Method, ok, err, and_then, missing_pes, out_of_fuel,
}
use mpegenc.Packets.Pes.{PesHandler}
use mpegenc.Codecs.PesQueue.{PendingPes}
use mpegenc.Codecs.Avc.Ebsp
use mpegenc.Codecs.Avc.State.{Transformer, on_next}

module _ {W B : Type 0} (handler : PesHandler W) where
  start_pes : PendingPes → Method (Transformer W B) (Unit {0})
  start_pes p t = if p.started then ok tt t else on_next (handler.pes_header p.header) t

  finish_loop : List PendingPes → Method (Transformer W B) (Unit {0})
  unfolding start_pes
  finish_loop [] t = ok tt t
  finish_loop (p ∷ ps) t =
      if p.ended && p.bytes == 0
      then and_then (start_pes p t) (λ _ t1.
        and_then (on_next handler.pes_end t1) (λ _ t2. finish_loop ps (record t2 { pes = ps })))
      else ok tt t

  unfoldable pub finish_pes : Method (Transformer W B) (Unit {0})
  unfolding finish_loop
  finish_pes t = finish_loop t.pes t

  -- The bytes that go out for a piece of the data, escaped where that is asked for.
  output : Bool → Bytes → Transformer W B → Bytes × Transformer W B
  output false piece t = (piece, t)
  output true piece t =
      let (out, e) = Ebsp.append t.escaper [] piece in (out, record t { escaper = e })

  -- One round of the loop of `write`; the result is the data left.
  write_round : Bool → Bytes → List PendingPes → Method (Transformer W B) Bytes
  unfolding start_pes output Ebsp.append
  write_round escaped bs [] t = err missing_pes t
  write_round escaped bs (p ∷ ps) t =
      let n = min (length bs) p.bytes in
      if p.bytes == 0
      then err missing_pes t
      else and_then (start_pes p t) (λ _ t1.
        let (out, t2) =
          output escaped (take n bs) (record t1 { pes = record p { started = true } ∷ ps }) in
        and_then (on_next (handler.pes_payload out) t2) (λ _ t3.
          and_then
            (finish_pes (record t3 { pes = record p { started = true; bytes = p.bytes - n } ∷ ps }))
            (λ _ t4. ok (drop n bs) t4)))

  -- Each round writes a byte at least.
  write_loop : ℕ → Bool → Bytes → Method (Transformer W B) (Unit {0})
  unfolding write_round
  write_loop f escaped [] t = ok tt t
  write_loop zero escaped (b ∷ bs) t = err out_of_fuel t
  write_loop (suc f) escaped (b ∷ bs) t =
      and_then (write_round escaped (b ∷ bs) t.pes t) (λ rest t'. write_loop f escaped rest t')

  unfoldable pub write : Bytes → Bool → Method (Transformer W B) (Unit {0})
  unfolding write_loop
  write bs escaped t = write_loop (length bs) escaped bs t

  -- A slice of the 256 zeros at a time.
  write_zeros_loop : ℕ → ℕ → Bool → Method (Transformer W B) (Unit {0})
  unfolding write
  write_zeros_loop zero n escaped t = ok tt t
  write_zeros_loop (suc f) n escaped t =
      if n == 0
      then ok tt t
      else and_then (write (replicate (min n 256) 0) escaped t)
          (λ _ t'. write_zeros_loop f (n - min n 256) escaped t')

  -- At most `n` rounds are made.
  unfoldable pub write_zeros : ℕ → Bool → Method (Transformer W B) (Unit {0})
  unfolding write_zeros_loop
  write_zeros n escaped t = write_zeros_loop n n escaped t
