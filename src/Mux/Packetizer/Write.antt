-- ===== src/Mux/Packetizer/Write.antt =====
-- The loop of `writePESBytes`, and steps of the methods one after another.
use mpegenc.Common.{
  ℕ, zero, suc, ◌-◌, ◌≤◌, ◌<◌, ◌≡◌, ◌≢◌, refl, sym, ap, ◌∙◌, min, Bool, true, false, [], ◌∷◌, ◌++◌,
  append-nil, append_assoc, Bytes, arith, length, take, drop, if◌then◌else◌, Method, Outcome, ok,
  err, and_then, Error, out_of_fuel, ==_false, length-take, length-append, length-drop,
  take-append-drop,
}
use mpegenc.Astits.{Astits, IsLawful}
use mpegenc.Mux.Packetizer.{
  TsPacketizer, flush_if_full, write_piece, write_round, write_loop, write_pes_bytes,
}
use mpegenc.Mux.Packetizer.Stream.{
  IsQueued, IsValid, Writes, flush_if_full-Writes, payloads, accepted,
}

module _ {AF : Type 0} (lib : Astits AF) (size : AF → ℕ) (lawful : IsLawful lib size)
    (start : ℕ) where
  -- A round of the loop: it takes a byte at least.
  abbrev Rounds : Bytes → Bytes → Outcome (TsPacketizer AF) Bytes → Type 0
  Rounds stream bs (ok rest w) =
      IsValid lib size lawful start w × (accepted w ++ rest ≡ stream) × (length rest < length bs)
  Rounds stream bs (err e w) = IsQueued lib size lawful start w × (e ≢ out_of_fuel)

  Rounds-and_then :
      (stream bs rest : Bytes) (o : Outcome (TsPacketizer AF) (Unit {0})) (done : Bytes)
      → Writes lib size lawful start done o
      → done ++ rest ≡ stream
      → length rest < length bs
      → Rounds stream bs (and_then o (λ _ w. ok rest w))
  Rounds-and_then stream bs rest (ok a w) done h e l =
      (h.0, ap (λ k. k ++ rest) (sym (append-nil (accepted w)) ∙ h.1) ∙ e, l)
  Rounds-and_then stream bs rest (err e' w) done h e l = h

  cut_payload :
      (sent pending : Bytes) (n : ℕ) (bs : Bytes)
      → (sent ++ (pending ++ take n bs)) ++ drop n bs ≡ (sent ++ pending) ++ bs
  cut_payload sent pending n bs =
      append_assoc sent (pending ++ take n bs) (drop n bs)
      ∙ ap (◌++◌ sent)
          (append_assoc pending (take n bs) (drop n bs) ∙ ap (◌++◌ pending) (take-append-drop n bs))
      ∙ sym (append_assoc sent pending bs)

  write_round-Rounds :
      (b : ℕ) (bs : Bytes) (w : TsPacketizer AF)
      → IsValid lib size lawful start w
      → Rounds (accepted w ++ b ∷ bs) (b ∷ bs) (write_round lib (b ∷ bs) w)
  unfolding write_round write_piece
  write_round-Rounds b bs w v =
      let c = v.capacity in
      let n = min (suc (length bs)) (c - length w.current.payload) in
      let piece = take n (b ∷ bs) in
      let w1 : TsPacketizer AF = record w {
        current = record (w.current) { payload = w.current.payload ++ piece };
      } in
      let fit : length (w.current.payload ++ piece) ≤ c =
        omega (arith, length-append w.current.payload piece, length-take n (b ∷ bs), v.room) in
      rw
        (
          v.fits,
          write_round,
          write_piece,
          ==_false c 0 (omega (arith, v.room)),
          ==_false (length w.current.payload) c (omega (arith, v.room)),
        )
        (Rounds-and_then (accepted w ++ b ∷ bs) (b ∷ bs) (drop n (b ∷ bs)) (flush_if_full lib c w1)
          (accepted w1)
          (flush_if_full-Writes lib size lawful start c w1
            (record { full = v.queued.full; counted = v.queued.counted }) v.fits fit)
          (cut_payload (payloads w.packets) w.current.payload n (b ∷ bs))
          (omega (arith, length-drop n (b ∷ bs), v.room)))

  write_loop-Writes :
      (f : ℕ) (bs : Bytes) (w : TsPacketizer AF) (stream : Bytes)
      → IsValid lib size lawful start w
      → length bs ≤ f
      → accepted w ++ bs ≡ stream
      → Writes lib size lawful start stream (write_loop lib f bs w)
  unfolding write_loop
  write_loop-Writes zero [] w stream v h e = (v, e)
  write_loop-Writes (suc f) [] w stream v h e = (v, e)
  write_loop-Writes zero (b ∷ bs) w stream v h e = absurd (omega arith)
  write_loop-Writes (suc f) (b ∷ bs) w stream v h e =
      next (write_round lib (b ∷ bs) w) (write_round-Rounds b bs w v)
        (λ rest w' v' e' l. write_loop-Writes f rest w' stream v' (omega arith) (e' ∙ e))
    where
      next :
          (o : Outcome (TsPacketizer AF) Bytes)
          → Rounds (accepted w ++ b ∷ bs) (b ∷ bs) o
          → ((rest : Bytes) (w' : TsPacketizer AF)
              → IsValid lib size lawful start w'
              → accepted w' ++ rest ≡ accepted w ++ b ∷ bs
              → length rest < suc (length bs)
              → Writes lib size lawful start stream (write_loop lib f rest w'))
          → Writes lib size lawful start stream (and_then o (λ rest w'. write_loop lib f rest w'))
      next (ok rest w') r k = k rest w' r.0 r.1 r.2
      next (err e' w') r k = r

  pub write_pes_bytes-Writes :
      (bs : Bytes) (w : TsPacketizer AF)
      → IsValid lib size lawful start w
      → Writes lib size lawful start (accepted w ++ bs) (write_pes_bytes lib bs w)
  unfolding write_pes_bytes
  write_pes_bytes-Writes bs w v =
      write_loop-Writes (suc (length bs)) bs w (accepted w ++ bs) v (omega arith) refl

  -- A refusal at the start of a method changes nothing.
  pub refusal :
      (t : Bool) (stream : Bytes) (e : Error) (w : TsPacketizer AF)
      (o : Outcome (TsPacketizer AF) (Unit {0}))
      → IsValid lib size lawful start w
      → e ≢ out_of_fuel
      → Writes lib size lawful start stream o
      → Writes lib size lawful start stream (if t then err e w else o)
  refusal true stream e w o v n h = (v.queued, n)
  refusal false stream e w o v n h = h

  pub unchanged_if :
      (t : Bool) (w : TsPacketizer AF) (o : Outcome (TsPacketizer AF) (Unit {0}))
      → IsValid lib size lawful start w
      → Writes lib size lawful start (accepted w) o
      → Writes lib size lawful start (accepted w) (if t then ok tt w else o)
  unchanged_if true w o v h = (v, append-nil (accepted w))
  unchanged_if false w o v h = h

  pub if-Writes :
      (t : Bool) (stream : Bytes) (o o' : Outcome (TsPacketizer AF) (Unit {0}))
      → Writes lib size lawful start stream o
      → Writes lib size lawful start stream o'
      → Writes lib size lawful start stream (if t then o else o')
  if-Writes true stream o o' h h' = h
  if-Writes false stream o o' h h' = h'

  pub and_then-Writes :
      (stream : Bytes) (o : Outcome (TsPacketizer AF) (Unit {0}))
      (f : Method (TsPacketizer AF) (Unit {0}))
      → Writes lib size lawful start stream o
      → ((w : TsPacketizer AF)
          → IsValid lib size lawful start w
          → accepted w ≡ stream
          → Writes lib size lawful start stream (f w))
      → Writes lib size lawful start stream (and_then o (λ _ w. f w))
  and_then-Writes stream (ok a w) f h k = k w h.0 (sym (append-nil (accepted w)) ∙ h.1)
  and_then-Writes stream (err e w) f h k = h
