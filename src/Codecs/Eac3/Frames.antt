-- ===== src/Codecs/Eac3/Frames.antt =====
-- `processFrames` of the E-AC-3 transformer: it ends, and no frame is encrypted without a chain.
use mpegenc.Common.{
  ℕ, zero, suc, ◌/◌, ◌≤◌, ◌<◌, ◌≡◌, refl, sym, ap, subst, ◌∙◌, ◌⊎◌, inl, inr, Bool, true, false,
  not, ◌||◌, Bytes, arith, length, get_or, ltb, ◌==◌, if◌then◌else◌, Method, Outcome, ok, err,
  and_then, Bool-cases, independent_frame_first,
}
use mpegenc.SampleAes.{BlockCryptor}
use mpegenc.Pmt.{Patch}
use mpegenc.Codecs.PesQueue.{Transformer}
use mpegenc.Packets.Pes.Strict.{Downstream, strict}
use mpegenc.Codecs.Frame.{send_config, reset_block, write_frame}
use mpegenc.Codecs.Frame.Kept.{IsSignal, Rounds, held, after_protect}
use mpegenc.Codecs.Eac3.{
  SyncframeHeader, parse_syncframe_header, setup, patch_pmt, is_independent, crypt_frame,
  process_frame, ensure_config, process_round, process_loop, process_frames,
}
use mpegenc.Codecs.Eac3.Errors.{IsEac3Error, IsRead, parse-IsRead}
use mpegenc.Codecs.Eac3.Chained.{
  IsChain, chained_cryptor, KeptReady, KeptChained, chained-KeptReady, crypt_frame-Protects,
}

-- The frame at the front of a buffer is independent, which its third byte says.
abbrev pub begins_independent : Bytes → Bool
begins_independent buf = get_or buf 2 0 / 64 == 0 || get_or buf 2 0 / 64 == 2

module _ {B : Type 0} (block : BlockCryptor B) (Ready Chained : B → Type 0)
    (chain : IsChain block Ready Chained) (signal : Patch → Method Downstream (Unit {0}))
    (lawful : IsSignal signal) where
  -- The cipher has a chain, or the config was not sent, or it was sent for an independent frame
  -- which is still at the front of the buffer.
  abbrev pub Steps : Transformer Downstream B → Type 0
  Steps t =
      KeptChained block Ready Chained chain signal t
      ⊎ (KeptReady block Ready Chained chain signal t
          × (t.config_sent ≡ true → (7 ≤ length t.buffer) × (begins_independent t.buffer ≡ true)))

  Steps-KeptReady :
      (t : Transformer Downstream B) → Steps t → KeptReady block Ready Chained chain signal t
  Steps-KeptReady t (inl v) = chained-KeptReady block Ready Chained chain signal t v
  Steps-KeptReady t (inr (v, f)) = v

  abbrev Does : ℕ → ℕ → Outcome (Transformer Downstream B) Bool → Type 0
  Does k l (ok true t) = Steps t × (held t ≡ k) × (length t.buffer < l)
  Does k l (ok false t) = Steps t × (held t ≡ k)
  Does k l (err e t) = IsEac3Error e

  -- What was shown of the frames of the other codecs.
  chained-Does :
      (k l : ℕ) (o : Outcome (Transformer Downstream B) Bool)
      → Rounds block Chained (chained_cryptor block Ready Chained chain signal) IsEac3Error k l o
      → Does k l o
  chained-Does k l (ok true t) (v, e, m) = (inl v, e, m)
  chained-Does k l (ok false t) (v, e) = (inl v, e)
  chained-Does k l (err x t) d = d

  -- A frame behind its reset, if it has one.
  crypted-Does :
      (size : ℕ) (t : Transformer Downstream B)
      → 0 < size
      → size ≤ length t.buffer
      → KeptChained block Ready Chained chain signal t
      → Does (held t) (length t.buffer) (
          and_then
            (crypt_frame strict block signal size t)
            (λ _ t2. write_frame strict signal size t2))
  crypted-Does size t z h v =
      chained-Does (held t) (length t.buffer)
        (and_then (crypt_frame strict block signal size t)
          (λ _ t2. write_frame strict signal size t2))
        (after_protect block Chained (chained_cryptor block Ready Chained chain signal) IsEac3Error
          signal (crypt_frame strict block signal size t) t size v z h
          (crypt_frame-Protects block Ready Chained chain signal size t v.ready h))

  reset_first-Does :
      (size : ℕ) (t : Transformer Downstream B)
      → 0 < size
      → size ≤ length t.buffer
      → KeptReady block Ready Chained chain signal t
      → Does (held t) (length t.buffer) (
          and_then (reset_block block t) (λ _ t1.
            and_then
              (crypt_frame strict block signal size t1)
              (λ _ t2. write_frame strict signal size t2)))
  unfolding reset_block
  reset_first-Does size t z h v =
      let (b', e, c) = chain.begins t.block v.ready in
      rw e (
        crypted-Does size (record t { block = b' }) z h
          (record {
            valid = record { queue = v.valid.queue; settled = v.valid.settled };
            balanced = v.balanced;
            ready = c;
          }))

  process_frame-Does :
      (h : SyncframeHeader) (t : Transformer Downstream B)
      → 7 ≤ h.frame_size
      → Steps t
      → (is_independent h ≡ true) ⊎ KeptChained block Ready Chained chain signal t
      → Does (held t) (length t.buffer) (process_frame strict block signal h t)
  unfolding process_frame
  process_frame-Does h t z s c = elim (Bool-cases (ltb (length t.buffer) h.frame_size)) [
    | inl a ↦ rw (a, process_frame) (s, refl)
    | inr a ↦
        let l : h.frame_size ≤ length t.buffer = ground (arith, a) in
        let p : 0 < h.frame_size = omega arith in
        rw (a, process_frame) (by_type (is_independent h) refl p l c)
  ]
    where
      by_type :
          (b : Bool)
          → is_independent h ≡ b
          → 0 < h.frame_size
          → h.frame_size ≤ length t.buffer
          → (is_independent h ≡ true) ⊎ KeptChained block Ready Chained chain signal t
          → Does (held t) (length t.buffer) (
              and_then (if b then reset_block block t else ok tt t) (λ _ t1.
                and_then
                  (crypt_frame strict block signal h.frame_size t1)
                  (λ _ t2. write_frame strict signal h.frame_size t2)))
      by_type true e p l c = reset_first-Does h.frame_size t p l (Steps-KeptReady t s)
      by_type false e p l (inl f) = cc
      by_type false e p l (inr v) = crypted-Does h.frame_size t p l v

  -- The config is sent with an independent frame.
  sent-Steps :
      (t : Transformer Downstream B)
      → 7 ≤ length t.buffer
      → begins_independent t.buffer ≡ true
      → Steps t
      → Steps (record t { config_sent = true })
  sent-Steps t n b (inl v) = inl (record {
    valid = record { queue = v.valid.queue; settled = v.valid.settled };
    balanced = v.balanced;
    ready = v.ready;
  })
  sent-Steps t n b (inr (v, f)) = inr (
    record {
      valid = record { queue = v.valid.queue; settled = v.valid.settled };
      balanced = v.balanced;
      ready = v.ready;
    },
    λ _. (n, b),
  )

  configured-Does :
      (h : SyncframeHeader) (t : Transformer Downstream B)
      → 7 ≤ length t.buffer
      → 7 ≤ h.frame_size
      → begins_independent t.buffer ≡ true
      → is_independent h ≡ true
      → Steps t
      → Does (held t) (length t.buffer) (
          and_then
            (send_config strict signal (patch_pmt (setup h)) t)
            (λ _ t1. process_frame strict block signal h t1))
  unfolding send_config
  configured-Does h t n z b c s = elim (lawful (patch_pmt (setup h)) t.next) [
    | inr (m, f) ↦ rw f (inr (inr (inr (inr (inr (inr (m, refl)))))))
    | inl f ↦
        rw f (process_frame-Does h (record t { config_sent = true }) z (sent-Steps t n b s) (inl c))
  ]

  -- The cipher has a chain to go on with, or the frame begins one.
  round-Does :
      (h : SyncframeHeader) (t : Transformer Downstream B)
      → 7 ≤ length t.buffer
      → 7 ≤ h.frame_size
      → h.frame_type ≡ get_or t.buffer 2 0 / 64
      → Steps t
      → Does (held t) (length t.buffer) (
          and_then
            (ensure_config strict block signal h t)
            (λ _ t1. process_frame strict block signal h t1))
  unfolding ensure_config
  round-Does h t n z y s = by_config t.config_sent (is_independent h) refl refl
    where
      independent_front : is_independent h ≡ begins_independent t.buffer
      independent_front = ap (λ y. y == 0 || y == 2) y

      chain_or_front :
          t.config_sent ≡ true
          → Steps t
          → (is_independent h ≡ true) ⊎ KeptChained block Ready Chained chain signal t
      chain_or_front a (inl v) = inr v
      chain_or_front a (inr (v, f)) = inl (independent_front ∙ (f a).1)

      by_config :
          (a b : Bool)
          → t.config_sent ≡ a
          → is_independent h ≡ b
          → Does (held t) (length t.buffer) (
              and_then
                (if a
                  then ok tt t
                  else if not b
                  then err independent_frame_first t
                  else send_config strict signal (patch_pmt (setup h)) t)
                (λ _ t1. process_frame strict block signal h t1))
      by_config true b e f = process_frame-Does h t z s (chain_or_front e s)
      by_config false false e f = inr (inr (inr (inr (inr (inl refl)))))
      by_config false true e f = configured-Does h t n z (sym independent_front ∙ f) f s

  process_round-Does :
      (t : Transformer Downstream B)
      → Steps t
      → Does (held t) (length t.buffer) (process_round strict block signal t)
  unfolding process_round
  process_round-Does t s = elim (Bool-cases (ltb (length t.buffer) 7)) [
    | inl a ↦ rw (a, process_round) (s, refl)
    | inr a ↦
        let n : 7 ≤ length t.buffer = ground (arith, a) in
        rw (a, process_round) (parsed n (parse_syncframe_header t.buffer) (parse-IsRead t.buffer))
  ]
    where
      parsed :
          7 ≤ length t.buffer
          → (o : Outcome Bytes SyncframeHeader) → IsRead t.buffer o
          → Does (held t) (length t.buffer) (elim o [
            | err e _ ↦ err e t
            | ok h _ ↦
                and_then
                  (ensure_config strict block signal h t)
                  (λ _ t1. process_frame strict block signal h t1)
          ])
      parsed n (ok h x) (z, y) = round-Does h t n z y s
      parsed n (err e x) r = r

  abbrev pub Ends : ℕ → Outcome (Transformer Downstream B) (Unit {0}) → Type 0
  Ends k (ok a t) = Steps t × (held t ≡ k)
  Ends k (err e t) = IsEac3Error e

  loop-Ends :
      (f : ℕ) (t : Transformer Downstream B)
      → Steps t
      → length t.buffer < f
      → Ends (held t) (process_loop strict block signal f t)
  unfolding process_loop
  loop-Ends zero t s h = absurd (omega arith)
  loop-Ends (suc f) t s h =
      next_round (process_round strict block signal t) (process_round-Does t s)
        (λ t' s' h'. loop-Ends f t' s' h')
    where
      next_round :
          (o : Outcome (Transformer Downstream B) Bool)
          → Does (held t) (length t.buffer) o
          → ((t' : Transformer Downstream B)
              → Steps t'
              → length t'.buffer < f
              → Ends (held t') (process_loop strict block signal f t'))
          → Ends (held t) (
              and_then o (λ more t1. elim more [
                | true ↦ process_loop strict block signal f t1
                | false ↦ ok tt t1
              ]))
      next_round (ok true t') (s', e, m) g =
          subst (λ k. Ends k (process_loop strict block signal f t')) e (g t' s' (omega arith))
      next_round (ok false t') p g = p
      next_round (err e t') p g = p

  -- `processFrames` of E-AC-3 ends on every buffer that the pending PES records account for, in front of
  -- the strict handler. A dependent frame is encrypted on the chain that an earlier frame left: it never
  -- comes to a cipher without one, for the config is sent with an independent frame, which stays at
  -- the front of the buffer until it is whole. On success the bytes written and those still
  -- buffered are as many as before, and the records account for the buffer again. The only errors
  -- are those of a syncframe's header, a first frame that is dependent, and the signal's. It takes
  -- a cipher that keeps a chain after a reset and gives as many bytes as it is given, and a signal that
  -- leaves the handler as it is.
  pub eac3_frames-Ends :
      (t : Transformer Downstream B)
      → Steps t
      → Ends (held t) (process_frames strict block signal t)
  unfolding process_frames
  eac3_frames-Ends t s = loop-Ends (suc (length t.buffer)) t s (omega arith)
