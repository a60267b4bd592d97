-- ===== src/Codecs/Aac/Frames.antt =====
-- `processFrames` of the AAC transformer: it takes whole ADTS frames, and ends.
use mpegenc.Common.{
  ℕ, suc, ◌+◌, ◌≤◌, ◌<◌, ◌≡◌, refl, ◌⊎◌, inl, inr, Bool, Bytes, arith, length, ltb, Method, Outcome,
  and_then, Bool-cases, external, Error, missing_syncword, bad_frame_size,
}
use mpegenc.SampleAes.{BlockCryptor}
use mpegenc.Pmt.{Patch}
use mpegenc.Codecs.PesQueue.{Transformer}
use mpegenc.Packets.Pes.Strict.{Downstream, strict}
use mpegenc.Codecs.Frame.{send_config}
use mpegenc.Codecs.Frame.Kept.{IsCryptor, IsSignal, IsKept, Rounds, Keeps, held, frame-Rounds}
use mpegenc.Codecs.Frame.Loop.{either_way, sent-Rounds, loop-Keeps}
use mpegenc.Codecs.Aac.{
  header_size, frame_size, has_syncword, config_patch, process_frame, process_round, process_loop,
  process_frames,
}

-- The errors of the format, and those of the signal.
abbrev pub IsAdtsError : Error → Type 0
IsAdtsError e = (e ≡ missing_syncword) ⊎ (e ≡ bad_frame_size) ⊎ ((n : ℕ) × (e ≡ external n))

header_size-pos : (buf : Bytes) → 0 < header_size buf
header_size-pos buf = ground arith

module _ {B : Type 0} (block : BlockCryptor B) (Ready : B → Type 0)
    (cryptor : IsCryptor block Ready) (signal : Patch → Method Downstream (Unit {0}))
    (lawful : IsSignal signal) where
  abbrev Kept : Transformer Downstream B → Type 0
  Kept = IsKept block Ready cryptor

  abbrev Does : ℕ → ℕ → Outcome (Transformer Downstream B) Bool → Type 0
  Does = Rounds block Ready cryptor IsAdtsError

  process_frame-Rounds :
      (t : Transformer Downstream B)
      → Kept t
      → Does (held t) (length t.buffer) (process_frame strict block signal t)
  unfolding process_frame
  process_frame-Rounds t v =
      let size = frame_size t.buffer in
      let head = header_size t.buffer in
      elim (Bool-cases (ltb size head)) [
        | inl a ↦ rw (a, process_frame) (inr (inl refl))
        | inr a ↦ elim (Bool-cases (ltb (length t.buffer) size)) [
          | inl b ↦ rw (a, b, process_frame) (v, refl)
          | inr b ↦
              let p = header_size-pos t.buffer in
              let z : 0 < size = ground arith in
              let h : size ≤ length t.buffer = ground arith in
              rw (a, b, process_frame)
                (frame-Rounds block Ready cryptor IsAdtsError signal (head + 16) size t v z h)
        ]
      ]

  process_round-Rounds :
      (t : Transformer Downstream B)
      → Kept t
      → Does (held t) (length t.buffer) (process_round strict block signal t)
  unfolding process_round
  process_round-Rounds t v = elim (Bool-cases (ltb (length t.buffer) 7)) [
    | inl a ↦ rw (a, process_round) (v, refl)
    | inr a ↦ elim (Bool-cases (has_syncword t.buffer)) [
      | inr b ↦ rw (a, b, process_round) (inl refl)
      | inl b ↦ elim (Bool-cases (ltb (length t.buffer) (header_size t.buffer))) [
        | inl c ↦ rw (a, b, c, process_round) (v, refl)
        | inr c ↦
            rw (a, b, c, process_round)
              (either_way block Ready cryptor IsAdtsError t.config_sent
                (process_frame strict block signal t)
                (and_then (send_config strict signal (config_patch t.buffer) t)
                  (λ _ t1. process_frame strict block signal t1))
                (held t) (length t.buffer) (process_frame-Rounds t v)
                (sent-Rounds block Ready cryptor IsAdtsError signal (config_patch t.buffer)
                  (process_frame strict block signal) t lawful (λ n. inr (inr (n, refl)))
                  process_frame-Rounds v))
      ]
    ]
  ]

  abbrev Ends : ℕ → Outcome (Transformer Downstream B) (Unit {0}) → Type 0
  Ends = Keeps block Ready cryptor IsAdtsError

  -- `processFrames` ends on every buffer that the pending PES records account for, in front of the
  -- strict handler, which refuses calls out of turn and keeps the elementary bytes. On success the bytes written and those still buffered are as
  -- many as before, the records account for the buffer again, in order, and what is open behind is
  -- the PES in front. The only errors are a missing syncword, a frame length below the header's, and
  -- the signal's. It takes a cipher that gives as many bytes as it is given after a reset, and a
  -- signal that leaves the handler as it is.
  pub process_frames-Keeps :
      (t : Transformer Downstream B) → Kept t → Ends (held t) (process_frames strict block signal t)
  unfolding process_frames process_loop
  process_frames-Keeps t v =
      loop-Keeps block Ready cryptor IsAdtsError (process_round strict block signal)
        (process_loop strict block signal) (λ f t. refl) process_round-Rounds
        (suc (length t.buffer)) t v (omega arith)
