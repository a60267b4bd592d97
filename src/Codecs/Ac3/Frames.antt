-- ===== src/Codecs/Ac3/Frames.antt =====
-- `processFrames` of the AC-3 transformer: every size of the table is positive, so that it ends.
use mpegenc.Common.{
  ℕ, zero, suc, ◌/◌, ◌%◌, ◌≤◌, ◌<◌, ◌≡◌, refl, ◌⊎◌, inl, inr, Bool, true, ◌&&◌, ◌||◌, List, [], ◌∷◌,
  arith, length, get_or, take, ltb, if◌then◌else◌, Method, Outcome, and_then, Bool-cases, external,
  Error, missing_syncword, bad_frame_code, bad_bitstream_id,
}
use mpegenc.SampleAes.{BlockCryptor}
use mpegenc.Pmt.{Patch}
use mpegenc.Codecs.PesQueue.{Transformer}
use mpegenc.Packets.Pes.Strict.{Downstream, strict}
use mpegenc.Codecs.Frame.{send_config}
use mpegenc.Codecs.Frame.Kept.{IsCryptor, IsSignal, IsKept, Rounds, Keeps, held, frame-Rounds}
use mpegenc.Codecs.Frame.Loop.{either_way, sent-Rounds, loop-Keeps}
use mpegenc.Codecs.Ac3.{
  ac3_clear_lead, ac3_setup_size, frame_size_words, frame_size, has_syncword, patch_pmt,
  process_frame, process_round, process_loop, process_frames,
}

-- The errors of the format, and those of the signal.
abbrev pub IsSyncframeError : Error → Type 0
IsSyncframeError e =
    (e ≡ missing_syncword)
    ⊎ (e ≡ bad_frame_code)
    ⊎ (e ≡ bad_bitstream_id)
    ⊎ ((n : ℕ) × (e ≡ external n))

-- Rows of three positive numbers.
abbrev all_positive : List (List ℕ) → Bool
all_positive [] = true
all_positive (r ∷ rs) =
    ltb 0 (get_or r 0 0) && ltb 0 (get_or r 1 0) && ltb 0 (get_or r 2 0) && all_positive rs

entry_positive :
    (r : List ℕ) (i : ℕ) (b : Bool)
    → ltb 0 (get_or r 0 0) && ltb 0 (get_or r 1 0) && ltb 0 (get_or r 2 0) && b ≡ true
    → i ≤ 2
    → 0 < get_or r i 0
entry_positive r zero b e h = ground arith
entry_positive r (suc zero) b e h = ground arith
entry_positive r (suc (suc zero)) b e h = ground arith
entry_positive r (suc (suc (suc i))) b e h = absurd (omega arith)

row_positive :
    (rs : List (List ℕ)) (k i : ℕ)
    → all_positive rs ≡ true
    → k < length rs
    → i ≤ 2
    → 0 < get_or (get_or rs k []) i 0
row_positive [] k i e l h = absurd (omega arith)
row_positive (r ∷ rs) zero i e l h = entry_positive r i (all_positive rs) e h
row_positive (r ∷ rs) (suc k) i e l h = row_positive rs k i (ground arith) (omega arith) h

frame_size-pos : (code : ℕ) → code / 64 ≤ 2 → code % 64 ≤ 37 → 0 < frame_size code
frame_size-pos code a b =
    let z : 0 < get_or (get_or frame_size_words (code % 64) []) (code / 64) 0 =
      row_positive frame_size_words (code % 64) (code / 64) refl (omega arith) a in
    omega (arith, z)

module _ {B : Type 0} (block : BlockCryptor B) (Ready : B → Type 0)
    (cryptor : IsCryptor block Ready) (signal : Patch → Method Downstream (Unit {0}))
    (lawful : IsSignal signal) where
  abbrev Kept : Transformer Downstream B → Type 0
  Kept = IsKept block Ready cryptor

  abbrev Does : ℕ → ℕ → Outcome (Transformer Downstream B) Bool → Type 0
  Does = Rounds block Ready cryptor IsSyncframeError

  process_frame-Rounds :
      (size : ℕ) (t : Transformer Downstream B)
      → 0 < size
      → Kept t
      → Does (held t) (length t.buffer) (process_frame strict block signal size t)
  unfolding process_frame
  process_frame-Rounds size t z v = elim (Bool-cases (ltb (length t.buffer) size)) [
    | inl b ↦ rw (b, process_frame) (v, refl)
    | inr b ↦
        let h : size ≤ length t.buffer = ground arith in
        rw (b, process_frame)
          (frame-Rounds block Ready cryptor IsSyncframeError signal ac3_clear_lead size t v z h)
  ]

  -- Behind the checks of a frame's header, with the config sent or not.
  sized-Rounds :
      (size : ℕ) (t : Transformer Downstream B)
      → 0 < size
      → Kept t
      → Does (held t) (length t.buffer) (
          if t.config_sent
          then process_frame strict block signal size t
          else and_then
              (send_config strict signal (patch_pmt (take ac3_setup_size t.buffer)) t)
              (λ _ t1. process_frame strict block signal size t1))
  sized-Rounds size t z v =
      either_way block Ready cryptor IsSyncframeError t.config_sent
        (process_frame strict block signal size t)
        (and_then (send_config strict signal (patch_pmt (take ac3_setup_size t.buffer)) t)
          (λ _ t1. process_frame strict block signal size t1))
        (held t) (length t.buffer) (process_frame-Rounds size t z v)
        (sent-Rounds block Ready cryptor IsSyncframeError signal
          (patch_pmt (take ac3_setup_size t.buffer)) (process_frame strict block signal size) t
          lawful (λ n. inr (inr (inr (n, refl)))) (λ t'. process_frame-Rounds size t' z) v)

  process_round-Rounds :
      (t : Transformer Downstream B)
      → Kept t
      → Does (held t) (length t.buffer) (process_round strict block signal t)
  unfolding process_round
  process_round-Rounds t v =
      let code = get_or t.buffer 4 0 in
      elim (Bool-cases (ltb (length t.buffer) 5)) [
        | inl a ↦ rw (a, process_round) (v, refl)
        | inr a ↦ elim (Bool-cases (has_syncword t.buffer)) [
          | inr b ↦ rw (a, b, process_round) (inl refl)
          | inl b ↦ elim (Bool-cases (ltb 2 (code / 64) || ltb 37 (code % 64))) [
            | inl c ↦ rw (a, b, c, process_round) (inr (inl refl))
            | inr c ↦ elim (Bool-cases (ltb (length t.buffer) 10)) [
              | inl d ↦ rw (a, b, c, d, process_round) (v, refl)
              | inr d ↦ elim (Bool-cases (ltb 8 (get_or t.buffer 5 0 / 8))) [
                | inl g ↦ rw (a, b, c, d, g, process_round) (inr (inr (inl refl)))
                | inr g ↦
                    let low : code / 64 ≤ 2 = ground (arith, c) in
                    let high : code % 64 ≤ 37 = ground (arith, c) in
                    rw (a, b, c, d, g, process_round)
                      (sized-Rounds (frame_size code) t (frame_size-pos code low high) v)
              ]
            ]
          ]
        ]
      ]

  abbrev Ends : ℕ → Outcome (Transformer Downstream B) (Unit {0}) → Type 0
  Ends = Keeps block Ready cryptor IsSyncframeError

  -- `processFrames` of AC-3 ends on every buffer that the pending PES records account for, in front of
  -- the strict handler, which refuses calls out of turn and keeps the elementary bytes. On success the
  -- bytes written and those still buffered are as many as before, and the records account for the
  -- buffer again, in order. The only errors are a missing syncword, a code of no frame size, a
  -- bitstream identification above 8, and the signal's. It takes a cipher that gives as many bytes as
  -- it is given after a reset, and a signal that leaves the handler as it is.
  pub ac3_frames-Keeps :
      (t : Transformer Downstream B) → Kept t → Ends (held t) (process_frames strict block signal t)
  unfolding process_frames process_loop
  ac3_frames-Keeps t v =
      loop-Keeps block Ready cryptor IsSyncframeError (process_round strict block signal)
        (process_loop strict block signal) (λ f t. refl) process_round-Rounds
        (suc (length t.buffer)) t v (omega arith)
