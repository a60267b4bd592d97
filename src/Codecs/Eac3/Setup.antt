-- ===== src/Codecs/Eac3/Setup.antt =====
-- The header of an E-AC-3 syncframe and the five setup bytes that are made of it.
use mpegenc.Common.{
  AreBytes, ℕ, zero, suc, ◌+◌, ◌*◌, ◌/◌, ◌%◌, ◌≤◌, ◌<◌, ◌≡◌, refl, ◌⊎◌, inl, inr, Bool, true, false,
  not, ◌&&◌, ◌||◌, Bytes, arith, get_or, ltb, ◌==◌, if◌then◌else◌, Outcome, ok, err, ◌≢◌,
  missing_syncword, reserved_frame_type, bad_frame_size, bad_sample_rate, bad_bitstream_id,
}
use mpegenc.Codecs.Eac3.{
  SyncframeHeader, declared_size, sample_rates, frame_blocks, finish_header, parse_syncframe_header,
  setup,
}

-- A header as the format has it.
pub record IsHeader (h : SyncframeHeader) : Type 0 where
  pub not_reserved : h.frame_type ≤ 2
  pub least : 7 ≤ h.frame_size
  pub most : h.frame_size ≤ 4096
  pub rate : h.sample_rate ≤ 48000
  pub block_count : (h.blocks ≡ 1) ⊎ (h.blocks ≡ 2) ⊎ (h.blocks ≡ 3) ⊎ (h.blocks ≡ 6)
  pub two_bits : h.fscod < 4
  pub identified : (11 ≤ h.bsid) × (h.bsid ≤ 16)
  pub three_bits : h.acmod < 8
  pub one_bit : h.lfeon < 2

abbrev pub data_rate : SyncframeHeader → ℕ
data_rate h = h.frame_size * 8 * h.sample_rate / (h.blocks * 256) / 1000

times_bound : (a b : ℕ) → b ≤ 48000 → a * 8 * b ≤ a * 8 * 48000
times_bound a b k = grind arith

product_bound : (a b : ℕ) → a ≤ 4096 → b ≤ 48000 → a * 8 * b ≤ 1572864000
product_bound a b h k = omega (arith, times_bound a b k)

data_rate_bound : (h : SyncframeHeader) → IsHeader h → data_rate h ≤ 6144
data_rate_bound h v =
    let p = product_bound h.frame_size h.sample_rate v.most v.rate in
    elim v.block_count [
      | inl e ↦ rw e (omega (arith, p))
      | inr (inl e) ↦ rw e (omega (arith, p))
      | inr (inr (inl e)) ↦ rw e (omega (arith, p))
      | inr (inr (inr e)) ↦ rw e (omega (arith, p))
    ]

rate_bound : (i : ℕ) → get_or sample_rates i 0 ≤ 48000
rate_bound zero = omega arith
rate_bound (suc zero) = omega arith
rate_bound (suc (suc zero)) = omega arith
rate_bound (suc (suc (suc zero))) = omega arith
rate_bound (suc (suc (suc (suc i)))) = omega arith

block_cases :
    (i : ℕ) → i < 4 → let b = get_or frame_blocks i 0 in (b ≡ 1) ⊎ (b ≡ 2) ⊎ (b ≡ 3) ⊎ (b ≡ 6)
block_cases zero h = inl refl
block_cases (suc zero) h = inr (inl refl)
block_cases (suc (suc zero)) h = inr (inr (inl refl))
block_cases (suc (suc (suc zero))) h = inr (inr (inr refl))
block_cases (suc (suc (suc (suc i)))) h = absurd (omega arith)

-- What holds of a header if there is one.
abbrev pub IfParsed : (SyncframeHeader → Type 0) → Outcome Bytes SyncframeHeader → Type 0
IfParsed P (ok h s) = P h
IfParsed P (err e s) = Unit

if_parsed :
    (P : SyncframeHeader → Type 0) (b : Bool) (x y : Outcome Bytes SyncframeHeader)
    → (b ≡ true → IfParsed P x)
    → (b ≡ false → IfParsed P y)
    → IfParsed P (if b then x else y)
if_parsed P true x y f g = f refl
if_parsed P false x y f g = g refl

finish_header-IsHeader :
    (sample_rate blocks : ℕ) (buf s : Bytes)
    → AreBytes buf
    → get_or buf 2 0 / 64 ≢ 3
    → 7 ≤ declared_size buf
    → sample_rate ≤ 48000
    → (blocks ≡ 1) ⊎ (blocks ≡ 2) ⊎ (blocks ≡ 3) ⊎ (blocks ≡ 6)
    → IfParsed IsHeader (finish_header sample_rate blocks buf s)
unfolding finish_header
finish_header-IsHeader sample_rate blocks buf s u t l r b =
    let bsid = get_or buf 5 0 / 8 in
    let two = u 2 in
    let three = u 3 in
    let four = u 4 in
    if_parsed IsHeader (ltb bsid 11 || ltb 16 bsid) (err bad_bitstream_id s) _ (λ _. tt)
      (λ e. record {
        not_reserved = omega arith;
        least = l;
        most = omega arith;
        rate = r;
        block_count = b;
        two_bits = omega arith;
        identified = ground arith;
        three_bits = omega arith;
        one_bit = omega arith;
      })

-- The header that is read of a buffer of bytes is one of the format.
parse-IsHeader : (buf : Bytes) → AreBytes buf → IfParsed IsHeader (parse_syncframe_header buf)
unfolding parse_syncframe_header
parse-IsHeader buf u =
    let fscod = get_or buf 4 0 / 64 in
    let code = get_or buf 4 0 / 16 % 4 in
    let four = u 4 in
    if_parsed IsHeader (not (get_or buf 0 0 == 0x0B && get_or buf 1 0 == 0x77))
      (err missing_syncword buf) _ (λ _. tt)
      (λ _.
        if_parsed IsHeader (get_or buf 2 0 / 64 == 3) (err reserved_frame_type buf) _ (λ _. tt)
          (λ a.
            if_parsed IsHeader (ltb (declared_size buf) 7) (err bad_frame_size buf) _ (λ _. tt)
              (λ b.
                if_parsed IsHeader (fscod == 3) _ _
                  (λ _.
                    if_parsed IsHeader (code == 3) (err bad_sample_rate buf) _ (λ _. tt)
                      (λ c.
                        finish_header-IsHeader (get_or sample_rates code 0 / 2) 6 buf buf u
                          (ground arith) (ground arith) (omega (arith, rate_bound code))
                          (inr (inr (inr refl)))))
                  (λ _.
                    finish_header-IsHeader (get_or sample_rates fscod 0)
                      (get_or frame_blocks code 0) buf buf u (ground arith) (ground arith)
                      (rate_bound fscod) (block_cases code (omega arith))))))

-- What a decoder of the setup bytes reads.
pub record Decodes (h : SyncframeHeader) (b : Bytes) : Type 0 where
  pub data_rate_read : get_or b 0 0 * 32 + get_or b 1 0 / 8 ≡ data_rate h
  pub fscod_read : get_or b 2 0 / 64 ≡ h.fscod
  pub bsid_read : get_or b 2 0 / 2 % 32 ≡ h.bsid
  pub acmod_read : get_or b 3 0 / 2 % 8 ≡ h.acmod
  pub lfeon_read : get_or b 3 0 % 2 ≡ h.lfeon

setup-IsHeader : (h : SyncframeHeader) → IsHeader h → Decodes h (setup h)
unfolding setup
setup-IsHeader h v =
    let d = data_rate_bound h v in
    let a = v.two_bits in
    let (_, b) = v.identified in
    let c = v.three_bits in
    let e = v.one_bit in
    record {
      data_rate_read = omega arith;
      fscod_read = omega arith;
      bsid_read = omega arith;
      acmod_read = omega arith;
      lfeon_read = omega arith;
    }

IfParsed-map :
    (P Q : SyncframeHeader → Type 0) (o : Outcome Bytes SyncframeHeader)
    → ((h : SyncframeHeader) → P h → Q h)
    → IfParsed P o
    → IfParsed Q o
IfParsed-map P Q (ok h s) f p = f h p
IfParsed-map P Q (err e s) f p = tt

-- Of any header that `parseSyncframeHeader` accepts, read off a buffer of bytes, the fields are in
-- the ranges of the format: a frame of 7 to 4096 bytes, a sample rate of at most 48000, 1, 2, 3 or 6
-- blocks, a bitstream identification from 11 to 16. The setup bytes lose nothing of it: the data
-- rate, the sample rate code, the identification, the channel mode and the LFE bit are read back
-- from them.
pub parse-Decodes :
    (buf : Bytes)
    → AreBytes buf
    → IfParsed (λ h. IsHeader h × Decodes h (setup h)) (parse_syncframe_header buf)
parse-Decodes buf u =
    IfParsed-map IsHeader (λ h. IsHeader h × Decodes h (setup h)) (parse_syncframe_header buf)
      (λ h v. (v, setup-IsHeader h v)) (parse-IsHeader buf u)
