-- ===== src/Codecs/Eac3/Errors.antt =====
-- What `parseSyncframeHeader` of E-AC-3 reads, and the errors it can end in.
use mpegenc.Common.{
  ℕ, ◌/◌, ◌%◌, ◌≤◌, ◌≡◌, refl, ◌⊎◌, inl, inr, Bool, true, false, not, ◌&&◌, ◌||◌, Bytes, arith,
  get_or, ltb, ◌==◌, if◌then◌else◌, Outcome, ok, err, external, Error, missing_syncword,
  reserved_frame_type, bad_frame_size, bad_sample_rate, bad_bitstream_id, independent_frame_first,
}
use mpegenc.Codecs.Eac3.{
  SyncframeHeader, declared_size, sample_rates, frame_blocks, finish_header, parse_syncframe_header,
}

-- The errors of the format, and those of the signal.
abbrev pub IsEac3Error : Error → Type 0
IsEac3Error e =
    (e ≡ missing_syncword)
    ⊎ (e ≡ reserved_frame_type)
    ⊎ (e ≡ bad_frame_size)
    ⊎ (e ≡ bad_sample_rate)
    ⊎ (e ≡ bad_bitstream_id)
    ⊎ (e ≡ independent_frame_first)
    ⊎ ((n : ℕ) × (e ≡ external n))

-- A header that was read says of a frame what the buffer has, and an error is one of the format.
abbrev pub IsRead : Bytes → Outcome Bytes SyncframeHeader → Type 0
IsRead buf (ok h s) = (7 ≤ h.frame_size) × (h.frame_type ≡ get_or buf 2 0 / 64)
IsRead buf (err e s) = IsEac3Error e

IsRead-if :
    (buf : Bytes) (b : Bool) (x y : Outcome Bytes SyncframeHeader)
    → IsRead buf x
    → (b ≡ false → IsRead buf y)
    → IsRead buf (if b then x else y)
IsRead-if buf true x y f g = f
IsRead-if buf false x y f g = g refl

finish_header-IsRead :
    (sample_rate blocks : ℕ) (buf s : Bytes)
    → 7 ≤ declared_size buf
    → IsRead buf (finish_header sample_rate blocks buf s)
unfolding finish_header
finish_header-IsRead sample_rate blocks buf s l =
    let bsid = get_or buf 5 0 / 8 in
    IsRead-if buf (ltb bsid 11 || ltb 16 bsid) _ _ (inr (inr (inr (inr (inl refl)))))
      (λ _. (l, refl))

pub parse-IsRead : (buf : Bytes) → IsRead buf (parse_syncframe_header buf)
unfolding parse_syncframe_header
parse-IsRead buf =
    let fscod = get_or buf 4 0 / 64 in
    let code = get_or buf 4 0 / 16 % 4 in
    IsRead-if buf (not (get_or buf 0 0 == 0x0B && get_or buf 1 0 == 0x77)) _ _ (inl refl) (λ _.
      IsRead-if buf (get_or buf 2 0 / 64 == 3) _ _ (inr (inl refl)) (λ _.
        IsRead-if buf (ltb (declared_size buf) 7) _ _ (inr (inr (inl refl))) (λ b.
          let l : 7 ≤ declared_size buf = ground (arith, b) in
          IsRead-if buf (fscod == 3) _ _
            (IsRead-if buf (code == 3) _ _ (inr (inr (inr (inl refl))))
              (λ _. finish_header-IsRead (get_or sample_rates code 0 / 2) 6 buf buf l))
            (λ _.
              finish_header-IsRead (get_or sample_rates fscod 0) (get_or frame_blocks code 0) buf
                buf l))))
