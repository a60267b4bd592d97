-- ===== src/Codecs/Avc/Nal/Cut.antt =====
-- A slice may be cut anywhere in its first 48 bytes.
use mpegenc.Common.{
  ℕ, zero, suc, ◌+◌, ◌-◌, ◌≤◌, ◌≡◌, refl, sym, ap, ◌∙◌, min, List, [], ◌∷◌, ◌++◌, Bytes, arith,
  length, take, drop, length-append, some, and_then, flatten,
}
use mpegenc.SampleAes.{BlockCryptor}
use mpegenc.Packets.Pes.{PesHandler}
use mpegenc.Codecs.Avc.State.{Transformer, begin_nal}
use mpegenc.Codecs.Avc.Nal.{probe, write_protected, write_nal}
use mpegenc.Codecs.Avc.Nal.Short.{
  probing, write_pieces, IsSlice, first-probing, write_nal-probing, all_pieces-probing,
}

take-append_over :
    (xs ys : Bytes) (m n : ℕ) → m ≡ length xs + n → take m (xs ++ ys) ≡ xs ++ take n ys
take-append_over [] ys m n e = ap (λ k. take k ys) (let z : m ≡ n = omega arith in z)
take-append_over (x ∷ xs) ys zero n e = absurd (omega arith)
take-append_over (x ∷ xs) ys (suc m) n e = ap (◌∷◌ x) (take-append_over xs ys m n (omega arith))

drop-append_over : (xs ys : Bytes) (m n : ℕ) → m ≡ length xs + n → drop m (xs ++ ys) ≡ drop n ys
drop-append_over [] ys m n e = ap (λ k. drop k ys) (let z : m ≡ n = omega arith in z)
drop-append_over (x ∷ xs) ys zero n e = absurd (omega arith)
drop-append_over (x ∷ xs) ys (suc m) n e = drop-append_over xs ys m n (omega arith)

IsSlice-append : (bs cs : Bytes) → IsSlice bs → IsSlice (bs ++ cs)
IsSlice-append [] cs s = absurd s
IsSlice-append (b ∷ bs) cs s = s

module _ {W B : Type 0} (handler : PesHandler W) (block : BlockCryptor B) where
  -- What was kept back can be given again with the bytes behind it.
  write_protected-append :
      (kept bs : Bytes) (t : Transformer W B)
      → length kept ≤ 48
      → write_protected handler block bs (probing handler block kept t)
        ≡ write_protected handler block (kept ++ bs) (probing handler block [] t)
  unfolding write_protected probe
  write_protected-append kept bs t l =
      let n = min (49 - length kept) (length bs) in
      let e : min (49 - 0) (length (kept ++ bs)) ≡ length kept + n =
        omega (arith, length-append kept bs) in
      sym (
        rw
          (
            take-append_over kept bs (min (49 - 0) (length (kept ++ bs))) n e,
            drop-append_over kept bs (min (49 - 0) (length (kept ++ bs))) n e,
          )
          refl)

  continued :
      (kept bs : Bytes) (t : Transformer W B)
      → length kept ≤ 48
      → write_nal handler block bs (probing handler block kept t)
        ≡ write_protected handler block (kept ++ bs) (probing handler block [] t)
  unfolding write_nal
  continued kept bs t l = write_protected-append kept bs t l

  -- If a NAL of type 1 or 5 comes in pieces, and no more than 48 bytes of it in front of the last, the
  -- calls do the same as one call with all of it.
  pub write_pieces-flatten :
      (first : Bytes) (pieces : List Bytes) (last : Bytes) (c : B) (t : Transformer W B)
      → IsSlice first
      → length (flatten (first ∷ pieces)) ≤ 48
      → and_then
          (write_pieces handler block (first ∷ pieces) (begin_nal (record t { block = some c })))
          (λ _ t1. write_nal handler block last t1)
        ≡ write_nal handler block
            (flatten (first ∷ pieces) ++ last)
            (begin_nal (record t { block = some c }))
  unfolding flatten
  write_pieces-flatten first pieces last c t s l =
      let n = length-append first (flatten pieces) in
      let opened = begin_nal (record t { block = some c }) in
      ap
        (λ o.
          and_then (and_then o (λ _ t1. write_pieces handler block pieces t1))
            (λ _ t1. write_nal handler block last t1))
        (first-probing handler block first c t s
          ∙ write_nal-probing handler block first [] opened (omega (arith, n)))
      ∙ ap (λ o. and_then o (λ _ t1. write_nal handler block last t1))
          (all_pieces-probing handler block pieces first opened (omega (arith, n)))
      ∙ continued (first ++ flatten pieces) last opened (omega (arith, n))
      ∙ sym (
          first-probing handler block ((first ++ flatten pieces) ++ last) c t (
            IsSlice-append (first ++ flatten pieces) last
              (IsSlice-append first (flatten pieces) s)))
