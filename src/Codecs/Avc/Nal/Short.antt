-- ===== src/Codecs/Avc/Nal/Short.antt =====
-- A slice of at most 48 bytes is not encrypted, however it is cut.
use mpegenc.Common.{
  ◌+◌, ◌%◌, ◌≤◌, ◌≡◌, refl, sym, ap, ◌∙◌, ◌⊎◌, inl, inr, true, false, some, List, [], ◌∷◌, ◌++◌,
  append-nil, append_assoc, Bytes, arith, length, take-all, drop-all, length-append, ltb, Method,
  ok, and_then, lt→ltb, flatten,
}
use mpegenc.SampleAes.{BlockCryptor}
use mpegenc.Packets.Pes.{PesHandler}
use mpegenc.Codecs.Avc.State.{outside, protected, Transformer, begin_nal}
use mpegenc.Codecs.Avc.Writer.{write}
use mpegenc.Codecs.Avc.Nal.{
  fitting, read_header, probe, pattern_loop, write_protected, write_nal, finish_nal,
}

-- The type in the header is that of a slice.
abbrev pub IsSlice : Bytes → Type 0
IsSlice [] = ⊥
IsSlice (b ∷ bs) = (b % 32 ≡ 1) ⊎ (b % 32 ≡ 5)

module _ {W B : Type 0} (handler : PesHandler W) (block : BlockCryptor B) where
  -- A slice of which `kept` was read and nothing written.
  abbrev pub probing : Bytes → Transformer W B → Transformer W B
  probing kept t = record t { nal_state = protected; nal_encrypted = false; pattern = kept }

  -- The pieces of a NAL, one after another.
  abbrev pub write_pieces : List Bytes → Method (Transformer W B) (Unit {0})
  write_pieces [] t = ok tt t
  write_pieces (bs ∷ pieces) t =
      and_then (write_nal handler block bs t) (λ _ t1. write_pieces pieces t1)

  pub write_nal-probing :
      (bs kept : Bytes) (t : Transformer W B)
      → length kept + length bs ≤ 48
      → write_protected handler block bs (probing kept t) ≡ ok tt (probing (kept ++ bs) t)
  unfolding write_protected probe pattern_loop
  write_nal-probing bs kept t l =
      let n : fitting 49 kept bs ≡ length bs = omega arith in
      let short : ltb (length (kept ++ bs)) 49 ≡ true =
        lt→ltb (length (kept ++ bs)) 49 (omega (arith, length-append kept bs)) in
      rw (n, take-all bs (length bs) (omega arith), drop-all bs (length bs) (omega arith), short)
        refl

  pub all_pieces-probing :
      (pieces : List Bytes) (kept : Bytes) (t : Transformer W B)
      → length kept + length (flatten pieces) ≤ 48
      → write_pieces pieces (probing kept t) ≡ ok tt (probing (kept ++ flatten pieces) t)
  unfolding write_nal flatten
  all_pieces-probing [] kept t l = ap (λ bs. ok tt (probing bs t)) (sym (append-nil kept))
  all_pieces-probing (bs ∷ pieces) kept t l =
      let n = length-append bs (flatten pieces) in
      rw (write_nal-probing bs kept t (omega (arith, n))) (
        all_pieces-probing pieces (kept ++ bs) t (omega (arith, n, length-append kept bs))
        ∙ ap (λ bs. ok tt (probing bs t)) (append_assoc kept bs (flatten pieces)))

  -- The header of a slice opens it.
  pub first-probing :
      (bs : Bytes) (c : B) (t : Transformer W B)
      → IsSlice bs
      → write_nal handler block bs (begin_nal (record t { block = some c }))
        ≡ write_protected handler block bs (probing [] (begin_nal (record t { block = some c })))
  unfolding write_nal read_header begin_nal
  first-probing [] c t s = absurd s
  first-probing (b ∷ bs) c t (inl e) = rw (e, write_nal) refl
  first-probing (b ∷ bs) c t (inr e) = rw (e, write_nal) refl

  -- A NAL of type 1 or 5 that has at most 48 bytes goes out at its end, in one call of `write`, as it is: without
  -- encryption and without an escape, whatever the pieces are in which it comes, once a start code
  -- has opened it. The cipher stays as it is.
  pub finish_nal-write_pieces :
      (first : Bytes) (pieces : List Bytes) (c : B) (t : Transformer W B)
      → IsSlice first
      → length (flatten (first ∷ pieces)) ≤ 48
      → and_then
          (write_pieces (first ∷ pieces) (begin_nal (record t { block = some c })))
          (λ _ t1. finish_nal handler block t1)
        ≡ and_then
            (write handler
              (flatten (first ∷ pieces))
              false
              (probing (flatten (first ∷ pieces)) (begin_nal (record t { block = some c }))))
            (λ _ t1. ok tt (record t1 { pattern = []; nal_state = outside }))
  unfolding finish_nal flatten
  finish_nal-write_pieces first pieces c t s l =
      let n = length-append first (flatten pieces) in
      let opened = begin_nal (record t { block = some c }) in
      ap
        (λ o.
          and_then (and_then o (λ _ t1. write_pieces pieces t1))
            (λ _ t1. finish_nal handler block t1))
        (first-probing first c t s ∙ write_nal-probing first [] opened (omega (arith, n)))
      ∙ ap (λ o. and_then o (λ _ t1. finish_nal handler block t1))
          (all_pieces-probing pieces first opened (omega (arith, n)))
