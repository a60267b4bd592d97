-- ===== src/Tests/Cases.antt =====
-- The escaper of ts/codecs/avc/ebsp.go and the cipher of sampleaes on a few bytes.
use mpegenc.Common.{
  ◌+◌, ◌%◌, ◌≡◌, refl, some, [], ◌∷◌, ◌++◌, Bytes, arith, length, get_or, replicate, and_then, ok,
}
use mpegenc.Codecs.Avc.Ebsp.{EbspEscaper, append, reset}
use mpegenc.Codecs.Avc.Ebsp.Spec.{escape, final_run, unescape, IsSafe}
use mpegenc.Codecs.Avc.Ebsp.Equal.{append-escape, append-append, append-unescape}
use mpegenc.SampleAes.{CbcEncryptor, crypt_blocks, new_cbc_encryptor}
use mpegenc.SampleAes
use mpegenc.SampleAes.Chain.{crypt_blocks-append, crypt_blocks-reset}

-- Three start-code prefixes, and zeros at the end.
abbrev nal : Bytes
nal = 101 ∷ 0 ∷ 0 ∷ 1 ∷ 0 ∷ 0 ∷ 3 ∷ 7 ∷ 0 ∷ 0 ∷ 0 ∷ 0 ∷ []

abbrev used : EbspEscaper
used = record { zero_run = 2 }

append_inserts :
    append (record { zero_run = 0 }) [] nal
    ≡ (101 ∷ 0 ∷ 0 ∷ 3 ∷ 1 ∷ 0 ∷ 0 ∷ 3 ∷ 3 ∷ 7 ∷ 0 ∷ 0 ∷ 3 ∷ 0 ∷ 0 ∷ [], record { zero_run = 2 })
unfolding append
append_inserts = refl

append-unescape_example :
    IsSafe 0 (append (reset used) [] nal).0 × (unescape 0 (append (reset used) [] nal).0 ≡ nal)
append-unescape_example = append-unescape used nal

append-escape_example :
    ((append used (9 ∷ []) nal).0 ≡ (9 ∷ []) ++ escape 2 nal)
    × ((append used (9 ∷ []) nal).1.zero_run ≡ final_run 2 nal)
append-escape_example = append-escape used (9 ∷ []) nal (omega arith)

append-append_example :
    append (append used (9 ∷ []) (0 ∷ 1 ∷ 0 ∷ [])).1 (append used (9 ∷ []) (0 ∷ 1 ∷ 0 ∷ [])).0 nal
    ≡ append used (9 ∷ []) ((0 ∷ 1 ∷ 0 ∷ []) ++ nal)
append-append_example = append-append used (9 ∷ []) (0 ∷ 1 ∷ 0 ∷ []) nal (omega arith)

-- A stand-in for the cipher, which gives blocks of 16 bytes.
abbrev toy_block : Bytes → Bytes
toy_block b = replicate 16 ((get_or b 0 0 + get_or b 1 0 + 1) % 256)

abbrev encryptor : CbcEncryptor
encryptor = record { block = toy_block; init_iv = replicate 16 5; mode = some (replicate 16 9) }

crypt_blocks-append_example :
    crypt_blocks (replicate 16 1 ++ replicate 32 2) encryptor
    ≡ and_then
        (crypt_blocks (replicate 16 1) encryptor)
        (λ out e'. and_then (crypt_blocks (replicate 32 2) e') (λ out' e''. ok (out ++ out') e''))
crypt_blocks-append_example =
    crypt_blocks-append (replicate 16 1) (replicate 32 2) encryptor refl refl

crypt_blocks-reset_example :
    (out : Bytes) × (last : Bytes) × (and_then
        (SampleAes.reset encryptor)
        (λ _ e'. crypt_blocks (replicate 32 2) e')
      ≡ ok out (record encryptor { mode = some last }))
    × (length out ≡ 32)
crypt_blocks-reset_example = crypt_blocks-reset (replicate 32 2) encryptor (λ b. refl) refl
