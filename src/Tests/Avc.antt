-- ===== src/Tests/Avc.antt =====
-- A slice of nine bytes in four pieces, and a longer one that begins with them.
use mpegenc.Common.{
  ◌++◌, refl, inr, true, false, none, some, [], ◌∷◌, List, Bytes, replicate, arith, ◌≡◌, ok,
  and_then, flatten,
}
use mpegenc.SampleAes.{CbcEncryptor, cbc_cryptor}
use mpegenc.Packets.Pes.Strict.{Downstream, strict}
use mpegenc.Codecs.Avc.State.{Transformer, begin_nal, outside, passthrough}
use mpegenc.Codecs.Avc.Writer.{write}
use mpegenc.Codecs.Avc.Nal.{finish_nal, write_nal}
use mpegenc.Codecs.Avc.Nal.Cut.{write_pieces-flatten}
use mpegenc.Codecs.Avc.Nal.Short.{probing, write_pieces, finish_nal-write_pieces}

abbrev encryptor : CbcEncryptor
encryptor = record { block = λ b. replicate 16 170; init_iv = replicate 16 0; mode = none }

abbrev in_pes : Transformer Downstream CbcEncryptor
in_pes = record {
  next = record { open_pes = true; bytes = [] };
  block = some encryptor;
  input_pes_open = true;
  pes =
      record { header = 0 ∷ 0 ∷ 1 ∷ 0xE0 ∷ 0 ∷ 0 ∷ []; bytes = 9; ended = false; started = true }
      ∷ [];
  nal_state = passthrough;
  zero_run = 0;
  nal_encrypted = false;
  pattern = [];
  skip = 0;
  escaper = record { zero_run = 0 };
}

abbrev slice_front : Bytes
slice_front = 0x65 ∷ 0x88 ∷ []

abbrev slice_rest : List Bytes
slice_rest = (0 ∷ 0 ∷ 3 ∷ 1 ∷ []) ∷ [] ∷ (7 ∷ 7 ∷ 7 ∷ []) ∷ []

finish_nal-write_pieces_example :
    and_then
      (write_pieces strict cbc_cryptor
        (slice_front ∷ slice_rest)
        (begin_nal (record in_pes { block = some encryptor })))
      (λ _ t. finish_nal strict cbc_cryptor t)
    ≡ and_then
        (write strict (flatten (slice_front ∷ slice_rest)) false (
          probing strict cbc_cryptor
            (flatten (slice_front ∷ slice_rest))
            (begin_nal (record in_pes { block = some encryptor }))))
        (λ _ t. ok tt (record t { pattern = []; nal_state = outside }))
unfolding flatten
finish_nal-write_pieces_example =
    finish_nal-write_pieces strict cbc_cryptor slice_front slice_rest encryptor in_pes (inr refl)
      (omega arith)

abbrev slice_end : Bytes
slice_end = replicate 60 9

write_pieces-flatten_example :
    and_then
      (write_pieces strict cbc_cryptor
        (slice_front ∷ slice_rest)
        (begin_nal (record in_pes { block = some encryptor })))
      (λ _ t. write_nal strict cbc_cryptor slice_end t)
    ≡ write_nal strict cbc_cryptor
        (flatten (slice_front ∷ slice_rest) ++ slice_end)
        (begin_nal (record in_pes { block = some encryptor }))
unfolding flatten
write_pieces-flatten_example =
    write_pieces-flatten strict cbc_cryptor slice_front slice_rest slice_end encryptor in_pes
      (inr refl) (omega arith)
