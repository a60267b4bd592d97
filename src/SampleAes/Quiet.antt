-- ===== src/SampleAes/Quiet.antt =====
-- The errors of the CBC encryptor are its own.
use mpegenc.Common.{
  refl, not, Option, none, some, Bytes, length, ◌/◌, ◌%◌, ◌==◌, ok, err, not_block_multiple,
  cipher_mode_missing, Leaves, on_ok, on_err, Leaves-if,
}
use mpegenc.SampleAes.{CbcEncryptor, cbc, block_size, reset, crypt_blocks, cbc_cryptor}
use mpegenc.Packets.Pes.Guards.{IsQuiet, Anything}

crypt_blocks-Quiet : (bs : Bytes) (e : CbcEncryptor) → Leaves Anything (crypt_blocks bs e)
unfolding crypt_blocks
crypt_blocks-Quiet bs e =
    Leaves-if (not (length bs % block_size == 0)) (err not_block_multiple e) _ (on_err refl)
      (by_mode e.mode)
  where
    by_mode :
        (m : Option Bytes)
        → Leaves {A = Bytes} Anything (elim m [
          | none ↦ err cipher_mode_missing e
          | some chain ↦
              let (out, last) = cbc e.block (length bs / block_size) chain bs in
              ok out (record e { mode = some last })
        ])
    by_mode none = on_err refl
    by_mode (some chain) = on_ok tt

reset-Quiet : (e : CbcEncryptor) → Leaves Anything (reset e)
unfolding reset
reset-Quiet e = on_ok tt

pub cbc_cryptor-IsQuiet : IsQuiet cbc_cryptor
cbc_cryptor-IsQuiet = record { quiet_reset = reset-Quiet; quiet_crypt = crypt_blocks-Quiet }
