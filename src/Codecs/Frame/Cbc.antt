-- ===== src/Codecs/Frame/Cbc.antt =====
-- The CBC encryptor of sampleaes fills the interface that the transformers use it by.
use mpegenc.Common.{◌≡◌, some, Bytes, length}
use mpegenc.SampleAes.{CbcEncryptor, cbc_cryptor}
use mpegenc.SampleAes.Chain.{crypt_blocks-reset}
use mpegenc.Codecs.Frame.Kept.{IsCryptor}

-- Its block cipher gives blocks.
abbrev pub IsBlockCipher : CbcEncryptor → Type 0
IsBlockCipher e = (b : Bytes) → length (e.block b) ≡ 16

pub cbc_cryptor-IsCryptor : IsCryptor cbc_cryptor IsBlockCipher
cbc_cryptor-IsCryptor = record {
  crypts = λ bs e r z.
      let (out, last, same, l) = crypt_blocks-reset bs e r z in
      (out, record e { mode = some last }, same, l, r);
}
