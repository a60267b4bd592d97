-- ===== src/SampleAes.antt =====
-- sampleaes: the configuration, the `BlockCryptor` interface and its CBC implementation. AES itself
-- is a parameter, a function of the key and a block; the chaining is that of Go's `crypto/cipher`.
pub mod Chain
use Prim.Native.Nat.{bit_xor}
pub mod Quiet
use mpegenc.Common.{
  ℕ, zero, suc, ◌+◌, ◌/◌, ◌%◌, not, Option, none, some, [], ◌∷◌, ◌++◌, Bytes, length, take, drop,
  ◌==◌, if◌then◌else◌, Method, ok, err, Error, bad_key, bad_iv, not_block_multiple,
  cipher_mode_missing,
}

pub record Config : Type 0 where
  pub key : Bytes
  pub iv : Bytes

abbrev pub block_size : ℕ
block_size = 16

-- `none` is a nil error.
unfoldable pub validate : Config → Option Error
validate c =
    if not (length c.key == 16)
    then some bad_key
    else if not (length c.iv == 16)
    then some bad_iv
    else none

-- `BlockCryptor`, an interface; `CryptBlocks` works in place, and returns the new contents here.
pub record BlockCryptor (B : Type 0) : Type 0 where
  pub reset : Method B (Unit {0})
  pub crypt_blocks : Bytes → Method B Bytes

-- `mode` is nil before the first `Reset`, and then holds the block that the next one is chained to.
pub record CbcEncryptor : Type 0 where
  pub block : Bytes → Bytes
  pub init_iv : Bytes
  pub mode : Option Bytes

xor_bytes : Bytes → Bytes → Bytes
xor_bytes [] ys = []
xor_bytes (x ∷ xs) [] = []
xor_bytes (x ∷ xs) (y ∷ ys) = bit_xor x y ∷ xor_bytes xs ys

-- `cipher.BlockMode.CryptBlocks` over a number of blocks: the output and the block to chain next.
cbc : (Bytes → Bytes) → ℕ → Bytes → Bytes → Bytes × Bytes
unfolding xor_bytes
cbc block zero chain bs = ([], chain)
cbc block (suc k) chain bs =
    let c = block (xor_bytes (take block_size bs) chain) in
    let (out, last) = cbc block k c (drop block_size bs) in (c ++ out, last)

pub new_cbc_encryptor : (Bytes → Bytes → Bytes) → Config → CbcEncryptor
new_cbc_encryptor aes cfg = record {
  block = aes cfg.key;
  init_iv = take block_size cfg.iv;
  mode = none;
}

unfoldable pub reset : Method CbcEncryptor (Unit {0})
reset e = ok tt (record e { mode = some e.init_iv })

pub crypt_blocks : Bytes → Method CbcEncryptor Bytes
unfolding cbc
crypt_blocks bs e =
    if not (length bs % block_size == 0) then err not_block_multiple e else elim e.mode [
      | none ↦ err cipher_mode_missing e
      | some chain ↦
          let (out, last) = cbc e.block (length bs / block_size) chain bs in
          ok out (record e { mode = some last })
    ]

abbrev pub cbc_cryptor : BlockCryptor CbcEncryptor
cbc_cryptor = record { reset = reset; crypt_blocks = crypt_blocks }
