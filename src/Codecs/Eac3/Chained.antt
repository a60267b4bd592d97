-- ===== src/Codecs/Eac3/Chained.antt =====
-- A cipher whose chain goes on from frame to frame, and the encryption of an E-AC-3 frame by it.
use mpegenc.Common.{
  ℕ, ◌+◌, ◌%◌, ◌≤◌, ◌<◌, ◌≡◌, refl, ap, ◌∙◌, inl, inr, Bytes, arith, length, take, drop, ltb,
  Method, ok, and_then, Bool-cases, length-take, length-drop, some,
}
use mpegenc.SampleAes.{BlockCryptor, CbcEncryptor, cbc_cryptor, reset}
use mpegenc.SampleAes.Chain.{crypt_blocks-chained}
use mpegenc.Pmt.{Patch}
use mpegenc.Codecs.PesQueue.{Transformer}
use mpegenc.Packets.Pes.Strict.{Downstream, strict}
use mpegenc.Codecs.Frame.{protected_size, crypt_range}
use mpegenc.Codecs.Frame.Kept.{IsCryptor, IsKept, Protects, range_length}
use mpegenc.Codecs.Frame.Cbc.{IsBlockCipher}
use mpegenc.Codecs.Eac3.{eac3_clear_lead, crypt_frame}

-- A reset begins a chain, and whole blocks go on with it.
pub record IsChain {B : Type 0} (block : BlockCryptor B) (Ready Chained : B → Type 0) : Type 0 where
  pub begins : (b : B) → Ready b → (b' : B) × (block.reset b ≡ ok tt b') × Chained b'
  pub goes_on :
      (bs : Bytes) (b : B)
      → Chained b
      → length bs % 16 ≡ 0
      → (out : Bytes) × (b' : B) × (block.crypt_blocks bs b ≡ ok out b')
        × (length out ≡ length bs)
        × Chained b'
  pub chained_ready : (b : B) → Chained b → Ready b

module _ {B : Type 0} (block : BlockCryptor B) (Ready Chained : B → Type 0)
    (chain : IsChain block Ready Chained) (signal : Patch → Method Downstream (Unit {0})) where
  chain-IsCryptor :
      (P : B → Type 0) → ((b : B) → P b → Ready b) → ((b : B) → Chained b → P b) → IsCryptor block P
  chain-IsCryptor P f g = record {
    crypts = λ bs b r z.
        let (b1, e, c) = chain.begins b (f b r) in
        let (out, b', s, l, c') = chain.goes_on bs b1 c z in
        (out, b', ap (λ o. and_then o (λ _ b1. block.crypt_blocks bs b1)) e ∙ s, l, g b' c');
  }

  pub ready_cryptor : IsCryptor block Ready
  ready_cryptor = chain-IsCryptor Ready (λ b r. r) chain.chained_ready

  pub chained_cryptor : IsCryptor block Chained
  chained_cryptor = chain-IsCryptor Chained chain.chained_ready (λ b c. c)

  abbrev pub KeptReady : Transformer Downstream B → Type 0
  KeptReady = IsKept block Ready ready_cryptor

  abbrev pub KeptChained : Transformer Downstream B → Type 0
  KeptChained = IsKept block Chained chained_cryptor

  pub chained-KeptReady : (t : Transformer Downstream B) → KeptChained t → KeptReady t
  chained-KeptReady t v = record {
    valid = v.valid;
    balanced = v.balanced;
    ready = chain.chained_ready t.block v.ready;
  }

  crypt_range-Protects :
      (lead size : ℕ) (t : Transformer Downstream B)
      → Chained t.block
      → lead + size ≤ length t.buffer
      → size % 16 ≡ 0
      → Protects block Chained chained_cryptor t (crypt_range block lead size t)
  unfolding crypt_range
  crypt_range-Protects lead size t c h z =
      let bs = take size (drop lead t.buffer) in
      let n : length bs ≡ size =
        omega (arith, length-take size (drop lead t.buffer), length-drop lead t.buffer) in
      let m : length bs % 16 ≡ 0 = ap (λ k. k % 16) n ∙ z in
      let (out, b', e, l, c') = chain.goes_on bs t.block c m in
      rw e (
        refl,
        refl,
        range_length block Chained chained_cryptor t.buffer out lead size h (l ∙ n),
        c',
      )

  -- Without a reset, the frame goes on with the chain.
  pub crypt_frame-Protects :
      (size : ℕ) (t : Transformer Downstream B)
      → Chained t.block
      → size ≤ length t.buffer
      → Protects block Chained chained_cryptor t (crypt_frame strict block signal size t)
  unfolding crypt_frame
  crypt_frame-Protects size t c h = elim (Bool-cases (ltb eac3_clear_lead size)) [
    | inl a ↦ elim (Bool-cases (ltb 0 (protected_size eac3_clear_lead size))) [
      | inl b ↦
          let l : eac3_clear_lead < size = ground arith in
          rw (a, b)
            (crypt_range-Protects eac3_clear_lead (protected_size eac3_clear_lead size) t c
              (omega arith) (omega arith))
      | inr b ↦ rw (a, b, crypt_frame) (refl, refl, refl, c)
    ]
    | inr a ↦ rw (a, crypt_frame) (refl, refl, refl, c)
  ]

-- The CBC encryptor has a chain once it was reset.
abbrev pub IsChaining : CbcEncryptor → Type 0
IsChaining e = IsBlockCipher e × ((last : Bytes) × (e.mode ≡ some last))

pub cbc_cryptor-IsChain : IsChain cbc_cryptor IsBlockCipher IsChaining
unfolding reset
cbc_cryptor-IsChain = record {
  begins = λ e r. (record e { mode = some e.init_iv }, refl, (r, (e.init_iv, refl)));
  goes_on = λ bs e (r, (last, m)) z.
      let (out, last', s, l) = crypt_blocks-chained bs last e r m z in
      (out, record e { mode = some last' }, s, l, (r, (last', refl)));
  chained_ready = λ e (r, c). r;
}
