-- ===== src/Codecs/Avc/Nal.antt =====
-- ts/codecs/avc/transformer.go: the Sample-AES pattern of a NAL: 32 clear bytes, then a block encrypted
-- and nine blocks clear in turn, where a block is encrypted only if a byte follows it.
pub mod Short
pub mod Cut
pub mod Guarded
use mpegenc.Common.{
  is_some, ℕ, zero, suc, ◌+◌, ◌-◌, ◌*◌, ◌%◌, min, true, false, ◌&&◌, ◌||◌, [], ◌∷◌, ◌++◌, Bytes,
  length, get_or, take, drop, replicate, ltb, ◌==◌, if◌then◌else◌, Method, ok, err, and_then,
  bytes_before_start_code, start_code_without_header, out_of_fuel,
}
use mpegenc.SampleAes.{BlockCryptor}
use mpegenc.Packets.Pes.{PesHandler}
use mpegenc.Codecs.Avc.State.{
  NalState, outside, header, passthrough, protected, probe_size, clear_lead, block_size,
  pattern_skip_size, Transformer, on_block,
}
use mpegenc.Codecs.Avc.Writer.{write}

-- `copy` into the free part of an array of which `used` bytes are taken.
abbrev pub fitting : ℕ → Bytes → Bytes → ℕ
fitting size used bs = min (size - length used) (length bs)

-- `t.block != nil && (nalType == 1 || nalType == 5)`
unfoldable pub read_header : {W B : Type 0} → Bytes → Transformer W B → Transformer W B
read_header bs t =
    let nal_type = get_or bs 0 0 % 32 in
    record t {
      nal_state =
          if is_some t.block && (nal_type == 1 || nal_type == 5) then protected else passthrough;
    }

module _ {W B : Type 0} (handler : PesHandler W) (block : BlockCryptor B) where
  -- Encrypts 16 bytes of `pattern` in place.
  crypt_pattern : ℕ → Method (Transformer W B) (Unit {0})
  unfolding on_block
  crypt_pattern offset t =
      and_then (on_block (block.crypt_blocks (take block_size (drop offset t.pattern))) t)
        (λ out t1. ok tt (record t1 {
          pattern = take offset t1.pattern ++ out ++ drop (offset + block_size) t1.pattern;
        }))

  -- `write(pattern); patternLen = 0`, then a clear region.
  write_pattern : ℕ → Method (Transformer W B) (Unit {0})
  unfolding write
  write_pattern skip t =
      and_then (write handler t.pattern true t)
        (λ _ t1. ok tt (record t1 { pattern = []; nal_encrypted = true; skip = skip }))

  -- The probe: the first 49 bytes are kept back; the result is the data left for the loop.
  probe : Bytes → Method (Transformer W B) Bytes
  unfolding on_block crypt_pattern write_pattern
  probe bs t =
      let n = fitting probe_size t.pattern bs in
      let t1 = record t { pattern = t.pattern ++ take n bs } in
      if t.nal_encrypted
      then ok bs t
      else if ltb (length t1.pattern) probe_size
      then ok (drop n bs) t1
      else and_then (on_block block.reset t1) (λ _ t2.
        and_then (crypt_pattern clear_lead t2)
          (λ _ t3. and_then (write_pattern (pattern_skip_size - 1) t3) (λ _ t4. ok (drop n bs) t4)))

  -- One round of the loop over the data behind the probe; the result is the data left.
  pattern_round : Bytes → Method (Transformer W B) Bytes
  unfolding write crypt_pattern write_pattern
  pattern_round bs t =
      let n = min (length bs) t.skip in
      let m = fitting block_size t.pattern bs in
      if ltb 0 t.skip
      then and_then (write handler (take n bs) true t)
          (λ _ t1. ok (drop n bs) (record t1 { skip = t1.skip - n }))
      else if length t.pattern == block_size
      then and_then (crypt_pattern 0 t)
          (λ _ t1. and_then (write_pattern pattern_skip_size t1) (λ _ t2. ok bs t2))
      else ok (drop m bs) (record t { pattern = t.pattern ++ take m bs })

  -- Two rounds take a byte at least.
  pattern_loop : ℕ → Bytes → Method (Transformer W B) (Unit {0})
  unfolding pattern_round
  pattern_loop f [] t = ok tt t
  pattern_loop zero (b ∷ bs) t = err out_of_fuel t
  pattern_loop (suc f) (b ∷ bs) t =
      and_then (pattern_round (b ∷ bs) t) (λ rest t'. pattern_loop f rest t')

  pub write_protected : Bytes → Method (Transformer W B) (Unit {0})
  unfolding probe pattern_loop
  write_protected bs t = and_then (probe bs t) (λ rest t1. pattern_loop (2 * length rest) rest t1)

  -- `writeNAL` by the state of the NAL, once its header is read.
  write_body : NalState → Bytes → Method (Transformer W B) (Unit {0})
  unfolding write_protected write
  write_body outside bs t = err bytes_before_start_code t
  write_body header bs t = write_protected bs t
  write_body passthrough bs t = write handler bs false t
  write_body protected bs t = write_protected bs t

  unfoldable pub write_nal : Bytes → Method (Transformer W B) (Unit {0})
  unfolding write_body read_header
  write_nal bs t = elim t.nal_state [
    | outside ↦ err bytes_before_start_code t
    | header ↦ let t1 = read_header bs t in write_body t1.nal_state bs t1
    | passthrough ↦ write_body passthrough bs t
    | protected ↦ write_body protected bs t
  ]

  write_nal_zeros_loop : ℕ → ℕ → Method (Transformer W B) (Unit {0})
  unfolding write_nal
  write_nal_zeros_loop zero n t = ok tt t
  write_nal_zeros_loop (suc f) n t =
      if n == 0
      then ok tt t
      else and_then (write_nal (replicate (min n 256) 0) t)
          (λ _ t'. write_nal_zeros_loop f (n - min n 256) t')

  -- At most `n` rounds are made.
  unfoldable pub write_nal_zeros : ℕ → Method (Transformer W B) (Unit {0})
  unfolding write_nal_zeros_loop
  write_nal_zeros n t = write_nal_zeros_loop n n t

  -- What the pattern still holds goes out clear.
  unfoldable pub finish_nal : Method (Transformer W B) (Unit {0})
  unfolding write
  finish_nal t = elim t.nal_state [
    | header ↦ err start_code_without_header t
    | protected ↦
        and_then (write handler t.pattern t.nal_encrypted t)
          (λ _ t1. ok tt (record t1 { pattern = []; nal_state = outside }))
    | _ ↦ ok tt (record t { nal_state = outside })
  ]
