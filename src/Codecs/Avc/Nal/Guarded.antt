-- ===== src/Codecs/Avc/Nal/Guarded.antt =====
-- The Sample-AES pattern of the AVC transformer reaches what is behind it by `write` alone.
use mpegenc.Common.{
  ℕ, zero, suc, ◌-◌, refl, min, false, Option, none, some, [], ◌∷◌, Bytes, replicate, ◌==◌, Method,
  Outcome, ok, err, and_then, within, nil_dereference, bytes_before_start_code,
  start_code_without_header, Leaves, on_ok, on_err, Leaves-if,
}
use mpegenc.SampleAes.{BlockCryptor}
use mpegenc.Packets.Pes.{PesHandler}
use mpegenc.Packets.Pes.Guards.{Guards, IsQuiet, Anything}
use mpegenc.Codecs.Avc.State.{
  NalState, outside, header, passthrough, protected, Transformer, on_block,
}
use mpegenc.Codecs.Avc.Writer.{write}
use mpegenc.Codecs.Avc.Writer.Guarded.{Behind, then-Leaves, avc_rules, write-Leaves}
use mpegenc.Codecs.Avc.Nal.{
  read_header, crypt_pattern, write_pattern, probe, pattern_round, pattern_loop, write_protected,
  write_body, write_nal, write_nal_zeros_loop, write_nal_zeros, finish_nal,
}

module _ {W B : Type 0} (handler : PesHandler W) (block : BlockCryptor B) (I : W → Type 0)
    (guards : Guards handler I) (quiet : IsQuiet block) where
  abbrev pub Keeps : {A : Type 0} → Outcome (Transformer W B) A → Type 0
  Keeps o = Leaves (Behind I) o

  on_block-Leaves :
      {A : Type 0} (call : Method B A) (t : Transformer W B)
      → I t.next
      → ((b : B) → Leaves Anything (call b))
      → Keeps (on_block call t)
  unfolding on_block
  on_block-Leaves call t h l = with_block call t t.block h l
    where
      put :
          {A : Type 0} (t : Transformer W B) (o : Outcome B A)
          → I t.next
          → Leaves Anything o
          → Keeps (within (λ (t : Transformer W B) b. record t { block = some b }) t o)
      put t (ok a b) h (on_ok u) = on_ok h
      put t (err e b) h (on_err n) = on_err n

      with_block :
          {A : Type 0} (call : Method B A) (t : Transformer W B) (b : Option B)
          → I t.next
          → ((b : B) → Leaves Anything (call b))
          → Keeps (elim b [
            | none ↦ err nil_dereference t
            | some b ↦ within (λ (t : Transformer W B) b. record t { block = some b }) t (call b)
          ])
      with_block call t none h l = on_err refl
      with_block call t (some b) h l = put t (call b) h (l b)

  crypt_pattern-Leaves :
      (offset : ℕ) (t : Transformer W B) → I t.next → Keeps (crypt_pattern handler block offset t)
  unfolding crypt_pattern
  crypt_pattern-Leaves offset t h = search (avc_rules, on_block-Leaves, quiet.quiet_crypt)

  write_pattern-Leaves :
      (skip : ℕ) (t : Transformer W B) → I t.next → Keeps (write_pattern handler block skip t)
  unfolding write_pattern
  write_pattern-Leaves skip t h = search (avc_rules, write-Leaves handler I guards)

  probe-Leaves : (bs : Bytes) (t : Transformer W B) → I t.next → Keeps (probe handler block bs t)
  unfolding probe
  probe-Leaves bs t h =
      search
        (avc_rules, on_block-Leaves, quiet.quiet_reset, crypt_pattern-Leaves, write_pattern-Leaves)
        depth 10

  pattern_round-Leaves :
      (bs : Bytes) (t : Transformer W B) → I t.next → Keeps (pattern_round handler block bs t)
  unfolding pattern_round
  pattern_round-Leaves bs t h =
      search (avc_rules, write-Leaves handler I guards, crypt_pattern-Leaves, write_pattern-Leaves)
        depth 9

  pattern_loop-Leaves :
      (f : ℕ) (bs : Bytes) (t : Transformer W B)
      → I t.next
      → Keeps (pattern_loop handler block f bs t)
  unfolding pattern_loop
  pattern_loop-Leaves f [] t h = on_ok h
  pattern_loop-Leaves zero (b ∷ bs) t h = on_err refl
  pattern_loop-Leaves (suc f) (b ∷ bs) t h =
      then-Leaves I (pattern_round handler block (b ∷ bs) t)
        (λ rest t'. pattern_loop handler block f rest t') (pattern_round-Leaves (b ∷ bs) t h)
        (λ rest t' h'. pattern_loop-Leaves f rest t' h')

  write_protected-Leaves :
      (bs : Bytes) (t : Transformer W B) → I t.next → Keeps (write_protected handler block bs t)
  unfolding write_protected
  write_protected-Leaves bs t h = search (avc_rules, probe-Leaves, pattern_loop-Leaves)

  write_body-Leaves :
      (s : NalState) (bs : Bytes) (t : Transformer W B)
      → I t.next
      → Keeps (write_body handler block s bs t)
  unfolding write_body
  write_body-Leaves outside bs t h = on_err refl
  write_body-Leaves header bs t h = write_protected-Leaves bs t h
  write_body-Leaves passthrough bs t h = write-Leaves handler I guards bs false t h
  write_body-Leaves protected bs t h = write_protected-Leaves bs t h

  pub write_nal-Leaves :
      (bs : Bytes) (t : Transformer W B) → I t.next → Keeps (write_nal handler block bs t)
  unfolding write_nal read_header
  write_nal-Leaves bs t h = by_state t.nal_state
    where
      by_state :
          (s : NalState)
          → Keeps (elim s [
            | outside ↦ err bytes_before_start_code t
            | header ↦ let t1 = read_header bs t in write_body handler block t1.nal_state bs t1
            | passthrough ↦ write_body handler block passthrough bs t
            | protected ↦ write_body handler block protected bs t
          ])
      by_state outside = on_err refl
      by_state header = write_body-Leaves (read_header bs t).nal_state bs (read_header bs t) h
      by_state passthrough = write_body-Leaves passthrough bs t h
      by_state protected = write_body-Leaves protected bs t h

  write_nal_zeros_loop-Leaves :
      (f n : ℕ) (t : Transformer W B) → I t.next → Keeps (write_nal_zeros_loop handler block f n t)
  unfolding write_nal_zeros_loop
  write_nal_zeros_loop-Leaves zero n t h = on_ok h
  write_nal_zeros_loop-Leaves (suc f) n t h = Leaves-if (n == 0) (ok tt t) _ (on_ok h) (
      then-Leaves I (write_nal handler block (replicate (min n 256) 0) t)
        (λ _ t'. write_nal_zeros_loop handler block f (n - min n 256) t')
        (write_nal-Leaves (replicate (min n 256) 0) t h)
        (λ _ t' h'. write_nal_zeros_loop-Leaves f (n - min n 256) t' h'))

  pub write_nal_zeros-Leaves :
      (n : ℕ) (t : Transformer W B) → I t.next → Keeps (write_nal_zeros handler block n t)
  unfolding write_nal_zeros
  write_nal_zeros-Leaves n t h = write_nal_zeros_loop-Leaves n n t h

  pub finish_nal-Leaves : (t : Transformer W B) → I t.next → Keeps (finish_nal handler block t)
  unfolding finish_nal
  finish_nal-Leaves t h = by_state t.nal_state
    where
      by_state :
          (s : NalState)
          → Keeps {A = Unit {0}} (elim s [
            | header ↦ err start_code_without_header t
            | protected ↦
                and_then
                  (write handler t.pattern t.nal_encrypted t)
                  (λ _ t1. ok tt (record t1 { pattern = []; nal_state = outside }))
            | _ ↦ ok tt (record t { nal_state = outside })
          ])
      by_state outside = on_ok h
      by_state header = on_err refl
      by_state passthrough = on_ok h
      by_state protected = search (avc_rules, write-Leaves handler I guards)
