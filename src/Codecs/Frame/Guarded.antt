-- ===== src/Codecs/Frame/Guarded.antt =====
-- The frames' encryption and output reach what is behind them by the handler, the signal and the
-- cipher alone; so do the loops of `processFrames` over them.
use mpegenc.Common.{
  ℕ, zero, suc, ◌≡◌, subst, sym, Bool, true, false, Method, Outcome, ok, and_then, Leaves, on_ok,
}
use mpegenc.SampleAes.{BlockCryptor}
use mpegenc.Pmt.{Patch}
use mpegenc.Packets.Pes.{PesHandler}
use mpegenc.Packets.Pes.Guards.{Guards, GuardsSignal, IsQuiet}
use mpegenc.Codecs.PesQueue.{Transformer}
use mpegenc.Codecs.PesQueue.Guarded.{
  Behind, then-Leaves, on_block-Leaves, behind_rules, write-Leaves,
}
use mpegenc.Codecs.Frame.{reset_block, crypt_range, protect, send_config, write_frame}

module _ {W B : Type 0} (handler : PesHandler W) (block : BlockCryptor B)
    (signal : Patch → Method W (Unit {0})) (I : W → Type 0) (guards : Guards handler I)
    (signals : GuardsSignal signal I) (quiet : IsQuiet block) where
  abbrev Keeps : {A : Type 0} → Outcome (Transformer W B) A → Type 0
  Keeps o = Leaves (Behind I) o

  pub reset_block-Leaves : (t : Transformer W B) → I t.next → Keeps (reset_block block t)
  unfolding reset_block
  reset_block-Leaves t h = on_block-Leaves I t (block.reset t.block) h (quiet.quiet_reset t.block)

  pub crypt_range-Leaves :
      (offset size : ℕ) (t : Transformer W B) → I t.next → Keeps (crypt_range block offset size t)
  unfolding crypt_range
  crypt_range-Leaves offset size t h = search (behind_rules, quiet.quiet_crypt)

  pub protect-Leaves :
      (lead size : ℕ) (t : Transformer W B) → I t.next → Keeps (protect block lead size t)
  unfolding protect
  protect-Leaves lead size t h = search (behind_rules, reset_block-Leaves, crypt_range-Leaves)

  pub send_config-Leaves :
      (patch : Patch) (t : Transformer W B) → I t.next → Keeps (send_config handler signal patch t)
  unfolding send_config
  send_config-Leaves patch t h = search (behind_rules, signals)

  pub write_frame-Leaves :
      (size : ℕ) (t : Transformer W B) → I t.next → Keeps (write_frame handler signal size t)
  unfolding write_frame
  write_frame-Leaves size t h = search (behind_rules, write-Leaves handler I guards)

  -- A loop, by its equations.
  module _ (round : Method (Transformer W B) Bool) (loop : ℕ → Method (Transformer W B) (Unit {0}))
      (spent : (t : Transformer W B) → Keeps (loop zero t))
      (unrolled : (f : ℕ) (t : Transformer W B)
        → loop (suc f) t
          ≡ and_then (round t) (λ more t1. elim more [ true ↦ loop f t1 | false ↦ ok tt t1 ]))
      (rounds : (t : Transformer W B) → I t.next → Keeps (round t)) where
    go_on :
        (f : ℕ)
        → ((t : Transformer W B) → I t.next → Keeps (loop f t))
        → (more : Bool) (t : Transformer W B) → I t.next
        → Keeps {A = Unit {0}} (elim more [ true ↦ loop f t | false ↦ ok tt t ])
    go_on f k true t h = k t h
    go_on f k false t h = on_ok h

    pub loop-Leaves : (f : ℕ) (t : Transformer W B) → I t.next → Keeps (loop f t)
    loop-Leaves zero t h = spent t
    loop-Leaves (suc f) t h =
        subst (λ o. Keeps o) (sym (unrolled f t))
          (then-Leaves I (round t) (λ more t1. elim more [ true ↦ loop f t1 | false ↦ ok tt t1 ])
            (rounds t h) (go_on f (loop-Leaves f)))
