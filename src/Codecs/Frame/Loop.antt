-- ===== src/Codecs/Frame/Loop.antt =====
-- The loop of `processFrames`, for the codecs that share its shape: rounds that keep the records in step
-- end the loop on every buffer.
use mpegenc.Common.{
  ℕ, zero, suc, ◌<◌, ◌≡◌, sym, subst, inl, inr, Bool, true, false, arith, length, if◌then◌else◌,
  Method, Outcome, ok, err, and_then, external, Error,
}
use mpegenc.SampleAes.{BlockCryptor}
use mpegenc.Pmt.{Patch}
use mpegenc.Codecs.PesQueue.{Transformer}
use mpegenc.Packets.Pes.Strict.{Downstream, strict}
use mpegenc.Codecs.Frame.{send_config}
use mpegenc.Codecs.Frame.Kept.{IsCryptor, IsSignal, IsKept, Rounds, Keeps, held}

module _ {B : Type 0} (block : BlockCryptor B) (Ready : B → Type 0)
    (cryptor : IsCryptor block Ready) (Refused : Error → Type 0) where
  abbrev Kept : Transformer Downstream B → Type 0
  Kept = IsKept block Ready cryptor

  abbrev Does : ℕ → ℕ → Outcome (Transformer Downstream B) Bool → Type 0
  Does = Rounds block Ready cryptor Refused

  abbrev Ends : ℕ → Outcome (Transformer Downstream B) (Unit {0}) → Type 0
  Ends = Keeps block Ready cryptor Refused

  pub either_way :
      (c : Bool) (x y : Outcome (Transformer Downstream B) Bool) (k l : ℕ)
      → Does k l x
      → Does k l y
      → Does k l (if c then x else y)
  either_way true x y k l p q = p
  either_way false x y k l p q = q

  -- A round goes on behind the config, whose only errors are the signal's.
  pub sent-Rounds :
      (signal : Patch → Method Downstream (Unit {0})) (patch : Patch)
      (frame : Method (Transformer Downstream B) Bool) (t : Transformer Downstream B)
      → IsSignal signal
      → ((n : ℕ) → Refused (external n))
      → ((t' : Transformer Downstream B) → Kept t' → Does (held t') (length t'.buffer) (frame t'))
      → Kept t
      → Does
          (held t)
          (length t.buffer)
          (and_then (send_config strict signal patch t) (λ _ t1. frame t1))
  unfolding send_config
  sent-Rounds signal patch frame t lawful refused frames v = elim (lawful patch t.next) [
    | inl s ↦ rw s (
        frames (record t { config_sent = true })
          (record {
            valid = record { queue = v.valid.queue; settled = v.valid.settled };
            balanced = v.balanced;
            ready = v.ready;
          }))
    | inr (n, s) ↦ rw s (refused n)
  ]

  -- The loop's own equation and its rounds are given.
  module _ (round : Method (Transformer Downstream B) Bool)
      (loop : ℕ → Method (Transformer Downstream B) (Unit {0}))
      (unrolled : (f : ℕ) (t : Transformer Downstream B)
        → loop (suc f) t
          ≡ and_then (round t) (λ more t1. elim more [ true ↦ loop f t1 | false ↦ ok tt t1 ]))
      (rounds : (t : Transformer Downstream B)
        → Kept t
        → Does (held t) (length t.buffer) (round t)) where
    next_round :
        (f : ℕ) (o : Outcome (Transformer Downstream B) Bool) (k l : ℕ)
        → Does k l o
        → l < suc f
        → ((t : Transformer Downstream B) → Kept t → length t.buffer < f → Ends (held t) (loop f t))
        → Ends k (and_then o (λ more t1. elim more [ true ↦ loop f t1 | false ↦ ok tt t1 ]))
    next_round f (ok true t) k l (v, e, h) m g =
        subst (λ n. Ends n (loop f t)) e (g t v (omega arith))
    next_round f (ok false t) k l p m g = p
    next_round f (err e t) k l p m g = p

    -- With more rounds than bytes the loop ends by itself.
    pub loop-Keeps :
        (f : ℕ) (t : Transformer Downstream B)
        → Kept t
        → length t.buffer < f
        → Ends (held t) (loop f t)
    loop-Keeps zero t v h = absurd (omega arith)
    loop-Keeps (suc f) t v h =
        subst (Ends (held t)) (sym (unrolled f t))
          (next_round f (round t) (held t) (length t.buffer) (rounds t v) h (loop-Keeps f))
