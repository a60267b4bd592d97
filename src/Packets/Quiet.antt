-- ===== src/Packets/Quiet.antt =====
-- Rules for calls of which only the errors matter.
use mpegenc.Common.{Method, Outcome, ok, err, and_then, within, Leaves, on_ok, on_err}
use mpegenc.Packets.Pes.Guards.{Anything}

module _ {S : Type 0} where
  pub then-Quiet :
      {A C : Type 0} (o : Outcome S A) (f : A → Method S C)
      → Leaves Anything o
      → ((a : A) (s : S) → Leaves Anything (f a s))
      → Leaves Anything (and_then o f)
  then-Quiet (ok a s) f (on_ok u) k = k a s
  then-Quiet (err e s) f (on_err n) k = on_err n

  pub done-Quiet : {A : Type 0} (a : A) (s : S) → Leaves Anything (ok a s)
  done-Quiet a s = on_ok tt

  pub within-Quiet :
      {P A : Type 0} (put : S → P → S) (s : S) (o : Outcome P A)
      → Leaves Anything o
      → Leaves Anything (within put s o)
  within-Quiet put s (ok a p) (on_ok u) = on_ok tt
  within-Quiet put s (err e p) (on_err n) = on_err n
