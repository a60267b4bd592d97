-- ===== src/Common/Outcomes.antt =====
-- What a call leaves behind: a property of the state on success, and errors of a class on failure. One
-- rule for each way to build an outcome.
use mathlib.Core.Path.{◌≡◌}
use mathlib.Core.Bool.{Bool, true, false}
use mpegenc.Common.Tests.{if◌then◌else◌}
use mpegenc.Common.Methods.{
  Error, token_not_pending, token_committed, slots_unresolved, missing_writer, Method, Outcome, ok,
  err, and_then, within, map_state,
}

-- The errors of the output's slots, which no other part of the program raises.
abbrev pub of_slots : Error → Bool
of_slots token_not_pending = true
of_slots token_committed = true
of_slots slots_unresolved = true
of_slots missing_writer = true
of_slots _ = false

pub data Leaves {S A : Type 0} (P : S → Type 0) : Outcome S A → Type 0 where
  on_ok : {a : A} {s : S} → P s → Leaves P (ok a s)
  on_err : {e : Error} {s : S} → of_slots e ≡ false → Leaves P (err e s)

module _ {S A : Type 0} {P : S → Type 0} where
  pub Leaves-if :
      (b : Bool) (x y : Outcome S A) → Leaves P x → Leaves P y → Leaves P (if b then x else y)
  Leaves-if true x y p q = p
  Leaves-if false x y p q = q

  pub Leaves-map :
      {Q : S → Type 0} (o : Outcome S A) → Leaves P o → ((s : S) → P s → Q s) → Leaves Q o
  Leaves-map (ok a s) (on_ok p) f = on_ok (f s p)
  Leaves-map (err e s) (on_err n) f = on_err n

  pub Leaves-and_then :
      {B : Type 0} {Q : S → Type 0} (o : Outcome S A) (f : A → Method S B)
      → Leaves P o
      → ((a : A) (s : S) → P s → Leaves Q (f a s))
      → Leaves Q (and_then o f)
  Leaves-and_then (ok a s) f (on_ok p) k = k a s p
  Leaves-and_then (err e s) f (on_err n) k = on_err n

  pub Leaves-within :
      {T : Type 0} {Q : T → Type 0} (put : T → S → T) (t : T) (o : Outcome S A)
      → Leaves P o
      → ((s : S) → P s → Q (put t s))
      → Leaves Q (within put t o)
  Leaves-within put t (ok a s) (on_ok p) k = on_ok (k s p)
  Leaves-within put t (err e s) (on_err n) k = on_err n

  pub Leaves-map_state :
      {T : Type 0} {Q : T → Type 0} (f : S → T) (o : Outcome S A)
      → Leaves P o
      → ((s : S) → P s → Q (f s))
      → Leaves Q (map_state f o)
  Leaves-map_state f (ok a s) (on_ok p) k = on_ok (k s p)
  Leaves-map_state f (err e s) (on_err n) k = on_err n

-- The same with the result.
pub data Gives {S A : Type 0} (P : A → S → Type 0) : Outcome S A → Type 0 where
  gives_ok : {a : A} {s : S} → P a s → Gives P (ok a s)
  gives_err : {e : Error} {s : S} → of_slots e ≡ false → Gives P (err e s)

module _ {S A : Type 0} where
  pub Gives-and_then :
      {B : Type 0} {P : S → Type 0} {Q : B → S → Type 0} (o : Outcome S A) (f : A → Method S B)
      → Leaves P o
      → ((a : A) (s : S) → P s → Gives Q (f a s))
      → Gives Q (and_then o f)
  Gives-and_then (ok a s) f (on_ok p) k = k a s p
  Gives-and_then (err e s) f (on_err n) k = gives_err n

  pub Leaves-after :
      {B : Type 0} {P : A → S → Type 0} {Q : S → Type 0} (o : Outcome S A) (f : A → Method S B)
      → Gives P o
      → ((a : A) (s : S) → P a s → Leaves Q (f a s))
      → Leaves Q (and_then o f)
  Leaves-after (ok a s) f (gives_ok p) k = k a s p
  Leaves-after (err e s) f (gives_err n) k = on_err n

  pub Gives-within :
      {T : Type 0} {P : A → S → Type 0} {Q : A → T → Type 0} (put : T → S → T) (t : T)
      (o : Outcome S A)
      → Gives P o
      → ((a : A) (s : S) → P a s → Q a (put t s))
      → Gives Q (within put t o)
  Gives-within put t (ok a s) (gives_ok p) k = gives_ok (k a s p)
  Gives-within put t (err e s) (gives_err n) k = gives_err n
