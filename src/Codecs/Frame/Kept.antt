-- ===== src/Codecs/Frame/Kept.antt =====
-- The encryption of a frame and its output keep the buffer and the queue of PES records in step.
use mpegenc.Common.{
  ℕ, ◌+◌, ◌-◌, ◌%◌, ◌≤◌, ◌<◌, ◌≡◌, refl, sym, ap, ap₂, subst, ◌∙◌, ◌⊎◌, inl, inr, Bool, true, false,
  List, ◌++◌, Bytes, arith, length, take, drop, ltb, Method, Outcome, ok, err, and_then,
  Outcome-cases, Bool-cases, length-take, length-drop, length-append, external, Error,
}
use mpegenc.SampleAes.{BlockCryptor}
use mpegenc.Pmt.{Patch}
use mpegenc.Codecs.PesQueue.{PendingPes, Transformer, write}
use mpegenc.Codecs.PesQueue.Delivery.{total, IsValid, IsQueue, Settled, Delivers, write-Delivers}
use mpegenc.Packets.Pes.Strict.{Downstream, strict}
use mpegenc.Codecs.Frame.{protected_size, reset_block, crypt_range, protect, write_frame}

-- What the transformers rely on: after a reset, whole blocks are encrypted to as many bytes. `Ready` is
-- what holds of the cipher's states.
pub record IsCryptor {B : Type 0} (block : BlockCryptor B) (Ready : B → Type 0) : Type 0 where
  pub crypts :
      (bs : Bytes) (b : B)
      → Ready b
      → length bs % 16 ≡ 0
      → (out : Bytes) × (b' : B) × (and_then (block.reset b) (λ _ b1. block.crypt_blocks bs b1)
          ≡ ok out b')
        × (length out ≡ length bs)
        × Ready b'

-- The signal leaves the handler's state, and fails by an error of its own only.
abbrev pub IsSignal : (Patch → Method Downstream (Unit {0})) → Type 0
IsSignal signal =
    (p : Patch) (w : Downstream)
    → (signal p w ≡ ok tt w) ⊎ ((n : ℕ) × (signal p w ≡ err (external n) w))

-- The bytes handed on and those in the buffer.
abbrev pub held : {B : Type 0} → Transformer Downstream B → ℕ
held t = length t.next.bytes + length t.buffer

module _ {B : Type 0} (block : BlockCryptor B) (Ready : B → Type 0)
    (cryptor : IsCryptor block Ready) where
  -- The records wait for the bytes in the buffer, no more and no less.
  pub record IsKept (t : Transformer Downstream B) : Type 0 where
    pub valid : IsValid t
    pub balanced : total t.pes ≡ length t.buffer
    pub ready : Ready t.block

  -- Only the contents of the buffer and the cipher change.
  abbrev pub Protects :
      Transformer Downstream B → Outcome (Transformer Downstream B) (Unit {0}) → Type 0
  Protects t0 (ok a t) =
      (t.next ≡ t0.next) × (t.pes ≡ t0.pes) × (length t.buffer ≡ length t0.buffer) × Ready t.block
  Protects t0 (err e t) = ⊥

  crypt_after_reset :
      (bs : Bytes) (b b1 b' : B) (out : Bytes)
      → block.reset b ≡ ok tt b1
      → and_then (block.reset b) (λ _ b1. block.crypt_blocks bs b1) ≡ ok out b'
      → block.crypt_blocks bs b1 ≡ ok out b'
  crypt_after_reset bs b b1 b' out e h =
      ap (λ o. and_then o (λ _ b1. block.crypt_blocks bs b1)) (sym e) ∙ h

  pub range_length :
      (buf out : Bytes) (lead size : ℕ)
      → lead + size ≤ length buf
      → length out ≡ size
      → length (take lead buf ++ out ++ drop (lead + size) buf) ≡ length buf
  range_length buf out lead size h e = omega (
    arith,
    length-append (take lead buf ++ out) (drop (lead + size) buf),
    length-append (take lead buf) out,
    length-take lead buf,
    length-drop (lead + size) buf,
  )

  encrypt-Protects :
      (lead size : ℕ) (t : Transformer Downstream B)
      → Ready t.block
      → lead + size ≤ length t.buffer
      → size % 16 ≡ 0
      → Protects t (and_then (reset_block block t) (λ _ t1. crypt_range block lead size t1))
  unfolding reset_block crypt_range
  encrypt-Protects lead size t r h z =
      let bs = take size (drop lead t.buffer) in
      let n : length bs ≡ size =
        omega (arith, length-take size (drop lead t.buffer), length-drop lead t.buffer) in
      let (out, b', e, l, r') = cryptor.crypts bs t.block r (n' bs n) in
      elim (Outcome-cases (block.reset t.block)) [
        | inl (a, b1, f) ↦
            rw (f, crypt_after_reset bs t.block b1 b' out f e)
              (refl, refl, range_length t.buffer out lead size h (l ∙ n), r')
        | inr (x, b1, f) ↦ absurd (
            let c : err x b1 ≡ ok out b' =
              ap (λ o. and_then o (λ _ b1. block.crypt_blocks bs b1)) (sym f) ∙ e in
            cc)
      ]
    where
      n' : (bs : Bytes) → length bs ≡ size → length bs % 16 ≡ 0
      n' bs n = omega arith

  pub protect-Protects :
      (lead size : ℕ) (t : Transformer Downstream B)
      → Ready t.block
      → size ≤ length t.buffer
      → Protects t (protect block lead size t)
  unfolding protect
  protect-Protects lead size t r h = elim (Bool-cases (ltb lead size)) [
    | inl a ↦ elim (Bool-cases (ltb 0 (protected_size lead size))) [
      | inl b ↦
          let l : lead < size = ground arith in
          rw (a, b)
            (encrypt-Protects lead (protected_size lead size) t r (omega arith) (omega arith))
      | inr b ↦ rw (a, b, protect) (refl, refl, refl, r)
    ]
    | inr a ↦ rw (a, protect) (refl, refl, refl, r)
  ]

  -- A round that goes on leaves less in the buffer, and one that ends the loop may leave as much; both
  -- keep the records in step and the number of bytes. An error is one of those that `Refused` allows.
  abbrev pub Rounds : (Error → Type 0) → ℕ → ℕ → Outcome (Transformer Downstream B) Bool → Type 0
  Rounds Refused k l (ok true t) = IsKept t × (held t ≡ k) × (length t.buffer < l)
  Rounds Refused k l (ok false t) = IsKept t × (held t ≡ k)
  Rounds Refused k l (err e t) = Refused e

  -- The same of a whole call.
  abbrev pub Keeps : (Error → Type 0) → ℕ → Outcome (Transformer Downstream B) (Unit {0}) → Type 0
  Keeps Refused k (ok a t) = IsKept t × (held t ≡ k)
  Keeps Refused k (err e t) = Refused e

  protected-IsKept :
      (t t1 : Transformer Downstream B)
      → IsKept t
      → Protects t (ok tt t1)
      → IsKept t1 × (held t1 ≡ held t)
  protected-IsKept t t1 v (n, p, l, r) = (
    record {
      valid = record {
        queue =
            subst (λ (q : Downstream × List PendingPes). IsQueue q.0.open_pes q.1)
              (ap₂ (λ a b. (a, b)) (sym n) (sym p)) v.valid.queue;
        settled = subst Settled (sym p) v.valid.settled;
      };
      balanced = ap total p ∙ v.balanced ∙ sym l;
      ready = r;
    },
    ap₂ ◌+◌ (ap (λ (w : Downstream). length w.bytes) n) l,
  )

  module _ (Refused : Error → Type 0) (signal : Patch → Method Downstream (Unit {0})) where
    taken :
        (o : Outcome (Transformer Downstream B) (Unit {0})) (t : Transformer Downstream B)
        (size : ℕ)
        → IsKept t
        → 0 < size
        → size ≤ length t.buffer
        → Delivers
            (t.next.bytes ++ take size t.buffer)
            (total t.pes - length (take size t.buffer))
            (t.buffer, t.block)
            o
        → Rounds Refused
            (held t)
            (length t.buffer)
            (and_then o (λ _ t1. ok true (record t1 { buffer = drop size t1.buffer })))
    taken (ok a t1) t size v z h (w, b, m, e) =
        let eb = ap (λ (p : Bytes × B). length p.0) e in
        let lt = length-take size t.buffer in
        let ld = length-drop size t1.buffer in
        (
          record {
            valid = record { queue = w.queue; settled = w.settled };
            balanced = omega (arith, m, eb, lt, ld, v.balanced);
            ready = subst Ready (sym (ap (λ (p : Bytes × B). p.1) e)) v.ready;
          },
          omega
              (arith, ap length b, length-append t.next.bytes (take size t.buffer), eb, lt, ld, h),
          omega (arith, eb, ld, z, h),
        )
    taken (err x t1) t size v z h d = absurd d

    write_frame-Rounds :
        (size : ℕ) (t : Transformer Downstream B)
        → IsKept t
        → 0 < size
        → size ≤ length t.buffer
        → Rounds Refused (held t) (length t.buffer) (write_frame strict signal size t)
    unfolding write_frame
    write_frame-Rounds size t v z h = taken (write strict (take size t.buffer) t) t size v z h (
        write-Delivers (take size t.buffer) t v.valid
          (omega (arith, length-take size t.buffer, v.balanced)))

    pub after_protect :
        (o : Outcome (Transformer Downstream B) (Unit {0})) (t : Transformer Downstream B)
        (size : ℕ)
        → IsKept t
        → 0 < size
        → size ≤ length t.buffer
        → Protects t o
        → Rounds Refused
            (held t)
            (length t.buffer)
            (and_then o (λ _ t1. write_frame strict signal size t1))
    after_protect (ok a t1) t size v z h (n, p, l, r) =
        let (v1, e) = protected-IsKept t t1 v (n, p, l, r) in
        subst (λ k. Rounds Refused k (length t.buffer) (write_frame strict signal size t1)) e
          (subst (λ k. Rounds Refused (held t1) k (write_frame strict signal size t1)) l
            (write_frame-Rounds size t1 v1 z (omega (arith, l, h))))
    after_protect (err x t1) t size v z h d = absurd d

    -- A whole frame at the front of the buffer is encrypted, written and taken off.
    pub frame-Rounds :
        (lead size : ℕ) (t : Transformer Downstream B)
        → IsKept t
        → 0 < size
        → size ≤ length t.buffer
        → Rounds Refused
            (held t)
            (length t.buffer)
            (and_then (protect block lead size t) (λ _ t1. write_frame strict signal size t1))
    frame-Rounds lead size t v z h =
        after_protect (protect block lead size t) t size v z h
          (protect-Protects lead size t v.ready h)
