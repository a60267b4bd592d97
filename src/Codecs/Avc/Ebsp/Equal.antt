-- ===== src/Codecs/Avc/Ebsp/Equal.antt =====
-- The streaming escaper and the byte-wise one give the same bytes, however the data is cut.
use native.Mathlib.Nat.{le_refl}
use mpegenc.Common.{
  ℕ, zero, suc, ◌≤◌, ◌≡◌, refl, ap, ap₂, subst, sym, ◌∙◌, false, none, some, ◌≢◌, inl, inr, [], ◌∷◌,
  ◌++◌, append-nil, append_assoc, Bytes, arith, leb, ◌==◌, if◌then◌else◌, length, take, drop, index,
  last_or, Bool-cases, Option-cases, take-append-drop, length-drop,
}
use mpegenc.Codecs.Avc.Ebsp.{EbspEscaper, zero_pair, bulk, round, append_loop, append, reset}
use mpegenc.Codecs.Avc.Ebsp.Spec.{
  next_run, final_run, escape, unescape, IsSafe, escape-append, final_run-append, final_run-le,
  unescape-escape, escape-IsSafe,
}

-- Data with no two zeros side by side goes through unchanged.
plain :
    (bs : Bytes)
    → index zero_pair bs ≡ none
    → (escape 0 bs ≡ bs) × (final_run 0 bs ≡ (if last_or bs 1 == 0 then 1 else 0))
plain [] h = (refl, refl)
plain (b ∷ []) h = ground arith
plain (b ∷ c ∷ bs) h = ground (arith, plain (c ∷ bs))

-- So does the data up to the first two zeros.
found :
    (bs : Bytes) (i : ℕ)
    → index zero_pair bs ≡ some i
    → let p = take (suc (suc i)) bs in
      (escape 0 p ≡ p) × (final_run 0 p ≡ 2) × (suc (suc i) ≤ length bs)
found [] i h = cc
found (b ∷ []) i h = ground arith
found (b ∷ c ∷ bs) zero h = ground arith
found (b ∷ c ∷ bs) (suc i) h = ground (arith, found (c ∷ bs) i)

-- What `Append` returns from a run of zeros: the escaped bytes behind `dst`, and the run.
abbrev result : ℕ → Bytes → Bytes → Bytes × ℕ
result z dst bs = (dst ++ escape z bs, final_run z bs)

result-cut :
    (z : ℕ) (dst xs ys : Bytes)
    → result (final_run z xs) (dst ++ escape z xs) ys ≡ result z dst (xs ++ ys)
result-cut z dst xs ys = rw (escape-append z xs ys, final_run-append z xs ys, append_assoc)

-- A round does what the byte-wise escaper does to the data that it takes, and takes some.
record Rounds (z : ℕ) (dst bs : Bytes) (r : Bytes × ℕ × Bytes) : Type 0 where
  same : result r.1 r.0 r.2 ≡ result z dst bs
  shorter : suc (length r.2) ≤ length bs
  run : r.1 ≤ 2

escape_first :
    (b : ℕ) (bs : Bytes)
    → b ≢ 0
    → (escape 1 (b ∷ bs) ≡ escape 0 (b ∷ bs)) × (final_run 1 (b ∷ bs) ≡ final_run 0 (b ∷ bs))
escape_first b bs h = ground arith

whole :
    (dst p d bs : Bytes)
    → escape 0 p ≡ p
    → final_run 0 p ≡ 2
    → p ++ d ≡ bs
    → result 2 (dst ++ p) d ≡ result 0 dst bs
whole dst p d bs e r c = cc (result-cut 0 dst p d)

bulk-Rounds : (dst : Bytes) (b : ℕ) (bs : Bytes) → Rounds 0 dst (b ∷ bs) (bulk 0 dst (b ∷ bs))
unfolding bulk
bulk-Rounds dst b bs = elim (Option-cases (index zero_pair (b ∷ bs))) [
  | inl e ↦
      let (p, q) = plain (b ∷ bs) e in
      rw (e, bulk)
        (record {
          same = ap₂ (λ u v. (u, v)) (append-nil (dst ++ b ∷ bs) ∙ ap (◌++◌ dst) (sym p)) (sym q);
          shorter = omega arith;
          run = ground arith;
        })
  | inr (i, e) ↦
      let (p, q, l) = found (b ∷ bs) i e in
      rw (e, bulk)
        (record {
          same =
              whole dst (take (suc (suc i)) (b ∷ bs)) (drop (suc (suc i)) (b ∷ bs)) (b ∷ bs) p q
                (take-append-drop (suc (suc i)) (b ∷ bs));
          shorter = omega (arith, length-drop (suc (suc i)) (b ∷ bs));
          run = omega arith;
        })
]

suc_ne_zero : (b : ℕ) → (suc b == 0) ≡ false
suc_ne_zero b = ground arith

round_one : (dst : Bytes) (b : ℕ) (bs : Bytes) → round 1 dst (suc b) bs ≡ bulk 0 dst (suc b ∷ bs)
unfolding round
round_one dst b bs =
    ap (λ t. if t then (dst ++ 0 ∷ [], 2, bs) else bulk 0 dst (suc b ∷ bs)) (suc_ne_zero b)

escape_one :
    (dst : Bytes) (b : ℕ)
    → (if leb b 3 then dst ++ 3 ∷ [] else dst) ++ b ∷ [] ≡ dst ++ escape 2 (b ∷ [])
escape_one dst b = elim (Bool-cases (leb b 3)) [
  | inl e ↦ rw e (append_assoc dst (3 ∷ []) (b ∷ []))
  | inr e ↦ rw e
]

round-Rounds :
    (z : ℕ) (dst : Bytes) (b : ℕ) (bs : Bytes) → z ≤ 2 → Rounds z dst (b ∷ bs) (round z dst b bs)
unfolding round
round-Rounds zero dst b bs hz = bulk-Rounds dst b bs
round-Rounds (suc zero) dst zero bs hz = record {
  same = append_same;
  shorter = omega arith;
  run = omega arith;
}
  where
    append_same : result 2 (dst ++ 0 ∷ []) bs ≡ result 1 dst (0 ∷ bs)
    append_same = result-cut 1 dst (0 ∷ []) bs
round-Rounds (suc zero) dst (suc b) bs hz =
    let r = bulk-Rounds dst (suc b) bs in
    let (p, q) = escape_first (suc b) bs (omega arith) in
    subst (Rounds 1 dst (suc b ∷ bs)) (sym (round_one dst b bs)) (record {
      same = r.same ∙ ap₂ (λ u v. (dst ++ u, v)) (sym p) (sym q);
      shorter = r.shorter;
      run = r.run;
    })
round-Rounds (suc (suc zero)) dst b bs hz = record {
  same = ap (λ d. result (next_run 2 b) d bs) (escape_one dst b) ∙ result-cut 2 dst (b ∷ []) bs;
  shorter = omega arith;
  run = ground arith;
}
round-Rounds (suc (suc (suc z))) dst b bs hz = absurd (omega arith)

loop-result :
    (f z : ℕ) (dst bs : Bytes) → z ≤ 2 → length bs ≤ f → append_loop f z dst bs ≡ result z dst bs
unfolding append_loop
loop-result zero z dst [] hz hf = ap (λ k. (k, z)) (sym (append-nil dst))
loop-result zero z dst (b ∷ bs) hz hf = absurd (omega arith)
loop-result (suc f) z dst [] hz hf = ap (λ k. (k, z)) (sym (append-nil dst))
loop-result (suc f) z dst (b ∷ bs) hz hf =
    let (dst', z', rest) = round z dst b bs in
    let r = round-Rounds z dst b bs hz in loop-result f z' dst' rest r.run (omega arith) ∙ r.same

abbrev escaped : Bytes × ℕ → Bytes × EbspEscaper
escaped (out, z) = (out, record { zero_run = z })

append-result :
    (e : EbspEscaper) (dst bs : Bytes)
    → e.zero_run ≤ 2
    → append e dst bs ≡ escaped (result e.zero_run dst bs)
unfolding append
append-result e dst bs h = ap escaped (loop-result (length bs) e.zero_run dst bs h (le_refl _))

-- `Append` appends to `dst` what the byte-wise escaper makes of the data from the run of zeros that
-- the escaper holds (0, 1 or 2), and holds the run with which that output ends. The loop's fuel, the
-- number of bytes, never runs out.
pub append-escape :
    (e : EbspEscaper) (dst bs : Bytes)
    → e.zero_run ≤ 2
    → let (out, e') = append e dst bs in
      (out ≡ dst ++ escape e.zero_run bs) × (e'.zero_run ≡ final_run e.zero_run bs)
append-escape e dst bs h =
    let r = append-result e dst bs h in (ap (λ p. p.0) r, ap (λ p. p.1.zero_run) r)

pub append-run :
    (e : EbspEscaper) (dst bs : Bytes) → e.zero_run ≤ 2 → (append e dst bs).1.zero_run ≤ 2
append-run e dst bs h = rw (append-result e dst bs h) (final_run-le e.zero_run bs h)

-- Data given to `Append` in two calls, at any cut, comes out as in one call, and leaves the same run
-- of zeros, from an escaper with a run of 0, 1 or 2.
pub append-append :
    (e : EbspEscaper) (dst xs ys : Bytes)
    → e.zero_run ≤ 2
    → let (mid, e') = append e dst xs in append e' mid ys ≡ append e dst (xs ++ ys)
append-append e dst xs ys h =
    ap (λ p. append p.1 p.0 ys) (append-result e dst xs h)
    ∙ append-result (record { zero_run = final_run z xs }) (dst ++ escape z xs) ys
        (final_run-le z xs h)
    ∙ ap escaped (result-cut z dst xs ys)
    ∙ sym (append-result e dst (xs ++ ys) h)
  where
    open e use {zero_run as z}

-- What `Append` writes for a NAL after a reset holds no start code and no start-code prefix (two
-- zeros are always followed by a byte of at least 3), and a decoder that drops the 3 behind
-- two zeros gets the data back.
pub append-unescape :
    (e : EbspEscaper) (bs : Bytes)
    → let out = (append (reset e) [] bs).0 in IsSafe 0 out × (unescape 0 out ≡ bs)
unfolding reset
append-unescape e bs =
    rw (append-result (record { zero_run = 0 }) [] bs (omega arith))
      (escape-IsSafe 0 bs (omega arith), unescape-escape 0 bs (omega arith))
