-- ===== src/SampleAes/Chain.antt =====
-- One chain of cipher blocks goes on from call to call.
use native.Mathlib.Nat.{zero-add, suc-add}
use mpegenc.Common.{
  ℕ, zero, suc, ◌+◌, ◌*◌, ◌/◌, ◌%◌, ◌≤◌, ◌≡◌, refl, subst, sym, ap, ◌∙◌, none, some, [], ◌∷◌, ◌++◌,
  append_assoc, Bytes, arith, length, take, drop, Method, Outcome, ok, err, and_then, length-append,
  length-drop, cipher_mode_missing, Option-cases, inl, inr, drop-append_le,
}
use mpegenc.SampleAes.{CbcEncryptor, block_size, cbc, xor_bytes, reset, crypt_blocks}

take-append_le : (xs ys : Bytes) (n : ℕ) → n ≤ length xs → take n (xs ++ ys) ≡ take n xs
take-append_le xs ys zero h = refl
take-append_le [] ys (suc n) h = absurd (omega arith)
take-append_le (x ∷ xs) ys (suc n) h = ap (◌∷◌ x) (take-append_le xs ys n (omega arith))

-- Chaining `m` blocks and then the rest is chaining all.
cbc-append :
    (block : Bytes → Bytes) (m k : ℕ) (chain xs ys : Bytes)
    → length xs ≡ 16 * m
    → let (out, last) = cbc block m chain xs in
      let (out', last') = cbc block k last ys in
      cbc block (m + k) chain (xs ++ ys) ≡ (out ++ out', last')
unfolding cbc
cbc-append block zero k chain [] ys h = rw zero-add
cbc-append block zero k chain (x ∷ xs) ys h = absurd (omega arith)
cbc-append block (suc m) k chain xs ys h =
    let c = block (xor_bytes (take block_size xs) chain) in
    let (out, last) = cbc block m c (drop block_size xs) in
    let (out', last') = cbc block k last ys in
    rw (suc-add, take-append_le xs ys 16 (omega arith), drop-append_le xs ys 16 (omega arith))
      (ap (λ (p : Bytes × Bytes). (c ++ p.0, p.1))
          (cbc-append block m k c (drop block_size xs) ys
            (omega (arith, length-drop block_size xs)))
        ∙ ap (λ l. (l, last')) (sym (append_assoc c out out')))

length-cbc :
    (block : Bytes → Bytes) (k : ℕ) (chain xs : Bytes)
    → ((b : Bytes) → length (block b) ≡ 16)
    → length (cbc block k chain xs).0 ≡ k * 16
unfolding cbc
length-cbc block zero chain xs h = omega arith
length-cbc block (suc k) chain xs h =
    let c = block (xor_bytes (take block_size xs) chain) in
    omega (
      arith,
      length-append c (cbc block k c (drop block_size xs)).0,
      h (xor_bytes (take block_size xs) chain),
      length-cbc block k c (drop block_size xs) h,
    )

encrypted : CbcEncryptor → ℕ → Bytes → Bytes → Outcome CbcEncryptor Bytes
encrypted e k chain bs =
    let (out, last) = cbc e.block k chain bs in ok out (record e { mode = some last })

crypt_whole :
    (bs chain : Bytes) (e : CbcEncryptor)
    → length bs % 16 ≡ 0
    → e.mode ≡ some chain
    → crypt_blocks bs e ≡ encrypted e (length bs / 16) chain bs
unfolding crypt_blocks encrypted
crypt_whole bs chain e h m = rw (h, m, crypt_blocks) refl

crypt_missing :
    (bs : Bytes) (e : CbcEncryptor)
    → length bs % 16 ≡ 0
    → e.mode ≡ none
    → crypt_blocks bs e ≡ err cipher_mode_missing e
unfolding crypt_blocks
crypt_missing bs e h m =
    subst (λ m'. let e' = record e { mode = m' } in crypt_blocks bs e' ≡ err cipher_mode_missing e')
      (sym m) (rw (h, crypt_blocks) refl)

-- The second call, behind the output of the first.
abbrev after : Bytes → Bytes → Method CbcEncryptor Bytes
after ys out e = and_then (crypt_blocks ys e) (λ out' e'. ok (out ++ out') e')

encrypted-append :
    (xs ys chain : Bytes) (e : CbcEncryptor)
    → length xs % 16 ≡ 0
    → length ys % 16 ≡ 0
    → encrypted e (length (xs ++ ys) / 16) chain (xs ++ ys)
      ≡ and_then (encrypted e (length xs / 16) chain xs) (after ys)
unfolding encrypted
encrypted-append xs ys chain e hx hy =
    let m = length xs / 16 in
    let k = length ys / 16 in
    let (out, last) = cbc e.block m chain xs in
    let sum : length (xs ++ ys) / 16 ≡ m + k = omega (arith, length-append xs ys) in
    ap (λ n. encrypted e n chain (xs ++ ys)) sum
    ∙ ap (λ (p : Bytes × Bytes). ok p.0 (record e { mode = some p.1 }))
        (cbc-append e.block m k chain xs ys (omega arith))
    ∙ ap (λ o. and_then o (λ out' e'. ok (out ++ out') e'))
        (sym (crypt_whole ys last (record e { mode = some last }) hy refl))

-- Two calls of `CryptBlocks` on whole blocks encrypt as one call on all of them, and leave the same
-- chain: what E-AC-3 relies on where it does not reset between frames.
pub crypt_blocks-append :
    (xs ys : Bytes) (e : CbcEncryptor)
    → length xs % 16 ≡ 0
    → length ys % 16 ≡ 0
    → crypt_blocks (xs ++ ys) e
      ≡ and_then
          (crypt_blocks xs e)
          (λ out e'. and_then (crypt_blocks ys e') (λ out' e''. ok (out ++ out') e''))
unfolding crypt_blocks
crypt_blocks-append xs ys e hx hy =
    let n = length-append xs ys in
    let h : length (xs ++ ys) % 16 ≡ 0 = omega (arith, n) in
    elim (Option-cases e.mode) [
      | inl t ↦
          crypt_missing (xs ++ ys) e h t
          ∙ ap (λ o. and_then o (after ys)) (sym (crypt_missing xs e hx t))
      | inr (chain, t) ↦
          crypt_whole (xs ++ ys) chain e h t
          ∙ encrypted-append xs ys chain e hx hy
          ∙ ap (λ o. and_then o (after ys)) (sym (crypt_whole xs chain e hx t))
    ]

-- After a reset, `CryptBlocks` of whole blocks succeeds, gives as many bytes and leaves a chain to go
-- on from, whatever was encrypted before, when the cipher gives blocks of 16 bytes.
pub crypt_blocks-reset :
    (xs : Bytes) (e : CbcEncryptor)
    → ((b : Bytes) → length (e.block b) ≡ 16)
    → length xs % 16 ≡ 0
    → (out : Bytes) × (last : Bytes) × (and_then (reset e) (λ _ e'. crypt_blocks xs e')
        ≡ ok out (record e { mode = some last }))
      × (length out ≡ length xs)
unfolding reset crypt_blocks encrypted
crypt_blocks-reset xs e h t =
    let k = length xs / 16 in
    let (out, last) = cbc e.block k e.init_iv xs in
    (
      out,
      last,
      crypt_whole xs e.init_iv (record e { mode = some e.init_iv }) t refl,
      omega (arith, length-cbc e.block k e.init_iv xs h, t),
    )

pub crypt_blocks-chained :
    (xs chain : Bytes) (e : CbcEncryptor)
    → ((b : Bytes) → length (e.block b) ≡ 16)
    → e.mode ≡ some chain
    → length xs % 16 ≡ 0
    → (out : Bytes) × (last : Bytes) × (crypt_blocks xs e ≡ ok out (record e { mode = some last }))
      × (length out ≡ length xs)
unfolding encrypted
crypt_blocks-chained xs chain e h m t =
    let k = length xs / 16 in
    let (out, last) = cbc e.block k chain xs in
    (out, last, crypt_whole xs chain e t m, omega (arith, length-cbc e.block k chain xs h, t))
