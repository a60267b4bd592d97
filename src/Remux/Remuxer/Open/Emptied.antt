-- ===== src/Remux/Remuxer/Open/Emptied.antt =====
-- Streams that hold no token.
use mpegenc.Common.{
  ℕ, ◌≡◌, refl, sym, ap, subst, ◌∙◌, false, Bool-cases, inl, inr, none, some, [], ◌∷◌, arith,
  copies, ◌==◌, if◌then◌else◌, Dict, lookup, insert, lookup-insert, keys,
}
use mpegenc.Remux.Remuxer.{StoredStream}
use mpegenc.Remux.Remuxer.Open.{stream_tokens, held_in, IsDistinct}

-- What the map holds under the PID, if it holds a stream, holds no token.
abbrev pub IsEmptied : {AF : Type 0} → Dict (StoredStream AF) → ℕ → Type 0
IsEmptied {AF} m pid = (s : StoredStream AF) → lookup pid m ≡ some s → stream_tokens s ≡ []

module _ {AF : Type 0} where
  pub insert-IsEmptied :
      (j pid : ℕ) (s : StoredStream AF) (m : Dict (StoredStream AF))
      → stream_tokens s ≡ []
      → ((j == pid) ≡ false → IsEmptied m j)
      → IsEmptied (insert pid s m) j
  insert-IsEmptied j pid s m e k x f =
      let g : (if j == pid then some s else lookup j m) ≡ some x =
        sym (lookup-insert j pid s m) ∙ f in
      elim (Bool-cases (j == pid)) [
        | inl b ↦
            let z : s ≡ x = cc (ap (λ c. if c then some s else lookup j m) (sym b) ∙ g) in
            subst (λ s. stream_tokens s ≡ []) z e
        | inr b ↦ k b x (ap (λ c. if c then some s else lookup j m) (sym b) ∙ g)
      ]

  pub lookup-absent :
      (pid : ℕ) (m : Dict (StoredStream AF)) → copies pid (keys m) ≡ 0 → lookup pid m ≡ none
  lookup-absent pid [] e = refl
  lookup-absent pid ((k, s) ∷ m) e = ground (arith, lookup-absent pid m)

  -- A map without tokens.
  pub held_in-emptied :
      (t : ℕ) (m : Dict (StoredStream AF))
      → IsDistinct m
      → ((pid : ℕ) → IsEmptied m pid)
      → held_in t m ≡ 0
  held_in-emptied t [] d e = refl
  held_in-emptied t ((k, s) ∷ m) (f, d) e =
      let first : stream_tokens s ≡ [] = e k s (ground arith) in
      omega (
        arith,
        ap (copies t) first,
        held_in-emptied t m d (λ pid x g. elim (Bool-cases (pid == k)) [
          | inl b ↦ let z : pid ≡ k = ground (arith, b) in cc (z, f, g)
          | inr b ↦ e pid x (rw b g)
        ]),
      )
