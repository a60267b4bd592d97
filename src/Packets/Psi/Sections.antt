-- ===== src/Packets/Psi/Sections.antt =====
-- What the section collector finds: well-formed sections, whole and in order.
use mpegenc.Common.{
  true, ℕ, zero, suc, ◌+◌, ◌≤◌, ◌<◌, ◌≡◌, ◌≢◌, refl, sym, ap, ap₂, ◌%◌, ◌*◌, ◌∙◌, ◌⊎◌, inl, inr,
  List, [], ◌∷◌, ◌++◌, flatten, flatten-snoc, length_zero, get_or-take, get_or-append, take-append,
  drop-append, append-nil, append_assoc, Bytes, length, get_or, take, drop, arith, ltb, ◌==◌,
  Outcome, ok, err, bad_section_length, length-take, length-drop, length-append, take-append-drop,
  Bool-cases, le→ltb, ==_false,
}
use mpegenc.Packets.Psi.{
  PsiSectionCollector, section_length, append_loop, append, finish_previous, consume,
}

-- A complete section: it does not begin with stuffing, and its length field counts its bytes.
pub record IsSection (s : Bytes) : Type 0 where
  pub started : get_or s 0 0 ≢ 0xFF
  pub short : section_length s ≤ 1021
  pub counted : length s ≡ 3 + section_length s

abbrev pub All {ℓ} : {A : Type 0} → (A → Type ℓ) → List A → Type ℓ
All P [] = Unit
All P (x ∷ xs) = P x × All P xs

All-snoc :
    (P : Bytes → Type 0) (xs : List Bytes) {x : Bytes} → All P xs → P x → All P (xs ++ x ∷ [])
All-snoc P [] a p = (p, tt)
All-snoc P (y ∷ xs) a p = (a.0, All-snoc P xs a.1 p)

-- Bytes that wait for more: none, or the beginning of a section.
abbrev pub IsPartial : Bytes → Type 0
IsPartial buf =
    (buf ≡ [])
    ⊎ ((get_or buf 0 0 ≢ 0xFF)
        × ((length buf < 3)
            ⊎ ((section_length buf ≤ 1021) × (length buf < 3 + section_length buf))))

-- The outcome of collecting `input`: it is the sections and an incomplete rest that is kept, or the
-- sections and stuffing that is dropped; or a section declares a length above 1021.
abbrev pub Collected : Bytes → Outcome PsiSectionCollector (List Bytes) → Type 0
Collected input (ok ss c) =
    All IsSection ss
    × (((flatten ss ++ c.buf ≡ input) × IsPartial c.buf)
        ⊎ ((stuffing : Bytes) × (flatten ss ++ stuffing ≡ input)
            × (get_or stuffing 0 0 ≡ 0xFF)
            × (c.buf ≡ [])))
Collected input (err e c) =
    (e ≡ bad_section_length)
    × (get_or c.buf 0 0 ≢ 0xFF)
    × (1021 < section_length c.buf)
    × ((before : List Bytes) × All IsSection before × (flatten before ++ c.buf ≡ input))

abbrev total : Bytes → ℕ
total buf = 3 + section_length buf

-- The bytes that a length field counts are a section.
take-IsSection :
    (buf : Bytes)
    → get_or buf 0 0 ≢ 0xFF
    → section_length buf ≤ 1021
    → total buf ≤ length buf
    → IsSection (take (total buf) buf)
take-IsSection buf s h l =
    let at = get_or-take buf (total buf) in
    let same : section_length (take (total buf) buf) ≡ section_length buf =
      ap₂ (λ a b. a % 16 * 256 + b) (at 1 0 (omega arith)) (at 2 0 (omega arith)) in
    record {
      started = rw (at 0 0 (omega arith)) s;
      short = rw same h;
      counted = rw same (omega (arith, length-take (total buf) buf));
    }

next_input :
    (ss : List Bytes) (buf : Bytes) (n : ℕ)
    → flatten (ss ++ take n buf ∷ []) ++ drop n buf ≡ flatten ss ++ buf
next_input ss buf n =
    rw (flatten-snoc ss (take n buf), append_assoc)
      (ap (◌++◌ (flatten ss)) (take-append-drop n buf))

loop-Collected :
    (f : ℕ) (input : Bytes) (ss : List Bytes) (c : PsiSectionCollector)
    → length c.buf < f
    → All IsSection ss
    → flatten ss ++ c.buf ≡ input
    → Collected input (append_loop f ss c)
unfolding append_loop
loop-Collected zero input ss c h a e = absurd (omega arith)
loop-Collected (suc f) input ss c h a e = elim (Bool-cases (length c.buf == 0)) [
  | inl t ↦ rw (t, append_loop) (a, inl (e, inl (length_zero c.buf (ground arith))))
  | inr t ↦ elim (Bool-cases (get_or c.buf 0 0 == 0xFF)) [
    | inl t' ↦ rw (t, t', append_loop) (a, inr (c.buf, e, ground arith, refl))
    | inr t' ↦ elim (Bool-cases (ltb (length c.buf) 3)) [
      | inl u ↦ rw (t, t', u, append_loop) (a, inl (e, inr (ground arith, inl (ground arith))))
      | inr u ↦ elim (Bool-cases (ltb 1021 (section_length c.buf))) [
        | inl u' ↦ rw (t, t', u, u', append_loop) (refl, ground arith, ground arith, (ss, a, e))
        | inr u' ↦ elim (Bool-cases (ltb (length c.buf) (3 + section_length c.buf))) [
          | inl v ↦
              rw (t, t', u, u', v, append_loop) (a, inl (e, inr (ground arith, inr (ground arith))))
          | inr v ↦
              let fits : total c.buf ≤ length c.buf = ground arith in
              rw (t, t', u, u', v, append_loop)
                (loop-Collected f input (ss ++ take (total c.buf) c.buf ∷ [])
                  (record c { buf = drop (total c.buf) c.buf })
                  (omega (arith, length-drop (total c.buf) c.buf, fits))
                  (All-snoc IsSection ss a
                    (take-IsSection c.buf (ground arith) (ground arith) (ground arith)))
                  (next_input ss c.buf (total c.buf) ∙ e))
        ]
      ]
    ]
  ]
]

-- Whatever was collected before, adding a payload ends with every complete section of the bytes so
-- far, in order, and either keeps the incomplete rest or, at stuffing, drops what is left; the only
-- error is a declared length above 1021, met behind complete sections.
pub append-Collected :
    (payload : Bytes) (c : PsiSectionCollector) → Collected (c.buf ++ payload) (append payload c)
unfolding append flatten
append-Collected payload c =
    loop-Collected (suc (length (c.buf ++ payload))) (c.buf ++ payload) []
      (record { buf = c.buf ++ payload }) (omega arith) tt refl

partial_stays :
    (f : ℕ) (acc : List Bytes) (r : Bytes)
    → IsPartial r
    → append_loop (suc f) acc (record { buf = r }) ≡ ok acc (record { buf = r })
unfolding append_loop
partial_stays f acc r (inl e) = rw e
partial_stays f acc r (inr p) = ground arith

loop_next :
    (f : ℕ) (acc : List Bytes) (buf : Bytes)
    → get_or buf 0 0 ≢ 0xFF
    → section_length buf ≤ 1021
    → total buf ≤ length buf
    → append_loop (suc f) acc (record { buf = buf })
      ≡ append_loop f (acc ++ take (total buf) buf ∷ []) (record { buf = drop (total buf) buf })
unfolding append_loop
loop_next f acc buf s h l = rw (
  ==_false (length buf) 0 (omega arith),
  ==_false (get_or buf 0 0) 0xFF s,
  le→ltb (length buf) 3 (omega arith),
  le→ltb 1021 (section_length buf) h,
  le→ltb (length buf) (total buf) l,
)

-- A section in front of other bytes is taken whole.
section_taken :
    (f : ℕ) (acc : List Bytes) (s r : Bytes)
    → IsSection s
    → append_loop (suc f) acc (record { buf = s ++ r })
      ≡ append_loop f (acc ++ s ∷ []) (record { buf = r })
section_taken f acc s r v =
    let at = get_or-append s r in
    let same : section_length (s ++ r) ≡ section_length s =
      ap₂ (λ a b. a % 16 * 256 + b) (at 1 0 (omega arith)) (at 2 0 (omega arith)) in
    let started : get_or (s ++ r) 0 0 ≢ 0xFF = rw (at 0 0 (omega arith)) v.started in
    let n : total (s ++ r) ≡ length s = ap (λ k. 3 + k) same ∙ sym v.counted in
    loop_next f acc (s ++ r) started (rw same v.short) (omega (arith, length-append s r))
    ∙ ap₂ (λ a b. append_loop f (acc ++ a ∷ []) (record { buf = b }))
        (take-append s r (total (s ++ r)) n) (drop-append s r (total (s ++ r)) n)

loop-sections :
    (f : ℕ) (acc ss : List Bytes) (r : Bytes)
    → All IsSection ss
    → IsPartial r
    → length (flatten ss ++ r) < f
    → append_loop f acc (record { buf = flatten ss ++ r }) ≡ ok (acc ++ ss) (record { buf = r })
unfolding flatten
loop-sections zero acc ss r a p h = absurd (omega arith)
loop-sections (suc f) acc [] r a p h = rw append-nil (partial_stays f acc r p)
loop-sections (suc f) acc (s ∷ ss) r a p h = rw append_assoc (
    section_taken f acc s (flatten ss ++ r) a.0
    ∙ loop-sections f (acc ++ s ∷ []) ss r a.1 p (
        omega (arith, length-append s (flatten ss ++ r), ap length (append_assoc s (flatten ss) r)))
    ∙ ap (λ l. ok l (record { buf = r })) (append_assoc acc (s ∷ []) ss))

-- Sections one after another, with the beginning of a further one or nothing behind them, are found
-- exactly, however much of them was already collected before this payload.
pub append-sections :
    (payload : Bytes) (c : PsiSectionCollector) (ss : List Bytes) (r : Bytes)
    → All IsSection ss
    → IsPartial r
    → c.buf ++ payload ≡ flatten ss ++ r
    → append payload c ≡ ok ss (record { buf = r })
unfolding append
append-sections payload c ss r a p e =
    rw e (loop-sections (suc (length (flatten ss ++ r))) [] ss r a p (omega arith))

-- A payload with a pointer field, behind the beginning of a section: the sections that the bytes
-- before the pointed-to start complete come first, what stays incomplete there is dropped, and the
-- sections from that start on follow, with the beginning of a further one kept.
pub consume-sections :
    (before behind : Bytes) (c : PsiSectionCollector) (ss ss' : List Bytes) (r r' : Bytes)
    → c.buf ≢ []
    → All IsSection ss
    → IsPartial r
    → c.buf ++ before ≡ flatten ss ++ r
    → All IsSection ss'
    → IsPartial r'
    → behind ≡ flatten ss' ++ r'
    → consume true (length before ∷ before ++ behind) c ≡ ok (ss ++ ss') (record { buf = r' })
unfolding consume finish_previous
consume-sections before behind c ss ss' r r' z a p e a' p' e' = rw (
  le→ltb (length (before ++ behind)) (length before) (omega (arith, length-append before behind)),
  take-append before behind (length before) refl,
  drop-append before behind (length before) refl,
  ==_false (length c.buf) 0 (λ l. z (length_zero c.buf (omega arith))),
  append-sections before c ss r a p e,
  append-sections behind (record { buf = [] }) ss' r' a' p' e',
)
