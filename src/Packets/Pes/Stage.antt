-- ===== src/Packets/Pes/Stage.antt =====
-- Where the collector and its handler stand between two rounds, and what a round does to that.
use mpegenc.Common.{
  ℕ, zero, suc, ◌+◌, ◌-◌, ◌*◌, ◌<◌, ◌≡◌, refl, subst, ◌⊎◌, inl, inr, min, ℤ, pos, negsuc, sub_ℕ,
  is_negative, is_positive, is_zero, true, false, not, ◌&&◌, ◌++◌, Bytes, arith, length, get_or,
  take, drop, ltb, leb, ◌==◌, Outcome, ok, err, and_then, Error, Bool-cases, Outcome-cases,
  length-drop, bytes_after_pes, header_incomplete, payload_incomplete, missing_start_code,
  pes_shorter_than_header,
}
use mpegenc.Packets.Pes.{
  PesCollector, header_missing, idle, read_lengths, check_header, needed, consume_header, finish,
  finish_if_done, header_round, count_payload, payload_size, payload_round,
}
use mpegenc.Packets.Pes.Strict.{Downstream, strict}

-- What the input may be refused for.
abbrev pub IsPesError : Error → Type 0
IsPesError e =
    (e ≡ bytes_after_pes)
    ⊎ (e ≡ missing_start_code)
    ⊎ (e ≡ pes_shorter_than_header)
    ⊎ (e ≡ header_incomplete)
    ⊎ (e ≡ payload_incomplete)

-- Between two rounds: no PES, a header that lacks bytes, or a payload that is not at its end. The
-- handler has a PES open in the last case.
pub data Stage (m : PesCollector) (w : Downstream) : Type 0 where
  rests : m.active ≡ false → w.open_pes ≡ false → Stage m w
  in_header : m.active ≡ true → length m.header < needed m → w.open_pes ≡ false → Stage m w
  in_payload :
      m.active ≡ true
      → header_missing m ≡ false
      → is_zero m.payload_remaining ≡ false
      → w.open_pes ≡ true
      → Stage m w

abbrev pub Collects : Outcome (PesCollector × Downstream) (Unit {0}) → Type 0
Collects (ok a s) = Stage s.0 s.1
Collects (err e s) = IsPesError e

-- A round that succeeds takes a byte.
abbrev pub Rounds : ℕ → Outcome (PesCollector × Downstream) Bytes → Type 0
Rounds l (ok rest s) = Stage s.0 s.1 × (length rest < l)
Rounds l (err e s) = IsPesError e

abbrev pub Reads : ℕ → Outcome PesCollector ℕ → Type 0
Reads n (ok k m) =
    (k ≡ n)
    × (m.active ≡ true)
    × (((length m.header < needed m) × (header_missing m ≡ true)) ⊎ (header_missing m ≡ false))
Reads n (err e m) = IsPesError e

missing-cases :
    (m : PesCollector)
    → 0 < m.header_length
    → ((length m.header < needed m) × (header_missing m ≡ true)) ⊎ (header_missing m ≡ false)
missing-cases m h = elim (Bool-cases (ltb (length m.header) m.header_length)) [
  | inl a ↦ inl (ground arith, ground arith)
  | inr a ↦ inr (ground arith)
]

read_lengths-Reads : (n : ℕ) (m : PesCollector) → m.active ≡ true → Reads n (read_lengths n m)
unfolding read_lengths
read_lengths-Reads n m a =
    let hl = 9 + get_or m.header 8 0 in
    let pl = get_or m.header 4 0 * 256 + get_or m.header 5 0 in
    let r = sub_ℕ (pl + 6) hl in
    elim (Bool-cases (pl == 0)) [
      | inl b ↦
          rw (b, read_lengths)
            (
              refl,
              a,
              missing-cases (record m { header_length = hl; payload_remaining = negsuc 0 })
                  (omega arith),
            )
      | inr b ↦ elim (Bool-cases (is_negative r)) [
        | inl c ↦ rw (b, c, read_lengths) (inr (inr (inl refl)))
        | inr c ↦
            rw (b, c, read_lengths)
              (
                refl,
                a,
                missing-cases (record m { header_length = hl; payload_remaining = r })
                    (omega arith),
              )
      ]
    ]

check_header-Reads : (n : ℕ) (m : PesCollector) → m.active ≡ true → Reads n (check_header n m)
unfolding check_header
check_header-Reads n m a =
    let bad =
      leb 3 (length m.header)
      && not (get_or m.header 0 0 == 0 && get_or m.header 1 0 == 0 && get_or m.header 2 0 == 1) in
    elim (Bool-cases bad) [
      | inl b ↦ rw (b, check_header) (inr (inl refl))
      | inr b ↦ elim (Bool-cases (ltb (length m.header) 9)) [
        | inl c ↦
            rw (b, c, check_header)
              (
                refl,
                a,
                elim (Bool-cases (m.header_length == 0)) [
                  | inl d ↦ inl (ground arith, ground arith)
                  | inr d ↦ missing-cases m (ground arith)
                ],
              )
        | inr c ↦ elim (Bool-cases (m.header_length == 0)) [
          | inl d ↦ rw (b, c, d, check_header) (read_lengths-Reads n m a)
          | inr d ↦ rw (b, c, d, check_header) (refl, a, missing-cases m (ground arith))
        ]
      ]
    ]

done_if_zero : (r : ℤ) → is_zero r ≡ true → is_positive r ≡ false
done_if_zero (pos zero) h = refl
done_if_zero (pos (suc n)) h = cc
done_if_zero (negsuc n) h = refl

-- Nothing is left open.
abbrev pub Closes : (Error → Type 0) → Outcome (PesCollector × Downstream) (Unit {0}) → Type 0
Closes Refused (ok a s) = (s.0.active ≡ false) × (s.1.open_pes ≡ false)
Closes Refused (err e s) = Refused e

pub finish_closed :
    (m : PesCollector) (w : Downstream)
    → header_missing m ≡ false
    → is_positive m.payload_remaining ≡ false
    → w.open_pes ≡ true
    → finish strict (m, w) ≡ ok tt (idle, record w { open_pes = false })
unfolding finish
finish_closed m w h p o = rw (h, p, finish, o) refl

pub finish-Closes :
    (m : PesCollector) (w : Downstream)
    → header_missing m ≡ false
    → w.open_pes ≡ true
    → Closes IsPesError (finish strict (m, w))
unfolding finish
finish-Closes m w h o = elim (Bool-cases (is_positive m.payload_remaining)) [
  | inl p ↦ rw (h, p, finish) (inr (inr (inr (inr refl))))
  | inr p ↦ rw (h, p, finish, o) (refl, refl)
]

closed : (o : Outcome (PesCollector × Downstream) (Unit {0})) → Closes IsPesError o → Collects o
closed (ok a s) c = rests c.0 c.1
closed (err e s) c = c

finish_if_done-Collects :
    (m : PesCollector) (w : Downstream)
    → m.active ≡ true
    → header_missing m ≡ false
    → w.open_pes ≡ true
    → Collects (finish_if_done strict (m, w))
unfolding finish_if_done
finish_if_done-Collects m w a h o = elim (Bool-cases (is_zero m.payload_remaining)) [
  | inl z ↦ rw (z, finish_if_done) (closed (finish strict (m, w)) (finish-Closes m w h o))
  | inr z ↦ rw (z, finish_if_done) (in_payload a h z o)
]

and_rest :
    (o : Outcome (PesCollector × Downstream) (Unit {0})) (rest : Bytes) (l : ℕ)
    → Collects o
    → length rest < l
    → Rounds l (and_then o (λ _ s. ok rest s))
and_rest (ok a s) rest l c h = (c, h)
and_rest (err e s) rest l c h = c

shorter : (n : ℕ) (bs : Bytes) → 0 < n → 0 < length bs → length (drop n bs) < length bs
shorter n bs h l = omega (arith, length-drop n bs)

pub header_round-Rounds :
    (bs : Bytes) (m : PesCollector) (w : Downstream)
    → m.active ≡ true
    → length m.header < needed m
    → w.open_pes ≡ false
    → 0 < length bs
    → Rounds (length bs) (header_round strict bs (m, w))
unfolding header_round consume_header
header_round-Rounds bs m w a h o l =
    let n = min (length bs) (needed m - length m.header) in
    let reads = check_header-Reads n (record m { header = m.header ++ take n bs }) a in
    elim (Outcome-cases (check_header n (record m { header = m.header ++ take n bs }))) [
      | inl (k, m', e) ↦
          let (same, a', c) = subst (Reads n) e reads in
          let less = shorter k bs (omega arith) l in
          elim c [
            | inl (lt, miss) ↦ rw (e, miss, header_round) (in_header a' lt o, less)
            | inr full ↦
                rw (e, full, header_round, o)
                  (and_rest (finish_if_done strict (m', record w { open_pes = true })) (drop k bs)
                    (length bs)
                    (finish_if_done-Collects m' (record w { open_pes = true }) a' full refl) less)
          ]
      | inr (x, m', e) ↦ rw (e, header_round) (subst (Reads n) e reads)
    ]

payload_size-pos : (r : ℤ) (l : ℕ) → is_zero r ≡ false → 0 < l → 0 < payload_size strict l r
payload_size-pos (pos zero) l h z = cc
payload_size-pos (pos (suc n)) l h z = ground arith
payload_size-pos (negsuc n) l h z = z

pub payload_round-Rounds :
    (bs : Bytes) (m : PesCollector) (w : Downstream)
    → m.active ≡ true
    → header_missing m ≡ false
    → is_zero m.payload_remaining ≡ false
    → w.open_pes ≡ true
    → 0 < length bs
    → Rounds (length bs) (payload_round strict bs (m, w))
unfolding payload_round
payload_round-Rounds bs m w a h z o l =
    let n = payload_size strict (length bs) m.payload_remaining in
    let p = payload_size-pos m.payload_remaining (length bs) z l in
    let m' = record m { payload_remaining = count_payload strict n m.payload_remaining } in
    let w' : Downstream = record { open_pes = true; bytes = w.bytes ++ take n bs } in
    elim (Bool-cases (n == 0)) [
      | inl q ↦ absurd (ground arith)
      | inr q ↦
          rw (q, payload_round, o)
            (and_rest (finish_if_done strict (m', w')) (drop n bs) (length bs)
              (finish_if_done-Collects m' w' a h refl) (shorter n bs p l))
    ]
