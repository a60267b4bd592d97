-- ===== src/Codecs/Avc/Ebsp/Spec.antt =====
-- The byte-wise escaper that the streaming one is compared with, and the decoder's side.
use mpegenc.Common.{
  ℕ, suc, ◌≤◌, ◌<◌, ◌⊎◌, ◌≡◌, refl, ◌&&◌, [], ◌∷◌, ◌++◌, Bytes, arith, leb, ◌==◌, if◌then◌else◌,
}

-- The run of zeros after byte `b`; a zero behind an inserted byte starts a new run.
abbrev pub next_run : ℕ → ℕ → ℕ
next_run z b = if b == 0 then (if z == 2 then 1 else suc z) else 0

abbrev pub final_run : ℕ → Bytes → ℕ
final_run z [] = z
final_run z (b ∷ bs) = final_run (next_run z b) bs

-- A 3 goes in front of every byte up to 3 that follows two zeros.
abbrev pub escape : ℕ → Bytes → Bytes
escape z [] = []
escape z (b ∷ bs) =
    let rest = escape (next_run z b) bs in if z == 2 && leb b 3 then 3 ∷ b ∷ rest else b ∷ rest

-- What a decoder does: a 3 behind two zeros is dropped.
abbrev pub unescape : ℕ → Bytes → Bytes
unescape z [] = []
unescape z (b ∷ bs) =
    let dropped = unescape 0 bs in
    let kept = unescape (if b == 0 then suc z else 0) bs in
    if z == 2 && b == 3 then dropped else b ∷ kept

-- Behind two zeros no byte is below 3: neither a start code nor its prefix is inside.
abbrev pub IsSafe : ℕ → Bytes → Type 0
IsSafe z [] = Unit {0}
IsSafe z (b ∷ bs) = ((z < 2) ⊎ (3 ≤ b)) × IsSafe (if b == 0 then suc z else 0) bs

pub escape-append :
    (z : ℕ) (xs ys : Bytes) → escape z (xs ++ ys) ≡ escape z xs ++ escape (final_run z xs) ys
escape-append z [] ys = refl
escape-append z (x ∷ xs) ys = ground (arith, escape-append (next_run z x) xs ys)

pub final_run-append :
    (z : ℕ) (xs ys : Bytes) → final_run z (xs ++ ys) ≡ final_run (final_run z xs) ys
final_run-append z [] ys = refl
final_run-append z (x ∷ xs) ys = final_run-append (next_run z x) xs ys

pub final_run-le : (z : ℕ) (bs : Bytes) → z ≤ 2 → final_run z bs ≤ 2
final_run-le z [] h = h
final_run-le z (b ∷ bs) h = final_run-le (next_run z b) bs (ground arith)

-- The decoder gives back what was escaped.
pub unescape-escape : (z : ℕ) (bs : Bytes) → z ≤ 2 → unescape z (escape z bs) ≡ bs
unescape-escape z [] h = refl
unescape-escape z (b ∷ bs) h = ground (arith, unescape-escape (next_run z b) bs)

pub escape-IsSafe : (z : ℕ) (bs : Bytes) → z ≤ 2 → IsSafe z (escape z bs)
escape-IsSafe z [] h = tt
escape-IsSafe z (b ∷ bs) h = ground (arith, escape-IsSafe (next_run z b) bs)
