-- ===== src/Codecs/Avc/Ebsp.antt =====
-- ts/codecs/avc/ebsp.go: the streaming escaper that inserts emulation-prevention bytes.
pub mod Spec
pub mod Equal
use mpegenc.Common.{
  ℕ, zero, suc, ◌+◌, Bool, ◌&&◌, Option, none, some, [], ◌∷◌, ◌++◌, Bytes, length, take, drop,
  index, last_or, leb, ◌==◌, if◌then◌else◌,
}

-- The zeros that the output ends with: 0, 1 or 2.
pub record EbspEscaper : Type 0 where
  pub zero_run : ℕ

unfoldable pub reset : EbspEscaper → EbspEscaper
reset e = record { zero_run = 0 }

abbrev pub zero_pair : Bytes
zero_pair = 0 ∷ 0 ∷ []

-- The part of the loop of `Append` behind the tests of the run: the data goes out up to its first
-- pair of zeros, or whole. The result is `dst`, the run of zeros and the data left.
bulk : ℕ → Bytes → Bytes → Bytes × ℕ × Bytes
bulk z dst bs = elim (index zero_pair bs) [
  | none ↦ (dst ++ bs, if last_or bs 1 == 0 then 1 else z, [])
  | some i ↦ (dst ++ take (suc (suc i)) bs, 2, drop (suc (suc i)) bs)
]

-- One round of the loop, on data that is not empty.
round : ℕ → Bytes → ℕ → Bytes → Bytes × ℕ × Bytes
unfolding bulk
round z dst b bs =
    if z == 2
    then ((if leb b 3 then dst ++ 3 ∷ [] else dst) ++ b ∷ [], if b == 0 then 1 else 0, bs)
    else if z == 1 && b == 0
    then (dst ++ 0 ∷ [], 2, bs)
    else bulk (if z == 1 then 0 else z) dst (b ∷ bs)

-- The loop, on fuel.
append_loop : ℕ → ℕ → Bytes → Bytes → Bytes × ℕ
append_loop zero z dst bs = (dst, z)
append_loop (suc f) z dst [] = (dst, z)
append_loop (suc f) z dst (b ∷ bs) =
    let (dst', z', rest) = round z dst b bs in append_loop f z' dst' rest

-- Each round takes a byte, so the length of `data` is fuel enough (`append-escape`).
unfoldable pub append : EbspEscaper → Bytes → Bytes → Bytes × EbspEscaper
unfolding append_loop round
append e dst bs =
    let (out, z) = append_loop (length bs) e.zero_run dst bs in (out, record { zero_run = z })
