-- ===== src/Tests/Sections.antt =====
-- Two PSI sections in two payloads.
use mpegenc.Common.{◌≡◌, refl, flatten, inl, inr, true, [], ◌∷◌, ◌++◌, Bytes, arith, ok}
use mpegenc.Packets.Psi.{PsiSectionCollector, append, consume}
use mpegenc.Packets.Psi.Sections.{
  IsSection, IsPartial, Collected, append-Collected, append-sections, consume-sections,
}

abbrev section : Bytes
section = 2 ∷ 0xB0 ∷ 2 ∷ 71 ∷ 72 ∷ []

-- The beginning of a section is there already.
abbrev begun : PsiSectionCollector
begun = record { buf = 2 ∷ 0xB0 ∷ [] }

abbrev payload : Bytes
payload = 2 ∷ 71 ∷ 72 ∷ section ++ (2 ∷ 0xB0 ∷ [])

section-IsSection : IsSection section
section-IsSection = record { started = omega arith; short = omega arith; counted = refl }

rest-IsPartial : IsPartial (2 ∷ 0xB0 ∷ [])
rest-IsPartial = inr (omega arith, inl (omega arith))

consume_finishes :
    consume true (3 ∷ payload) begun ≡ ok (section ∷ section ∷ []) (record { buf = 2 ∷ 0xB0 ∷ [] })
unfolding consume
consume_finishes = refl

append-Collected_example : Collected (begun.buf ++ payload) (append payload begun)
append-Collected_example = append-Collected payload begun

append-sections_example :
    append payload begun ≡ ok (section ∷ section ∷ []) (record { buf = 2 ∷ 0xB0 ∷ [] })
unfolding flatten
append-sections_example =
    append-sections payload begun (section ∷ section ∷ []) (2 ∷ 0xB0 ∷ [])
      (section-IsSection, (section-IsSection, tt)) rest-IsPartial refl

consume-sections_example :
    consume true (3 ∷ (2 ∷ 71 ∷ 72 ∷ []) ++ (section ++ (2 ∷ 0xB0 ∷ []))) begun
    ≡ ok (section ∷ section ∷ []) (record { buf = 2 ∷ 0xB0 ∷ [] })
unfolding flatten
consume-sections_example =
    consume-sections (2 ∷ 71 ∷ 72 ∷ []) (section ++ (2 ∷ 0xB0 ∷ [])) begun (section ∷ [])
      (section ∷ []) [] (2 ∷ 0xB0 ∷ []) (λ e. cc) (section-IsSection, tt) (inl refl) refl
      (section-IsSection, tt) rest-IsPartial refl
