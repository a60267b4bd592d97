-- ===== src/Packets/Pmt.antt =====
-- ts/internal/packets/pmt.go: the parsed program map of one program.
pub mod Errors
use mpegenc.Common.{
  ℕ, Bool, not, Option, none, some, List, [], ◌∷◌, Bytes, ◌==◌, if◌then◌else◌, Method, ok, err,
  and_then, within, external, not_a_pmt,
}
use mpegenc.Astits.Tables.{PmtBody, SyntaxHeader, PsiSection, Tables, pmt_table_id}
use mpegenc.Packets.Psi.{PsiSectionCollector}
use mpegenc.Packets.Psi
use mpegenc.Packets.Pat.{parse_failed}

pub record PmtCollector : Type 0 where
  pub program_number : ℕ
  pub sections : PsiSectionCollector

unfoldable pub new_pmt_collector : ℕ → PmtCollector
new_pmt_collector n = record { program_number = n; sections = record { buf = [] } }

-- The header and the body of a PMT, or `none` where the test for nil parts fails.
abbrev pub pmt_parts : PsiSection → Option (SyntaxHeader × PmtBody)
pmt_parts s = if not (s.table_id == pmt_table_id) then none else elim s.syntax [
  | none ↦ none
  | some x ↦ elim x.head [
    | none ↦ none
    | some h ↦ elim x.body [
      | none ↦ none
      | some b ↦ elim b.pmt [ none ↦ none | some m ↦ some (h, m) ]
    ]
  ]
]

module _ {AF : Type 0} (lib : Tables AF) where
  -- The body of the loop: the section, if it is a current PMT of the program.
  check_section : Bytes → Method PmtCollector (Option PsiSection)
  check_section section c = elim (lib.parse_section section) [
    | none ↦ err (external parse_failed) c
    | some s ↦ elim (pmt_parts s) [
      | none ↦ err not_a_pmt c
      | some (h, m) ↦
          if not h.current_next
          then ok none c
          else if m.program_number == c.program_number
          then ok (some s) c
          else ok none c
    ]
  ]

  -- The loop over the sections.
  find_in : List Bytes → Method PmtCollector (Option PsiSection)
  unfolding check_section
  find_in [] c = ok none c
  find_in (s ∷ ss) c =
      and_then (check_section s c)
        (λ r c'. elim r [ some t ↦ ok (some t) c' | none ↦ find_in ss c' ])

  unfoldable pub consume : Bool → Bytes → Method PmtCollector (Option PsiSection)
  unfolding find_in Psi.consume
  consume pusi payload c =
      and_then (within (λ c p. record c { sections = p }) c (Psi.consume pusi payload c.sections))
        (λ sections c'. find_in sections c')
