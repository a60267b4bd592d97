-- ===== src/Packets/Pat.antt =====
-- ts/internal/packets/pat.go: the PID of the program map of one program.
pub mod Errors
use mpegenc.Common.{
  ℕ, Bool, not, Option, none, some, List, [], ◌∷◌, Bytes, ◌==◌, if◌then◌else◌, Method, ok, err,
  and_then, within, external, not_a_pat,
}
use mpegenc.Astits.Tables.{PatProgram, SyntaxHeader, PsiSection, Tables, pat_table_id}
use mpegenc.Packets.Psi.{PsiSectionCollector}
use mpegenc.Packets.Psi

pub record PatCollector : Type 0 where
  pub program_number : ℕ
  pub sections : PsiSectionCollector

unfoldable pub new_pat_collector : ℕ → PatCollector
new_pat_collector n = record { program_number = n; sections = record { buf = [] } }

-- The error of `ParsePSISection`.
abbrev pub parse_failed : ℕ
parse_failed = 1

-- The loop over the programs.
abbrev pub find_program : ℕ → List PatProgram → Option ℕ
find_program n [] = none
find_program n (p ∷ ps) = if p.program_number == n then some p.program_map_id else find_program n ps

-- The header and the programs of a PAT, or `none` where the test for nil parts fails.
abbrev pub pat_parts : PsiSection → Option (SyntaxHeader × List PatProgram)
pat_parts s = if not (s.table_id == pat_table_id) then none else elim s.syntax [
  | none ↦ none
  | some x ↦ elim x.head [
    | none ↦ none
    | some h ↦ elim x.body [
      | none ↦ none
      | some b ↦ elim b.pat [ none ↦ none | some ps ↦ some (h, ps) ]
    ]
  ]
]

module _ {AF : Type 0} (lib : Tables AF) where
  -- `parseSection`; the PID, if it was found.
  parse_section : Bytes → Method PatCollector (Option ℕ)
  parse_section section c = elim (lib.parse_section section) [
    | none ↦ err (external parse_failed) c
    | some s ↦ elim (pat_parts s) [
      | none ↦ err not_a_pat c
      | some (h, ps) ↦
          if not h.current_next then ok none c else ok (find_program c.program_number ps) c
    ]
  ]

  -- The loop over the sections, up to the first that has the program.
  find_in : List Bytes → Method PatCollector (Option ℕ)
  unfolding parse_section
  find_in [] c = ok none c
  find_in (s ∷ ss) c =
      and_then (parse_section s c)
        (λ r c'. elim r [ some pid ↦ ok (some pid) c' | none ↦ find_in ss c' ])

  pub consume : Bool → Bytes → Method PatCollector (Option ℕ)
  unfolding find_in
  consume pusi payload c =
      and_then (within (λ c p. record c { sections = p }) c (Psi.consume pusi payload c.sections))
        (λ sections c'. find_in sections c')
