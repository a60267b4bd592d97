-- ===== src/Packets/Pat/Errors.antt =====
-- The errors of the PAT collector are its own.
use mpegenc.Common.{
  ℕ, refl, Bool, not, Option, none, some, List, [], ◌∷◌, Bytes, if◌then◌else◌, ok, err, Leaves,
  on_ok, on_err, Leaves-if, external, not_a_pat,
}
use mpegenc.Packets.Pes.Guards.{Anything}
use mpegenc.Packets.Quiet.{then-Quiet, done-Quiet, within-Quiet}
use mpegenc.Astits.Tables.{PsiSection, Tables, PatProgram, SyntaxHeader}
use mpegenc.Packets.Psi.Errors as PsiErrors
use mpegenc.Packets.Pat.{
  PatCollector, parse_failed, find_program, pat_parts, parse_section, find_in, consume,
}

module _ {AF : Type 0} (lib : Tables AF) where
  with_parts :
      (c : PatCollector) (x : Option (SyntaxHeader × List PatProgram))
      → Leaves {A = Option ℕ} Anything (elim x [
        | none ↦ err not_a_pat c
        | some (h, ps) ↦
            if not h.current_next then ok none c else ok (find_program c.program_number ps) c
      ])
  with_parts c none = on_err refl
  with_parts c (some (h, ps)) = search (Leaves-if, done-Quiet)

  with_section :
      (c : PatCollector) (x : Option PsiSection)
      → Leaves {A = Option ℕ} Anything (elim x [
        | none ↦ err (external parse_failed) c
        | some s ↦ elim (pat_parts s) [
          | none ↦ err not_a_pat c
          | some (h, ps) ↦
              if not h.current_next then ok none c else ok (find_program c.program_number ps) c
        ]
      ])
  with_section c none = on_err refl
  with_section c (some s) = with_parts c (pat_parts s)

  parse_section-Quiet : (bs : Bytes) (c : PatCollector) → Leaves Anything (parse_section lib bs c)
  unfolding parse_section
  parse_section-Quiet bs c = with_section c (lib.parse_section bs)

  find_in-Quiet : (ss : List Bytes) (c : PatCollector) → Leaves Anything (find_in lib ss c)
  unfolding find_in
  find_in-Quiet [] c = on_ok tt
  find_in-Quiet (s ∷ ss) c =
      then-Quiet (parse_section lib s c) _ (parse_section-Quiet s c) (next (find_in-Quiet ss))
    where
      next :
          ((c' : PatCollector) → Leaves Anything (find_in lib ss c'))
          → (r : Option ℕ) (c' : PatCollector)
          → Leaves {A = Option ℕ} Anything
              (elim r [ some t ↦ ok (some t) c' | none ↦ find_in lib ss c' ])
      next k none c' = k c'
      next k (some t) c' = on_ok tt

  pub consume-Quiet :
      (pusi : Bool) (bs : Bytes) (c : PatCollector) → Leaves Anything (consume lib pusi bs c)
  unfolding consume
  consume-Quiet pusi bs c =
      search (then-Quiet, within-Quiet, PsiErrors.consume-Quiet, find_in-Quiet)
