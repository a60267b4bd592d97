-- ===== src/Packets/Pmt/Errors.antt =====
-- The errors of the PMT collector are its own.
use mpegenc.Common.{
  refl, Bool, not, Option, none, some, List, [], ◌∷◌, Bytes, ◌==◌, if◌then◌else◌, ok, err, Leaves,
  on_ok, on_err, Leaves-if, external, not_a_pmt,
}
use mpegenc.Packets.Pes.Guards.{Anything}
use mpegenc.Packets.Quiet.{then-Quiet, done-Quiet, within-Quiet}
use mpegenc.Astits.Tables.{PsiSection, Tables, PmtBody, SyntaxHeader}
use mpegenc.Packets.Psi.Errors as PsiErrors
use mpegenc.Packets.Pat.{parse_failed}
use mpegenc.Packets.Pmt.{PmtCollector, pmt_parts, check_section, find_in, consume}

module _ {AF : Type 0} (lib : Tables AF) where
  with_parts :
      (s : PsiSection) (c : PmtCollector) (x : Option (SyntaxHeader × PmtBody))
      → Leaves {A = Option PsiSection} Anything (elim x [
        | none ↦ err not_a_pmt c
        | some (h, m) ↦
            if not h.current_next
            then ok none c
            else if m.program_number == c.program_number
            then ok (some s) c
            else ok none c
      ])
  with_parts s c none = on_err refl
  with_parts s c (some (h, m)) = search (Leaves-if, done-Quiet)

  with_section :
      (c : PmtCollector) (x : Option PsiSection)
      → Leaves {A = Option PsiSection} Anything (elim x [
        | none ↦ err (external parse_failed) c
        | some s ↦ elim (pmt_parts s) [
          | none ↦ err not_a_pmt c
          | some (h, m) ↦
              if not h.current_next
              then ok none c
              else if m.program_number == c.program_number
              then ok (some s) c
              else ok none c
        ]
      ])
  with_section c none = on_err refl
  with_section c (some s) = with_parts s c (pmt_parts s)

  check_section-Quiet : (bs : Bytes) (c : PmtCollector) → Leaves Anything (check_section lib bs c)
  unfolding check_section
  check_section-Quiet bs c = with_section c (lib.parse_section bs)

  find_in-Quiet : (ss : List Bytes) (c : PmtCollector) → Leaves Anything (find_in lib ss c)
  unfolding find_in
  find_in-Quiet [] c = on_ok tt
  find_in-Quiet (s ∷ ss) c =
      then-Quiet (check_section lib s c) _ (check_section-Quiet s c) (next (find_in-Quiet ss))
    where
      next :
          ((c' : PmtCollector) → Leaves Anything (find_in lib ss c'))
          → (r : Option PsiSection) (c' : PmtCollector)
          → Leaves {A = Option PsiSection} Anything
              (elim r [ some t ↦ ok (some t) c' | none ↦ find_in lib ss c' ])
      next k none c' = k c'
      next k (some t) c' = on_ok tt

  pub consume-Quiet :
      (pusi : Bool) (bs : Bytes) (c : PmtCollector) → Leaves Anything (consume lib pusi bs c)
  unfolding consume
  consume-Quiet pusi bs c =
      search (then-Quiet, within-Quiet, PsiErrors.consume-Quiet, find_in-Quiet)
