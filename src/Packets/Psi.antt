-- ===== src/Packets/Psi.antt =====
-- ts/internal/packets/psi.go: PSI sections from consecutive TS payloads of one PID.
pub mod Sections
pub mod Errors
use mpegenc.Common.{
  ℕ, zero, suc, ◌+◌, ◌-◌, ◌*◌, ◌%◌, Bool, true, false, List, [], ◌∷◌, ◌++◌, Bytes, length, get_or,
  take, drop, ltb, ◌==◌, if◌then◌else◌, Method, ok, err, and_then, missing_pointer_field,
  pointer_field_exceeds, bad_section_length, out_of_fuel,
}

pub record PsiSectionCollector : Type 0 where
  pub buf : Bytes

-- `int(buf[1]&0x0F)<<8 | int(buf[2])`
abbrev pub section_length : Bytes → ℕ
section_length buf = get_or buf 1 0 % 16 * 256 + get_or buf 2 0

-- The loop of `append`, on fuel, with the sections found so far.
pub append_loop : ℕ → List Bytes → Method PsiSectionCollector (List Bytes)
append_loop zero sections c = err out_of_fuel c
append_loop (suc f) sections c =
    let total_length = 3 + section_length c.buf in
    let next =
      append_loop f (sections ++ take total_length c.buf ∷ [])
        (record c { buf = drop total_length c.buf }) in
    if length c.buf == 0
    then ok sections c
    else if get_or c.buf 0 0 == 0xFF
    then ok sections (record c { buf = [] })
    else if ltb (length c.buf) 3
    then ok sections c
    else if ltb 1021 (section_length c.buf)
    then err bad_section_length c
    else if ltb (length c.buf) total_length
    then ok sections c
    else next

-- Each round but the last takes at least three bytes, so the fuel is enough (`append-Collected`).
pub append : Bytes → Method PsiSectionCollector (List Bytes)
append payload c =
    append_loop (suc (length (c.buf ++ payload))) [] (record c { buf = c.buf ++ payload })

-- Bytes in front of the pointed-to start may complete the section before it; what stays incomplete
-- is dropped.
finish_previous : Bytes → Method PsiSectionCollector (List Bytes)
unfolding append
finish_previous before c =
    if length c.buf == 0
    then ok [] c
    else and_then (append before c) (λ completed c'. ok completed (record c' { buf = [] }))

unfoldable pub consume : Bool → Bytes → Method PsiSectionCollector (List Bytes)
unfolding append append_loop finish_previous
consume false payload c = append payload c
consume true [] c = err missing_pointer_field c
consume true (pointer_field ∷ rest) c =
    if ltb (length rest) pointer_field
    then err pointer_field_exceeds c
    else and_then (finish_previous (take pointer_field rest) c) (λ sections c'.
      and_then (append (drop pointer_field rest) c')
        (λ completed c''. ok (sections ++ completed) c''))
