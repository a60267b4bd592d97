-- ===== src/Packets/Psi/Errors.antt =====
-- The errors of the section collector are its own.
use mpegenc.Common.{
  ℕ, zero, suc, refl, Bool, true, false, List, [], ◌∷◌, ◌++◌, Bytes, length, Leaves, on_err,
  Leaves-if,
}
use mpegenc.Packets.Pes.Guards.{Anything}
use mpegenc.Packets.Quiet.{then-Quiet, done-Quiet}
use mpegenc.Packets.Psi.{PsiSectionCollector, append_loop, append, finish_previous, consume}

append_loop-Quiet :
    (f : ℕ) (sections : List Bytes) (c : PsiSectionCollector)
    → Leaves Anything (append_loop f sections c)
unfolding append_loop
append_loop-Quiet zero sections c = on_err refl
append_loop-Quiet (suc f) sections c =
    search (Leaves-if, done-Quiet, on_err, refl, append_loop-Quiet f) depth 10

append-Quiet : (bs : Bytes) (c : PsiSectionCollector) → Leaves Anything (append bs c)
unfolding append
append-Quiet bs c =
    append_loop-Quiet (suc (length (c.buf ++ bs))) [] (record c { buf = c.buf ++ bs })

finish_previous-Quiet :
    (bs : Bytes) (c : PsiSectionCollector) → Leaves Anything (finish_previous bs c)
unfolding finish_previous
finish_previous-Quiet bs c = search (Leaves-if, then-Quiet, done-Quiet, append-Quiet)

pub consume-Quiet :
    (pusi : Bool) (bs : Bytes) (c : PsiSectionCollector) → Leaves Anything (consume pusi bs c)
unfolding consume
consume-Quiet false bs c = append-Quiet bs c
consume-Quiet true [] c = on_err refl
consume-Quiet true (b ∷ bs) c =
    search (Leaves-if, then-Quiet, done-Quiet, append-Quiet, finish_previous-Quiet, on_err, refl)
      depth 8
