-- ===== src/Tests/Queues.antt =====
-- A commit queue with one slot drained, one ready and one pending.
use mpegenc.Common.{
  ℕ, ◌≡◌, refl, true, false, [], ◌∷◌, ◌++◌, List, arith, ◌==◌, if◌then◌else◌, Method, ok, err,
  and_then, map_state, state_of, external,
}
use mpegenc.Utils.CommitQueue.{CommitQueue, reserve, reserve_with, push_ready, commit, drain}
use mpegenc.Utils.CommitQueue.Spec.{Window, IsValid, view, find, fill}
use mpegenc.Utils.CommitQueue.Spec
use mpegenc.Utils.CommitQueue.Refine.{
  Appends, observed, reserve_refines, commit_refines, drain_refines,
}

abbrev queue : CommitQueue ℕ
queue = record {
  slots =
      record { value = 0; ready = true }
      ∷ record { value = 7; ready = true }
      ∷ record { value = 0; ready = false }
      ∷ [];
  head = 1;
  first = 5;
  next = 7;
}

queue-IsValid : IsValid queue
queue-IsValid = record { head_in = omega arith; counted = refl; no_wrap = omega arith }

-- A writer that keeps what it is given and refuses a 9.
abbrev record_value : ℕ → Method (List ℕ) (Unit {0})
record_value x w = if x == 9 then err (external 0) w else ok tt (w ++ x ∷ [])

drain_stops_at_pending :
    map_state observed (drain 0 record_value (queue, []))
    ≡ ok tt (record { base = 6; slots = record { value = 0; ready = false } ∷ [] }, 7 ∷ [])
unfolding drain
drain_stops_at_pending = refl

reserve_refines_example :
    Appends queue false 0 (reserve 0 queue)
    × Appends queue false 8 (reserve_with 8 queue)
    × Appends queue true 8 (push_ready 0 8 queue)
reserve_refines_example = reserve_refines queue 0 8 queue-IsValid (omega arith)

commit_refines_example :
    (map_state view (commit 6 8 queue) ≡ and_then (find 6 (view queue)) (λ _ v. ok tt (fill 6 8 v)))
    × IsValid (state_of (commit 6 8 queue))
commit_refines_example = commit_refines 6 8 queue queue-IsValid

drain_refines_example :
    (map_state observed (drain 0 record_value (queue, []))
      ≡ Spec.drain record_value 5 (view queue).slots [])
    × IsValid (state_of (drain 0 record_value (queue, []))).0
drain_refines_example = drain_refines 0 record_value queue [] queue-IsValid
