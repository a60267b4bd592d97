-- ===== src/Utils/CommitQueue.antt =====
-- internal/utils/commit_queue.go: slots reserved in order, committed in any order, and drained in
-- order. A token is a `uint64`, so the counters are taken mod 2^64.
pub mod Spec
pub mod Refine
use mpegenc.Common.{
  ℕ, zero, suc, ◌+◌, ◌-◌, ◌*◌, ◌%◌, ◌^◌, Bool, true, false, ◌||◌, Option, none, some, List, [], ◌∷◌,
  ◌++◌, length, get_elem?, set, drop, ltb, leb, ◌==◌, if◌then◌else◌, Method, Outcome, ok, err,
  token_not_pending, token_committed, index_out_of_range, and_then,
}

pub record CommitSlot (T : Type 0) : Type 0 where
  pub value : T
  pub ready : Bool

-- The slots below `head` are drained; `first` is the token of `slots[head]`.
pub record CommitQueue (T : Type 0) : Type 0 where
  pub slots : List (CommitSlot T)
  pub head : ℕ
  pub first : ℕ
  pub next : ℕ

-- `CommitToken` is a `uint64`.
abbrev pub token_count : ℕ
token_count = 2 ^ 64

abbrev pub next_token : ℕ → ℕ
next_token t = (t + 1) % token_count

unfoldable pub empty : {T : Type 0} → CommitQueue T
empty = record { slots = []; head = 0; first = 0; next = 0 }

module _ {T : Type 0} where
  append_slot : CommitSlot T → CommitQueue T → ℕ × CommitQueue T
  append_slot slot q = (q.next, record q { next = next_token q.next; slots = q.slots ++ slot ∷ [] })

  -- `zero_value` is what Go's `var zero T` gives.
  pub reserve : T → CommitQueue T → ℕ × CommitQueue T
  unfolding append_slot
  reserve zero_value = append_slot (record { value = zero_value; ready = false })

  pub reserve_with : T → CommitQueue T → ℕ × CommitQueue T
  unfolding append_slot
  reserve_with value = append_slot (record { value = value; ready = false })

  -- `Reserve`, then the last slot is filled.
  pub push_ready : T → T → CommitQueue T → ℕ × CommitQueue T
  unfolding reserve
  push_ready zero_value value q =
      let (token, q') = reserve zero_value q in
      (
        token,
        record q' {
          slots = set q'.slots (length q'.slots - 1) (record { value = value; ready = true });
        },
      )

  -- The slot of a pending token, or the error that `Peek` and `Commit` share.
  pending_slot : ℕ → Method (CommitQueue T) (CommitSlot T)
  pending_slot token q =
      if ltb token q.first || leb q.next token
      then err token_not_pending q
      else elim (get_elem? q.slots (q.head + (token - q.first))) [
        | none ↦ err index_out_of_range q
        | some slot ↦ if slot.ready then err token_committed q else ok slot q
      ]

  pub peek : ℕ → Method (CommitQueue T) T
  unfolding pending_slot
  peek token q = and_then (pending_slot token q) (λ slot q'. ok slot.value q')

  pub commit : ℕ → T → Method (CommitQueue T) (Unit {0})
  unfolding pending_slot
  commit token value q = and_then (pending_slot token q) (λ _ q'. ok tt (record q' {
    slots = set q'.slots (q'.head + (token - q'.first)) (record { value = value; ready = true });
  }))

  unfoldable pub len : CommitQueue T → ℕ
  len q = length q.slots - q.head

  pub compact : CommitQueue T → CommitQueue T
  compact q =
      if q.head == 0
      then q
      else if q.head == length q.slots
      then record q { slots = []; head = 0 }
      else if ltb (q.head * 2) (length q.slots)
      then q
      else record q { slots = drop q.head q.slots; head = 0 }

  -- `slot.value = zero; q.head++; q.first++`
  advance : T → CommitSlot T → CommitQueue T → CommitQueue T
  advance zero_value slot q = record q {
    slots = set q.slots q.head (record slot { value = zero_value });
    head = suc q.head;
    first = next_token q.first;
  }

module _ {T W : Type 0} (zero_value : T) (write : T → Method W (Unit {0})) where
  -- The loop of `Drain`, with the writer's state; the rounds are at most the slots left.
  drain_loop : ℕ → Method (CommitQueue T × W) (Unit {0})
  unfolding advance compact
  drain_loop zero (q, w) = ok tt (q, w)
  drain_loop (suc f) (q, w) = elim (get_elem? q.slots q.head) [
    | none ↦ ok tt (q, w)
    | some slot ↦ elim slot.ready [
      | false ↦ ok tt (q, w)
      | true ↦ elim (write slot.value w) [
        | ok _ w' ↦ drain_loop f (advance zero_value slot q, w')
        | err e w' ↦ err e (compact q, w')
      ]
    ]
  ]

  unfoldable pub drain : Method (CommitQueue T × W) (Unit {0})
  unfolding drain_loop compact
  drain (q, w) = and_then (drain_loop (length q.slots) (q, w)) (λ _ s. ok tt (compact s.0, s.1))
