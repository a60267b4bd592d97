-- ===== src/Utils/CommitQueue/Spec.antt =====
-- The promise of the queue: a window of slots behind a first token.
use mpegenc.Common.{
  ℕ, suc, ◌+◌, ◌-◌, ◌≤◌, ◌<◌, ◌≡◌, true, false, ◌||◌, none, some, List, [], ◌∷◌, ◌++◌, length,
  get_elem?, set, drop, ltb, leb, if◌then◌else◌, Method, Outcome, ok, err, token_not_pending,
  token_committed, index_out_of_range,
}
use mpegenc.Utils.CommitQueue.{CommitSlot, CommitQueue, token_count}

-- The pending slots in order; the token of the n-th is `base + n`.
pub record Window (T : Type 0) : Type 0 where
  pub base : ℕ
  pub slots : List (CommitSlot T)

module _ {T : Type 0} where
  abbrev pub view : CommitQueue T → Window T
  view q = record { base = q.first; slots = drop q.head q.slots }

  -- A slot that is pending and not ready, with its position.
  abbrev pub find : ℕ → Method (Window T) (CommitSlot T)
  find token v =
      if ltb token v.base || leb (v.base + length v.slots) token
      then err token_not_pending v
      else elim (get_elem? v.slots (token - v.base)) [
        | none ↦ err index_out_of_range v
        | some slot ↦ if slot.ready then err token_committed v else ok slot v
      ]

  abbrev pub fill : ℕ → T → Window T → Window T
  fill token value v = record v {
    slots = set v.slots (token - v.base) (record { value = value; ready = true });
  }

  abbrev pub extend : CommitSlot T → Window T → Window T
  extend slot v = record v { slots = v.slots ++ slot ∷ [] }

  -- `head` stays within the slots, and `next` is the token behind the last one.
  pub record IsValid (q : CommitQueue T) : Type 0 where
    pub head_in : q.head ≤ length q.slots
    pub counted : q.first + (length q.slots - q.head) ≡ q.next
    pub no_wrap : q.next < token_count

module _ {T W : Type 0} (write : T → Method W (Unit {0})) where
  -- Writes the ready slots in front, up to the first failure, and keeps the others.
  unfoldable pub drain : ℕ → List (CommitSlot T) → W → Outcome (Window T × W) (Unit {0})
  drain base [] w = ok tt (record { base = base; slots = [] }, w)
  drain base (s ∷ ss) w = elim s.ready [
    | false ↦ ok tt (record { base = base; slots = s ∷ ss }, w)
    | true ↦ elim (write s.value w) [
      | ok _ w' ↦ drain (suc base) ss w'
      | err e w' ↦ err e (record { base = base; slots = s ∷ ss }, w')
    ]
  ]
