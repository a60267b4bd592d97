-- ===== src/Utils/CommitQueue/Refine.antt =====
-- The queue behaves as the window of its pending slots.
use mpegenc.Common.{
  ℕ, zero, suc, ◌+◌, ◌-◌, ◌≤◌, ◌<◌, ◌≡◌, refl, subst, sym, ap, ap₂, ◌∙◌, Bool, true, false, List,
  [], ◌∷◌, ◌++◌, arith, length, get_elem?, set, drop, Method, Outcome, ok, err, and_then,
  Outcome-cases, Bool-cases, Option-cases, inl, inr, drop-all, map_state, state_of, length-drop,
  length-set, length-append, get_elem?-drop, length_zero, drop-set, drop-set_below, drop-append_le,
  drop-get_elem?, drop-get_elem?-none,
}
use mpegenc.Utils.CommitQueue.{
  CommitSlot, CommitQueue, token_count, next_token, append_slot, reserve, reserve_with, push_ready,
  pending_slot, commit, compact, advance, drain_loop, drain,
}
use mpegenc.Utils.CommitQueue.Spec.{Window, view, find, fill, extend, IsValid}
use mpegenc.Utils.CommitQueue.Spec

set_at {ℓ} :
    {A : Type ℓ} (xs : List A) (x y : A) (n : ℕ)
    → n ≡ length xs
    → set (xs ++ x ∷ []) n y ≡ xs ++ y ∷ []
set_at [] x y zero e = refl
set_at [] x y (suc n) e = absurd (omega arith)
set_at (z ∷ xs) x y zero e = absurd (omega arith)
set_at (z ∷ xs) x y (suc n) e = ap (◌∷◌ z) (set_at xs x y n (omega arith))

set_last {ℓ} :
    {A : Type ℓ} (xs : List A) (x y : A)
    → set (xs ++ x ∷ []) (length (xs ++ x ∷ []) - 1) y ≡ xs ++ y ∷ []
set_last xs x y = set_at xs x y _ (omega (arith, length-append xs (x ∷ [])))

module _ {T : Type 0} where
  append_slot-extend :
      (q : CommitQueue T) (slot : CommitSlot T)
      → IsValid q
      → q.next + 1 < token_count
      → let (t, q') = append_slot slot q in
        (t ≡ q.first + length (view q).slots) × (view q' ≡ extend slot (view q)) × IsValid q'
  unfolding append_slot
  append_slot-extend q slot v h = (
    omega (arith, length-drop q.head q.slots),
    ap (λ s. record { base = q.first; slots = s })
        (drop-append_le q.slots (slot ∷ []) q.head v.head_in),
    omega (arith, length-append q.slots (slot ∷ [])),
  )

  -- What a call that gives out a token does to the window.
  abbrev pub Appends : CommitQueue T → Bool → T → ℕ × CommitQueue T → Type 0
  Appends q ready y (t, q') =
      (t ≡ q.first + length (view q).slots)
      × (view q' ≡ extend (record { value = y; ready = ready }) (view q))
      × IsValid q'

  -- Each way to reserve gives out the token behind the last pending one, adds one slot at the end of
  -- the window and keeps the queue valid: an unready one for `Reserve` and `ReserveWith`, a ready one
  -- for `PushReady`. The counter must be below its last value.
  pub reserve_refines :
      (q : CommitQueue T) (zero_value x : T)
      → IsValid q
      → q.next + 1 < token_count
      → Appends q false zero_value (reserve zero_value q)
        × Appends q false x (reserve_with x q)
        × Appends q true x (push_ready zero_value x q)
  unfolding reserve reserve_with push_ready
  reserve_refines q zero_value x v h = (
    append_slot-extend q (record { value = zero_value; ready = false }) v h,
    append_slot-extend q (record { value = x; ready = false }) v h,
    subst
        (λ l.
          let r : CommitQueue T = record q { next = next_token q.next; slots = l } in
          (q.next ≡ q.first + length (view q).slots)
          × (view r ≡ extend (record { value = x; ready = true }) (view q))
          × IsValid r)
        (sym (
          set_last q.slots (record { value = zero_value; ready = false })
            (record { value = x; ready = true })))
        (append_slot-extend q (record { value = x; ready = true }) v h),
  )

  -- What a lookup in the window says of the queue, which it leaves as it is.
  abbrev seen : {A : Type 0} → CommitQueue T → Outcome (Window T) A → Outcome (CommitQueue T) A
  seen q (ok a v) = ok a q
  seen q (err e v) = err e q

  pending_slot-find :
      (t : ℕ) (q : CommitQueue T) → IsValid q → pending_slot t q ≡ seen q (find t (view q))
  unfolding pending_slot
  pending_slot-find t q v =
      rw (get_elem?-drop q.slots q.head (t - q.first)) (ground (arith, length-drop q.head q.slots))

  view-compact : (q : CommitQueue T) → q.head ≤ length q.slots → view (compact q) ≡ view q
  unfolding compact
  view-compact q h = ground (arith, drop-all q.slots q.head)

  compact-IsValid : (q : CommitQueue T) → IsValid q → IsValid (compact q)
  unfolding compact
  compact-IsValid q v = ground (arith, length-drop q.head q.slots)

  fill-IsValid :
      (t : ℕ) (x : T) (q : CommitQueue T)
      → IsValid q
      → IsValid (record q {
        slots = set q.slots (q.head + (t - q.first)) (record { value = x; ready = true });
      })
  fill-IsValid t x q v =
      omega
        (arith, length-set q.slots (q.head + (t - q.first)) (record { value = x; ready = true }))

  -- Committing a token of a valid queue does what it does to the window of pending slots: it refuses
  -- a token outside the window and one committed before, leaving the queue as it is, and otherwise
  -- fills that slot alone; the queue stays valid.
  pub commit_refines :
      (t : ℕ) (x : T) (q : CommitQueue T)
      → IsValid q
      → (map_state view (commit t x q) ≡ and_then (find t (view q)) (λ _ v. ok tt (fill t x v)))
        × IsValid (state_of (commit t x q))
  unfolding commit
  commit_refines t x q v = rw (pending_slot-find t q v) (
      ground (
        arith,
        drop-set q.slots q.head (t - q.first) (record { value = x; ready = true }),
        fill-IsValid t x q v,
      ))

-- The window that a queue stands for, and the state of the writer.
abbrev pub observed : {T W : Type 0} → CommitQueue T × W → Window T × W
observed (q, w) = (view q, w)

module _ {T W : Type 0} (zero_value : T) (write : T → Method W (Unit {0})) where
  advance-IsValid :
      (s : CommitSlot T) (q : CommitQueue T)
      → IsValid q
      → q.head < length q.slots
      → IsValid (advance zero_value s q)
        × (view (advance zero_value s q)
            ≡ record { base = suc q.first; slots = drop (suc q.head) q.slots })
  unfolding advance
  advance-IsValid s q v h =
      let s' : CommitSlot T = record s { value = zero_value } in
      let n : next_token q.first ≡ suc q.first = omega arith in
      (
        omega (arith, length-set q.slots q.head s'),
        ap₂ (λ b l. record { base = b; slots = l }) n (drop-set_below q.slots q.head s'),
      )

  drain_loop-drain :
      (f : ℕ) (q : CommitQueue T) (w : W)
      → IsValid q
      → length (drop q.head q.slots) ≤ f
      → (map_state observed (drain_loop zero_value write f (q, w))
          ≡ Spec.drain write q.first (drop q.head q.slots) w)
        × IsValid (state_of (drain_loop zero_value write f (q, w))).0
  unfolding drain_loop Spec.drain
  drain_loop-drain zero q w v h = rw (length_zero (drop q.head q.slots) h) (refl, v)
  drain_loop-drain (suc f) q w v h = elim (Option-cases (get_elem? q.slots q.head)) [
    | inl e ↦ rw (e, drain_loop, drop-get_elem?-none q.slots q.head e) (refl, v)
    | inr (s, e) ↦
        let c = drop-get_elem? q.slots q.head e in
        elim (Bool-cases s.ready) [
          | inr r ↦
              rw (e, drain_loop, c, r)
                (ap (λ l. ok tt (record { base = q.first; slots = l }, w)) c, v)
          | inl r ↦ elim (Outcome-cases (write s.value w)) [
            | inr (e', w', x) ↦
                rw (e, drain_loop, c, r, x)
                  (
                    ap (λ u. err e' (u, w'))
                        (view-compact q v.head_in
                          ∙ ap (λ l. record { base = q.first; slots = l }) c),
                    compact-IsValid q v,
                  )
            | inl (_, w', x) ↦
                let (v', a) =
                  advance-IsValid s q v (omega (arith, length-drop q.head q.slots, ap length c)) in
                let fits : length (view (advance zero_value s q)).slots ≤ f =
                  omega (arith, ap length c, ap (λ u. length u.slots) a) in
                let (same, valid) = drain_loop-drain f (advance zero_value s q) w' v' fits in
                rw (e, drain_loop, c, r, x)
                  (same ∙ ap (λ u. Spec.drain write u.base u.slots w') a, valid)
          ]
        ]
  ]

  finish :
      (o : Outcome (CommitQueue T × W) (Unit {0}))
      → IsValid (state_of o).0
      → let o' = and_then o (λ _ s. ok tt (compact s.0, s.1)) in
        (map_state observed o' ≡ map_state observed o) × IsValid (state_of o').0
  finish (ok a (q, w)) v = (ap (λ u. ok tt (u, w)) (view-compact q v.head_in), compact-IsValid q v)
  finish (err e s) v = (refl, v)

  -- Draining a valid queue writes the ready slots in front in their order, stops at the first slot
  -- that is not ready or that the writer refuses, hands on the writer's state and its error, keeps
  -- the slots that were not written with their tokens, and leaves a valid queue. The bookkeeping of
  -- `head` and of the storage is not seen.
  pub drain_refines :
      (q : CommitQueue T) (w : W)
      → IsValid q
      → (map_state observed (drain zero_value write (q, w))
          ≡ Spec.drain write q.first (view q).slots w)
        × IsValid (state_of (drain zero_value write (q, w))).0
  unfolding drain
  drain_refines q w v =
      let (same, valid) =
        drain_loop-drain (length q.slots) q w v (omega (arith, length-drop q.head q.slots)) in
      let (same', valid') = finish (drain_loop zero_value write (length q.slots) (q, w)) valid in
      (same' ∙ same, valid')
