-- ===== src/Output/Assembler/History.antt =====
-- What the input asks of the assembler, as the history of its slots: one entry for each reservation,
-- with the packets once they are committed.
use mpegenc.Common.{
  ℕ, zero, suc, ◌+◌, ◌-◌, ◌≤◌, ◌≡◌, refl, sym, ap, subst, ◌∙◌, Option, none, some, List, [], ◌∷◌,
  ◌++◌, append_assoc, arith, length, set, get_elem?, true, false,
}
use mpegenc.Astits.{Packet}
use mpegenc.Utils.CommitQueue.{CommitSlot}
use mpegenc.Output.Aligner.{CompletedSlot}

pub data Op (AF : Type 0) : Type 0 where
  reserves : Op AF
  commits : CompletedSlot AF → Op AF

abbrev pub History : Type 0 → Type 0
History AF = List (Option (List (Packet AF)))

module _ {AF : Type 0} where
  -- The new history, if the entry is there and not committed.
  abbrev pub if_open : Option (Option (List (Packet AF))) → History AF → Option (History AF)
  if_open none h = none
  if_open (some none) h = some h
  if_open (some (some ps)) h = none

  -- `none` where a token is committed that was not given out, or a second time.
  abbrev pub enter : Op AF → History AF → Option (History AF)
  enter reserves h = some (h ++ none ∷ [])
  enter (commits s) h = if_open (get_elem? h s.token) (set h s.token (some s.packets))

  abbrev pub history : List (Op AF) → History AF → Option (History AF)
  history [] h = some h
  history (op ∷ ops) h = elim (enter op h) [ none ↦ none | some h' ↦ history ops h' ]

  -- The entries up to the first that is not committed: how many, their packets, and the others.
  abbrev pub ready : History AF → ℕ
  ready [] = 0
  ready (none ∷ h) = 0
  ready (some ps ∷ h) = suc (ready h)

  abbrev pub front : History AF → List (Packet AF)
  front [] = []
  front (none ∷ h) = []
  front (some ps ∷ h) = ps ++ front h

  abbrev pub waiting : History AF → History AF
  waiting [] = []
  waiting (none ∷ h) = none ∷ h
  waiting (some ps ∷ h) = waiting h

  abbrev pub slot_of : Option (List (Packet AF)) → CommitSlot (List (Packet AF))
  slot_of none = record { value = []; ready = false }
  slot_of (some ps) = record { value = ps; ready = true }

  abbrev pub slots_of : History AF → List (CommitSlot (List (Packet AF)))
  slots_of [] = []
  slots_of (e ∷ h) = slot_of e ∷ slots_of h

  pub set-last :
      (h : History AF) (x y : Option (List (Packet AF)))
      → set (h ++ x ∷ []) (length h) y ≡ h ++ y ∷ []
  set-last [] x y = refl
  set-last (z ∷ h) x y = ap (◌∷◌ z) (set-last h x y)

  pub length-slots_of : (h : History AF) → length (slots_of h) ≡ length h
  length-slots_of [] = refl
  length-slots_of (e ∷ h) = ap suc (length-slots_of h)

  pub slots_of-append : (h k : History AF) → slots_of (h ++ k) ≡ slots_of h ++ slots_of k
  slots_of-append [] k = refl
  slots_of-append (e ∷ h) k = ap (◌∷◌ (slot_of e)) (slots_of-append h k)

  pub slots_of-set :
      (h : History AF) (n : ℕ) (ps : List (Packet AF))
      → set (slots_of h) n (record { value = ps; ready = true }) ≡ slots_of (set h n (some ps))
  slots_of-set [] n ps = refl
  slots_of-set (e ∷ h) zero ps = refl
  slots_of-set (e ∷ h) (suc n) ps = ap (◌∷◌ (slot_of e)) (slots_of-set h n ps)

  pub slot-at :
      (h : History AF) (n : ℕ)
      → get_elem? h n ≡ some none
      → get_elem? (slots_of h) n ≡ some (record { value = []; ready = false })
  slot-at [] n e = cc
  slot-at (none ∷ h) zero e = refl
  slot-at (some ps ∷ h) zero e = cc
  slot-at (x ∷ h) (suc n) e = slot-at h n e

  -- An entry that is not committed lies behind the front.
  pub behind :
      (h : History AF) (t : ℕ)
      → get_elem? h t ≡ some none
      → (ready h ≤ t) × (get_elem? (waiting h) (t - ready h) ≡ some none)
  behind [] t e = cc
  behind (none ∷ h) zero e = (omega arith, refl)
  behind (none ∷ h) (suc t) e =
      (omega arith, ap (get_elem? (none ∷ h)) (let z : suc t - 0 ≡ suc t = omega arith in z) ∙ e)
  behind (some ps ∷ h) zero e = cc
  behind (some ps ∷ h) (suc t) e =
      let (a, b) = behind h t e in
      (
        omega (arith, a),
        ap (get_elem? (waiting h)) (let z : suc t - suc (ready h) ≡ t - ready h = omega arith in z)
            ∙ b,
      )

  pub length-waiting : (h : History AF) → ready h + length (waiting h) ≡ length h
  length-waiting [] = omega arith
  length-waiting (none ∷ h) = omega arith
  length-waiting (some ps ∷ h) = omega (arith, length-waiting h)

  -- The front grows by what is committed behind it.
  pub record Grows (h k : History AF) (h' : History AF) : Type 0 where
    pub ready_sum : ready h' ≡ ready h + ready k
    pub front_sum : front h' ≡ front h ++ front k
    pub same_rest : waiting h' ≡ waiting k

  Grows-some :
      (ps : List (Packet AF)) (h k h' : History AF)
      → Grows h k h'
      → Grows (some ps ∷ h) k (some ps ∷ h')
  Grows-some ps h k h' g = record {
    ready_sum = omega (arith, g.ready_sum);
    front_sum = ap (◌++◌ ps) g.front_sum ∙ sym (append_assoc ps (front h) (front k));
    same_rest = g.same_rest;
  }

  pub set-Grows :
      (h : History AF) (t n : ℕ) (x : Option (List (Packet AF)))
      → ready h + n ≡ t
      → Grows h (set (waiting h) n x) (set h t x)
  set-Grows [] t n x e = record { ready_sum = omega arith; front_sum = refl; same_rest = refl }
  set-Grows (none ∷ h) t n x e =
      subst (λ m. Grows (none ∷ h) (set (none ∷ h) n x) (set (none ∷ h) m x)) (omega arith)
        (record { ready_sum = omega arith; front_sum = refl; same_rest = refl })
  set-Grows (some ps ∷ h) zero n x e = absurd (omega arith)
  set-Grows (some ps ∷ h) (suc t) n x e =
      Grows-some ps h (set (waiting h) n x) (set h t x) (set-Grows h t n x (omega arith))

  -- A reservation changes nothing in front.
  pub record Waits (h h' : History AF) : Type 0 where
    pub same_ready : ready h' ≡ ready h
    pub same_front : front h' ≡ front h
    pub one_more : waiting h' ≡ waiting h ++ none ∷ []

  pub append-Waits : (h : History AF) → Waits h (h ++ none ∷ [])
  append-Waits [] = record { same_ready = refl; same_front = refl; one_more = refl }
  append-Waits (none ∷ h) = record { same_ready = refl; same_front = refl; one_more = refl }
  append-Waits (some ps ∷ h) =
      let w = append-Waits h in
      record {
        same_ready = ap suc w.same_ready;
        same_front = ap (◌++◌ ps) w.same_front;
        one_more = w.one_more;
      }

  pub waiting-Grows : (h : History AF) → Grows h (waiting h) h
  waiting-Grows [] = record { ready_sum = omega arith; front_sum = refl; same_rest = refl }
  waiting-Grows (none ∷ h) = record { ready_sum = omega arith; front_sum = refl; same_rest = refl }
  waiting-Grows (some ps ∷ h) = Grows-some ps h (waiting h) h (waiting-Grows h)
