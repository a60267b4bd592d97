-- ===== src/Output/Assembler/Open.antt =====
-- Which slots of the output are open, and that a commit closes the one that it is for.
use mpegenc.Common.{
  ℕ, zero, suc, ◌+◌, ◌<◌, ◌≡◌, refl, sym, ap, ◌∙◌, Option, none, some, List, [], ◌∷◌, ◌++◌, arith,
  length, set, get_elem?, Outcome, ok, err, Leaves, Leaves-map, on_ok, ◌==◌, if◌then◌else◌,
}
use mpegenc.Astits.{Packet}
use mpegenc.Utils.CommitQueue.{token_count}
use mpegenc.Output.Aligner.{CompletedSlot}
use mpegenc.Output.Assembler.{OutputAssembler, reserve, commit}
use mpegenc.Output.Assembler.History.{History, waiting}
use mpegenc.Output.Assembler.Steps.{recorder, Shows, Does, commit-Does, reserve-Does}

-- One for the number itself.
abbrev pub one_at : ℕ → ℕ → ℕ
one_at k t = if t == k then 1 else 0

module _ {AF : Type 0} where
  abbrev pub open_of : Option (Option (List (Packet AF))) → ℕ
  open_of none = 0
  open_of (some none) = 1
  open_of (some (some ps)) = 0

  abbrev pub open_at : ℕ → History AF → ℕ
  open_at t h = open_of (get_elem? h t)

  open_at-append :
      (t : ℕ) (h : History AF) → open_at t (h ++ none ∷ []) ≡ one_at (length h) t + open_at t h
  open_at-append zero [] = refl
  open_at-append (suc t) [] = ground arith
  open_at-append zero (x ∷ h) = ground arith
  open_at-append (suc t) (x ∷ h) = ground (arith, open_at-append t h)

  open_at-set :
      (t k : ℕ) (h : History AF) (ps : List (Packet AF))
      → get_elem? h k ≡ some none
      → one_at k t + open_at t (set h k (some ps)) ≡ open_at t h
  open_at-set t k [] ps e = cc
  open_at-set zero zero (x ∷ h) ps e = ground arith
  open_at-set (suc t) zero (x ∷ h) ps e = ground arith
  open_at-set zero (suc k) (x ∷ h) ps e = ground arith
  open_at-set (suc t) (suc k) (x ∷ h) ps e = ground (arith, open_at-set t k h ps e)

  is_open : (x : Option (Option (List (Packet AF)))) → 0 < open_of x → x ≡ some none
  is_open none l = absurd (omega arith)
  is_open (some none) l = refl
  is_open (some (some ps)) l = absurd (omega arith)

  abbrev pub IsSingle : List (Packet AF) → Type 0
  IsSingle [] = ⊥
  IsSingle (p ∷ []) = Unit
  IsSingle (p ∷ q ∷ ps) = ⊥

  -- The slots are as many as before, what was committed stays, and what was committed since is of one
  -- packet each.
  abbrev pub Adds : History AF → History AF → Type 0
  Adds [] [] = Unit
  Adds [] (e ∷ h) = ⊥
  Adds (b ∷ base) [] = ⊥
  Adds (some ps ∷ base) (e ∷ h) = (e ≡ some ps) × Adds base h
  Adds (none ∷ base) (none ∷ h) = Adds base h
  Adds (none ∷ base) (some ps ∷ h) = IsSingle ps × Adds base h

  pub Adds-refl : (h : History AF) → Adds h h
  Adds-refl [] = tt
  Adds-refl (none ∷ h) = Adds-refl h
  Adds-refl (some ps ∷ h) = (refl, Adds-refl h)

  set-Adds :
      (base h : History AF) (k : ℕ) (ps : List (Packet AF))
      → Adds base h
      → IsSingle ps
      → get_elem? h k ≡ some none
      → Adds base (set h k (some ps))
  set-Adds base [] k ps a o e = cc
  set-Adds [] (x ∷ h) k ps a o e = absurd a
  set-Adds (none ∷ base) (none ∷ h) zero ps a o e = (o, a)
  set-Adds (none ∷ base) (some qs ∷ h) zero ps a o e = cc
  set-Adds (none ∷ base) (none ∷ h) (suc k) ps a o e = set-Adds base h k ps a o e
  set-Adds (none ∷ base) (some qs ∷ h) (suc k) ps (b, a) o e = (b, set-Adds base h k ps a o e)
  set-Adds (some qs ∷ base) (x ∷ h) zero ps (f, a) o e = cc
  set-Adds (some qs ∷ base) (x ∷ h) (suc k) ps (f, a) o e = (f, set-Adds base h k ps a o e)

  -- The slots, and the open ones are those that `out` counts.
  pub record Exact (h : History AF) (out : ℕ → ℕ) (a : OutputAssembler AF (List (Packet AF)))
      : Type 0 where
    pub shows : Shows h a
    pub counted : (t : ℕ) → out t ≡ open_at t h

  -- The same of slots that add to a history.
  pub record Open (base : History AF) (out : ℕ → ℕ) (a : OutputAssembler AF (List (Packet AF)))
      : Type 0 where
    pub history : History AF
    pub adds : Adds base history
    pub exact : Exact history out a

  pub Exact-same :
      (h : History AF) (out out' : ℕ → ℕ) (a : OutputAssembler AF (List (Packet AF)))
      → Exact h out a
      → ((t : ℕ) → out' t ≡ out t)
      → Exact h out' a
  Exact-same h out out' a o e = record { shows = o.shows; counted = λ t. e t ∙ o.counted t }

  pub Open-same :
      (base : History AF) (out out' : ℕ → ℕ) (a : OutputAssembler AF (List (Packet AF)))
      → Open base out a
      → ((t : ℕ) → out' t ≡ out t)
      → Open base out' a
  Open-same base out out' a o e = record {
    history = o.history;
    adds = o.adds;
    exact = Exact-same o.history out out' a o.exact e;
  }

  -- A token that is counted is one of an open slot.
  pub token_open :
      (h : History AF) (out out' : ℕ → ℕ) (k : ℕ) (a : OutputAssembler AF (List (Packet AF)))
      → Exact h out a
      → ((t : ℕ) → out t ≡ one_at k t + out' t)
      → get_elem? h k ≡ some none
  token_open h out out' k a o e = is_open (get_elem? h k) (ground (arith, e k, o.counted k))

  pub commit-Exact :
      (h : History AF) (out out' : ℕ → ℕ) (s : CompletedSlot AF)
      (a : OutputAssembler AF (List (Packet AF)))
      → Exact h out a
      → ((t : ℕ) → out t ≡ one_at s.token t + out' t)
      → Leaves (Exact (set h s.token (some s.packets)) out') (commit recorder s a)
  commit-Exact h out out' s a o e =
      let at = token_open h out out' s.token a o e in
      committed (commit recorder s a) at (commit-Does h s.token s.packets a o.shows at)
    where
      committed :
          (r : Outcome (OutputAssembler AF (List (Packet AF))) (Unit {0}))
          → get_elem? h s.token ≡ some none
          → Does (set h s.token (some s.packets)) r
          → Leaves (Exact (set h s.token (some s.packets)) out') r
      committed (ok x a') at d = on_ok (record {
        shows = d;
        counted = λ t. omega (arith, e t, o.counted t, open_at-set t s.token h s.packets at);
      })
      committed (err x a') at d = absurd d

  pub commit-Open :
      (base : History AF) (out out' : ℕ → ℕ) (s : CompletedSlot AF)
      (a : OutputAssembler AF (List (Packet AF)))
      → IsSingle s.packets
      → Open base out a
      → ((t : ℕ) → out t ≡ one_at s.token t + out' t)
      → Leaves (Open base out') (commit recorder s a)
  commit-Open base out out' s a i o e =
      let at = token_open o.history out out' s.token a o.exact e in
      Leaves-map (commit recorder s a) (commit-Exact o.history out out' s a o.exact e) (λ a' x.
        record {
          history = set o.history s.token (some s.packets);
          adds = set-Adds base o.history s.token s.packets o.adds i at;
          exact = x;
        })

  pub reserve-Exact :
      (h : History AF) (out : ℕ → ℕ) (a : OutputAssembler AF (List (Packet AF)))
      → Exact h out a
      → length h + 1 < token_count
      → ((reserve a).0 ≡ length h)
        × Exact (h ++ none ∷ []) (λ t. one_at (length h) t + out t) (reserve a).1
  reserve-Exact h out a o l =
      let (t, s) = reserve-Does h a o.shows (omega arith) in
      (
        t,
        record {
          shows = s;
          counted = λ t. ap (λ m. one_at (length h) t + m) (o.counted t) ∙ sym (open_at-append t h);
        },
      )

  -- With no slot open all is written.
  pub waiting-nil : (h : History AF) → ((t : ℕ) → open_at t h ≡ 0) → waiting h ≡ []
  waiting-nil [] e = refl
  waiting-nil (none ∷ h) e = absurd (omega (arith, e 0))
  waiting-nil (some ps ∷ h) e = waiting-nil h (λ t. e (suc t))
