-- ===== src/Output/Assembler/Due.antt =====
-- What is known to stand in slots, and that a commit of an open slot leaves it there; and the slots that
-- a list of commits fills.
use mpegenc.Common.{
  ℕ, zero, suc, ◌≡◌, refl, ap, ◌∙◌, Option, none, some, List, [], ◌∷◌, ◌++◌, length, set, get_elem?,
}
use mpegenc.Astits.{Packet}
use mpegenc.Output.Aligner.{CompletedSlot}
use mpegenc.Output.Assembler.History.{History}
use mpegenc.Output.Assembler.Open.{Adds}

module _ {AF : Type 0} where
  -- Each slot gets the packets that it was committed with.
  abbrev pub fill : List (CompletedSlot AF) → History AF → History AF
  fill [] h = h
  fill (s ∷ ss) h = fill ss (set h s.token (some s.packets))

  -- One entry for each slot: the packet that is due there, or nothing that is known.
  abbrev pub Meets : List (Option (Packet AF)) → History AF → Type 0
  Meets [] [] = Unit
  Meets [] (e ∷ h) = ⊥
  Meets (d ∷ ds) [] = ⊥
  Meets (none ∷ ds) (e ∷ h) = Meets ds h
  Meets (some p ∷ ds) (e ∷ h) = (e ≡ some (p ∷ [])) × Meets ds h

  pub length-Meets :
      (ds : List (Option (Packet AF))) (h : History AF) → Meets ds h → length h ≡ length ds
  length-Meets [] [] m = refl
  length-Meets [] (e ∷ h) m = absurd m
  length-Meets (d ∷ ds) [] m = absurd m
  length-Meets (none ∷ ds) (e ∷ h) m = ap suc (length-Meets ds h m)
  length-Meets (some p ∷ ds) (e ∷ h) (f, m) = ap suc (length-Meets ds h m)

  -- What is due stands in a slot that is not open.
  pub set-Meets :
      (ds : List (Option (Packet AF))) (h : History AF) (k : ℕ) (ps : List (Packet AF))
      → Meets ds h
      → get_elem? h k ≡ some none
      → Meets ds (set h k (some ps))
  set-Meets ds [] k ps m e = cc
  set-Meets [] (x ∷ h) k ps m e = absurd m
  set-Meets (none ∷ ds) (x ∷ h) zero ps m e = m
  set-Meets (none ∷ ds) (x ∷ h) (suc k) ps m e = set-Meets ds h k ps m e
  set-Meets (some p ∷ ds) (x ∷ h) zero ps (f, m) e = cc
  set-Meets (some p ∷ ds) (x ∷ h) (suc k) ps (f, m) e = (f, set-Meets ds h k ps m e)

  pub append-Meets :
      (ds : List (Option (Packet AF))) (h : History AF) (x : Option (List (Packet AF)))
      → Meets ds h
      → Meets (ds ++ none ∷ []) (h ++ x ∷ [])
  append-Meets [] [] x m = tt
  append-Meets [] (e ∷ h) x m = absurd m
  append-Meets (d ∷ ds) [] x m = absurd m
  append-Meets (none ∷ ds) (e ∷ h) x m = append-Meets ds h x m
  append-Meets (some p ∷ ds) (e ∷ h) x (f, m) = (f, append-Meets ds h x m)

  pub append-Meets_packet :
      (ds : List (Option (Packet AF))) (h : History AF) (p : Packet AF)
      → Meets ds h
      → Meets (ds ++ some p ∷ []) (h ++ some (p ∷ []) ∷ [])
  append-Meets_packet [] [] p m = (refl, tt)
  append-Meets_packet [] (e ∷ h) p m = absurd m
  append-Meets_packet (d ∷ ds) [] p m = absurd m
  append-Meets_packet (none ∷ ds) (e ∷ h) p m = append-Meets_packet ds h p m
  append-Meets_packet (some q ∷ ds) (e ∷ h) p (f, m) = (f, append-Meets_packet ds h p m)

  -- What is due in the one history is so in the other.
  abbrev pub Keeps : History AF → History AF → Type 0
  Keeps h h' = (ds : List (Option (Packet AF))) → Meets ds h → Meets ds h'

  pub Adds-Keeps : (h h' : History AF) → Adds h h' → Keeps h h'
  Adds-Keeps [] [] a ds m = m
  Adds-Keeps [] (e ∷ h') a ds m = absurd a
  Adds-Keeps (b ∷ h) [] a ds m = absurd a
  Adds-Keeps (some ps ∷ h) (none ∷ h') (f, a) ds m = cc
  Adds-Keeps (some ps ∷ h) (some qs ∷ h') (f, a) [] m = absurd m
  Adds-Keeps (some ps ∷ h) (some qs ∷ h') (f, a) (none ∷ ds) m = Adds-Keeps h h' a ds m
  Adds-Keeps (some ps ∷ h) (some qs ∷ h') (f, a) (some p ∷ ds) (g, m) =
      (f ∙ g, Adds-Keeps h h' a ds m)
  Adds-Keeps (none ∷ h) (none ∷ h') a [] m = absurd m
  Adds-Keeps (none ∷ h) (none ∷ h') a (none ∷ ds) m = Adds-Keeps h h' a ds m
  Adds-Keeps (none ∷ h) (none ∷ h') a (some p ∷ ds) (g, m) = (g, Adds-Keeps h h' a ds m)
  Adds-Keeps (none ∷ h) (some ps ∷ h') (i, a) [] m = absurd m
  Adds-Keeps (none ∷ h) (some ps ∷ h') (i, a) (none ∷ ds) m = Adds-Keeps h h' a ds m
  Adds-Keeps (none ∷ h) (some ps ∷ h') (i, a) (some p ∷ ds) (g, m) = cc
