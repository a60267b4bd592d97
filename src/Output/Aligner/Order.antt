-- ===== src/Output/Aligner/Order.antt =====
-- The aligner loses, repeats and reorders no packet, and answers every token in order.
use mpegenc.Common.{
  ℕ, zero, suc, ◌≡◌, ◌≢◌, refl, sym, subst, ap, ap₂, ◌∙◌, ◌⊎◌, inl, inr, Option, none, some, List,
  [], ◌∷◌, ◌++◌, append-nil, append_assoc, length, drop, min, arith,
}
use mpegenc.Astits.{Packet}
use mpegenc.Mux.Packetizer.{TsPacketizer, take_packets}
use mpegenc.Output.Aligner.{
  CompletedSlot, OutputAligner, pair_up, split_last, match_tokens, align_pending, align,
  pending_slots, empty_slots, resolve,
}

drop-nil : (n : ℕ) → drop {A = ℕ} n [] ≡ []
drop-nil zero = refl
drop-nil (suc n) = refl

min-suc : (m n : ℕ) → min (suc m) (suc n) ≡ suc (min m n)
min-suc m n = omega arith

cons-ne-nil {ℓ} : {A : Type ℓ} {x : A} {xs : List A} → x ∷ xs ≢ []
cons-ne-nil e = cc

module _ {AF : Type 0} where
  abbrev pub tokens_of : List (CompletedSlot AF) → List ℕ
  tokens_of [] = []
  tokens_of (s ∷ ss) = s.token ∷ tokens_of ss

  abbrev pub packets_of : List (CompletedSlot AF) → List (Packet AF)
  packets_of [] = []
  packets_of (s ∷ ss) = s.packets ++ packets_of ss

  pub tokens_of-append :
      (xs ys : List (CompletedSlot AF)) → tokens_of (xs ++ ys) ≡ tokens_of xs ++ tokens_of ys
  tokens_of-append [] ys = refl
  tokens_of-append (x ∷ xs) ys = ap (◌∷◌ x.token) (tokens_of-append xs ys)

  packets_of-append :
      (xs ys : List (CompletedSlot AF)) → packets_of (xs ++ ys) ≡ packets_of xs ++ packets_of ys
  packets_of-append [] ys = refl
  packets_of-append (x ∷ xs) ys = rw (packets_of-append xs ys) (sym (append_assoc x.packets _ _))

  pub split_last-append :
      (ss : List (CompletedSlot AF))
      → let (front, last) = split_last ss in front ++ pending_slots last ≡ ss
  unfolding split_last
  split_last-append [] = refl
  split_last-append (s ∷ []) = refl
  split_last-append (s ∷ s' ∷ ss) = ap (◌∷◌ s) (split_last-append (s' ∷ ss))

  pub tokens_of-pair_up :
      (ts : List ℕ) (ps : List (Packet AF))
      → tokens_of (pair_up ts ps) ++ drop (min (length ps) (length ts)) ts ≡ ts
  unfolding pair_up
  tokens_of-pair_up [] ps = drop-nil (min (length ps) 0)
  tokens_of-pair_up (t ∷ ts) [] =
      ap (λ n. drop n (t ∷ ts)) (let e : min 0 (suc (length ts)) ≡ 0 = omega arith in e)
  tokens_of-pair_up (t ∷ []) (p ∷ ps) =
      ap (λ n. t ∷ drop n (t ∷ [])) (let e : min (suc (length ps)) 1 ≡ 1 = omega arith in e)
  tokens_of-pair_up (t ∷ u ∷ ts) (p ∷ ps) =
      ap (λ n. t ∷ (tokens_of (pair_up (u ∷ ts) ps) ++ drop n (t ∷ u ∷ ts)))
        (min-suc (length ps) (suc (length ts)))
      ∙ ap (◌∷◌ t) (tokens_of-pair_up (u ∷ ts) ps)

  packets_of-pair_up :
      (ts : List ℕ) (ps : List (Packet AF)) → ts ≢ [] → packets_of (pair_up ts ps) ≡ ps
  unfolding pair_up
  packets_of-pair_up [] ps h = absurd (h refl)
  packets_of-pair_up (t ∷ ts) [] h = refl
  packets_of-pair_up (t ∷ []) (p ∷ ps) h = append-nil (p ∷ ps)
  packets_of-pair_up (t ∷ u ∷ ts) (p ∷ ps) h = ap (◌∷◌ p) (packets_of-pair_up (u ∷ ts) ps (λ e. cc))

  -- All that the aligner still holds: the slot kept back and the packets not taken.
  abbrev pub held_packets : OutputAligner AF → List (Packet AF)
  held_packets a = packets_of (pending_slots a.pending) ++ a.packetizer.packets

  abbrev pub held_tokens : OutputAligner AF → List ℕ
  held_tokens a = tokens_of (pending_slots a.pending) ++ a.tokens

  -- A packet finds a place: there is a slot kept back or a token.
  abbrev pub HasPlace : OutputAligner AF → Type 0
  HasPlace a = (a.pending ≢ none) ⊎ (a.tokens ≢ [])

  -- What went out and what is held, before and after.
  record Keeps (packets : List (Packet AF)) (tokens : List ℕ)
      (r : List (CompletedSlot AF) × OutputAligner AF) : Type 0 where
    same_packets : packets_of r.0 ++ packets_of (pending_slots r.1.pending) ≡ packets
    same_tokens : tokens_of r.0 ++ held_tokens r.1 ≡ tokens

  match_tokens-Keeps :
      (completed : List (CompletedSlot AF)) (packets : List (Packet AF)) (a : OutputAligner AF)
      → a.pending ≡ none
      → a.tokens ≢ []
      → Keeps
          (packets_of completed ++ packets)
          (tokens_of completed ++ a.tokens)
          (match_tokens completed packets a)
  unfolding match_tokens
  match_tokens-Keeps completed [] a e h = record { same_packets = rw e; same_tokens = rw e }
  match_tokens-Keeps completed (p ∷ ps) a e h =
      let pairs = pair_up a.tokens (p ∷ ps) in
      let (front, last) = split_last pairs in
      let rest = drop (min (length (p ∷ ps)) (length a.tokens)) a.tokens in
      let whole = split_last-append pairs in
      record {
        same_packets =
            ap (λ l. l ++ packets_of (pending_slots last)) (packets_of-append completed front)
            ∙ append_assoc (packets_of completed) (packets_of front)
                (packets_of (pending_slots last))
            ∙ ap (◌++◌ (packets_of completed)) (
                sym (packets_of-append front (pending_slots last))
                ∙ ap packets_of whole
                ∙ packets_of-pair_up a.tokens (p ∷ ps) h);
        same_tokens =
            ap (λ l. l ++ (tokens_of (pending_slots last) ++ rest))
              (tokens_of-append completed front)
            ∙ append_assoc (tokens_of completed) (tokens_of front)
                (tokens_of (pending_slots last) ++ rest)
            ∙ ap (◌++◌ (tokens_of completed)) (
                sym (append_assoc (tokens_of front) (tokens_of (pending_slots last)) rest)
                ∙ ap (λ l. l ++ rest)
                    (sym (tokens_of-append front (pending_slots last)) ∙ ap tokens_of whole)
                ∙ tokens_of-pair_up a.tokens (p ∷ ps));
      }

  match_tokens-packetizer :
      (completed : List (CompletedSlot AF)) (packets : List (Packet AF)) (a : OutputAligner AF)
      → (match_tokens completed packets a).1.packetizer ≡ a.packetizer
  unfolding match_tokens
  match_tokens-packetizer completed [] a = refl
  match_tokens-packetizer completed (p ∷ ps) a = refl

  split_last-some :
      (s : CompletedSlot AF) (ss : List (CompletedSlot AF)) → (split_last (s ∷ ss)).1 ≢ none
  unfolding split_last
  split_last-some s [] e = cc
  split_last-some s (s' ∷ ss) e = split_last-some s' ss e

  pair_up-last :
      (ts : List ℕ) (p : Packet AF) (ps : List (Packet AF))
      → ts ≢ []
      → (split_last (pair_up ts (p ∷ ps))).1 ≢ none
  unfolding pair_up
  pair_up-last [] p ps h = absurd (h refl)
  pair_up-last (t ∷ []) p ps h = split_last-some (record { token = t; packets = p ∷ ps }) []
  pair_up-last (t ∷ u ∷ ts) p ps h =
      split_last-some (record { token = t; packets = p ∷ [] }) (pair_up (u ∷ ts) ps)

  match_tokens-HasPlace :
      (completed : List (CompletedSlot AF)) (packets : List (Packet AF)) (a : OutputAligner AF)
      → a.tokens ≢ []
      → HasPlace (match_tokens completed packets a).1
  unfolding match_tokens
  match_tokens-HasPlace completed [] a h = inr h
  match_tokens-HasPlace completed (p ∷ ps) a h = inl (pair_up-last a.tokens p ps h)

  -- What `align` is to do with what the aligner held before, once its packets are taken.
  record Aligns (packets : List (Packet AF)) (tokens : List ℕ) (a : OutputAligner AF)
      (r : List (CompletedSlot AF) × OutputAligner AF) : Type 0 where
    keeps : Keeps packets tokens r
    packetizer : r.1.packetizer ≡ a.packetizer
    place : HasPlace r.1

  match_tokens-Aligns :
      (completed : List (CompletedSlot AF)) (packets : List (Packet AF)) (a : OutputAligner AF)
      → a.pending ≡ none
      → a.tokens ≢ []
      → Aligns
          (packets_of completed ++ packets)
          (tokens_of completed ++ a.tokens)
          a
          (match_tokens completed packets a)
  match_tokens-Aligns completed packets a e h = record {
    keeps = match_tokens-Keeps completed packets a e h;
    packetizer = match_tokens-packetizer completed packets a;
    place = match_tokens-HasPlace completed packets a h;
  }

  align_pending-Aligns :
      (o : Option (CompletedSlot AF)) (ts : List ℕ) (packets : List (Packet AF))
      (a : OutputAligner AF)
      → a.pending ≡ o
      → a.tokens ≡ ts
      → (o ≢ none) ⊎ (ts ≢ [])
      → Aligns
          (packets_of (pending_slots o) ++ packets)
          (tokens_of (pending_slots o) ++ ts)
          a
          (align_pending o ts packets a)
  unfolding align_pending
  align_pending-Aligns none ts packets a e t (inl h) = absurd (h refl)
  align_pending-Aligns none ts packets a e t (inr h) =
      rw (← t) (match_tokens-Aligns [] packets a e (rw t h))
  align_pending-Aligns (some s) [] packets a e t h = record {
    keeps = record {
      same_packets = rw append-nil (ap (λ l. l ++ packets) (sym (append-nil s.packets)));
      same_tokens = ap (◌∷◌ s.token) t;
    };
    packetizer = refl;
    place = inl (λ n. cc);
  }
  align_pending-Aligns (some s) (u ∷ ts) packets a e t h =
      let a1 : OutputAligner AF = record a { pending = none } in
      let r = match_tokens-Aligns (s ∷ []) packets a1 refl (λ n. cons-ne-nil (sym t ∙ n)) in
      record {
        keeps =
            subst
              (λ l.
                Keeps (packets_of (s ∷ []) ++ packets) (s.token ∷ l)
                  (match_tokens (s ∷ []) packets a1))
              t r.keeps;
        packetizer = r.packetizer;
        place = r.place;
      }

  -- Aligning hands out or keeps back exactly the packets that the aligner held, in their order, and
  -- hands out, keeps back or leaves pending exactly its tokens, in their order; all packets are taken
  -- from the packetizer. It needs a slot kept back or a token, and leaves one of them.
  pub align-Keeps :
      (a : OutputAligner AF)
      → HasPlace a
      → let (completed, a') = align a in
        (packets_of completed ++ held_packets a' ≡ held_packets a)
        × (tokens_of completed ++ held_tokens a' ≡ held_tokens a)
        × (a'.packetizer.packets ≡ [])
        × HasPlace a'
  unfolding align take_packets
  align-Keeps a h =
      let (packets, w) = take_packets a.packetizer in
      let r =
        align_pending-Aligns a.pending a.tokens packets (record a { packetizer = w }) refl refl h in
      let taken = ap (λ (w : TsPacketizer AF). w.packets) r.packetizer in
      (rw (taken, append-nil) r.keeps.same_packets, r.keeps.same_tokens, taken, r.place)

  packets_of-empty_slots : (ts : List ℕ) → packets_of (empty_slots {AF = AF} ts) ≡ []
  packets_of-empty_slots [] = refl
  packets_of-empty_slots (t ∷ ts) = packets_of-empty_slots ts

module _ (AF : Type 0) where
  pub tokens_of-empty_slots : (ts : List ℕ) → tokens_of (empty_slots {AF = AF} ts) ≡ ts
  tokens_of-empty_slots [] = refl
  tokens_of-empty_slots (t ∷ ts) = ap (◌∷◌ t) (tokens_of-empty_slots ts)

module _ {AF : Type 0} where
  -- The end of a flush hands out exactly the packets that the aligner held, in their order, and
  -- answers every token that it held once, in their order, so that nothing is left. It needs a slot
  -- kept back or a token.
  pub resolve-Keeps :
      (a : OutputAligner AF)
      → HasPlace a
      → let (completed, a') = resolve a in
        (packets_of completed ≡ held_packets a)
        × (tokens_of completed ≡ held_tokens a)
        × (held_packets a' ≡ [])
        × (held_tokens a' ≡ [])
  unfolding resolve
  resolve-Keeps a h =
      let (completed, a') = align a in
      let (ps, ts, taken, _) = align-Keeps a h in
      let kept = pending_slots a'.pending in
      let empty = empty_slots {AF = AF} a'.tokens in
      (
        packets_of-append (completed ++ kept) empty
            ∙ ap₂ ◌++◌ (packets_of-append completed kept) (packets_of-empty_slots a'.tokens)
            ∙ append-nil (packets_of completed ++ packets_of kept)
            ∙ sym (
                ap (λ l. packets_of completed ++ (packets_of kept ++ l)) taken
                ∙ ap (◌++◌ (packets_of completed)) (append-nil (packets_of kept)))
            ∙ ps,
        tokens_of-append (completed ++ kept) empty
            ∙ ap₂ ◌++◌ (tokens_of-append completed kept) (tokens_of-empty_slots AF a'.tokens)
            ∙ append_assoc (tokens_of completed) (tokens_of kept) a'.tokens
            ∙ ts,
        taken,
        refl,
      )
