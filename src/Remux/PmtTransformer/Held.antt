-- ===== src/Remux/PmtTransformer/Held.antt =====
-- What the PMT transformer sends when its streams have signalled: all packets it holds, or, where one
-- cannot be packetized, those in front of it.
use mpegenc.Common.{
  ℕ, ◌≡◌, refl, inl, inr, sym, ap, ◌∙◌, Bool, true, false, Option, none, some, List, [], ◌∷◌, ◌++◌,
  append-nil, append_assoc, Method, Outcome, ok, err, external, Dict, Bool-cases, Option-cases,
}
use mpegenc.Astits.{Packet}
use mpegenc.Astits.Tables.{Tables}
use mpegenc.Pmt.{Patch}
use mpegenc.Output.Aligner.{CompletedSlot}
use mpegenc.Remux.PmtTransformer.{
  PendingPmt, PmtTransformer, all_signalled, patch_section, packetize_failed, output_packet,
  complete_loop, complete_ready,
}

module _ {AF : Type 0} (lib : Tables AF) where
  abbrev pub Sent : Type 0
  Sent = List (CompletedSlot AF)

  -- A `complete` that keeps what it is given.
  abbrev pub keep_slot : CompletedSlot AF → Method Sent (Unit {0})
  keep_slot s c = ok tt (c ++ s ∷ [])

  abbrev pub tokens_held : List (PendingPmt AF) → List ℕ
  tokens_held [] = []
  tokens_held (q ∷ qs) = q.token ∷ tokens_held qs

  abbrev pub tokens_sent : Sent → List ℕ
  tokens_sent [] = []
  tokens_sent (s ∷ ss) = s.token ∷ tokens_sent ss

  pub tokens_held-append :
      (qs rs : List (PendingPmt AF)) → tokens_held (qs ++ rs) ≡ tokens_held qs ++ tokens_held rs
  tokens_held-append [] rs = refl
  tokens_held-append (q ∷ qs) rs = ap (◌∷◌ q.token) (tokens_held-append qs rs)

  pub tokens_sent-append : (c d : Sent) → tokens_sent (c ++ d) ≡ tokens_sent c ++ tokens_sent d
  tokens_sent-append [] d = refl
  tokens_sent-append (s ∷ c) d = ap (◌∷◌ s.token) (tokens_sent-append c d)

  abbrev pub and_slot : PendingPmt AF → Option (Packet AF) → Sent × Bool → Sent × Bool
  and_slot q none r = ([], false)
  and_slot q (some packet) (ss, whole) =
      (record { token = q.token; packets = packet ∷ [] } ∷ ss, whole)

  -- The slots of held packets up to the first that cannot be packetized, and whether there is none.
  abbrev pub slots_for : Dict (Option Patch) → List (PendingPmt AF) → Sent × Bool
  slots_for patches [] = ([], true)
  slots_for patches (q ∷ qs) =
      and_slot q (output_packet lib keep_slot patches q) (slots_for patches qs)

  -- All went out and nothing is held, or the slots in front went out and all are held as before.
  abbrev pub Sends :
      PmtTransformer AF
      → List (PendingPmt AF)
      → Sent
      → Sent × Bool
      → Outcome (PmtTransformer AF × Sent) (Unit {0})
      → Type 0
  Sends p qs c (ss, true) o = o ≡ ok tt (record p { pending = [] }, c ++ ss)
  Sends p qs c (ss, false) o =
      (left : List (PendingPmt AF)) × (o
        ≡ err (external packetize_failed) (record p { pending = left }, c ++ ss))
      × (tokens_held left ≡ tokens_held qs)

  Sends-shift :
      (p : PmtTransformer AF) (s : CompletedSlot AF) (qs qs' : List (PendingPmt AF)) (c : Sent)
      (r : Sent × Bool) (o : Outcome (PmtTransformer AF × Sent) (Unit {0}))
      → tokens_held qs' ≡ tokens_held qs
      → Sends p qs' (c ++ s ∷ []) r o
      → Sends p qs c (s ∷ r.0, r.1) o
  Sends-shift p s qs qs' c (ss, true) o e h =
      h ∙ ap (λ x. ok tt (record p { pending = [] }, x)) (append_assoc c (s ∷ []) ss)
  Sends-shift p s qs qs' c (ss, false) o e (left, h, t) = (
    left,
    h
        ∙ ap (λ x. err (external packetize_failed) (record p { pending = left }, x))
            (append_assoc c (s ∷ []) ss),
    t ∙ e,
  )

  loop-Sends :
      (done qs : List (PendingPmt AF)) (p : PmtTransformer AF) (c : Sent)
      → Sends p (done ++ qs) c (slots_for p.patches qs) (complete_loop lib keep_slot done qs (p, c))
  unfolding complete_loop
  loop-Sends done [] p c = ap (λ x. ok tt (record p { pending = [] }, x)) (sym (append-nil c))
  loop-Sends done (q ∷ qs) p c =
      let q' = record q { section = patch_section p.patches q.section } in
      elim (Option-cases (output_packet lib keep_slot p.patches q)) [
        | inl x ↦
            rw (x, complete_loop)
              (
                done ++ q' ∷ qs,
                ap
                    (λ x.
                      err (external packetize_failed) (record p { pending = done ++ q' ∷ qs }, x))
                    (sym (append-nil c)),
                tokens_held-append done (q' ∷ qs) ∙ sym (tokens_held-append done (q ∷ qs)),
              )
        | inr (packet, x) ↦
            rw (x, complete_loop)
              (Sends-shift p (record { token = q.token; packets = packet ∷ [] }) (done ++ q ∷ qs)
                ((done ++ q' ∷ []) ++ qs) c (slots_for p.patches qs)
                (complete_loop lib keep_slot (done ++ q' ∷ []) qs
                  (p, c ++ record { token = q.token; packets = packet ∷ [] } ∷ []))
                (ap tokens_held (append_assoc done (q' ∷ []) qs)
                  ∙ tokens_held-append done (q' ∷ qs)
                  ∙ sym (tokens_held-append done (q ∷ qs)))
                (loop-Sends (done ++ q' ∷ []) qs p
                  (c ++ record { token = q.token; packets = packet ∷ [] } ∷ [])))
      ]

  -- Nothing happens while a stream has not signalled.
  abbrev pub Readies :
      Bool → PmtTransformer AF → Sent → Outcome (PmtTransformer AF × Sent) (Unit {0}) → Type 0
  Readies false p c o = o ≡ ok tt (p, c)
  Readies true p c o = Sends p p.pending c (slots_for p.patches p.pending) o

  -- `completeReady` does nothing while the patch of a supported stream is missing. Else every held PMT
  -- is completed under its own token, in the order of the input, with its entries patched, and none
  -- is held any longer; or one of them cannot be packetized: those in front of it are completed, the
  -- call fails, and the same tokens are held as before.
  pub complete_ready-Sends :
      (p : PmtTransformer AF) (c : Sent)
      → Readies (all_signalled p.patches) p c (complete_ready lib keep_slot (p, c))
  unfolding complete_ready
  complete_ready-Sends p c = elim (Bool-cases (all_signalled p.patches)) [
    | inl a ↦ rw (a, complete_ready) (loop-Sends [] p.pending p c)
    | inr a ↦ rw (a, complete_ready) refl
  ]

  pub tokens-slots_for :
      (patches : Dict (Option Patch)) (qs : List (PendingPmt AF))
      → (slots_for patches qs).1 ≡ true
      → tokens_sent (slots_for patches qs).0 ≡ tokens_held qs
  tokens-slots_for patches [] e = refl
  tokens-slots_for patches (q ∷ qs) e =
      both q (output_packet lib keep_slot patches q) (slots_for patches qs) (tokens_held qs)
        (tokens-slots_for patches qs) e
    where
      both :
          (q : PendingPmt AF) (x : Option (Packet AF)) (r : Sent × Bool) (ts : List ℕ)
          → (r.1 ≡ true → tokens_sent r.0 ≡ ts)
          → (and_slot q x r).1 ≡ true
          → tokens_sent (and_slot q x r).0 ≡ q.token ∷ ts
      both q none r ts f e = cc
      both q (some packet) r ts f e = ap (◌∷◌ q.token) (f e)
