-- ===== src/Remux/PmtTransformer/Answered.antt =====
-- The PMT transformer over a whole run: every packet that it is given is completed once.
use mathlib.Core.List.{Perm, perm_middle}
use mathlib.Core.List.Perm
use mpegenc.Common.{
  ℕ, ◌≡◌, ◌==◌, ◌+◌, ◌*◌, ◌%◌, refl, inl, inr, sym, ap, subst, ◌∙◌, Bool, true, false, not, Option,
  none, some, List, [], ◌∷◌, ◌++◌, append-nil, append_assoc, length, length_zero, get_or, drop, ltb,
  if◌then◌else◌, Method, Outcome, ok, err, and_then, within, insert, Bool-cases, arith,
  pmt_unresolved, split_pmt, incomplete_pmt, bad_pmt_pointer, several_pmt_sections,
}
use mpegenc.Astits.{Packet}
use mpegenc.Astits.Tables.{Tables, PsiSection}
use mpegenc.Pmt.{Patch, ElementaryStream}
use mpegenc.Packets.Pmt
use mpegenc.Packets.Pmt.{PmtCollector}
use mpegenc.Output.Aligner.{CompletedSlot}
use mpegenc.Remux.PmtTransformer.{
  PendingPmt, PmtTransformer, new_pmt_transformer, all_signalled, all_stuffing, collect_pmt,
  complete_ready, initialize, queue_section, consume, signal, flush, streams_of,
}
use mpegenc.Remux.PmtTransformer.Held.{
  Sent, keep_slot, tokens_held, tokens_sent, tokens_held-append, tokens_sent-append, slots_for,
  Sends, Readies, complete_ready-Sends, tokens-slots_for,
}

if_both {ℓ} :
    {A : Type ℓ} (P : A → Type 0) (b : Bool) (x y : A) → P x → P y → P (if b then x else y)
if_both P true x y p q = p
if_both P false x y p q = q

module _ {AF : Type 0} (lib : Tables AF) where
  abbrev Stand : Type 0
  Stand = PmtTransformer AF × Sent lib

  -- The tokens given to `Consume` so far, without an error, and what the transformer holds and has
  -- sent behind them.
  pub data Reaches (encrypted : Bool) : List ℕ → PmtTransformer AF → Sent lib → Type 0 where
    starts : Reaches encrypted [] (new_pmt_transformer encrypted) []
    consumes :
        {ts : List ℕ} {p p' : PmtTransformer AF} {c c' : Sent lib}
        {r : Option (List ElementaryStream)} (token : ℕ) (packet : Packet AF)
        → Reaches encrypted ts p c
        → consume lib (keep_slot lib) token packet (p, c) ≡ ok r (p', c')
        → Reaches encrypted (token ∷ ts) p' c'
    signals :
        {ts : List ℕ} {p p' : PmtTransformer AF} {c c' : Sent lib} (pid : ℕ) (patch : Patch)
        → Reaches encrypted ts p c
        → signal lib (keep_slot lib) pid patch (p, c) ≡ ok tt (p', c')
        → Reaches encrypted ts p' c'

  -- Each token was sent or is held, and none is held once all streams have signalled.
  record Accounts (ts : List ℕ) (p : PmtTransformer AF) (c : Sent lib) : Type 0 where
    counted : Perm (tokens_sent lib c ++ tokens_held lib p.pending) ts
    settled : all_signalled p.patches ≡ true → p.pending ≡ []

  abbrev Holds : {A : Type 0} → List ℕ → Outcome Stand A → Type 0
  Holds ts (ok a (p, c)) = Accounts ts p c
  Holds ts (err e s) = Unit

  abbrev Same : {A : Type 0} → PmtTransformer AF → Outcome (PmtTransformer AF) A → Type 0
  Same p (ok a p') = (p'.pending ≡ p.pending) × (p'.patches ≡ p.patches)
  Same p (err e p') = Unit

  within-Same :
      {A : Type 0} (p : PmtTransformer AF) (o : Outcome PmtCollector A)
      → Same p (within (λ p c. record p { collector = c }) p o)
  within-Same p (ok a c) = (refl, refl)
  within-Same p (err e c) = tt

  collect_pmt-Same :
      (packet : Packet AF) (p : PmtTransformer AF) → Same p (collect_pmt lib packet p)
  unfolding collect_pmt
  collect_pmt-Same packet p =
      let payload = packet.payload in
      let section_length = get_or payload 2 0 % 16 * 256 + get_or payload 3 0 in
      if_both (Same p) (not packet.head.has_payload) (ok none p) _ (refl, refl)
        (if_both (Same p) (not packet.head.payload_unit_start) (err split_pmt p) _ tt (
          if_both (Same p) (ltb (length payload) 4) (err incomplete_pmt p) _ tt (
            if_both (Same p) (not (get_or payload 0 0 == 0)) (err bad_pmt_pointer p) _ tt (
              if_both (Same p) (ltb (length payload) (4 + section_length)) (err split_pmt p) _ tt (
                if_both (Same p) (not (all_stuffing (drop (4 + section_length) payload)))
                  (err several_pmt_sections p) _ tt
                  (within-Same p
                    (Pmt.consume lib packet.head.payload_unit_start payload p.collector)))))))

  all-Holds :
      (ts : List ℕ) (p : PmtTransformer AF) (c : Sent lib) (r : Sent lib × Bool)
      (o : Outcome Stand (Unit {0}))
      → Perm (tokens_sent lib c ++ tokens_held lib p.pending) ts
      → (r.1 ≡ true → tokens_sent lib r.0 ≡ tokens_held lib p.pending)
      → Sends lib p p.pending c r o
      → Holds ts o
  all-Holds ts p c (ss, true) o h t e =
      let z : tokens_sent lib (c ++ ss) ++ [] ≡ tokens_sent lib c ++ tokens_held lib p.pending =
        append-nil (tokens_sent lib (c ++ ss))
        ∙ tokens_sent-append lib c ss
        ∙ ap (◌++◌ (tokens_sent lib c)) (t refl) in
      subst (Holds ts) (sym e)
        (record { counted = subst (λ xs. Perm xs ts) (sym z) h; settled = λ _. refl })
  all-Holds ts p c (ss, false) o h t (left, e, _) = subst (Holds ts) (sym e) tt

  sent-Holds :
      (ts : List ℕ) (p : PmtTransformer AF) (c : Sent lib) (b : Bool) (o : Outcome Stand (Unit {0}))
      → all_signalled p.patches ≡ b
      → Perm (tokens_sent lib c ++ tokens_held lib p.pending) ts
      → Readies lib b p c o
      → Holds ts o
  sent-Holds ts p c false o a h e =
      subst (Holds ts) (sym e) (record { counted = h; settled = λ t. cc })
  sent-Holds ts p c true o a h e =
      all-Holds ts p c (slots_for lib p.patches p.pending) o h
        (tokens-slots_for lib p.patches p.pending) e

  ready-Holds :
      (ts : List ℕ) (p : PmtTransformer AF) (c : Sent lib)
      → Perm (tokens_sent lib c ++ tokens_held lib p.pending) ts
      → Holds ts (complete_ready lib (keep_slot lib) (p, c))
  ready-Holds ts p c h =
      sent-Holds ts p c (all_signalled p.patches) (complete_ready lib (keep_slot lib) (p, c)) refl h
        (complete_ready-Sends lib p c)

  then-Holds :
      {A : Type 0} (ts : List ℕ) (o : Outcome Stand (Unit {0})) (a : A)
      → Holds ts o
      → Holds ts (and_then o (λ _ s. ok a s))
  then-Holds ts (ok x s) a h = h
  then-Holds ts (err e s) a h = tt

  -- A held packet's token stands behind those that were sent.
  one_more_held :
      (ts : List ℕ) (c : Sent lib) (qs : List (PendingPmt AF)) (q : PendingPmt AF)
      → Perm (tokens_sent lib c ++ tokens_held lib qs) ts
      → Perm (tokens_sent lib c ++ tokens_held lib (qs ++ q ∷ [])) (q.token ∷ ts)
  one_more_held ts c qs q h =
      let z : tokens_sent lib c ++ tokens_held lib (qs ++ q ∷ [])
          ≡ (tokens_sent lib c ++ tokens_held lib qs) ++ q.token ∷ [] =
        ap (◌++◌ (tokens_sent lib c)) (tokens_held-append lib qs (q ∷ []))
        ∙ sym (append_assoc (tokens_sent lib c) (tokens_held lib qs) (q.token ∷ [])) in
      subst (λ xs. Perm xs (q.token ∷ ts)) (sym z)
        (Perm.trans (perm_middle (tokens_sent lib c ++ tokens_held lib qs) []) (
          Perm.cons q.token (
            subst (λ xs. Perm xs ts) (sym (append-nil (tokens_sent lib c ++ tokens_held lib qs)))
              h)))

  one_more_sent :
      (ts : List ℕ) (c : Sent lib) (s : CompletedSlot AF) (held : List ℕ)
      → Perm (tokens_sent lib c ++ held) ts
      → Perm (tokens_sent lib (c ++ s ∷ []) ++ held) (s.token ∷ ts)
  one_more_sent ts c s held h =
      let z : tokens_sent lib (c ++ s ∷ []) ++ held ≡ tokens_sent lib c ++ s.token ∷ held =
        ap (λ xs. xs ++ held) (tokens_sent-append lib c (s ∷ []))
        ∙ append_assoc (tokens_sent lib c) (s.token ∷ []) held in
      subst (λ xs. Perm xs (s.token ∷ ts)) (sym z)
        (Perm.trans (perm_middle (tokens_sent lib c) held) (Perm.cons s.token h))

  pub initialize-pending :
      {C : Type 0} (complete : CompletedSlot AF → Method C (Unit {0}))
      (streams : List ElementaryStream) (p : PmtTransformer AF)
      → (initialize lib complete streams p).pending ≡ p.pending
  unfolding initialize
  initialize-pending complete streams p = elim (Bool-cases p.initialized) [
    | inl a ↦ rw (a, initialize) refl
    | inr a ↦ rw (a, initialize) refl
  ]

  queue_section-Holds :
      (ts : List ℕ) (token : ℕ) (packet : Packet AF) (section : PsiSection) (p : PmtTransformer AF)
      (c : Sent lib)
      → Perm (tokens_sent lib c ++ tokens_held lib p.pending) ts
      → Holds (token ∷ ts) (queue_section lib (keep_slot lib) token packet section (p, c))
  unfolding queue_section
  queue_section-Holds ts token packet section p c h =
      let p1 = initialize lib (keep_slot lib) (streams_of section) p in
      let q : PendingPmt AF = record { token = token; packet = packet; section = section } in
      then-Holds (token ∷ ts)
        (complete_ready lib (keep_slot lib) (record p1 { pending = p1.pending ++ q ∷ [] }, c)) _
        (ready-Holds (token ∷ ts) (record p1 { pending = p1.pending ++ q ∷ [] }) c
          (one_more_held ts c p1.pending q (
            subst (λ qs. Perm (tokens_sent lib c ++ tokens_held lib qs) ts)
              (sym (initialize-pending (keep_slot lib) (streams_of section) p)) h)))

  consume-Holds :
      (ts : List ℕ) (token : ℕ) (packet : Packet AF) (p : PmtTransformer AF) (c : Sent lib)
      → Accounts ts p c
      → Holds (token ∷ ts) (consume lib (keep_slot lib) token packet (p, c))
  unfolding consume
  consume-Holds ts token packet p c a =
      collected (collect_pmt lib packet p) (collect_pmt-Same packet p)
    where
      collected :
          (o : Outcome (PmtTransformer AF) (Option PsiSection))
          → Same p o
          → Holds {A = Option (List ElementaryStream)} (token ∷ ts) (elim o [
            | err e p' ↦ err e (p', c)
            | ok none p' ↦ ok none (p', c ++ record { token = token; packets = packet ∷ [] } ∷ [])
            | ok (some section) p' ↦ queue_section lib (keep_slot lib) token packet section (p', c)
          ])
      collected (err e p') s = tt
      collected (ok none p') (s, t) = record {
        counted =
            one_more_sent ts c (record { token = token; packets = packet ∷ [] })
              (tokens_held lib p'.pending)
              (subst (λ qs. Perm (tokens_sent lib c ++ tokens_held lib qs) ts) (sym s) a.counted);
        settled = λ e. s ∙ a.settled (ap all_signalled (sym t) ∙ e);
      }
      collected (ok (some section) p') (s, t) =
          queue_section-Holds ts token packet section p' c
            (subst (λ qs. Perm (tokens_sent lib c ++ tokens_held lib qs) ts) (sym s) a.counted)

  reached-Accounts :
      (encrypted : Bool) {ts : List ℕ} {p : PmtTransformer AF} {c : Sent lib}
      → Reaches encrypted ts p c
      → Accounts ts p c
  unfolding new_pmt_transformer signal
  reached-Accounts encrypted starts = record { counted = Perm.nil; settled = λ e. refl }
  reached-Accounts encrypted (consumes {ts} {p} {p'} {c} {c'} token packet r e) =
      subst (Holds (token ∷ ts)) e
        (consume-Holds ts token packet p c (reached-Accounts encrypted r))
  reached-Accounts encrypted (signals {ts} {p} {p'} {c} {c'} pid patch r e) = subst (Holds ts) e (
      ready-Holds ts (record p { patches = insert pid (some patch) p.patches }) c
        (reached-Accounts encrypted r).counted)

  -- All was answered, or a stream has not signalled.
  abbrev pub Finishes :
      List ℕ → PmtTransformer AF → Sent lib → Outcome (PmtTransformer AF) (Unit {0}) → Type 0
  Finishes ts p c (ok a p') = (p' ≡ p) × Perm (tokens_sent lib c) ts
  Finishes ts p c (err e p') = (e ≡ pmt_unresolved) × (p' ≡ p) × (all_signalled p.patches ≡ false)

  -- However packets and signals interleave, as long as no call fails: `Flush` succeeds only if every
  -- token that was given to `Consume` has been completed, as often as it was given, and it fails only
  -- if a supported stream has not signalled, with the error for that.
  pub reached-Finishes :
      (encrypted : Bool) (ts : List ℕ) (p : PmtTransformer AF) (c : Sent lib)
      → Reaches encrypted ts p c
      → Finishes ts p c (flush lib p)
  unfolding flush
  reached-Finishes encrypted ts p c r =
      let a = reached-Accounts encrypted r in
      elim (Bool-cases (length p.pending == 0)) [
        | inl z ↦
            let e : p.pending ≡ [] = length_zero p.pending (ground arith) in
            rw (z, flush)
              (
                refl,
                subst (λ xs. Perm xs ts)
                    (ap (λ qs. tokens_sent lib c ++ tokens_held lib qs) e
                      ∙ append-nil (tokens_sent lib c))
                    a.counted,
              )
        | inr z ↦
            rw (z, flush)
              (
                refl,
                refl,
                elim (Bool-cases (all_signalled p.patches)) [
                  | inl t ↦ absurd (ground (arith, ap length (a.settled t)))
                  | inr f ↦ f
                ],
              )
      ]
