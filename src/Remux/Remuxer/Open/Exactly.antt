-- ===== src/Remux/Remuxer/Open/Exactly.antt =====
-- The history of the slots at rest, before and behind a call of a stream or of the PMT transformer.
use mpegenc.Common.{
  ℕ, ◌+◌, ◌≡◌, refl, List, [], ◌∷◌, some, Bytes, arith, copies, Outcome, ok, err, and_then, within,
  set, Leaves, on_ok, on_err, Gives, gives_ok, gives_err,
}
use mpegenc.Astits.{Astits, Packet}
use mpegenc.Astits.Tables.{Tables}
use mpegenc.Output.Aligner.{CompletedSlot}
use mpegenc.Output.Aligner.Order.{tokens_of}
use mpegenc.Output.Assembler.{OutputAssembler, commit}
use mpegenc.Output.Assembler.History.{History}
use mpegenc.Output.Assembler.Steps.{recorder}
use mpegenc.Output.Assembler.Open.{Adds-refl, Exact, token_open, commit-Exact}
use mpegenc.Output.Assembler.Due.{fill, Keeps, set-Meets}
use mpegenc.Remux.PmtTransformer.Held.{tokens_held}
use mpegenc.Remux.Remuxer.{Remuxer, streams_or_nil, commit_all}
use mpegenc.Remux.Remuxer.Open.{held_in, IsDistinct, Since}

abbrev pub Recorded : Type 0 → Type 0
Recorded AF = Remuxer AF (List (Packet AF))

-- The same outcome, with the equation for its result.
pub Gives-known :
    {S A : Type 0} {P : A → S → Type 0} (o : Outcome S A)
    → Gives P o
    → Gives (λ a s. (o ≡ ok a s) × P a s) o
Gives-known (ok a s) (gives_ok p) = gives_ok (refl, p)
Gives-known (err e s) (gives_err n) = gives_err n

pub Leaves-known :
    {S : Type 0} {P : S → Type 0} (o : Outcome S (Unit {0}))
    → Leaves P o
    → Leaves (λ s. (o ≡ ok tt s) × P s) o
Leaves-known (ok a s) (on_ok p) = on_ok (refl, p)
Leaves-known (err e s) (on_err n) = on_err n

module _ {AF : Type 0} (lib : Astits AF) (tables : Tables AF) (aes : Bytes → Bytes → Bytes)
    (order : List ℕ → List ℕ) where
  -- How often a token is in flight or held.
  abbrev pub tokens_out : List ℕ → Recorded AF → ℕ → ℕ
  tokens_out flight r t =
      copies t flight + held_in t (streams_or_nil r) + copies t (tokens_held tables r.pmt.pending)

  -- The output shows the slots of `h`, and those are open whose token is in flight, held by a stream or
  -- by the PMT transformer.
  pub record Exactly (h : History AF) (flight : List ℕ) (r : Recorded AF) : Type 0 where
    pub exact : Exact h (tokens_out flight r) r.output
    pub distinct : IsDistinct (streams_or_nil r)

  pub Exactly-Since :
      (h : History AF) (flight : List ℕ) (r : Recorded AF)
      → Exactly h flight r
      → Since lib tables aes order h flight r
  Exactly-Since h flight r x = record {
    accounted = record { history = h; adds = Adds-refl h; exact = x.exact };
    distinct = x.distinct;
  }

  pub Since-Exactly :
      (base : History AF) (flight : List ℕ) (r : Recorded AF)
      (w : Since lib tables aes order base flight r)
      → Exactly w.accounted.history flight r
  Since-Exactly base flight r w = record { exact = w.accounted.exact; distinct = w.distinct }

  -- Only the output may change.
  abbrev pub SameButOutput : Recorded AF → Recorded AF → Type 0
  SameButOutput r r' = r' ≡ record r { output = r'.output }

  -- The slots that were handed out are committed with the packets that they were handed out with.
  pub commit_all-Exactly :
      (ss : List (CompletedSlot AF)) (h : History AF) (r : Recorded AF)
      → Exactly h (tokens_of ss) r
      → Leaves
          (λ r'. Exactly (fill ss h) [] r' × SameButOutput r r' × Keeps h (fill ss h))
          (commit_all lib tables aes recorder order ss r)
  unfolding commit_all
  commit_all-Exactly [] h r x = on_ok (x, refl, λ ds m. m)
  commit_all-Exactly (s ∷ ss) h r x =
      let at =
        token_open h (tokens_out (s.token ∷ tokens_of ss) r) (tokens_out (tokens_of ss) r) s.token
          r.output x.exact (λ t. omega arith) in
      committed (commit recorder s r.output)
        (commit-Exact h (tokens_out (s.token ∷ tokens_of ss) r) (tokens_out (tokens_of ss) r) s
          r.output x.exact (λ t. omega arith))
        (λ o c.
          kept o (commit_all lib tables aes recorder order ss (record r { output = o }))
            (commit_all-Exactly ss (set h s.token (some s.packets)) (record r { output = o })
              (record { exact = c; distinct = x.distinct }))
            (λ ds m. set-Meets ds h s.token s.packets m at))
    where
      kept :
          (o : OutputAssembler AF (List (Packet AF))) (y : Outcome (Recorded AF) (Unit {0}))
          → Leaves
              (λ r'.
                Exactly (fill ss (set h s.token (some s.packets))) [] r'
                × SameButOutput (record r { output = o }) r'
                × Keeps (set h s.token (some s.packets)) (fill ss (set h s.token (some s.packets))))
              y
          → Keeps h (set h s.token (some s.packets))
          → Leaves
              (λ r'.
                Exactly (fill (s ∷ ss) h) [] r' × SameButOutput r r' × Keeps h (fill (s ∷ ss) h))
              y
      kept o (ok a r') (on_ok (x, e, k)) j = on_ok (x, e, λ ds m. k ds (j ds m))
      kept o (err e r') (on_err n) j = on_err n

      committed :
          {P : OutputAssembler AF (List (Packet AF)) → Type 0} {Q : Recorded AF → Type 0}
          (y : Outcome (OutputAssembler AF (List (Packet AF))) (Unit {0}))
          → Leaves P y
          → ((o : OutputAssembler AF (List (Packet AF)))
              → P o
              → Leaves Q (commit_all lib tables aes recorder order ss (record r { output = o })))
          → Leaves Q (
              and_then
                (within (λ (r : Recorded AF) o. record r { output = o }) r y)
                (λ _ r'. commit_all lib tables aes recorder order ss r'))
      committed (ok y o) (on_ok p) k = k o p
      committed (err y o) (on_err m) k = on_err m
