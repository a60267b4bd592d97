-- ===== src/Remux/Remuxer/Passing.antt =====
-- A packet of a PID that the remuxer does not know goes to the output as it is.
use mpegenc.Common.{
  ℕ, ◌+◌, ◌<◌, ◌≡◌, ◌≢◌, refl, sym, subst, Option, none, some, List, [], ◌∷◌, ◌++◌, Bytes, length,
  get_elem?, lookup, Outcome, ok, err, within, ==_false,
}
use mpegenc.Astits.{Astits, Packet}
use mpegenc.Astits.Tables.{Tables, pat_pid}
use mpegenc.Utils.CommitQueue.{token_count}
use mpegenc.Output.Assembler.{OutputAssembler, commit_original}
use mpegenc.Output.Assembler
use mpegenc.Output.Assembler.History.{History, set-last}
use mpegenc.Output.Assembler.Steps.{recorder, Shows, Does, reserve-Does, commit-Does}
use mpegenc.Remux.Remuxer.{Remuxer, streams_or_nil, route, consume}

module _ {AF : Type 0} (lib : Astits AF) (tables : Tables AF) (aes : Bytes → Bytes → Bytes)
    (order : List ℕ → List ℕ) where
  abbrev pub Running : Type 0
  Running = Remuxer AF (List (Packet AF))

  -- The PID is none of the PAT, the PMT and the streams.
  pub record IsUnknown (pid : ℕ) (r : Running) : Type 0 where
    pub no_pat : pid ≢ pat_pid
    pub no_pmt : pid ≢ r.pmt_pid
    pub no_stream : lookup pid (streams_or_nil r) ≡ none

  -- Only the output changes, and it shows the history.
  abbrev pub PassesTo : Running → History AF → Outcome Running (Unit {0}) → Type 0
  PassesTo r h (ok x r') = (r' ≡ record r { output = r'.output }) × Shows h r'.output
  PassesTo r h (err e r') = ⊥

  get_elem?-last :
      (h : History AF) (x : Option (List (Packet AF))) → get_elem? (h ++ x ∷ []) (length h) ≡ some x
  get_elem?-last [] x = refl
  get_elem?-last (z ∷ h) x = get_elem?-last h x

  commit_original-Does :
      (h : History AF) (token : ℕ) (packet : Packet AF) (a : OutputAssembler AF (List (Packet AF)))
      → token ≡ length h
      → Shows (h ++ none ∷ []) a
      → Does (h ++ some (packet ∷ []) ∷ []) (commit_original recorder token packet a)
  unfolding commit_original
  commit_original-Does h token packet a e s =
      subst (λ t. Does (h ++ some (packet ∷ []) ∷ []) (commit_original recorder t packet a)) (sym e)
        (subst (λ k. Does k (commit_original recorder (length h) packet a))
          (set-last h none (some (packet ∷ [])))
          (commit-Does (h ++ none ∷ []) (length h) (packet ∷ []) a s (get_elem?-last h none)))

  put_output-PassesTo :
      (h : History AF) (r : Running) (a : OutputAssembler AF (List (Packet AF)))
      (o : Outcome (OutputAssembler AF (List (Packet AF))) (Unit {0}))
      → Does h o
      → PassesTo r h
          (within (λ (r : Running) o. record r { output = o }) (record r { output = a }) o)
  put_output-PassesTo h r a (ok x a') d = (refl, d)
  put_output-PassesTo h r a (err e a') d = absurd d

  -- The slot that is reserved for a packet of such a PID gets that packet and no other, whatever else
  -- waits for its slot, and the rest of the remuxer stays as it is; no error can occur. So it is
  -- written behind all that came before it. It takes fewer than 2^64 packets and a writer that
  -- accepts every packet.
  pub consume-PassesTo :
      (h : History AF) (packet : Packet AF) (r : Running)
      → Shows h r.output
      → IsUnknown packet.head.pid r
      → length h + 1 < token_count
      → PassesTo r
          (h ++ some (packet ∷ []) ∷ [])
          (consume lib tables aes recorder order (some packet) r)
  unfolding consume route
  consume-PassesTo h packet r s u l =
      let (t, s') = reserve-Does h r.output s l in
      let token = (Assembler.reserve r.output).0 in
      let a = (Assembler.reserve r.output).1 in
      rw
        (
          ==_false packet.head.pid pat_pid u.no_pat,
          ==_false packet.head.pid r.pmt_pid u.no_pmt,
          u.no_stream,
        )
        (put_output-PassesTo (h ++ some (packet ∷ []) ∷ []) r a
          (commit_original recorder token packet a) (commit_original-Does h token packet a t s'))
