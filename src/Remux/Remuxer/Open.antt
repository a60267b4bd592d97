-- ===== src/Remux/Remuxer/Open.antt =====
-- The slots that are open are those that the remuxer's parts hold a token of: a stream and its packets.
pub mod Exactly
pub mod Steps
pub mod Created
pub mod Handled
pub mod Routed
pub mod Emptied
pub mod Flushed
use mpegenc.Common.{
  ℕ, zero, suc, ◌+◌, ◌<◌, ◌≡◌, refl, sym, ap, subst, ◌∙◌, Bool-cases, inl, inr, Bool, true, false,
  not, ◌&&◌, Option, none, some, List, [], ◌∷◌, ◌++◌, Bytes, arith, copies, copies-append, ◌==◌,
  if◌then◌else◌, Method, Outcome, ok, err, and_then, within, Dict, lookup, insert, lookup-insert,
  is_some, Leaves, on_ok, on_err, Leaves-if, Leaves-and_then, Leaves-after, Leaves-within, Gives,
  Gives-within,
}
use mpegenc.SampleAes.{CbcEncryptor, cbc_cryptor}
use mpegenc.SampleAes.Quiet.{cbc_cryptor-IsQuiet}
use mpegenc.Astits.{Astits, Packet}
use mpegenc.Astits.Tables.{Tables}
use mpegenc.Pmt.{Patch, ElementaryStream}
use mpegenc.Packets.Pes.Guards.{GuardsSignal}
use mpegenc.Output.Aligner.{OutputAligner, CompletedSlot}
use mpegenc.Output.Aligner.Order.{tokens_of, held_tokens}
use mpegenc.Output.Aligner.Guarded.{Holding}
use mpegenc.Output.Assembler.{OutputAssembler, commit}
use mpegenc.Output.Assembler.History.{History}
use mpegenc.Output.Assembler.Steps.{recorder}
use mpegenc.Output.Assembler.Open.{one_at, Open, Open-same, commit-Open}
use mpegenc.Remux.PmtTransformer.{PmtTransformer}
use mpegenc.Remux.PmtTransformer
use mpegenc.Remux.PmtTransformer.Held.{tokens_held}
use mpegenc.Remux.PmtTransformer.Open as PmtOpen
use mpegenc.Remux.Media.{next_of, put_next}
use mpegenc.Remux.Stream.{MediaStream}
use mpegenc.Remux.Stream
use mpegenc.Remux.Stream.Tokens as StreamTokens
use mpegenc.Remux.Stream.Tokens.{next_of-put_next}
use mpegenc.Remux.Remuxer.{
  StoredStream, Remuxer, World, world_sink, wake, rest, put_stream, streams_or_nil, complete,
  on_output, on_pmt, signal_of, run_stream, commit_all,
}

abbrev pub stream_tokens : {AF : Type 0} → StoredStream AF → List ℕ
stream_tokens s = held_tokens (next_of s.transformer)

-- How often the streams hold a token.
abbrev pub held_in : {AF : Type 0} → ℕ → Dict (StoredStream AF) → ℕ
held_in t [] = 0
held_in t ((pid, s) ∷ m) = copies t (stream_tokens s) + held_in t m

held_in-insert :
    {AF : Type 0} (t pid : ℕ) (s s' : StoredStream AF) (m : Dict (StoredStream AF))
    → lookup pid m ≡ some s
    → held_in t (insert pid s' m) + copies t (stream_tokens s)
      ≡ held_in t m + copies t (stream_tokens s')
held_in-insert t pid s s' [] e = cc
held_in-insert t pid s s' ((k, x) ∷ m) e = elim (Bool-cases (pid == k)) [
  | inl b ↦
      let z : x ≡ s = cc (ap (λ c. if c then some x else lookup pid m) (sym b) ∙ e) in
      rw b (omega (arith, ap (λ s. copies t (stream_tokens s)) z))
  | inr b ↦
      let z : lookup pid m ≡ some s = ap (λ c. if c then some x else lookup pid m) (sym b) ∙ e in
      rw b (omega (arith, held_in-insert t pid s s' m z))
]

-- No PID is twice in the map.
abbrev pub IsDistinct : {AF : Type 0} → Dict (StoredStream AF) → Type 0
IsDistinct [] = Unit
IsDistinct ((pid, s) ∷ m) = (lookup pid m ≡ none) × IsDistinct m

pub insert-IsDistinct :
    {AF : Type 0} (pid : ℕ) (s : StoredStream AF) (m : Dict (StoredStream AF))
    → IsDistinct m
    → IsDistinct (insert pid s m)
insert-IsDistinct pid s [] d = (refl, tt)
insert-IsDistinct pid s ((k, x) ∷ m) (e, d) = elim (Bool-cases (pid == k)) [
  | inl b ↦ let z : k ≡ pid = ground (arith, b) in rw b (subst (λ j. lookup j m ≡ none) z e, d)
  | inr b ↦
      let z : (k == pid) ≡ false = ground (arith, b) in
      rw b (lookup-insert k pid s m ∙ rw z e, insert-IsDistinct pid s m d)
]

module _ {AF : Type 0} (lib : Astits AF) (tables : Tables AF) (aes : Bytes → Bytes → Bytes)
    (order : List ℕ → List ℕ) (base : History AF) where
  abbrev pub Recording : Type 0
  Recording = Remuxer AF (List (Packet AF))

  -- The slots add to those of `base`, and those are open whose token is in flight, held by a stream or by
  -- the PMT transformer.
  pub record Since (flight : List ℕ) (r : Recording) : Type 0 where
    pub accounted :
        PmtOpen.Stands tables base
          (λ t. copies t flight + held_in t (streams_or_nil r))
          (r.pmt, r.output)
    pub distinct : IsDistinct (streams_or_nil r)

  -- What is behind a stream, with `out` counting the tokens that are neither there nor in the PMT
  -- transformer.
  abbrev pub Behind : (ℕ → ℕ) → World AF (List (Packet AF)) → Type 0
  Behind out w = PmtOpen.Stands tables base out (w.pmt, w.output)

  pub signals :
      (out : ℕ → ℕ) (pid : ℕ)
      → GuardsSignal (signal_of lib tables aes recorder order pid) (Behind out)
  signals out pid patch w h =
      Leaves-within (λ w q. record w { pmt = q.0; output = q.1 }) w
        (PmtTransformer.signal tables (commit recorder) pid patch (w.pmt, w.output))
        (PmtOpen.signal-Leaves tables base out pid patch w.pmt w.output h) (λ q h'. h')

  pub stream_signals :
      (out : ℕ → ℕ) (pid : ℕ) (ts : List ℕ)
      → GuardsSignal
          (signal_of lib tables aes recorder order pid)
          (λ w. Holding ts w.aligner × Behind out w)
  stream_signals out pid ts patch w (h, k) =
      Leaves-within (λ w q. record w { pmt = q.0; output = q.1 }) w
        (PmtTransformer.signal tables (commit recorder) pid patch (w.pmt, w.output))
        (PmtOpen.signal-Leaves tables base out pid patch w.pmt w.output k) (λ q h'. (h, h'))

  sink_lawful :
      (out : ℕ → ℕ)
      → StreamTokens.IsSink (world_sink {AF = AF} {Wr = List (Packet AF)}) (Behind out)
  sink_lawful out = record { get-put = λ a w. refl; keeps_rest = λ a w h. h }

  module _ (pid : ℕ) (s : StoredStream AF) (r : Recording)
      (e : lookup pid (streams_or_nil r) ≡ some s) where
    abbrev beside : List ℕ → ℕ → ℕ
    beside flight t = copies t flight + held_in t (streams_or_nil r)

    -- A woken stream that holds the tokens.
    abbrev Woken : List ℕ → List ℕ → MediaStream (World AF (List (Packet AF))) CbcEncryptor → Type 0
    Woken flight ts s' =
        Holding ts (next_of s'.transformer).aligner
        × Behind (beside flight) (next_of s'.transformer)

    wake-Woken : (flight : List ℕ) → Since flight r → Woken flight (stream_tokens s) (wake r s)
    wake-Woken flight w =
        let v : World AF (List (Packet AF)) = record {
          aligner = next_of s.transformer;
          pmt = r.pmt;
          output = r.output;
        } in
        subst (λ v. Holding (stream_tokens s) v.aligner × Behind (beside flight) v)
          (sym (next_of-put_next v s.transformer)) (refl, w.accounted)

    -- What it handed out is in flight when it is put back.
    put_stream-Since :
        (flight given us : List ℕ) (s' : MediaStream (World AF (List (Packet AF))) CbcEncryptor)
        → Since flight r
        → given ++ us ≡ stream_tokens s ++ flight
        → Woken flight us s'
        → Since given (put_stream pid (streams_or_nil r) r s')
    put_stream-Since flight given us s' w f (h, k) =
        let a = (next_of s'.transformer).aligner in
        let p = (next_of s'.transformer).pmt in
        let kept : stream_tokens (rest s') ≡ us =
          ap held_tokens (next_of-put_next a s'.transformer) ∙ h in
        record {
          accounted =
              Open-same base (λ t. beside flight t + copies t (tokens_held tables p.pending))
                (λ t.
                  copies t given
                  + held_in t (insert pid (rest s') (streams_or_nil r))
                  + copies t (tokens_held tables p.pending))
                (next_of s'.transformer).output k
                (λ t. omega (
                  arith,
                  held_in-insert t pid s (rest s') (streams_or_nil r) e,
                  ap (copies t) kept,
                  ap (copies t) f,
                  copies-append t given us,
                  copies-append t (stream_tokens s) flight,
                ));
          distinct = insert-IsDistinct pid (rest s') (streams_or_nil r) w.distinct;
        }

    -- A stream is given a token, and hands slots out.
    pub packet-Gives :
        (token : ℕ) (packet : Packet AF)
        → Since (token ∷ []) r
        → Gives
            (λ completed r'. Since (tokens_of completed) r')
            (run_stream lib tables aes recorder order pid
              (streams_or_nil r)
              s
              (Stream.consume lib world_sink cbc_cryptor
                (signal_of lib tables aes recorder order pid)
                token
                (some packet))
              r)
    packet-Gives token packet w =
        let out = beside (token ∷ []) in
        let signal = signal_of lib tables aes recorder order pid in
        Gives-within (put_stream pid (streams_or_nil r)) r
          (Stream.consume lib world_sink cbc_cryptor signal token (some packet) (wake r s))
          (StreamTokens.consume-Hands lib world_sink cbc_cryptor signal (Behind out)
            (sink_lawful out) cbc_cryptor-IsQuiet (stream_signals out pid) (stream_tokens s) token
            packet (wake r s) (wake-Woken (token ∷ []) w))
          (λ completed s' (us, f, h).
            put_stream-Since (token ∷ []) (tokens_of completed) us s' w f h)

    -- At the end it hands out all that it holds.
    pub end-Gives :
        Since [] r
        → Gives
            (λ completed r'.
              Since (tokens_of completed) r'
              × ((s' : StoredStream AF) × (stream_tokens s' ≡ [])
                  × (streams_or_nil r' ≡ insert pid s' (streams_or_nil r))))
            (run_stream lib tables aes recorder order pid
              (streams_or_nil r)
              s
              (Stream.flush lib world_sink cbc_cryptor
                (signal_of lib tables aes recorder order pid))
              r)
    end-Gives w =
        let out = beside [] in
        let signal = signal_of lib tables aes recorder order pid in
        Gives-within (put_stream pid (streams_or_nil r)) r
          (Stream.flush lib world_sink cbc_cryptor signal (wake r s))
          (StreamTokens.flush-HandsAll lib world_sink cbc_cryptor signal (Behind out)
            (sink_lawful out) cbc_cryptor-IsQuiet (stream_signals out pid) (stream_tokens s)
            (wake r s) (wake-Woken [] w))
          (λ completed s' (f, h).
            let a = (next_of s'.transformer).aligner in
            (
              put_stream-Since [] (tokens_of completed) [] s' w (ap (λ ts. ts ++ []) f) h,
              (rest s', ap held_tokens (next_of-put_next a s'.transformer) ∙ h.0, refl),
            ))
