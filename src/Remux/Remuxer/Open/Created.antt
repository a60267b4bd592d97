-- ===== src/Remux/Remuxer/Open/Created.antt =====
-- The streams that the first PMT creates hold no token.
use mpegenc.Common.{
  ℕ, ◌+◌, ◌≡◌, refl, ap, subst, ◌∙◌, Bool-cases, inl, inr, Bool, true, false, Option, none, some,
  List, [], ◌∷◌, Bytes, arith, copies, ◌==◌, if◌then◌else◌, Method, Outcome, ok, err, and_then,
  Dict, lookup, insert, keys, is_some, Leaves, on_ok, on_err, Leaves-and_then, Leaves-map, Gives,
  gives_ok, gives_err,
}
use mpegenc.SampleAes.{CbcEncryptor, cbc_cryptor, Config, new_cbc_encryptor}
use mpegenc.Astits.{Astits, Packet}
use mpegenc.Astits.Tables.{Tables}
use mpegenc.Pmt.{Patch, ElementaryStream, h264_type, adts_type, ac3_type, eac3_type}
use mpegenc.Packets.Pes.{PesHandler}
use mpegenc.Packets.Pes.Guards.{GuardsSignal}
use mpegenc.Codecs.PesQueue
use mpegenc.Codecs.Avc.Pmt.{patch_pmt}
use mpegenc.Codecs.Avc.Annexb
use mpegenc.Codecs.Avc.State as AvcState
use mpegenc.Output.Aligner.{new_output_aligner}
use mpegenc.Output.Aligner.Guarded.{Holding}
use mpegenc.Output.Aligner.Order.{held_tokens}
use mpegenc.Output.Assembler.History.{History}
use mpegenc.Output.Assembler.Steps.{recorder}
use mpegenc.Output.Assembler.Open.{Open-same}
use mpegenc.Remux.PmtTransformer.Open as PmtOpen
use mpegenc.Remux.PmtTransformer.Held.{tokens_held}
use mpegenc.Remux.Media.{MediaTransformer, avc, next_of, put_next, new_transformer}
use mpegenc.Remux.Stream.{new_media_stream, next_handler}
use mpegenc.Remux.Stream.Tokens.{next_of-put_next}
use mpegenc.Remux.Remuxer.{
  StoredStream, World, world_sink, streams_or_nil, signal_of, create_stream, create_streams,
  update_media_streams, stream_types,
}
use mpegenc.Remux.Remuxer.Open.{
  stream_tokens, held_in, insert-IsDistinct, Recording, Since, Behind, stream_signals,
}

held_in-insert_fresh :
    {AF : Type 0} (t pid : ℕ) (s : StoredStream AF) (m : Dict (StoredStream AF))
    → stream_tokens s ≡ []
    → held_in t m ≡ 0
    → held_in t (insert pid s m) ≡ 0
held_in-insert_fresh t pid s [] f e = omega (arith, ap (copies t) f)
held_in-insert_fresh t pid s ((k, x) ∷ m) f e = elim (Bool-cases (pid == k)) [
  | inl b ↦ rw b (omega (arith, ap (copies t) f, e))
  | inr b ↦
      let z : held_in t m ≡ 0 = omega (arith, e) in
      rw b (omega (arith, e, held_in-insert_fresh t pid s m f z))
]

-- A new transformer has behind it what was given, or what the signal made of it.
abbrev Over : {W : Type 0} → (W → Type 0) → MediaTransformer W CbcEncryptor → W → Type 0
Over I t w = I (next_of t) × I w

module _ {W : Type 0} (aes : Bytes → Bytes → Bytes) (handler : PesHandler W)
    (signal : Patch → Method W (Unit {0})) (I : W → Type 0) (signals : GuardsSignal signal I) where
  init-Gives :
      (w : W) (b : CbcEncryptor)
      → I w
      → Gives
          (Over I)
          (and_then (Annexb.init handler cbc_cryptor signal w (some b)) (λ t w'. ok (avc t) w'))
  unfolding Annexb.init AvcState.new_transformer
  init-Gives w b h = signalled (signal patch_pmt w) (signals patch_pmt w h)
    where
      signalled :
          (o : Outcome W (Unit {0}))
          → Leaves I o
          → Gives (Over I) (
              and_then
                (and_then o
                  (λ _ w'. ok (AvcState.new_transformer {B = CbcEncryptor} w' (some b)) w'))
                (λ t w'. ok (avc t) w'))
      signalled (ok x w') (on_ok k) = gives_ok (k, k)
      signalled (err e w') (on_err m) = gives_err m

  new_transformer-Gives :
      (cfg : Config) (stream_type : ℕ) (w : W)
      → I w
      → Gives (Over I) (new_transformer aes handler signal cfg stream_type w)
  unfolding new_transformer PesQueue.new_transformer
  new_transformer-Gives cfg stream_type w h =
      let b = new_cbc_encryptor aes cfg in
      Gives-if (stream_type == h264_type) _ _ (init-Gives w b h) (
        Gives-if (stream_type == adts_type) _ _ (gives_ok (h, h)) (
          Gives-if (stream_type == ac3_type) _ _ (gives_ok (h, h))
            (Gives-if (stream_type == eac3_type) _ _ (gives_ok (h, h)) (gives_err refl))))
    where
      Gives-if :
          (b : Bool) (x y : Outcome W (MediaTransformer W CbcEncryptor))
          → Gives (Over I) x
          → Gives (Over I) y
          → Gives (Over I) (if b then x else y)
      Gives-if true x y g k = g
      Gives-if false x y g k = k

new_aligner-Holding : (AF : Type 0) (pid : ℕ) → Holding [] (new_output_aligner {AF = AF} pid)
unfolding new_output_aligner
new_aligner-Holding AF pid = refl

new_stream-tokens :
    {AF Wr : Type 0} (pid stream_type : ℕ) (t : MediaTransformer (World AF Wr) CbcEncryptor)
    → Holding [] (next_of t).aligner
    → stream_tokens (new_media_stream pid stream_type (put_next (next_of t).aligner t)) ≡ []
unfolding new_media_stream
new_stream-tokens pid stream_type t h = ap held_tokens (next_of-put_next (next_of t).aligner t) ∙ h

module _ {AF : Type 0} (lib : Astits AF) (tables : Tables AF) (aes : Bytes → Bytes → Bytes)
    (order : List ℕ → List ℕ) (base : History AF) where
  -- No stream holds a token.
  abbrev Fresh : Recording lib tables aes order base → Type 0
  Fresh r = Since lib tables aes order base [] r × ((t : ℕ) → held_in t (streams_or_nil r) ≡ 0)

  -- What is behind a new stream.
  abbrev New : Recording lib tables aes order base → World AF (List (Packet AF)) → Type 0
  New r w =
      Holding [] w.aligner
      × Behind lib tables aes order base (λ t. 0 + held_in t (streams_or_nil r)) w

  create_stream-Leaves :
      (pid stream_type : ℕ) (r : Recording lib tables aes order base)
      → Fresh r
      → Leaves Fresh
          (create_stream lib tables aes recorder order pid stream_type (streams_or_nil r) r)
  unfolding create_stream
  create_stream-Leaves pid stream_type r (w, z) =
      let v : World AF (List (Packet AF)) = record {
        aligner = new_output_aligner pid;
        pmt = r.pmt;
        output = r.output;
      } in
      let signal = signal_of lib tables aes recorder order pid in
      let handler = next_handler lib world_sink cbc_cryptor signal in
      created (new_transformer aes handler signal r.cfg stream_type v) (
        new_transformer-Gives aes handler signal (New r)
          (stream_signals lib tables aes order base (λ t. 0 + held_in t (streams_or_nil r)) pid [])
          r.cfg stream_type v (new_aligner-Holding AF pid, w.accounted))
    where
      created :
          (o : Outcome
            (World AF (List (Packet AF)))
            (MediaTransformer (World AF (List (Packet AF))) CbcEncryptor))
          → Gives (Over (New r)) o
          → Leaves {A = Unit {0}} Fresh (elim o [
            | err e w' ↦ err e (record r { pmt = w'.pmt; output = w'.output })
            | ok t w' ↦ ok tt (record (record r { pmt = w'.pmt; output = w'.output }) {
              streams = some (
                  insert pid
                    (new_media_stream pid stream_type (put_next (next_of t).aligner t))
                    (streams_or_nil r));
            })
          ])
      created (err e w') (gives_err m) = on_err m
      created (ok t w') (gives_ok ((h, u), (h', k))) =
          let s = new_media_stream pid stream_type (put_next (next_of t).aligner t) in
          let f : stream_tokens s ≡ [] = new_stream-tokens pid stream_type t h in
          let z' = λ (j : ℕ). held_in-insert_fresh j pid s (streams_or_nil r) f (z j) in
          on_ok (
            record {
              accounted =
                  Open-same base
                    (λ j.
                      0
                      + held_in j (streams_or_nil r)
                      + copies j (tokens_held tables w'.pmt.pending))
                    (λ j.
                      0
                      + held_in j (insert pid s (streams_or_nil r))
                      + copies j (tokens_held tables w'.pmt.pending))
                    w'.output k (λ j. omega (arith, z j, z' j));
              distinct = insert-IsDistinct pid s (streams_or_nil r) w.distinct;
            },
            z',
          )

  create_streams-Leaves :
      (types : Dict ℕ) (pids : List ℕ) (r : Recording lib tables aes order base)
      → Fresh r
      → Leaves Fresh (create_streams lib tables aes recorder order types pids r)
  unfolding create_streams
  create_streams-Leaves types [] r f = on_ok f
  create_streams-Leaves types (pid ∷ pids) r f =
      by_type (lookup pid types) (λ r' f'. create_streams-Leaves types pids r' f')
    where
      by_type :
          (x : Option ℕ)
          → ((r' : Recording lib tables aes order base)
              → Fresh r'
              → Leaves Fresh (create_streams lib tables aes recorder order types pids r'))
          → Leaves Fresh (elim x [
            | none ↦ create_streams lib tables aes recorder order types pids r
            | some stream_type ↦
                and_then
                  (create_stream lib tables aes recorder order pid stream_type (streams_or_nil r) r)
                  (λ _ r'. create_streams lib tables aes recorder order types pids r')
          ])
      by_type none k = k r f
      by_type (some stream_type) k =
          Leaves-and_then
            (create_stream lib tables aes recorder order pid stream_type (streams_or_nil r) r)
            (λ _ r'. create_streams lib tables aes recorder order types pids r')
            (create_stream-Leaves pid stream_type r f) (λ _ r' f'. k r' f')

  pub update_media_streams-Leaves :
      (streams : List ElementaryStream) (r : Recording lib tables aes order base)
      → Since lib tables aes order base [] r
      → Leaves
          (Since lib tables aes order base [])
          (update_media_streams lib tables aes recorder order streams r)
  unfolding update_media_streams
  update_media_streams-Leaves streams r w = by_streams r.streams refl
    where
      by_streams :
          (x : Option (Dict (StoredStream AF)))
          → r.streams ≡ x
          → Leaves {A = Unit {0}} (Since lib tables aes order base []) (
              if is_some x
              then ok tt r
              else create_streams lib tables aes recorder order
                  (stream_types r.input_encrypted streams [])
                  (order (keys (stream_types r.input_encrypted streams [])))
                  (record r { streams = some [] }))
      by_streams (some m) e = on_ok w
      by_streams none e =
          let r' = record r { streams = some [] } in
          let c =
            create_streams lib tables aes recorder order (stream_types r.input_encrypted streams [])
              (order (keys (stream_types r.input_encrypted streams []))) r' in
          let u : streams_or_nil r ≡ [] =
            ap (λ (x : Option (Dict (StoredStream AF))). elim x [ none ↦ [] | some m ↦ m ]) e in
          Leaves-map c
            (create_streams-Leaves (stream_types r.input_encrypted streams [])
              (order (keys (stream_types r.input_encrypted streams []))) r'
              (
                record {
                  accounted =
                      subst
                        (λ m. PmtOpen.Stands tables base (λ t. 0 + held_in t m) (r.pmt, r.output)) u
                        w.accounted;
                  distinct = tt;
                },
                λ t. refl,
              ))
            (λ r'' f. f.0)
