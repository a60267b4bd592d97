-- ===== src/Codecs/Avc/Annexb/Guarded.antt =====
-- The Annex-B scanner of the AVC transformer reaches what is behind it by the handler alone.
use mpegenc.Common.{
  ℕ, zero, suc, ◌+◌, ◌-◌, refl, false, Option, none, some, [], ◌∷◌, Bytes, length, take, drop,
  index, Method, Outcome, ok, err, and_then, Leaves, on_ok, on_err,
}
use mpegenc.SampleAes.{BlockCryptor}
use mpegenc.Pmt.{Patch}
use mpegenc.Packets.Pes.{PesHandler}
use mpegenc.Packets.Pes.Guards.{Guards, GuardsSignal, IsQuiet}
use mpegenc.Codecs.Avc.State.{Transformer, begin_nal, new_transformer}
use mpegenc.Codecs.Avc.Writer.{write}
use mpegenc.Codecs.Avc.Writer.Guarded.{
  Behind, then-Leaves, avc_rules, write-Leaves, write_zeros-Leaves, finish_pes-Leaves,
}
use mpegenc.Codecs.Avc.Nal.Guarded.{write_nal-Leaves, write_nal_zeros-Leaves, finish_nal-Leaves}
use mpegenc.Codecs.Avc.Pmt.{patch_pmt}
use mpegenc.Codecs.Avc.Annexb.{
  start_code, trimmed, init, pes_header, close_nal, open_held, release_held, decide_held,
  resolve_zeros, write_some, scan_round, scan, pes_payload, pes_end, write_tail, flush,
}

module _ {W B : Type 0} (handler : PesHandler W) (block : BlockCryptor B) (I : W → Type 0)
    (guards : Guards handler I) (quiet : IsQuiet block) where
  abbrev pub Keeps : {A : Type 0} → Outcome (Transformer W B) A → Type 0
  Keeps o = Leaves (Behind I) o

  pub init-Leaves :
      (signal : Patch → Method W (Unit {0})) (w : W) (b : Option B)
      → GuardsSignal signal I
      → I w
      → Leaves I (init handler block signal w b)
  unfolding init
  init-Leaves signal w b g h = signalled (signal patch_pmt w) (g patch_pmt w h)
    where
      signalled :
          (o : Outcome W (Unit {0}))
          → Leaves I o
          → Leaves I (and_then o (λ _ w. ok (new_transformer {B = B} w b) w))
      signalled (ok x w) (on_ok h) = on_ok h
      signalled (err e w) (on_err n) = on_err n

  pub pes_header-Leaves :
      (bs : Bytes) (t : Transformer W B) → I t.next → Keeps (pes_header handler block bs t)
  unfolding pes_header
  pes_header-Leaves bs t h = search (avc_rules, guards.guards_header) depth 9

  close_nal-Leaves : (t : Transformer W B) → I t.next → Keeps (close_nal handler block t)
  unfolding close_nal
  close_nal-Leaves t h = search (avc_rules, finish_nal-Leaves handler block I guards quiet)

  open_held-Leaves :
      (rest : Bytes) (t : Transformer W B) → I t.next → Keeps (open_held handler block rest t)
  unfolding open_held begin_nal
  open_held-Leaves rest t h =
      search
        (
          avc_rules,
          close_nal-Leaves,
          write_zeros-Leaves handler I guards,
          write-Leaves handler I guards,
        )
        depth 9

  release_held-Leaves :
      (payload : Bytes) (t : Transformer W B)
      → I t.next
      → Keeps (release_held handler block payload t)
  unfolding release_held
  release_held-Leaves payload t h =
      search (avc_rules, write_nal_zeros-Leaves handler block I guards quiet)

  decide_held-Leaves :
      (bs : Bytes) (t : Transformer W B) → I t.next → Keeps (decide_held handler block bs t)
  unfolding decide_held
  decide_held-Leaves [] t h = on_ok h
  decide_held-Leaves (b ∷ bs) t h = search (avc_rules, open_held-Leaves, release_held-Leaves)

  resolve_zeros-Leaves :
      (bs : Bytes) (t : Transformer W B) → I t.next → Keeps (resolve_zeros handler block bs t)
  unfolding resolve_zeros
  resolve_zeros-Leaves bs t h = search (avc_rules, decide_held-Leaves)

  write_some-Leaves :
      (bs : Bytes) (t : Transformer W B) → I t.next → Keeps (write_some handler block bs t)
  unfolding write_some
  write_some-Leaves [] t h = on_ok h
  write_some-Leaves (b ∷ bs) t h = write_nal-Leaves handler block I guards quiet (b ∷ bs) t h

  scan_round-Leaves :
      (payload : Bytes) (t : Transformer W B)
      → I t.next
      → Keeps (scan_round handler block payload t)
  unfolding scan_round begin_nal
  scan_round-Leaves payload t h = by_index (index start_code payload)
    where
      by_index :
          (i : Option ℕ)
          → Keeps {A = Bytes} (elim i [
            | none ↦
                let end = trimmed payload in
                and_then
                  (write_some handler block (take end payload) t)
                  (λ _ t1. ok [] (record t1 { zero_run = length payload - end }))
            | some at ↦
                let start = trimmed (take at payload) in
                let end = at + 3 in
                and_then (write_some handler block (take start payload) t) (λ _ t1.
                  and_then (close_nal handler block t1) (λ _ t2.
                    and_then
                      (write handler (take (end - start) (drop start payload)) false t2)
                      (λ _ t3. ok (drop end payload) (begin_nal t3))))
          ])
      by_index none = search (avc_rules, write_some-Leaves)
      by_index (some at) =
          search (avc_rules, write_some-Leaves, close_nal-Leaves, write-Leaves handler I guards)
            depth 9

  scan-Leaves :
      (f : ℕ) (bs : Bytes) (t : Transformer W B) → I t.next → Keeps (scan handler block f bs t)
  unfolding scan
  scan-Leaves f [] t h = on_ok h
  scan-Leaves zero (b ∷ bs) t h = on_err refl
  scan-Leaves (suc f) (b ∷ bs) t h =
      then-Leaves I (scan_round handler block (b ∷ bs) t) (λ rest t'. scan handler block f rest t')
        (scan_round-Leaves (b ∷ bs) t h) (λ rest t' h'. scan-Leaves f rest t' h')

  pub pes_payload-Leaves :
      (bs : Bytes) (t : Transformer W B) → I t.next → Keeps (pes_payload handler block bs t)
  unfolding pes_payload
  pes_payload-Leaves bs t h = search (avc_rules, resolve_zeros-Leaves, scan-Leaves)

  pub pes_end-Leaves : (t : Transformer W B) → I t.next → Keeps (pes_end handler block t)
  unfolding pes_end
  pes_end-Leaves t h = search (avc_rules, finish_pes-Leaves handler I guards)

  write_tail-Leaves : (t : Transformer W B) → I t.next → Keeps (write_tail handler block t)
  unfolding write_tail
  write_tail-Leaves t h = search (avc_rules, write_zeros-Leaves handler I guards)

  pub flush-Leaves : (t : Transformer W B) → I t.next → Keeps (flush handler block t)
  unfolding flush
  flush-Leaves t h =
      search (avc_rules, close_nal-Leaves, write_tail-Leaves, finish_pes-Leaves handler I guards)
        depth 8
