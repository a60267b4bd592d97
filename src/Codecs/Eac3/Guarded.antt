-- ===== src/Codecs/Eac3/Guarded.antt =====
-- ts/codecs/eac3: what is behind the transformer is reached by the handler, the signal and the cipher alone.
use mpegenc.Common.{
  ℕ, suc, refl, Bytes, Method, Outcome, ok, err, Leaves, on_ok, on_err, Leaves-if, and_then, false,
  length, ltb,
}
use mpegenc.SampleAes.{BlockCryptor}
use mpegenc.Pmt.{Patch}
use mpegenc.Packets.Pes.{PesHandler}
use mpegenc.Packets.Pes.Guards.{Guards, GuardsSignal, IsQuiet}
use mpegenc.Codecs.PesQueue.{Transformer}
use mpegenc.Codecs.PesQueue.Guarded.{
  Behind, then-Leaves, on_next-Leaves, on_block-Leaves, behind_rules,
}
use mpegenc.Codecs.PesQueue.Guarded as Queue
use mpegenc.Codecs.Frame.Guarded as Frames
use mpegenc.Codecs.Eac3.{
  SyncframeHeader, finish_header, parse_syncframe_header, crypt_frame, process_frame, ensure_config,
  process_round, process_loop, process_frames, pes_header, pes_payload, pes_end, flush,
}

module _ {W B : Type 0} (handler : PesHandler W) (block : BlockCryptor B)
    (signal : Patch → Method W (Unit {0})) (I : W → Type 0) (guards : Guards handler I)
    (signals : GuardsSignal signal I) (quiet : IsQuiet block) where
  abbrev Keeps : {A : Type 0} → Outcome (Transformer W B) A → Type 0
  Keeps o = Leaves (Behind I) o

  crypt_frame-Leaves :
      (size : ℕ) (t : Transformer W B) → I t.next → Keeps (crypt_frame handler block signal size t)
  unfolding crypt_frame
  crypt_frame-Leaves size t h =
      search (behind_rules, Frames.crypt_range-Leaves handler block signal I guards signals quiet)

  process_frame-Leaves :
      (s : SyncframeHeader) (t : Transformer W B)
      → I t.next
      → Keeps (process_frame handler block signal s t)
  unfolding process_frame
  process_frame-Leaves s t h =
      search
        (
          behind_rules,
          crypt_frame-Leaves,
          Frames.reset_block-Leaves handler block signal I guards signals quiet,
          Frames.write_frame-Leaves handler block signal I guards signals quiet,
        )
        depth 10

  ensure_config-Leaves :
      (s : SyncframeHeader) (t : Transformer W B)
      → I t.next
      → Keeps (ensure_config handler block signal s t)
  unfolding ensure_config
  ensure_config-Leaves s t h =
      search (behind_rules, Frames.send_config-Leaves handler block signal I guards signals quiet)

  -- The header's errors are the format's.
  parsed-Leaves : (buf : Bytes) → Leaves (λ (b : Bytes). Unit {0}) (parse_syncframe_header buf)
  unfolding parse_syncframe_header finish_header
  parsed-Leaves buf = search (Leaves-if, on_ok, on_err, refl) depth 12

  header_round :
      (o : Outcome Bytes SyncframeHeader) (t : Transformer W B)
      → Leaves (λ (b : Bytes). Unit {0}) o
      → I t.next
      → Keeps (elim o [
        | err e _ ↦ err e t
        | ok s _ ↦
            and_then
              (ensure_config handler block signal s t)
              (λ _ t1. process_frame handler block signal s t1)
      ])
  header_round (ok s b) t l h = search (behind_rules, ensure_config-Leaves, process_frame-Leaves)
  header_round (err e b) t (on_err n) h = on_err n

  process_round-Leaves :
      (t : Transformer W B) → I t.next → Keeps (process_round handler block signal t)
  unfolding process_round
  process_round-Leaves t h =
      Leaves-if (ltb (length t.buffer) 7) (ok false t) _ (on_ok h)
        (header_round (parse_syncframe_header t.buffer) t (parsed-Leaves t.buffer) h)

  process_frames-Leaves :
      (t : Transformer W B) → I t.next → Keeps (process_frames handler block signal t)
  unfolding process_frames process_loop
  process_frames-Leaves t h =
      Frames.loop-Leaves handler block signal I guards signals quiet
        (process_round handler block signal) (process_loop handler block signal) (λ t. on_err refl)
        (λ f t. refl) process_round-Leaves (suc (length t.buffer)) t h

  pub pes_header-Leaves :
      (bs : Bytes) (t : Transformer W B) → I t.next → Keeps (pes_header handler block signal bs t)
  unfolding pes_header
  pes_header-Leaves bs t h = Queue.pes_header-Leaves handler I guards bs t h

  pub pes_payload-Leaves :
      (bs : Bytes) (t : Transformer W B) → I t.next → Keeps (pes_payload handler block signal bs t)
  unfolding pes_payload
  pes_payload-Leaves bs t h =
      Queue.pes_payload-Leaves handler I guards (process_frames handler block signal)
        process_frames-Leaves bs t h

  pub pes_end-Leaves : (t : Transformer W B) → I t.next → Keeps (pes_end handler block signal t)
  unfolding pes_end
  pes_end-Leaves t h = Queue.pes_end-Leaves handler I guards t h

  pub flush-Leaves : (t : Transformer W B) → I t.next → Keeps (flush handler block signal t)
  unfolding flush
  flush-Leaves t h =
      Queue.flush-Leaves handler I guards (process_frames handler block signal)
        process_frames-Leaves t h
