-- ===== src/Codecs/Aac/Guarded.antt =====
-- ts/codecs/aac: what is behind the transformer is reached by the handler, the signal and the cipher alone.
use mpegenc.Common.{suc, refl, Bytes, Method, Outcome, Leaves, on_err, length}
use mpegenc.SampleAes.{BlockCryptor}
use mpegenc.Pmt.{Patch}
use mpegenc.Packets.Pes.{PesHandler}
use mpegenc.Packets.Pes.Guards.{Guards, GuardsSignal, IsQuiet}
use mpegenc.Codecs.PesQueue.{Transformer}
use mpegenc.Codecs.PesQueue.Guarded.{
  Behind, then-Leaves, on_next-Leaves, on_block-Leaves, behind_rules,
}
use mpegenc.Codecs.PesQueue.Guarded as Queue
use mpegenc.Codecs.Frame.Guarded as Frames
use mpegenc.Codecs.Aac.{
  process_frame, process_round, process_loop, process_frames, pes_header, pes_payload, pes_end,
  flush,
}

module _ {W B : Type 0} (handler : PesHandler W) (block : BlockCryptor B)
    (signal : Patch → Method W (Unit {0})) (I : W → Type 0) (guards : Guards handler I)
    (signals : GuardsSignal signal I) (quiet : IsQuiet block) where
  abbrev Keeps : {A : Type 0} → Outcome (Transformer W B) A → Type 0
  Keeps o = Leaves (Behind I) o

  process_frame-Leaves :
      (t : Transformer W B) → I t.next → Keeps (process_frame handler block signal t)
  unfolding process_frame
  process_frame-Leaves t h = search (
    behind_rules,
    Frames.protect-Leaves handler block signal I guards signals quiet,
    Frames.write_frame-Leaves handler block signal I guards signals quiet,
  )

  process_round-Leaves :
      (t : Transformer W B) → I t.next → Keeps (process_round handler block signal t)
  unfolding process_round
  process_round-Leaves t h =
      search
        (
          behind_rules,
          process_frame-Leaves,
          Frames.send_config-Leaves handler block signal I guards signals quiet,
        )
        depth 12

  process_frames-Leaves :
      (t : Transformer W B) → I t.next → Keeps (process_frames handler block signal t)
  unfolding process_frames process_loop
  process_frames-Leaves t h =
      Frames.loop-Leaves handler block signal I guards signals quiet
        (process_round handler block signal) (process_loop handler block signal) (λ t. on_err refl)
        (λ f t. refl) process_round-Leaves (suc (length t.buffer)) t h

  pub pes_header-Leaves :
      (bs : Bytes) (t : Transformer W B) → I t.next → Keeps (pes_header handler block signal bs t)
  unfolding pes_header
  pes_header-Leaves bs t h = Queue.pes_header-Leaves handler I guards bs t h

  pub pes_payload-Leaves :
      (bs : Bytes) (t : Transformer W B) → I t.next → Keeps (pes_payload handler block signal bs t)
  unfolding pes_payload
  pes_payload-Leaves bs t h =
      Queue.pes_payload-Leaves handler I guards (process_frames handler block signal)
        process_frames-Leaves bs t h

  pub pes_end-Leaves : (t : Transformer W B) → I t.next → Keeps (pes_end handler block signal t)
  unfolding pes_end
  pes_end-Leaves t h = Queue.pes_end-Leaves handler I guards t h

  pub flush-Leaves : (t : Transformer W B) → I t.next → Keeps (flush handler block signal t)
  unfolding flush
  flush-Leaves t h =
      Queue.flush-Leaves handler I guards (process_frames handler block signal)
        process_frames-Leaves t h
