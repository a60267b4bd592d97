-- ===== src/Remux/Media/Guarded.antt =====
-- Each of the four transformers reaches what is behind it by the handler, the signal and the cipher.
use mpegenc.Common.{
  ◌≡◌, refl, sym, subst, Bytes, Method, Outcome, ok, err, map_state, Leaves, on_ok, on_err,
  Leaves-map_state,
}
use mpegenc.SampleAes.{BlockCryptor}
use mpegenc.Pmt.{Patch}
use mpegenc.Packets.Pes.{PesHandler}
use mpegenc.Packets.Pes.Guards.{Guards, GuardsSignal, IsQuiet}
use mpegenc.Codecs.PesQueue
use mpegenc.Codecs.PesQueue.Guarded as Queue
use mpegenc.Codecs.Avc.State
use mpegenc.Codecs.Avc.Writer.Guarded as AvcWriter
use mpegenc.Codecs.Avc.Annexb
use mpegenc.Codecs.Avc.Annexb.Guarded as Avc
use mpegenc.Codecs.Aac
use mpegenc.Codecs.Ac3
use mpegenc.Codecs.Eac3
use mpegenc.Codecs.Aac.Guarded as AacGuarded
use mpegenc.Codecs.Ac3.Guarded as Ac3Guarded
use mpegenc.Codecs.Eac3.Guarded as Eac3Guarded
use mpegenc.Remux.Media.{
  MediaTransformer, avc, aac, ac3, eac3, next_of, pes_header, pes_payload, pes_end, flush,
  media_handler,
}

abbrev pub Behind : {W B : Type 0} → (W → Type 0) → MediaTransformer W B → Type 0
Behind I t = I (next_of t)

module _ {W B : Type 0} (handler : PesHandler W) (block : BlockCryptor B)
    (signal : Patch → Method W (Unit {0})) (I : W → Type 0) (guards : Guards handler I)
    (signals : GuardsSignal signal I) (quiet : IsQuiet block) where
  abbrev Keeps : {A : Type 0} → Outcome (MediaTransformer W B) A → Type 0
  Keeps o = Leaves (Behind I) o

  from_avc :
      {A : Type 0} (o : Outcome (State.Transformer W B) A)
      → Leaves (AvcWriter.Behind I) o
      → Keeps (map_state avc o)
  from_avc o l = Leaves-map_state avc o l (λ t h. h)

  module _ (make : PesQueue.Transformer W B → MediaTransformer W B)
      (made : (t : PesQueue.Transformer W B) → next_of (make t) ≡ t.next) where
    from_queue :
        {A : Type 0} (o : Outcome (PesQueue.Transformer W B) A)
        → Leaves (Queue.Behind I) o
        → Keeps (map_state make o)
    from_queue (ok a t) (on_ok h) = on_ok (subst I (sym (made t)) h)
    from_queue (err e t) (on_err n) = on_err n

  pes_header-Leaves :
      (bs : Bytes) (t : MediaTransformer W B)
      → I (next_of t)
      → Keeps (pes_header handler block signal bs t)
  unfolding pes_header
  pes_header-Leaves bs (avc t) h =
      from_avc (Annexb.pes_header handler block bs t)
        (Avc.pes_header-Leaves handler block I guards quiet bs t h)
  pes_header-Leaves bs (aac t) h =
      from_queue aac (λ t. refl) (Aac.pes_header handler block signal bs t)
        (AacGuarded.pes_header-Leaves handler block signal I guards signals quiet bs t h)
  pes_header-Leaves bs (ac3 t) h =
      from_queue ac3 (λ t. refl) (Ac3.pes_header handler block signal bs t)
        (Ac3Guarded.pes_header-Leaves handler block signal I guards signals quiet bs t h)
  pes_header-Leaves bs (eac3 t) h =
      from_queue eac3 (λ t. refl) (Eac3.pes_header handler block signal bs t)
        (Eac3Guarded.pes_header-Leaves handler block signal I guards signals quiet bs t h)

  pes_payload-Leaves :
      (bs : Bytes) (t : MediaTransformer W B)
      → I (next_of t)
      → Keeps (pes_payload handler block signal bs t)
  unfolding pes_payload
  pes_payload-Leaves bs (avc t) h =
      from_avc (Annexb.pes_payload handler block bs t)
        (Avc.pes_payload-Leaves handler block I guards quiet bs t h)
  pes_payload-Leaves bs (aac t) h =
      from_queue aac (λ t. refl) (Aac.pes_payload handler block signal bs t)
        (AacGuarded.pes_payload-Leaves handler block signal I guards signals quiet bs t h)
  pes_payload-Leaves bs (ac3 t) h =
      from_queue ac3 (λ t. refl) (Ac3.pes_payload handler block signal bs t)
        (Ac3Guarded.pes_payload-Leaves handler block signal I guards signals quiet bs t h)
  pes_payload-Leaves bs (eac3 t) h =
      from_queue eac3 (λ t. refl) (Eac3.pes_payload handler block signal bs t)
        (Eac3Guarded.pes_payload-Leaves handler block signal I guards signals quiet bs t h)

  pes_end-Leaves :
      (t : MediaTransformer W B) → I (next_of t) → Keeps (pes_end handler block signal t)
  unfolding pes_end
  pes_end-Leaves (avc t) h =
      from_avc (Annexb.pes_end handler block t)
        (Avc.pes_end-Leaves handler block I guards quiet t h)
  pes_end-Leaves (aac t) h =
      from_queue aac (λ t. refl) (Aac.pes_end handler block signal t)
        (AacGuarded.pes_end-Leaves handler block signal I guards signals quiet t h)
  pes_end-Leaves (ac3 t) h =
      from_queue ac3 (λ t. refl) (Ac3.pes_end handler block signal t)
        (Ac3Guarded.pes_end-Leaves handler block signal I guards signals quiet t h)
  pes_end-Leaves (eac3 t) h =
      from_queue eac3 (λ t. refl) (Eac3.pes_end handler block signal t)
        (Eac3Guarded.pes_end-Leaves handler block signal I guards signals quiet t h)

  pub flush-Leaves :
      (t : MediaTransformer W B) → I (next_of t) → Keeps (flush handler block signal t)
  unfolding flush
  flush-Leaves (avc t) h =
      from_avc (Annexb.flush handler block t) (Avc.flush-Leaves handler block I guards quiet t h)
  flush-Leaves (aac t) h =
      from_queue aac (λ t. refl) (Aac.flush handler block signal t)
        (AacGuarded.flush-Leaves handler block signal I guards signals quiet t h)
  flush-Leaves (ac3 t) h =
      from_queue ac3 (λ t. refl) (Ac3.flush handler block signal t)
        (Ac3Guarded.flush-Leaves handler block signal I guards signals quiet t h)
  flush-Leaves (eac3 t) h =
      from_queue eac3 (λ t. refl) (Eac3.flush handler block signal t)
        (Eac3Guarded.flush-Leaves handler block signal I guards signals quiet t h)

  pub media_handler-Guards : Guards (media_handler handler block signal) (Behind I)
  unfolding media_handler
  media_handler-Guards = record {
    guards_header = pes_header-Leaves;
    guards_payload = pes_payload-Leaves;
    guards_end = pes_end-Leaves;
  }
