-- ===== src/Codecs/Avc/Annexb.antt =====
-- ts/codecs/avc/transformer.go: the `PESHandler` methods and the Annex-B scanner.
pub mod Guarded
use mpegenc.Common.{
  ℕ, zero, suc, ◌+◌, ◌-◌, true, false, not, ◌&&◌, Option, none, some, [], ◌∷◌, ◌++◌, Bytes, length,
  set, take, drop, index, ltb, leb, ◌==◌, if◌then◌else◌, Method, ok, err, and_then, Outcome,
  pes_still_open, pes_header_short, payload_outside_pes, no_open_pes, bytes_before_start_code,
  out_of_fuel,
}
use mpegenc.SampleAes.{BlockCryptor}
use mpegenc.Packets.Pes.{PesHandler}
use mpegenc.Pmt.{Patch}
use mpegenc.Codecs.PesQueue.{PendingPes, update_last}
use mpegenc.Codecs.Avc.State.{Transformer, is_outside, begin_nal, on_next, new_transformer}
use mpegenc.Codecs.Avc.Writer.{finish_pes, write, write_zeros}
use mpegenc.Codecs.Avc.Nal.{write_nal, write_nal_zeros, finish_nal}
use mpegenc.Codecs.Avc.Pmt.{patch_pmt}

abbrev pub start_code : Bytes
start_code = 0 ∷ 0 ∷ 1 ∷ []

-- The zeros in front.
abbrev pub leading_zeros : Bytes → ℕ
leading_zeros [] = 0
leading_zeros (b ∷ bs) = let rest = leading_zeros bs in if b == 0 then suc rest else 0

-- The length without the zeros at the end.
abbrev pub trimmed : Bytes → ℕ
trimmed [] = 0
trimmed (b ∷ bs) = let rest = trimmed bs in if rest == 0 && b == 0 then 0 else suc rest

module _ {W B : Type 0} (handler : PesHandler W) (block : BlockCryptor B) where
  -- `NewTransformer`: the patch is signalled at once, on the state behind `next`.
  unfoldable pub init : (Patch → Method W (Unit {0})) → W → Option B → Outcome W (Transformer W B)
  init signal next b = and_then (signal patch_pmt next) (λ _ w. ok (new_transformer w b) w)

  pub pes_header : Bytes → Method (Transformer W B) (Unit {0})
  pes_header header t =
      let output_header = set (set header 4 0) 5 0 in
      let p : PendingPes = record {
        header = output_header;
        bytes = 0;
        ended = false;
        started = false;
      } in
      if t.input_pes_open
      then err pes_still_open t
      else if ltb (length header) 6
      then err pes_header_short t
      else if length t.pes == 0
      then and_then (on_next (handler.pes_header output_header) t) (λ _ t1.
        ok tt
          (record t1 { pes = t1.pes ++ record p { started = true } ∷ []; input_pes_open = true }))
      else ok tt (record t { pes = t.pes ++ p ∷ []; input_pes_open = true })

  -- `if t.nalState != avcNALStateNone { finishNAL }`
  close_nal : Method (Transformer W B) (Unit {0})
  unfolding finish_nal
  close_nal t = if is_outside t.nal_state then ok tt t else finish_nal handler block t

  -- The zeros held back were the front of a start code, whose 01 has come.
  open_held : Bytes → Method (Transformer W B) Bytes
  unfolding close_nal write_zeros write begin_nal
  open_held rest t = and_then (close_nal t) (λ _ t1.
      and_then (write_zeros handler t1.zero_run false t1) (λ _ t2.
        and_then (write handler (1 ∷ []) false (record t2 { zero_run = 0 }))
          (λ _ t3. ok rest (begin_nal t3))))

  -- The zeros held back were data.
  release_held : Bytes → Method (Transformer W B) Bytes
  unfolding write_nal_zeros
  release_held payload t =
      if is_outside t.nal_state
      then err bytes_before_start_code t
      else and_then (write_nal_zeros handler block t.zero_run t)
          (λ _ t1. ok payload (record t1 { zero_run = 0 }))

  -- Decides on the zeros held back by the first byte that is no zero.
  decide_held : Bytes → Method (Transformer W B) Bytes
  unfolding open_held release_held
  decide_held [] t = ok [] t
  decide_held (b ∷ bs) t =
      if b == 1 && leb 2 t.zero_run then open_held bs t else release_held (b ∷ bs) t

  -- `if t.zeroRun > 0 { … }`; the result is the payload left.
  resolve_zeros : Bytes → Method (Transformer W B) Bytes
  unfolding decide_held
  resolve_zeros payload t =
      let n = leading_zeros payload in
      if ltb 0 t.zero_run
      then decide_held (drop n payload) (record t { zero_run = t.zero_run + n })
      else ok payload t

  -- `if len(data) > 0 { writeNAL(data) }`
  write_some : Bytes → Method (Transformer W B) (Unit {0})
  unfolding write_nal
  write_some [] t = ok tt t
  write_some (b ∷ bs) t = write_nal handler block (b ∷ bs) t

  -- One round of the scan; the result is the payload left.
  scan_round : Bytes → Method (Transformer W B) Bytes
  unfolding write_some close_nal write begin_nal
  scan_round payload t = elim (index start_code payload) [
    | none ↦
        let end = trimmed payload in
        and_then (write_some (take end payload) t)
          (λ _ t1. ok [] (record t1 { zero_run = length payload - end }))
    | some at ↦
        let start = trimmed (take at payload) in
        let end = at + 3 in
        and_then (write_some (take start payload) t) (λ _ t1. and_then (close_nal t1) (λ _ t2.
          and_then (write handler (take (end - start) (drop start payload)) false t2)
            (λ _ t3. ok (drop end payload) (begin_nal t3))))
  ]

  -- Each round takes a byte at least.
  scan : ℕ → Bytes → Method (Transformer W B) (Unit {0})
  unfolding scan_round
  scan f [] t = ok tt t
  scan zero (b ∷ bs) t = err out_of_fuel t
  scan (suc f) (b ∷ bs) t = and_then (scan_round (b ∷ bs) t) (λ rest t'. scan f rest t')

  pub pes_payload : Bytes → Method (Transformer W B) (Unit {0})
  unfolding resolve_zeros scan update_last
  pes_payload payload t =
      if not t.input_pes_open
      then err payload_outside_pes t
      else and_then
          (resolve_zeros payload (record t {
            pes = update_last (λ p. record p { bytes = p.bytes + length payload }) t.pes;
          }))
          (λ rest t1. scan (length rest) rest t1)

  pub pes_end : Method (Transformer W B) (Unit {0})
  unfolding finish_pes update_last
  pes_end t =
      if not t.input_pes_open
      then err no_open_pes t
      else finish_pes handler (record t {
        pes = update_last (λ p. record p { ended = true }) t.pes;
        input_pes_open = false;
      })

  -- The zeros that no byte follows.
  write_tail : Method (Transformer W B) (Unit {0})
  unfolding write_zeros
  write_tail t =
      if ltb 0 t.zero_run
      then and_then (write_zeros handler t.zero_run false t)
          (λ _ t1. ok tt (record t1 { zero_run = 0 }))
      else ok tt t

  pub flush : Method (Transformer W B) (Unit {0})
  unfolding close_nal write_tail finish_pes
  flush t =
      if t.input_pes_open
      then err pes_still_open t
      else and_then (close_nal t) (λ _ t1. and_then (write_tail t1) (λ _ t2. finish_pes handler t2))
