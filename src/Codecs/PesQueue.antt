-- ===== src/Codecs/PesQueue.antt =====
-- What ts/codecs/aac, ac3 and eac3 have in common, three copies in the source: the queue of input PES
-- records that the delayed frames are split by. The copies differ in their error texts only.
pub mod Delivery
pub mod Guarded
use mpegenc.Common.{
  ℕ, zero, suc, ◌+◌, ◌-◌, min, Bool, true, false, not, ◌&&◌, List, [], ◌∷◌, ◌++◌, Bytes, length,
  take, drop, ltb, ◌==◌, if◌then◌else◌, Method, ok, err, and_then, within, pes_still_open,
  pes_header_short, payload_outside_pes, no_open_pes, missing_pes, truncated_frame, incomplete_pes,
  out_of_fuel,
}
use mpegenc.Packets.Pes.{PesHandler}

-- `bytes` counts the elementary bytes received for this PES and not yet passed on.
pub record PendingPes : Type 0 where
  pub header : Bytes
  pub bytes : ℕ
  pub ended : Bool
  pub started : Bool

-- The `Transformer` of each of the three, with the states of `next` (which stands for all that the
-- calls of `next` and of `signal` change) and of `block`.
pub record Transformer (W B : Type 0) : Type 0 where
  pub next : W
  pub block : B
  pub input_pes_open : Bool
  pub buffer : Bytes
  pub pes : List PendingPes
  pub config_sent : Bool

-- `NewTransformer`
unfoldable pub new_transformer : {W B : Type 0} → W → B → Transformer W B
new_transformer next block = record {
  next = next;
  block = block;
  input_pes_open = false;
  buffer = [];
  pes = [];
  config_sent = false;
}

-- A change of `t.pes[len(t.pes)-1]`.
unfoldable pub update_last : (PendingPes → PendingPes) → List PendingPes → List PendingPes
update_last f [] = []
update_last f (p ∷ []) = f p ∷ []
update_last f (p ∷ q ∷ ps) = p ∷ update_last f (q ∷ ps)

abbrev pub on_next : {W B A : Type 0} → Method W A → Method (Transformer W B) A
on_next call t = within (λ t w. record t { next = w }) t (call t.next)

abbrev pub on_block : {W B A : Type 0} → Method B A → Method (Transformer W B) A
on_block call t = within (λ t b. record t { block = b }) t (call t.block)

module _ {W B : Type 0} (handler : PesHandler W) where
  -- `if !pes.started { next.PESHeader(pes.header) }`
  unfoldable pub start_pes : PendingPes → Method (Transformer W B) (Unit {0})
  start_pes p t = if p.started then ok tt t else on_next (handler.pes_header p.header) t

  -- The loop of `finishPES` over `t.pes`.
  unfoldable pub finish_loop : List PendingPes → Method (Transformer W B) (Unit {0})
  unfolding start_pes
  finish_loop [] t = ok tt t
  finish_loop (p ∷ ps) t =
      if p.ended && p.bytes == 0
      then and_then (start_pes p t) (λ _ t1.
        and_then (on_next handler.pes_end t1) (λ _ t2. finish_loop ps (record t2 { pes = ps })))
      else ok tt t

  unfoldable pub finish_pes : Method (Transformer W B) (Unit {0})
  finish_pes t = finish_loop t.pes t

  -- One round of the loop of `write`; the result is the data left.
  unfoldable pub write_round : Bytes → List PendingPes → Method (Transformer W B) Bytes
  unfolding start_pes
  write_round out [] t = err missing_pes t
  write_round out (p ∷ ps) t =
      let n = min (length out) p.bytes in
      if p.bytes == 0
      then err missing_pes t
      else and_then (start_pes p t) (λ _ t1.
        and_then
          (on_next (handler.pes_payload (take n out))
            (record t1 { pes = record p { started = true } ∷ ps }))
          (λ _ t2.
            and_then
              (finish_pes
                (record t2 { pes = record p { started = true; bytes = p.bytes - n } ∷ ps }))
              (λ _ t3. ok (drop n out) t3)))

  -- `for len(data) > 0`, on fuel; each round writes a byte.
  unfoldable pub write_loop : ℕ → Bytes → Method (Transformer W B) (Unit {0})
  write_loop f [] t = ok tt t
  write_loop zero (b ∷ out) t = err out_of_fuel t
  write_loop (suc f) (b ∷ out) t =
      and_then (write_round (b ∷ out) t.pes t) (λ rest t'. write_loop f rest t')

  unfoldable pub write : Bytes → Method (Transformer W B) (Unit {0})
  write out t = write_loop (length out) out t

  unfoldable pub pes_header : Bytes → Method (Transformer W B) (Unit {0})
  pes_header header t =
      if t.input_pes_open
      then err pes_still_open t
      else if ltb (length header) 6
      then err pes_header_short t
      else let p : PendingPes = record {
        header = header;
        bytes = 0;
        ended = false;
        started = false;
      } in
        ok tt (record t { pes = t.pes ++ p ∷ []; input_pes_open = true })

  unfoldable pub pes_end : Method (Transformer W B) (Unit {0})
  pes_end t =
      if not t.input_pes_open
      then err no_open_pes t
      else finish_pes (record t {
        pes = update_last (λ p. record p { ended = true }) t.pes;
        input_pes_open = false;
      })

  -- The methods that call `processFrames`, which each codec has of its own.
  module _ (process_frames : Method (Transformer W B) (Unit {0})) where
    unfoldable pub pes_payload : Bytes → Method (Transformer W B) (Unit {0})
    unfolding update_last
    pes_payload payload t =
        if not t.input_pes_open
        then err payload_outside_pes t
        else process_frames (record t {
          buffer = t.buffer ++ payload;
          pes = update_last (λ p. record p { bytes = p.bytes + length payload }) t.pes;
        })

    unfoldable pub flush : Method (Transformer W B) (Unit {0})
    flush t =
        if t.input_pes_open
        then err pes_still_open t
        else and_then (process_frames t) (λ _ t1.
          if not (length t1.buffer == 0)
          then err truncated_frame t1
          else and_then (finish_pes t1)
              (λ _ t2. if not (length t2.pes == 0) then err incomplete_pes t2 else ok tt t2))
