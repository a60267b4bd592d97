-- ===== src/Codecs/Frame.antt =====
-- What the three audio codecs do to a frame at the front of their buffer, in place.
pub mod Kept
pub mod Cbc
pub mod Loop
pub mod Guarded
use mpegenc.Common.{
  ℕ, ◌+◌, ◌-◌, ◌*◌, ◌/◌, Bool, true, ◌++◌, take, drop, ltb, if◌then◌else◌, Method, ok, and_then,
}
use mpegenc.SampleAes.{BlockCryptor}
use mpegenc.Packets.Pes.{PesHandler}
use mpegenc.Codecs.PesQueue.{Transformer, on_next, on_block, write}
use mpegenc.Pmt.{Patch}

-- `(frameSize - lead) / 16 * 16`
abbrev pub protected_size : ℕ → ℕ → ℕ
protected_size lead frame_size = (frame_size - lead) / 16 * 16

module _ {W B : Type 0} (block : BlockCryptor B) where
  unfoldable pub reset_block : Method (Transformer W B) (Unit {0})
  reset_block t = on_block block.reset t

  -- `block.CryptBlocks(frame[offset : offset+size])`, where the frame is the front of the buffer.
  unfoldable pub crypt_range : ℕ → ℕ → Method (Transformer W B) (Unit {0})
  crypt_range offset size t =
      and_then (on_block (block.crypt_blocks (take size (drop offset t.buffer))) t) (λ out t1.
        ok tt
          (record t1 { buffer = take offset t1.buffer ++ out ++ drop (offset + size) t1.buffer }))

  -- `if lead < frameSize { …; if protectedSize > 0 { Reset; CryptBlocks } }`
  unfoldable pub protect : ℕ → ℕ → Method (Transformer W B) (Unit {0})
  unfolding reset_block crypt_range
  protect lead frame_size t =
      let size = protected_size lead frame_size in
      if ltb lead frame_size
      then if ltb 0 size
        then and_then (reset_block t) (λ _ t1. crypt_range lead size t1)
        else ok tt t
      else ok tt t

module _ {W B : Type 0} (handler : PesHandler W) (signal : Patch → Method W (Unit {0})) where
  -- `signal(patch); t.configSent = true`
  unfoldable pub send_config : Patch → Method (Transformer W B) (Unit {0})
  send_config patch t =
      and_then (on_next (signal patch) t) (λ _ t1. ok tt (record t1 { config_sent = true }))

  -- `write(frame); t.buffer = t.buffer[frameSize:]`; the result says to go on.
  unfoldable pub write_frame : ℕ → Method (Transformer W B) Bool
  write_frame frame_size t =
      and_then (write handler (take frame_size t.buffer) t)
        (λ _ t1. ok true (record t1 { buffer = drop frame_size t1.buffer }))
