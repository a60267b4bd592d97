-- ===== src/Packets/Pes/Guards.antt =====
-- A property of the state behind a `PESHandler` that its methods, a signal and a cipher leave alone.
use mpegenc.Common.{Bytes, Leaves, Method}
use mpegenc.SampleAes.{BlockCryptor}
use mpegenc.Packets.Pes.{PesHandler}
use mpegenc.Pmt.{Patch}

pub record Guards {W : Type 0} (handler : PesHandler W) (I : W → Type 0) : Type 0 where
  pub guards_header : (h : Bytes) (w : W) → I w → Leaves I (handler.pes_header h w)
  pub guards_payload : (bs : Bytes) (w : W) → I w → Leaves I (handler.pes_payload bs w)
  pub guards_end : (w : W) → I w → Leaves I (handler.pes_end w)

abbrev pub GuardsSignal : {W : Type 0} → (Patch → Method W (Unit {0})) → (W → Type 0) → Type 0
GuardsSignal {W} signal I = (p : Patch) (w : W) → I w → Leaves I (signal p w)

abbrev pub Anything : {B : Type 0} → B → Type 0
Anything b = Unit

-- A cipher's errors are its own.
pub record IsQuiet {B : Type 0} (block : BlockCryptor B) : Type 0 where
  pub quiet_reset : (b : B) → Leaves Anything (block.reset b)
  pub quiet_crypt : (bs : Bytes) (b : B) → Leaves Anything (block.crypt_blocks bs b)
