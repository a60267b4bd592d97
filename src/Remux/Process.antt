-- ===== src/Remux/Process.antt =====
-- ts/encrypt.go: the whole run. The demuxer is an input, as what its calls and those of `ctx.Err` give.
pub mod Unmapped
pub mod Complete
use mpegenc.Common.{
  ℕ, Bool, true, false, not, Option, none, some, List, Bytes, Method, Outcome, err, and_then, Error,
}
use mpegenc.SampleAes.{Config, validate}
use mpegenc.Astits.{Astits, Packet}
use mpegenc.Astits.Tables.{Tables}
use mpegenc.Remux.Remuxer.{Remuxer, new_remuxer}
use mpegenc.Remux.Remuxer

-- What the rounds of the loop meet: `ctx.Err` is set at the start of a round, `NextPacket` is at the
-- end, or it fails (with what `ctx.Err` gives behind that), or it gives a packet.
pub data Input (AF : Type 0) : Type 0 where
  cancelled : Error → Input AF
  no_more : Input AF
  failed : Error → Option Error → Input AF
  packet : Option (Packet AF) → Input AF → Input AF

module _ {AF Wr : Type 0} (lib : Astits AF) (tables : Tables AF) (aes : Bytes → Bytes → Bytes)
    (write_packet : Packet AF → Method Wr (Unit {0})) (order : List ℕ → List ℕ) where
  -- The loop, and the flush behind it.
  consume_all : Input AF → Method (Remuxer AF Wr) (Unit {0})
  consume_all (cancelled e) r = err e r
  consume_all no_more r = Remuxer.flush lib tables aes write_packet order r
  consume_all (failed e none) r = err e r
  consume_all (failed e (some e')) r = err e' r
  consume_all (packet p rest) r =
      and_then (Remuxer.consume lib tables aes write_packet order p r) (λ _ r'. consume_all rest r')

  -- `Encrypt` gives `true` for `encrypt`, `decrypt` gives `false`.
  pub process : Config → Bool → Wr → Input AF → Outcome (Remuxer AF Wr) (Unit {0})
  unfolding consume_all new_remuxer
  process cfg encrypt writer input =
      let r = new_remuxer (some writer) (not encrypt) cfg in
      elim (validate cfg) [ some e ↦ err e r | none ↦ consume_all input r ]

  pub encrypt : Config → Wr → Input AF → Outcome (Remuxer AF Wr) (Unit {0})
  encrypt cfg = process cfg true

  pub decrypt : Config → Wr → Input AF → Outcome (Remuxer AF Wr) (Unit {0})
  decrypt cfg = process cfg false
