-- ===== src/Output/Assembler.antt =====
-- ts/output.go, `outputAssembler`: one slot for each input packet, written in input order.
pub mod History
pub mod Steps
pub mod Order
pub mod Open
pub mod Due
use mpegenc.Common.{
  ℕ, not, Option, none, some, List, [], ◌∷◌, ◌==◌, if◌then◌else◌, Method, Outcome, ok, err,
  and_then, within, missing_writer, slots_unresolved,
}
use mpegenc.Astits.{Packet}
use mpegenc.Utils.CommitQueue.{CommitQueue}
use mpegenc.Utils.CommitQueue
use mpegenc.Output.Aligner.{CompletedSlot}

-- `writer` is the state of the library's muxer, or nil.
pub record OutputAssembler (AF Wr : Type 0) : Type 0 where
  pub queue : CommitQueue (List (Packet AF))
  pub writer : Option Wr

module _ {AF Wr : Type 0} where
  unfoldable pub new_output_assembler : Option Wr → OutputAssembler AF Wr
  new_output_assembler writer = record { queue = CommitQueue.empty; writer = writer }

  pub reserve : OutputAssembler AF Wr → ℕ × OutputAssembler AF Wr
  reserve a = let (token, q) = CommitQueue.reserve [] a.queue in (token, record a { queue = q })

  pub len : OutputAssembler AF Wr → ℕ
  len a = CommitQueue.len a.queue

module _ {AF Wr : Type 0} (write_packet : Packet AF → Method Wr (Unit {0})) where
  -- The packets of a slot, one after another.
  unfoldable pub write_slot : List (Packet AF) → Method Wr (Unit {0})
  write_slot [] w = ok tt w
  write_slot (p ∷ ps) w = and_then (write_packet p w) (λ _ w'. write_slot ps w')

  -- Puts the queue and the writer back.
  abbrev pub assembled :
      Outcome (CommitQueue (List (Packet AF)) × Wr) (Unit {0})
      → Outcome (OutputAssembler AF Wr) (Unit {0})
  assembled (ok a (q, w)) = ok a (record { queue = q; writer = some w })
  assembled (err e (q, w)) = err e (record { queue = q; writer = some w })

  drain_to : Option Wr → Method (OutputAssembler AF Wr) (Unit {0})
  unfolding write_slot
  drain_to none a = err missing_writer a
  drain_to (some w) a = assembled (CommitQueue.drain [] write_slot (a.queue, w))

  pub drain : Method (OutputAssembler AF Wr) (Unit {0})
  unfolding drain_to
  drain a = drain_to a.writer a

  pub commit : CompletedSlot AF → Method (OutputAssembler AF Wr) (Unit {0})
  commit slot a =
      and_then
        (within (λ a q. record a { queue = q }) a
          (CommitQueue.commit slot.token slot.packets a.queue))
        (λ _ a'. drain a')

  -- `astits.ClonePacket` gives an equal packet.
  unfoldable pub commit_original : ℕ → Packet AF → Method (OutputAssembler AF Wr) (Unit {0})
  commit_original token packet a = commit (record { token = token; packets = packet ∷ [] }) a

  pub flush : Method (OutputAssembler AF Wr) (Unit {0})
  flush a =
      and_then (drain a) (λ _ a'. if not (len a' == 0) then err slots_unresolved a' else ok tt a')
