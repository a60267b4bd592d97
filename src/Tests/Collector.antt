-- ===== src/Tests/Collector.antt =====
-- A PES of four elementary bytes, of which the header comes in two payloads.
use mpegenc.Common.{◌≡◌, refl, true, false, pos, negsuc, [], ◌∷◌, arith, ok}
use mpegenc.Packets.Pes.{PesCollector, consume, flush}
use mpegenc.Packets.Pes.Strict.{Downstream, strict}
use mpegenc.Packets.Pes.Stage.{in_header, in_payload, Collects, Closes}
use mpegenc.Packets.Pes.Protocol.{IsTruncation, consume-Collects, flush-Closes}

abbrev header_begun : PesCollector
header_begun = record {
  active = true;
  header = 0 ∷ 0 ∷ 1 ∷ 0xC0 ∷ 0 ∷ 8 ∷ [];
  header_length = 0;
  payload_remaining = negsuc 0;
}

-- The header is `00 00 01 C0 00 08 80 00 01 FF`.
abbrev payload_begun : PesCollector
payload_begun = record {
  active = true;
  header = 0 ∷ 0 ∷ 1 ∷ 0xC0 ∷ 0 ∷ 8 ∷ 0x80 ∷ 0 ∷ 1 ∷ 0xFF ∷ [];
  header_length = 10;
  payload_remaining = pos 2;
}

abbrev closed_handler : Downstream
closed_handler = record { open_pes = false; bytes = [] }

abbrev opened_handler : Downstream
opened_handler = record { open_pes = true; bytes = 21 ∷ 22 ∷ [] }

consume-Collects_example :
    Collects
      (consume strict false (0x80 ∷ 0 ∷ 1 ∷ 0xFF ∷ 21 ∷ 22 ∷ []) (header_begun, closed_handler))
consume-Collects_example =
    consume-Collects false (0x80 ∷ 0 ∷ 1 ∷ 0xFF ∷ 21 ∷ 22 ∷ []) header_begun closed_handler
      (in_header refl (omega arith) refl)

flush-Closes_example : Closes IsTruncation (flush strict (payload_begun, opened_handler))
flush-Closes_example = flush-Closes payload_begun opened_handler (in_payload refl refl refl refl)

consume_finishes_pes :
    consume strict false
      (0x80 ∷ 0 ∷ 1 ∷ 0xFF ∷ 21 ∷ 22 ∷ 23 ∷ 24 ∷ [])
      (header_begun, closed_handler)
    ≡ ok tt (
      record { active = false; header = []; header_length = 0; payload_remaining = negsuc 0 },
      record { open_pes = false; bytes = 21 ∷ 22 ∷ 23 ∷ 24 ∷ [] },
    )
unfolding consume
consume_finishes_pes = refl
