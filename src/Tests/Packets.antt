-- ===== src/Tests/Packets.antt =====
-- The packetizer and the aligner, with numbers of bytes for adaptation fields.
use mpegenc.Common.{ℕ, ◌≡◌, refl, inr, true, false, none, some, List, [], ◌∷◌, ◌++◌, replicate}
use mpegenc.Astits.{Astits, IsLawful, Packet}
use mpegenc.Mux.Packetizer.{new_ts_packetizer, set_continuity_counter}
use mpegenc.Mux.Packetizer.Stream.{Writes}
use mpegenc.Mux.Packetizer.Run.{Call, begins, writes, ends, flushes, carries, preserves, run}
use mpegenc.Mux.Packetizer.Run.{all_given, run-new-Writes}
use mpegenc.Output.Aligner.{OutputAligner, align, resolve}
use mpegenc.Output.Aligner.Order.{
  packets_of, tokens_of, held_packets, held_tokens, HasPlace, align-Keeps, resolve-Keeps,
}

-- A field is the number of bytes that it takes.
abbrev sizes : Astits ℕ
sizes = record {
  size_without_stuffing = λ n. n;
  stuffing_field = some;
  field_with_size = λ f n. some n;
  has_data = λ n. true;
  clone_without_stuffing = λ n. n;
}

sizes-IsLawful : IsLawful sizes (λ n. n)
sizes-IsLawful = record {
  stuffing_size = λ a e. cc;
  stuffing_works = λ n l u. (n, refl);
  field_size = λ f a e. cc;
  field_works = λ f n l u. (n, refl);
}

-- A PES of 209 bytes with a field of 20 bytes on its first packet, and a field by itself.
abbrev calls : List (Call ℕ)
calls =
    carries (some 20)
    ∷ begins (0 ∷ 0 ∷ 1 ∷ 0xE0 ∷ 0 ∷ 0 ∷ 0x80 ∷ 0 ∷ 0 ∷ [])
    ∷ writes (replicate 200 7)
    ∷ ends
    ∷ preserves (some 8)
    ∷ flushes
    ∷ []

run-new-Writes_example :
    Writes sizes
      (λ n. n)
      sizes-IsLawful
      14
      (all_given calls)
      (run sizes calls (set_continuity_counter 14 (new_ts_packetizer 256)))
run-new-Writes_example = run-new-Writes sizes (λ n. n) sizes-IsLawful 14 256 calls

abbrev packet : ℕ → Packet ℕ
packet n = record {
  head = record {
    continuity_counter = n;
    has_adaptation_field = false;
    has_payload = true;
    payload_unit_start = false;
    pid = 256;
  };
  adaptation_field = none;
  payload = replicate 184 n;
}

-- Three packets for two tokens, behind a slot kept back.
abbrev aligner : OutputAligner ℕ
aligner = record {
  packetizer = record {
    pid = 256;
    cc = 4;
    current = record { payload = []; pusi = false; adaptation = none };
    pes_open = false;
    packets = packet 1 ∷ packet 2 ∷ packet 3 ∷ [];
  };
  pending_pes = [];
  cc_initialized = true;
  tokens = 8 ∷ 9 ∷ [];
  pending = some (record { token = 7; packets = packet 0 ∷ [] });
}

align_keeps_last_back : align aligner ≡ (
  record { token = 7; packets = packet 0 ∷ [] }
      ∷ record { token = 8; packets = packet 1 ∷ [] }
      ∷ [],
  record aligner {
    packetizer = record (aligner.packetizer) { packets = [] };
    tokens = [];
    pending = some (record { token = 9; packets = packet 2 ∷ packet 3 ∷ [] });
  },
)
unfolding align
align_keeps_last_back = refl

align-Keeps_example :
    (packets_of (align aligner).0 ++ held_packets (align aligner).1 ≡ held_packets aligner)
    × (tokens_of (align aligner).0 ++ held_tokens (align aligner).1 ≡ held_tokens aligner)
    × ((align aligner).1.packetizer.packets ≡ [])
    × HasPlace (align aligner).1
align-Keeps_example = align-Keeps aligner (inr (λ e. cc))

resolve-Keeps_example :
    (packets_of (resolve aligner).0 ≡ held_packets aligner)
    × (tokens_of (resolve aligner).0 ≡ held_tokens aligner)
    × (held_packets (resolve aligner).1 ≡ [])
    × (held_tokens (resolve aligner).1 ≡ [])
resolve-Keeps_example = resolve-Keeps aligner (inr (λ e. cc))
