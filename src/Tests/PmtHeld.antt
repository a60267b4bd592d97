-- ===== src/Tests/PmtHeld.antt =====
-- A PMT of one AVC stream, held until the stream has signalled.
use mpegenc.Common.{ℕ, refl, true, false, none, some, [], ◌∷◌}
use mpegenc.Astits.{Packet}
use mpegenc.Astits.Tables.{PsiSection, Tables}
use mpegenc.Pmt.{ElementaryStream}
use mpegenc.Remux.PmtTransformer.{
  PmtTransformer, new_pmt_transformer, all_signalled, complete_ready, consume, signal, flush,
}
use mpegenc.Remux.Media.{supported_media_type}
use mpegenc.Remux.PmtTransformer.Held.{Sent, keep_slot, Readies, complete_ready-Sends}
use mpegenc.Remux.PmtTransformer.Answered.{
  Reaches, starts, consumes, signals, Finishes, reached-Finishes,
}

abbrev avc_stream : ElementaryStream
avc_stream = record { elementary_pid = 257; stream_type = 27; descriptors = [] }

abbrev pub avc_section : PsiSection
avc_section = record {
  table_id = 2;
  syntax = some (record {
    head = some (record { current_next = true; version_number = 31 });
    body = some (record {
      pat = none;
      pmt = some (record { program_number = 1; elementary_streams = avc_stream ∷ [] });
    });
  });
  others = 0;
}

-- Every section is read as that PMT, and a packet keeps its payload.
abbrev pub one_table : Tables ℕ
one_table = record { parse_section = λ b. some avc_section; packetize = λ p s. some p }

abbrev pub pmt_packet : Packet ℕ
pmt_packet = record {
  head = record {
    continuity_counter = 0;
    has_adaptation_field = false;
    has_payload = true;
    payload_unit_start = true;
    pid = 256;
  };
  adaptation_field = none;
  payload = 0 ∷ 2 ∷ 0xB0 ∷ 1 ∷ 7 ∷ 0xFF ∷ [];
}

abbrev empty_packet : Packet ℕ
empty_packet = record {
  head = record {
    continuity_counter = 0;
    has_adaptation_field = true;
    has_payload = false;
    payload_unit_start = false;
    pid = 256;
  };
  adaptation_field = some 183;
  payload = [];
}

abbrev holding : PmtTransformer ℕ
holding = record {
  collector = record { program_number = 1; sections = record { buf = [] } };
  input_encrypted = false;
  patches = (257, none) ∷ [];
  pending = record { token = 4; packet = pmt_packet; section = avc_section } ∷ [];
  initialized = true;
}

abbrev released : PmtTransformer ℕ
released = record holding { patches = (257, some (λ s. s)) ∷ []; pending = [] }

abbrev sent_slots : Sent one_table
sent_slots =
    record { token = 5; packets = empty_packet ∷ [] }
    ∷ record { token = 4; packets = pmt_packet ∷ [] }
    ∷ []

abbrev signalled : PmtTransformer ℕ
signalled = record holding { patches = (257, some (λ s. record s { stream_type = 0xDB })) ∷ [] }

complete_ready-Sends_example :
    Readies one_table
      (all_signalled signalled.patches)
      signalled
      []
      (complete_ready one_table (keep_slot one_table) (signalled, []))
complete_ready-Sends_example = complete_ready-Sends one_table signalled []

-- The PMT is held, a packet without payload goes by, and the signal lets the PMT out.
reached : Reaches one_table false (5 ∷ 4 ∷ []) released sent_slots
unfolding consume signal new_pmt_transformer supported_media_type
reached =
    signals 257 (λ s. s)
      (consumes 5 empty_packet (consumes {r = some (avc_stream ∷ [])} 4 pmt_packet starts refl)
        refl)
      refl

reached-Finishes_example :
    Finishes one_table (5 ∷ 4 ∷ []) released sent_slots (flush one_table released)
reached-Finishes_example = reached-Finishes one_table false (5 ∷ 4 ∷ []) released sent_slots reached
