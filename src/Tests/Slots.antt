-- ===== src/Tests/Slots.antt =====
-- The slots of a run with a PAT, a PMT and a packet of its stream, and of states in between.
use mpegenc.Common.{
  ℕ, zero, suc, ◌+◌, ◌≡◌, refl, true, false, none, some, List, [], ◌∷◌, ◌==◌, if◌then◌else◌, arith,
  copies, get_or, replicate, Leaves,
}
use mpegenc.Astits.{Packet}
use mpegenc.Astits.Tables.{Tables, PsiSection}
use mpegenc.Output.Assembler.{OutputAssembler, commit}
use mpegenc.Output.Assembler.Steps.{recorder, Shows}
use mpegenc.Output.Assembler.Open.{open_at, one_at, Open}
use mpegenc.Remux.PmtTransformer.{PmtTransformer}
use mpegenc.Remux.PmtTransformer
use mpegenc.Remux.PmtTransformer.Open.{Stands, consume-Stands}
use mpegenc.SampleAes.{new_cbc_encryptor}
use mpegenc.Output.Aligner.{OutputAligner, new_output_aligner}
use mpegenc.Codecs.PesQueue
use mpegenc.Remux.Media.{aac}
use mpegenc.Remux.Stream.{new_media_stream}
use mpegenc.Remux.Remuxer.Open.{held_in}
use mpegenc.Remux.Remuxer.Open.Exactly.{Exactly}
use mpegenc.Remux.Remuxer.{streams_or_nil, Remuxer, new_remuxer, consume, flush}
use mpegenc.Remux.Remuxer.Open.Routed.{Whole, consume-Whole}
use mpegenc.Remux.Remuxer.Open.Flushed.{IsComplete, flush-IsComplete}
use mpegenc.Remux.Process.{Input, no_more, packet, process}
use mpegenc.Remux.Process.Complete.{IsRun, process-IsRun}
use mpegenc.Tests.Runs.{sizes, zero_aes, key_and_iv, data_packet}
use mpegenc.Tests.PmtHeld.{avc_section, pmt_packet}

abbrev pat_section : PsiSection
pat_section = record {
  table_id = 0;
  syntax = some (record {
    head = some (record { current_next = true; version_number = 1 });
    body = some (record {
      pat = some (record { program_number = 1; program_map_id = 256 } ∷ []);
      pmt = none;
    });
  });
  others = 0;
}

-- A section's first byte tells which of the two it is.
abbrev both_tables : Tables ℕ
both_tables = record {
  parse_section = λ b. if get_or b 0 0 == 0 then some pat_section else some avc_section;
  packetize = λ p s. some p;
}

abbrev pat_packet : Packet ℕ
pat_packet = record {
  head = record {
    continuity_counter = 0;
    has_adaptation_field = false;
    has_payload = true;
    payload_unit_start = true;
    pid = 0;
  };
  adaptation_field = none;
  payload = 0 ∷ 0 ∷ 0xB0 ∷ 1 ∷ 7 ∷ 0xFF ∷ [];
}

-- A PES packet that holds the end of a NAL.
abbrev pub avc_packet : Packet ℕ
avc_packet = record {
  head = record {
    continuity_counter = 0;
    has_adaptation_field = false;
    has_payload = true;
    payload_unit_start = true;
    pid = 257;
  };
  adaptation_field = none;
  payload = 0 ∷ 0 ∷ 1 ∷ 0xE0 ∷ 0 ∷ 0 ∷ 0x80 ∷ 0 ∷ 0 ∷ 0 ∷ 0 ∷ 1 ∷ 9 ∷ 0xF0 ∷ replicate 170 1;
}

abbrev avc_input : Input ℕ
avc_input = packet (some pat_packet) (packet (some pmt_packet) (packet (some avc_packet) no_more))

process-IsRun_example :
    Leaves
      (IsRun sizes both_tables zero_aes
        (λ ks. ks)
        []
        avc_input
        []
        (new_remuxer (some []) false key_and_iv))
      (process sizes both_tables zero_aes recorder (λ ks. ks) key_and_iv true [] avc_input)
process-IsRun_example =
    process-IsRun sizes both_tables zero_aes (λ ks. ks) (λ k ks. refl) key_and_iv true avc_input tt
      (omega arith)

-- One slot is open, for a PMT that is held.
abbrev one_open : OutputAssembler ℕ (List (Packet ℕ))
one_open = record {
  queue = record {
    slots = record { value = []; ready = false } ∷ [];
    head = 0;
    first = 0;
    next = 1;
  };
  writer = some [];
}

abbrev one_held : PmtTransformer ℕ
one_held = record {
  collector = record { program_number = 1; sections = record { buf = [] } };
  input_encrypted = false;
  patches = (257, none) ∷ [];
  pending = record { token = 0; packet = pmt_packet; section = avc_section } ∷ [];
  initialized = true;
}

abbrev waiting_pmt : Remuxer ℕ (List (Packet ℕ))
waiting_pmt = record (new_remuxer (some []) false key_and_iv) {
  output = one_open;
  pmt = one_held;
  pmt_pid = 256;
  streams = some [];
}

one_open-Shows : Shows (none ∷ []) one_open
one_open-Shows = record {
  valid = record { head_in = omega arith; counted = refl; no_wrap = omega arith };
  shown = refl;
  written = refl;
}

one_open-counted : (t : ℕ) → 0 + 0 + copies t (0 ∷ []) ≡ open_at {AF = ℕ} t (none ∷ [])
one_open-counted zero = refl
one_open-counted (suc t) = ground arith

waiting_pmt-Whole : Whole sizes both_tables zero_aes (λ ks. ks) (none ∷ []) [] waiting_pmt
waiting_pmt-Whole = record {
  slots = none ∷ [];
  meets = tt;
  exactly = record {
    exact = record { shows = one_open-Shows; counted = one_open-counted };
    distinct = tt;
  };
}

consume-Whole_example :
    Leaves
      (Whole sizes both_tables zero_aes (λ ks. ks) (none ∷ none ∷ []) [])
      (consume sizes both_tables zero_aes recorder (λ ks. ks) (some (data_packet 1)) waiting_pmt)
consume-Whole_example =
    consume-Whole sizes both_tables zero_aes (λ ks. ks) (none ∷ []) (some (data_packet 1))
      waiting_pmt waiting_pmt-Whole (omega arith)

-- The open slot is the one of a packet that a stream holds the token of.
abbrev media_aligner : OutputAligner ℕ
media_aligner = record (new_output_aligner 257) { tokens = 0 ∷ [] }

abbrev waiting_media : Remuxer ℕ (List (Packet ℕ))
waiting_media = record waiting_pmt {
  pmt = record one_held { pending = [] };
  streams = some (
      (
        257,
        new_media_stream 257 15
            (aac (PesQueue.new_transformer media_aligner (new_cbc_encryptor zero_aes key_and_iv))),
      )
      ∷ []);
}

waiting_media-counted :
    (t : ℕ) → 0 + held_in t (streams_or_nil waiting_media) + 0 ≡ open_at {AF = ℕ} t (none ∷ [])
unfolding new_media_stream PesQueue.new_transformer new_output_aligner
waiting_media-counted zero = refl
waiting_media-counted (suc t) = ground arith

waiting_media-Exactly : Exactly sizes both_tables zero_aes (λ ks. ks) (none ∷ []) [] waiting_media
waiting_media-Exactly = record {
  exact = record { shows = one_open-Shows; counted = waiting_media-counted };
  distinct = (refl, tt);
}

flush-IsComplete_example :
    Leaves
      (IsComplete sizes both_tables zero_aes (λ ks. ks) (none ∷ []) waiting_media)
      (flush sizes both_tables zero_aes recorder (λ ks. ks) waiting_media)
flush-IsComplete_example =
    flush-IsComplete sizes both_tables zero_aes (λ ks. ks) (none ∷ []) waiting_media
      waiting_media-Exactly (λ k ks. refl)

-- The other slot is the one of the new packet.
two_open-counted : (t : ℕ) → 0 + copies t (1 ∷ 0 ∷ []) ≡ open_at {AF = ℕ} t (none ∷ none ∷ [])
two_open-counted zero = refl
two_open-counted (suc zero) = refl
two_open-counted (suc (suc t)) = ground arith

abbrev two_open : OutputAssembler ℕ (List (Packet ℕ))
two_open = record {
  queue = record {
    slots = record { value = []; ready = false } ∷ record { value = []; ready = false } ∷ [];
    head = 0;
    first = 0;
    next = 2;
  };
  writer = some [];
}

two_open-Open : Open (none ∷ none ∷ []) (λ t. one_at 1 t + 0 + copies t (0 ∷ [])) two_open
two_open-Open = record {
  history = none ∷ none ∷ [];
  adds = tt;
  exact = record {
    shows = record {
      valid = record { head_in = omega arith; counted = refl; no_wrap = omega arith };
      shown = refl;
      written = refl;
    };
    counted = λ t. omega (arith, two_open-counted t);
  };
}

consume-Stands_example :
    Leaves
      (Stands both_tables (none ∷ none ∷ []) (λ t. 0))
      (PmtTransformer.consume both_tables (commit recorder) 1 pmt_packet (one_held, two_open))
consume-Stands_example =
    consume-Stands both_tables (none ∷ none ∷ []) (λ t. 0) 1 pmt_packet one_held two_open
      two_open-Open
