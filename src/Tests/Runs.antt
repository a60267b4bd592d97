-- ===== src/Tests/Runs.antt =====
-- A run over packets of an unmapped PID, such a packet behind an open slot, and a transformer made.
use mpegenc.Common.{
  ℕ, refl, true, false, none, some, List, [], ◌∷◌, Bytes, replicate, arith, ok, Method,
}
use mpegenc.SampleAes.{Config, validate}
use mpegenc.Astits.{Astits, Packet}
use mpegenc.Astits.Tables.{Tables}
use mpegenc.Pmt.{Patch}
use mpegenc.Packets.Pes.Strict.{Downstream, strict}
use mpegenc.Output.Assembler.Steps.{recorder}
use mpegenc.Remux.Media.{supported_media_type, new_transformer}
use mpegenc.Remux.Media.Factory.{Makes, new_transformer-Makes}
use mpegenc.Remux.Remuxer.{Remuxer, new_remuxer, consume}
use mpegenc.Remux.Remuxer.Passing.{PassesTo, consume-PassesTo}
use mpegenc.Remux.Process.{process}
use mpegenc.Remux.Process.Unmapped.{input_of, Writes, process-Writes}

abbrev pub sizes : Astits ℕ
sizes = record {
  size_without_stuffing = λ n. n;
  stuffing_field = some;
  field_with_size = λ f n. some n;
  has_data = λ n. true;
  clone_without_stuffing = λ n. n;
}

abbrev no_tables : Tables ℕ
no_tables = record { parse_section = λ b. none; packetize = λ p s. none }

abbrev pub zero_aes : Bytes → Bytes → Bytes
zero_aes key b = replicate 16 0

abbrev pub key_and_iv : Config
key_and_iv = record { key = replicate 16 1; iv = replicate 16 2 }

abbrev pub data_packet : ℕ → Packet ℕ
data_packet n = record {
  head = record {
    continuity_counter = n;
    has_adaptation_field = false;
    has_payload = true;
    payload_unit_start = false;
    pid = 8191;
  };
  adaptation_field = none;
  payload = replicate 184 n;
}

abbrev inputs : List (Packet ℕ)
inputs = data_packet 1 ∷ data_packet 2 ∷ []

process-Writes_example :
    Writes inputs (
      process sizes no_tables zero_aes recorder (λ pids. pids) key_and_iv true [] (input_of inputs))
unfolding validate
process-Writes_example =
    process-Writes sizes no_tables zero_aes (λ pids. pids) key_and_iv true inputs refl
      (λ e. absurd (omega arith), (λ e. absurd (omega arith), tt)) (omega arith)

-- A slot in front is not committed yet.
abbrev busy : Remuxer ℕ (List (Packet ℕ))
busy = record (new_remuxer (some []) false key_and_iv) {
  output = record {
    queue = record {
      slots = record { value = []; ready = false } ∷ [];
      head = 0;
      first = 0;
      next = 1;
    };
    writer = some [];
  };
  pmt_pid = 256;
  streams = some [];
}

consume-PassesTo_example :
    PassesTo sizes no_tables zero_aes
      (λ pids. pids)
      busy
      (none ∷ some (data_packet 1 ∷ []) ∷ [])
      (consume sizes no_tables zero_aes recorder (λ pids. pids) (some (data_packet 1)) busy)
consume-PassesTo_example =
    consume-PassesTo sizes no_tables zero_aes (λ pids. pids) (none ∷ []) (data_packet 1) busy
      (record {
        valid = record { head_in = omega arith; counted = refl; no_wrap = omega arith };
        shown = refl;
        written = refl;
      })
      (record {
        no_pat = λ e. absurd (omega arith);
        no_pmt = λ e. absurd (omega arith);
        no_stream = refl;
      })
      (omega arith)

abbrev quiet_signal : Patch → Method Downstream (Unit {0})
quiet_signal p w = ok tt w

new_transformer-Makes_example :
    Makes zero_aes strict quiet_signal key_and_iv
      (supported_media_type 15 false)
      15
      (record { open_pes = false; bytes = [] })
      (new_transformer zero_aes strict quiet_signal key_and_iv 15
        (record { open_pes = false; bytes = [] }))
new_transformer-Makes_example =
    new_transformer-Makes zero_aes strict quiet_signal key_and_iv 15
      (record { open_pes = false; bytes = [] })
