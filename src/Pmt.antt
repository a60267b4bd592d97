-- ===== src/Pmt.antt =====
-- The PMT entries that the codecs patch, ts/internal/pmtsignal, and the constants of
-- internal/go-astits that the code names.
use mpegenc.Common.{ℕ, List, Bytes}

pub data DescriptorBody : Type 0 where
  -- `PrivateDataIndicator`
  private_data : ℕ → DescriptorBody
  -- `Registration`: the format identifier and the additional information
  registration : ℕ → Bytes → DescriptorBody
  -- any other descriptor, which the code carries along
  other : ℕ → DescriptorBody

pub record Descriptor : Type 0 where
  pub tag : ℕ
  pub size : ℕ
  pub body : DescriptorBody

-- `astits.PMTElementaryStream`
pub record ElementaryStream : Type 0 where
  pub elementary_pid : ℕ
  pub stream_type : ℕ
  pub descriptors : List Descriptor

-- `pmtsignal.Patch` changes an entry in place; here it returns the new entry.
abbrev pub Patch : Type 0
Patch = ElementaryStream → ElementaryStream

abbrev pub private_data_tag : ℕ
private_data_tag = 0x0F

abbrev pub registration_tag : ℕ
registration_tag = 0x05

abbrev pub h264_type : ℕ
h264_type = 0x1B

abbrev pub adts_type : ℕ
adts_type = 0x0F

abbrev pub ac3_type : ℕ
ac3_type = 0x81

abbrev pub eac3_type : ℕ
eac3_type = 0x87

-- `apad`, the format identifier of the audio setup descriptors
abbrev pub audio_setup_format : ℕ
audio_setup_format = 0x61706164
