-- ===== src/Astits.antt =====
-- What the code takes from internal/go-astits, a copy of another project's library: TS packets, and
-- the adaptation fields as an interface. The operations are parameters of the model.
pub mod Tables
use mpegenc.Common.{ℕ, ◌≤◌, ◌≡◌, Bool, Option, some, Bytes}

pub record Astits (AF : Type 0) : Type 0 where
  -- `AdaptationFieldSizeWithoutStuffing` of a field that is not nil
  pub size_without_stuffing : AF → ℕ
  -- `NewStuffingAdaptationField`; `none` is its error
  pub stuffing_field : ℕ → Option AF
  -- `AdaptationFieldWithSize` of a field that is not nil
  pub field_with_size : AF → ℕ → Option AF
  -- `HasAdaptationFieldData` of a field that is not nil
  pub has_data : AF → Bool
  -- `CloneAdaptationFieldWithoutStuffing` of a field that is not nil
  pub clone_without_stuffing : AF → AF

-- `MpegTsPacketSize - 4`: the bytes behind a TS header.
abbrev pub packet_body : ℕ
packet_body = 184

-- What the code relies on, for a function that gives the bytes that a field takes in a packet.
pub record IsLawful {AF : Type 0} (lib : Astits AF) (size : AF → ℕ) : Type 0 where
  pub stuffing_size : {n : ℕ} (a : AF) → lib.stuffing_field n ≡ some a → size a ≡ n
  pub stuffing_works :
      (n : ℕ) → 1 ≤ n → n ≤ packet_body → (a : AF) × (lib.stuffing_field n ≡ some a)
  pub field_size : {n : ℕ} (f a : AF) → lib.field_with_size f n ≡ some a → size a ≡ n
  pub field_works :
      (f : AF) (n : ℕ)
      → lib.size_without_stuffing f ≤ n
      → n ≤ packet_body
      → (a : AF) × (lib.field_with_size f n ≡ some a)

-- `astits.PacketHeader`, without the fields that the code leaves at zero.
pub record PacketHeader : Type 0 where
  pub continuity_counter : ℕ
  pub has_adaptation_field : Bool
  pub has_payload : Bool
  pub payload_unit_start : Bool
  pub pid : ℕ

-- `astits.Packet`; an absent field is nil.
pub record Packet (AF : Type 0) : Type 0 where
  pub head : PacketHeader
  pub adaptation_field : Option AF
  pub payload : Bytes
