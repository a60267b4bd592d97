-- ===== src/Codecs/Avc/State.antt =====
-- ts/codecs/avc/transformer.go: the state, and the methods that only change the state.
use mpegenc.Common.{
  ℕ, Bool, true, false, Option, none, some, List, [], Bytes, Method, err, within, nil_dereference,
}
use mpegenc.Codecs.PesQueue.{PendingPes}
use mpegenc.Codecs.Avc.Ebsp.{EbspEscaper, reset}

-- How bytes behind the latest start code are read. `outside`: no start code was seen, or the last NAL
-- is finished. `header`: the next byte is a NAL header. `passthrough`: the NAL is copied.
-- `protected`: it is a slice that the Sample-AES pattern goes over.
pub data NalState : Type 0 where
  outside header passthrough protected : NalState

abbrev pub probe_size : ℕ
probe_size = 49

abbrev pub clear_lead : ℕ
clear_lead = 32

abbrev pub block_size : ℕ
block_size = 16

abbrev pub pattern_skip_size : ℕ
pattern_skip_size = 144

-- `pattern` holds the first `patternLen` bytes of the array, and `block` is nil or not. `scratch` is
-- a buffer of one call and has no field.
pub record Transformer (W B : Type 0) : Type 0 where
  pub next : W
  pub block : Option B
  pub input_pes_open : Bool
  pub pes : List PendingPes
  pub nal_state : NalState
  pub zero_run : ℕ
  pub nal_encrypted : Bool
  pub pattern : Bytes
  pub skip : ℕ
  pub escaper : EbspEscaper

-- `newTransformer`
unfoldable pub new_transformer : {W B : Type 0} → W → Option B → Transformer W B
new_transformer next block = record {
  next = next;
  block = block;
  input_pes_open = false;
  pes = [];
  nal_state = outside;
  zero_run = 0;
  nal_encrypted = false;
  pattern = [];
  skip = 0;
  escaper = record { zero_run = 0 };
}

abbrev pub is_outside : NalState → Bool
is_outside outside = true
is_outside header = false
is_outside passthrough = false
is_outside protected = false

unfoldable pub begin_nal : {W B : Type 0} → Transformer W B → Transformer W B
unfolding reset
begin_nal t = record t {
  nal_state = header;
  nal_encrypted = false;
  pattern = [];
  skip = 0;
  escaper = reset t.escaper;
}

abbrev pub on_next : {W B A : Type 0} → Method W A → Method (Transformer W B) A
on_next call t = within (λ t w. record t { next = w }) t (call t.next)

unfoldable pub on_block : {W B A : Type 0} → Method B A → Method (Transformer W B) A
on_block call t = elim t.block [
  | none ↦ err nil_dereference t
  | some b ↦ within (λ t b. record t { block = some b }) t (call b)
]
