-- ===== src/Common/Methods.antt =====
-- Fallible methods on a mutable object: a method takes the state and returns its result, or the
-- error, with the state that it leaves. The state is kept on the error path too.
use Prim.Native.Nat.{ℕ}
use mathlib.Core.Path.{◌≡◌, refl}
use mathlib.Core.Logic.{◌⊎◌, inl, inr}
use mathlib.Core.Bool.{Bool, true, false}

-- The errors that the code builds by `fmt.Errorf`, one constructor for each message, and
-- `external` for an error that comes from code outside the model.
pub data Error : Type 0 where
  external : ℕ → Error
  -- a read or a write out of range, which panics
  index_out_of_range nil_dereference : Error
  -- a loop of the model has no rounds left
  out_of_fuel : Error
  -- sampleaes
  bad_key bad_iv not_block_multiple cipher_mode_missing : Error
  -- internal/utils
  token_not_pending token_committed : Error
  -- ts/internal/packets and ts/packets
  missing_pointer_field pointer_field_exceeds bad_section_length not_a_pat not_a_pmt : Error
  bytes_after_pes header_incomplete payload_incomplete truncated_header truncated_payload : Error
  missing_start_code pes_shorter_than_header : Error
  -- ts/codecs
  pes_still_open pes_header_short payload_outside_pes no_open_pes missing_pes : Error
  truncated_frame incomplete_pes missing_syncword bad_frame_size bad_frame_code : Error
  bad_bitstream_id reserved_frame_type bad_sample_rate independent_frame_first : Error
  bytes_before_start_code start_code_without_header unsupported_stream_type : Error
  -- ts/internal/mux
  adaptation_too_large no_payload_capacity pending_outside_pes no_payload_to_flush : Error
  -- ts
  nil_packet wrong_pid missing_writer slots_unresolved split_pmt incomplete_pmt : Error
  bad_pmt_pointer several_pmt_sections pmt_unresolved : Error

pub data Outcome {ℓ κ} (S : Type ℓ) (A : Type κ) : Type (ℓ ⊔ κ) where
  ok : A → S → Outcome S A
  err : Error → S → Outcome S A

-- A method on an object with state `S`.
abbrev pub Method {ℓ κ} : Type ℓ → Type κ → Type (ℓ ⊔ κ)
Method S A = S → Outcome S A

module _ {ℓ κ μ} {S : Type ℓ} {A : Type κ} {B : Type μ} where
  abbrev pub and_then : Outcome S A → (A → Method S B) → Outcome S B
  and_then (ok a s) f = f a s
  and_then (err e s) f = err e s

  infixl 5 ◌>>=◌
  abbrev pub ◌>>=◌ : Method S A → (A → Method S B) → Method S B
  ◌>>=◌ m f s = and_then (m s) f

infixl 5 ◌>>◌
abbrev pub ◌>>◌ {ℓ κ} : {S : Type ℓ} {B : Type κ} → Method S (Unit {0}) → Method S B → Method S B
m >> k = m >>= λ _. k

abbrev pub return {ℓ κ} : {S : Type ℓ} {A : Type κ} → A → Method S A
return a s = ok a s

abbrev pub fail {ℓ κ} : {S : Type ℓ} {A : Type κ} → Error → Method S A
fail e s = err e s

abbrev pub get {ℓ} : {S : Type ℓ} → Method S S
get s = ok s s

abbrev pub modify {ℓ} : {S : Type ℓ} → (S → S) → Method S (Unit {0})
modify f s = ok tt (f s)

-- `if test { return err }`
abbrev pub refuse_if {ℓ} : {S : Type ℓ} → Bool → Error → Method S (Unit {0})
refuse_if true e s = err e s
refuse_if false e s = ok tt s

-- The state that a call leaves, whether it succeeds or fails.
abbrev pub state_of {ℓ κ} : {S : Type ℓ} {A : Type κ} → Outcome S A → S
state_of (ok a s) = s
state_of (err e s) = s

-- Runs a method of a part of the object and puts the part back.
abbrev pub within {ℓ κ μ} :
    {S : Type ℓ} {P : Type κ} {A : Type μ} → (S → P → S) → S → Outcome P A → Outcome S A
within put s (ok a p) = ok a (put s p)
within put s (err e p) = err e (put s p)

-- The outcome with another view of the state.
abbrev pub map_state {ℓ κ μ} :
    {S : Type ℓ} {R : Type κ} {A : Type μ} → (S → R) → Outcome S A → Outcome R A
map_state f (ok a s) = ok a (f s)
map_state f (err e s) = err e (f s)

pub Outcome-cases {ℓ κ} :
    {S : Type ℓ} {A : Type κ} (o : Outcome S A)
    → ((a : A) × (s : S) × (o ≡ ok a s)) ⊎ ((e : Error) × (s : S) × (o ≡ err e s))
Outcome-cases (ok a s) = inl (a, s, refl)
Outcome-cases (err e s) = inr (e, s, refl)
