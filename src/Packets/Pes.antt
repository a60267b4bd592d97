-- ===== src/Packets/Pes.antt =====
-- ts/packets/pes.go: PES framing for one elementary PID.
pub mod Guards
pub mod Guarded
pub mod Strict
pub mod Stage
pub mod Protocol
use mpegenc.Common.{
  ℕ, zero, suc, ◌+◌, ◌-◌, ◌*◌, min, ℤ, pos, negsuc, sub_ℕ, is_negative, is_positive, is_zero, Bool,
  true, false, not, ◌&&◌, ◌||◌, [], ◌∷◌, ◌++◌, Bytes, length, get_or, take, drop, ltb, leb, ◌==◌,
  if◌then◌else◌, Method, ok, err, and_then, within, bytes_after_pes, header_incomplete,
  payload_incomplete, truncated_header, truncated_payload, missing_start_code,
  pes_shorter_than_header, out_of_fuel,
}

-- `PESHandler`, an interface: the methods of an object with state `W`.
pub record PesHandler (W : Type 0) : Type 0 where
  pub pes_header : Bytes → Method W (Unit {0})
  pub pes_payload : Bytes → Method W (Unit {0})
  pub pes_end : Method W (Unit {0})

-- `payload_remaining` is -1 for a PES of no declared length.
pub record PesCollector : Type 0 where
  pub active : Bool
  pub header : Bytes
  pub header_length : ℕ
  pub payload_remaining : ℤ

abbrev pub minus_one : ℤ
minus_one = negsuc 0

-- `m.headerLength == 0 || len(m.header) < m.headerLength`
abbrev pub header_missing : PesCollector → Bool
header_missing m = m.header_length == 0 || ltb (length m.header) m.header_length

unfoldable pub start : PesCollector → PesCollector
start m = record { active = true; header = []; header_length = 0; payload_remaining = minus_one }

-- What `finish` leaves.
abbrev pub idle : PesCollector
idle = record { active = false; header = []; header_length = 0; payload_remaining = minus_one }

-- The part of `consumeHeader` that reads the lengths, once nine bytes are there.
read_lengths : ℕ → Method PesCollector ℕ
read_lengths n m =
    let header_length : ℕ = 9 + get_or m.header 8 0 in
    let packet_length : ℕ = get_or m.header 4 0 * 256 + get_or m.header 5 0 in
    let remaining = sub_ℕ (packet_length + 6) header_length in
    if packet_length == 0
    then ok n (record m { header_length = header_length; payload_remaining = minus_one })
    else if is_negative remaining
    then err pes_shorter_than_header
        (record m { header_length = header_length; payload_remaining = remaining })
    else ok n (record m { header_length = header_length; payload_remaining = remaining })

-- The part of `consumeHeader` behind the append; `n` bytes were taken.
check_header : ℕ → Method PesCollector ℕ
unfolding read_lengths
check_header n m =
    if leb 3 (length m.header)
      && not (get_or m.header 0 0 == 0 && get_or m.header 1 0 == 0 && get_or m.header 2 0 == 1)
    then err missing_start_code m
    else if ltb (length m.header) 9
    then ok n m
    else if m.header_length == 0
    then read_lengths n m
    else ok n m

abbrev pub needed : PesCollector → ℕ
needed m = if ltb 0 m.header_length then m.header_length else 9

-- Returns the number of bytes taken.
pub consume_header : Bytes → Method PesCollector ℕ
unfolding check_header
consume_header payload m =
    let n = min (length payload) (needed m - length m.header) in
    check_header n (record m { header = m.header ++ take n payload })

module _ {W : Type 0} (handler : PesHandler W) where
  abbrev pub Collecting : Type 0 → Type 0
  Collecting A = Method (PesCollector × W) A

  -- A call of the handler.
  abbrev pub on_handler : {A : Type 0} → Method W A → Collecting A
  on_handler call (m, w) = within (λ _ w'. (m, w')) (m, w) (call w)

  pub finish : Collecting (Unit {0})
  finish (m, w) =
      if header_missing m
      then err header_incomplete (m, w)
      else if is_positive m.payload_remaining
      then err payload_incomplete (m, w)
      else on_handler handler.pes_end (idle, w)

  -- `if m.payloadRemaining == 0 { finish }`
  finish_if_done : Collecting (Unit {0})
  unfolding finish
  finish_if_done (m, w) = if is_zero m.payload_remaining then finish (m, w) else ok tt (m, w)

  -- A round of the loop that takes header bytes; the result is the payload left.
  pub header_round : Bytes → Collecting Bytes
  unfolding consume_header finish_if_done
  header_round payload (m, w) = elim (consume_header payload m) [
    | err e m' ↦ err e (m', w)
    | ok n m' ↦
        if header_missing m'
        then ok (drop n payload) (m', w)
        else and_then (on_handler (handler.pes_header m'.header) (m', w))
            (λ _ s. and_then (finish_if_done s) (λ _ s'. ok (drop n payload) s'))
  ]

  -- `m.payloadRemaining -= n`, where a length is declared.
  abbrev pub count_payload : ℕ → ℤ → ℤ
  count_payload n (pos r) = pos (r - n)
  count_payload n (negsuc r) = negsuc r

  abbrev pub payload_size : ℕ → ℤ → ℕ
  payload_size len (pos r) = if ltb r len then r else len
  payload_size len (negsuc r) = len

  -- A round that takes elementary bytes.
  pub payload_round : Bytes → Collecting Bytes
  unfolding finish_if_done
  payload_round payload (m, w) =
      let n = payload_size (length payload) m.payload_remaining in
      if n == 0
      then err bytes_after_pes (m, w)
      else and_then (on_handler (handler.pes_payload (take n payload)) (m, w)) (λ _ s.
        and_then
          (finish_if_done
            (record (s.0) { payload_remaining = count_payload n s.0.payload_remaining }, s.1))
          (λ _ s'. ok (drop n payload) s'))

  round : Bytes → Collecting Bytes
  unfolding header_round payload_round
  round payload (m, w) =
      if not m.active
      then err bytes_after_pes (m, w)
      else if header_missing m
      then header_round payload (m, w)
      else payload_round payload (m, w)

  -- `for len(payload) > 0`, on fuel; each round takes a byte.
  consume_loop : ℕ → Bytes → Collecting (Unit {0})
  unfolding round
  consume_loop f [] s = ok tt s
  consume_loop zero (b ∷ payload) s = err out_of_fuel s
  consume_loop (suc f) (b ∷ payload) s =
      and_then (round (b ∷ payload) s) (λ rest s'. consume_loop f rest s')

  -- `if pusi { … }`
  begin : Bool → Collecting (Unit {0})
  unfolding finish start
  begin false s = ok tt s
  begin true (m, w) =
      and_then (if m.active then finish (m, w) else ok tt (m, w)) (λ _ s. ok tt (start s.0, s.1))

  unfoldable pub consume : Bool → Bytes → Collecting (Unit {0})
  unfolding begin consume_loop
  consume pusi payload s =
      and_then (begin pusi s)
        (λ _ s'. if s'.0.active then consume_loop (length payload) payload s' else ok tt s')

  pub flush : Collecting (Unit {0})
  unfolding finish
  flush (m, w) =
      if not m.active
      then ok tt (m, w)
      else if header_missing m
      then err truncated_header (m, w)
      else if is_positive m.payload_remaining
      then err truncated_payload (m, w)
      else finish (m, w)
