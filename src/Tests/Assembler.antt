-- ===== src/Tests/Assembler.antt =====
-- Three slots of the output, committed in another order than they were reserved in.
use mpegenc.Common.{ℕ, refl, true, false, none, some, List, [], ◌∷◌, arith}
use mpegenc.Astits.{Packet}
use mpegenc.Output.Assembler.{OutputAssembler, new_output_assembler, flush}
use mpegenc.Output.Assembler.History.{Op, reserves, commits, History}
use mpegenc.Output.Assembler.Steps.{recorder, Does}
use mpegenc.Output.Assembler.Order.{run, Resolves, run-Does-history, flush-Resolves}

abbrev packet : ℕ → Packet ℕ
packet n = record {
  head = record {
    has_payload = true;
    payload_unit_start = false;
    has_adaptation_field = false;
    pid = 256;
    continuity_counter = 0;
  };
  adaptation_field = none;
  payload = n ∷ [];
}

abbrev calls : List (Op ℕ)
calls =
    reserves
    ∷ reserves
    ∷ commits (record { token = 1; packets = packet 1 ∷ packet 2 ∷ [] })
    ∷ reserves
    ∷ commits (record { token = 0; packets = packet 0 ∷ [] })
    ∷ []

abbrev behind_calls : History ℕ
behind_calls = some (packet 0 ∷ []) ∷ some (packet 1 ∷ packet 2 ∷ []) ∷ none ∷ []

run-Does-history_example : Does behind_calls (run calls (new_output_assembler (some [])))
run-Does-history_example = run-Does-history calls behind_calls refl (omega arith)

abbrev first_open : OutputAssembler ℕ (List (Packet ℕ))
first_open = record {
  queue = record {
    slots = record { value = []; ready = false } ∷ [];
    head = 0;
    first = 0;
    next = 1;
  };
  writer = some [];
}

flush-Resolves_example : Resolves (none ∷ []) (flush recorder first_open)
flush-Resolves_example = flush-Resolves (none ∷ []) first_open (record {
  valid = record { head_in = omega arith; counted = refl; no_wrap = omega arith };
  shown = refl;
  written = refl;
})
