-- ===== src/Tests/Delivery.antt =====
-- Three PES records, of which the second is empty.
use mpegenc.Common.{ℕ, ◌≡◌, refl, inl, inr, Bool, true, false, [], ◌∷◌, arith, ok}
use mpegenc.Codecs.PesQueue.{
  PendingPes, Transformer, write, write_loop, write_round, finish_pes, finish_loop,
}
use mpegenc.Codecs.PesQueue.Delivery.{IsValid, Delivers, write-Delivers}
use mpegenc.Packets.Pes.Strict.{Downstream, strict}

abbrev pending : Bool → Bool → ℕ → PendingPes
pending started ended n = record {
  header = 0 ∷ 0 ∷ 1 ∷ 0xC0 ∷ 0 ∷ 0 ∷ [];
  bytes = n;
  ended = ended;
  started = started;
}

abbrev queued : Transformer Downstream (Unit {0})
queued = record {
  next = record { open_pes = true; bytes = 1 ∷ [] };
  block = tt;
  input_pes_open = true;
  buffer = 2 ∷ 3 ∷ 4 ∷ [];
  pes = pending true true 2 ∷ pending false true 0 ∷ pending false false 5 ∷ [];
  config_sent = true;
}

queued-IsValid : IsValid queued
queued-IsValid = record {
  queue = (refl, inr refl, (refl, inr refl, (refl, inl refl, tt)));
  settled = refl;
}

write_closes_two :
    write strict (2 ∷ 3 ∷ 4 ∷ []) queued
    ≡ ok tt (record queued {
      next = record { open_pes = true; bytes = 1 ∷ 2 ∷ 3 ∷ 4 ∷ [] };
      pes = pending true false 4 ∷ [];
    })
unfolding write write_loop write_round finish_pes finish_loop
write_closes_two = refl

write-Delivers_example :
    Delivers (1 ∷ 2 ∷ 3 ∷ 4 ∷ []) 4 (2 ∷ 3 ∷ 4 ∷ [], tt) (write strict (2 ∷ 3 ∷ 4 ∷ []) queued)
write-Delivers_example = write-Delivers (2 ∷ 3 ∷ 4 ∷ []) queued queued-IsValid (omega arith)
