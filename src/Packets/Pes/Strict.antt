-- ===== src/Packets/Pes/Strict.antt =====
-- A handler that holds its callers to the protocol of `PESHandler`: header, payload, end.
use mpegenc.Common.{
  Bool, true, false, Bytes, ◌++◌, if◌then◌else◌, ok, err, pes_still_open, payload_outside_pes,
  no_open_pes,
}
use mpegenc.Packets.Pes.{PesHandler}

-- A handler that refuses a call out of turn and keeps the elementary bytes.
pub record Downstream : Type 0 where
  pub open_pes : Bool
  pub bytes : Bytes

abbrev pub strict : PesHandler Downstream
strict = record {
  pes_header =
      λ h w. if w.open_pes then err pes_still_open w else ok tt (record w { open_pes = true });
  pes_payload = λ p w.
      if w.open_pes then ok tt (record w { bytes = w.bytes ++ p }) else err payload_outside_pes w;
  pes_end = λ w. if w.open_pes then ok tt (record w { open_pes = false }) else err no_open_pes w;
}
