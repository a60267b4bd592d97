-- ===== src/Tests/Frames.antt =====
-- An ADTS frame of 41 bytes and an AC-3 syncframe of 128, each with the front of a second one, under the
-- CBC encryptor, and the header of an E-AC-3 syncframe.
use mpegenc.Common.{
  AreBytes, refl, zero, suc, Bytes, arith, inl, inr, true, false, none, [], ◌∷◌, ◌++◌, replicate,
  ok, Method,
}
use mpegenc.SampleAes.{CbcEncryptor, cbc_cryptor}
use mpegenc.Pmt.{Patch, ElementaryStream}
use mpegenc.Codecs.PesQueue.{Transformer}
use mpegenc.Packets.Pes.Strict.{Downstream, strict}
use mpegenc.Codecs.Frame.Kept.{IsKept, Keeps}
use mpegenc.Codecs.Frame.Cbc.{IsBlockCipher, cbc_cryptor-IsCryptor}
use mpegenc.Codecs.Aac.{process_frames, config_patch}
use mpegenc.Codecs.Aac.Setup.{Configures, config_patch-Configures}
use mpegenc.Codecs.Ac3
use mpegenc.Codecs.Ac3.Frames.{IsSyncframeError, ac3_frames-Keeps}
use mpegenc.Codecs.Eac3
use mpegenc.Codecs.Eac3.Chained.{IsChaining, cbc_cryptor-IsChain}
use mpegenc.Codecs.Eac3.Frames.{Ends, eac3_frames-Ends}
use mpegenc.Codecs.Eac3.{parse_syncframe_header, setup}
use mpegenc.Codecs.Eac3.Setup.{IsHeader, IfParsed, Decodes, parse-Decodes}
use mpegenc.Codecs.Aac.Frames.{IsAdtsError, process_frames-Keeps}

abbrev accept : Patch → Method Downstream (Unit {0})
accept p w = ok tt w

abbrev adts : Transformer Downstream CbcEncryptor
adts = record {
  next = record { open_pes = false; bytes = [] };
  block = record { block = λ b. replicate 16 170; init_iv = replicate 16 0; mode = none };
  input_pes_open = true;
  buffer =
      0xFF ∷ 0xF1 ∷ 0x50 ∷ 0x80 ∷ 5 ∷ 32 ∷ 0 ∷ replicate 34 7 ++ (0xFF ∷ 0xF1 ∷ 0x50 ∷ 0x80 ∷ []);
  pes =
      record { header = 0 ∷ 0 ∷ 1 ∷ 0xC0 ∷ 0 ∷ 0 ∷ []; bytes = 45; ended = false; started = false }
      ∷ [];
  config_sent = false;
}

adts-IsKept : IsKept cbc_cryptor IsBlockCipher cbc_cryptor-IsCryptor adts
adts-IsKept = record {
  valid = record { queue = (refl, inl refl, tt); settled = refl };
  balanced = refl;
  ready = λ b. refl;
}

process_frames-Keeps_example :
    Keeps cbc_cryptor IsBlockCipher cbc_cryptor-IsCryptor IsAdtsError 45
      (process_frames strict cbc_cryptor accept adts)
process_frames-Keeps_example =
    process_frames-Keeps cbc_cryptor IsBlockCipher cbc_cryptor-IsCryptor accept (λ p w. inl refl)
      adts adts-IsKept

abbrev syncframes : Transformer Downstream CbcEncryptor
syncframes = record adts {
  buffer = 0x0B ∷ 0x77 ∷ 1 ∷ 2 ∷ 0 ∷ 0x40 ∷ replicate 122 7 ++ (0x0B ∷ 0x77 ∷ 1 ∷ 2 ∷ []);
  pes =
      record { header = 0 ∷ 0 ∷ 1 ∷ 0xBD ∷ 0 ∷ 0 ∷ []; bytes = 132; ended = false; started = false }
      ∷ [];
}

ac3_frames-Keeps_example :
    Keeps cbc_cryptor IsBlockCipher cbc_cryptor-IsCryptor IsSyncframeError 132
      (Ac3.process_frames strict cbc_cryptor accept syncframes)
ac3_frames-Keeps_example =
    ac3_frames-Keeps cbc_cryptor IsBlockCipher cbc_cryptor-IsCryptor accept (λ p w. inl refl)
      syncframes
      (record {
        valid = record { queue = (refl, inl refl, tt); settled = refl };
        balanced = refl;
        ready = λ b. refl;
      })

-- 48 kHz, six blocks, 768 bytes, 3/2 channels with LFE.
abbrev syncframe_front : Bytes
syncframe_front = 0x0B ∷ 0x77 ∷ 1 ∷ 127 ∷ 63 ∷ 128 ∷ 0 ∷ []

syncframe_front-AreBytes : AreBytes syncframe_front
syncframe_front-AreBytes zero = omega arith
syncframe_front-AreBytes (suc zero) = omega arith
syncframe_front-AreBytes (suc (suc zero)) = omega arith
syncframe_front-AreBytes (suc (suc (suc zero))) = omega arith
syncframe_front-AreBytes (suc (suc (suc (suc zero)))) = omega arith
syncframe_front-AreBytes (suc (suc (suc (suc (suc zero))))) = omega arith
syncframe_front-AreBytes (suc (suc (suc (suc (suc (suc zero)))))) = omega arith
syncframe_front-AreBytes (suc (suc (suc (suc (suc (suc (suc i))))))) = omega arith

parse-Decodes_example :
    IfParsed (λ h. IsHeader h × Decodes h (setup h)) (parse_syncframe_header syncframe_front)
parse-Decodes_example = parse-Decodes syncframe_front syncframe_front-AreBytes

-- AAC-LC at 44.1 kHz, two channels.
abbrev adts_front : Bytes
adts_front = 0xFF ∷ 0xF1 ∷ 0x50 ∷ 0x80 ∷ 5 ∷ 32 ∷ 0 ∷ []

adts_front-AreBytes : AreBytes adts_front
adts_front-AreBytes zero = omega arith
adts_front-AreBytes (suc zero) = omega arith
adts_front-AreBytes (suc (suc zero)) = omega arith
adts_front-AreBytes (suc (suc (suc zero))) = omega arith
adts_front-AreBytes (suc (suc (suc (suc zero)))) = omega arith
adts_front-AreBytes (suc (suc (suc (suc (suc zero))))) = omega arith
adts_front-AreBytes (suc (suc (suc (suc (suc (suc zero)))))) = omega arith
adts_front-AreBytes (suc (suc (suc (suc (suc (suc (suc i))))))) = omega arith

abbrev adts_entry : ElementaryStream
adts_entry = record { elementary_pid = 258; stream_type = 15; descriptors = [] }

config_patch-Configures_example :
    Configures adts_front adts_entry (config_patch adts_front adts_entry)
config_patch-Configures_example = config_patch-Configures adts_front adts_entry adts_front-AreBytes

-- An independent syncframe of 64 bytes, a dependent one of 34 and the front of a third.
abbrev substreams : Transformer Downstream CbcEncryptor
substreams = record adts {
  buffer =
      0x0B ∷ 0x77 ∷ 0 ∷ 31 ∷ 0x3F ∷ 0x80 ∷ replicate 58 7
      ++ 0x0B ∷ 0x77 ∷ 64 ∷ 16 ∷ 0x3F ∷ 0x80 ∷ replicate 28 8
      ++ 0x0B ∷ 0x77 ∷ [];
  pes =
      record { header = 0 ∷ 0 ∷ 1 ∷ 0xBD ∷ 0 ∷ 0 ∷ []; bytes = 100; ended = false; started = false }
      ∷ [];
}

eac3_frames-Ends_example :
    Ends cbc_cryptor IsBlockCipher IsChaining cbc_cryptor-IsChain accept
      (λ p w. inl refl)
      100
      (Eac3.process_frames strict cbc_cryptor accept substreams)
eac3_frames-Ends_example =
    eac3_frames-Ends cbc_cryptor IsBlockCipher IsChaining cbc_cryptor-IsChain accept
      (λ p w. inl refl) substreams
      (inr (
        record {
          valid = record { queue = (refl, inl refl, tt); settled = refl };
          balanced = refl;
          ready = λ b. refl;
        },
        λ e. cc,
      ))
