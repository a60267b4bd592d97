-- ===== src/Remux/Media/Factory.antt =====
-- `NewTransformer` and `SupportedMediaType` of ts/internal/transformer/factory.go agree.
use mpegenc.Common.{
  ℕ, ◌≡◌, refl, Bool, true, false, ◌==◌, Bytes, if◌then◌else◌, Method, Outcome, ok, err, and_then,
  Bool-cases, Outcome-cases, some, sym, inl, inr, arith, unsupported_stream_type,
}
use mpegenc.SampleAes.{Config, CbcEncryptor, cbc_cryptor, new_cbc_encryptor}
use mpegenc.Pmt.{Patch, h264_type, adts_type, ac3_type, eac3_type}
use mpegenc.Packets.Pes.{PesHandler}
use mpegenc.Codecs.Avc.Annexb
use mpegenc.Codecs.Avc.State
use mpegenc.Codecs.PesQueue
use mpegenc.Codecs.Avc.Pmt.{patch_pmt}
use mpegenc.Remux.Media.{
  MediaTransformer, avc, aac, ac3, eac3, next_of, supported_media_type, new_transformer,
}

-- The stream type that a transformer is for.
abbrev pub type_of : {W B : Type 0} → MediaTransformer W B → ℕ
type_of (avc t) = h264_type
type_of (aac t) = adts_type
type_of (ac3 t) = ac3_type
type_of (eac3 t) = eac3_type

module _ {W : Type 0} (aes : Bytes → Bytes → Bytes) (handler : PesHandler W)
    (signal : Patch → Method W (Unit {0})) (cfg : Config) where
  -- AVC signals at once, and fails by its signal; the others leave the state as it is.
  abbrev pub Fits : ℕ → W → Outcome W (MediaTransformer W CbcEncryptor) → Type 0
  Fits stream_type w (ok t w') =
      (type_of t ≡ stream_type)
      × (next_of t ≡ w')
      × ((if stream_type == h264_type then signal patch_pmt w else ok tt w) ≡ ok tt w')
  Fits stream_type w (err e w') = (stream_type ≡ h264_type) × (signal patch_pmt w ≡ err e w')

  abbrev pub Makes : Bool → ℕ → W → Outcome W (MediaTransformer W CbcEncryptor) → Type 0
  Makes true stream_type w o = Fits stream_type w o
  Makes false stream_type w o = o ≡ err unsupported_stream_type w

  quiet :
      (stream_type : ℕ) (w : W)
      → (stream_type == h264_type) ≡ false
      → (if stream_type == h264_type then signal patch_pmt w else ok tt w) ≡ ok tt w
  quiet stream_type w a = rw a refl

  avc-Fits :
      (stream_type : ℕ) (w : W) (b : CbcEncryptor)
      → (stream_type == h264_type) ≡ true
      → Fits stream_type w
          (and_then (Annexb.init handler cbc_cryptor signal w (some b)) (λ t w'. ok (avc t) w'))
  unfolding Annexb.init State.new_transformer
  avc-Fits stream_type w b a =
      let e : stream_type ≡ h264_type = ground (arith, a) in
      elim (Outcome-cases (signal patch_pmt w)) [
        | inl (x, w', s) ↦ rw (s, Annexb.init) (sym e, refl, rw a s)
        | inr (x, w', s) ↦ rw (s, Annexb.init) (e, s)
      ]

  -- For a stream type that `SupportedMediaType` accepts on clear input, `NewTransformer` gives the
  -- transformer of that type, in front of the handler's state, or it is AVC and the error is the
  -- signal's. For any other type it fails and leaves the state as it is.
  pub new_transformer-Makes :
      (stream_type : ℕ) (w : W)
      → Makes
          (supported_media_type stream_type false)
          stream_type
          w
          (new_transformer aes handler signal cfg stream_type w)
  unfolding new_transformer PesQueue.new_transformer supported_media_type
  new_transformer-Makes stream_type w = elim (Bool-cases (stream_type == h264_type)) [
    | inl a ↦
        rw (a, new_transformer, supported_media_type)
          (avc-Fits stream_type w (new_cbc_encryptor aes cfg) a)
    | inr a ↦ elim (Bool-cases (stream_type == adts_type)) [
      | inl b ↦
          rw (a, b, new_transformer, supported_media_type)
            (ground arith, refl, quiet stream_type w a)
      | inr b ↦ elim (Bool-cases (stream_type == ac3_type)) [
        | inl c ↦
            rw (a, b, c, new_transformer, supported_media_type)
              (ground arith, refl, quiet stream_type w a)
        | inr c ↦ elim (Bool-cases (stream_type == eac3_type)) [
          | inl d ↦
              rw (a, b, c, d, new_transformer, supported_media_type)
                (ground arith, refl, quiet stream_type w a)
          | inr d ↦ rw (a, b, c, d, new_transformer, supported_media_type) refl
        ]
      ]
    ]
  ]
