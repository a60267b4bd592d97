-- ===== src/Tests/Streams.antt =====
-- A stream that holds a token.
use mpegenc.Common.{ℕ, ◌≡◌, refl, some, [], ◌∷◌, ok, Method, on_ok, Gives}
use mpegenc.SampleAes.{CbcEncryptor, cbc_cryptor, new_cbc_encryptor}
use mpegenc.SampleAes.Quiet.{cbc_cryptor-IsQuiet}
use mpegenc.Pmt.{Patch}
use mpegenc.Output.Aligner.{OutputAligner, new_output_aligner}
use mpegenc.Output.Aligner.Order.{held_tokens}
use mpegenc.Codecs.PesQueue
use mpegenc.Remux.Media.{aac, next_of}
use mpegenc.Remux.Stream.{MediaStream, Sink, new_media_stream}
use mpegenc.Remux.Stream
use mpegenc.Remux.Stream.Tokens.{IsSink, Hands, HandsAll, consume-Hands, flush-HandsAll}
use mpegenc.Tests.Runs.{sizes, zero_aes, key_and_iv}
use mpegenc.Tests.Slots.{avc_packet}

-- A stream with its aligner alone behind it.
abbrev aligner_alone : Sink ℕ (OutputAligner ℕ)
aligner_alone = record { get = λ a. a; put = λ a w. a }

abbrev no_signal : Patch → Method (OutputAligner ℕ) (Unit {0})
no_signal p a = ok tt a

abbrev Nothing : OutputAligner ℕ → Type 0
Nothing a = Unit

aligner_alone-IsSink : IsSink aligner_alone Nothing
aligner_alone-IsSink = record { get-put = λ a w. refl; keeps_rest = λ a w u. tt }

abbrev aac_stream : MediaStream (OutputAligner ℕ) CbcEncryptor
aac_stream = new_media_stream 257 15 (
    aac (
      PesQueue.new_transformer (record (new_output_aligner 257) { tokens = 3 ∷ [] })
        (new_cbc_encryptor zero_aes key_and_iv)))

aac_stream-tokens : held_tokens (next_of aac_stream.transformer) ≡ 3 ∷ []
unfolding new_media_stream PesQueue.new_transformer new_output_aligner
aac_stream-tokens = refl

consume-Hands_example :
    Gives
      (Hands sizes aligner_alone cbc_cryptor no_signal Nothing aligner_alone-IsSink
        cbc_cryptor-IsQuiet
        (λ ts p a h. on_ok h)
        (3 ∷ 4 ∷ []))
      (Stream.consume sizes aligner_alone cbc_cryptor no_signal 4 (some avc_packet) aac_stream)
consume-Hands_example =
    consume-Hands sizes aligner_alone cbc_cryptor no_signal Nothing aligner_alone-IsSink
      cbc_cryptor-IsQuiet (λ ts p a h. on_ok h) (3 ∷ []) 4 avc_packet aac_stream
      (aac_stream-tokens, tt)

flush-HandsAll_example :
    Gives
      (HandsAll sizes aligner_alone cbc_cryptor no_signal Nothing aligner_alone-IsSink
        cbc_cryptor-IsQuiet
        (λ ts p a h. on_ok h)
        (3 ∷ []))
      (Stream.flush sizes aligner_alone cbc_cryptor no_signal aac_stream)
flush-HandsAll_example =
    flush-HandsAll sizes aligner_alone cbc_cryptor no_signal Nothing aligner_alone-IsSink
      cbc_cryptor-IsQuiet (λ ts p a h. on_ok h) (3 ∷ []) aac_stream (aac_stream-tokens, tt)
