-- ===== src/Lib.antt =====
-- mpegenc encrypts the elementary streams of an MPEG transport stream by Sample-AES, packet by packet:
-- for each elementary PID the PES packets are collected from the TS payloads, a codec transformer
-- finds the frames or NAL units and encrypts parts of them, and the result is cut into TS packets that
-- take the places of the input packets.
--
-- Parts, in the order in which a byte goes through them:
--   Packets/Psi.antt         ts/internal/packets/psi.go: `psiSectionCollector` (`consume`, `append`)
--   Packets/Pes.antt         ts/packets/pes.go: `PESCollector` (`consume`, `flush`) and the interface
--                            `PESHandler`, a record of methods on a state; Packets/Pes/Strict.antt
--                            is a handler that refuses calls out of turn
--   Codecs/Avc/*.antt        ts/codecs/avc: the Annex-B scanner (Annexb), the Sample-AES pattern of a
--                            NAL (Nal), the output by input PES (Writer), the state (State), the
--                            escaper (Ebsp) and `patchPMT` (Pmt)
--   Codecs/PesQueue.antt     what ts/codecs/aac, ac3 and eac3 share: the queue of pending PES records
--   Codecs/Frame.antt        the encryption of a frame in place, shared by the three too
--   Codecs/Aac, Ac3, Eac3    the `processFrames` of each, its header fields and its `patchPMT`
--   SampleAes.antt           sampleaes: `Config`, the interface `BlockCryptor`, `CBCEncryptor`
--   Mux/Packetizer.antt      ts/internal/mux/ts_packetizer.go: `TSPacketizer`, all methods
--   Output/Aligner.antt      ts/output.go: `outputAligner`, which is the handler that a transformer
--                            writes to, and matches the packets to the slots of the input packets
--   Output/Assembler.antt    ts/output.go: `outputAssembler`, which writes the slots in input order
--   Utils/CommitQueue.antt   internal/utils/commit_queue.go: `CommitQueue`, under the assembler
--   Packets/Pat, Pmt         ts/internal/packets/pat.go and pmt.go: the collectors of the two tables
--   Remux/PmtTransformer     ts/pmt_transformer.go: PMTs held back until every stream has signalled
--   Remux/Media.antt         ts/internal/transformer/factory.go and ts/codecs/transformer.go
--   Remux/Stream.antt        ts/media_stream.go: the pipeline of one PID
--   Remux/Remuxer.antt       ts/remuxer.go: the routing of packets, `updateMediaStreams`, the flush
--   Remux/Process.antt       ts/encrypt.go: `process`, with what the demuxer gives as its input
--   Pmt.antt                 ts/internal/pmtsignal and the PMT entries that it patches
--   Astits, Astits/Tables    what the code takes from internal/go-astits: parameters with laws
--   Common.antt              Boolean tests, byte slices and fallible methods
--   Tests.antt               runs on small inputs
--
-- A method is a function of the state that returns its result or an error together with the state that
-- it leaves, on the error path too. The errors of `fmt.Errorf` are constructors without their
-- arguments. A read out of range is an error where the code does not rule it out by a test before it.
-- A Go slice is a list, a byte is a number; tokens and counters wrap as in the source. A byte's bit
-- operations are written by division and remainder.
--
-- Loops run on fuel, which is the length of the data that a loop takes from (one more where a round
-- may take none); a loop without rounds left ends in the error `out_of_fuel`. The loops of the escaper,
-- of `Drain` and over a number of zeros stop instead: their rounds are counted by what they take.
--
-- A stream's aligner is the object behind its transformer's `next`; the model has it there alone.
-- While a stream runs, the PMT transformer and the output stand behind `next` too, for a codec's
-- signal reaches them. The order in which Go ranges over a map is a parameter.
--
-- How the proofs about the whole are put together: the modules Guarded and Errors go through every
-- operation of a component once, for any property of the state behind it, and list the errors that it
-- can fail with (Common/Outcomes.antt, Packets/Quiet.antt). The modules Open account for the slots:
-- Output/Assembler/Open at a commit (Due for what is known to stand in a slot), Remux/PmtTransformer/Open
-- for PMTs that are held, Remux/Stream/Tokens for a stream, Remux/Remuxer/Open for a stream in the
-- remuxer. Below it, Steps has what one packet does to the slots, as a relation, Created the streams that
-- a PMT creates, Handled and Routed the cases of `Consume`, Emptied and Flushed the end; Remux/Process/Complete puts
-- them together to a run.
--
-- Not modelled: internal/go-astits, a copy of another project's library, of which the calls are
-- parameters; AES on one block, a parameter; the bytes that the muxer writes.
pub mod Common
pub mod SampleAes
pub mod Utils
pub mod Packets
pub mod Pmt
pub mod Astits
pub mod Mux
pub mod Codecs
pub mod Output
pub mod Remux
pub mod Tests
