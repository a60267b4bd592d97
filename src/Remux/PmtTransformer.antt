-- ===== src/Remux/PmtTransformer.antt =====
-- ts/pmt_transformer.go: PMT packets are held back until every supported stream has signalled how its
-- entry is patched.
pub mod Held
pub mod Answered
pub mod Open
use mpegenc.Common.{
  ℕ, ◌+◌, ◌*◌, ◌%◌, Bool, true, false, not, ◌&&◌, Option, none, some, List, [], ◌∷◌, ◌++◌, map,
  Bytes, length, get_or, drop, ltb, ◌==◌, if◌then◌else◌, Method, ok, err, and_then, within,
  external, Dict, lookup, insert, is_some, split_pmt, incomplete_pmt, bad_pmt_pointer,
  several_pmt_sections, pmt_unresolved,
}
use mpegenc.Astits.{Packet}
use mpegenc.Astits.Tables.{PsiSection, Tables}
use mpegenc.Pmt.{ElementaryStream, Patch}
use mpegenc.Packets.Pmt.{PmtCollector, new_pmt_collector}
use mpegenc.Packets.Pmt
use mpegenc.Remux.Media.{supported_media_type}
use mpegenc.Output.Aligner.{CompletedSlot}

pub record PendingPmt (AF : Type 0) : Type 0 where
  pub token : ℕ
  pub packet : Packet AF
  pub section : PsiSection

-- A nil patch in the map is `none`. The callback `complete` is a parameter of the methods.
pub record PmtTransformer (AF : Type 0) : Type 0 where
  pub collector : PmtCollector
  pub input_encrypted : Bool
  pub patches : Dict (Option Patch)
  pub pending : List (PendingPmt AF)
  pub initialized : Bool

unfoldable pub new_pmt_transformer : {AF : Type 0} → Bool → PmtTransformer AF
unfolding new_pmt_collector
new_pmt_transformer input_encrypted = record {
  collector = new_pmt_collector 1;
  input_encrypted = input_encrypted;
  patches = [];
  pending = [];
  initialized = false;
}

-- `section.Syntax.Data.PMT.ElementaryStreams`
abbrev pub streams_of : PsiSection → List ElementaryStream
streams_of s = elim s.syntax [
  | none ↦ []
  | some x ↦ elim x.body [
    | none ↦ []
    | some b ↦ elim b.pmt [ none ↦ [] | some m ↦ m.elementary_streams ]
  ]
]

abbrev on_streams : (ElementaryStream → ElementaryStream) → PsiSection → PsiSection
on_streams f s = record s {
  syntax = elim s.syntax [
    | none ↦ none
    | some x ↦ some (record x {
      body = elim x.body [
        | none ↦ none
        | some b ↦ some (record b {
          pmt = elim b.pmt [
            | none ↦ none
            | some m ↦ some (record m { elementary_streams = map f m.elementary_streams })
          ];
        })
      ];
    })
  ];
}

-- `VersionNumber = (VersionNumber + 1) & 0x1F`
abbrev bump_version : PsiSection → PsiSection
bump_version s = record s {
  syntax = elim s.syntax [
    | none ↦ none
    | some x ↦ some (record x {
      head = elim x.head [
        | none ↦ none
        | some h ↦ some (record h { version_number = (h.version_number + 1) % 32 })
      ];
    })
  ];
}

-- `for _, patch := range p.patches { if patch == nil { return nil } }`
abbrev pub all_signalled : Dict (Option Patch) → Bool
all_signalled [] = true
all_signalled ((pid, p) ∷ ps) = is_some p && all_signalled ps

-- The patch of an entry, once all patches are there: an entry with no key stays as it is.
abbrev pub patch_stream : Dict (Option Patch) → ElementaryStream → ElementaryStream
patch_stream patches s = elim (lookup s.elementary_pid patches) [
  | none ↦ s
  | some none ↦ s
  | some (some patch) ↦ patch s
]

-- The section of a pending PMT as it is packetized: its entries patched and, if a stream is supported
-- at all, a new version.
abbrev pub patch_section : Dict (Option Patch) → PsiSection → PsiSection
patch_section patches s =
    let s' = on_streams (patch_stream patches) s in
    if ltb 0 (length patches) then bump_version s' else s'

-- The keys of the supported streams, nil where they are new.
abbrev pub add_streams : Bool → List ElementaryStream → Dict (Option Patch) → Dict (Option Patch)
add_streams encrypted [] patches = patches
add_streams encrypted (s ∷ ss) patches = add_streams encrypted ss (
    if supported_media_type s.stream_type encrypted
      && not (is_some (lookup s.elementary_pid patches))
    then insert s.elementary_pid none patches
    else patches)

-- The slice of no entries is nil, since the library appends to a nil slice.
abbrev pub non_nil : List ElementaryStream → Option (List ElementaryStream)
non_nil [] = none
non_nil (s ∷ ss) = some (s ∷ ss)

-- `for _, b := range … { if b != 0xFF { return error } }`
abbrev pub all_stuffing : Bytes → Bool
all_stuffing [] = true
all_stuffing (b ∷ bs) = b == 0xFF && all_stuffing bs

-- `packetizer` errors
abbrev pub packetize_failed : ℕ
packetize_failed = 2

module _ {AF : Type 0} (lib : Tables AF) where
  pub collect_pmt : Packet AF → Method (PmtTransformer AF) (Option PsiSection)
  unfolding Pmt.consume
  collect_pmt packet p =
      let payload = packet.payload in
      let section_length = get_or payload 2 0 % 16 * 256 + get_or payload 3 0 in
      let section_end = 4 + section_length in
      if not packet.head.has_payload
      then ok none p
      else if not packet.head.payload_unit_start
      then err split_pmt p
      else if ltb (length payload) 4
      then err incomplete_pmt p
      else if not (get_or payload 0 0 == 0)
      then err bad_pmt_pointer p
      else if ltb (length payload) section_end
      then err split_pmt p
      else if not (all_stuffing (drop section_end payload))
      then err several_pmt_sections p
      else within (λ p c. record p { collector = c }) p
          (Pmt.consume lib packet.head.payload_unit_start payload p.collector)

  module _ {C : Type 0} (complete : CompletedSlot AF → Method C (Unit {0})) where
    abbrev pub Completing : Type 0 → Type 0
    Completing A = Method (PmtTransformer AF × C) A

    -- The packet that a pending PMT becomes, with its section patched.
    abbrev pub output_packet : Dict (Option Patch) → PendingPmt AF → Option (Packet AF)
    output_packet patches q =
        if ltb 0 (length patches)
        then lib.packetize q.packet (patch_section patches q.section)
        else some q.packet

    -- The loop over the pending PMTs. The sections are patched in place, so that after an error the
    -- ones before are left patched too; `done` holds those.
    complete_loop : List (PendingPmt AF) → List (PendingPmt AF) → Completing (Unit {0})
    complete_loop done [] (p, c) = ok tt (record p { pending = [] }, c)
    complete_loop done (q ∷ qs) (p, c) =
        let q' = record q { section = patch_section p.patches q.section } in
        elim (output_packet p.patches q) [
          | none ↦ err (external packetize_failed) (record p { pending = done ++ q' ∷ qs }, c)
          | some packet ↦ elim (complete (record { token = q.token; packets = packet ∷ [] }) c) [
            | err e c' ↦ err e (record p { pending = done ++ q' ∷ qs }, c')
            | ok _ c' ↦ complete_loop (done ++ q' ∷ []) qs (p, c')
          ]
        ]

    pub complete_ready : Completing (Unit {0})
    unfolding complete_loop
    complete_ready (p, c) =
        if not (all_signalled p.patches) then ok tt (p, c) else complete_loop [] p.pending (p, c)

    -- `Signal(pid)`, called with a patch.
    unfoldable pub signal : ℕ → Patch → Completing (Unit {0})
    unfolding complete_ready
    signal pid patch (p, c) =
        complete_ready (record p { patches = insert pid (some patch) p.patches }, c)

    -- `if !p.initialized { … }`
    pub initialize : List ElementaryStream → PmtTransformer AF → PmtTransformer AF
    initialize streams p = if p.initialized then p else record p {
      patches = add_streams p.input_encrypted streams p.patches;
      initialized = true;
    }

    -- The part of `Consume` behind `collectPMT`. The entries that are returned are those of the
    -- section, patched in place if the PMT went out at once.
    queue_section : ℕ → Packet AF → PsiSection → Completing (Option (List ElementaryStream))
    unfolding complete_ready initialize
    queue_section token packet section (p, c) =
        let streams = streams_of section in
        let p1 = initialize streams p in
        let q : PendingPmt AF = record { token = token; packet = packet; section = section } in
        and_then (complete_ready (record p1 { pending = p1.pending ++ q ∷ [] }, c)) (λ _ s.
          ok
            (non_nil
              (if all_signalled p1.patches then map (patch_stream p1.patches) streams else streams))
            s)

    -- `none` is a nil slice: the packet holds no PMT of the program, or one without entries.
    unfoldable pub consume : ℕ → Packet AF → Completing (Option (List ElementaryStream))
    unfolding collect_pmt queue_section
    consume token packet (p, c) = elim (collect_pmt packet p) [
      | err e p' ↦ err e (p', c)
      | ok none p' ↦ elim (complete (record { token = token; packets = packet ∷ [] }) c) [
        | err e c' ↦ err e (p', c')
        | ok _ c' ↦ ok none (p', c')
      ]
      | ok (some section) p' ↦ queue_section token packet section (p', c)
    ]

  unfoldable pub flush : Method (PmtTransformer AF) (Unit {0})
  flush p = if not (length p.pending == 0) then err pmt_unresolved p else ok tt p
