-- ===== src/Astits/Tables.antt =====
-- The PSI sections of internal/go-astits, as far as the code reads them, and the operations on them,
-- which are parameters of the model.
use mpegenc.Common.{ℕ, Bool, Option, List, Bytes}
use mpegenc.Astits.{Packet}
use mpegenc.Pmt.{ElementaryStream}

pub record PatProgram : Type 0 where
  pub program_number : ℕ
  pub program_map_id : ℕ

pub record PmtBody : Type 0 where
  pub program_number : ℕ
  pub elementary_streams : List ElementaryStream

-- `PSISectionSyntaxHeader`
pub record SyntaxHeader : Type 0 where
  pub current_next : Bool
  pub version_number : ℕ

-- `PSISectionSyntaxData`: the programs of a PAT and a PMT, each nil or not.
pub record SyntaxBody : Type 0 where
  pub pat : Option (List PatProgram)
  pub pmt : Option PmtBody

-- `PSISectionSyntax`
pub record Syntax : Type 0 where
  pub head : Option SyntaxHeader
  pub body : Option SyntaxBody

-- `PSISection`; `others` stands for the fields that the code does not name.
pub record PsiSection : Type 0 where
  pub table_id : ℕ
  pub syntax : Option Syntax
  pub others : ℕ

pub record Tables (AF : Type 0) : Type 0 where
  -- `ParsePSISection`; `none` is its error
  pub parse_section : Bytes → Option PsiSection
  -- `PacketizePSISection`: the packet with the section for its payload
  pub packetize : Packet AF → PsiSection → Option (Packet AF)

abbrev pub pat_pid : ℕ
pat_pid = 0

abbrev pub pat_table_id : ℕ
pat_table_id = 0

abbrev pub pmt_table_id : ℕ
pmt_table_id = 2
