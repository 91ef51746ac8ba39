-- ===== src/Utils/Codeutils.antt =====
-- utils/codeutils/codeutils.go: the opcodes and their names.
use tp_ssoo_1c.Prelude.{List, [], ◌∷◌, Option, none, some, if◌then◌else◌}
use tp_ssoo_1c.Utils.Text.{Text, codes, text_eq}

pub data Opcode : Type 0 where
  noop exit write read goto io init_proc dump_memory : Opcode

pub record Instruction : Type 0 where
  pub opcode : Opcode
  pub args : List Text

abbrev pub opcode_string : Opcode → Text
opcode_string noop = codes "NOOP"
opcode_string exit = codes "EXIT"
opcode_string write = codes "WRITE"
opcode_string read = codes "READ"
opcode_string goto = codes "GOTO"
opcode_string io = codes "IO"
opcode_string init_proc = codes "INIT_PROC"
opcode_string dump_memory = codes "DUMP_MEMORY"

abbrev pub opcodes : List Opcode
opcodes = noop ∷ exit ∷ write ∷ read ∷ goto ∷ io ∷ init_proc ∷ dump_memory ∷ []

-- The loop over `OpcodeStrings`, in some order of its keys.
unfoldable pub find_opcode : Text → List Opcode → Option Opcode
find_opcode str [] = none
find_opcode str (key ∷ keys) =
    if text_eq (opcode_string key) str then some key else find_opcode str keys

-- `none` is the -1 of the source.
unfoldable pub opcode_from_string : Text → Option Opcode
unfolding find_opcode
opcode_from_string str = find_opcode str opcodes
