-- ===== src/Memory/Dump.antt =====
-- memoria/storage/storage.go: Memory_Dump, as the text of its file. The file can be created.
use tp_ssoo_1c.Prelude.{
  ℕ, zero, suc, ◌+◌, ◌-◌, ◌/◌, ◌%◌, List, [], ◌∷◌, ◌++◌, none, some, ltb, ◌==◌, if◌then◌else◌,
  length, replicate, not, ◌&&◌,
}
use tp_ssoo_1c.Prelude.Exec.{
  ok, err, panic, ◌>>=◌, ◌>>◌, return, throw, crash, get_state, crash_if, Outcome,
}
use tp_ssoo_1c.Utils.Text.{Text, codes, itoa, join}
use tp_ssoo_1c.Utils.Codeutils.{Instruction, opcode_string}
use tp_ssoo_1c.Memory.State.{ProcessData, Error, M, get_data_by_pid, could_not_find_process}
use tp_ssoo_1c.Memory.Pages.{page_to_byte_array}

-- `string(val)` of a byte: its UTF-8 encoding; a zero is shown as U+02FD.
abbrev pub show_byte : ℕ → Text
show_byte val =
    if val == 0
    then 203 ∷ 189 ∷ []
    else if ltb val 128
    then val ∷ []
    else (192 + val / 64) ∷ (128 + val % 64) ∷ []

abbrev pub show_bytes : List ℕ → Text
show_bytes [] = []
show_bytes (b ∷ bs) = show_byte b ++ show_bytes bs

-- The only error is that of a base that is not valid.
abbrev pub shown : Outcome Error (List ℕ) → M Text
shown (ok page) = return (b'[' ∷ (show_bytes page ++ (b']' ∷ b'\n' ∷ [])))
shown (err e) = return (codes "Error reading page. page base not valid")
shown panic = crash

-- `pageToString`
unfoldable pub page_to_string : ℕ → M Text
unfolding page_to_byte_array
page_to_string base m = shown (page_to_byte_array base m).0 m

-- `fmt.Sprint(base/PageSize) + ", "`
abbrev show_bases : ℕ → List ℕ → Text
show_bases size [] = []
show_bases size (b ∷ bs) = itoa (b / size) ++ (b',' ∷ b' ' ∷ show_bases size bs)

-- `msg[:len(msg)-2]`
abbrev drop_two : Text → Text
drop_two [] = []
drop_two (c ∷ []) = []
drop_two (c ∷ d ∷ []) = []
drop_two (c ∷ d ∷ e ∷ s) = c ∷ drop_two (d ∷ e ∷ s)

abbrev show_instruction : Instruction → Text
show_instruction i =
    codes "|    "
    ++ (opcode_string i.opcode ++ (b' ' ∷ b'[' ∷ (join b' ' i.args ++ (b']' ∷ b'\n' ∷ []))))

-- The loop over the code: eleven instructions at most.
abbrev show_code : ℕ → List Instruction → Text
show_code left [] = []
show_code zero (i ∷ is) = show_instruction i ++ codes "|    (...)\n"
show_code (suc left) (i ∷ is) = show_instruction i ++ show_code left is

-- `process_data.String`; the division by the page size is reached with a page only.
unfoldable pub string : ℕ → ProcessData → Text
string size p =
    drop_two (
      codes "|  PID: "
      ++ (itoa p.pid ++ (codes "\n|\n|  Reserved pages: [" ++ show_bases size p.page_bases)))
    ++ (codes "]\n|\n|  Code ("
        ++ (itoa (length p.code) ++ (codes " instructions)\n" ++ show_code 10 p.code)))

-- `strings.Repeat(" ", max(0, width-len(s))) + s`
abbrev pad : ℕ → Text → Text
pad width s = replicate (width - length s) b' ' ++ s

-- The loop over the pages, from index `i` on.
unfoldable pub dump_pages : ℕ → List ℕ → M Text
unfolding page_to_string
dump_pages i [] = return []
dump_pages i (base ∷ bases) = do
  page ← page_to_string base
  rest ← dump_pages (suc i) bases
  return (
      codes "| "
      ++ (pad 5 (itoa i)
          ++ (codes " | " ++ (pad 6 (itoa base) ++ (codes " | " ++ (page ++ rest))))))

abbrev pub dump_process : ProcessData → M Text
dump_process p = do
  m ← get_state
  crash_if ((m.pagination.page_size == 0) && not (length p.page_bases == 0))
  pages ← dump_pages 0 p.page_bases
  return (
      codes "---------------( Process  Data )---------------\n"
      ++ (string m.pagination.page_size p
          ++ (codes "---------------(     Pages     )---------------\n| Index |  Base  | Content\n"
              ++ pages)))

unfoldable pub memory_dump : ℕ → M Text
unfolding dump_pages string
memory_dump pid = do
  m ← get_state
  elim (get_data_by_pid pid m) [ none ↦ throw could_not_find_process | some p ↦ dump_process p ]
