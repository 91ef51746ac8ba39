-- ===== src/Memory/Process.antt =====
-- memoria/storage/storage.go: CreateProcess, GetInstruction and DeleteProcess.
use tp_ssoo_1c.Prelude.{
  ℕ, suc, Bool, false, List, [], ◌∷◌, ◌++◌, none, some, ltb, ◌==◌, if◌then◌else◌, length, get_elem?,
}
use tp_ssoo_1c.Prelude.Int.{ℤ, pos, negsuc, ltb_ℤ}
use tp_ssoo_1c.Prelude.Exec.{
  Outcome, ok, err, panic, ◌>>=◌, ◌>>◌, return, throw, crash, get_state, modify, fail_if,
}
use tp_ssoo_1c.Utils.Text.{Text, split}
use tp_ssoo_1c.Utils.Codeutils.{Instruction, opcode_from_string}
use tp_ssoo_1c.Memory.State.{
  ProcessData, Error, M, no_metrics, get_data_by_pid, count_metric, process_does_not_exist,
  out_of_scope_program_counter, not_enough_user_memory, more_arguments_than_possible,
  opcode_not_recognized, could_not_find_pid_to_delete,
}
use tp_ssoo_1c.Memory.Frames.{allocate_memory, deallocate_memory}

-- `targetProcess.code[pc]`: a negative index panics.
abbrev pub instruction_at : ℕ → List Instruction → ℤ → M Instruction
instruction_at pid code (negsuc n) = do
  count_metric pid (λ k. record k { instructions_requested = suc k.instructions_requested })
  crash
instruction_at pid code (pos pc) = elim (get_elem? code pc) [
  | none ↦ throw out_of_scope_program_counter
  | some i ↦ do
    count_metric pid (λ k. record k { instructions_requested = suc k.instructions_requested })
    return i
]

unfoldable pub get_instruction : ℕ → ℤ → M Instruction
get_instruction pid pc = do
  m ← get_state
  elim (get_data_by_pid pid m) [
    | none ↦ throw process_does_not_exist
    | some p ↦ instruction_at pid p.code pc
  ]

abbrev pub instruction_of_parts : List Text → Outcome Error Instruction
instruction_of_parts [] = err opcode_not_recognized
instruction_of_parts (name ∷ args) = elim (opcode_from_string name) [
  | none ↦ err opcode_not_recognized
  | some op ↦ ok (record { opcode = op; args = args })
]

-- The body of the scanner's loop, for one line.
unfoldable pub parse_line : Text → Outcome Error Instruction
unfolding split opcode_from_string
parse_line line =
    if ltb 3 (length (split b' ' line))
    then err more_arguments_than_possible
    else instruction_of_parts (split b' ' line)

abbrev pub with_instruction :
    Outcome Error Instruction → Outcome Error (List Instruction) → Outcome Error (List Instruction)
with_instruction (ok i) (ok rest) = ok (i ∷ rest)
with_instruction (ok i) (err e) = err e
with_instruction (ok i) panic = panic
with_instruction (err e) rest = err e
with_instruction panic rest = panic

-- The loop over the lines that the scanner yields: the first bad line decides.
unfoldable pub parse_code : List Text → Outcome Error (List Instruction)
unfolding parse_line
parse_code [] = ok []
parse_code (line ∷ lines) = with_instruction (parse_line line) (parse_code lines)

abbrev is_zero : ℤ → Bool
is_zero (pos n) = n == 0
is_zero (negsuc n) = false

abbrev append_process : ProcessData → M (Unit {0})
append_process p = modify (λ m. record m { system_memory = m.system_memory ++ (p ∷ []) })

-- `if memoryRequirement != 0 { … }` and the append.
abbrev install : ℕ → List Instruction → ℤ → M (Unit {0})
install pid code size = do
  bases ← if is_zero size then return [] else allocate_memory size
  append_process (record { pid = pid; code = code; page_bases = bases; metrics = no_metrics })

-- The code file is given by the lines that `bufio.Scanner` yields for it.
unfoldable pub create_process : ℕ → List Text → ℤ → M (Unit {0})
create_process pid lines size = do
  m ← get_state
  fail_if (ltb_ℤ m.remaining_memory size) not_enough_user_memory
  elim (parse_code lines) [ ok code ↦ install pid code size | err e ↦ throw e | panic ↦ crash ]

abbrev pub last_of : ProcessData → List ProcessData → ProcessData
last_of p [] = p
last_of p (q ∷ qs) = last_of q qs

abbrev pub drop_last : ProcessData → List ProcessData → List ProcessData
drop_last p [] = []
drop_last p (q ∷ qs) = p ∷ drop_last q qs

-- `systemMemory[i] = systemMemory[len-1]; systemMemory = systemMemory[:len-1]` at the head's index.
abbrev pub replace_by_last : List ProcessData → List ProcessData
replace_by_last [] = []
replace_by_last (q ∷ qs) = last_of q qs ∷ drop_last q qs

-- The loop of `Deallocate`.
unfoldable pub remove_pid : ℕ → List ProcessData → List ProcessData
remove_pid pid [] = []
remove_pid pid (p ∷ ps) = if p.pid == pid then replace_by_last ps else p ∷ remove_pid pid ps

unfoldable pub deallocate : ProcessData → M (Unit {0})
unfolding remove_pid
deallocate p = do
  deallocate_memory p.pid
  modify (λ m. record m { system_memory = remove_pid p.pid m.system_memory })

unfoldable pub delete_process : ℕ → M (Unit {0})
delete_process pid = do
  m ← get_state
  elim (get_data_by_pid pid m) [ none ↦ throw could_not_find_pid_to_delete | some p ↦ deallocate p ]
