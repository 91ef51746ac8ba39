-- ===== src/Memory/Swap.antt =====
-- memoria/storage/storage.go: the swap file, SuspendProcess and UnSuspendProcess. The file system
-- works: a file that is there can be opened, and a write succeeds.
pub mod Blocks
pub mod Loading
pub mod Restore
pub mod Written
pub mod Unsuspension
pub mod Saving
use tp_ssoo_1c.Prelude.{
  ℕ, zero, suc, ◌+◌, ◌*◌, ◌%◌, Bool, true, false, List, [], ◌∷◌, ◌++◌, Option, none, some, ltb, leb,
  ◌==◌, if◌then◌else◌, length, set, map, ◌-◌, replicate,
}
use tp_ssoo_1c.Prelude.Int.{ℤ, pos, negsuc}
use tp_ssoo_1c.Prelude.Exec.{
  Outcome, ok, err, panic, ◌>>=◌, ◌>>◌, return, throw, crash, get_state, modify,
}
use tp_ssoo_1c.Utils.Text.{Text, split, join, itoa, atoi, atoi_or_zero}
use tp_ssoo_1c.Memory.State.{
  ProcessData, Error, M, get_data_by_pid, count_metric, update_process, could_not_find_process,
  not_in_swapfile, io_eof, no_swapfile, not_a_number,
}
use tp_ssoo_1c.Memory.Frames.{allocate_memory, deallocate_memory, scale}
use tp_ssoo_1c.Memory.Pages.{get_page, write_page}

-- `fmt.Sprint(bytes)`: the numbers in brackets, with spaces between them.
unfoldable pub print_page : List ℕ → Text
print_page bytes = b'[' ∷ (join b' ' (map itoa bytes) ++ (b']' ∷ []))

-- `ReadString(delim)`: the text up to the delimiter and with it, and the rest; `none` is `io.EOF`.
abbrev extend : ℕ → Option (Text × Text) → Option (Text × Text)
extend c none = none
extend c (some (s, rest)) = some (c ∷ s, rest)

unfoldable pub read_string : ℕ → Text → Option (Text × Text)
read_string delim [] = none
read_string delim (c ∷ s) = if c == delim then some (c ∷ [], s) else extend c (read_string delim s)

-- `s[:len(s)-1]`
unfoldable pub drop_end : Text → Text
drop_end [] = []
drop_end (c ∷ []) = []
drop_end (c ∷ d ∷ s) = c ∷ drop_end (d ∷ s)

abbrev pub with_page : List ℕ → Outcome Error (Option Text) → Outcome Error (Option Text)
with_page bytes (ok none) = ok none
with_page bytes (ok (some text)) = ok (some (print_page bytes ++ (b'\n' ∷ text)))
with_page bytes (err e) = err e
with_page bytes panic = panic

-- The loop of `formatSwapData` over the pages; a page that cannot be read makes the text empty.
unfoldable pub format_pages : ℕ → List ℕ → M (Option Text)
format_pages pid [] m = (ok (some []), m)
format_pages pid (base ∷ bases) m =
    let rest = format_pages pid bases (get_page pid base m).1 in
    elim (get_page pid base m).0 [
      | ok bytes ↦ (with_page bytes rest.0, rest.1)
      | err e ↦ (ok none, (get_page pid base m).1)
      | panic ↦ (panic, (get_page pid base m).1)
    ]

abbrev pub block_of : ProcessData → Option Text → Text
block_of p none = []
block_of p (some text) =
    itoa p.pid ++ (b'|' ∷ (itoa (length p.page_bases) ++ (b'\n' ∷ (text ++ (b'~' ∷ b'\n' ∷ [])))))

unfoldable pub format_swap_data : ProcessData → M Text
format_swap_data p = do pages ← format_pages p.pid p.page_bases; return (block_of p pages)

abbrev pub contents_of : Option Text → Text
contents_of none = []
contents_of (some text) = text

abbrev pub append_block : Text → M (Unit {0})
append_block block = modify (λ m. record m { swap_file = some (contents_of m.swap_file ++ block) })

-- `addToSwap`: the file is created where there is none.
unfoldable pub add_to_swap : ProcessData → M (Unit {0})
add_to_swap p = do block ← format_swap_data p; append_block block

-- `Discard(1)`
abbrev discard : Text → Option Text
discard [] = none
discard (c ∷ s) = some s

abbrev is_pid : ℤ → ℕ → Bool
is_pid (pos n) pid = n == pid
is_pid (negsuc n) pid = false

-- A block of the swap file: its PID, its text from behind the bar up to the tilde, and the rest.
abbrev pub read_block : Text → Outcome Error (ℤ × Text × Text)
read_block text = elim (read_string b'|' text) [
  | none ↦ err io_eof
  | some (header, rest) ↦ elim (atoi (drop_end header)) [
    | none ↦ err not_a_number
    | some h_pid ↦ elim (read_string b'~' rest) [
      | none ↦ err io_eof
      | some (block, rest) ↦ ok (h_pid, block, rest)
    ]
  ]
]

-- The loop of `getFromSwap`, on fuel: each round reads at least the bar and the tilde.
unfoldable pub find_block : ℕ → ℕ → Text → Outcome Error Text
find_block zero pid text = err io_eof
find_block (suc fuel) pid text = elim (read_block text) [
  | err e ↦ err e
  | panic ↦ panic
  | ok (h_pid, block, rest) ↦ elim (is_pid h_pid pid) [
    | true ↦ ok block
    | false ↦ elim (discard rest) [ none ↦ err io_eof | some rest ↦ find_block fuel pid rest ]
  ]
]

unfoldable pub get_from_swap : ℕ → M Text
get_from_swap pid m = elim m.swap_file [
  | none ↦ (err no_swapfile, m)
  | some text ↦ (find_block (suc (length text)) pid text, m)
]

abbrev pub prefix_with : Text → Outcome Error Text → Outcome Error Text
prefix_with s (ok text) = ok (s ++ text)
prefix_with s (err e) = err e
prefix_with s panic = panic

-- The text of a block that is copied, header and all.
abbrev pub copied : Text → Text → Text
copied header block = header ++ (block ++ (b'\n' ∷ []))

-- The loop of `removeFromSwap`, on fuel: the text of the new file. `Discard` past the end does
-- nothing here.
abbrev drop_one : Text → Text
drop_one [] = []
drop_one (c ∷ s) = s

unfoldable pub drop_block : ℕ → ℕ → Text → Outcome Error Text
drop_block zero pid text = err io_eof
drop_block (suc fuel) pid text = elim (read_string b'|' text) [
  | none ↦ err io_eof
  | some (header, rest) ↦ elim (atoi (drop_end header)) [
    | none ↦ err not_a_number
    | some h_pid ↦ elim (read_string b'~' rest) [
      | none ↦ err io_eof
      | some (block, rest) ↦ elim (is_pid h_pid pid) [
        | true ↦ ok (drop_one rest)
        | false ↦ prefix_with (copied header block) (drop_block fuel pid (drop_one rest))
      ]
    ]
  ]
]

unfoldable pub remove_from_swap : ℕ → M (Unit {0})
remove_from_swap pid m = elim m.swap_file [
  | none ↦ (err no_swapfile, m)
  | some text ↦ elim (drop_block (suc (length text)) pid text) [
    | ok text' ↦ (ok tt, record m { swap_file = some text' })
    | err e ↦ (err e, m)
    | panic ↦ (panic, m)
  ]
]

abbrev count_suspension : ℕ → M (Unit {0})
count_suspension pid = count_metric pid (λ k. record k { suspensions = suc k.suspensions })

-- The part of `SuspendProcess` below the test for no pages. The page bases are left as they are.
abbrev pub swap_out : ProcessData → M (Unit {0})
swap_out p = do add_to_swap p; deallocate_memory p.pid; count_suspension p.pid

unfoldable pub suspend_process : ℕ → M (Unit {0})
suspend_process pid = do
  m ← get_state
  elim (get_data_by_pid pid m) [
    | none ↦ throw could_not_find_process
    | some p ↦ if length p.page_bases == 0 then return tt else swap_out p
  ]

-- `byte(n)`
abbrev pub to_byte : ℤ → ℕ
to_byte (pos n) = n % 256
to_byte (negsuc n) = (255 + 256 * n - n) % 256

-- The loop that writes the numbers of a page into the buffer: an index past its end panics.
unfoldable pub fill_bytes : ℕ → List Text → List ℕ → Outcome Error (List ℕ)
fill_bytes i [] bytes = ok bytes
fill_bytes i (word ∷ words) bytes =
    let rest = fill_bytes (suc i) words (set bytes i (to_byte (atoi_or_zero word))) in
    if leb (length bytes) i then panic else rest

abbrev pub behind_first : Text → Text
behind_first [] = []
behind_first (c ∷ s) = s

-- The loop of `UnSuspendProcess` over the new frames; the buffer is that of the page before. A
-- missing chunk and one of less than two bytes panic, and the answer of `WritePage` is dropped.
unfoldable pub load_pages : ℕ → List ℕ → List Text → List ℕ → M (Unit {0})
load_pages pid [] chunks bytes m = (ok tt, m)
load_pages pid (base ∷ bases) [] bytes m = (panic, m)
load_pages pid (base ∷ bases) (chunk ∷ chunks) bytes m =
    let words = split b' ' (behind_first (drop_end chunk)) in
    elim (ltb (length chunk) 2) [
      | true ↦ (panic, m)
      | false ↦ elim (fill_bytes 0 words bytes) [
        | err e ↦ (err e, m)
        | panic ↦ (panic, m)
        | ok bytes' ↦ elim (write_page pid base bytes' m).0 [
          | panic ↦ (panic, (write_page pid base bytes' m).1)
          | _ ↦ load_pages pid bases chunks bytes' (write_page pid base bytes' m).1
        ]
      ]
    ]

-- An `io.EOF` of `getFromSwap` becomes a message of its own.
abbrev pub rename_eof : Outcome Error Text → Outcome Error Text
rename_eof (err io_eof) = err not_in_swapfile
rename_eof (ok text) = ok text
rename_eof (err e) = err e
rename_eof panic = panic

abbrev pub read_swap : ℕ → M Text
read_swap pid m = (rename_eof (get_from_swap pid m).0, (get_from_swap pid m).1)

abbrev pub first_chunk : List Text → Text
first_chunk [] = []
first_chunk (c ∷ cs) = c

-- `chunks[1 : len(chunks)-1]`
abbrev pub drop_last_chunk : List Text → List Text
drop_last_chunk [] = []
drop_last_chunk (c ∷ []) = []
drop_last_chunk (c ∷ d ∷ cs) = c ∷ drop_last_chunk (d ∷ cs)

abbrev pub middle_chunks : List Text → M (List Text)
middle_chunks [] = crash
middle_chunks (c ∷ []) = crash
middle_chunks (c ∷ d ∷ cs) = return (drop_last_chunk (d ∷ cs))

abbrev pub count_unsuspension : ℕ → M (Unit {0})
count_unsuspension pid = count_metric pid (λ k. record k { unsuspensions = suc k.unsuspensions })

-- The part of `UnSuspendProcess` below the allocation.
abbrev pub load_frames : ℕ → ℕ → List Text → List ℕ → M (Unit {0})
load_frames pid page_size chunks bases = do
  remove_from_swap pid
  update_process pid (λ p. record p { page_bases = bases })
  pages ← middle_chunks chunks
  load_pages pid bases pages (replicate page_size 0)
  count_unsuspension pid

abbrev pub load_chunks : ℕ → List Text → M (Unit {0})
load_chunks pid chunks = do
  m ← get_state
  bases ← allocate_memory (scale m.values.page_size (atoi_or_zero (first_chunk chunks)))
  load_frames pid m.values.page_size chunks bases

-- The part of `UnSuspendProcess` below the test for no pages.
abbrev pub swap_in : ℕ → M (Unit {0})
swap_in pid = do block ← read_swap pid; load_chunks pid (split b'\n' block)

unfoldable pub unsuspend_process : ℕ → M (Unit {0})
unsuspend_process pid = do
  m ← get_state
  elim (get_data_by_pid pid m) [
    | none ↦ throw could_not_find_process
    | some p ↦ if length p.page_bases == 0 then return tt else swap_in pid
  ]
