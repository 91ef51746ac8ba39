-- ===== src/Memory/Ownership/Create.antt =====
-- memoria/storage/storage.go: CreateProcess gives a process frames that nobody holds.
use tp_ssoo_1c.Prelude.{
  ℕ, ◌*◌, ◌≤◌, ◌<◌, ◌≡◌, ◌≢◌, ◌⊎◌, inl, inr, refl, sym, subst, List, [], ◌∷◌, ◌++◌, length, arith,
  count, count-append, Option-cases,
}
use tp_ssoo_1c.Prelude.Exec.{Outcome, ok, err, panic}
use tp_ssoo_1c.Prelude.Int.{pos}
use tp_ssoo_1c.Utils.Text.{Text, split}
use tp_ssoo_1c.Prelude.{if-intro, ltb}
use tp_ssoo_1c.Utils.Codeutils.{opcode_from_string}
use tp_ssoo_1c.Memory.Process.{instruction_of_parts}
use tp_ssoo_1c.Memory.State.{more_arguments_than_possible}
use tp_ssoo_1c.Utils.Codeutils.{Instruction}
use tp_ssoo_1c.Memory.State.{Memory, ProcessData, Error, not_enough_user_memory, no_metrics}
use tp_ssoo_1c.Memory.Frames.{allocate_memory}
use tp_ssoo_1c.Memory.Frames.Bits.{free}
use tp_ssoo_1c.Memory.Frames.Allocate.{FramesOk, allocate_memory-Allocated, pages_for}
use tp_ssoo_1c.Memory.Process.{parse_line, parse_code, create_process}
use tp_ssoo_1c.Memory.Ownership.{held_by, StorageOk, FramesOk-cong, FramesOk-system, held_by-append}

-- The memory with one more process.
abbrev with_process : ℕ → List Instruction → List ℕ → Memory → Memory
with_process pid code bases m = record m {
  system_memory =
      m.system_memory
      ++ (record { pid = pid; code = code; page_bases = bases; metrics = no_metrics } ∷ []);
}

-- What `CreateProcess` does with `s` bytes: it refuses and changes nothing, or it adds the process
-- with as many frames as the bytes need.
pub data Created (pid s : ℕ) (m : Memory) : Outcome Error (Unit {0}) × Memory → Type 0 where
  refused : (e : Error) → Created pid s m (err e, m)
  created :
      (code : List Instruction) (bases : List ℕ) (m' : Memory)
      → length bases ≡ pages_for s m.pagination.page_size
      → m'.system_memory ≡ m.system_memory
      → StorageOk (with_process pid code bases m')
      → Created pid s m (ok tt, with_process pid code bases m')

with_process-StorageOk :
    (pid : ℕ) (code : List Instruction) (bases : List ℕ) (m : Memory)
    → FramesOk (bases ++ held_by m.system_memory) m
    → StorageOk (with_process pid code bases m)
unfolding count
with_process-StorageOk pid code bases m k =
    let p : ProcessData = record {
      pid = pid;
      code = code;
      page_bases = bases;
      metrics = no_metrics;
    } in
    FramesOk-system (held_by (m.system_memory ++ (p ∷ []))) m (m.system_memory ++ (p ∷ [])) (
      FramesOk-cong (bases ++ held_by m.system_memory) (held_by (m.system_memory ++ (p ∷ []))) m
        (λ b. omega (
          arith,
          held_by-append b m.system_memory (p ∷ []),
          count-append b bases (held_by m.system_memory),
          count-append b bases [],
        ))
        k)

instruction_of_parts-panic : (parts : List Text) → instruction_of_parts parts ≢ panic
instruction_of_parts-panic [] h = ground arith
instruction_of_parts-panic (name ∷ args) h = elim (Option-cases (opcode_from_string name)) [
  | inl e ↦ ground arith
  | inr (op, e) ↦ ground arith
]

refusal-panic : ◌≢◌ {A = Outcome Error Instruction} (err more_arguments_than_possible) panic
refusal-panic h = ground arith

parse_line-panic : (line : Text) → parse_line line ≢ panic
unfolding parse_line
parse_line-panic line =
    if-intro (λ (o : Outcome Error Instruction). o ≢ panic) (ltb 3 (length (split b' ' line)))
      (err more_arguments_than_possible) (instruction_of_parts (split b' ' line)) refusal-panic
      (instruction_of_parts-panic (split b' ' line))

parse_code-panic : (lines : List Text) → parse_code lines ≢ panic
unfolding parse_code
parse_code-panic [] h = ground arith
parse_code-panic (line ∷ lines) h = ground (arith, parse_line-panic line, parse_code-panic lines)

-- The code is read, or a line is refused: parsing does not panic.
parse_code-cases :
    (lines : List Text)
    → ((code : List Instruction) × (parse_code lines ≡ ok code))
      ⊎ ((e : Error) × (parse_code lines ≡ err e))
parse_code-cases lines = of_outcome (parse_code lines) refl
  where
    of_outcome :
        (o : Outcome Error (List Instruction))
        → parse_code lines ≡ o
        → ((code : List Instruction) × (parse_code lines ≡ ok code))
          ⊎ ((e : Error) × (parse_code lines ≡ err e))
    of_outcome (ok code) h = inl (code, h)
    of_outcome (err e) h = inr (e, h)
    of_outcome panic h = absurd (parse_code-panic lines h)

create_refused :
    (pid s r : ℕ) (lines : List Text) (m : Memory)
    → m.remaining_memory ≡ pos r
    → r < s
    → create_process pid lines (pos s) m ≡ (err not_enough_user_memory, m)
unfolding create_process
create_refused pid s r lines m e l = ground arith

create_unparsed :
    (pid s r : ℕ) (lines : List Text) (e : Error) (m : Memory)
    → m.remaining_memory ≡ pos r
    → s ≤ r
    → parse_code lines ≡ err e
    → create_process pid lines (pos s) m ≡ (err e, m)
unfolding create_process
create_unparsed pid s r lines e m h l bad = ground arith

create_empty :
    (pid r : ℕ) (lines : List Text) (code : List Instruction) (m : Memory)
    → m.remaining_memory ≡ pos r
    → parse_code lines ≡ ok code
    → create_process pid lines (pos 0) m ≡ (ok tt, with_process pid code [] m)
unfolding create_process
create_empty pid r lines code m h good = ground arith

create_run :
    (pid s r : ℕ) (lines : List Text) (code : List Instruction) (bases : List ℕ) (m m' : Memory)
    → m.remaining_memory ≡ pos r
    → 0 < s
    → s ≤ r
    → parse_code lines ≡ ok code
    → allocate_memory (pos s) m ≡ (ok bases, m')
    → create_process pid lines (pos s) m ≡ (ok tt, with_process pid code bases m')
unfolding create_process
create_run pid s r lines code bases m m' h p l good run = ground arith

-- The bytes that are asked for are beyond the free frames, or within them.
bytes-cases : (r s : ℕ) → (r < s) ⊎ ((s ≡ 0) ⊎ ((0 < s) × (s ≤ r)))
bytes-cases r s = grind arith

allocated-Created :
    (pid s : ℕ) (lines : List Text) (code : List Instruction) (m : Memory)
    → StorageOk m
    → 0 < s
    → s ≤ m.pagination.page_size * free m.reservation_bits
    → parse_code lines ≡ ok code
    → Created pid s m (create_process pid lines (pos s) m)
allocated-Created pid s lines code m k p l good =
    let a = allocate_memory-Allocated s (held_by m.system_memory) m k p l in
    let m' : Memory = record m { remaining_memory = a.left; reservation_bits = a.bits } in
    rw (create_run pid s _ lines code a.taken m m' k.remaining p l good a.returned)
      (created code a.taken m' a.enough refl (with_process-StorageOk pid code a.taken m' a.kept))

no_pages : (d : ℕ) → 0 < d → pages_for 0 d ≡ 0
no_pages d h = grind arith

empty-Created :
    (pid : ℕ) (lines : List Text) (code : List Instruction) (m : Memory)
    → StorageOk m
    → parse_code lines ≡ ok code
    → Created pid 0 m (create_process pid lines (pos 0) m)
empty-Created pid lines code m k good =
    rw (create_empty pid _ lines code m k.remaining good) (
      created code [] m (sym (no_pages _ k.size_pos)) refl (with_process-StorageOk pid code [] m k))

-- If exactly the frames of the processes in memory are held, `CreateProcess` with `s` bytes, zero
-- included, either returns an error and changes nothing, or returns none and adds the process
-- with as many frames as the bytes need, after which exactly the frames of the processes are held
-- again. It never panics.
pub create_process-Created :
    (pid s : ℕ) (lines : List Text) (m : Memory)
    → StorageOk m
    → Created pid s m (create_process pid lines (pos s) m)
create_process-Created pid s lines m k =
    elim (bytes-cases (m.pagination.page_size * free m.reservation_bits) s) [
      | inl l ↦ rw (create_refused pid s _ lines m k.remaining l) (refused not_enough_user_memory)
      | inr l ↦ elim (parse_code-cases lines) [
        | inr (e, bad) ↦
            rw (create_unparsed pid s _ lines e m k.remaining (grind arith) bad) (refused e)
        | inl (code, good) ↦ elim l [
          | inl z ↦
              subst (λ (x : ℕ). Created pid x m (create_process pid lines (pos x) m)) (sym z)
                (empty-Created pid lines code m k good)
          | inr (p, le) ↦ allocated-Created pid s lines code m k p le good
        ]
      ]
    ]
