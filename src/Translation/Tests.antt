-- ===== src/Translation/Tests.antt =====
-- Address translation in a memory of four frames of two bytes, with two levels of two entries.
use tp_ssoo_1c.Prelude.{◌%◌, ◌^◌, ◌≡◌, refl, [], ◌∷◌, map, some, arith}
use tp_ssoo_1c.Prelude.Int.{pos}
use tp_ssoo_1c.Cpu.Address.{MemoryConf, page_digits}
use tp_ssoo_1c.Memory.State.{Memory, ProcessData, no_metrics, find_pid, get_data_by_pid}
use tp_ssoo_1c.Memory.Frames.{zero_memory}
use tp_ssoo_1c.Memory.Address.{logic_address_to_frame}
use tp_ssoo_1c.Prelude.{
  ℕ, List, Option, none, if◌then◌else◌, ◌==◌, get_elem?, length, true, false, subst, sym, ◌≢◌,
}
use tp_ssoo_1c.Prelude.Exec.{ok}
use tp_ssoo_1c.Utils.Codeutils.{Opcode}
use tp_ssoo_1c.Cpu.Address.Digits.{AllBelow, value}
use tp_ssoo_1c.Cpu.Tlb.{are_slices_equal, lru, other}
use tp_ssoo_1c.Cpu.Tlb.Eviction.{slices_eq}
use tp_ssoo_1c.Cpu.Machine.{Machine, from_logic_addr_to_string}
use tp_ssoo_1c.Cpu.Contract.{Faithful, Ready, Gives}
use tp_ssoo_1c.Cpu.Reads.{read_memory}
use tp_ssoo_1c.Cpu.Writes.{write_memory}
use tp_ssoo_1c.Cpu.Direct.{replaced, write_memory-Gives, read_memory-write_memory}
use tp_ssoo_1c.Memory.Address.{string_to_logic_address}
use tp_ssoo_1c.Translation.Texts.{string_to_logic_address-from_logic_addr_to_string}
use tp_ssoo_1c.Translation.Server.{memory_server}
use tp_ssoo_1c.Translation.Pages.{PageHeld, Tabled}
use tp_ssoo_1c.Translation.Faithful.{memory_server-Faithful}
use tp_ssoo_1c.Translation.{frame_of_page, frame-page_digits}

abbrev conf : MemoryConf
conf = record { page_size = 2; entries_per_page = 2; levels = 2 }

abbrev five : ProcessData
five = record { pid = 5; code = []; page_bases = 6 ∷ 0 ∷ 2 ∷ []; metrics = no_metrics }

abbrev memory : Memory
memory =
    record (zero_memory
      (record { memory_size = 8; page_size = 2; entries_per_page = 2; number_of_levels = 2 })) {
        pagination = record { page_size = 2; entries_per_page = 2; levels = 2 };
        system_memory = five ∷ [];
      }

five-found : get_data_by_pid 5 memory ≡ some five
unfolding find_pid
five-found = refl

frame-page_digits_example :
    (logic_address_to_frame 5 (map pos (page_digits conf 6)) memory).0
    ≡ frame_of_page five (6 % 2 ^ 2)
frame-page_digits_example =
    frame-page_digits conf memory 5 five 6 (record { entries = refl; levels = refl }) (omega arith)
      five-found

string_to_logic_address-from_logic_addr_to_string_example :
    string_to_logic_address (from_logic_addr_to_string (1 ∷ 0 ∷ [])) ≡ map pos (1 ∷ 0 ∷ [])
string_to_logic_address-from_logic_addr_to_string_example =
    string_to_logic_address-from_logic_addr_to_string (1 ∷ 0 ∷ []) (omega arith)

-- Page 1 of process 5, which is at frame 0.
abbrev at_one : ℕ → List ℕ → Option ℕ
at_one pid page =
    if pid == 5 then (if are_slices_equal page (0 ∷ 1 ∷ []) then some 0 else none) else none

abbrev table : List ℕ → ℕ → Option ℕ
table page pid = at_one pid page

abbrev bases : ℕ → List ℕ
bases pid = if pid == 5 then 6 ∷ 0 ∷ 2 ∷ [] else []

table-pid : (page : List ℕ) (pid f : ℕ) → table page pid ≡ some f → pid ≡ 5
table-pid page pid f e = ground arith

table-page :
    (page : List ℕ) (pid f : ℕ)
    → table page pid ≡ some f
    → are_slices_equal page (0 ∷ 1 ∷ []) ≡ true
table-page page pid f e = ground arith

table-frame : (page : List ℕ) (pid f : ℕ) → table page pid ≡ some f → f ≡ 0
table-frame page pid f e = ground arith

abbrev At : List ℕ → ℕ → ℕ → Type 0
At page pid f =
    (length page ≡ memory.pagination.levels)
    × (AllBelow memory.pagination.entries_per_page page
        × (get_elem? (bases pid)
              (value memory.pagination.entries_per_page page memory.pagination.levels)
            ≡ some f))

table-Tabled : Tabled memory.pagination bases table
unfolding value
table-Tabled = record {
  leveled = omega arith;
  at_page = λ page pid f e.
      subst (λ (x : ℕ). At page x f) (sym (table-pid page pid f e))
        (subst (λ (x : ℕ). At page 5 x) (sym (table-frame page pid f e))
          (subst (λ xs. At xs 5 0) (sym (slices_eq page (0 ∷ 1 ∷ []) (table-page page pid f e)))
            (refl, ((omega arith, (omega arith, tt)), refl))));
}

abbrev zeros : ℕ → List ℕ
zeros n = 0 ∷ []

abbrev noon : Memory → ℕ
noon m = 12

memory_server-Faithful_example :
    Faithful (memory_server zeros noon) table (PageHeld memory.pagination bases)
memory_server-Faithful_example =
    memory_server-Faithful memory.pagination bases table table-Tabled zeros noon

-- The same contract, for the CPU below.
law : Faithful (memory_server zeros noon) table (PageHeld memory.pagination bases)
law = memory_server-Faithful memory.pagination bases table table-Tabled zeros noon

abbrev stored_memory : Memory
stored_memory = record memory { user_memory = 1 ∷ 2 ∷ 3 ∷ 4 ∷ 5 ∷ 6 ∷ 7 ∷ 8 ∷ [] }

stored-PageHeld : PageHeld memory.pagination bases stored_memory 5 0 (1 ∷ 2 ∷ [])
unfolding find_pid
stored-PageHeld = record {
  pages = refl;
  based = (five, (refl, refl));
  owned = refl;
  fits = omega arith;
  content = refl;
}

-- A CPU without a cache and with a TLB of one entry.
abbrev cpu : Machine Memory
cpu = record {
  server = stored_memory;
  memory_conf = conf;
  pid = 5;
  pc = pos 0;
  instruction = record { opcode = Opcode.noop; args = [] };
  addr = record { page = []; delta = pos 0 };
  value = [];
  arg1 = pos 0;
  tlb = record { entries = []; capacity = 1; replacement_alg = lru };
  cache_enable = false;
  clock = true;
  entries = [];
  exit_chan = false;
  interrupt_chan = false;
}

lru-other : lru ≢ other
lru-other h = ground arith

cpu-Ready :
    Ready
      (memory_server zeros noon)
      table
      (PageHeld memory.pagination bases)
      law
      cpu
      (0 ∷ 1 ∷ [])
      0
      (1 ∷ 2 ∷ [])
cpu-Ready = record {
  uncached = refl;
  tlb_ok = record { agree = tt; bounded = omega arith; known = lru-other };
  frame = refl;
  holds = stored-PageHeld;
  size = refl;
}

write_memory-Gives_example :
    Gives
      (memory_server zeros noon)
      table
      (PageHeld memory.pagination bases)
      law
      cpu
      (0 ∷ 1 ∷ [])
      0
      (replaced 1 (9 ∷ []) (1 ∷ 2 ∷ []))
      (write_memory
        (memory_server zeros noon)
        (record { page = 0 ∷ 1 ∷ []; delta = pos 1 })
        (9 ∷ [])
        cpu)
      true
write_memory-Gives_example =
    write_memory-Gives (memory_server zeros noon) table (PageHeld memory.pagination bases) law cpu
      (0 ∷ 1 ∷ []) 0 1 (1 ∷ 2 ∷ []) (9 ∷ []) cpu-Ready (omega arith)

read_memory-write_memory_example :
    ((write_memory
        (memory_server zeros noon)
        (record { page = 0 ∷ 1 ∷ []; delta = pos 1 })
        (9 ∷ [])
        cpu).0
      ≡ ok true)
    × ((read_memory
          (memory_server zeros noon)
          (record { page = 0 ∷ 1 ∷ []; delta = pos 1 })
          (pos 1)
          (write_memory
            (memory_server zeros noon)
            (record { page = 0 ∷ 1 ∷ []; delta = pos 1 })
            (9 ∷ [])
            cpu).1).0
        ≡ ok (some (9 ∷ [])))
read_memory-write_memory_example =
    read_memory-write_memory (memory_server zeros noon) table (PageHeld memory.pagination bases) law
      cpu (0 ∷ 1 ∷ []) 0 1 (1 ∷ 2 ∷ []) (9 ∷ []) cpu-Ready (omega arith)
