-- ===== src/Cpu/Tests.antt =====
-- cpu/memory/ on a cache of two entries, and on addresses of two levels of three entries.
use tp_ssoo_1c.Prelude.{none, ◌-◌}
use tp_ssoo_1c.Prelude.Int.{pos}
use tp_ssoo_1c.Prelude.Exec.{ok}
use tp_ssoo_1c.Utils.Codeutils.{Opcode}
use tp_ssoo_1c.Cpu.Machine.{Machine, failed}
use tp_ssoo_1c.Cpu.Writes.{rest_of}
use tp_ssoo_1c.Cpu.Reads.{read_memory}
use tp_ssoo_1c.Cpu.Reads.Crossing.{read_memory-crossing}
use tp_ssoo_1c.Utils.Text.{codes}
use tp_ssoo_1c.Cpu.Machine.{Server, stored}
use tp_ssoo_1c.Cpu.Slices.Chunks.{concat, AllPieces, rest_of-AllPieces}
use tp_ssoo_1c.Cpu.Cycle.{World, stopped, select_signal, run_instruction}
use tp_ssoo_1c.Cpu.Cycle.Signals.{
  pending, next_turn, select_signal-pending, exit-stopped, dump_memory-stopped,
}
use tp_ssoo_1c.Cpu.Tlb.{Tlb, lru, other, translate_page}
use tp_ssoo_1c.Cpu.Tlb.{TlbEntry}
use tp_ssoo_1c.Cpu.Tlb.Oldest.{Oldest}
use tp_ssoo_1c.Cpu.Tlb.Transparent.{TlbOk, translate_page-TlbOk}
use tp_ssoo_1c.Prelude.{
  refl, List, Option, ◌+◌, ◌≢◌, ℕ, ◌%◌, ◌^◌, ◌≡◌, [], ◌∷◌, some, arith, true, false,
}
use tp_ssoo_1c.Cpu.Address.{MemoryConf, page_digits}
use tp_ssoo_1c.Cpu.Address.Digits.{value}
use tp_ssoo_1c.Cpu.Address.Split.{value-page_digits}
use tp_ssoo_1c.Cpu.Cache.{Cache, CacheEntry, Incoming, add_entry_cache_clock}
use tp_ssoo_1c.Cpu.Clock.Replacement.{Replaces, stored_of, add_entry_cache_clock-Replaces}
use tp_ssoo_1c.Cpu.Clock.Found.{add_entry_cache_clock_m-Replaces}
use tp_ssoo_1c.Cpu.Cache.{placed, add_entry_cache_clock_m}

abbrev used : ℕ → CacheEntry
used page = record {
  page = page ∷ [];
  content = 1 ∷ 2 ∷ [];
  use_bit = true;
  modified = true;
  position = false;
  pid = some 4;
}

abbrev full : Cache
full = record { entries = used 0 ∷ used 1 ∷ []; saved = [] }

abbrev incoming : Incoming
incoming = record { pid = 4; page = 2 ∷ []; content = 3 ∷ 4 ∷ [] }

add_entry_cache_clock-Replaces_example :
    (c' : Cache) × (add_entry_cache_clock incoming full ≡ some c')
    × Replaces incoming (stored_of full) [] c'
add_entry_cache_clock-Replaces_example = add_entry_cache_clock-Replaces incoming full (omega arith)

-- Every entry is used and modified: the second round finds one.
add_entry_cache_clock_m-Replaces_example :
    (c' : Cache) × (add_entry_cache_clock_m incoming full ≡ placed c')
    × Replaces incoming (stored_of full) [] c'
add_entry_cache_clock_m-Replaces_example =
    add_entry_cache_clock_m-Replaces incoming full (omega arith)

abbrev conf : MemoryConf
conf = record { page_size = 4; entries_per_page = 3; levels = 2 }

value-page_digits_example : value 3 (page_digits conf 10) 2 ≡ 10 % 3 ^ 2
value-page_digits_example = value-page_digits conf 10 (omega arith)

-- The frame of every page of a process.
abbrev table : List ℕ → ℕ → Option ℕ
table page pid = some (pid + 6)

abbrev full_tlb : Tlb
full_tlb = record {
  entries = record { page = 0 ∷ []; frame = 10; last_used = 5; pid = 4 } ∷ [];
  capacity = 1;
  replacement_alg = lru;
}

lru-other : lru ≢ other
lru-other h = ground arith

full_tlb-TlbOk : TlbOk table full_tlb
full_tlb-TlbOk = record { agree = (refl, tt); bounded = omega arith; known = lru-other }

translate_page-TlbOk_example :
    ((translate_page (λ again. table) (1 ∷ []) 4 9 full_tlb).0 ≡ table (1 ∷ []) 4)
    × TlbOk table (translate_page (λ again. table) (1 ∷ []) 4 9 full_tlb).1
translate_page-TlbOk_example =
    translate_page-TlbOk table (λ again. table) (1 ∷ []) 4 9 full_tlb (λ again. refl) full_tlb-TlbOk

rest_of-AllPieces_example :
    (concat (rest_of 2 1 (1 ∷ 2 ∷ 3 ∷ 4 ∷ [])) ≡ 2 ∷ 3 ∷ 4 ∷ [])
    × AllPieces 2 (rest_of 2 1 (1 ∷ 2 ∷ 3 ∷ 4 ∷ []))
rest_of-AllPieces_example = rest_of-AllPieces 2 1 (1 ∷ 2 ∷ 3 ∷ 4 ∷ []) (omega arith)

-- A server and a kernel that answer nothing; the kernel refuses every syscall.
abbrev silent : World ℕ
silent = record {
  server = record {
    get_frame = λ pid address s. (none, s);
    get_full_page = λ pid base s. (none, s);
    put_full_page = λ pid base body s. (failed, s);
    dump = λ pid s. (true, s);
    time = λ s. s;
  };
  fetch = λ pid pc s. (none, s);
  syscall = λ pid pc i s. (false, s);
  results = λ pid pc motive s. s;
  prefer_interrupt = λ s. true;
}

-- A CPU with an interruption pending, about to run an instruction without arguments.
abbrev running : Opcode → Machine ℕ
running op = record {
  server = 0;
  memory_conf = conf;
  pid = 4;
  pc = pos 7;
  instruction = record { opcode = op; args = [] };
  addr = record { page = []; delta = pos 0 };
  value = [];
  arg1 = pos 0;
  tlb = full_tlb;
  cache_enable = false;
  clock = true;
  entries = [];
  exit_chan = false;
  interrupt_chan = true;
}

select_signal-pending_example :
    ((select_signal silent true (running Opcode.noop)).0
      ≡ ok (next_turn (pending (running Opcode.noop)) true))
    × (pending (select_signal silent true (running Opcode.noop)).1
        ≡ pending (running Opcode.noop) - 1)
select_signal-pending_example = select_signal-pending silent true (running Opcode.noop)

exit-stopped_example :
    ((run_instruction silent (running Opcode.exit)).0 ≡ ok stopped)
    × (pending (run_instruction silent (running Opcode.exit)).1 ≡ 1)
exit-stopped_example = exit-stopped silent (running Opcode.exit) refl refl tt

dump_memory-stopped_example :
    ((run_instruction silent (running Opcode.dump_memory)).0 ≡ ok stopped)
    × (pending (run_instruction silent (running Opcode.dump_memory)).1
        ≡ pending (running Opcode.dump_memory) - 1)
dump_memory-stopped_example = dump_memory-stopped silent (running Opcode.dump_memory) refl tt

-- A server that has one page of four bytes, in frame 0.
abbrev steady : Server ℕ
steady = record {
  get_frame = λ pid address s. (some (codes "0"), s);
  get_full_page = λ pid base s. (some (record { bytes = 1 ∷ 2 ∷ 3 ∷ 4 ∷ []; spare = [] }), s);
  put_full_page = λ pid base body s. (stored, s);
  dump = λ pid s. (true, s);
  time = λ s. s;
}

-- Three bytes from offset 2 of a page of four.
read_memory-crossing_example :
    (read_memory steady
      (record { page = 0 ∷ 1 ∷ []; delta = pos 2 })
      (pos 3)
      (running Opcode.noop)).0
    ≢ ok (some (1 ∷ 2 ∷ 3 ∷ []))
read_memory-crossing_example =
    read_memory-crossing steady (running Opcode.noop) (0 ∷ 1 ∷ []) (1 ∷ 2 ∷ 3 ∷ []) 2 3 refl
      (omega arith) (omega arith) (omega arith)

abbrev two_used : List TlbEntry
two_used =
    record { page = 0 ∷ []; frame = 10; last_used = 5; pid = 4 }
    ∷ record { page = 1 ∷ []; frame = 12; last_used = 3; pid = 4 }
    ∷ []
