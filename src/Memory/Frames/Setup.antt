-- ===== src/Memory/Frames/Setup.antt =====
-- memoria/storage/storage.go: InitializeUserMemory sets up a consistent frame table.
use tp_ssoo_1c.Prelude.{
  ℕ, count, zero, suc, ◌*◌, ◌/◌, ◌<◌, ◌≡◌, refl, sym, ap, ◌∙◌, false, [], none, replicate,
  length-replicate, arith,
}
use tp_ssoo_1c.Prelude.Exec.{ok}
use tp_ssoo_1c.Prelude.Int.{pos}
use tp_ssoo_1c.Memory.State.{Memory}
use tp_ssoo_1c.Memory.Frames.{
  initialize_user_memory, bases_from, ℕ, replicate, false, pos, suc, [], none, ok,
}
use tp_ssoo_1c.Memory.Frames.Bits.{free, Tracks}
use tp_ssoo_1c.Memory.Frames.Allocate.{FramesOk}

free-replicate : (n : ℕ) → free (replicate n false) ≡ n
unfolding free
free-replicate zero = refl
free-replicate (suc n) = ap suc (free-replicate n)

Tracks-replicate : (size i n : ℕ) → Tracks size i (replicate n false) []
unfolding count
Tracks-replicate size i zero = tt
Tracks-replicate size i (suc n) = (refl, Tracks-replicate size (suc i) n)

-- The memory of `InitializeUserMemory` with `n` frames.
abbrev set_up : ℕ → Memory → Memory
set_up n m = record m {
  user_memory = replicate m.values.memory_size 0;
  remaining_memory = pos m.values.memory_size;
  memory_size = m.values.memory_size;
  swap_file = none;
  pagination = record {
    page_size = m.values.page_size;
    entries_per_page = m.values.entries_per_page;
    levels = m.values.number_of_levels;
  };
  n_pages = n;
  page_bases = bases_from n 0 m.values.page_size;
  reservation_bits = replicate n false;
}

pages_exact : (d n s : ℕ) → 0 < d → s ≡ d * n → s / d ≡ n
pages_exact d n s h e = grind arith

initialize_run :
    (m : Memory)
    → 0 < m.values.page_size
    → 0 < m.values.number_of_levels
    → initialize_user_memory m ≡ (ok tt, set_up (m.values.memory_size / m.values.page_size) m)
unfolding initialize_user_memory
initialize_run m h l = ground arith

set_up-FramesOk :
    (n : ℕ) (m : Memory)
    → 0 < m.values.page_size
    → m.values.memory_size ≡ m.values.page_size * n
    → FramesOk [] (set_up n m)
set_up-FramesOk n m h e = record {
  size_pos = h;
  frames = ap (λ l. bases_from l 0 m.values.page_size) (sym (length-replicate n false));
  tracks = Tracks-replicate m.values.page_size 0 n;
  valid = tt;
  remaining = ap pos (e ∙ ap (λ f. m.values.page_size * f) (sym (free-replicate n)));
}

-- With a page size and a number of levels that are not zero, and a memory size that is a multiple
-- of the page size, `InitializeUserMemory` returns, and leaves a consistent frame table in which
-- no frame is held.
pub initialize_user_memory-FramesOk :
    (n : ℕ) (m : Memory)
    → 0 < m.values.page_size
    → 0 < m.values.number_of_levels
    → m.values.memory_size ≡ m.values.page_size * n
    → ((initialize_user_memory m).0 ≡ ok tt) × FramesOk [] (initialize_user_memory m).1
initialize_user_memory-FramesOk n m h l e =
    rw (initialize_run m h l, pages_exact _ n _ h e) (refl, set_up-FramesOk n m h e)

pub initialize_user_memory-system_memory :
    (m : Memory)
    → 0 < m.values.page_size
    → 0 < m.values.number_of_levels
    → (initialize_user_memory m).1.system_memory ≡ m.system_memory
initialize_user_memory-system_memory m h l = ap (λ r. r.1.system_memory) (initialize_run m h l)
