-- ===== src/Memory/Tests.antt =====
-- memoria/storage/storage.go on a memory of four frames of two bytes.
use mathlib.Core.Option.{some-injective}
use tp_ssoo_1c.Memory.State.{find_pid}
use tp_ssoo_1c.Memory.Swap.{unsuspend_process, add_to_swap, contents_of}
use tp_ssoo_1c.Memory.Swap.Blocks.{Block, swap_text, lookup}
use tp_ssoo_1c.Memory.Swap.Loading.{ArePages}
use tp_ssoo_1c.Memory.Swap.Unsuspension.{Swapped, Answer, unsuspend_process-Answer}
use tp_ssoo_1c.Utils.Text.{Text, read_digits}
use tp_ssoo_1c.Memory.Swap.Saving.{read_all, saved_answer, add_to_swap-saved}
use tp_ssoo_1c.Memory.Pages.{write_page, get_page}
use tp_ssoo_1c.Memory.Pages.RoundTrip.{Has, get_page-write_page}
use tp_ssoo_1c.Prelude.{
  ◌*◌, ◌≤◌, ◌<◌, ◌≡◌, refl, [], ◌∷◌, some, arith, count, false, true, List, ℕ, subst, length,
}
use tp_ssoo_1c.Prelude.Int.{pos}
use tp_ssoo_1c.Prelude.Exec.{ok}
use tp_ssoo_1c.Memory.State.{Memory, ProcessData, get_data_by_pid, no_metrics, find_pid}
use tp_ssoo_1c.Memory.Frames.{
  zero_memory, initialize_user_memory, allocate_memory, deallocate_memory, bases_from,
}
use tp_ssoo_1c.Memory.Frames.Bits.{free}
use tp_ssoo_1c.Memory.Frames.Allocate.{FramesOk, Allocated, allocate_memory-Allocated}
use tp_ssoo_1c.Memory.Frames.Setup.{initialize_user_memory-FramesOk}
use tp_ssoo_1c.Memory.Frames.Deallocate.{deallocate_memory-FramesOk}
use tp_ssoo_1c.Memory.Process.{create_process, delete_process}
use tp_ssoo_1c.Memory.Ownership.{held_by, StorageOk}
use tp_ssoo_1c.Utils.Text.{codes}
use tp_ssoo_1c.Memory.Requests.{Request, num_from_query}
use tp_ssoo_1c.Memory.Server.{serve, process, full_page, free_space}
use tp_ssoo_1c.Memory.Server.Handlers.{Sized}
use tp_ssoo_1c.Memory.Server.Reach.{
  Reaches-le_one, Reaches, here, then, serving, Reaches-StorageOk, free_space-Reaches, free_answer,
}
use tp_ssoo_1c.Memory.Ownership.Create.{Created, create_process-Created}
use tp_ssoo_1c.Memory.Ownership.Delete.{delete_answer, delete_process-StorageOk}

abbrev blank : Memory
blank =
    zero_memory
      (record { memory_size = 8; page_size = 2; entries_per_page = 2; number_of_levels = 2 })

initialize_user_memory-FramesOk_example :
    ((initialize_user_memory blank).0 ≡ ok tt) × FramesOk [] (initialize_user_memory blank).1
initialize_user_memory-FramesOk_example =
    initialize_user_memory-FramesOk 4 blank (omega arith) (omega arith) (omega arith)

abbrev started : Memory
started = record blank {
  user_memory = 0 ∷ 0 ∷ 0 ∷ 0 ∷ 0 ∷ 0 ∷ 0 ∷ 0 ∷ [];
  remaining_memory = pos 8;
  memory_size = 8;
  pagination = record { page_size = 2; entries_per_page = 2; levels = 2 };
  n_pages = 4;
  page_bases = 0 ∷ 2 ∷ 4 ∷ 6 ∷ [];
  reservation_bits = false ∷ false ∷ false ∷ false ∷ [];
}

started-run : (initialize_user_memory blank).1 ≡ started
unfolding initialize_user_memory bases_from
started-run = refl

started-FramesOk : FramesOk [] started
started-FramesOk =
    rw started-run at
      ((initialize_user_memory-FramesOk 4 blank (omega arith) (omega arith) (omega arith)).1)

started-fits : 3 ≤ 2 * free started.reservation_bits
unfolding free
started-fits = omega arith

allocate_memory-Allocated_example : Allocated 3 [] started (allocate_memory (pos 3) started)
allocate_memory-Allocated_example =
    allocate_memory-Allocated 3 [] started started-FramesOk (omega arith) started-fits

-- Process 7 has frames 0 and 2, process 9 has frame 1.
abbrev seven : ProcessData
seven = record { pid = 7; code = []; page_bases = 0 ∷ 4 ∷ []; metrics = no_metrics }

abbrev nine : ProcessData
nine = record { pid = 9; code = []; page_bases = 2 ∷ []; metrics = no_metrics }

abbrev in_use : Memory
in_use = record started {
  system_memory = seven ∷ nine ∷ [];
  remaining_memory = pos 2;
  reservation_bits = true ∷ true ∷ true ∷ false ∷ [];
}

in_use-FramesOk : FramesOk (0 ∷ 4 ∷ 2 ∷ []) in_use
unfolding count free bases_from
in_use-FramesOk = record {
  size_pos = omega arith;
  frames = refl;
  tracks = (refl, (refl, (refl, (refl, tt))));
  valid = (
    record { number = 0; aligned = refl; above = omega arith; below = omega arith },
    (
      record { number = 2; aligned = refl; above = omega arith; below = omega arith },
      (record { number = 1; aligned = refl; above = omega arith; below = omega arith }, tt),
    ),
  );
  remaining = refl;
}

seven-found : get_data_by_pid 7 in_use ≡ some seven
unfolding find_pid
seven-found = refl

deallocate_memory-FramesOk_example :
    ((deallocate_memory 7 in_use).0 ≡ ok tt) × FramesOk (2 ∷ []) (deallocate_memory 7 in_use).1
deallocate_memory-FramesOk_example =
    deallocate_memory-FramesOk 7 seven (2 ∷ []) in_use seven-found in_use-FramesOk

create_process-Created_example : Created 3 2 in_use (create_process 3 [] (pos 2) in_use)
create_process-Created_example = create_process-Created 3 2 [] in_use in_use-FramesOk

delete_process-StorageOk_example :
    ((delete_process 7 in_use).0 ≡ delete_answer (get_data_by_pid 7 in_use))
    × StorageOk (delete_process 7 in_use).1
delete_process-StorageOk_example = delete_process-StorageOk 7 in_use in_use-FramesOk

seven-Has : Has 7 4 in_use
seven-Has = record { process = seven; found = seven-found; owned = refl }

get_page-write_page_example :
    ((write_page 7 4 (9 ∷ 8 ∷ []) in_use).0 ≡ ok tt)
    × ((get_page 7 4 (write_page 7 4 (9 ∷ 8 ∷ []) in_use).1).0 ≡ ok (9 ∷ 8 ∷ []))
get_page-write_page_example =
    get_page-write_page 7 4 (9 ∷ 8 ∷ []) in_use seven-Has refl (omega arith)

-- A request of the CPU for page 2 of process 7, then its end.
abbrev page_asked : Request
page_asked = record {
  method = codes "GET";
  query = (codes "pid", codes "7") ∷ (codes "base", codes "4") ∷ [];
  body = [];
}

abbrev ended : Request
ended = record { method = codes "DELETE"; query = (codes "pid", codes "7") ∷ []; body = [] }

page_asked-Sized : Sized page_asked
unfolding num_from_query
page_asked-Sized = (0, refl)

ended-Sized : Sized ended
unfolding num_from_query
ended-Sized = (0, refl)

abbrev served : Memory
served = (serve process ended (serve full_page page_asked in_use).1).1

served-Reaches : Reaches in_use served
served-Reaches =
    then _ _ _
      (then _ _ _ (here in_use) (serving full_page page_asked in_use refl page_asked-Sized))
      (serving process ended _ refl ended-Sized)

Reaches-StorageOk_example : StorageOk served
Reaches-StorageOk_example = Reaches-StorageOk in_use served served-Reaches in_use-FramesOk

free_space-Reaches_example :
    (serve free_space page_asked served).0
    ≡ free_answer (served.pagination.page_size * free served.reservation_bits)
free_space-Reaches_example =
    free_space-Reaches in_use served page_asked in_use-FramesOk served-Reaches

-- Process 7 comes to a memory that has just been set up, then process 9, and process 7 ends.
abbrev created : Text → Request
created pid = record {
  method = codes "POST";
  query = (codes "pid", pid) ∷ (codes "size", codes "3") ∷ [];
  body = [];
}

created-Sized : (pid : Text) → Sized (created pid)
unfolding num_from_query read_digits
created-Sized pid = (3, refl)

abbrev both : Memory
both =
    (serve process (created (codes "9"))
      (serve process (created (codes "7")) (initialize_user_memory blank).1).1).1

both-Reaches : Reaches (initialize_user_memory blank).1 (serve process ended both).1
both-Reaches =
    then _ _ _
      (then _ _ _
        (then _ _ _ (here _)
          (serving process (created (codes "7")) _ refl (created-Sized (codes "7"))))
        (serving process (created (codes "9")) _ refl (created-Sized (codes "9"))))
      (serving process ended _ refl ended-Sized)

Reaches-le_one_example : count 4 (held_by (serve process ended both).1.system_memory) ≤ 1
Reaches-le_one_example =
    Reaches-le_one 4 4 blank (serve process ended both).1 (omega arith) (omega arith) (omega arith)
      refl both-Reaches

-- Process 7 was suspended with two pages, after process 5 with one. Process 9 has frame 1.
abbrev blocks : List Block
blocks =
    record { pid = 5; pages = (5 ∷ 6 ∷ []) ∷ [] }
    ∷ record { pid = 7; pages = (1 ∷ 2 ∷ []) ∷ (3 ∷ 255 ∷ []) ∷ [] }
    ∷ []

abbrev swapped : Memory
swapped = record started {
  system_memory = seven ∷ nine ∷ [];
  remaining_memory = pos 6;
  reservation_bits = false ∷ true ∷ false ∷ false ∷ [];
  swap_file = some (swap_text blocks);
}

swapped-FramesOk : FramesOk (2 ∷ []) swapped
unfolding count free bases_from
swapped-FramesOk = record {
  size_pos = omega arith;
  frames = refl;
  tracks = (refl, (refl, (refl, (refl, tt))));
  valid = (record { number = 1; aligned = refl; above = omega arith; below = omega arith }, tt);
  remaining = refl;
}

seven-pages :
    (pages : List (List ℕ)) → lookup 7 blocks ≡ some pages → (0 < length pages) × ArePages 2 pages
unfolding lookup
seven-pages pages found =
    subst (λ pages. (0 < length pages) × ArePages 2 pages) (some-injective _ _ found)
      (
        omega arith,
        (refl, (omega arith, (omega arith, tt)), (refl, (omega arith, (omega arith, tt)), tt)),
      )

seven-Swapped : Swapped 7 (2 ∷ []) blocks swapped
unfolding find_pid
seven-Swapped = record {
  process = seven;
  known = refl;
  has_pages = omega arith;
  frames = swapped-FramesOk;
  one_size = refl;
  room = omega arith;
  file = refl;
  pages = seven-pages;
}

unsuspend_process-Answer_example : Answer 7 (2 ∷ []) blocks swapped (unsuspend_process 7 swapped)
unsuspend_process-Answer_example = unsuspend_process-Answer 7 (2 ∷ []) blocks swapped seven-Swapped

no_block : contents_of in_use.swap_file ≡ swap_text []
unfolding swap_text
no_block = refl

add_to_swap-saved_example :
    add_to_swap seven in_use
    ≡ saved_answer 7 []
        (read_all 7 seven.page_bases in_use).0
        (read_all 7 seven.page_bases in_use).1
add_to_swap-saved_example = add_to_swap-saved seven [] in_use no_block
