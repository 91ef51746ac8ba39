-- ===== src/Memory/Server/Reach.antt =====
-- memoria/memoria.go: the memory that a sequence of requests leads to.
use tp_ssoo_1c.Memory.Frames.{initialize_user_memory}
use tp_ssoo_1c.Memory.Frames.Allocate.{FramesOk}
use tp_ssoo_1c.Memory.Frames.Setup.{
  initialize_user_memory-FramesOk, initialize_user_memory-system_memory,
}
use tp_ssoo_1c.Memory.Ownership.{held_by, FramesOk-le_one}
use tp_ssoo_1c.Prelude.{
  ◌<◌, ◌≤◌, [], count, ap, sym, ◌∙◌, subst, ℕ, ◌*◌, ◌≡◌, refl, Bool, true, false, arith, inl, inr,
}
use tp_ssoo_1c.Prelude.Int.{pos}
use tp_ssoo_1c.Prelude.Exec.{Outcome, ok}
use tp_ssoo_1c.Utils.Text.{codes, itoa}
use tp_ssoo_1c.Memory.State.{Memory, Error}
use tp_ssoo_1c.Memory.Frames.Bits.{free}
use tp_ssoo_1c.Memory.Ownership.{StorageOk}
use tp_ssoo_1c.Utils.Text.{text_eq}
use tp_ssoo_1c.Prelude.{Bool-cases}
use tp_ssoo_1c.Memory.Requests.{Request, SimpleResponse, handler_func, status_ok, bytes}
use tp_ssoo_1c.Memory.Server.{
  Endpoint, process, frame, user_memory, dump, full_page, config, suspend, unsuspend, free_space,
  routes, serve, free_space_any,
}
use tp_ssoo_1c.Memory.Server.Handlers.{
  process_get-Safe, process_delete-Safe, frame_get-Safe, user_memory_get-Safe,
  user_memory_post-Safe, dump_any-Safe, full_page_get-Safe, full_page_post-Safe,
  free_space_any-Safe, config_any-Safe, AllSafe, handler_func-Safe, process_post-Safe, Sized,
}

-- The endpoints that move no process to or from the swap file.
abbrev pub in_core : Endpoint → Bool
in_core suspend = false
in_core unsuspend = false
in_core process = true
in_core frame = true
in_core user_memory = true
in_core dump = true
in_core full_page = true
in_core config = true
in_core free_space = true

routes-AllSafe : (e : Endpoint) (r : Request) → in_core e ≡ true → Sized r → AllSafe r (routes e)
routes-AllSafe process r h s =
    (process_get-Safe r, (process_post-Safe r s, (process_delete-Safe r, tt)))
routes-AllSafe frame r h s = (frame_get-Safe r, tt)
routes-AllSafe user_memory r h s = (user_memory_get-Safe r, (user_memory_post-Safe r, tt))
routes-AllSafe dump r h s = (dump_any-Safe r, tt)
routes-AllSafe full_page r h s = (full_page_get-Safe r, (full_page_post-Safe r, tt))
routes-AllSafe config r h s = (config_any-Safe r, tt)
routes-AllSafe free_space r h s = (free_space_any-Safe r, tt)
routes-AllSafe suspend r h s = ground arith
routes-AllSafe unsuspend r h s = ground arith

-- A request that is served, and the memory after any number of them.
pub data Served : Memory → Memory → Type 0 where
  serving :
      (e : Endpoint) (r : Request) (m : Memory)
      → in_core e ≡ true
      → Sized r
      → Served m (serve e r m).1

pub data Reaches : Memory → Memory → Type 0 where
  here : (m : Memory) → Reaches m m
  then : (m m' m'' : Memory) → Reaches m m' → Served m' m'' → Reaches m m''

Served-StorageOk : (m m' : Memory) → Served m m' → StorageOk m → StorageOk m'
unfolding serve
Served-StorageOk m _ (serving e r _ h s) k =
    (handler_func-Safe r (routes e) (routes-AllSafe e r h s)).keeps m k

-- If exactly the frames of the processes in memory are held, the same holds after any number of
-- requests to any endpoint but those of the swap file, well formed or not and whatever they are
-- answered, as long as none asks for a negative size.
pub Reaches-StorageOk : (m m' : Memory) → Reaches m m' → StorageOk m → StorageOk m'
Reaches-StorageOk m _ (here _) k = k
Reaches-StorageOk m m'' (then _ m' _ r s) k = Served-StorageOk m' m'' s (Reaches-StorageOk m m' r k)

-- The answer where the free bytes are `n`.
abbrev pub free_answer : ℕ → Outcome Error SimpleResponse
free_answer n = ok (record { status = status_ok; body = bytes (itoa n) })

free_space-answer :
    (n : ℕ) (r : Request) (m : Memory)
    → m.remaining_memory ≡ pos n
    → (serve free_space r m).0 ≡ free_answer n
unfolding serve handler_func free_space_any
free_space-answer n r m h = elim (Bool-cases (text_eq (codes "ANY") r.method)) [
  | inl e ↦ rw (e, h) refl
  | inr e ↦ rw (e, h) refl
]

-- If exactly the frames of the processes in memory are held, then after any number of requests to
-- any endpoint but those of the swap file, none of which asks for a negative size, the endpoint
-- for the free space answers with the bytes of the free frames.
pub free_space-Reaches :
    (m m' : Memory) (r : Request)
    → StorageOk m
    → Reaches m m'
    → (serve free_space r m').0 ≡ free_answer (m'.pagination.page_size * free m'.reservation_bits)
free_space-Reaches m m' r k h = free_space-answer _ r m' ((Reaches-StorageOk m m' h k).remaining)

-- A memory without processes, which has just been set up.
started-StorageOk :
    (n : ℕ) (m : Memory)
    → 0 < m.values.page_size
    → 0 < m.values.number_of_levels
    → m.values.memory_size ≡ m.values.page_size * n
    → m.system_memory ≡ []
    → StorageOk (initialize_user_memory m).1
started-StorageOk n m size levels e empty =
    subst (λ held. FramesOk held (initialize_user_memory m).1)
      (ap held_by (sym (initialize_user_memory-system_memory m size levels ∙ empty)))
      (initialize_user_memory-FramesOk n m size levels e).1

-- From a memory that `InitializeUserMemory` has just set up, with no process, a page size and a
-- number of levels that are not zero and a memory size that is a multiple of the page size, any
-- number of requests to any endpoint but those of the swap file, none of which asks for a
-- negative size, lead to a memory in which no frame is held twice, by one process or by two.
pub Reaches-le_one :
    (n b : ℕ) (m m' : Memory)
    → 0 < m.values.page_size
    → 0 < m.values.number_of_levels
    → m.values.memory_size ≡ m.values.page_size * n
    → m.system_memory ≡ []
    → Reaches (initialize_user_memory m).1 m'
    → count b (held_by m'.system_memory) ≤ 1
Reaches-le_one n b m m' size levels e empty r = FramesOk-le_one b (held_by m'.system_memory) m' (
    Reaches-StorageOk (initialize_user_memory m).1 m' r (started-StorageOk n m size levels e empty))
