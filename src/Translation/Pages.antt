-- ===== src/Translation/Pages.antt =====
-- The memory server (memoria/) is what a CPU (cpu/memory/) relies on: it answers by the page tables
-- of its processes and keeps their pages.
use tp_ssoo_1c.Prelude.{
  ℕ, suc, ◌+◌, ◌≤◌, ◌<◌, ◌≡◌, refl, sym, ap, ◌∙◌, subst, true, List, [], ◌∷◌, map, Option, none,
  some, length, take, drop, get_elem?, arith, not, ◌==◌, ==_refl,
}
use tp_ssoo_1c.Prelude.Int.{ℤ, pos}
use tp_ssoo_1c.Prelude.Exec.{◌>>◌, get_state, fail_if, ◌>>=◌}
use tp_ssoo_1c.Utils.Text.{atoi_or_zero, Text, codes, itoa}
use tp_ssoo_1c.Utils.Text.RoundTrip.{atoi_or_zero-itoa}
use tp_ssoo_1c.Cpu.Address.Digits.{AllBelow, value}
use tp_ssoo_1c.Memory.State.{
  M, body_does_not_match_page_size, Memory, Metrics, ProcessData, PaginationConfig, find_pid,
  update_pid, get_data_by_pid, count_metric,
}
use tp_ssoo_1c.Memory.Pages.{contains, has_page, get_page, write_page}
use tp_ssoo_1c.Memory.Pages.RoundTrip.{Based}
use tp_ssoo_1c.Memory.Address.{string_to_logic_address, logic_address_to_frame, page_index}
use tp_ssoo_1c.Memory.Address.Walk.{page_index_step}
use tp_ssoo_1c.Memory.Requests.{
  uint, respond, handler_func, num_from_query, bytes, bad_request, empty_body,
}
use tp_ssoo_1c.Memory.Server.{
  at_base, frame, full_page, serve, frame_get, full_page_get, full_page_post,
}
use tp_ssoo_1c.Translation.Server.{frame_request, page_request}

pub frame_served :
    (pid : ℕ) (address : Text) (m : Memory)
    → serve frame (frame_request pid address) m
      ≡ respond bad_request
          (λ base. bytes (itoa base))
          (logic_address_to_frame pid (string_to_logic_address address))
          m
unfolding serve handler_func frame_get num_from_query
frame_served pid address m =
    ap
      (λ n.
        respond bad_request (λ base. bytes (itoa base))
          (logic_address_to_frame (uint n) (string_to_logic_address address)) m)
      (atoi_or_zero-itoa pid)

pub get_served :
    (pid base : ℕ) (m : Memory)
    → serve full_page (page_request (codes "GET") pid base []) m
      ≡ respond bad_request bytes (has_page pid base >>= λ u. get_page pid base) m
unfolding serve handler_func full_page_get num_from_query
get_served pid base m = rw (atoi_or_zero-itoa pid, atoi_or_zero-itoa base)

-- The test of the length of the body, which `WritePage` makes again.
checked : ℕ → List ℕ → ℤ → M (Unit {0})
checked pid body base = do
  m ← get_state
  fail_if (not (length body == m.pagination.page_size)) body_does_not_match_page_size
  at_base pid base (λ base. write_page pid base body)

checked-run :
    (pid base : ℕ) (body : List ℕ) (m : Memory)
    → length body ≡ m.pagination.page_size
    → checked pid body (pos base) m ≡ write_page pid base body m
unfolding checked
checked-run pid base body m h =
    ap (λ b. (fail_if (not b) body_does_not_match_page_size >> write_page pid base body) m)
      (==_refl _ _ h)

pub post_served :
    (pid base : ℕ) (body : List ℕ) (m : Memory)
    → length body ≡ m.pagination.page_size
    → serve full_page (page_request (codes "POST") pid base body) m
      ≡ respond bad_request empty_body (write_page pid base body) m
unfolding serve handler_func full_page_post num_from_query checked
post_served pid base body m h =
    ap (λ n. respond bad_request empty_body (checked (uint n) body (atoi_or_zero (itoa base))) m)
      (atoi_or_zero-itoa pid)
    ∙ ap (λ n. respond bad_request empty_body (checked pid body n) m) (atoi_or_zero-itoa base)
    ∙ ap (λ r. respond bad_request empty_body (λ u. r) m) (checked-run pid base body m h)

-- `base` is a page of the process with the bytes `bs`; `pg` is the pagination and `bases` the page
-- table of every process.
pub record PageHeld (pg : PaginationConfig) (bases : ℕ → List ℕ) (m : Memory) (pid base : ℕ)
    (bs : List ℕ) : Type 0 where
  pub pages : m.pagination ≡ pg
  pub based : Based pid (bases pid) m
  pub owned : contains (bases pid) base ≡ true
  pub fits : base + pg.page_size ≤ length m.user_memory
  pub content : bs ≡ take pg.page_size (drop base m.user_memory)

-- The frames by page number, for addresses of the server's pagination.
pub record Tabled (pg : PaginationConfig) (bases : ℕ → List ℕ) (table : List ℕ → ℕ → Option ℕ)
    : Type 0 where
  pub leveled : 0 < pg.levels
  pub at_page :
      (page : List ℕ) (pid f : ℕ)
      → table page pid ≡ some f
      → (length page ≡ pg.levels)
        × (AllBelow pg.entries_per_page page
            × (get_elem? (bases pid) (value pg.entries_per_page page pg.levels) ≡ some f))

bases_of : Option ProcessData → Option (List ℕ)
bases_of none = none
bases_of (some p) = some p.page_bases

bases_of-metrics :
    (pid other : ℕ) (g : Metrics → Metrics) (ps : List ProcessData)
    → bases_of (find_pid pid (update_pid other (λ p. record p { metrics = g p.metrics }) ps))
      ≡ bases_of (find_pid pid ps)
unfolding bases_of find_pid update_pid
bases_of-metrics pid other g [] = refl
bases_of-metrics pid other g (p ∷ ps) = ground (arith, bases_of-metrics pid other g ps)

some_bases :
    (o : Option ProcessData) (bs : List ℕ)
    → bases_of o ≡ some bs
    → (p : ProcessData) × ((o ≡ some p) × (p.page_bases ≡ bs))
unfolding bases_of
some_bases none bs h = ground arith
some_bases (some p) bs h = (p, (refl, ground arith))

bases_of-Based :
    (pid : ℕ) (bs : List ℕ) (m : Memory)
    → Based pid bs m
    → bases_of (get_data_by_pid pid m) ≡ some bs
unfolding bases_of
bases_of-Based pid bs m h = ap bases_of h.1.0 ∙ ap some h.1.1

-- A metric that is counted changes no page.
pub count_metric-PageHeld :
    (pg : PaginationConfig) (bases : ℕ → List ℕ) (pid base other : ℕ) (bs : List ℕ)
    (g : Metrics → Metrics) (m : Memory)
    → PageHeld pg bases m pid base bs
    → PageHeld pg bases (count_metric other g m).1 pid base bs
count_metric-PageHeld pg bases pid base other bs g m h = record {
  pages = h.pages;
  based =
      some_bases _ (bases pid)
        (bases_of-metrics pid other g m.system_memory ∙ bases_of-Based pid (bases pid) m h.based);
  owned = h.owned;
  fits = h.fits;
  content = h.content;
}

pub page_index-PageHeld :
    (pg : PaginationConfig) (bases : ℕ → List ℕ) (pid base other entries levels i index : ℕ)
    (bs ds : List ℕ) (m : Memory)
    → AllBelow entries ds
    → PageHeld pg bases m pid base bs
    → PageHeld pg bases (page_index other entries levels i index (map pos ds) m).1 pid base bs
unfolding page_index
page_index-PageHeld pg bases pid base other entries levels i index bs [] m b h = h
page_index-PageHeld pg bases pid base other entries levels i index bs (d ∷ ds) m b h =
    subst (λ r. PageHeld pg bases r.1 pid base bs)
      (sym (page_index_step other entries levels i index d (map pos ds) m b.0))
      (page_index-PageHeld pg bases pid base other entries levels (suc i) _ bs ds _ b.1
        (count_metric-PageHeld pg bases pid base other bs _ m h))
