-- ===== src/Translation/Faithful.antt =====
-- The memory server (memoria/) keeps the contract that a CPU (cpu/memory/) relies on, for the pages
-- that are in memory.
use native.Mathlib.Nat.{zero-add}
use tp_ssoo_1c.Prelude.{
  ℕ, ◌+◌, ◌≤◌, ◌≡◌, refl, sym, ap, ◌∙◌, subst, true, List, [], map, Option, none, some, length,
  take, drop, get_elem?, arith, length-take, length-drop, length-map,
}
use tp_ssoo_1c.Prelude.Int.{ℤ, pos}
use tp_ssoo_1c.Prelude.Exec.{ok, err, ◌>>=◌}
use tp_ssoo_1c.Utils.Text.{codes, itoa}
use tp_ssoo_1c.Cpu.Machine.{stored, from_logic_addr_to_string}
use tp_ssoo_1c.Cpu.Contract.{Faithful, frame_of_answer}
use tp_ssoo_1c.Cpu.Address.Digits.{AllBelow, value}
use tp_ssoo_1c.Memory.State.{
  M, out_of_bounds_process_memory_access, Memory, ProcessData, PaginationConfig,
}
use tp_ssoo_1c.Memory.Pages.{contains, has_page, get_page, write_page, count_reads}
use tp_ssoo_1c.Memory.Pages.RoundTrip.{
  Has, write_list, length-write_list, read-write_list, write_page-run, write_bytes-Wrote,
  has_page-run,
}
use tp_ssoo_1c.Memory.Address.{logic_address_to_frame, page_index, walk_table}
use tp_ssoo_1c.Memory.Address.Walk.{page_index-value}
use tp_ssoo_1c.Memory.Requests.{Status, Payload, status_ok, respond, bad_request, bytes, empty_body}
use tp_ssoo_1c.Memory.Server.{frame, full_page, serve}
use tp_ssoo_1c.Translation.{lookup_outcome, walk_outcome, frame_of_page}
use tp_ssoo_1c.Translation.Texts.{
  string_to_logic_address-from_logic_addr_to_string, frame_of_text-itoa,
}
use tp_ssoo_1c.Translation.Server.{
  with_spare, frame_request, page_request, memory_server, ok_bytes, put_result,
}
use tp_ssoo_1c.Translation.Pages.{
  PageHeld, Tabled, frame_served, get_served, post_served, page_index-PageHeld,
  count_metric-PageHeld,
}

walk_state :
    (pid : ℕ) (p : ProcessData) (address : List ℤ) (m : Memory) (i : ℕ)
    → (page_index pid m.pagination.entries_per_page m.pagination.levels 0 0 address m).0 ≡ ok i
    → (walk_table pid p address m).1
      ≡ (page_index pid m.pagination.entries_per_page m.pagination.levels 0 0 address m).1
walk_state pid p address m i h = rw (h, walk_table, ◌>>=◌) (ground arith)

-- What a handler answers where its operation returns.
respond_ok :
    {A : Type 0} (bad : Status) (body : A → Payload) (f : M A) (m : Memory) (a : A)
    → (f m).0 ≡ ok a
    → respond bad body f m ≡ (ok (record { status = status_ok; body = body a }), (f m).1)
respond_ok bad body f m a e = rw (respond, e)

zero_value : (e n : ℕ) (ds : List ℕ) → length ds ≡ n → 0 + value e ds (length ds) ≡ value e ds n
zero_value e n ds h = zero-add _ ∙ ap (λ (k : ℕ). value e ds k) h

get_page-full :
    (pid base : ℕ) (m : Memory)
    → Has pid base m
    → base + m.pagination.page_size ≤ length m.user_memory
    → get_page pid base m ≡ (
      ok (take m.pagination.page_size (drop base m.user_memory)),
      (count_reads pid m.values.page_size m).1,
    )
unfolding get_page
get_page-full pid base m h l = ground (arith, has_page-run pid base m h)

has_page_first :
    (pid base : ℕ) (m : Memory)
    → Has pid base m
    → (has_page pid base >>= λ u. get_page pid base) m ≡ get_page pid base m
has_page_first pid base m h =
    ap (λ r. ◌>>=◌ (λ u. r) (λ u. get_page pid base) m) (has_page-run pid base m h)

module _ (pg : PaginationConfig) (bases : ℕ → List ℕ) (table : List ℕ → ℕ → Option ℕ)
    (tabled : Tabled pg bases table) where
  PageHeld-Has : (m : Memory) (pid f : ℕ) (bs : List ℕ) → PageHeld pg bases m pid f bs → Has pid f m
  PageHeld-Has m pid f bs h = record {
    process = h.based.0;
    found = h.based.1.0;
    owned = subst (λ xs. contains xs f ≡ true) (sym h.based.1.1) h.owned;
  }

  -- The page number of an address of the table.
  indexed :
      (m : Memory) (pid f g : ℕ) (page bs : List ℕ)
      → table page pid ≡ some g
      → PageHeld pg bases m pid f bs
      → (page_index pid m.pagination.entries_per_page m.pagination.levels 0 0 (map pos page) m).0
        ≡ ok (value pg.entries_per_page page pg.levels)
  indexed m pid f g page bs e h =
      let t = tabled.at_page page pid g e in
      subst
        (λ (q : PaginationConfig).
          (page_index pid q.entries_per_page q.levels 0 0 (map pos page) m).0
          ≡ ok (value pg.entries_per_page page pg.levels))
        (sym h.pages)
        (page_index-value pid pg.entries_per_page pg.levels 0 0 page m t.1.0 (omega (arith, t.0))
          ∙ ap ok (zero_value pg.entries_per_page pg.levels page t.0))

  framed-PageHeld :
      (m : Memory) (pid f g : ℕ) (page bs : List ℕ)
      → table page pid ≡ some g
      → PageHeld pg bases m pid f bs
      → ((logic_address_to_frame pid (map pos page) m).0 ≡ ok g)
        × PageHeld pg bases (logic_address_to_frame pid (map pos page) m).1 pid f bs
  framed-PageHeld m pid f g page bs e h =
      let t = tabled.at_page page pid g e in
      let p = h.based.0 in
      let i = indexed m pid f g page bs e h in
      let entry : frame_of_page p (value pg.entries_per_page page pg.levels) ≡ ok g =
        ap (λ o. elim o [ none ↦ err out_of_bounds_process_memory_access | some base ↦ ok base ])
          (subst (λ xs. get_elem? xs (value pg.entries_per_page page pg.levels) ≡ some g)
            (sym h.based.1.1) t.1.1) in
      let long : length (map pos page) ≡ m.pagination.levels =
        length-map page pos ∙ t.0 ∙ ap (λ q. q.levels) (sym h.pages) in
      rw (lookup_outcome pid p (map pos page) m long h.based.1.0) (
        walk_outcome pid p (map pos page) m _ i ∙ entry,
        subst (λ m'. PageHeld pg bases m' pid f bs) (sym (walk_state pid p (map pos page) m _ i))
            (page_index-PageHeld pg bases pid f pid m.pagination.entries_per_page
              m.pagination.levels 0 0 bs page m
              (subst (λ (q : PaginationConfig). AllBelow q.entries_per_page page) (sym h.pages)
                t.1.0)
              h),
      )

  given-PageHeld :
      (m : Memory) (pid f : ℕ) (bs : List ℕ)
      → PageHeld pg bases m pid f bs
      → ((has_page pid f >>= λ u. get_page pid f) m).0 ≡ ok bs
        × PageHeld pg bases ((has_page pid f >>= λ u. get_page pid f) m).1 pid f bs
  given-PageHeld m pid f bs h =
      let has = PageHeld-Has m pid f bs h in
      let size : m.pagination.page_size ≡ pg.page_size = ap (λ q. q.page_size) h.pages in
      rw (has_page_first pid f m has, get_page-full pid f m has (omega (arith, size, h.fits)))
        (
          ap (λ (n : ℕ). ok (take n (drop f m.user_memory))) size ∙ ap ok (sym h.content),
          count_metric-PageHeld pg bases pid f pid bs _ m h,
        )

  kept-PageHeld :
      (m : Memory) (pid f : ℕ) (bs cs : List ℕ)
      → PageHeld pg bases m pid f bs
      → length cs ≡ pg.page_size
      → ((write_page pid f cs m).0 ≡ ok tt) × PageHeld pg bases (write_page pid f cs m).1 pid f cs
  kept-PageHeld m pid f bs cs h l =
      let has = PageHeld-Has m pid f bs h in
      let size : m.pagination.page_size ≡ pg.page_size = ap (λ q. q.page_size) h.pages in
      let w = write_bytes-Wrote pid f 0 cs m has (omega (arith, l, h.fits)) in
      let at : f + 0 ≡ f = omega arith in
      let bytes : w.after.user_memory ≡ write_list m.user_memory f cs =
        w.bytes ∙ ap (λ (i : ℕ). write_list m.user_memory i cs) at in
      let whole : length w.after.user_memory ≡ length m.user_memory =
        ap length bytes ∙ length-write_list m.user_memory f cs in
      rw (write_page-run pid f cs m has (l ∙ sym size), w.returned)
        (
          refl,
          record {
            pages = w.pages ∙ h.pages;
            based = w.based (bases pid) h.based;
            owned = h.owned;
            fits = omega (arith, whole, h.fits);
            content =
                sym (read-write_list m.user_memory f cs (omega (arith, l, h.fits)))
                ∙ ap (λ (n : ℕ). take n (drop f (write_list m.user_memory f cs))) l
                ∙ ap (λ xs. take pg.page_size (drop f xs)) (sym bytes);
          },
        )

  PageHeld-length :
      (m : Memory) (pid f : ℕ) (bs : List ℕ)
      → PageHeld pg bases m pid f bs
      → length bs ≡ pg.page_size
  PageHeld-length m pid f bs h = omega (
    arith,
    ap length h.content,
    length-take pg.page_size (drop f m.user_memory),
    length-drop f m.user_memory,
    h.fits,
  )

  module _ (spare : ℕ → List ℕ) (clock : Memory → ℕ) where
    framed_answer :
        (m : Memory) (pid f : ℕ) (page bs : List ℕ)
        → table page pid ≡ some f
        → PageHeld pg bases m pid f bs
        → (frame_of_answer
              (ok_bytes (serve frame (frame_request pid (from_logic_addr_to_string page)) m).0)
            ≡ some f)
          × PageHeld pg bases
              (serve frame (frame_request pid (from_logic_addr_to_string page)) m).1
              pid
              f
              bs
    framed_answer m pid f page bs e h =
        let t = tabled.at_page page pid f e in
        let r = framed-PageHeld m pid f f page bs e h in
        let text =
          string_to_logic_address-from_logic_addr_to_string page
            (omega (arith, t.0, tabled.leveled)) in
        rw
          (
            frame_served pid (from_logic_addr_to_string page) m,
            text,
            respond_ok bad_request (λ base. bytes (itoa base))
                (logic_address_to_frame pid (map pos page)) m f r.0,
          )
          (frame_of_text-itoa f, r.1)

    given_answer :
        (m : Memory) (pid f : ℕ) (bs : List ℕ)
        → PageHeld pg bases m pid f bs
        → (ok_bytes (serve full_page (page_request (codes "GET") pid f []) m).0 ≡ some bs)
          × PageHeld pg bases (serve full_page (page_request (codes "GET") pid f []) m).1 pid f bs
    given_answer m pid f bs h =
        let r = given-PageHeld m pid f bs h in
        rw
          (
            get_served pid f m,
            respond_ok bad_request bytes (has_page pid f >>= λ u. get_page pid f) m bs r.0,
          )
          (refl, r.1)

    kept_answer :
        (m : Memory) (pid f : ℕ) (bs cs : List ℕ)
        → PageHeld pg bases m pid f bs
        → length cs ≡ length bs
        → (put_result (serve full_page (page_request (codes "POST") pid f cs) m).0 ≡ stored)
          × PageHeld pg bases (serve full_page (page_request (codes "POST") pid f cs) m).1 pid f cs
    kept_answer m pid f bs cs h l =
        let size : length cs ≡ pg.page_size = l ∙ PageHeld-length m pid f bs h in
        let r = kept-PageHeld m pid f bs cs h size in
        rw
          (
            post_served pid f cs m (size ∙ ap (λ q. q.page_size) (sym h.pages)),
            respond_ok bad_request empty_body (write_page pid f cs) m tt r.0,
          )
          (refl, r.1)

    -- If `table` gives frames as the page tables `bases` of the processes do, for addresses
    -- of the server's pagination with at least one level, then the handlers of the memory
    -- server, asked with the requests that a CPU builds, keep the contract of a CPU for the
    -- pages that are in memory: a request for a frame is answered as `table` says, a page is
    -- sent with the bytes that it has, a page of the right length that is sent is stored, and
    -- each of these leaves the page in memory.
    pub memory_server-Faithful : Faithful (memory_server spare clock) table (PageHeld pg bases)
    memory_server-Faithful = record {
      framed = λ m pid f page bs e h. framed_answer m pid f page bs e h;
      given = λ m pid f bs h.
          let r = given_answer m pid f bs h in
          ((spare (length bs), ap (with_spare spare) r.0), r.1);
      kept = λ m pid f bs cs h l. kept_answer m pid f bs cs h l;
    }
