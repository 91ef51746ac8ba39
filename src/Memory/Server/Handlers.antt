-- ===== src/Memory/Server/Handlers.antt =====
-- memoria/memoria.go: each handler but those of the swap file keeps the frame table.
use tp_ssoo_1c.Prelude.{
  ℕ, ◌≡◌, sym, subst, List, [], ◌∷◌, Option, none, some, length, not, ◌&&◌, suc, ◌==◌,
}
use tp_ssoo_1c.Prelude.Int.{ℤ, pos, negsuc}
use tp_ssoo_1c.Prelude.Exec.{Outcome, ok, err, panic}
use tp_ssoo_1c.Utils.Text.{Text, codes}
use tp_ssoo_1c.Memory.State.{
  Memory, ProcessData, Error, M, body_does_not_match_page_size, get_data_by_pid,
}
use tp_ssoo_1c.Memory.Ownership.{StorageOk}
use tp_ssoo_1c.Memory.Ownership.Create.{Created, refused, created, create_process-Created}
use tp_ssoo_1c.Memory.Ownership.Delete.{delete_process-StorageOk}
use tp_ssoo_1c.Memory.Process.{create_process, delete_process}
use tp_ssoo_1c.Memory.Pages.{write_page, page_to_byte_array}
use tp_ssoo_1c.Memory.Dump.{dump_process, shown, memory_dump, dump_pages, page_to_string}
use tp_ssoo_1c.Utils.Text.{text_eq}
use tp_ssoo_1c.Prelude.{if-intro}
use tp_ssoo_1c.Memory.Requests.{
  Request, Status, Payload, SimpleResponse, MethodRequestInfo, GenericRequest, handler_func,
  find_method, call, call_unless, or_any, first_missing, num_from_query, pid_from_query, respond,
  scan_lines, bad_request, empty_body,
}
use tp_ssoo_1c.Memory.Server.{
  process_get, process_post, process_delete, frame_get, user_memory_get, user_memory_post, dump_any,
  config_any, full_page_get, full_page_post, free_space_any, at_base, first_byte,
}
use tp_ssoo_1c.Memory.Server.Keeps.{
  Safe, Safe-bind, Safe-then, Safe-read, Safe-option, Safe-fail_if, Safe-crash_if, Safe-crash,
  Safe-return, Safe-throw, unchanged-Safe, has_page-Safe, get_page-Safe, write_page-Safe,
  get_from_memory-Safe, write_to_memory-Safe, get_instruction-Safe, logic_address_to_frame-Safe,
}

respond-outcome :
    {A : Type 0} (bad : Status) (body : A → Payload) (o : Outcome Error A) (m : Memory)
    → StorageOk m
    → StorageOk (respond bad body (λ m. (o, m)) m).1
respond-outcome bad body (ok a) m k = k
respond-outcome bad body (err e) m k = k
respond-outcome bad body panic m k = k

respond-Safe :
    {A : Type 0} (bad : Status) (body : A → Payload) (f : M A) → Safe f → Safe (respond bad body f)
respond-Safe bad body f h = record {
  keeps = λ m k. respond-outcome bad body (f m).0 (f m).1 (h.keeps m k);
}

abbrev SafeInfo : Request → Option MethodRequestInfo → Type 0
SafeInfo r none = Unit {0}
SafeInfo r (some i) = Safe (i.callback r)

abbrev pub AllSafe : Request → GenericRequest → Type 0
AllSafe r [] = Unit {0}
AllSafe r ((key, i) ∷ table) = Safe (i.callback r) × AllSafe r table

find_method-SafeInfo :
    (r : Request) (name : Text) (table : GenericRequest)
    → AllSafe r table
    → SafeInfo r (find_method name table)
find_method-SafeInfo r name [] h = tt
find_method-SafeInfo r name ((key, i) ∷ table) h =
    if-intro (SafeInfo r) (text_eq key name) (some i) (find_method name table) h.0
      (find_method-SafeInfo r name table h.1)

or_any-SafeInfo :
    (r : Request) (table : GenericRequest) (o : Option MethodRequestInfo)
    → AllSafe r table
    → SafeInfo r o
    → SafeInfo r (or_any table o)
or_any-SafeInfo r table none h k = find_method-SafeInfo r (codes "ANY") table h
or_any-SafeInfo r table (some i) h k = k

call_unless-Safe : (o : Option Text) (f : M SimpleResponse) → Safe f → Safe (call_unless o f)
call_unless-Safe (some key) f h = Safe-return _
call_unless-Safe none f h = h

call-Safe : (r : Request) (o : Option MethodRequestInfo) → SafeInfo r o → Safe (call o r)
call-Safe r none h = Safe-return _
call-Safe r (some i) h = call_unless-Safe (first_missing i.req_params r) (i.callback r) h

pub handler_func-Safe :
    (r : Request) (table : GenericRequest) → AllSafe r table → Safe (handler_func table r)
unfolding handler_func
handler_func-Safe r table h = call-Safe r (or_any table (find_method r.method table)) (
    or_any-SafeInfo r table (find_method r.method table) h
      (find_method-SafeInfo r r.method table h))

Created-StorageOk :
    (pid s : ℕ) (m : Memory) (result : Outcome Error (Unit {0}) × Memory)
    → StorageOk m
    → Created pid s m result
    → StorageOk result.1
Created-StorageOk pid s m result k (refused e) = k
Created-StorageOk pid s m result k (created code bases m' enough same h) = h

create_process-Safe : (pid s : ℕ) (lines : List Text) → Safe (create_process pid lines (pos s))
create_process-Safe pid s lines = record {
  keeps = λ m k. Created-StorageOk pid s m _ k (create_process-Created pid s lines m k);
}

-- A request does not ask for a negative size.
abbrev pub Sized : Request → Type 0
Sized r = (s : ℕ) × (num_from_query (codes "size") r ≡ pos s)

pub process_post-Safe : (r : Request) → Sized r → Safe (process_post r)
unfolding process_post
process_post-Safe r h = respond-Safe _ _ _ (
    subst (λ n. Safe (create_process (pid_from_query r) (scan_lines r.body) n)) (sym h.1)
      (create_process-Safe (pid_from_query r) h.0 (scan_lines r.body)))

delete_process-Safe : (pid : ℕ) → Safe (delete_process pid)
delete_process-Safe pid = record { keeps = λ m k. (delete_process-StorageOk pid m k).1 }

at_base-Safe :
    {A : Type 0} (pid : ℕ) (base : ℤ) (f : ℕ → M A)
    → ((b : ℕ) → Safe (f b))
    → Safe (at_base pid base f)
at_base-Safe pid (pos b) f h = h b
at_base-Safe pid (negsuc n) f h =
    Safe-read (λ m. Safe-option (get_data_by_pid pid m) (Safe-throw _) (λ p. Safe-throw _))

first_byte-Safe : (bs : List ℕ) → Safe (first_byte bs)
first_byte-Safe [] = Safe-crash
first_byte-Safe (b ∷ bs) = Safe-return b

shown-Safe : (o : Outcome Error (List ℕ)) → Safe (shown o)
shown-Safe (ok page) = Safe-return _
shown-Safe (err e) = Safe-return _
shown-Safe panic = Safe-crash

page_to_string-Safe : (base : ℕ) → Safe (page_to_string base)
unfolding page_to_string
page_to_string-Safe base = record {
  keeps = λ m k. (shown-Safe (page_to_byte_array base m).0).keeps m k;
}

dump_pages-Safe : (i : ℕ) (bases : List ℕ) → Safe (dump_pages i bases)
unfolding dump_pages
dump_pages-Safe i [] = Safe-return []
dump_pages-Safe i (base ∷ bases) =
    Safe-bind (page_to_string-Safe base)
      (λ page. Safe-bind (dump_pages-Safe (suc i) bases) (λ rest. unchanged-Safe _))

dump_process-Safe : (p : ProcessData) → Safe (dump_process p)
dump_process-Safe p = Safe-read (λ m.
    Safe-then (Safe-crash_if ((m.pagination.page_size == 0) && not (length p.page_bases == 0)))
      (Safe-bind (dump_pages-Safe 0 p.page_bases) (λ pages. unchanged-Safe _)))

memory_dump-Safe : (pid : ℕ) → Safe (memory_dump pid)
unfolding memory_dump
memory_dump-Safe pid =
    Safe-read (λ m. Safe-option (get_data_by_pid pid m) (Safe-throw _) dump_process-Safe)

pub process_get-Safe : (r : Request) → Safe (process_get r)
unfolding process_get
process_get-Safe r = respond-Safe _ _ _ (get_instruction-Safe _ _)

pub process_delete-Safe : (r : Request) → Safe (process_delete r)
unfolding process_delete
process_delete-Safe r = respond-Safe _ _ _ (delete_process-Safe _)

pub frame_get-Safe : (r : Request) → Safe (frame_get r)
unfolding frame_get
frame_get-Safe r = respond-Safe _ _ _ (logic_address_to_frame-Safe _ _)

pub user_memory_get-Safe : (r : Request) → Safe (user_memory_get r)
unfolding user_memory_get
user_memory_get-Safe r =
    respond-Safe _ _ _ (at_base-Safe _ _ _ (λ base. get_from_memory-Safe _ base _))

pub user_memory_post-Safe : (r : Request) → Safe (user_memory_post r)
unfolding user_memory_post
user_memory_post-Safe r = respond-Safe _ _ _ (
    Safe-bind (first_byte-Safe r.body)
      (λ value. at_base-Safe _ _ _ (λ base. write_to_memory-Safe _ base _ value)))

pub dump_any-Safe : (r : Request) → Safe (dump_any r)
unfolding dump_any
dump_any-Safe r = respond-Safe _ _ _ (memory_dump-Safe _)

pub full_page_get-Safe : (r : Request) → Safe (full_page_get r)
unfolding full_page_get
full_page_get-Safe r =
    respond-Safe _ _ _
      (at_base-Safe _ _ _ (λ base. Safe-then (has_page-Safe _ base) (get_page-Safe _ base)))

pub full_page_post-Safe : (r : Request) → Safe (full_page_post r)
unfolding full_page_post
full_page_post-Safe r = respond-Safe bad_request empty_body _ (
    Safe-read (λ m.
      Safe-then
        (Safe-fail_if (not (length r.body == m.pagination.page_size)) body_does_not_match_page_size)
        (at_base-Safe (pid_from_query r) (num_from_query (codes "base") r)
          (λ base. write_page (pid_from_query r) base r.body)
          (λ base. write_page-Safe (pid_from_query r) base r.body))))

pub free_space_any-Safe : (r : Request) → Safe (free_space_any r)
unfolding free_space_any
free_space_any-Safe r = record { keeps = λ m k. k }

pub config_any-Safe : (r : Request) → Safe (config_any r)
config_any-Safe r = record { keeps = λ m k. k }
