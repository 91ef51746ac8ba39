-- ===== src/Memory/Server.antt =====
-- memoria/memoria.go: the handlers of the memory server. The delays and the log are left out.
pub mod Keeps
pub mod Handlers
pub mod Reach
use tp_ssoo_1c.Prelude.{
  ℕ, zero, suc, ◌+◌, ◌-◌, ◌^◌, Bool, true, false, List, [], ◌∷◌, ◌++◌, map, Option, none, some, ltb,
  ◌==◌, if◌then◌else◌, length, not,
}
use tp_ssoo_1c.Prelude.Int.{ℤ, pos, negsuc}
use tp_ssoo_1c.Prelude.Exec.{
  Outcome, ok, err, panic, ◌>>=◌, ◌>>◌, return, throw, crash, get_state, fail_if,
}
use tp_ssoo_1c.Utils.Text.{Text, codes, text_eq, split, itoa, itoa_int, atoi_or_zero}
use tp_ssoo_1c.Utils.Codeutils.{Instruction}
use tp_ssoo_1c.Memory.State.{
  Memory, PaginationConfig, Error, M, get_data_by_pid, could_not_find_process, page_not_assigned,
  body_does_not_match_page_size,
}
use tp_ssoo_1c.Memory.Process.{create_process, get_instruction, delete_process}
use tp_ssoo_1c.Memory.Pages.{has_page, get_from_memory, write_to_memory, get_page, write_page}
use tp_ssoo_1c.Memory.Address.{string_to_logic_address, logic_address_to_frame}
use tp_ssoo_1c.Memory.Swap.{suspend_process, unsuspend_process}
use tp_ssoo_1c.Memory.Dump.{memory_dump}
use tp_ssoo_1c.Memory.Requests.{
  Request, Status, status_ok, bad_request, bad_gateway, Payload, bytes, json_instruction,
  json_config, SimpleResponse, MethodRequestInfo, GenericRequest, handler_func, query_get,
  text_or_empty, num_from_query, pid_from_query, respond, empty_body, scan_lines,
}

-- `processDataReqHandler`
unfoldable pub process_get : Request → M SimpleResponse
unfolding get_instruction
process_get r =
    respond bad_gateway json_instruction
      (get_instruction (pid_from_query r) (num_from_query (codes "pc") r))

unfoldable pub process_post : Request → M SimpleResponse
unfolding create_process scan_lines num_from_query
process_post r =
    respond bad_gateway empty_body
      (create_process (pid_from_query r) (scan_lines r.body) (num_from_query (codes "size") r))

unfoldable pub process_delete : Request → M SimpleResponse
unfolding delete_process
process_delete r = respond bad_gateway empty_body (delete_process (pid_from_query r))

-- `processFrameReqHandler`
unfoldable pub frame_get : Request → M SimpleResponse
unfolding logic_address_to_frame string_to_logic_address itoa
frame_get r =
    respond bad_request (λ base. bytes (itoa base))
      (logic_address_to_frame (pid_from_query r)
        (string_to_logic_address (text_or_empty (query_get (codes "address") r.query))))

-- An operation on a base of an `int`: no process has a page with a base below zero.
abbrev pub at_base : {A : Type 0} → ℕ → ℤ → (ℕ → M A) → M A
at_base pid (pos base) f = f base
at_base pid (negsuc n) f = do
  m ← get_state
  elim (get_data_by_pid pid m) [
    | none ↦ throw could_not_find_process
    | some p ↦ throw page_not_assigned
  ]

-- `userMemoryReqHandler`
unfoldable pub user_memory_get : Request → M SimpleResponse
unfolding get_from_memory num_from_query
user_memory_get r =
    respond bad_request (λ b. bytes (b ∷ []))
      (at_base (pid_from_query r) (num_from_query (codes "base") r)
        (λ base. get_from_memory (pid_from_query r) base (num_from_query (codes "delta") r)))

-- `value[0]`
abbrev pub first_byte : List ℕ → M ℕ
first_byte [] = crash
first_byte (b ∷ bs) = return b

unfoldable pub user_memory_post : Request → M SimpleResponse
unfolding write_to_memory num_from_query
user_memory_post r = respond bad_request empty_body (do
  value ← first_byte r.body
  at_base (pid_from_query r) (num_from_query (codes "base") r)
      (λ base. write_to_memory (pid_from_query r) base (num_from_query (codes "delta") r) value))

-- `memoryDumpReqHandler`
unfoldable pub dump_any : Request → M SimpleResponse
unfolding memory_dump
dump_any r = respond bad_gateway empty_body (memory_dump (pid_from_query r))

-- `memoryConfigReqHandler`
abbrev pub config_any : Request → M SimpleResponse
config_any r m = (ok (record { status = status_ok; body = json_config m.pagination }), m)

-- `fullPageReqHandler`: `HasPage` is tested before `GetPage` tests it.
unfoldable pub full_page_get : Request → M SimpleResponse
unfolding has_page get_page num_from_query
full_page_get r = respond bad_request bytes (
    at_base (pid_from_query r) (num_from_query (codes "base") r)
      (λ base. do has_page (pid_from_query r) base; get_page (pid_from_query r) base))

unfoldable pub full_page_post : Request → M SimpleResponse
unfolding write_page num_from_query
full_page_post r = respond bad_request empty_body (do
  m ← get_state
  fail_if (not (length r.body == m.pagination.page_size)) body_does_not_match_page_size
  at_base (pid_from_query r) (num_from_query (codes "base") r)
      (λ base. write_page (pid_from_query r) base r.body))

-- `freeSpaceRequestHandler`
unfoldable pub free_space_any : Request → M SimpleResponse
unfolding itoa_int
free_space_any r m =
    (ok (record { status = status_ok; body = bytes (itoa_int m.remaining_memory) }), m)

-- `suspendProcessRequestHandler`
unfoldable pub suspend_any : Request → M SimpleResponse
unfolding suspend_process
suspend_any r = respond bad_gateway empty_body (suspend_process (pid_from_query r))

-- `unsuspendProcessRequestHandler`
unfoldable pub unsuspend_any : Request → M SimpleResponse
unfolding unsuspend_process
unsuspend_any r = respond bad_gateway empty_body (unsuspend_process (pid_from_query r))

abbrev pub info : List Text → (Request → M SimpleResponse) → MethodRequestInfo
info params callback = record { req_params = params; callback = callback }

-- The endpoints that `main` adds to the mux, but for /shutdown and /ping.
pub data Endpoint : Type 0 where
  process frame user_memory dump full_page config suspend unsuspend free_space : Endpoint

abbrev pub routes : Endpoint → GenericRequest
routes process =
    (codes "GET", info (codes "pid" ∷ codes "pc" ∷ []) process_get)
    ∷ (codes "POST", info (codes "pid" ∷ codes "size" ∷ []) process_post)
    ∷ (codes "DELETE", info (codes "pid" ∷ []) process_delete)
    ∷ []
routes frame = (codes "GET", info (codes "pid" ∷ codes "address" ∷ []) frame_get) ∷ []
routes user_memory =
    (codes "GET", info (codes "pid" ∷ codes "base" ∷ codes "delta" ∷ []) user_memory_get)
    ∷ (codes "POST", info (codes "pid" ∷ codes "base" ∷ codes "delta" ∷ []) user_memory_post)
    ∷ []
routes dump = (codes "ANY", info (codes "pid" ∷ []) dump_any) ∷ []
routes full_page =
    (codes "GET", info (codes "pid" ∷ codes "base" ∷ []) full_page_get)
    ∷ (codes "POST", info (codes "pid" ∷ codes "base" ∷ []) full_page_post)
    ∷ []
routes config = (codes "ANY", info [] config_any) ∷ []
routes suspend = (codes "ANY", info (codes "pid" ∷ []) suspend_any) ∷ []
routes unsuspend = (codes "ANY", info (codes "pid" ∷ []) unsuspend_any) ∷ []
routes free_space = (codes "ANY", info [] free_space_any) ∷ []

-- A request to an endpoint.
unfoldable pub serve : Endpoint → Request → M SimpleResponse
unfolding handler_func
serve e = handler_func (routes e)
