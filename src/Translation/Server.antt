-- ===== src/Translation/Server.antt =====
-- The memory server (memoria/memoria.go) as a CPU reaches it (cpu/memory/memoryConection.go): the
-- requests that the CPU builds, served by the handlers.
use tp_ssoo_1c.Prelude.{
  ℕ, Bool, true, false, List, [], ◌∷◌, Option, none, some, if◌then◌else◌, length,
}
use tp_ssoo_1c.Prelude.Exec.{Outcome, ok, err, panic}
use tp_ssoo_1c.Utils.Text.{Text, codes, itoa}
use tp_ssoo_1c.Cpu.Machine.{Body, Put, stored, refused, failed, Server}
use tp_ssoo_1c.Memory.State.{Memory, Error}
use tp_ssoo_1c.Memory.Requests.{
  Request, Status, status_ok, bad_request, bad_gateway, method_not_allowed, Payload, bytes, message,
  json_instruction, json_config, missing, not_allowed, SimpleResponse,
}
use tp_ssoo_1c.Memory.Server.{frame, full_page, dump, serve}

-- The bytes of a response whose status is OK.
abbrev bytes_of_payload : Payload → Option (List ℕ)
bytes_of_payload (bytes b) = some b
bytes_of_payload (message e) = none
bytes_of_payload (json_instruction i) = none
bytes_of_payload (json_config c) = none
bytes_of_payload (missing key) = none
bytes_of_payload (not_allowed method) = none

abbrev is_ok : Status → Bool
is_ok status_ok = true
is_ok bad_request = false
is_ok bad_gateway = false
is_ok method_not_allowed = false

-- A handler that panics sends no response.
abbrev pub ok_bytes : Outcome Error SimpleResponse → Option (List ℕ)
ok_bytes (ok r) = if is_ok r.status then bytes_of_payload r.body else none
ok_bytes (err e) = none
ok_bytes panic = none

abbrev pub put_result : Outcome Error SimpleResponse → Put
put_result (ok r) = if is_ok r.status then stored else refused
put_result (err e) = failed
put_result panic = failed

abbrev answered : Outcome Error SimpleResponse → Bool
answered (ok r) = true
answered (err e) = false
answered panic = false

abbrev pub frame_request : ℕ → Text → Request
frame_request pid address = record {
  method = codes "GET";
  query = (codes "pid", itoa pid) ∷ (codes "address", address) ∷ [];
  body = [];
}

abbrev pub page_request : Text → ℕ → ℕ → List ℕ → Request
page_request method pid base body = record {
  method = method;
  query = (codes "pid", itoa pid) ∷ (codes "base", itoa base) ∷ [];
  body = body;
}

abbrev dump_request : ℕ → Request
dump_request pid = record { method = codes "POST"; query = (codes "pid", itoa pid) ∷ []; body = [] }

abbrev pub with_spare : (ℕ → List ℕ) → Option (List ℕ) → Option Body
with_spare spare none = none
with_spare spare (some b) = some (record { bytes = b; spare = spare (length b) })

-- `spare` is what `io.ReadAll` has behind the bytes in its buffer, `clock` the time.
abbrev pub memory_server : (ℕ → List ℕ) → (Memory → ℕ) → Server Memory
memory_server spare clock = record {
  get_frame =
      λ pid address m. let r = serve frame (frame_request pid address) m in (ok_bytes r.0, r.1);
  get_full_page = λ pid base m.
      let r = serve full_page (page_request (codes "GET") pid base []) m in
      (with_spare spare (ok_bytes r.0), r.1);
  put_full_page = λ pid base body m.
      let r = serve full_page (page_request (codes "POST") pid base body) m in
      (put_result r.0, r.1);
  dump = λ pid m. let r = serve dump (dump_request pid) m in (answered r.0, r.1);
  time = clock;
}
