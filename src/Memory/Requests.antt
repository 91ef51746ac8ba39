-- ===== src/Memory/Requests.antt =====
-- memoria/memoria.go: requests, responses and GenericRequest.HandlerFunc. A request's query is given parsed.
use tp_ssoo_1c.Prelude.{
  ℕ, suc, ◌-◌, ◌^◌, List, [], ◌∷◌, map, Option, none, some, ◌==◌, if◌then◌else◌,
}
use tp_ssoo_1c.Prelude.Int.{ℤ, pos, negsuc}
use tp_ssoo_1c.Prelude.Exec.{ok, err, panic, return}
use tp_ssoo_1c.Utils.Text.{Text, codes, text_eq, split, atoi_or_zero}
use tp_ssoo_1c.Utils.Codeutils.{Instruction}
use tp_ssoo_1c.Memory.State.{PaginationConfig, Error, M}

pub record Request : Type 0 where
  pub method : Text
  pub query : List (Text × Text)
  pub body : List ℕ

-- The statuses that the handlers answer with: 200, 400, 502 and 405.
pub data Status : Type 0 where
  status_ok bad_request bad_gateway method_not_allowed : Status

-- A body: bytes, an error's message, the JSON text of a value, or what the server says itself.
pub data Payload : Type 0 where
  bytes : List ℕ → Payload
  message : Error → Payload
  json_instruction : Instruction → Payload
  json_config : PaginationConfig → Payload
  missing : Text → Payload
  not_allowed : Text → Payload

pub record SimpleResponse : Type 0 where
  pub status : Status
  pub body : Payload

pub record MethodRequestInfo : Type 0 where
  pub req_params : List Text
  pub callback : Request → M SimpleResponse

-- The handlers of an endpoint by the name of their method.
abbrev pub GenericRequest : Type 0
GenericRequest = List (Text × MethodRequestInfo)

abbrev pub find_method : Text → GenericRequest → Option MethodRequestInfo
find_method name [] = none
find_method name ((key, info) ∷ table) =
    if text_eq key name then some info else find_method name table

-- `r.URL.Query().Get(key)`, with what `Has` tells.
abbrev pub query_get : Text → List (Text × Text) → Option Text
query_get key [] = none
query_get key ((k, v) ∷ query) = if text_eq k key then some v else query_get key query

abbrev pub text_or_empty : Option Text → Text
text_or_empty none = []
text_or_empty (some text) = text

-- `numFromQuery`
unfoldable pub num_from_query : Text → Request → ℤ
unfolding atoi_or_zero
num_from_query key r = atoi_or_zero (text_or_empty (query_get key r.query))

-- `uint(n)` of an `int` of 64 bits.
abbrev pub uint : ℤ → ℕ
uint (pos n) = n
uint (negsuc n) = 2 ^ 64 - suc n

abbrev pub pid_from_query : Request → ℕ
pid_from_query r = uint (num_from_query (codes "pid") r)

-- The first query parameter that is missing.
abbrev pub first_missing : List Text → Request → Option Text
first_missing [] r = none
first_missing (key ∷ keys) r = elim (query_get key r.query) [
  | none ↦ some key
  | some value ↦ first_missing keys r
]

abbrev pub call_unless : Option Text → M SimpleResponse → M SimpleResponse
call_unless (some key) callback = return (record { status = bad_request; body = missing key })
call_unless none callback = callback

abbrev pub call : Option MethodRequestInfo → Request → M SimpleResponse
call none r = return (record { status = method_not_allowed; body = not_allowed r.method })
call (some info) r = call_unless (first_missing info.req_params r) (info.callback r)

abbrev pub or_any : GenericRequest → Option MethodRequestInfo → Option MethodRequestInfo
or_any table none = find_method (codes "ANY") table
or_any table (some info) = some info

-- `GenericRequest.HandlerFunc`
unfoldable pub handler_func : GenericRequest → Request → M SimpleResponse
handler_func table r = call (or_any table (find_method r.method table)) r

-- `if err != nil` of a storage operation: its error is the answer.
abbrev pub respond : {A : Type 0} → Status → (A → Payload) → M A → M SimpleResponse
respond bad body f m = elim (f m).0 [
  | ok a ↦ (ok (record { status = status_ok; body = body a }), (f m).1)
  | err e ↦ (ok (record { status = bad; body = message e }), (f m).1)
  | panic ↦ (panic, (f m).1)
]

abbrev pub empty_body : {A : Type 0} → A → Payload
empty_body a = bytes []

-- The lines that `bufio.Scanner` yields: the end of a line is a newline with a carriage return
-- before it or not, and an empty rest is no line.
abbrev drop_cr : Text → Text
drop_cr [] = []
drop_cr (c ∷ []) = if c == b'\r' then [] else c ∷ []
drop_cr (c ∷ d ∷ s) = c ∷ drop_cr (d ∷ s)

abbrev drop_empty_rest : List Text → List Text
drop_empty_rest [] = []
drop_empty_rest ([] ∷ []) = []
drop_empty_rest ((c ∷ s) ∷ []) = (c ∷ s) ∷ []
drop_empty_rest (s ∷ t ∷ ts) = s ∷ drop_empty_rest (t ∷ ts)

unfoldable pub scan_lines : List ℕ → List Text
unfolding split
scan_lines text = map drop_cr (drop_empty_rest (split b'\n' text))
