-- ===== src/Cpu/Machine.antt =====
-- cpu/: the state of a CPU, and cpu/memory/memoryConection.go, its requests to the memory server.
-- What the server does with a request is a parameter.
use tp_ssoo_1c.Prelude.{
  ℕ, Bool, true, false, not, List, [], ◌∷◌, map, Option, none, some, ◌==◌, if◌then◌else◌, length,
}
use tp_ssoo_1c.Prelude.Int.{ℤ, pos, negsuc}
use tp_ssoo_1c.Prelude.Exec.{Exec, ok, ◌>>=◌, ◌>>◌, return, crash, get_state, modify, crash_if}
use tp_ssoo_1c.Utils.Text.{Text, itoa, atoi, join}
use tp_ssoo_1c.Utils.Codeutils.{Instruction}
use tp_ssoo_1c.Cpu.Address.{MemoryConf, sum}
use tp_ssoo_1c.Cpu.Tlb.{Tlb, lookup_tlb, add_entry_tlb}
use tp_ssoo_1c.Cpu.Cache.{
  Cache, CacheEntry, Saved, Incoming, Pass, placed, missed, freed_entry, is_owner,
  add_entry_cache_clock, add_entry_cache_clock_m,
}

-- A body that `io.ReadAll` returned: its bytes, and those of its buffer behind them.
pub record Body : Type 0 where
  pub bytes : List ℕ
  pub spare : List ℕ

-- The answer to a page that is sent: OK, another status, or a failed request.
pub data Put : Type 0 where
  stored refused failed : Put

-- The memory server and the clock, as a CPU sees them. `none` is a failed request or a status that
-- is not OK; the request of a dump is false when it fails.
pub record Server (S : Type 0) : Type 0 where
  pub get_frame : ℕ → Text → S → Option Text × S
  pub get_full_page : ℕ → ℕ → S → Option Body × S
  pub put_full_page : ℕ → ℕ → List ℕ → S → Put × S
  pub dump : ℕ → S → Bool × S
  pub time : S → ℕ

-- `[]int` with the offset as its last element.
pub record LogicAddr : Type 0 where
  pub page : List ℕ
  pub delta : ℤ

pub record Machine (S : Type 0) : Type 0 where
  pub server : S
  pub memory_conf : MemoryConf
  pub pid : ℕ
  pub pc : ℤ
  pub instruction : Instruction
  pub addr : LogicAddr
  pub value : List ℕ
  pub arg1 : ℤ
  pub tlb : Tlb
  pub cache_enable : Bool
  pub clock : Bool
  pub entries : List CacheEntry
  pub exit_chan : Bool
  pub interrupt_chan : Bool

-- A send on a channel whose buffer is full.
pub data Stuck : Type 0 where
  blocked : Stuck

abbrev pub C : Type 0 → Type 0 → Type 0
C S A = Exec (Machine S) Stuck A

-- `fromLogicAddrToString`
unfoldable pub from_logic_addr_to_string : List ℕ → Text
from_logic_addr_to_string page = join b'|' (map itoa page)

-- `strconv.Atoi(string(bodyBytes))` of a frame's base, which is not negative.
abbrev pub frame_of_text : Text → Option ℕ
frame_of_text text = elim (atoi text) [
  | none ↦ none
  | some n ↦ elim n [ pos f ↦ some f | negsuc k ↦ none ]
]

module _ {S : Type 0} (srv : Server S) where
  -- A request to the server, which may change it.
  abbrev pub request : {A : Type 0} → (S → A × S) → C S A
  request f m = (ok (f m.server).0, record m { server = (f m.server).1 })

  -- `MandarDumpMemory`: after a failed request the body of no response is closed.
  abbrev pub mandar_dump_memory : ℕ → C S (Unit {0})
  mandar_dump_memory pid = do sent ← request (srv.dump pid); crash_if (not sent)

  -- What follows the answer of the server to a request for a frame.
  abbrev pub frame_answer : ℕ → Option ℕ → C S (Option ℕ)
  frame_answer pid none = do mandar_dump_memory pid; return none
  frame_answer pid (some f) = return (some f)

  -- `findFrameInMemory`
  unfoldable pub find_frame_in_memory : List ℕ → ℕ → C S (Option ℕ)
  unfolding from_logic_addr_to_string
  find_frame_in_memory page pid = do
    m ← get_state
    text ← request (srv.get_frame pid (from_logic_addr_to_string page))
    frame_answer m.pid (elim text [ none ↦ none | some t ↦ frame_of_text t ])

  -- The first answer, or the second one.
  abbrev pub ask_again : List ℕ → ℕ → Option ℕ → C S (Option ℕ)
  ask_again page pid (some f) = return (some f)
  ask_again page pid none = find_frame_in_memory page pid

  abbrev pub set_tlb : Tlb → C S (Unit {0})
  set_tlb t = modify (λ m. record m { tlb = t })

  abbrev pub remember : List ℕ → ℕ → Option ℕ → C S (Option ℕ)
  remember page pid none = return none
  remember page pid (some f) = do
    m ← get_state
    set_tlb (add_entry_tlb page f pid (srv.time m.server) m.tlb)
    return (some f)

  abbrev pub ask_memory : List ℕ → ℕ → Option ℕ → C S (Option ℕ)
  ask_memory page pid (some f) = return (some f)
  ask_memory page pid none = do
    first ← find_frame_in_memory page pid
    frame ← ask_again page pid first
    remember page pid frame

  -- `Traducir` of the page of an address; the offset is passed on as it is.
  unfoldable pub traducir : List ℕ → ℕ → C S (Option ℕ)
  traducir page pid = do
    m ← get_state
    let (hit, t) = lookup_tlb page pid (srv.time m.server) m.tlb
    set_tlb t
    ask_memory page pid hit

  abbrev pub page_answer : ℕ → Option Body → C S (Option Body)
  page_answer pid none = do mandar_dump_memory pid; return none
  page_answer pid (some b) = return (some b)

  -- `GetPageInMemory`
  unfoldable pub get_page_in_memory : ℕ → C S (Option Body)
  get_page_in_memory frame = do
    m ← get_state
    body ← request (srv.get_full_page m.pid frame)
    page_answer m.pid body

  abbrev pub put_answer : ℕ → Put → C S Bool
  put_answer pid stored = return true
  put_answer pid refused = do mandar_dump_memory pid; return true
  put_answer pid failed = do mandar_dump_memory pid; return false

  -- `frame_str[0]` of a page that has no frame panics.
  abbrev pub put_page : List ℕ → ℕ → Option ℕ → C S Bool
  put_page bytes pid none = crash
  put_page bytes pid (some f) = do
    answer ← request (srv.put_full_page pid f bytes)
    put_answer pid answer

  -- `SavePageInMemory` of a process's page: false is its error.
  unfoldable pub save_page_in_memory : List ℕ → List ℕ → ℕ → C S Bool
  unfolding traducir
  save_page_in_memory bytes page pid = do frame ← traducir page pid; put_page bytes pid frame

  -- The pages that the cache gave up, in their order. The error is not looked at.
  unfoldable pub save_all : List Saved → C S (Unit {0})
  unfolding save_page_in_memory
  save_all [] = return tt
  save_all (s ∷ ss) = do saved ← save_page_in_memory s.content s.page s.owner; save_all ss

  -- The cache after the pages are saved that its replacement gave up.
  abbrev pub install_cache : Cache → C S (Unit {0})
  install_cache c = do save_all c.saved; modify (λ m. record m { entries = c.entries })

  abbrev pub install_option : Option Cache → C S (Unit {0})
  install_option none = crash
  install_option (some c) = install_cache c

  -- After the rounds of CLOCK-M that find no entry, only the hand has moved.
  abbrev pub install_pass : Pass → C S (Unit {0})
  install_pass (placed c) = install_cache c
  install_pass (missed i c) = install_cache c

  -- The choice of `AddEntryCache`: every algorithm but CLOCK is CLOCK-M.
  abbrev pub replace_entry : Bool → Incoming → Cache → C S (Unit {0})
  replace_entry true x c = install_option (add_entry_cache_clock x c)
  replace_entry false x c = install_pass (add_entry_cache_clock_m x c)

  -- `AddEntryCache`: an empty cache panics.
  unfoldable pub add_entry_cache : List ℕ → List ℕ → C S (Unit {0})
  unfolding add_entry_cache_clock add_entry_cache_clock_m
  add_entry_cache page content = do
    m ← get_state
    crash_if (length m.entries == 0)
    replace_entry m.clock (record { pid = m.pid; page = page; content = content })
        (record { entries = m.entries; saved = [] })

  abbrev pub keep_entry : CacheEntry → C S (List CacheEntry) → C S (List CacheEntry)
  keep_entry e rest = do es ← rest; return (e ∷ es)

  -- An entry of the process: it is saved if it was modified, and left out if that fails.
  abbrev pub free_entry : CacheEntry → ℕ → C S (List CacheEntry) → C S (List CacheEntry)
  free_entry e pid rest =
      if e.modified
      then (do
        saved ← save_page_in_memory e.content e.page pid
        if saved then keep_entry freed_entry rest else rest)
      else keep_entry freed_entry rest

  -- The loop of `EndProcess`.
  unfoldable pub end_entries : ℕ → List CacheEntry → C S (List CacheEntry)
  unfolding save_page_in_memory
  end_entries pid [] = return []
  end_entries pid (e ∷ es) =
      if is_owner e.pid pid
      then free_entry e pid (end_entries pid es)
      else keep_entry e (end_entries pid es)

  unfoldable pub end_process : ℕ → C S (Unit {0})
  end_process pid = do
    m ← get_state
    es ← end_entries pid m.entries
    modify (λ m. record m { entries = es })

  -- `NextPageMMU`: the next page and its frame. An address of no level panics in `sum`.
  unfoldable pub next_page_mmu : List ℕ → C S (Option (List ℕ × ℕ))
  unfolding sum traducir
  next_page_mmu page = do
    crash_if (length page == 0)
    m ← get_state
    let next = sum page m.memory_conf.entries_per_page
    frame ← traducir next m.pid
    return (elim frame [ none ↦ none | some f ↦ some (next, f) ])
