-- ===== src/Cpu/Slices.antt =====
-- Go's slices, and what the reads and the writes of cpu/memory/ share.
pub mod Chunks
use tp_ssoo_1c.Prelude.{
  ℕ, zero, suc, ◌+◌, ◌-◌, Bool, true, false, List, [], ◌∷◌, ◌++◌, Option, none, some, ◌==◌, ltb,
  leb, if◌then◌else◌, length, take, drop,
}
use tp_ssoo_1c.Prelude.Exec.{◌>>=◌, ◌>>◌, return, throw, get_state, modify, crash_if}
use tp_ssoo_1c.Cpu.Cache.{Cache, is_in_cache, use_cache, modify_cache}
use tp_ssoo_1c.Cpu.Tlb.{find_frame}
use tp_ssoo_1c.Cpu.Machine.{Body, Server, Machine, blocked, C, get_page_in_memory, add_entry_cache}

-- `copy(dst, src)`: as many bytes as both have.
unfoldable pub overlay : List ℕ → List ℕ → List ℕ
overlay xs [] = xs
overlay [] (y ∷ ys) = []
overlay (x ∷ xs) (y ∷ ys) = y ∷ overlay xs ys

-- `copy(dst[d:], src)`
unfoldable pub splice : ℕ → List ℕ → List ℕ → List ℕ
unfolding overlay
splice d src dst = take d dst ++ overlay (drop d dst) src

-- The counts of bytes that the rounds of a loop move, a page at most each; the fuel is the bytes
-- that are left.
unfoldable pub sizes : ℕ → ℕ → ℕ → List ℕ
sizes page_size zero left = []
sizes page_size (suc fuel) left =
    let rest = sizes page_size fuel (left - page_size) in
    if left == 0 then [] else if leb left page_size then left ∷ [] else page_size ∷ rest

-- The bytes that they move.
unfoldable pub chunks : List ℕ → List ℕ → List (List ℕ)
chunks [] value = []
chunks (n ∷ ns) value = take n value ∷ chunks ns (drop n value)

abbrev pub page_size_of : {S : Type 0} → Machine S → ℕ
page_size_of m = m.memory_conf.page_size

abbrev pub cache_of : {S : Type 0} → Machine S → Cache
cache_of m = record { entries = m.entries; saved = [] }

abbrev pub bytes_of : Option Body → List ℕ
bytes_of none = []
bytes_of (some b) = b.bytes

-- `xs[low : low+n]` of a slice with these bytes up to its capacity.
abbrev pub slice_of : {S : Type 0} → List ℕ → ℕ → ℕ → C S (List ℕ)
slice_of xs low n = do crash_if (ltb (length xs) (low + n)); return (take n (drop low xs))

module _ {S : Type 0} (srv : Server S) where
  abbrev pub mark_used : List ℕ → C S (Unit {0})
  mark_used page = modify (λ m. record m { entries = (use_cache page (cache_of m)).entries })

  abbrev pub mark_modified : List ℕ → C S (Unit {0})
  mark_modified page = modify (λ m. record m { entries = (modify_cache page (cache_of m)).entries })

  -- `findFrame` of which the frame is only logged.
  abbrev pub touch_tlb : List ℕ → C S (Unit {0})
  touch_tlb page =
      modify (λ m. record m { tlb = (find_frame page m.pid (srv.time m.server) m.tlb).1 })

  abbrev pub load_body : List ℕ → Option Body → C S Bool
  load_body page none = return false
  load_body page (some b) = do add_entry_cache srv page b.bytes; return true

  -- A page that is not in the cache is brought there: false if memory does not give it.
  abbrev pub load_if_missing : List ℕ → ℕ → C S Bool
  load_if_missing page frame = do
    m ← get_state
    if is_in_cache page (cache_of m)
        then return true
        else (get_page_in_memory srv frame >>= load_body page)

  -- What `NextPageMMU` found, brought into the cache.
  abbrev pub load_next : Option (List ℕ × ℕ) → C S (Option (List ℕ))
  load_next none = return none
  load_next (some (page, frame)) = do
    loaded ← load_if_missing page frame
    return (if loaded then some page else none)

  -- A second request where the first one gives no page.
  abbrev pub get_page_twice : ℕ → C S (Option Body)
  get_page_twice frame = do
    body ← get_page_in_memory srv frame
    elim body [ none ↦ get_page_in_memory srv frame | some b ↦ return (some b) ]

  -- `config.ExitChan <- struct{}{}`
  abbrev pub send_exit : C S (Unit {0})
  send_exit = do
    m ← get_state
    if m.exit_chan then throw blocked else modify (λ m. record m { exit_chan = true })
