-- ===== src/Cpu/Reads.antt =====
-- cpu/memory/: ReadMemory of mmu.go and ReadCache of cache.go.
pub mod Refusal
pub mod Crossing
use tp_ssoo_1c.Prelude.{
  ℕ, suc, ◌+◌, ◌-◌, List, [], ◌∷◌, ◌++◌, Option, none, some, ◌==◌, ltb, leb, if◌then◌else◌, length,
  take, drop, replicate,
}
use tp_ssoo_1c.Prelude.Int.{ℤ, pos, negsuc}
use tp_ssoo_1c.Prelude.Exec.{◌>>=◌, ◌>>◌, return, crash, get_state, crash_if}
use tp_ssoo_1c.Cpu.Cache.{search_page_in_cache, is_in_cache}
use tp_ssoo_1c.Cpu.Machine.{
  Body, Server, LogicAddr, C, traducir, get_page_in_memory, add_entry_cache, next_page_mmu,
}
use tp_ssoo_1c.Cpu.Slices.{
  splice, sizes, page_size_of, cache_of, bytes_of, slice_of, mark_used, load_if_missing, load_next,
  get_page_twice, send_exit,
}

module _ {S : Type 0} (srv : Server S) where
  -- The bytes of a page, and what memory gives for one that is not in the cache, with the frame
  -- that the first `NextPageMMU` found.
  abbrev add_body : List ℕ → Option Body → C S (Option (List ℕ))
  add_body page none = return none
  add_body page (some b) = do add_entry_cache srv page b.bytes; return (some (b.bytes ++ b.spare))

  abbrev page_bytes : List ℕ → ℕ → C S (Option (List ℕ))
  page_bytes page frame = do
    m ← get_state
    elim (search_page_in_cache page (cache_of m)) [
      | some bytes ↦ return (some bytes)
      | none ↦ get_page_in_memory srv frame >>= add_body page
    ]

  -- The loop of `ReadCache`: `acc` is `resultado`, `frame` stays the one of the second page.
  unfoldable pub read_pages : ℕ → List ℕ → List ℕ → List ℕ → C S (Option (List ℕ))
  unfolding search_page_in_cache
  read_pages frame acc [] page = return (some acc)
  read_pages frame acc (n ∷ ns) page = do
    found ← page_bytes page frame
    elim found [
      | none ↦ return none
      | some bytes ↦ do
        chunk ← slice_of bytes 0 n
        mark_used srv page
        if length ns == 0
            then return (some (acc ++ chunk))
            else (next_page_mmu srv page >>= load_next srv >>= λ next. elim next [
              | none ↦ return none
              | some page' ↦ read_pages frame (acc ++ chunk) ns page'
            ])
    ]

  -- The part of `ReadCache` below the first page.
  abbrev read_rest : List ℕ → ℕ → Option (List ℕ × ℕ) → C S (Option (List ℕ))
  read_rest first left none = return none
  read_rest first left (some (page, frame)) = do
    m ← get_state
    loaded ← load_if_missing srv page frame
    if loaded then read_pages frame first (sizes (page_size_of m) left left) page else return none

  -- `ReadCache` of `n` bytes from offset `d` of a page that is in the cache.
  abbrev read_found : List ℕ → ℕ → ℕ → List ℕ → C S (Option (List ℕ))
  read_found page d n bytes = do
    m ← get_state
    if leb (d + n) (page_size_of m)
        then (do mark_used srv page; chunk ← slice_of bytes d n; return (some chunk))
        else (do
          crash_if (ltb (page_size_of m) d)
          first ← slice_of bytes d (page_size_of m - d)
          mark_used srv page
          next ← next_page_mmu srv page
          read_rest first (n - (page_size_of m - d)) next)

  -- A negative offset and a negative size panic at the first slice.
  abbrev read_at : List ℕ → ℤ → ℤ → List ℕ → C S (Option (List ℕ))
  read_at page (negsuc d) n bytes = crash
  read_at page (pos d) (negsuc n) bytes = crash
  read_at page (pos d) (pos n) bytes = read_found page d n bytes

  unfoldable pub read_cache : LogicAddr → ℤ → C S (Option (List ℕ))
  unfolding search_page_in_cache read_pages
  read_cache addr size = do
    m ← get_state
    elim (search_page_in_cache addr.page (cache_of m)) [
      | none ↦ return none
      | some bytes ↦ read_at addr.page addr.delta size bytes
    ]

  -- `content[leido:]`, which the bytes are copied to.
  unfoldable pub place : ℕ → List ℕ → C S (Option (List ℕ)) → C S (Option (List ℕ))
  place leido content rest = do crash_if (ltb (length content) leido); rest

  -- The loop of `ReadMemory` without a cache: `content` has the bytes that are read, `leido` is the
  -- place of the next ones, and every page is read from the offset of the address.
  unfoldable pub read_frames : ℕ → ℕ → List ℕ → List ℕ → List ℕ → Body → C S (Option (List ℕ))
  unfolding splice
  read_frames d leido content [] page body = return (some content)
  read_frames d leido content (n ∷ ns) page body = do
    chunk ← slice_of (body.bytes ++ body.spare) d n
    place leido content (
        if length ns == 0
        then return (some (splice leido chunk content))
        else (next_page_mmu srv page >>= λ next. elim next [
          | none ↦ return none
          | some (page', frame) ↦
              (get_page_twice srv frame >>= λ found. elim found [
                | none ↦ return none
                | some body' ↦ read_frames d (leido + n) (splice leido chunk content) ns page' body'
              ])
        ]))

  -- The part of `ReadMemory` without a cache below the first page; `leido` is a whole page then.
  abbrev read_next : ℕ → ℕ → List ℕ → Option (List ℕ × ℕ) → C S (Option (List ℕ))
  read_next d left content none = return none
  read_next d left content (some (page, frame)) = do
    m ← get_state
    found ← get_page_twice srv frame
    elim found [
      | none ↦ return none
      | some body ↦
          read_frames d (page_size_of m) content (sizes (page_size_of m) left left) page body
    ]

  -- `n` bytes from offset `d`: within the page, or across its end.
  abbrev pub read_direct : List ℕ → ℕ → ℕ → Body → C S (Option (List ℕ))
  read_direct page d n body = do
    m ← get_state
    if leb (d + n) (page_size_of m)
        then return
            (if ltb (length body.bytes) (d + n) then none else some (take n (drop d body.bytes)))
        else (do
          crash_if (ltb (page_size_of m) d)
          first ← slice_of (body.bytes ++ body.spare) d (page_size_of m - d)
          next ← next_page_mmu srv page
          read_next d (n - (page_size_of m - d)) (splice 0 first (replicate n 0)) next)

  -- A negative size panics in `make`; a negative offset is refused within the page and panics
  -- beyond it.
  abbrev pub read_body : List ℕ → ℤ → ℤ → Body → C S (Option (List ℕ))
  read_body page d (negsuc n) body = crash
  read_body page (negsuc d) (pos n) body = do
    m ← get_state
    crash_if (ltb (page_size_of m + suc d) n)
    return none
  read_body page (pos d) (pos n) body = read_direct page d n body

  abbrev pub read_uncached : LogicAddr → ℤ → ℕ → C S (Option (List ℕ))
  read_uncached addr size frame = do
    found ← get_page_twice srv frame
    elim found [ none ↦ return none | some body ↦ read_body addr.page addr.delta size body ]

  -- The page is brought into the cache even where memory did not give it.
  abbrev bring : List ℕ → ℕ → C S (Unit {0})
  bring page frame = do
    m ← get_state
    if is_in_cache page (cache_of m)
        then return tt
        else (get_page_in_memory srv frame >>= λ body. add_entry_cache srv page (bytes_of body))

  abbrev pub exit_if_none : Option (List ℕ) → C S (Option (List ℕ))
  exit_if_none none = do send_exit srv; return none
  exit_if_none (some content) = return (some content)

  abbrev pub read_cached : LogicAddr → ℤ → ℕ → C S (Option (List ℕ))
  read_cached addr size frame = do
    bring addr.page frame
    content ← read_cache addr size
    exit_if_none content

  abbrev pub read_framed : LogicAddr → ℤ → Option ℕ → C S (Option (List ℕ))
  read_framed addr size none = do send_exit srv; return none
  read_framed addr size (some frame) = do
    m ← get_state
    if m.cache_enable then read_cached addr size frame else read_uncached addr size frame

  abbrev pub translate_again : List ℕ → Option ℕ → C S (Option ℕ)
  translate_again page (some f) = return (some f)
  translate_again page none = do m ← get_state; traducir srv page m.pid

  -- `ReadMemory`: `none` is its -1, else the content that it logs.
  unfoldable pub read_memory : LogicAddr → ℤ → C S (Option (List ℕ))
  unfolding traducir read_cache
  read_memory addr size = do
    m ← get_state
    first ← traducir srv addr.page m.pid
    frame ← translate_again addr.page first
    read_framed addr size frame
