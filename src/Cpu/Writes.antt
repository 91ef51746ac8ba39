-- ===== src/Cpu/Writes.antt =====
-- cpu/memory/: WriteMemory of mmu.go and WriteCache of cache.go.
use tp_ssoo_1c.Prelude.{
  ℕ, ◌+◌, ◌-◌, Bool, true, false, List, [], ◌∷◌, Option, none, some, ◌==◌, ltb, leb, if◌then◌else◌,
  length, take, drop,
}
use tp_ssoo_1c.Prelude.Int.{ℤ, pos, negsuc}
use tp_ssoo_1c.Prelude.Exec.{◌>>=◌, ◌>>◌, return, crash, get_state, modify, crash_if}
use tp_ssoo_1c.Cpu.Cache.{search_page_in_cache, is_in_cache, update_page}
use tp_ssoo_1c.Cpu.Machine.{
  Body, Server, LogicAddr, C, traducir, get_page_in_memory, save_page_in_memory, add_entry_cache,
  next_page_mmu,
}
use tp_ssoo_1c.Cpu.Slices.{
  splice, sizes, chunks, page_size_of, cache_of, bytes_of, mark_modified, touch_tlb, load_next,
}

-- The bytes of the value from `n` on, page by page.
abbrev pub rest_of : ℕ → ℕ → List ℕ → List (List ℕ)
rest_of page_size n value =
    chunks (sizes page_size (length value - n) (length value - n)) (drop n value)

module _ {S : Type 0} (srv : Server S) where
  -- `copy(page[d:], value)` on the content of the page's entry, which the slice of the search is.
  abbrev write_entry : List ℕ → ℕ → List ℕ → C S (Unit {0})
  write_entry page d value = modify (λ m. record m {
    entries = update_page page (λ e. record e { content = splice d value e.content }) m.entries;
  })

  -- The same on a page that was found in the cache, with these bytes, or on a slice that is not the
  -- content of an entry.
  abbrev copy_to : List ℕ → ℕ → List ℕ → Option (List ℕ) → List ℕ → C S (Unit {0})
  copy_to page d value (some bytes) loose = do
    crash_if (ltb (length bytes) d)
    write_entry page d value
  copy_to page d value none loose = crash_if (ltb (length loose) d)

  -- A page that is not in the cache: memory is asked for it and it is put there. `none` is a page
  -- without a frame.
  abbrev fetch_loose : List ℕ → Option ℕ → C S (Option (List ℕ))
  fetch_loose page none = return none
  fetch_loose page (some frame) = do
    body ← get_page_in_memory srv frame
    add_entry_cache srv page (bytes_of body)
    return (some (bytes_of body))

  -- `paginaActual` taken for an address with an offset, as `Traducir` does.
  abbrev drop_last : List ℕ → List ℕ
  drop_last [] = []
  drop_last (d ∷ []) = []
  drop_last (d ∷ e ∷ ds) = d ∷ drop_last (e ∷ ds)

  abbrev traducir_page : List ℕ → ℕ → C S (Option ℕ)
  traducir_page [] pid = return none
  traducir_page (d ∷ ds) pid = traducir srv (drop_last (d ∷ ds)) pid

  -- The loop of `WriteCache` over the pages after the first one.
  unfoldable pub write_pages : List (List ℕ) → List ℕ → C S Bool
  unfolding splice
  write_pages [] page = return true
  write_pages (c ∷ cs) page = do
    m ← get_state
    let found = search_page_in_cache page (cache_of m)
    loose ← elim found [
      | some bytes ↦ return (some [])
      | none ↦ traducir_page page m.pid >>= fetch_loose page
    ]
    elim loose [
      | none ↦ return false
      | some bytes ↦ do
        copy_to page 0 c found bytes
        m' ← get_state
        frame ← traducir srv page m'.pid
        mark_modified srv page
        if length cs == 0
            then return true
            else (next_page_mmu srv page >>= load_next srv >>= λ next. elim next [
              | none ↦ return false
              | some page' ↦ write_pages cs page'
            ])
    ]

  -- `WriteCache` at offset `d`, of a page that was found or of a loose slice.
  abbrev write_at : List ℕ → ℕ → List ℕ → Option (List ℕ) → List ℕ → C S Bool
  write_at page d value found loose = do
    m ← get_state
    if leb (d + length value) (page_size_of m)
        then (do
          copy_to page d value found loose
          touch_tlb srv page
          mark_modified srv page
          return true)
        else (do
          crash_if (ltb (page_size_of m) d)
          copy_to page d (take (page_size_of m - d) value) found loose
          touch_tlb srv page
          mark_modified srv page
          next ← next_page_mmu srv page >>= load_next srv
          elim next [
            | none ↦ return false
            | some page' ↦ write_pages (rest_of (page_size_of m) (page_size_of m - d) value) page'
          ])

  abbrev write_delta : List ℕ → ℤ → List ℕ → Option (List ℕ) → List ℕ → C S Bool
  write_delta page (negsuc d) value found loose = crash
  write_delta page (pos d) value found loose = write_at page d value found loose

  unfoldable pub write_cache : LogicAddr → List ℕ → C S Bool
  unfolding write_pages sizes chunks
  write_cache addr value = do
    m ← get_state
    let found = search_page_in_cache addr.page (cache_of m)
    loose ← elim found [
      | some bytes ↦ return (some [])
      | none ↦ traducir srv addr.page m.pid >>= fetch_loose addr.page
    ]
    elim loose [
      | none ↦ return false
      | some bytes ↦ write_delta addr.page addr.delta value found bytes
    ]

  -- `copy(page[d:], value)` on a page that memory gave, and the page back to memory.
  abbrev pub write_body : List ℕ → ℕ → List ℕ → Body → C S (Unit {0})
  write_body page d value body = do
    crash_if (ltb (length body.bytes) d)
    m ← get_state
    saved ← save_page_in_memory srv (splice d value body.bytes) page m.pid
    return tt

  -- The loop of `WriteMemory` without a cache.
  unfoldable pub write_frames : List (List ℕ) → List ℕ → ℕ → C S Bool
  unfolding splice
  write_frames [] page frame = return true
  write_frames (c ∷ cs) page frame = do
    body ← get_page_in_memory srv frame
    elim body [
      | none ↦ return false
      | some b ↦ do
        m ← get_state
        ignored ← traducir srv page m.pid
        write_body page 0 c b
        if length cs == 0
            then return true
            else (next_page_mmu srv page >>= λ next. elim next [
              | none ↦ return false
              | some (page', frame') ↦ write_frames cs page' frame'
            ])
    ]

  abbrev pub write_direct : List ℕ → ℕ → List ℕ → Body → C S Bool
  write_direct page d value body = do
    m ← get_state
    if leb (d + length value) (page_size_of m)
        then (do write_body page d value body; return true)
        else (do
          crash_if (ltb (page_size_of m) d)
          write_body page d (take (page_size_of m - d) value) body
          next ← next_page_mmu srv page
          elim next [
            | none ↦ return false
            | some (page', frame') ↦
                write_frames (rest_of (page_size_of m) (page_size_of m - d) value) page' frame'
          ])

  abbrev pub write_offset : List ℕ → ℤ → List ℕ → Body → C S Bool
  write_offset page (negsuc d) value body = crash
  write_offset page (pos d) value body = write_direct page d value body

  -- The page of an address, from memory.
  abbrev pub fetch_page : Option ℕ → C S (Option Body)
  fetch_page none = return none
  fetch_page (some frame) = get_page_in_memory srv frame

  abbrev pub write_uncached : LogicAddr → List ℕ → C S Bool
  write_uncached addr value = do
    m ← get_state
    body ← traducir srv addr.page m.pid >>= fetch_page
    elim body [ none ↦ return false | some b ↦ write_offset addr.page addr.delta value b ]

  -- What `WriteCache` returns is not looked at.
  abbrev write_through : LogicAddr → List ℕ → Option Body → C S Bool
  write_through addr value none = return false
  write_through addr value (some b) = do
    add_entry_cache srv addr.page b.bytes
    ignored ← write_cache addr value
    return true

  abbrev pub write_cached : LogicAddr → List ℕ → C S Bool
  write_cached addr value = do
    m ← get_state
    if is_in_cache addr.page (cache_of m)
        then (do ignored ← write_cache addr value; return true)
        else (traducir srv addr.page m.pid >>= fetch_page >>= write_through addr value)

  -- `WriteMemory`
  unfoldable pub write_memory : LogicAddr → List ℕ → C S Bool
  unfolding write_cache write_frames
  write_memory addr value = do
    m ← get_state
    if m.cache_enable then write_cached addr value else write_uncached addr value
