-- ===== src/Cpu/Reads/Crossing.antt =====
-- cpu/memory/mmu.go: ReadMemory without a cache, across the end of a page.
use tp_ssoo_1c.Prelude.{
  ℕ, zero, suc, ◌+◌, ◌-◌, ◌≤◌, ◌<◌, if-intro, ◌≡◌, ◌≢◌, refl, ap, ◌∙◌, true, false, List, [], ◌∷◌,
  ◌++◌, Option, none, some, length, take, drop, replicate, length-replicate, arith, leb, ltb, ◌==◌,
  if◌then◌else◌, Bool-cases, inl, inr, subst, sym,
}
use tp_ssoo_1c.Prelude.Int.{ℤ, pos}
use tp_ssoo_1c.Prelude.Exec.{throw, modify, Outcome, ok, panic, ◌>>=◌, ◌>>◌, return, crash_if}
use tp_ssoo_1c.Cpu.Machine.{blocked, Stuck, Server, Body, LogicAddr, Machine, C, next_page_mmu}
use tp_ssoo_1c.Cpu.Slices.{send_exit, sizes, splice, slice_of, get_page_twice, overlay}
use tp_ssoo_1c.Cpu.Reads.{
  read_cached, read_body, place, read_frames, read_next, read_direct, read_uncached, read_framed,
  translate_again, read_memory,
}
use tp_ssoo_1c.Cpu.Reads.Refusal.{
  Refuses, Sized, Held, Held-return, Held-state, Held-crash_if, Held-then, traducir-Held,
  next_page_mmu-Held, get_page_twice-Held, has_content, Refuses-bind, Refuses-then,
  Held-state-Refuses, Refuses-none,
}

module _ {S : Type 0} (srv : Server S) (page_size : ℕ) where
  slice_of-Held : (xs : List ℕ) (low n : ℕ) → Held srv page_size (slice_of xs low n)
  slice_of-Held xs low n =
      Held-then srv page_size (Held-crash_if srv page_size (ltb (length xs) (low + n)))
        (Held-return srv page_size _)

  place-run :
      (leido : ℕ) (content : List ℕ) (f : C S (Option (List ℕ))) (m : Machine S)
      → length content < leido
      → place srv leido content f m ≡ (panic, m)
  unfolding place
  place-run leido content f m h = ground arith

  place-Refuses :
      (leido : ℕ) (content : List ℕ) (f : C S (Option (List ℕ)))
      → length content < leido
      → Refuses srv page_size (place srv leido content f)
  place-Refuses leido content f h = record {
    never = λ m s.
        ap (λ (r : Outcome Stuck (Option (List ℕ)) × Machine S). has_content srv page_size r.0)
          (place-run leido content f m h);
  }

  -- The place of the next bytes is behind the content.
  read_frames-Refuses :
      (d leido n : ℕ) (content ns page : List ℕ) (body : Body)
      → length content < leido
      → Refuses srv page_size (read_frames srv d leido content (n ∷ ns) page body)
  unfolding read_frames
  read_frames-Refuses d leido n content ns page body h =
      Refuses-bind srv page_size (slice_of-Held (body.bytes ++ body.spare) d n)
        (λ chunk. place-Refuses leido content _ h)

  sizes-Refuses :
      (d leido left fuel : ℕ) (content page : List ℕ) (body : Body)
      → length content < leido
      → 0 < left
      → Refuses srv page_size
          (read_frames srv d leido content (sizes leido (suc fuel) left) page body)
  unfolding sizes
  sizes-Refuses d leido left fuel content page body h l =
      let more : (left == 0) ≡ false = ground arith in
      elim (Bool-cases (leb left leido)) [
        | inl e ↦ rw (more, e, sizes) (read_frames-Refuses d leido left content [] page body h)
        | inr e ↦
            rw (more, e, sizes)
              (read_frames-Refuses d leido leido content (sizes leido fuel (left - leido)) page body
                h)
      ]

  page_read-Refuses :
      (d left : ℕ) (content page : List ℕ) (o : Option Body)
      → length content < page_size
      → 0 < left
      → Refuses srv page_size (elim o as (λ o. C S (Option (List ℕ))) [
        | none ↦ return none
        | some body ↦ read_frames srv d page_size content (sizes page_size left left) page body
      ])
  page_read-Refuses d left content page none h l = Refuses-none srv page_size
  page_read-Refuses d zero content page (some body) h l = elim l [ ]
  page_read-Refuses d (suc n) content page (some body) h l =
      sizes-Refuses d page_size (suc n) n content page body h l

  twice-Refuses :
      (d left frame : ℕ) (content page : List ℕ) (m : Machine S)
      → length content < page_size
      → 0 < left
      → Sized srv page_size m
      → has_content srv page_size (read_next srv d left content (some (page, frame)) m).0 ≡ false
  twice-Refuses d left frame content page m h l s =
      subst
        (λ (ps : ℕ).
          has_content srv page_size
            ((get_page_twice srv frame >>= λ o. elim o as (λ o. C S (Option (List ℕ))) [
              | none ↦ return none
              | some body ↦ read_frames srv d ps content (sizes ps left left) page body
            ])
              m).0
          ≡ false)
        (sym s.0)
        ((Refuses-bind srv page_size (get_page_twice-Held srv page_size frame)
            (λ o. page_read-Refuses d left content page o h l)).never
          m s)

  read_next-Refuses :
      (d left : ℕ) (content : List ℕ) (o : Option (List ℕ × ℕ))
      → length content < page_size
      → 0 < left
      → Refuses srv page_size (read_next srv d left content o)
  read_next-Refuses d left content none h l = Refuses-none srv page_size
  read_next-Refuses d left content (some (page, frame)) h l = record {
    never = λ m s. twice-Refuses d left frame content page m h l s;
  }

  length-overlay : (xs ys : List ℕ) → length (overlay xs ys) ≡ length xs
  unfolding overlay
  length-overlay xs [] = refl
  length-overlay [] (y ∷ ys) = refl
  length-overlay (x ∷ xs) (y ∷ ys) = ap suc (length-overlay xs ys)

  length-filled : (first : List ℕ) (n : ℕ) → length (splice 0 first (replicate n 0)) ≡ n
  unfolding splice
  length-filled first n = length-overlay (replicate n 0) first ∙ length-replicate n 0

  -- What follows where the bytes are beyond the end of a page of size `ps`.
  abbrev crossing : List ℕ → ℕ → ℕ → Body → ℕ → C S (Option (List ℕ))
  crossing page d n body ps = do
    crash_if (ltb ps d)
    first ← slice_of (body.bytes ++ body.spare) d (ps - d)
    next ← next_page_mmu srv page
    read_next srv d (n - (ps - d)) (splice 0 first (replicate n 0)) next

  crossing-Refuses :
      (page : List ℕ) (d n : ℕ) (body : Body)
      → n < page_size
      → d ≤ page_size
      → page_size < d + n
      → Refuses srv page_size (crossing page d n body page_size)
  crossing-Refuses page d n body h b l =
      Refuses-then srv page_size (Held-crash_if srv page_size (ltb page_size d)) (
        Refuses-bind srv page_size (slice_of-Held (body.bytes ++ body.spare) d (page_size - d))
          (λ first. Refuses-bind srv page_size (next_page_mmu-Held srv page_size page) (λ next.
            read_next-Refuses d (n - (page_size - d)) (splice 0 first (replicate n 0)) next
              (omega (arith, length-filled first n)) (omega arith))))

  direct-run :
      (page : List ℕ) (d n : ℕ) (body : Body) (m : Machine S)
      → page_size < d + n
      → m.memory_conf.page_size ≡ page_size
      → read_direct srv page d n body m ≡ crossing page d n body page_size m
  direct-run page d n body m l e =
      let beyond : leb (d + n) m.memory_conf.page_size ≡ false = ground arith in
      ap
        (λ b.
          (if b
              then return (
                  if ltb (length body.bytes) (d + n)
                  then none
                  else some (take n (drop d body.bytes)))
              else crossing page d n body m.memory_conf.page_size)
            m)
        beyond
      ∙ ap (λ (ps : ℕ). crossing page d n body ps m) e

  direct-Refuses :
      (page : List ℕ) (d n : ℕ) (o : Option Body)
      → n < page_size
      → d ≤ page_size
      → page_size < d + n
      → Refuses srv page_size (elim o as (λ o. C S (Option (List ℕ))) [
        | none ↦ return none
        | some body ↦ read_body srv page (pos d) (pos n) body
      ])
  direct-Refuses page d n none h b l = Refuses-none srv page_size
  direct-Refuses page d n (some body) h b l = record {
    never = λ m s.
        ap (λ (r : Outcome Stuck (Option (List ℕ)) × Machine S). has_content srv page_size r.0)
          (direct-run page d n body m l s.0)
        ∙ (crossing-Refuses page d n body h b l).never m s;
  }

  send_exit-Held : Held srv page_size (send_exit srv)
  send_exit-Held = Held-state srv page_size (λ m.
      if-intro (λ f. Held srv page_size f) m.exit_chan (throw blocked)
        (modify (λ m. record m { exit_chan = true })) (record { keeps = λ m k. k })
        (record { keeps = λ m k. k }))

  translate_again-Held :
      (page : List ℕ) (o : Option ℕ) → Held srv page_size (translate_again srv page o)
  translate_again-Held page none =
      Held-state srv page_size (λ m. traducir-Held srv page_size page m.pid)
  translate_again-Held page (some f) = Held-return srv page_size (some f)

  uncached-run :
      (addr : LogicAddr) (size : ℤ) (f : ℕ) (m : Machine S)
      → m.cache_enable ≡ false
      → read_framed srv addr size (some f) m ≡ read_uncached srv addr size f m
  uncached-run addr size f m e =
      ap (λ b. (if b then read_cached srv addr size f else read_uncached srv addr size f) m) e

  read_framed-Refuses :
      (page : List ℕ) (d n : ℕ) (o : Option ℕ)
      → n < page_size
      → d ≤ page_size
      → page_size < d + n
      → Refuses srv page_size (read_framed srv (record { page = page; delta = pos d }) (pos n) o)
  read_framed-Refuses page d n none h b l =
      Refuses-then srv page_size send_exit-Held (Refuses-none srv page_size)
  read_framed-Refuses page d n (some f) h b l = record {
    never = λ m s.
        ap (λ (r : Outcome Stuck (Option (List ℕ)) × Machine S). has_content srv page_size r.0)
          (uncached-run (record { page = page; delta = pos d }) (pos n) f m s.1)
        ∙ (Refuses-bind srv page_size (get_page_twice-Held srv page_size f)
              (λ o. direct-Refuses page d n o h b l)).never
            m s;
  }

  read_memory-Refuses :
      (page : List ℕ) (d n : ℕ)
      → n < page_size
      → d ≤ page_size
      → page_size < d + n
      → Refuses srv page_size (read_memory srv (record { page = page; delta = pos d }) (pos n))
  unfolding read_memory
  read_memory-Refuses page d n h b l = Held-state-Refuses srv page_size (λ m.
      Refuses-bind srv page_size (traducir-Held srv page_size page m.pid) (λ first.
        Refuses-bind srv page_size (translate_again-Held page first)
          (λ o. read_framed-Refuses page d n o h b l)))

-- Without a cache, a read of fewer bytes than a page has, from an offset within a page, that goes
-- beyond the end of that page returns no content, whatever the memory server answers.
pub read_memory-crossing :
    {S : Type 0} (srv : Server S) (m : Machine S) (page c : List ℕ) (d n : ℕ)
    → m.cache_enable ≡ false
    → n < m.memory_conf.page_size
    → d ≤ m.memory_conf.page_size
    → m.memory_conf.page_size < d + n
    → (read_memory srv (record { page = page; delta = pos d }) (pos n) m).0 ≢ ok (some c)
read_memory-crossing srv m page c d n off h b l e =
    let r = (read_memory-Refuses srv m.memory_conf.page_size page d n h b l).never m (refl, off) in
    let bad : true ≡ false = sym (ap (has_content srv m.memory_conf.page_size) e) ∙ r in
    ground arith
