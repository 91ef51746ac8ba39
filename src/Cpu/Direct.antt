-- ===== src/Cpu/Direct.antt =====
-- cpu/memory/mmu.go: ReadMemory and WriteMemory without a cache, within a page.
use tp_ssoo_1c.Prelude.{
  ℕ, zero, suc, ◌+◌, ◌≤◌, ◌≡◌, refl, sym, ap, ◌∙◌, true, false, List, [], ◌∷◌, ◌++◌, Option, none,
  some, length, take, drop, arith, ltb, leb, if◌then◌else◌, length-append, length-take, length-drop,
}
use tp_ssoo_1c.Prelude.Int.{ℤ, pos}
use tp_ssoo_1c.Prelude.Exec.{ok, ◌>>=◌, return}
use tp_ssoo_1c.Cpu.Machine.{
  Body, Server, LogicAddr, Machine, traducir, get_page_in_memory, save_page_in_memory,
}
use tp_ssoo_1c.Cpu.Slices.{overlay, splice, get_page_twice}
use tp_ssoo_1c.Cpu.Reads.{
  read_cached, read_body, read_direct, read_uncached, read_framed, translate_again, read_memory,
}
use tp_ssoo_1c.Cpu.Writes.{
  write_cached, write_body, write_direct, write_offset, fetch_page, write_uncached, write_memory,
}
use tp_ssoo_1c.Cpu.Contract.{
  Faithful, Ready, Gives, Gives-bind, Gives-return, traducir-Gives, get_page_in_memory-Gives,
  save_page_in_memory-Gives,
}

-- `bs` with `value` in place of its bytes from `d` on.
abbrev pub replaced : ℕ → List ℕ → List ℕ → List ℕ
replaced d value bs = take d bs ++ (value ++ drop (d + length value) bs)

overlay-append :
    (xs ys : List ℕ) → length ys ≤ length xs → overlay xs ys ≡ ys ++ drop (length ys) xs
unfolding overlay
overlay-append xs [] h = refl
overlay-append [] (y ∷ ys) h = elim h [ ]
overlay-append (x ∷ xs) (y ∷ ys) h = ap (λ zs. y ∷ zs) (overlay-append xs ys (omega arith))

drop-none : (n : ℕ) → drop {A = ℕ} n [] ≡ []
drop-none zero = refl
drop-none (suc n) = refl

drop-drop : (a b : ℕ) (xs : List ℕ) → drop a (drop b xs) ≡ drop (b + a) xs
drop-drop a zero xs = ap (λ (n : ℕ). drop n xs) (omega arith)
drop-drop a (suc b) [] = drop-none a ∙ sym (drop-none (suc b + a))
drop-drop a (suc b) (x ∷ xs) =
    let e : suc (b + a) ≡ suc b + a = omega arith in
    drop-drop a b xs ∙ ap (λ (n : ℕ). drop n (x ∷ xs)) e

pub splice-replaced :
    (d : ℕ) (value bs : List ℕ)
    → d + length value ≤ length bs
    → splice d value bs ≡ replaced d value bs
unfolding splice
splice-replaced d value bs h =
    ap (λ zs. take d bs ++ zs)
      (overlay-append (drop d bs) value (omega (arith, length-drop d bs))
        ∙ ap (λ zs. value ++ zs) (drop-drop (length value) d bs))

pub length-replaced :
    (d : ℕ) (value bs : List ℕ)
    → d + length value ≤ length bs
    → length (replaced d value bs) ≡ length bs
length-replaced d value bs h = omega (
  arith,
  length-append (take d bs) (value ++ drop (d + length value) bs),
  length-append value (drop (d + length value) bs),
  length-take d bs,
  length-drop (d + length value) bs,
)

take-append : (xs ys : List ℕ) → take (length xs) (xs ++ ys) ≡ xs
take-append [] ys = refl
take-append (x ∷ xs) ys = ap (λ zs. x ∷ zs) (take-append xs ys)

drop-take-append : (d : ℕ) (xs ys : List ℕ) → d ≤ length xs → drop d (take d xs ++ ys) ≡ ys
drop-take-append zero xs ys h = refl
drop-take-append (suc d) [] ys h = elim h [ ]
drop-take-append (suc d) (x ∷ xs) ys h = drop-take-append d xs ys (omega arith)

pub take-drop-replaced :
    (d : ℕ) (value bs : List ℕ)
    → d + length value ≤ length bs
    → take (length value) (drop d (replaced d value bs)) ≡ value
take-drop-replaced d value bs h =
    ap (λ zs. take (length value) zs) (drop-take-append d bs _ (omega arith))
    ∙ take-append value (drop (d + length value) bs)

module _ {S : Type 0} (srv : Server S) (table : List ℕ → ℕ → Option ℕ)
    (Holds : S → ℕ → ℕ → List ℕ → Type 0) (law : Faithful srv table Holds) where
  write_body-Gives :
      (m : Machine S) (page : List ℕ) (f d : ℕ) (bs spare value : List ℕ)
      → Ready srv table Holds law m page f bs
      → d + length value ≤ length bs
      → Gives srv table Holds law m page f
          (replaced d value bs)
          (write_body srv page d value (record { bytes = bs; spare = spare }) m)
          tt
  write_body-Gives m page f d bs spare value h l =
      let inside : ltb (length bs) d ≡ false = ground arith in
      let saved =
        save_page_in_memory-Gives srv table Holds law m page f bs (replaced d value bs) h
          (length-replaced d value bs l) in
      rw (inside, splice-replaced d value bs l)
        (Gives-bind srv table Holds law (save_page_in_memory srv (replaced d value bs) page m.pid)
          (λ saved. return tt) m page f (replaced d value bs) (replaced d value bs) true tt saved
          (Gives-return srv table Holds law _ page f (replaced d value bs) tt saved.ready))

  write_direct-Gives :
      (m : Machine S) (page : List ℕ) (f d : ℕ) (bs spare value : List ℕ)
      → Ready srv table Holds law m page f bs
      → d + length value ≤ length bs
      → Gives srv table Holds law m page f
          (replaced d value bs)
          (write_direct srv page d value (record { bytes = bs; spare = spare }) m)
          true
  write_direct-Gives m page f d bs spare value h l =
      let fits : leb (d + length value) m.memory_conf.page_size ≡ true = ground (arith, h.size) in
      let written = write_body-Gives m page f d bs spare value h l in
      rw (fits) (
        Gives-bind srv table Holds law
          (write_body srv page d value (record { bytes = bs; spare = spare })) (λ u. return true) m
          page f (replaced d value bs) (replaced d value bs) tt true written
          (Gives-return srv table Holds law _ page f (replaced d value bs) true written.ready))

  write_uncached-run :
      (addr : LogicAddr) (value : List ℕ) (m : Machine S)
      → m.cache_enable ≡ false
      → write_memory srv addr value m ≡ write_uncached srv addr value m
  unfolding write_memory
  write_uncached-run addr value m e =
      ap (λ b. (if b then write_cached srv addr value else write_uncached srv addr value) m) e

  read_uncached-run :
      (addr : LogicAddr) (size : ℤ) (f : ℕ) (m : Machine S)
      → m.cache_enable ≡ false
      → read_framed srv addr size (some f) m ≡ read_uncached srv addr size f m
  read_uncached-run addr size f m e =
      ap (λ b. (if b then read_cached srv addr size f else read_uncached srv addr size f) m) e

  -- For a CPU without a cache, whose memory server keeps the contract `Faithful` and whose TLB
  -- agrees with the server's page table, and a value that lies within a page of its process:
  -- `WriteMemory` succeeds, leaves the page with the value in place of its bytes from the
  -- offset on and every other byte as it was, and changes nothing of the CPU but its TLB.
  pub write_memory-Gives :
      (m : Machine S) (page : List ℕ) (f d : ℕ) (bs value : List ℕ)
      → Ready srv table Holds law m page f bs
      → d + length value ≤ length bs
      → Gives srv table Holds law m page f
          (replaced d value bs)
          (write_memory srv (record { page = page; delta = pos d }) value m)
          true
  write_memory-Gives m page f d bs value h l =
      let g = traducir-Gives srv table Holds law m page f bs h in
      let m1 : Machine S = record m { server = g.server; tlb = g.tlb } in
      let p = get_page_in_memory-Gives srv table Holds law m1 page f bs g.ready in
      let b : Body = record { bytes = bs; spare = p.0 } in
      let got =
        Gives-bind srv table Holds law (traducir srv page m.pid) (fetch_page srv) m page f bs bs
          (some f) (some b) g p.1 in
      rw (write_uncached-run _ value m h.uncached) (
        Gives-bind srv table Holds law (traducir srv page m.pid >>= fetch_page srv)
          (λ body. elim body [
            | none ↦ return false
            | some b ↦ write_offset srv page (pos d) value b
          ])
          m page f bs (replaced d value bs) (some b) true got
          (write_direct-Gives (record m { server = got.server; tlb = got.tlb }) page f d bs p.0
            value got.ready l))

  twice-Gives :
      (m : Machine S) (page : List ℕ) (f : ℕ) (bs : List ℕ)
      → Ready srv table Holds law m page f bs
      → (spare : List ℕ) × Gives srv table Holds law m page f bs
          (get_page_twice srv f m)
          (some (record { bytes = bs; spare = spare }))
  twice-Gives m page f bs h =
      let p = get_page_in_memory-Gives srv table Holds law m page f bs h in
      let b : Body = record { bytes = bs; spare = p.0 } in
      (
        p.0,
        Gives-bind srv table Holds law (get_page_in_memory srv f)
            (λ body. elim body [ none ↦ get_page_in_memory srv f | some b ↦ return (some b) ]) m
            page f bs bs (some b) (some b) p.1
            (Gives-return srv table Holds law _ page f bs (some b) p.1.ready),
      )

  read_direct-Gives :
      (m : Machine S) (page : List ℕ) (f d n : ℕ) (bs spare : List ℕ)
      → Ready srv table Holds law m page f bs
      → d + n ≤ length bs
      → Gives srv table Holds law m page f bs
          (read_direct srv page d n (record { bytes = bs; spare = spare }) m)
          (some (take n (drop d bs)))
  read_direct-Gives m page f d n bs spare h l =
      let fits : leb (d + n) m.memory_conf.page_size ≡ true = ground (arith, h.size) in
      let inside : ltb (length bs) (d + n) ≡ false = ground arith in
      rw (fits, inside) (Gives-return srv table Holds law m page f bs (some (take n (drop d bs))) h)

  -- `ReadMemory` on the same CPU, for bytes that lie within the page: they are returned, and the
  -- page keeps its bytes.
  pub read_memory-Gives :
      (m : Machine S) (page : List ℕ) (f d n : ℕ) (bs : List ℕ)
      → Ready srv table Holds law m page f bs
      → d + n ≤ length bs
      → Gives srv table Holds law m page f bs
          (read_memory srv (record { page = page; delta = pos d }) (pos n) m)
          (some (take n (drop d bs)))
  unfolding read_memory
  read_memory-Gives m page f d n bs h l =
      let g = traducir-Gives srv table Holds law m page f bs h in
      let m1 : Machine S = record m { server = g.server; tlb = g.tlb } in
      let p = twice-Gives m1 page f bs g.ready in
      let b : Body = record { bytes = bs; spare = p.0 } in
      let m2 : Machine S = record m { server = p.1.server; tlb = p.1.tlb } in
      Gives-bind srv table Holds law (traducir srv page m.pid)
        (λ first.
          translate_again srv page first
          >>= read_framed srv (record { page = page; delta = pos d }) (pos n))
        m page f bs bs (some f) (some (take n (drop d bs))) g
        (rw
          (read_uncached-run (record { page = page; delta = pos d }) (pos n) f m1 g.ready.uncached)
          (Gives-bind srv table Holds law (get_page_twice srv f)
            (λ found. elim found [
              | none ↦ return none
              | some body ↦ read_body srv page (pos d) (pos n) body
            ])
            m1 page f bs bs (some b) (some (take n (drop d bs))) p.1
            (read_direct-Gives m2 page f d n bs p.0 p.1.ready l)))

  -- For a CPU without a cache, whose memory server keeps the contract `Faithful` and whose TLB
  -- agrees with the server's page table, and a value that lies within a page of its process:
  -- `WriteMemory` succeeds, and `ReadMemory` of as many bytes at the same address returns the
  -- value afterwards.
  pub read_memory-write_memory :
      (m : Machine S) (page : List ℕ) (f d : ℕ) (bs value : List ℕ)
      → Ready srv table Holds law m page f bs
      → d + length value ≤ length bs
      → ((write_memory srv (record { page = page; delta = pos d }) value m).0 ≡ ok true)
        × ((read_memory srv
              (record { page = page; delta = pos d })
              (pos (length value))
              (write_memory srv (record { page = page; delta = pos d }) value m).1).0
            ≡ ok (some value))
  read_memory-write_memory m page f d bs value h l =
      let w = write_memory-Gives m page f d bs value h l in
      let r =
        read_memory-Gives (record m { server = w.server; tlb = w.tlb }) page f d (length value)
          (replaced d value bs) w.ready (omega (arith, length-replaced d value bs l)) in
      rw (w.returned)
        (refl, rw (r.returned) (ap (λ c. ok (some c)) (take-drop-replaced d value bs l)))
