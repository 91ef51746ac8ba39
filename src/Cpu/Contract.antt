-- ===== src/Cpu/Contract.antt =====
-- cpu/memory/: what a CPU relies on of the memory server, and what its requests give then.
use tp_ssoo_1c.Prelude.{
  ℕ, ◌≡◌, ◌⊎◌, refl, sym, ap, ◌∙◌, true, false, List, Option, none, some, length, inl, inr,
}
use tp_ssoo_1c.Prelude.Exec.{Outcome, ok, ◌>>=◌, return}
use tp_ssoo_1c.Utils.Text.{Text}
use tp_ssoo_1c.Cpu.Tlb.{Tlb, lookup_tlb, add_entry_tlb}
use tp_ssoo_1c.Cpu.Tlb.Transparent.{TlbOk, lookup_tlb-Looked, add_entry_tlb-TlbOk}
use tp_ssoo_1c.Cpu.Machine.{
  Body, stored, Server, Machine, Stuck, C, from_logic_addr_to_string, frame_of_text,
  find_frame_in_memory, ask_again, remember, ask_memory, traducir, get_page_in_memory, put_page,
  save_page_in_memory,
}

abbrev pub frame_of_answer : Option Text → Option ℕ
frame_of_answer answer = elim answer [ none ↦ none | some t ↦ frame_of_text t ]

-- The server answers by the page table `table`, and it keeps the pages: `Holds s pid f bs` says that
-- frame `f` of the process has the bytes `bs`.
pub record Faithful {S : Type 0} (srv : Server S) (table : List ℕ → ℕ → Option ℕ)
    (Holds : S → ℕ → ℕ → List ℕ → Type 0) : Type 0 where
  pub framed :
      (s : S) (pid f : ℕ) (page bs : List ℕ)
      → table page pid ≡ some f
      → Holds s pid f bs
      → (frame_of_answer (srv.get_frame pid (from_logic_addr_to_string page) s).0 ≡ some f)
        × Holds (srv.get_frame pid (from_logic_addr_to_string page) s).1 pid f bs
  pub given :
      (s : S) (pid f : ℕ) (bs : List ℕ)
      → Holds s pid f bs
      → ((spare : List ℕ) × ((srv.get_full_page pid f s).0
            ≡ some (record { bytes = bs; spare = spare })))
        × Holds (srv.get_full_page pid f s).1 pid f bs
  pub kept :
      (s : S) (pid f : ℕ) (bs cs : List ℕ)
      → Holds s pid f bs
      → length cs ≡ length bs
      → ((srv.put_full_page pid f cs s).0 ≡ stored)
        × Holds (srv.put_full_page pid f cs s).1 pid f cs

module _ {S : Type 0} (srv : Server S) (table : List ℕ → ℕ → Option ℕ)
    (Holds : S → ℕ → ℕ → List ℕ → Type 0) (law : Faithful srv table Holds) where
  -- A CPU without a cache, whose TLB agrees with the page table, and a page of its process.
  pub record Ready (m : Machine S) (page : List ℕ) (f : ℕ) (bs : List ℕ) : Type 0 where
    pub uncached : m.cache_enable ≡ false
    pub tlb_ok : TlbOk table m.tlb
    pub frame : table page m.pid ≡ some f
    pub holds : Holds m.server m.pid f bs
    pub size : length bs ≡ m.memory_conf.page_size

  -- The operation returns `a` and the page has the bytes `bs` then; only the server and the TLB
  -- have changed.
  pub record Gives {A : Type 0} (m : Machine S) (page : List ℕ) (f : ℕ) (bs : List ℕ)
      (result : Outcome Stuck A × Machine S) (a : A) : Type 0 where
    pub server : S
    pub tlb : Tlb
    pub returned : result ≡ (ok a, record m { server = server; tlb = tlb })
    pub ready : Ready (record m { server = server; tlb = tlb }) page f bs

  bind_ok :
      {A B : Type 0} (x : C S A) (k : A → C S B) (m m' : Machine S) (a : A)
      → x m ≡ (ok a, m')
      → (x >>= k) m ≡ k a m'
  bind_ok x k m m' a e = ap (λ r. ◌>>=◌ (λ u. r) k m) e

  pub Gives-bind :
      {A B : Type 0} (x : C S A) (k : A → C S B) (m : Machine S) (page : List ℕ) (f : ℕ)
      (bs cs : List ℕ) (a : A) (b : B)
      → (g : Gives m page f bs (x m) a)
      → Gives
          (record m { server = g.server; tlb = g.tlb })
          page
          f
          cs
          (k a (record m { server = g.server; tlb = g.tlb }))
          b
      → Gives m page f cs ((x >>= k) m) b
  Gives-bind x k m page f bs cs a b g h = record {
    server = h.server;
    tlb = h.tlb;
    returned = bind_ok x k m _ a g.returned ∙ h.returned;
    ready = h.ready;
  }

  pub Gives-return :
      {A : Type 0} (m : Machine S) (page : List ℕ) (f : ℕ) (bs : List ℕ) (a : A)
      → Ready m page f bs
      → Gives m page f bs (return a m) a
  Gives-return m page f bs a h = record {
    server = m.server;
    tlb = m.tlb;
    returned = refl;
    ready = h;
  }

  -- A request that changes the server only.
  pub Ready-server :
      (m : Machine S) (page : List ℕ) (f : ℕ) (bs cs : List ℕ) (s : S)
      → Ready m page f bs
      → length cs ≡ length bs
      → Holds s m.pid f cs
      → Ready (record m { server = s }) page f cs
  Ready-server m page f bs cs s h l k = record {
    uncached = h.uncached;
    tlb_ok = h.tlb_ok;
    frame = h.frame;
    holds = k;
    size = l ∙ h.size;
  }

  pub Ready-tlb :
      (m : Machine S) (page : List ℕ) (f : ℕ) (bs : List ℕ) (t : Tlb)
      → Ready m page f bs
      → TlbOk table t
      → Ready (record m { tlb = t }) page f bs
  Ready-tlb m page f bs t h k = record {
    uncached = h.uncached;
    tlb_ok = k;
    frame = h.frame;
    holds = h.holds;
    size = h.size;
  }

  found_frame :
      (m : Machine S) (page : List ℕ) (f : ℕ)
      → frame_of_answer (srv.get_frame m.pid (from_logic_addr_to_string page) m.server).0 ≡ some f
      → find_frame_in_memory srv page m.pid m ≡ (
        ok (some f),
        record m { server = (srv.get_frame m.pid (from_logic_addr_to_string page) m.server).1 },
      )
  unfolding find_frame_in_memory
  found_frame m page f e = rw (e)

  find_frame_in_memory-Gives :
      (m : Machine S) (page : List ℕ) (f : ℕ) (bs : List ℕ)
      → Ready m page f bs
      → Gives m page f bs (find_frame_in_memory srv page m.pid m) (some f)
  find_frame_in_memory-Gives m page f bs h =
      let r = law.framed m.server m.pid f page bs h.frame h.holds in
      record {
        server = (srv.get_frame m.pid (from_logic_addr_to_string page) m.server).1;
        tlb = m.tlb;
        returned = found_frame m page f r.0;
        ready = Ready-server m page f bs bs _ h refl r.1;
      }

  remember-Gives :
      (m : Machine S) (page : List ℕ) (f : ℕ) (bs : List ℕ)
      → Ready m page f bs
      → Gives m page f bs (remember srv page m.pid (some f) m) (some f)
  remember-Gives m page f bs h =
      let t = add_entry_tlb page f m.pid (srv.time m.server) m.tlb in
      record {
        server = m.server;
        tlb = t;
        returned = refl;
        ready =
            Ready-tlb m page f bs t h
              (add_entry_tlb-TlbOk table page f m.pid (srv.time m.server) m.tlb h.tlb_ok h.frame);
      }

  ask_memory-Gives :
      (m : Machine S) (page : List ℕ) (f : ℕ) (bs : List ℕ) (hit : Option ℕ)
      → Ready m page f bs
      → (hit ≡ none) ⊎ (hit ≡ some f)
      → Gives m page f bs (ask_memory srv page m.pid hit m) (some f)
  ask_memory-Gives m page f bs hit h (inr e) = rw (e) (Gives-return m page f bs (some f) h)
  ask_memory-Gives m page f bs hit h (inl e) =
      let g = find_frame_in_memory-Gives m page f bs h in
      rw (e) (
        Gives-bind (find_frame_in_memory srv page m.pid)
          (λ first. ask_again srv page m.pid first >>= remember srv page m.pid) m page f bs bs
          (some f) (some f) g
          (remember-Gives (record m { server = g.server; tlb = g.tlb }) page f bs g.ready))

  hit-cases :
      (o : Option ℕ) (f : ℕ) → ((g : ℕ) → o ≡ some g → some f ≡ some g) → (o ≡ none) ⊎ (o ≡ some f)
  hit-cases none f h = inl refl
  hit-cases (some g) f h = inr (sym (h g refl))

  -- `Traducir` gives the frame, from the TLB or from memory.
  pub traducir-Gives :
      (m : Machine S) (page : List ℕ) (f : ℕ) (bs : List ℕ)
      → Ready m page f bs
      → Gives m page f bs (traducir srv page m.pid m) (some f)
  unfolding traducir
  traducir-Gives m page f bs h =
      let now = srv.time m.server in
      let looked = lookup_tlb-Looked table page m.pid now m.tlb h.tlb_ok in
      let t = (lookup_tlb page m.pid now m.tlb).1 in
      let g =
        ask_memory-Gives (record m { tlb = t }) page f bs (lookup_tlb page m.pid now m.tlb).0
          (Ready-tlb m page f bs t h looked.ok)
          (hit-cases _ f (λ g e. sym h.frame ∙ looked.right g e)) in
      record { server = g.server; tlb = g.tlb; returned = g.returned; ready = g.ready }

  given_page :
      (m : Machine S) (f : ℕ) (b : Body)
      → (srv.get_full_page m.pid f m.server).0 ≡ some b
      → get_page_in_memory srv f m
        ≡ (ok (some b), record m { server = (srv.get_full_page m.pid f m.server).1 })
  unfolding get_page_in_memory
  given_page m f b e = rw (e)

  -- `GetPageInMemory` gives the bytes of the page.
  pub get_page_in_memory-Gives :
      (m : Machine S) (page : List ℕ) (f : ℕ) (bs : List ℕ)
      → Ready m page f bs
      → (spare : List ℕ) × Gives m page f bs
          (get_page_in_memory srv f m)
          (some (record { bytes = bs; spare = spare }))
  get_page_in_memory-Gives m page f bs h =
      let r = law.given m.server m.pid f bs h.holds in
      (
        r.0.0,
        record {
          server = (srv.get_full_page m.pid f m.server).1;
          tlb = m.tlb;
          returned = given_page m f _ r.0.1;
          ready = Ready-server m page f bs bs _ h refl r.1;
        },
      )

  stored_page :
      (m : Machine S) (f : ℕ) (cs : List ℕ)
      → (srv.put_full_page m.pid f cs m.server).0 ≡ stored
      → put_page srv cs m.pid (some f) m
        ≡ (ok true, record m { server = (srv.put_full_page m.pid f cs m.server).1 })
  stored_page m f cs e = rw (e)

  put_page-Gives :
      (m : Machine S) (page : List ℕ) (f : ℕ) (bs cs : List ℕ)
      → Ready m page f bs
      → length cs ≡ length bs
      → Gives m page f cs (put_page srv cs m.pid (some f) m) true
  put_page-Gives m page f bs cs h l =
      let r = law.kept m.server m.pid f bs cs h.holds l in
      record {
        server = (srv.put_full_page m.pid f cs m.server).1;
        tlb = m.tlb;
        returned = stored_page m f cs r.0;
        ready = Ready-server m page f bs cs _ h l r.1;
      }

  -- `SavePageInMemory` of as many bytes as the page has.
  pub save_page_in_memory-Gives :
      (m : Machine S) (page : List ℕ) (f : ℕ) (bs cs : List ℕ)
      → Ready m page f bs
      → length cs ≡ length bs
      → Gives m page f cs (save_page_in_memory srv cs page m.pid m) true
  unfolding save_page_in_memory
  save_page_in_memory-Gives m page f bs cs h l =
      let g = traducir-Gives m page f bs h in
      Gives-bind (traducir srv page m.pid) (put_page srv cs m.pid) m page f bs cs (some f) true g
        (put_page-Gives (record m { server = g.server; tlb = g.tlb }) page f bs cs g.ready l)
