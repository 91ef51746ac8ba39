-- ===== src/Cpu/Reads/Refusal.antt =====
-- cpu/memory/mmu.go: requests keep the page size, and reads that return no content.
use tp_ssoo_1c.Cpu.Address.{sum}
use tp_ssoo_1c.Cpu.Tlb.{lookup_tlb, add_entry_tlb, Tlb}
use tp_ssoo_1c.Prelude.{
  ℕ, ◌≡◌, refl, Bool, true, false, List, Option, none, some, length, ◌==◌, not,
}
use tp_ssoo_1c.Prelude.Keeps.{Keeps, Keeps-bind, Keeps-crash_if}
use tp_ssoo_1c.Prelude.Exec.{Outcome, ok, err, panic, ◌>>=◌, ◌>>◌, return, get_state, crash_if}
use tp_ssoo_1c.Cpu.Machine.{
  frame_of_text, Stuck, Server, Body, Machine, C, request, mandar_dump_memory, frame_answer,
  find_frame_in_memory, ask_again, remember, ask_memory, set_tlb, traducir, page_answer,
  get_page_in_memory, next_page_mmu, from_logic_addr_to_string,
}
use tp_ssoo_1c.Cpu.Slices.{get_page_twice}

module _ {S : Type 0} (srv : Server S) (page_size : ℕ) where
  abbrev pub Sized : Machine S → Type 0
  Sized m = (m.memory_conf.page_size ≡ page_size) × (m.cache_enable ≡ false)

  -- The operation leaves the page size as it is, and the cache off.
  pub record Held {A : Type 0} (f : C S A) : Type 0 where
    pub keeps : Keeps Stuck Sized f

  pub Held-bind :
      {A B : Type 0} {x : C S A} {f : A → C S B} → Held x → ((a : A) → Held (f a)) → Held (x >>= f)
  Held-bind {x = x} {f = f} h k = record {
    keeps = Keeps-bind Stuck Sized x f h.keeps (λ a. (k a).keeps);
  }

  pub Held-return : {A : Type 0} (a : A) → Held (return a)
  Held-return a = record { keeps = λ m k. k }

  pub Held-request : {A : Type 0} (f : S → A × S) → Held (request srv f)
  Held-request f = record { keeps = λ m k. k }

  pub Held-state :
      {B : Type 0} {f : Machine S → C S B} → ((m : Machine S) → Held (f m)) → Held (get_state >>= f)
  Held-state h = record { keeps = λ m k. (h m).keeps m k }

  pub Held-crash_if : (b : Bool) → Held (crash_if b)
  Held-crash_if b = record { keeps = Keeps-crash_if Stuck Sized b }

  pub Held-then : {B : Type 0} {x : C S (Unit {0})} {f : C S B} → Held x → Held f → Held (x >> f)
  Held-then {x = x} {f = f} h k = Held-bind {x = x} {f = λ u. f} h (λ u. k)

  pub mandar_dump_memory-Held : (pid : ℕ) → Held (mandar_dump_memory srv pid)
  mandar_dump_memory-Held pid =
      Held-bind (Held-request (srv.dump pid)) (λ sent. Held-crash_if (not sent))

  pub frame_answer-Held : (pid : ℕ) (o : Option ℕ) → Held (frame_answer srv pid o)
  frame_answer-Held pid none = Held-then (mandar_dump_memory-Held pid) (Held-return none)
  frame_answer-Held pid (some f) = Held-return (some f)

  pub find_frame_in_memory-Held :
      (page : List ℕ) (pid : ℕ) → Held (find_frame_in_memory srv page pid)
  unfolding find_frame_in_memory
  find_frame_in_memory-Held page pid = Held-state (λ m.
      Held-bind (Held-request (srv.get_frame pid (from_logic_addr_to_string page)))
        (λ text. frame_answer-Held m.pid (elim text [ none ↦ none | some t ↦ frame_of_text t ])))

  pub ask_again-Held : (page : List ℕ) (pid : ℕ) (o : Option ℕ) → Held (ask_again srv page pid o)
  ask_again-Held page pid none = find_frame_in_memory-Held page pid
  ask_again-Held page pid (some f) = Held-return (some f)

  pub set_tlb-Held : (t : Tlb) → Held (set_tlb srv t)
  set_tlb-Held t = record { keeps = λ m k. k }

  pub remember-Held : (page : List ℕ) (pid : ℕ) (o : Option ℕ) → Held (remember srv page pid o)
  remember-Held page pid none = Held-return none
  remember-Held page pid (some f) = Held-state (λ m.
      Held-then (set_tlb-Held (add_entry_tlb page f pid (srv.time m.server) m.tlb))
        (Held-return (some f)))

  pub ask_memory-Held : (page : List ℕ) (pid : ℕ) (o : Option ℕ) → Held (ask_memory srv page pid o)
  ask_memory-Held page pid (some f) = Held-return (some f)
  ask_memory-Held page pid none =
      Held-bind (find_frame_in_memory-Held page pid)
        (λ first. Held-bind (ask_again-Held page pid first) (λ frame. remember-Held page pid frame))

  pub traducir-Held : (page : List ℕ) (pid : ℕ) → Held (traducir srv page pid)
  unfolding traducir
  traducir-Held page pid = record {
    keeps = λ m k.
        (ask_memory-Held page pid (lookup_tlb page pid (srv.time m.server) m.tlb).0).keeps _ k;
  }

  pub next_page_mmu-Held : (page : List ℕ) → Held (next_page_mmu srv page)
  unfolding next_page_mmu
  next_page_mmu-Held page = Held-then (Held-crash_if (length page == 0)) (
      Held-state (λ m.
        Held-bind (traducir-Held (sum page m.memory_conf.entries_per_page) m.pid) (λ frame.
          Held-return (elim frame [
            | none ↦ none
            | some f ↦ some (sum page m.memory_conf.entries_per_page, f)
          ]))))

  pub page_answer-Held : (pid : ℕ) (o : Option Body) → Held (page_answer srv pid o)
  page_answer-Held pid none = Held-then (mandar_dump_memory-Held pid) (Held-return none)
  page_answer-Held pid (some b) = Held-return (some b)

  pub get_page_in_memory-Held : (frame : ℕ) → Held (get_page_in_memory srv frame)
  unfolding get_page_in_memory
  get_page_in_memory-Held frame = Held-state (λ m.
      Held-bind (Held-request (srv.get_full_page m.pid frame)) (λ b. page_answer-Held m.pid b))

  pub again-Held :
      (frame : ℕ) (o : Option Body)
      → Held (elim o as (λ o. C S (Option Body)) [
        | none ↦ get_page_in_memory srv frame
        | some b ↦ return (some b)
      ])
  again-Held frame none = get_page_in_memory-Held frame
  again-Held frame (some b) = Held-return (some b)

  pub get_page_twice-Held : (frame : ℕ) → Held (get_page_twice srv frame)
  get_page_twice-Held frame = Held-bind (get_page_in_memory-Held frame) (λ o. again-Held frame o)

  abbrev pub has_content : Outcome Stuck (Option (List ℕ)) → Bool
  has_content (ok none) = false
  has_content (ok (some c)) = true
  has_content (err e) = false
  has_content panic = false

  -- The operation returns no content.
  pub record Refuses (f : C S (Option (List ℕ))) : Type 0 where
    pub never : (m : Machine S) → Sized m → has_content (f m).0 ≡ false

  pub refused_after :
      {A : Type 0} (f : A → C S (Option (List ℕ))) (o : Outcome Stuck A) (m : Machine S)
      → ((a : A) → Refuses (f a))
      → Sized m
      → has_content (◌>>=◌ (λ u. (o, m)) f m).0 ≡ false
  refused_after f (ok a) m h k = (h a).never m k
  refused_after f (err e) m h k = refl
  refused_after f panic m h k = refl

  pub Refuses-bind :
      {A : Type 0} {x : C S A} {f : A → C S (Option (List ℕ))}
      → Held x
      → ((a : A) → Refuses (f a))
      → Refuses (x >>= f)
  Refuses-bind {x = x} {f = f} h k = record {
    never = λ m s. refused_after f (x m).0 (x m).1 k (h.keeps m s);
  }

  pub Refuses-then :
      {x : C S (Unit {0})} {f : C S (Option (List ℕ))} → Held x → Refuses f → Refuses (x >> f)
  Refuses-then {x = x} {f = f} h k = Refuses-bind {x = x} {f = λ u. f} h (λ u. k)

  pub Held-state-Refuses :
      {f : Machine S → C S (Option (List ℕ))}
      → ((m : Machine S) → Refuses (f m))
      → Refuses (get_state >>= f)
  Held-state-Refuses h = record { never = λ m s. (h m).never m s }

  pub Refuses-none : Refuses (return none)
  Refuses-none = record { never = λ m s. refl }
