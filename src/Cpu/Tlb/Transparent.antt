-- ===== src/Cpu/Tlb/Transparent.antt =====
-- cpu/memory/tlb.go: translation through the TLB gives what the page tables in memory give.
use native.Mathlib.Decide.{ℕ_discrete}
use tp_ssoo_1c.Prelude.{==_refl}
use tp_ssoo_1c.Prelude.{
  ℕ, zero, suc, ◌≤◌, ◌≡◌, ◌≢◌, refl, sym, ap, ◌∙◌, Bool, true, false, List, [], ◌∷◌, ◌++◌, Option,
  none, some, length, length-append, arith, leb, ◌==◌, if◌then◌else◌, Bool-cases, Option-cases, inl,
  inr, if-intro,
}
use tp_ssoo_1c.Cpu.Tlb.{
  TlbEntry, Replacement, fifo, lru, other, Tlb, is_entry, find_entry, find_frame, lru_index,
  remove_at, evict, add_entry_tlb, ask_twice, lookup_tlb, translate_page, is_lru,
}
use tp_ssoo_1c.Cpu.Tlb.Eviction.{slices_eq, length-evict, not_zero}

-- A table of frames, as memory has it.
module _ (table : List ℕ → ℕ → Option ℕ) where
  abbrev pub Agree : List TlbEntry → Type 0
  Agree [] = Unit {0}
  Agree (e ∷ es) = (table e.page e.pid ≡ some e.frame) × Agree es

  -- The entries are those of memory, and there is room for them.
  pub record TlbOk (t : Tlb) : Type 0 where
    pub agree : Agree t.entries
    pub bounded : length t.entries ≤ t.capacity
    pub known : t.replacement_alg ≢ other

  Agree-append :
      (es : List TlbEntry) (e : TlbEntry)
      → Agree es
      → table e.page e.pid ≡ some e.frame
      → Agree (es ++ (e ∷ []))
  Agree-append [] e h a = (a, tt)
  Agree-append (x ∷ es) e h a = (h.0, Agree-append es e h.1 a)

  Agree-remove_at : (i : ℕ) (es : List TlbEntry) → Agree es → Agree (remove_at i es)
  Agree-remove_at i [] h = tt
  Agree-remove_at zero (e ∷ es) h = h.1
  Agree-remove_at (suc i) (e ∷ es) h = (h.0, Agree-remove_at i es h.1)

  Agree-evict : (alg : Replacement) (es : List TlbEntry) → Agree es → Agree (evict alg es)
  unfolding evict
  Agree-evict fifo [] h = tt
  Agree-evict fifo (e ∷ es) h = h.1
  Agree-evict lru [] h = tt
  Agree-evict lru (e ∷ es) h = Agree-remove_at (lru_index 0 e.last_used 0 (e ∷ es)) (e ∷ es) h
  Agree-evict other es h = h

  -- What a search finds, and the entries that it leaves.
  record Searched (page : List ℕ) (pid : ℕ) (es : List TlbEntry) (r : Option ℕ × List TlbEntry)
      : Type 0 where
    pub right : (f : ℕ) → r.0 ≡ some f → table page pid ≡ some f
    agree : Agree r.1
    same_length : length r.1 ≡ length es

  entry-right :
      (page : List ℕ) (pid : ℕ) (e : TlbEntry)
      → is_entry page pid e ≡ true
      → table e.page e.pid ≡ some e.frame
      → table page pid ≡ some e.frame
  entry-right page pid e h a =
      let pages : e.page ≡ page = slices_eq e.page page (ground arith) in
      let pids : e.pid ≡ pid = ground arith in
      ap (λ p. table p pid) (sym pages) ∙ ap (λ q. table e.page q) (sym pids) ∙ a

  -- The time of a use is no part of what an entry says.
  Agree-stamped :
      (stamp : Bool) (now : ℕ) (e : TlbEntry) (es : List TlbEntry)
      → Agree (e ∷ es)
      → Agree ((if stamp then record e { last_used = now } else e) ∷ es)
  Agree-stamped true now e es h = h
  Agree-stamped false now e es h = h

  find_entry-Searched :
      (page : List ℕ) (pid : ℕ) (stamp : Bool) (now : ℕ) (es : List TlbEntry)
      → Agree es
      → Searched page pid es (find_entry page pid stamp now es)
  unfolding find_entry
  find_entry-Searched page pid stamp now [] h = record {
    right = λ f e. ground arith;
    agree = tt;
    same_length = refl;
  }
  find_entry-Searched page pid stamp now (e ∷ es) h = elim (Bool-cases (is_entry page pid e)) [
    | inl m ↦
        rw (m, find_entry)
          (record {
            right = λ f q. entry-right page pid e m h.0 ∙ q;
            agree = Agree-stamped stamp now e es h;
            same_length = refl;
          })
    | inr m ↦
        let rest = find_entry-Searched page pid stamp now es h.1 in
        rw (m, find_entry)
          (record {
            right = rest.right;
            agree = (h.0, rest.agree);
            same_length = ap suc rest.same_length;
          })
  ]

  pub record Looked (page : List ℕ) (pid : ℕ) (r : Option ℕ × Tlb) : Type 0 where
    pub right : (f : ℕ) → r.0 ≡ some f → table page pid ≡ some f
    pub ok : TlbOk r.1

  find_frame-Looked :
      (page : List ℕ) (pid now : ℕ) (t : Tlb)
      → TlbOk t
      → Looked page pid (find_frame page pid now t)
  unfolding find_frame
  find_frame-Looked page pid now t k =
      let r = find_entry-Searched page pid (is_lru t.replacement_alg) now t.entries k.agree in
      record {
        right = r.right;
        ok = record {
          agree = r.agree;
          bounded = omega (arith, r.same_length, k.bounded);
          known = k.known;
        };
      }

  pub lookup_tlb-Looked :
      (page : List ℕ) (pid now : ℕ) (t : Tlb)
      → TlbOk t
      → Looked page pid (lookup_tlb page pid now t)
  lookup_tlb-Looked page pid now t k =
      if-intro (Looked page pid) (t.capacity == 0) (none, t) (find_frame page pid now t)
        (record { right = λ f e. ground arith; ok = k }) (find_frame-Looked page pid now t k)

  room :
      (t : Tlb)
      → TlbOk t
      → t.capacity ≢ 0
      → suc (
          length (
            if leb t.capacity (length t.entries)
            then evict t.replacement_alg t.entries
            else t.entries))
        ≤ t.capacity
  room t k h = elim (Bool-cases (leb t.capacity (length t.entries))) [
    | inl e ↦
        rw (e) (
          omega (arith, length-evict t.replacement_alg t.entries k.known (ground arith), k.bounded))
    | inr e ↦ rw (e) (ground arith)
  ]

  appended-TlbOk :
      (page : List ℕ) (frame pid now : ℕ) (t : Tlb) (es : List TlbEntry)
      → TlbOk t
      → Agree es
      → suc (length es) ≤ t.capacity
      → table page pid ≡ some frame
      → TlbOk (record t {
        entries = es ++ (record { page = page; frame = frame; last_used = now; pid = pid } ∷ []);
      })
  appended-TlbOk page frame pid now t es k a l e =
      let new : TlbEntry = record { page = page; frame = frame; last_used = now; pid = pid } in
      record {
        agree = Agree-append es new a e;
        bounded = omega (arith, length-append es (new ∷ []), l);
        known = k.known;
      }

  pub add_entry_tlb-TlbOk :
      (page : List ℕ) (frame pid now : ℕ) (t : Tlb)
      → TlbOk t
      → table page pid ≡ some frame
      → TlbOk (add_entry_tlb page frame pid now t)
  unfolding add_entry_tlb
  add_entry_tlb-TlbOk page frame pid now t k e = elim (ℕ_discrete t.capacity 0) [
    | yes z ↦ rw (==_refl t.capacity 0 z, add_entry_tlb) k
    | no z ↦
        let full = leb t.capacity (length t.entries) in
        rw (not_zero t.capacity z, add_entry_tlb)
          (appended-TlbOk page frame pid now t
            (if full then evict t.replacement_alg t.entries else t.entries) k
            (if-intro Agree full (evict t.replacement_alg t.entries) t.entries
              (Agree-evict t.replacement_alg t.entries k.agree) k.agree)
            (room t k z) e)
  ]

  ask_twice-table :
      (ask : Bool → List ℕ → ℕ → Option ℕ) (page : List ℕ) (pid : ℕ)
      → ((again : Bool) → ask again page pid ≡ table page pid)
      → ask_twice ask page pid ≡ table page pid
  ask_twice-table ask page pid h = ground (arith, h false, h true)

  translate_hit :
      (ask : Bool → List ℕ → ℕ → Option ℕ) (page : List ℕ) (pid now f : ℕ) (t : Tlb)
      → (lookup_tlb page pid now t).0 ≡ some f
      → translate_page ask page pid now t ≡ (some f, (lookup_tlb page pid now t).1)
  unfolding translate_page
  translate_hit ask page pid now f t e = rw (e, translate_page)

  translate_unknown :
      (ask : Bool → List ℕ → ℕ → Option ℕ) (page : List ℕ) (pid now : ℕ) (t : Tlb)
      → (lookup_tlb page pid now t).0 ≡ none
      → ask_twice ask page pid ≡ none
      → translate_page ask page pid now t ≡ (none, (lookup_tlb page pid now t).1)
  unfolding translate_page
  translate_unknown ask page pid now t e a = rw (e, translate_page) (rw (a))

  translate_miss :
      (ask : Bool → List ℕ → ℕ → Option ℕ) (page : List ℕ) (pid now f : ℕ) (t : Tlb)
      → (lookup_tlb page pid now t).0 ≡ none
      → ask_twice ask page pid ≡ some f
      → translate_page ask page pid now t
        ≡ (some f, add_entry_tlb page f pid now (lookup_tlb page pid now t).1)
  unfolding translate_page
  translate_miss ask page pid now f t e a = rw (e, translate_page) (rw (a))

  -- If memory answers both times with its page table, the entries of the TLB agree with that
  -- table, there are at most as many as its capacity, and its algorithm is FIFO or LRU, then
  -- the translation of a page gives what the table gives, whether it is in the TLB or not, and
  -- the TLB still agrees with the table and keeps within its capacity.
  pub translate_page-TlbOk :
      (ask : Bool → List ℕ → ℕ → Option ℕ) (page : List ℕ) (pid now : ℕ) (t : Tlb)
      → ((again : Bool) → ask again page pid ≡ table page pid)
      → TlbOk t
      → ((translate_page ask page pid now t).0 ≡ table page pid)
        × TlbOk (translate_page ask page pid now t).1
  translate_page-TlbOk ask page pid now t h k =
      let looked = lookup_tlb-Looked page pid now t k in
      let asked = ask_twice-table ask page pid h in
      elim (Option-cases (lookup_tlb page pid now t).0) [
        | inr (f, e) ↦ rw (translate_hit ask page pid now f t e) (sym (looked.right f e), looked.ok)
        | inl e ↦ elim (Option-cases (table page pid)) [
          | inl a ↦ rw (translate_unknown ask page pid now t e (asked ∙ a)) (sym a, looked.ok)
          | inr (f, a) ↦
              rw (translate_miss ask page pid now f t e (asked ∙ a))
                (sym a, add_entry_tlb-TlbOk page f pid now _ looked.ok a)
        ]
      ]
