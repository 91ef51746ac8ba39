-- ===== src/Memory/Pages/RoundTrip.antt =====
-- memoria/storage/storage.go: a page that WritePage writes is what GetPage reads.
use tp_ssoo_1c.Prelude.{
  ℕ, zero, suc, ◌+◌, ◌≤◌, ◌<◌, ◌≡◌, refl, sym, ap, ◌∙◌, true, List, [], ◌∷◌, some, length, set,
  length-set, take, drop, arith,
}
use tp_ssoo_1c.Prelude.Exec.{Outcome, ok, ◌>>=◌}
use tp_ssoo_1c.Prelude.Int.{pos}
use tp_ssoo_1c.Memory.State.{Memory, ProcessData, find_pid, get_data_by_pid, update_pid, Error}
use tp_ssoo_1c.Memory.Pages.{contains, has_page, write_to_memory, write_bytes, write_page, get_page}

-- The process has the page.
pub record Has (pid base : ℕ) (m : Memory) : Type 0 where
  pub process : ProcessData
  pub found : get_data_by_pid pid m ≡ some process
  pub owned : contains process.page_bases base ≡ true

-- The bytes of `cs` written from index `i` on.
unfoldable pub write_list : List ℕ → ℕ → List ℕ → List ℕ
write_list xs i [] = xs
write_list xs i (c ∷ cs) = write_list (set xs i c) (suc i) cs

write_list-cons :
    (x : ℕ) (xs : List ℕ) (i : ℕ) (cs : List ℕ)
    → write_list (x ∷ xs) (suc i) cs ≡ x ∷ write_list xs i cs
unfolding write_list
write_list-cons x xs i [] = refl
write_list-cons x xs i (c ∷ cs) = write_list-cons x (set xs i c) (suc i) cs

pub length-write_list :
    (xs : List ℕ) (i : ℕ) (cs : List ℕ) → length (write_list xs i cs) ≡ length xs
unfolding write_list
length-write_list xs i [] = refl
length-write_list xs i (c ∷ cs) = length-write_list (set xs i c) (suc i) cs ∙ length-set xs i c

take-write_list :
    (xs cs : List ℕ) → length cs ≤ length xs → take (length cs) (write_list xs 0 cs) ≡ cs
unfolding write_list
take-write_list xs [] h = refl
take-write_list [] (c ∷ cs) h = elim h [ ]
take-write_list (x ∷ xs) (c ∷ cs) h =
    rw (write_list-cons c xs 0 cs) (ap (λ ys. c ∷ ys) (take-write_list xs cs (omega arith)))

pub read-write_list :
    (xs : List ℕ) (base : ℕ) (cs : List ℕ)
    → base + length cs ≤ length xs
    → take (length cs) (drop base (write_list xs base cs)) ≡ cs
read-write_list xs zero cs h = take-write_list xs cs (omega arith)
read-write_list [] (suc base) cs h = elim (too_long base (length cs) h) [ ]
  where
    too_long : (a b : ℕ) → suc a + b ≤ 0 → suc zero ≤ zero
    too_long a b h = omega arith
read-write_list (x ∷ xs) (suc base) cs h =
    rw (write_list-cons x xs base cs) (read-write_list xs base cs (omega arith))

count_write_of : ProcessData → ProcessData
count_write_of p = record p { metrics = record (p.metrics) { writes = suc p.metrics.writes } }

-- The memory after one byte is written.
written : ℕ → ℕ → ℕ → Memory → Memory
written pid i c m = record m {
  user_memory = set m.user_memory i c;
  system_memory = update_pid pid count_write_of m.system_memory;
}

find_pid-update :
    (pid : ℕ) (p : ProcessData) (ps : List ProcessData)
    → find_pid pid ps ≡ some p
    → find_pid pid (update_pid pid count_write_of ps) ≡ some (count_write_of p)
unfolding find_pid update_pid count_write_of
find_pid-update pid p [] h = ground arith
find_pid-update pid p (q ∷ ps) h = ground (arith, find_pid-update pid p ps)

-- The process has these pages.
abbrev pub Based : ℕ → List ℕ → Memory → Type 0
Based pid bases m = (p : ProcessData) × ((get_data_by_pid pid m ≡ some p) × (p.page_bases ≡ bases))

written-Based :
    (pid i c : ℕ) (bases : List ℕ) (m : Memory)
    → Based pid bases m
    → Based pid bases (written pid i c m)
unfolding written count_write_of
written-Based pid i c bases m h =
    (count_write_of h.0, (find_pid-update pid h.0 m.system_memory h.1.0, h.1.1))

written-Has : (pid base i c : ℕ) (m : Memory) → Has pid base m → Has pid base (written pid i c m)
unfolding written count_write_of
written-Has pid base i c m h = record {
  process = count_write_of h.process;
  found = find_pid-update pid h.process m.system_memory h.found;
  owned = h.owned;
}

pub has_page-run : (pid base : ℕ) (m : Memory) → Has pid base m → has_page pid base m ≡ (ok tt, m)
unfolding has_page
has_page-run pid base m h = rw (h.found, has_page, ◌>>=◌) (ground (arith, h.owned))

write_to_memory-run :
    (pid base delta c : ℕ) (m : Memory)
    → Has pid base m
    → base + delta < length m.user_memory
    → write_to_memory pid base (pos delta) c m ≡ (ok tt, written pid (base + delta) c m)
unfolding write_to_memory written count_write_of
write_to_memory-run pid base delta c m h l = ground (arith, has_page-run pid base m h)

-- Writing `cs` from byte `delta` of the page on: it succeeds, the process keeps the page, and the
-- bytes are in place.
pub record Wrote (pid base delta : ℕ) (cs : List ℕ) (m : Memory)
    (result : Outcome Error (Unit {0}) × Memory) : Type 0 where
  pub after : Memory
  pub returned : result ≡ (ok tt, after)
  pub bytes : after.user_memory ≡ write_list m.user_memory (base + delta) cs
  pub pages : after.pagination ≡ m.pagination
  pub has : Has pid base after
  pub based : (bases : List ℕ) → Based pid bases m → Based pid bases after
  pub others :
      after ≡ record m { user_memory = after.user_memory; system_memory = after.system_memory }

write_bytes_step :
    (pid base delta c : ℕ) (cs : List ℕ) (m m' : Memory)
    → write_to_memory pid base (pos delta) c m ≡ (ok tt, m')
    → write_bytes pid base delta (c ∷ cs) m ≡ write_bytes pid base (suc delta) cs m'
unfolding write_bytes
write_bytes_step pid base delta c cs m m' e = ground (arith, e)

pub write_bytes-Wrote :
    (pid base delta : ℕ) (cs : List ℕ) (m : Memory)
    → Has pid base m
    → base + delta + length cs ≤ length m.user_memory
    → Wrote pid base delta cs m (write_bytes pid base delta cs m)
unfolding write_bytes write_list written
write_bytes-Wrote pid base delta [] m h l = record {
  after = m;
  returned = refl;
  bytes = refl;
  pages = refl;
  has = h;
  based = λ bases k. k;
  others = refl;
}
write_bytes-Wrote pid base delta (c ∷ cs) m h l =
    let m' = written pid (base + delta) c m in
    let same = length-set m.user_memory (base + delta) c in
    let step =
      write_bytes_step pid base delta c cs m m'
        (write_to_memory-run pid base delta c m h (omega arith)) in
    let rest =
      write_bytes-Wrote pid base (suc delta) cs m' (written-Has pid base (base + delta) c m h)
        (omega (arith, same)) in
    let next : base + suc delta ≡ suc (base + delta) = omega arith in
    record {
      after = rest.after;
      returned = step ∙ rest.returned;
      bytes = rest.bytes ∙ ap (λ (i : ℕ). write_list (m'.user_memory) i cs) next;
      pages = rest.pages;
      has = rest.has;
      based = λ bases k. rest.based bases (written-Based pid (base + delta) c bases m k);
      others = rest.others;
    }

pub write_page-run :
    (pid base : ℕ) (value : List ℕ) (m : Memory)
    → Has pid base m
    → length value ≡ m.pagination.page_size
    → write_page pid base value m ≡ write_bytes pid base 0 value m
unfolding write_page
write_page-run pid base value m h l = ground (arith, has_page-run pid base m h)

pub get_page-run :
    (pid base : ℕ) (m : Memory)
    → Has pid base m
    → base + m.pagination.page_size ≤ length m.user_memory
    → (get_page pid base m).0 ≡ ok (take m.pagination.page_size (drop base m.user_memory))
unfolding get_page
get_page-run pid base m h l = ground (arith, has_page-run pid base m h)

-- What is read where the bytes are in place.
read_back :
    (pid base size : ℕ) (cs xs : List ℕ) (m : Memory)
    → Has pid base m
    → size ≡ m.pagination.page_size
    → length cs ≡ size
    → base + size ≤ length xs
    → m.user_memory ≡ write_list xs base cs
    → (get_page pid base m).0 ≡ ok cs
read_back pid base size cs xs m h e l fits bytes =
    let whole = length-write_list xs base cs in
    let there : length m.user_memory ≡ length xs = ap length bytes ∙ whole in
    get_page-run pid base m h (omega (arith, there))
    ∙ ap (λ (n : ℕ). ok (take n (drop base m.user_memory))) (sym e ∙ sym l)
    ∙ ap (λ (ys : List ℕ). ok (take (length cs) (drop base ys))) bytes
    ∙ ap ok (read-write_list xs base cs (omega arith))

Wrote-read :
    (pid base : ℕ) (value : List ℕ) (m : Memory) (result : Outcome Error (Unit {0}) × Memory)
    → length value ≡ m.pagination.page_size
    → base + m.pagination.page_size ≤ length m.user_memory
    → Wrote pid base 0 value m result
    → (result.0 ≡ ok tt) × ((get_page pid base result.1).0 ≡ ok value)
Wrote-read pid base value m result l fits w =
    let at : base + 0 ≡ base = omega arith in
    rw w.returned (
      refl,
      read_back pid base m.pagination.page_size value m.user_memory w.after w.has
          (ap (λ p. p.page_size) (sym w.pages)) l fits
          (w.bytes ∙ ap (λ (i : ℕ). write_list m.user_memory i value) at),
    )

-- If a process has the page at `base`, the page lies within the memory and `value` has as many
-- bytes as a page, then `WritePage` returns no error and `GetPage` returns `value` afterwards.
pub get_page-write_page :
    (pid base : ℕ) (value : List ℕ) (m : Memory)
    → Has pid base m
    → length value ≡ m.pagination.page_size
    → base + m.pagination.page_size ≤ length m.user_memory
    → ((write_page pid base value m).0 ≡ ok tt)
      × ((get_page pid base (write_page pid base value m).1).0 ≡ ok value)
get_page-write_page pid base value m h l fits = rw (write_page-run pid base value m h l) (
    Wrote-read pid base value m (write_bytes pid base 0 value m) l fits
      (write_bytes-Wrote pid base 0 value m h (omega arith)))
