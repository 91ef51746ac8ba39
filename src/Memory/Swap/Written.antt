-- ===== src/Memory/Swap/Written.antt =====
-- memoria/storage/storage.go: the pages that UnSuspendProcess writes to the frames of a process.
use tp_ssoo_1c.Prelude.{
  ℕ, ◌+◌, ◌*◌, ◌≤◌, ◌≡◌, refl, sym, ap, ◌∙◌, true, List, [], ◌∷◌, some, length, arith, take, drop,
}
use tp_ssoo_1c.Prelude.Exec.{Outcome, ok, err, panic}
use tp_ssoo_1c.Memory.State.{
  Metrics, Memory, ProcessData, Error, find_pid, get_data_by_pid, update_pid,
}
use tp_ssoo_1c.Memory.Frames.Bits.{AllFrames}
use tp_ssoo_1c.Memory.Pages.{contains, write_page, get_page}
use tp_ssoo_1c.Memory.Pages.RoundTrip.{
  Has, Based, write_page-run, write_bytes-Wrote, get_page-run, write_list, length-write_list,
}
use tp_ssoo_1c.Memory.Pages.Apart.{write_lists, Sizes, Reads, frame_fits}
use tp_ssoo_1c.Memory.Swap.Loading.{write_all}

abbrev pub AllIn : List ℕ → List ℕ → Type 0
AllIn [] owned = Unit {0}
AllIn (b ∷ bs) owned = (contains owned b ≡ true) × AllIn bs owned

AllIn-cons : (x : ℕ) (bs owned : List ℕ) → AllIn bs owned → AllIn bs (x ∷ owned)
AllIn-cons x [] owned h = tt
AllIn-cons x (b ∷ bs) owned h = let d = h.0 in (ground arith, AllIn-cons x bs owned h.1)

pub AllIn-self : (bs : List ℕ) → AllIn bs bs
AllIn-self [] = tt
AllIn-self (b ∷ bs) = (ground arith, AllIn-cons b bs bs (AllIn-self bs))

Based-Has :
    (pid b : ℕ) (owned : List ℕ) (m : Memory)
    → Based pid owned m
    → contains owned b ≡ true
    → Has pid b m
Based-Has pid b owned m h e = record {
  process = h.0;
  found = h.1.0;
  owned = ap (λ bs. contains bs b) h.1.1 ∙ e;
}

-- The writes succeed, and change no more than the bytes and the metrics of the process.
pub record WroteAll (pid : ℕ) (bases : List ℕ) (pages : List (List ℕ)) (m : Memory)
    (result : Outcome Error (Unit {0}) × Memory) : Type 0 where
  pub after : Memory
  pub returned : result ≡ (ok tt, after)
  pub bytes : after.user_memory ≡ write_lists m.user_memory bases pages
  pub based : (owned : List ℕ) → Based pid owned m → Based pid owned after
  pub others :
      after ≡ record m { user_memory = after.user_memory; system_memory = after.system_memory }

write_all-step :
    (pid b : ℕ) (bs : List ℕ) (p : List ℕ) (ps : List (List ℕ)) (m m' : Memory)
    → write_page pid b p m ≡ (ok tt, m')
    → write_all pid (b ∷ bs) (p ∷ ps) m ≡ write_all pid bs ps m'
unfolding write_all
write_all-step pid b bs p ps m m' e =
    ap
      (λ (r : Outcome Error (Unit {0}) × Memory).
        elim r.0 as (λ _. Outcome Error (Unit {0}) × Memory) [
          | ok u ↦ write_all pid bs ps r.1
          | err x ↦ write_all pid bs ps r.1
          | panic ↦ (panic, r.1)
        ])
      e

pub write_all-WroteAll :
    (n hi pid : ℕ) (owned bases : List ℕ) (pages : List (List ℕ)) (m : Memory)
    → Based pid owned m
    → AllIn bases owned
    → AllFrames n 0 hi bases
    → Sizes n pages
    → length bases ≡ length pages
    → n ≡ m.pagination.page_size
    → hi * n ≤ length m.user_memory
    → WroteAll pid bases pages m (write_all pid bases pages m)
unfolding write_all write_lists
write_all-WroteAll n hi pid owned [] pages m h o fs s l e fits = record {
  after = m;
  returned = refl;
  bytes = refl;
  based = λ owned k. k;
  others = refl;
}
write_all-WroteAll n hi pid owned (b ∷ bs) [] m h o fs s l e fits = absurd (omega (arith, l))
write_all-WroteAll n hi pid owned (b ∷ bs) (p ∷ ps) m h o fs s l e fits =
    let has = Based-Has pid b owned m h o.0 in
    let size : length p ≡ n = s.0 in
    let room = frame_fits n hi b (length m.user_memory) fs.0 fits in
    let w = write_bytes-Wrote pid b 0 p m has (omega (arith, room, size)) in
    let at : b + 0 ≡ b = omega arith in
    let bytes = w.bytes ∙ ap (λ i. write_list m.user_memory i p) at in
    let same = ap length bytes ∙ length-write_list m.user_memory b p in
    let rest =
      write_all-WroteAll n hi pid owned bs ps w.after (w.based owned h) o.1 fs.1 s.1
        (omega (arith, l)) (e ∙ ap (λ g. g.page_size) (sym w.pages)) (omega (arith, same, fits)) in
    let around : Memory → Memory = λ m. record m {
      user_memory = rest.after.user_memory;
      system_memory = rest.after.system_memory;
    } in
    record {
      after = rest.after;
      returned =
          write_all-step pid b bs p ps m w.after
            (write_page-run pid b p m has (size ∙ e) ∙ w.returned)
          ∙ rest.returned;
      bytes = rest.bytes ∙ ap (λ xs. write_lists xs bs ps) bytes;
      based = λ owned k. rest.based owned (w.based owned k);
      others = rest.others ∙ ap around w.others;
    }

-- A process whose data is changed, but for its PID.
find_pid-changed :
    (pid : ℕ) (f : ProcessData → ProcessData) (p : ProcessData) (ps : List ProcessData)
    → ((q : ProcessData) → (f q).pid ≡ q.pid)
    → find_pid pid ps ≡ some p
    → find_pid pid (update_pid pid f ps) ≡ some (f p)
unfolding find_pid update_pid
find_pid-changed pid f p [] h e = ground arith
find_pid-changed pid f p (q ∷ ps) h e =
    let k = h q in ground (arith, k, find_pid-changed pid f p ps h)

pub given_bases-Based :
    (pid : ℕ) (bases : List ℕ) (p : ProcessData) (m : Memory)
    → get_data_by_pid pid m ≡ some p
    → Based pid bases (record m {
      system_memory = update_pid pid (λ p. record p { page_bases = bases }) m.system_memory;
    })
given_bases-Based pid bases p m e = (
  record p { page_bases = bases },
  (
    find_pid-changed pid (λ p. record p { page_bases = bases }) p m.system_memory (λ q. refl) e,
    refl,
  ),
)

-- What `GetPage` reads at each base.
abbrev pub Readable : ℕ → List ℕ → List (List ℕ) → Memory → Type 0
Readable pid [] pages m = Unit {0}
Readable pid (b ∷ bs) [] m = Unit {0}
Readable pid (b ∷ bs) (p ∷ ps) m = ((get_page pid b m).0 ≡ ok p) × Readable pid bs ps m

pub Reads-Readable :
    (n hi pid : ℕ) (owned bases : List ℕ) (pages : List (List ℕ)) (m : Memory)
    → Based pid owned m
    → AllIn bases owned
    → AllFrames n 0 hi bases
    → n ≡ m.pagination.page_size
    → hi * n ≤ length m.user_memory
    → Reads n m.user_memory bases pages
    → Readable pid bases pages m
Reads-Readable n hi pid owned [] pages m h o fs e fits r = tt
Reads-Readable n hi pid owned (b ∷ bs) [] m h o fs e fits r = tt
Reads-Readable n hi pid owned (b ∷ bs) (p ∷ ps) m h o fs e fits r =
    let room = frame_fits n hi b (length m.user_memory) fs.0 fits in
    (
      get_page-run pid b m (Based-Has pid b owned m h o.0) (omega (arith, room, e))
          ∙ ap (λ k. ok (take k (drop b m.user_memory))) (sym e)
          ∙ ap ok r.0,
      Reads-Readable n hi pid owned bs ps m h o.1 fs.1 e fits r.1,
    )

-- The metrics of a process do not move its pages.
pub counted-Based :
    (pid : ℕ) (bases : List ℕ) (f : Metrics → Metrics) (m : Memory)
    → Based pid bases m
    → Based pid bases (record m {
      system_memory = update_pid pid (λ p. record p { metrics = f p.metrics }) m.system_memory;
    })
counted-Based pid bases f m h = (
  record (h.0) { metrics = f h.0.metrics },
  (
    find_pid-changed pid (λ p. record p { metrics = f p.metrics }) h.0 m.system_memory (λ q. refl)
        h.1.0,
    h.1.1,
  ),
)
