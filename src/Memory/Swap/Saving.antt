-- ===== src/Memory/Swap/Saving.antt =====
-- memoria/storage/storage.go: `addToSwap` puts the pages of a process into a block at the end of
-- the swap file.
use mathlib.Core.List.{append_assoc, append-nil}
use tp_ssoo_1c.Prelude.{
  suc, not, ℕ, ◌≡◌, refl, sym, ap, ◌∙◌, List, [], ◌∷◌, ◌++◌, Option, none, some, length, arith,
}
use tp_ssoo_1c.Prelude.Exec.{
  throw, fail_if, Outcome, ok, err, panic, ◌>>=◌, ◌>>◌, return, get_state,
}
use tp_ssoo_1c.Prelude.Keeps.{Keeps, Keeps-bind, Keeps-fail_if}
use tp_ssoo_1c.Utils.Text.{Text, itoa}
use tp_ssoo_1c.Memory.State.{
  Memory, Error, M, could_not_find_process, page_not_assigned, ProcessData, get_data_by_pid,
}
use tp_ssoo_1c.Memory.Pages.{contains, get_page, has_page, count_reads, slice}
use tp_ssoo_1c.Memory.Swap.{
  format_pages, format_swap_data, add_to_swap, with_page, contents_of, append_block, block_of,
}
use tp_ssoo_1c.Memory.Swap.Blocks.{Block, swap_text, pages_text, body}

-- The pages of a process, which `GetPage` reads one after another.
unfoldable pub read_all : ℕ → List ℕ → M (List (List ℕ))
read_all pid [] = return []
read_all pid (base ∷ bases) = do
  page ← get_page pid base
  pages ← read_all pid bases
  return (page ∷ pages)

has_page_of-Keeps :
    (o : Option ProcessData) (base : ℕ) (file : Option Text)
    → Keeps Error
        (λ m. m.swap_file ≡ file)
        (elim o as (λ x. M (Unit {0})) [
          | none ↦ throw could_not_find_process
          | some p ↦ fail_if (not (contains p.page_bases base)) page_not_assigned
        ])
has_page_of-Keeps none base file m h = h
has_page_of-Keeps (some p) base file m h = Keeps-fail_if Error (λ m. m.swap_file ≡ file) _ _ m h

has_page-Keeps :
    (pid base : ℕ) (file : Option Text) → Keeps Error (λ m. m.swap_file ≡ file) (has_page pid base)
unfolding has_page
has_page-Keeps pid base file m h = has_page_of-Keeps (get_data_by_pid pid m) base file m h

abbrev page_slice : ℕ → ℕ → M (List ℕ)
page_slice pid base = do
  m ← get_state
  count_reads pid m.values.page_size
  slice base m.pagination.page_size

page_slice-Keeps :
    (pid base : ℕ) (file : Option Text)
    → Keeps Error (λ m. m.swap_file ≡ file) (page_slice pid base)
page_slice-Keeps pid base file m h = ground arith

get_page-Keeps :
    (pid base : ℕ) (file : Option Text) → Keeps Error (λ m. m.swap_file ≡ file) (get_page pid base)
unfolding get_page
get_page-Keeps pid base file =
    Keeps-bind Error (λ m. m.swap_file ≡ file) (has_page pid base) (λ u. page_slice pid base)
      (has_page-Keeps pid base file) (λ u. page_slice-Keeps pid base file)

read_all-Keeps :
    (pid : ℕ) (bases : List ℕ) (file : Option Text)
    → Keeps Error (λ m. m.swap_file ≡ file) (read_all pid bases)
unfolding read_all
read_all-Keeps pid [] file m h = h
read_all-Keeps pid (b ∷ bs) file m h =
    let P : Memory → Type 0 = λ m. m.swap_file ≡ file in
    Keeps-bind Error P (get_page pid b) (λ page. do pages ← read_all pid bs; return (page ∷ pages))
      (get_page-Keeps pid b file)
      (λ page.
        Keeps-bind Error P (read_all pid bs) (λ pages. return (page ∷ pages))
          (read_all-Keeps pid bs file) (λ pages m h. h))
      m h

-- What `formatSwapData` prints of a read.
abbrev printed_outcome : Outcome Error (List (List ℕ)) → Outcome Error (Option Text)
printed_outcome (ok pages) = ok (some (pages_text pages))
printed_outcome (err e) = ok none
printed_outcome panic = panic

abbrev printed : Outcome Error (List (List ℕ)) × Memory → Outcome Error (Option Text) × Memory
printed r = (printed_outcome r.0, r.1)

with_page-printed :
    (page : List ℕ) (o : Outcome Error (List (List ℕ))) (m : Memory)
    → (with_page page (printed_outcome o), m)
      ≡ printed (◌>>=◌ (λ s. (o, m)) (λ pages. return (page ∷ pages)) m)
unfolding pages_text
with_page-printed page (ok pages) m = refl
with_page-printed page (err e) m = refl
with_page-printed page panic m = refl

-- The first page, where the pages behind it are printed as they are read.
first_page-printed :
    (pid : ℕ) (bs : List ℕ) (o : Outcome Error (List ℕ)) (s m : Memory)
    → format_pages pid bs s ≡ printed (read_all pid bs s)
    → elim o [
      | ok bytes ↦ (with_page bytes (format_pages pid bs s).0, (format_pages pid bs s).1)
      | err e ↦ (ok none, s)
      | panic ↦ (panic, s)
    ]
      ≡ printed (◌>>=◌ (λ s'. (o, s)) (λ page. do pages ← read_all pid bs; return (page ∷ pages)) m)
first_page-printed pid bs (ok page) s m h =
    ap (λ r. (with_page page r.0, r.1)) h
    ∙ with_page-printed page (read_all pid bs s).0 (read_all pid bs s).1
first_page-printed pid bs (err e) s m h = refl
first_page-printed pid bs panic s m h = refl

format_pages-read_all :
    (pid : ℕ) (bases : List ℕ) (m : Memory)
    → format_pages pid bases m ≡ printed (read_all pid bases m)
unfolding format_pages read_all pages_text
format_pages-read_all pid [] m = refl
format_pages-read_all pid (b ∷ bs) m =
    let (o, s) = get_page pid b m in
    first_page-printed pid bs o s m (format_pages-read_all pid bs s)

swap_text-append :
    (bs : List Block) (b : Block) → swap_text bs ++ swap_text (b ∷ []) ≡ swap_text (bs ++ (b ∷ []))
unfolding swap_text
swap_text-append [] b = refl
swap_text-append (x ∷ bs) b =
    let rest = b'~' ∷ b'\n' ∷ swap_text bs in
    append_assoc (itoa x.pid) (b'|' ∷ (body x.pages ++ rest)) (swap_text (b ∷ []))
    ∙ ap (λ t. itoa x.pid ++ (b'|' ∷ t))
        (append_assoc (body x.pages) rest (swap_text (b ∷ []))
          ∙ ap (λ t. body x.pages ++ (b'~' ∷ b'\n' ∷ t)) (swap_text-append bs b))

-- As many pages are read as there are bases.
abbrev AllRead : ℕ → Outcome Error (List (List ℕ)) → Type 0
AllRead n (ok pages) = length pages ≡ n
AllRead n (err e) = Unit {0}
AllRead n panic = Unit {0}

AllRead-cons :
    (page : List ℕ) (n : ℕ) (o : Outcome Error (List (List ℕ))) (m s : Memory)
    → AllRead n o
    → AllRead (suc n) (◌>>=◌ (λ s'. (o, s)) (λ pages. return (page ∷ pages)) m).0
AllRead-cons page n (ok pages) m s h = ap suc h
AllRead-cons page n (err e) m s h = tt
AllRead-cons page n panic m s h = tt

AllRead-page :
    (pid : ℕ) (bs : List ℕ) (o : Outcome Error (List ℕ)) (s m : Memory)
    → AllRead (length bs) (read_all pid bs s).0
    → AllRead
        (suc (length bs))
        (◌>>=◌ (λ s'. (o, s)) (λ page. do pages ← read_all pid bs; return (page ∷ pages)) m).0
AllRead-page pid bs (ok page) s m h =
    AllRead-cons page (length bs) (read_all pid bs s).0 s (read_all pid bs s).1 h
AllRead-page pid bs (err e) s m h = tt
AllRead-page pid bs panic s m h = tt

read_all-AllRead :
    (pid : ℕ) (bases : List ℕ) (m : Memory) → AllRead (length bases) (read_all pid bases m).0
unfolding read_all
read_all-AllRead pid [] m = refl
read_all-AllRead pid (b ∷ bs) m =
    let (o, s) = get_page pid b m in AllRead-page pid bs o s m (read_all-AllRead pid bs s)

-- The file where a process's pages were read: with its block behind the others, or as it was if
-- one could not be read.
abbrev pub saved_answer :
    ℕ → List Block → Outcome Error (List (List ℕ)) → Memory → Outcome Error (Unit {0}) × Memory
saved_answer pid bs (ok pages) m = (
  ok tt,
  record m { swap_file = some (swap_text (bs ++ (record { pid = pid; pages = pages } ∷ []))) },
)
saved_answer pid bs (err e) m = (ok tt, record m { swap_file = some (swap_text bs) })
saved_answer pid bs panic m = (panic, m)

-- The block of a process is the text of a file of one block.
block_of-swap_text :
    (p : ProcessData) (pages : List (List ℕ))
    → length pages ≡ length p.page_bases
    → block_of p (some (pages_text pages)) ≡ swap_text (record { pid = p.pid; pages = pages } ∷ [])
unfolding swap_text body
block_of-swap_text p pages h =
    ap (λ t. itoa p.pid ++ (b'|' ∷ t))
      (ap (λ n. itoa n ++ (b'\n' ∷ (pages_text pages ++ (b'~' ∷ b'\n' ∷ [])))) (sym h)
        ∙ sym (append_assoc (itoa (length pages)) (b'\n' ∷ pages_text pages) (b'~' ∷ b'\n' ∷ [])))

appended :
    (p : ProcessData) (bs : List Block) (o : Outcome Error (List (List ℕ))) (m s : Memory)
    → AllRead (length p.page_bases) o
    → contents_of s.swap_file ≡ swap_text bs
    → ◌>>=◌ (◌>>=◌ (λ s'. printed (o, s)) (λ text. return (block_of p text))) append_block m
      ≡ saved_answer p.pid bs o s
appended p bs (ok pages) m s h e =
    ap (λ t. (ok tt, record s { swap_file = some t }))
      (ap (λ t. t ++ block_of p (some (pages_text pages))) e
        ∙ ap (λ t. swap_text bs ++ t) (block_of-swap_text p pages h)
        ∙ swap_text-append bs (record { pid = p.pid; pages = pages }))
appended p bs (err x) m s h e =
    ap (λ t. (ok tt, record s { swap_file = some t })) (append-nil _ ∙ e)
appended p bs panic m s h e = refl

-- On a swap file that is the text of a list of blocks, or on none where the list is empty,
-- `addToSwap` leaves the text of the same blocks with one behind them, of the PID and the bytes
-- of the pages that `GetPage` reads; where a page cannot be read the file has the blocks that it
-- had.
pub add_to_swap-saved :
    (p : ProcessData) (bs : List Block) (m : Memory)
    → contents_of m.swap_file ≡ swap_text bs
    → add_to_swap p m
      ≡ saved_answer p.pid bs (read_all p.pid p.page_bases m).0 (read_all p.pid p.page_bases m).1
unfolding add_to_swap format_swap_data
add_to_swap-saved p bs m e =
    let r = read_all p.pid p.page_bases m in
    ap (λ r. ◌>>=◌ (◌>>=◌ (λ s'. r) (λ text. return (block_of p text))) append_block m)
      (format_pages-read_all p.pid p.page_bases m)
    ∙ appended p bs r.0 m r.1 (read_all-AllRead p.pid p.page_bases m)
        (ap contents_of (read_all-Keeps p.pid p.page_bases m.swap_file m refl) ∙ e)
