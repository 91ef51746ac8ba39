-- ===== src/Memory/Swap/Blocks.antt =====
-- memoria/storage/storage.go: the swap file as a list of blocks, one for each process that is
-- suspended: `getFromSwap` and `removeFromSwap` look one up and take it out.
use mathlib.Core.List.{append_assoc}
use tp_ssoo_1c.Prelude.{
  Option-cases, inl, inr, Bool-cases, length-append, ℕ, zero, suc, ◌≤◌, ◌<◌, ◌≡◌, refl, ap, ◌∙◌,
  List, [], ◌∷◌, ◌++◌, Option, none, some, arith, ◌==◌, length, if◌then◌else◌, ==_refl, map,
}
use tp_ssoo_1c.Prelude.Int.{pos}
use tp_ssoo_1c.Prelude.Exec.{Outcome, ok, err}
use tp_ssoo_1c.Utils.Text.{Text, itoa, join, atoi}
use tp_ssoo_1c.Utils.Text.RoundTrip.{atoi-itoa}
use tp_ssoo_1c.Utils.Text.Delimited.{join-Lacks, Lacks, itoa-Lacks, Lacks-append}
use tp_ssoo_1c.Memory.State.{Memory, Error, io_eof}
use tp_ssoo_1c.Memory.Swap.{
  print_page, read_string, drop_end, read_block, find_block, drop_block, get_from_swap,
  remove_from_swap, join, atoi, map, prefix_with, copied,
}

-- A suspended process and the bytes of its pages.
pub record Block : Type 0 where
  pub pid : ℕ
  pub pages : List (List ℕ)

unfoldable pub pages_text : List (List ℕ) → Text
pages_text [] = []
pages_text (p ∷ ps) = print_page p ++ (b'\n' ∷ pages_text ps)

-- The part of a block between its bar and its tilde.
unfoldable pub body : List (List ℕ) → Text
body ps = itoa (length ps) ++ (b'\n' ∷ pages_text ps)

unfoldable pub swap_text : List Block → Text
swap_text [] = []
swap_text (b ∷ bs) = itoa b.pid ++ (b'|' ∷ (body b.pages ++ (b'~' ∷ b'\n' ∷ swap_text bs)))

unfoldable pub lookup : ℕ → List Block → Option (List (List ℕ))
lookup pid [] = none
lookup pid (b ∷ bs) = if b.pid == pid then some b.pages else lookup pid bs

-- The first block of a process is taken out.
unfoldable pub erase : ℕ → List Block → List Block
erase pid [] = []
erase pid (b ∷ bs) = if b.pid == pid then bs else b ∷ erase pid bs

read_string-delimited :
    (c : ℕ) (s rest : Text)
    → Lacks c s
    → read_string c (s ++ (c ∷ rest)) ≡ some (s ++ (c ∷ []), rest)
unfolding read_string
read_string-delimited c [] rest h = rw (==_refl c c refl)
read_string-delimited c (x ∷ s) rest h = rw (h.0, read_string-delimited c s rest h.1)

pub drop_end-append : (c : ℕ) (s : Text) → drop_end (s ++ (c ∷ [])) ≡ s
unfolding drop_end
drop_end-append c [] = refl
drop_end-append c (x ∷ []) = refl
drop_end-append c (x ∷ y ∷ s) = ap (λ t. x ∷ t) (drop_end-append c (y ∷ s))

pages_text-Lacks : (ps : List (List ℕ)) → Lacks b'~' (pages_text ps)
unfolding pages_text print_page
pages_text-Lacks [] = tt
pages_text-Lacks (p ∷ ps) =
    Lacks-append b'~' (print_page p) _
      (refl, Lacks-append b'~' (join b' ' (map itoa p)) _ (join-Lacks b'~' p refl refl) (refl, tt))
      (refl, pages_text-Lacks ps)

body-Lacks : (ps : List (List ℕ)) → Lacks b'~' (body ps)
unfolding body
body-Lacks ps =
    Lacks-append b'~' (itoa (length ps)) _ (itoa-Lacks b'~' (length ps) refl)
      (refl, pages_text-Lacks ps)

abbrev rest_text : Block → List Block → Text
rest_text b bs = body b.pages ++ (b'~' ∷ b'\n' ∷ swap_text bs)

-- The header of the first block.
read_header :
    (b : Block) (bs : List Block)
    → read_string b'|' (swap_text (b ∷ bs)) ≡ some (itoa b.pid ++ (b'|' ∷ []), rest_text b bs)
unfolding swap_text
read_header b bs =
    read_string-delimited b'|' (itoa b.pid) (rest_text b bs) (itoa-Lacks b'|' b.pid refl)

header_pid : (b : Block) → atoi (drop_end (itoa b.pid ++ (b'|' ∷ []))) ≡ some (pos b.pid)
header_pid b = ap atoi (drop_end-append b'|' (itoa b.pid)) ∙ atoi-itoa b.pid

read_body :
    (b : Block) (bs : List Block)
    → read_string b'~' (rest_text b bs) ≡ some (body b.pages ++ (b'~' ∷ []), b'\n' ∷ swap_text bs)
read_body b bs =
    read_string-delimited b'~' (body b.pages) (b'\n' ∷ swap_text bs) (body-Lacks b.pages)

read_block-first :
    (b : Block) (bs : List Block)
    → read_block (swap_text (b ∷ bs))
      ≡ ok (pos b.pid, body b.pages ++ (b'~' ∷ []), b'\n' ∷ swap_text bs)
read_block-first b bs = rw (read_block, read_header b bs, header_pid b, read_body b bs)

-- What `getFromSwap` returns of a block.
abbrev pub found_body : Option (List (List ℕ)) → Outcome Error Text
found_body none = err io_eof
found_body (some pages) = ok (body pages ++ (b'~' ∷ []))

find_block-lookup :
    (fuel pid : ℕ) (bs : List Block)
    → length bs < fuel
    → find_block fuel pid (swap_text bs) ≡ found_body (lookup pid bs)
unfolding find_block lookup read_string swap_text
find_block-lookup zero pid bs h = elim h [ ]
find_block-lookup (suc fuel) pid [] h = refl
find_block-lookup (suc fuel) pid (b ∷ bs) h = elim (Bool-cases (b.pid == pid)) [
  | inl e ↦ rw (find_block, read_block-first b bs, e, lookup)
  | inr e ↦
      rw (find_block, read_block-first b bs, e, lookup, find_block-lookup fuel pid bs (omega arith))
]

-- The text that `removeFromSwap` writes.
abbrev pub erased_text : Option (List (List ℕ)) → List Block → Outcome Error Text
erased_text none bs = err io_eof
erased_text (some pages) bs = ok (swap_text bs)

block_again :
    (b : Block) (rest : Text)
    → copied (itoa b.pid ++ (b'|' ∷ [])) (body b.pages ++ (b'~' ∷ [])) ++ rest
      ≡ itoa b.pid ++ (b'|' ∷ (body b.pages ++ (b'~' ∷ b'\n' ∷ rest)))
block_again b rest = simp append_assoc

-- A block that is not the one is copied.
copy_back :
    (b : Block) (pid : ℕ) (bs : List Block)
    → prefix_with
        (copied (itoa b.pid ++ (b'|' ∷ [])) (body b.pages ++ (b'~' ∷ [])))
        (erased_text (lookup pid bs) (erase pid bs))
      ≡ erased_text (lookup pid bs) (b ∷ erase pid bs)
unfolding swap_text
copy_back b pid bs = elim (Option-cases (lookup pid bs)) [
  | inl e ↦ rw (e)
  | inr (p, e) ↦ rw (e) (ap ok (block_again b (swap_text (erase pid bs))))
]

drop_block-erase :
    (fuel pid : ℕ) (bs : List Block)
    → length bs < fuel
    → drop_block fuel pid (swap_text bs) ≡ erased_text (lookup pid bs) (erase pid bs)
unfolding drop_block lookup erase read_string swap_text
drop_block-erase zero pid bs h = elim h [ ]
drop_block-erase (suc fuel) pid [] h = refl
drop_block-erase (suc fuel) pid (b ∷ bs) h = elim (Bool-cases (b.pid == pid)) [
  | inl e ↦ rw (drop_block, read_header b bs, header_pid b, read_body b bs, e, lookup, erase)
  | inr e ↦
      rw
        (
          drop_block,
          read_header b bs,
          header_pid b,
          read_body b bs,
          e,
          lookup,
          erase,
          drop_block-erase fuel pid bs (omega arith),
        )
        (copy_back b pid bs)
]

-- Each block has more than one byte.
length-swap_text : (bs : List Block) → length bs ≤ length (swap_text bs)
unfolding swap_text
length-swap_text [] = omega arith
length-swap_text (b ∷ bs) =
    let head = length-append (itoa b.pid) (b'|' ∷ rest_text b bs) in
    let rest = length-append (body b.pages) (b'~' ∷ b'\n' ∷ swap_text bs) in
    omega (arith, head, rest, length-swap_text bs)

pub get_from_swap-lookup :
    (pid : ℕ) (bs : List Block) (m : Memory)
    → m.swap_file ≡ some (swap_text bs)
    → get_from_swap pid m ≡ (found_body (lookup pid bs), m)
unfolding get_from_swap
get_from_swap-lookup pid bs m h = simp (
  h,
  get_from_swap,
  find_block-lookup (suc (length (swap_text bs))) pid bs (omega (arith, length-swap_text bs)),
)

-- What `removeFromSwap` answers, and leaves.
abbrev pub removed :
    Option (List (List ℕ)) → List Block → Memory → Outcome Error (Unit {0}) × Memory
removed none bs m = (err io_eof, m)
removed (some pages) bs m = (ok tt, record m { swap_file = some (swap_text bs) })

pub remove_from_swap-erase :
    (pid : ℕ) (bs : List Block) (m : Memory)
    → m.swap_file ≡ some (swap_text bs)
    → remove_from_swap pid m ≡ removed (lookup pid bs) (erase pid bs) m
unfolding remove_from_swap
remove_from_swap-erase pid bs m h = elim (Option-cases (lookup pid bs)) [
  | inl e ↦ simp (
    h,
    remove_from_swap,
    drop_block-erase (suc (length (swap_text bs))) pid bs (omega (arith, length-swap_text bs)),
    e,
  )
  | inr (p, e) ↦ simp (
    h,
    remove_from_swap,
    drop_block-erase (suc (length (swap_text bs))) pid bs (omega (arith, length-swap_text bs)),
    e,
  )
]
