-- ===== src/Memory/Swap/Loading.antt =====
-- memoria/storage/storage.go: UnSuspendProcess reads the pages from the text of a block.
use mathlib.Core.List.{append_assoc}
use tp_ssoo_1c.Utils.Text.Delimited.{
  Lacks, itoa-Lacks, join-Lacks, Lacks-append, split-delimited, split-whole,
}
use tp_ssoo_1c.Memory.Swap.Blocks.{body, pages_text}
use tp_ssoo_1c.Memory.Swap.{middle_chunks, drop_last_chunk}
use tp_ssoo_1c.Prelude.{
  subst, ℕ, suc, ◌<◌, ◌≡◌, refl, sym, ap, ◌∙◌, false, List, [], ◌∷◌, ◌++◌, map, arith, ltb, leb,
  length, set, length-append,
}
use tp_ssoo_1c.Prelude.Exec.{ok, panic}
use tp_ssoo_1c.Utils.Text.{Text, itoa, split, join, atoi_or_zero}
use tp_ssoo_1c.Utils.Text.RoundTrip.{atoi_or_zero-itoa, split-join}
use tp_ssoo_1c.Memory.State.{Memory, M}
use tp_ssoo_1c.Memory.Pages.{write_page}
use tp_ssoo_1c.Memory.Swap.{print_page, drop_end, behind_first, fill_bytes, to_byte, load_pages}
use tp_ssoo_1c.Memory.Swap.Blocks.{drop_end-append}

-- Pages of `n` bytes.
abbrev pub AreBytes : List ℕ → Type 0
AreBytes [] = Unit {0}
AreBytes (b ∷ bs) = (b < 256) × AreBytes bs

abbrev pub ArePages : ℕ → List (List ℕ) → Type 0
ArePages n [] = Unit {0}
ArePages n (p ∷ ps) = (length p ≡ n) × AreBytes p × ArePages n ps

-- Pages are written one after another; the answer of a write is looked at for a panic only.
unfoldable pub write_all : ℕ → List ℕ → List (List ℕ) → M (Unit {0})
write_all pid [] pages m = (ok tt, m)
write_all pid (base ∷ bases) [] m = (panic, m)
write_all pid (base ∷ bases) (page ∷ pages) m = elim (write_page pid base page m).0 [
  | panic ↦ (panic, (write_page pid base page m).1)
  | _ ↦ write_all pid bases pages (write_page pid base page m).1
]

set-append :
    (done rest : List ℕ) (x v : ℕ) → set (done ++ (x ∷ rest)) (length done) v ≡ done ++ (v ∷ rest)
set-append [] rest x v = refl
set-append (y ∷ done) rest x v = ap (λ ys. y ∷ ys) (set-append done rest x v)

byte_again : (n : ℕ) → n < 256 → to_byte (atoi_or_zero (itoa n)) ≡ n
byte_again n h = ap to_byte (atoi_or_zero-itoa n) ∙ grind arith

fill_bytes-append :
    (ns done old : List ℕ)
    → AreBytes ns
    → length ns ≡ length old
    → fill_bytes (length done) (map itoa ns) (done ++ old) ≡ ok (done ++ ns)
unfolding fill_bytes
fill_bytes-append [] done [] h e = refl
fill_bytes-append [] done (x ∷ old) h e = absurd (omega arith)
fill_bytes-append (n ∷ ns) done [] h e = absurd (omega arith)
fill_bytes-append (n ∷ ns) done (x ∷ old) h e =
    let room : leb (length (done ++ (x ∷ old))) (length done) ≡ false =
      ground (arith, length-append done (x ∷ old)) in
    let one : length (done ++ (n ∷ [])) ≡ suc (length done) =
      omega (arith, length-append done (n ∷ [])) in
    let placed =
      ap (set (done ++ (x ∷ old)) (length done)) (byte_again n h.0)
      ∙ set-append done old x n
      ∙ sym (append_assoc done (n ∷ []) old) in
    let rest =
      subst
        (λ k.
          fill_bytes k (map itoa ns) ((done ++ (n ∷ [])) ++ old) ≡ ok ((done ++ (n ∷ [])) ++ ns))
        one (fill_bytes-append ns (done ++ (n ∷ [])) old h.1 (omega arith)) in
    rw (fill_bytes, room, placed, rest) (ap ok (append_assoc done (n ∷ []) ns))

-- The words of a page that was printed.
words-print_page :
    (n : ℕ) (ns : List ℕ)
    → split b' ' (behind_first (drop_end (print_page (n ∷ ns)))) ≡ map itoa (n ∷ ns)
unfolding print_page
words-print_page n ns =
    ap (λ s. split b' ' (behind_first s))
      (drop_end-append b']' (b'[' ∷ join b' ' (map itoa (n ∷ ns))))
    ∙ split-join b' ' n ns refl

length-print_page : (p : List ℕ) → ltb (length (print_page p)) 2 ≡ false
unfolding print_page
length-print_page p = ground (arith, length-append (join b' ' (map itoa p)) (b']' ∷ []))

-- A page is read into the buffer, whatever it had.
page_again :
    (p old : List ℕ)
    → 0 < length p
    → AreBytes p
    → length p ≡ length old
    → fill_bytes 0 (split b' ' (behind_first (drop_end (print_page p)))) old ≡ ok p
page_again [] old l h e = elim l [ ]
page_again (n ∷ ns) old l h e =
    ap (λ ws. fill_bytes 0 ws old) (words-print_page n ns) ∙ fill_bytes-append (n ∷ ns) [] old h e

pub load_pages-write_all :
    (n pid : ℕ) (bases : List ℕ) (pages : List (List ℕ)) (buffer : List ℕ) (m : Memory)
    → 0 < n
    → ArePages n pages
    → length buffer ≡ n
    → load_pages pid bases (map print_page pages) buffer m ≡ write_all pid bases pages m
unfolding load_pages write_all
load_pages-write_all n pid [] pages buffer m l h e = refl
load_pages-write_all n pid (b ∷ bs) [] buffer m l h e = refl
load_pages-write_all n pid (b ∷ bs) (p ∷ ps) buffer m l h e =
    let read = page_again p buffer (omega (arith, h.0)) h.1 (h.0 ∙ sym e) in
    let rest = load_pages-write_all n pid bs ps p (write_page pid b p m).1 l h.2 h.0 in
    rw (load_pages, length-print_page p, read)
      (ap (λ r. elim (write_page pid b p m).0 [ panic ↦ (panic, (write_page pid b p m).1) | _ ↦ r ])
        rest)

print_page-Lacks : (p : List ℕ) → Lacks b'\n' (print_page p)
unfolding print_page
print_page-Lacks p =
    (refl, Lacks-append b'\n' (join b' ' (map itoa p)) _ (join-Lacks b'\n' p refl refl) (refl, tt))

abbrev pub tilde : Text
tilde = b'~' ∷ []

split-pages_text :
    (ps : List (List ℕ)) → split b'\n' (pages_text ps ++ tilde) ≡ map print_page ps ++ (tilde ∷ [])
unfolding pages_text
split-pages_text [] = split-whole b'\n' tilde (refl, tt)
split-pages_text (p ∷ ps) =
    ap (split b'\n') (append_assoc (print_page p) (b'\n' ∷ pages_text ps) tilde)
    ∙ split-delimited b'\n' (print_page p) (pages_text ps ++ tilde) (print_page-Lacks p)
    ∙ ap (λ ws. print_page p ∷ ws) (split-pages_text ps)

-- The chunks of a block.
pub split-body :
    (ps : List (List ℕ))
    → split b'\n' (body ps ++ tilde) ≡ itoa (length ps) ∷ (map print_page ps ++ (tilde ∷ []))
unfolding body
split-body ps =
    ap (split b'\n') (append_assoc (itoa (length ps)) (b'\n' ∷ pages_text ps) tilde)
    ∙ split-delimited b'\n' (itoa (length ps)) (pages_text ps ++ tilde)
        (itoa-Lacks b'\n' (length ps) refl)
    ∙ ap (λ ws. itoa (length ps) ∷ ws) (split-pages_text ps)

drop_last_chunk-append : (ws : List Text) (w : Text) → drop_last_chunk (ws ++ (w ∷ [])) ≡ ws
drop_last_chunk-append [] w = refl
drop_last_chunk-append (x ∷ []) w = refl
drop_last_chunk-append (x ∷ y ∷ ws) w = ap (λ ws. x ∷ ws) (drop_last_chunk-append (y ∷ ws) w)

pub middle_chunks-append :
    (ws : List Text) (w w' : Text) (m : Memory)
    → middle_chunks (w ∷ (ws ++ (w' ∷ []))) m ≡ (ok ws, m)
middle_chunks-append [] w w' m = refl
middle_chunks-append (x ∷ ws) w w' m = ap (λ ws. (ok ws, m)) (drop_last_chunk-append (x ∷ ws) w')
