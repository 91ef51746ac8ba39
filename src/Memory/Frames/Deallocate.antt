-- ===== src/Memory/Frames/Deallocate.antt =====
-- memoria/storage/storage.go: deallocateMemory keeps the frame table consistent.
use tp_ssoo_1c.Prelude.{
  ℕ, ◌+◌, ◌*◌, ◌<◌, ◌≡◌, ◌⊎◌, inl, inr, refl, sym, ap, ◌∙◌, subst, Bool, List, [], ◌∷◌, ◌++◌, some,
  length, arith,
}
use tp_ssoo_1c.Prelude.Exec.{ok}
use tp_ssoo_1c.Prelude.Int.{pos}
use tp_ssoo_1c.Memory.State.{Memory, ProcessData, get_data_by_pid}
use tp_ssoo_1c.Memory.Frames.{
  clear_bits, deallocate_memory, ℕ, List, Bool, pos, some, length, ◌∷◌, [], ok,
}
use tp_ssoo_1c.Memory.Frames.Bits.{free, AllFrames}
use tp_ssoo_1c.Memory.Frames.Release.{Released, clear_bits-Released}
use tp_ssoo_1c.Memory.Frames.Allocate.{FramesOk}

more_bytes : (d f n : ℕ) → d * f + n * d ≡ d * (f + n)
more_bytes d f n = grind arith

-- The memory after the frames of `bases` are freed.
abbrev released : List ℕ → List Bool → Memory → Memory
released bases bits m = record m {
  remaining_memory =
      pos
        (m.pagination.page_size * free m.reservation_bits + length bases * m.pagination.page_size);
  reservation_bits = bits;
}

deallocate_run :
    (pid : ℕ) (p : ProcessData) (bits : List Bool) (m : Memory)
    → get_data_by_pid pid m ≡ some p
    → 0 < length p.page_bases
    → m.remaining_memory ≡ pos (m.pagination.page_size * free m.reservation_bits)
    → clear_bits m.pagination.page_size p.page_bases m.reservation_bits ≡ (ok tt, bits)
    → deallocate_memory pid m ≡ (ok tt, released p.page_bases bits m)
unfolding deallocate_memory
deallocate_run pid p bits m found h e run = ground arith

deallocate_none :
    (pid : ℕ) (p : ProcessData) (m : Memory)
    → get_data_by_pid pid m ≡ some p
    → p.page_bases ≡ []
    → deallocate_memory pid m ≡ (ok tt, m)
unfolding deallocate_memory
deallocate_none pid p m found e = ground arith

released-FramesOk :
    (bases held : List ℕ) (m : Memory) (k : FramesOk (bases ++ held) m)
    → AllFrames m.pagination.page_size 0 (length m.reservation_bits) bases
    → AllFrames m.pagination.page_size 0 (length m.reservation_bits) held
    → (r : Released m.pagination.page_size bases held m.reservation_bits
        (clear_bits m.pagination.page_size bases m.reservation_bits))
    → FramesOk held (released bases r.bits' m)
released-FramesOk bases held m k own others r = record {
  size_pos = k.size_pos;
  frames = rw r.same_length k.frames;
  tracks = r.tracks;
  valid = rw r.same_length others;
  remaining = ap pos (
      more_bytes m.pagination.page_size (free m.reservation_bits) (length bases)
      ∙ ap (λ f. m.pagination.page_size * f) (sym r.more));
}

AllFrames-left :
    (size lo hi : ℕ) (xs ys : List ℕ) → AllFrames size lo hi (xs ++ ys) → AllFrames size lo hi xs
AllFrames-left size lo hi [] ys h = tt
AllFrames-left size lo hi (x ∷ xs) ys h = (h.0, AllFrames-left size lo hi xs ys h.1)

AllFrames-right :
    (size lo hi : ℕ) (xs ys : List ℕ) → AllFrames size lo hi (xs ++ ys) → AllFrames size lo hi ys
AllFrames-right size lo hi [] ys h = h
AllFrames-right size lo hi (x ∷ xs) ys h = AllFrames-right size lo hi xs ys h.1

List-cases : (xs : List ℕ) → (xs ≡ []) ⊎ (0 < length xs)
List-cases [] = inl refl
List-cases (x ∷ xs) = inr (omega arith)

-- For a process that is in the system memory, on a consistent frame table in which its frames and
-- those of `held` are held, `deallocateMemory` returns no error and does not panic, and leaves a
-- consistent frame table in which just `held` is held.
pub deallocate_memory-FramesOk :
    (pid : ℕ) (p : ProcessData) (held : List ℕ) (m : Memory)
    → get_data_by_pid pid m ≡ some p
    → FramesOk (p.page_bases ++ held) m
    → ((deallocate_memory pid m).0 ≡ ok tt) × FramesOk held (deallocate_memory pid m).1
deallocate_memory-FramesOk pid p held m found k = elim (List-cases p.page_bases) [
  | inl e ↦ rw (deallocate_none pid p m found e) (refl, subst (λ xs. FramesOk (xs ++ held) m) e k)
  | inr h ↦
      let own = AllFrames-left _ 0 _ p.page_bases held k.valid in
      let others = AllFrames-right _ 0 _ p.page_bases held k.valid in
      let r = clear_bits-Released _ p.page_bases held m.reservation_bits k.size_pos own k.tracks in
      rw (deallocate_run pid p r.bits' m found h k.remaining r.returned)
        (refl, released-FramesOk p.page_bases held m k own others r)
]
