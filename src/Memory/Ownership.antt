-- ===== src/Memory/Ownership.antt =====
-- memoria/storage/storage.go: the frames that the processes of systemMemory hold.
pub mod Create
pub mod Delete
use tp_ssoo_1c.Prelude.{
  ℕ, zero, suc, ◌+◌, ◌-◌, ◌*◌, ◌/◌, ◌≤◌, ◌<◌, ◌≡◌, ◌≢◌, ◌⊎◌, inl, inr, refl, sym, ap, ◌∙◌, subst,
  Bool, true, false, List, [], ◌∷◌, ◌++◌, Option, none, some, length, arith, ◌==◌, if◌then◌else◌,
  count, count-append, count_other, count_same, Bool-cases, Option-cases,
}
use tp_ssoo_1c.Prelude.Exec.{Outcome, ok, err, panic}
use tp_ssoo_1c.Prelude.Int.{ℤ, pos}
use tp_ssoo_1c.Memory.State.{Memory, ProcessData}
use tp_ssoo_1c.Memory.Frames.Bits.{bit_value, Tracks, Tracks-cong, IsFrame, AllFrames}
use tp_ssoo_1c.Memory.Frames.Allocate.{FramesOk}

abbrev pub held_by : List ProcessData → List ℕ
held_by [] = []
held_by (p ∷ ps) = p.page_bases ++ held_by ps

-- The frame table is consistent, and exactly the frames of the processes are held: no process is
-- suspended.
abbrev pub StorageOk : Memory → Type 0
StorageOk m = FramesOk (held_by m.system_memory) m

pub AllFrames-lookup :
    (size lo hi b : ℕ) (held : List ℕ)
    → AllFrames size lo hi held
    → 0 < count b held
    → IsFrame size lo hi b
unfolding count
AllFrames-lookup size lo hi b [] f h = elim h [ ]
AllFrames-lookup size lo hi b (x ∷ held) f h = elim (Bool-cases (x == b)) [
  | inl e ↦ subst (λ y. IsFrame size lo hi y) (ground arith) f.0
  | inr e ↦ AllFrames-lookup size lo hi b held f.1 (ground arith)
]

count_pos : (b x : ℕ) (held : List ℕ) → 0 < count b held → 0 < count b (x ∷ held)
unfolding count
count_pos b x held l = ground arith

AllFrames-intro :
    (size lo hi : ℕ) (held : List ℕ)
    → ((b : ℕ) → 0 < count b held → IsFrame size lo hi b)
    → AllFrames size lo hi held
AllFrames-intro size lo hi [] h = tt
AllFrames-intro size lo hi (x ∷ held) h = (
  h x (omega (arith, count_same x held)),
  AllFrames-intro size lo hi held (λ b l. h b (count_pos b x held l)),
)

-- Only the counts of the held frames matter.
pub FramesOk-cong :
    (held held' : List ℕ) (m : Memory)
    → ((b : ℕ) → count b held ≡ count b held')
    → FramesOk held m
    → FramesOk held' m
FramesOk-cong held held' m h k = record {
  size_pos = k.size_pos;
  frames = k.frames;
  tracks = Tracks-cong _ 0 m.reservation_bits held held' h k.tracks;
  valid =
      AllFrames-intro _ 0 _ held'
        (λ b l. AllFrames-lookup _ 0 _ b held k.valid (omega (arith, h b, l)));
  remaining = k.remaining;
}

-- The list of processes is no part of the frame table.
pub FramesOk-system :
    (held : List ℕ) (m : Memory) (ps : List ProcessData)
    → FramesOk held m
    → FramesOk held (record m { system_memory = ps })
FramesOk-system held m ps k = record {
  size_pos = k.size_pos;
  frames = k.frames;
  tracks = k.tracks;
  valid = k.valid;
  remaining = k.remaining;
}

pub held_by-append :
    (b : ℕ) (ps qs : List ProcessData)
    → count b (held_by (ps ++ qs)) ≡ count b (held_by ps) + count b (held_by qs)
unfolding count
held_by-append b [] qs = omega arith
held_by-append b (p ∷ ps) qs = omega (
  arith,
  count-append b p.page_bases (held_by (ps ++ qs)),
  count-append b p.page_bases (held_by ps),
  held_by-append b ps qs,
)

bit_le_one : (bit : Bool) → bit_value bit ≤ 1
bit_le_one bit = ground arith

Tracks-le_one :
    (size i j n : ℕ) (bits : List Bool) (held : List ℕ)
    → j ≡ i + n
    → n < length bits
    → Tracks size i bits held
    → count (j * size) held ≤ 1
Tracks-le_one size i j n [] held e l t = elim l [ ]
Tracks-le_one size i j zero (bit ∷ bits) held e l t =
    let same : i ≡ j = omega arith in
    subst (λ (x : ℕ). count (x * size) held ≤ 1) same (omega (arith, t.0, bit_le_one bit))
Tracks-le_one size i j (suc n) (bit ∷ bits) held e l t =
    Tracks-le_one size (suc i) j n bits held (omega arith) (omega arith) t.1

ℕ-cases : (n : ℕ) → (n ≡ 0) ⊎ (0 < n)
ℕ-cases zero = inl refl
ℕ-cases (suc n) = inr (omega arith)

held_frame-le_one :
    (b : ℕ) (held : List ℕ) (m : Memory)
    → FramesOk held m
    → IsFrame m.pagination.page_size 0 (length m.reservation_bits) b
    → count b held ≤ 1
held_frame-le_one b held m k f =
    subst (λ (x : ℕ). count x held ≤ 1) (sym f.aligned)
      (Tracks-le_one _ 0 f.number f.number m.reservation_bits _ (omega arith) f.below k.tracks)

-- No frame is held twice.
pub FramesOk-le_one : (b : ℕ) (held : List ℕ) (m : Memory) → FramesOk held m → count b held ≤ 1
FramesOk-le_one b held m k = elim (ℕ-cases (count b held)) [
  | inl e ↦ omega arith
  | inr l ↦ held_frame-le_one b held m k (AllFrames-lookup _ 0 _ b _ k.valid l)
]
