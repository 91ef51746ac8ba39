-- ===== src/Memory/Server/Keeps.antt =====
-- memoria/: the operations of the storage that hand out no frame keep the frame table.
use tp_ssoo_1c.Prelude.{
  ℕ, suc, ◌+◌, ◌-◌, ◌≡◌, refl, sym, subst, Bool, List, [], ◌∷◌, Option, none, some, length, set,
  get_elem?, take, drop, arith, ltb, leb, if-intro,
}
use tp_ssoo_1c.Prelude.Int.{ℤ, pos, negsuc}
use tp_ssoo_1c.Prelude.Exec.{
  Outcome, ◌>>=◌, ◌>>◌, return, throw, crash, get_state, modify, fail_if, crash_if,
}
use tp_ssoo_1c.Prelude.Keeps.{Keeps, Keeps-bind, Keeps-read, Keeps-fail_if, Keeps-crash_if}
use tp_ssoo_1c.Memory.State.{
  Memory, ProcessData, Metrics, Error, M, update_pid, count_metric, get_data_by_pid,
}
use tp_ssoo_1c.Memory.Ownership.{held_by, StorageOk, FramesOk-system}
use tp_ssoo_1c.Memory.Frames.Allocate.{FramesOk}
use tp_ssoo_1c.Memory.Pages.{
  has_page, get_from_memory, write_to_memory, get_page, write_bytes, write_page, slice, byte_at,
  store_byte, read_at, write_at, count_reads,
}
use tp_ssoo_1c.Utils.Codeutils.{Instruction}
use tp_ssoo_1c.Memory.Process.{get_instruction, instruction_at}
use tp_ssoo_1c.Memory.Address.{logic_address_to_frame, page_index, base_at}

-- The frame table stays consistent and held by the processes, whatever the operation returns.
pub record Safe {A : Type 0} (f : M A) : Type 0 where
  pub keeps : Keeps Error StorageOk f

pub Safe-bind :
    {A B : Type 0} {m : M A} {f : A → M B} → Safe m → ((a : A) → Safe (f a)) → Safe (m >>= f)
Safe-bind {m = m} {f = f} k h = record {
  keeps = Keeps-bind Error StorageOk m f k.keeps (λ a. (h a).keeps);
}

pub Safe-then : {B : Type 0} {m : M (Unit {0})} {f : M B} → Safe m → Safe f → Safe (m >> f)
Safe-then {m = m} {f = f} k h = Safe-bind {m = m} {f = λ u. f} k (λ u. h)

modify-Safe :
    (f : Memory → Memory) → ((m : Memory) → StorageOk m → StorageOk (f m)) → Safe (modify f)
modify-Safe f h = record { keeps = h }

pub Safe-return : {A : Type 0} (a : A) → Safe (return a)
Safe-return a = record { keeps = λ m k. k }

pub Safe-throw : {A : Type 0} (e : Error) → Safe {A = A} (throw e)
Safe-throw e = record { keeps = λ m k. k }

pub Safe-crash : {A : Type 0} → Safe {A = A} crash
Safe-crash = record { keeps = λ m k. k }

pub Safe-read :
    {B : Type 0} {f : Memory → M B} → ((m : Memory) → Safe (f m)) → Safe (get_state >>= f)
Safe-read {f = f} h = record { keeps = Keeps-read Error StorageOk f (λ m k. (h m).keeps m k) }

pub Safe-fail_if : (b : Bool) (e : Error) → Safe (fail_if b e)
Safe-fail_if b e = record { keeps = Keeps-fail_if Error StorageOk b e }

pub Safe-crash_if : (b : Bool) → Safe (crash_if b)
Safe-crash_if b = record { keeps = Keeps-crash_if Error StorageOk b }

held_by-metrics :
    (pid : ℕ) (f : Metrics → Metrics) (ps : List ProcessData)
    → held_by (update_pid pid (λ p. record p { metrics = f p.metrics }) ps) ≡ held_by ps
unfolding update_pid
held_by-metrics pid f [] = refl
held_by-metrics pid f (p ∷ ps) = ground (arith, held_by-metrics pid f ps)

pub count_metric-Safe : (pid : ℕ) (f : Metrics → Metrics) → Safe (count_metric pid f)
count_metric-Safe pid f = record {
  keeps = λ m k.
      FramesOk-system
        (held_by (update_pid pid (λ p. record p { metrics = f p.metrics }) m.system_memory)) m
        (update_pid pid (λ p. record p { metrics = f p.metrics }) m.system_memory)
        (subst (λ held. FramesOk held m) (sym (held_by-metrics pid f m.system_memory)) k);
}

bytes-StorageOk :
    (m : Memory) (xs : List ℕ) → StorageOk m → StorageOk (record m { user_memory = xs })
bytes-StorageOk m xs k = record {
  size_pos = k.size_pos;
  frames = k.frames;
  tracks = k.tracks;
  valid = k.valid;
  remaining = k.remaining;
}

pub unchanged-Safe : {A : Type 0} (o : Outcome Error A) → Safe (λ m. (o, m))
unchanged-Safe o = record { keeps = λ m k. k }

pub Safe-option :
    {A B : Type 0} {x : M B} {f : A → M B} (o : Option A)
    → Safe x
    → ((a : A) → Safe (f a))
    → Safe (elim o [ none ↦ x | some a ↦ f a ])
Safe-option none hx hf = hx
Safe-option (some a) hx hf = hf a

pub has_page-Safe : (pid base : ℕ) → Safe (has_page pid base)
unfolding has_page
has_page-Safe pid base =
    Safe-read (λ m. Safe-option (get_data_by_pid pid m) (unchanged-Safe _) (λ p. Safe-fail_if _ _))

slice-Safe : (base size : ℕ) → Safe (slice base size)
slice-Safe base size = Safe-read (λ m.
    Safe-then (Safe-crash_if (ltb (length m.user_memory) (base + size)))
      (Safe-return (take size (drop base m.user_memory))))

byte_at-Safe : (i : ℕ) → Safe (byte_at i)
byte_at-Safe i =
    Safe-read
      (λ m. Safe-option (get_elem? m.user_memory i) (unchanged-Safe _) (λ v. unchanged-Safe _))

store_byte-Safe : (i value : ℕ) → Safe (store_byte i value)
store_byte-Safe i value = Safe-read (λ m. Safe-then (Safe-crash_if (leb (length m.user_memory) i)) (
    modify-Safe (λ m. record m { user_memory = set m.user_memory i value })
      (λ m k. bytes-StorageOk m (set m.user_memory i value) k)))

read_at-Safe : (pid base : ℕ) (delta : ℤ) → Safe (read_at pid base delta)
read_at-Safe pid base (negsuc n) = unchanged-Safe _
read_at-Safe pid base (pos delta) = Safe-read (λ m.
    Safe-then (Safe-fail_if _ _)
      (Safe-then (count_metric-Safe pid _) (byte_at-Safe (base + delta))))

pub get_from_memory-Safe : (pid base : ℕ) (delta : ℤ) → Safe (get_from_memory pid base delta)
unfolding get_from_memory
get_from_memory-Safe pid base delta =
    Safe-then (has_page-Safe pid base) (read_at-Safe pid base delta)

write_at-Safe : (base : ℕ) (delta : ℤ) (value : ℕ) → Safe (write_at base delta value)
write_at-Safe base (pos delta) value = store_byte-Safe (base + delta) value
write_at-Safe base (negsuc n) value =
    if-intro (λ f. Safe f) (ltb n base) (store_byte (base - suc n) value) crash
      (store_byte-Safe (base - suc n) value) (unchanged-Safe _)

pub write_to_memory-Safe :
    (pid base : ℕ) (delta : ℤ) (value : ℕ) → Safe (write_to_memory pid base delta value)
unfolding write_to_memory
write_to_memory-Safe pid base delta value =
    Safe-then (has_page-Safe pid base)
      (Safe-then (write_at-Safe base delta value) (count_metric-Safe pid _))

reads-Safe : (pid n : ℕ) → Safe (count_reads pid n)
reads-Safe pid n = count_metric-Safe pid (λ k. record k { reads = k.reads + n })

pub get_page-Safe : (pid base : ℕ) → Safe (get_page pid base)
unfolding get_page
get_page-Safe pid base = Safe-then (has_page-Safe pid base) (
    Safe-read
      (λ m. Safe-then (reads-Safe pid m.values.page_size) (slice-Safe base m.pagination.page_size)))

write_bytes-Safe : (pid base delta : ℕ) (cs : List ℕ) → Safe (write_bytes pid base delta cs)
unfolding write_bytes
write_bytes-Safe pid base delta [] = unchanged-Safe _
write_bytes-Safe pid base delta (c ∷ cs) =
    Safe-then (write_to_memory-Safe pid base (pos delta) c)
      (write_bytes-Safe pid base (suc delta) cs)

pub write_page-Safe : (pid base : ℕ) (value : List ℕ) → Safe (write_page pid base value)
unfolding write_page
write_page-Safe pid base value = Safe-read (λ m.
    Safe-then (Safe-fail_if _ _)
      (Safe-then (has_page-Safe pid base) (write_bytes-Safe pid base 0 value)))

requested-Safe :
    (pid : ℕ)
    → Safe
        (count_metric pid (λ k. record k { instructions_requested = suc k.instructions_requested }))
requested-Safe pid =
    count_metric-Safe pid (λ k. record k { instructions_requested = suc k.instructions_requested })

instruction_at-Safe :
    (pid : ℕ) (code : List Instruction) (pc : ℤ) → Safe (instruction_at pid code pc)
instruction_at-Safe pid code (negsuc n) = Safe-then (requested-Safe pid) Safe-crash
instruction_at-Safe pid code (pos pc) =
    Safe-option (get_elem? code pc) (unchanged-Safe _)
      (λ i. Safe-then (requested-Safe pid) (Safe-return i))

pub get_instruction-Safe : (pid : ℕ) (pc : ℤ) → Safe (get_instruction pid pc)
unfolding get_instruction
get_instruction-Safe pid pc = Safe-read (λ m.
    Safe-option (get_data_by_pid pid m) (unchanged-Safe _) (λ p. instruction_at-Safe pid p.code pc))

page_index-Safe :
    (pid entries levels i index : ℕ) (address : List ℤ)
    → Safe (page_index pid entries levels i index address)
unfolding page_index
page_index-Safe pid entries levels i index [] = unchanged-Safe _
page_index-Safe pid entries levels i index (negsuc n ∷ rest) = unchanged-Safe _
page_index-Safe pid entries levels i index (pos num ∷ rest) =
    Safe-then (Safe-fail_if _ _)
      (Safe-then (count_metric-Safe pid _) (page_index-Safe pid entries levels (suc i) _ rest))

base_at-Safe : (bases : List ℕ) (i : ℕ) → Safe (base_at bases i)
base_at-Safe bases i = Safe-option (get_elem? bases i) (unchanged-Safe _) (λ b. unchanged-Safe _)

pub logic_address_to_frame-Safe :
    (pid : ℕ) (address : List ℤ) → Safe (logic_address_to_frame pid address)
unfolding logic_address_to_frame
logic_address_to_frame-Safe pid address = Safe-read (λ m. Safe-then (Safe-fail_if _ _) (
    Safe-option (get_data_by_pid pid m) (unchanged-Safe _) (λ p.
      Safe-read
        (λ m. Safe-bind (page_index-Safe pid _ _ 0 0 address) (λ i. base_at-Safe p.page_bases i)))))
