-- ===== src/Kernel/Tracking/Longest.antt =====
-- kernel/scheduler/scheduler.go: GetCPUWithLonguesBurst chooses a CPU with the longest burst.
use tp_ssoo_1c.Prelude.{
  ℕ, suc, ◌≤◌, ◌≡◌, ◌⊎◌, inl, inr, refl, sym, ap, ◌∙◌, false, List, [], ◌∷◌, none, some, arith, ltb,
  get_elem?, Bool-cases, List-cases, if◌then◌else◌,
}
use tp_ssoo_1c.Kernel.State.{CpuConnection, Kernel}
use tp_ssoo_1c.Kernel.Shared.{first_idle, cpus_not_connected}
use tp_ssoo_1c.Kernel.Scheduler.{cpu_remaining}
use tp_ssoo_1c.Kernel.Scheduler.Round.{longest_burst, get_cpu_with_longues_burst}
use tp_ssoo_1c.Kernel.Tracking.{held, Tracked}
use tp_ssoo_1c.Kernel.Tracking.Choice.{
  remaining, busy-process, held-first, held-rest, AllKnown, longest-step, get_cpu-first,
}

-- Every CPU has a process, with at most `b` left of its burst.
abbrev pub AtMost : ℕ → Kernel → ℕ → List CpuConnection → Type 0
AtMost now k b [] = Unit {0}
AtMost now k b (c ∷ cs) = ((r : ℕ) × (cpu_remaining now k c ≡ some r) × (r ≤ b)) × AtMost now k b cs

-- The CPU that the loop chooses, from `best` with `b` left and the CPUs of the list.
record Found (now : ℕ) (k : Kernel) (best : CpuConnection) (b : ℕ) (cs : List CpuConnection)
    : Type 0 where
  cpu : CpuConnection
  burst : ℕ
  chosen : longest_burst now k best cs ≡ some cpu
  left : cpu_remaining now k cpu ≡ some burst
  at_least : b ≤ burst
  others : AtMost now k burst cs
  among : (cpu ≡ best) ⊎ ((i : ℕ) × (get_elem? cs i ≡ some cpu))

Found-cons :
    (now b b' r : ℕ) (k : Kernel) (best best' c : CpuConnection) (cs : List CpuConnection)
    → longest_burst now k best (c ∷ cs) ≡ longest_burst now k best' cs
    → cpu_remaining now k c ≡ some r
    → b ≤ b'
    → r ≤ b'
    → (best' ≡ best) ⊎ (best' ≡ c)
    → Found now k best' b' cs
    → Found now k best b (c ∷ cs)
Found-cons now b b' r k best best' c cs e g l l' which f = record {
  cpu = f.cpu;
  burst = f.burst;
  chosen = e ∙ f.chosen;
  left = f.left;
  at_least = omega (arith, l, f.at_least);
  others = ((r, g, omega (arith, l', f.at_least)), f.others);
  among = elim f.among [
    | inl same ↦ elim which [ inl h ↦ inl (same ∙ h) | inr h ↦ inr (0, ap some (sym (same ∙ h))) ]
    | inr (i, h) ↦ inr (suc i, h)
  ];
}

longest_burst-Found :
    (now b : ℕ) (k : Kernel) (best : CpuConnection) (cs : List CpuConnection)
    → cpu_remaining now k best ≡ some b
    → first_idle cs ≡ none
    → AllKnown cs k
    → Found now k best b cs
unfolding longest_burst
longest_burst-Found now b k best [] e idle known = record {
  cpu = best;
  burst = b;
  chosen = refl;
  left = e;
  at_least = omega arith;
  others = tt;
  among = inl refl;
}
longest_burst-Found now b k best (c ∷ cs) e idle known =
    let (pid, has, rest) = busy-process c cs idle in
    let (r, g) = remaining now pid k c has (known pid (held-first pid c cs has)) in
    let more : AllKnown cs k = λ pid h. known pid (held-rest pid c cs h) in
    let step = longest-step now b r pid k best c cs has e g in
    elim (Bool-cases (ltb b r)) [
      | inl longer ↦
          Found-cons now b r r k best c c cs
            (step ∙ ap (λ t. longest_burst now k (if t then c else best) cs) longer) g
            (ground (arith, longer)) (omega arith) (inr refl)
            (longest_burst-Found now r k c cs g rest more)
      | inr shorter ↦
          Found-cons now b b r k best best c cs
            (step ∙ ap (λ t. longest_burst now k (if t then c else best) cs) shorter) g
            (omega arith) (ground (arith, shorter)) (inl refl)
            (longest_burst-Found now b k best cs e rest more)
    ]

-- One of the kernel's CPUs is chosen, and no CPU has more left of its burst.
pub record Longest (now : ℕ) (k : Kernel) : Type 0 where
  pub cpu : CpuConnection
  pub burst : ℕ
  pub chosen : get_cpu_with_longues_burst now k ≡ some cpu
  pub index : ℕ
  pub connected : get_elem? k.available_cpus index ≡ some cpu
  pub left : cpu_remaining now k cpu ≡ some burst
  pub others : AtMost now k burst k.available_cpus

Found-Longest :
    (now b : ℕ) (k : Kernel) (c : CpuConnection) (cs : List CpuConnection)
    → k.available_cpus ≡ c ∷ cs
    → Found now k c b (c ∷ cs)
    → Longest now k
Found-Longest now b k c cs e f = elim f.among [
  | inl same ↦ record {
    cpu = f.cpu;
    burst = f.burst;
    chosen = get_cpu-first now k c cs e ∙ f.chosen;
    index = 0;
    connected = ap (λ l. get_elem? l 0) e ∙ ap some (sym same);
    left = f.left;
    others = rw e f.others;
  }
  | inr (i, h) ↦ record {
    cpu = f.cpu;
    burst = f.burst;
    chosen = get_cpu-first now k c cs e ∙ f.chosen;
    index = i;
    connected = ap (λ l. get_elem? l i) e ∙ h;
    left = f.left;
    others = rw e f.others;
  }
]

pub get_cpu_with_longues_burst-Longest :
    (now : ℕ) (k : Kernel)
    → cpus_not_connected k ≡ false
    → first_idle k.available_cpus ≡ none
    → Tracked k
    → Longest now k
unfolding cpus_not_connected
get_cpu_with_longues_burst-Longest now k h idle t = elim (List-cases k.available_cpus) [
  | inl e ↦ absurd (ground arith)
  | inr (c, cs, e) ↦
      let none_idle : first_idle (c ∷ cs) ≡ none = ap first_idle (sym e) ∙ idle in
      let known : AllKnown (c ∷ cs) k = λ pid g. t.cpus pid (ap (held pid) e ∙ g) in
      let (pid, has, rest) = busy-process c cs none_idle in
      let (b, f) = remaining now pid k c has (known pid (held-first pid c cs has)) in
      Found-Longest now b k c cs e (longest_burst-Found now b k c (c ∷ cs) f none_idle known)
]
