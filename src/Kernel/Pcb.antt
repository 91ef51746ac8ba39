-- ===== src/Kernel/Pcb.antt =====
-- utils/pcb/pcb.go: the process control block and its metrics. The clock is an argument; it is
-- monotonic, so that the difference of two instants in order is not negative.
use tp_ssoo_1c.Prelude.{
  ℕ, ◌+◌, ◌-◌, Bool, true, false, List, [], ◌∷◌, ◌++◌, if◌then◌else◌, get_or, set, replicate,
}
use tp_ssoo_1c.Utils.Text.{Text, codes}

pub data State : Type 0 where
  exit new ready exec blocked susp_blocked susp_ready : State

-- The number of a state in the `iota` of the source.
abbrev pub state_index : State → ℕ
state_index exit = 0
state_index new = 1
state_index ready = 2
state_index exec = 3
state_index blocked = 4
state_index susp_blocked = 5
state_index susp_ready = 6

abbrev pub state_string : State → Text
state_string exit = codes "EXIT"
state_string new = codes "NEW"
state_string ready = codes "READY"
state_string exec = codes "EXEC"
state_string blocked = codes "BLOCKED"
state_string susp_blocked = codes "SUSP_BLOCKED"
state_string susp_ready = codes "SUSP_READY"

pub record KernelMetrics : Type 0 where
  pub sequence_list : List State
  pub instants_list : List ℕ
  pub frequency : List ℕ
  pub time_spent : List ℕ

pub record Pcb : Type 0 where
  pub pid : ℕ
  pub state : State
  pub pc : ℕ
  pub k_metrics : KernelMetrics
  pub code_file_path : Text

abbrev is_new : State → Bool
is_new new = true
is_new _ = false

-- The last instant of the list that is read before the new one is appended, if there is one.
abbrev pub last_instant : ℕ → List ℕ → ℕ
last_instant t [] = t
last_instant t (u ∷ us) = last_instant u us

abbrev add_at : List ℕ → ℕ → ℕ → List ℕ
add_at xs i v = set xs i (get_or xs i 0 + v)

-- `Time_spent[newState] += lastDuration`, if there was an instant before.
abbrev pub spend : State → List ℕ → ℕ → List ℕ → List ℕ
spend s [] now spent = spent
spend s (t ∷ ts) now spent = add_at spent (state_index s) (now - last_instant t ts)

unfoldable pub record_state : KernelMetrics → State → ℕ → KernelMetrics
record_state k s now = record {
  sequence_list = k.sequence_list ++ (s ∷ []);
  instants_list = k.instants_list ++ (now ∷ []);
  frequency =
      if is_new s then set k.frequency (state_index s) 1 else add_at k.frequency (state_index s) 1;
  time_spent = spend s k.instants_list now k.time_spent;
}

unfoldable pub set_state : State → ℕ → Pcb → Pcb
unfolding record_state
set_state s now p = record p { state = s; k_metrics = record_state p.k_metrics s now }

abbrev pub zero_metrics : KernelMetrics
zero_metrics = record {
  sequence_list = [];
  instants_list = [];
  frequency = replicate 7 0;
  time_spent = replicate 7 0;
}

-- `Create`: the zero PCB, whose state is EXIT, goes to NEW.
unfoldable pub create : ℕ → Text → ℕ → Pcb
unfolding set_state
create pid path now =
    set_state new now
      (record { pid = pid; state = exit; pc = 0; k_metrics = zero_metrics; code_file_path = path })
