-- ===== src/Kernel/Start.antt =====
-- kernel/kernel.go and kernel/globals/globals.go: the kernel that `main` starts. The command line is
-- given without the program's name; whether a code file exists is a parameter.
use tp_ssoo_1c.Utils.Httputils.{build_url}
use tp_ssoo_1c.Kernel.Shared.{create_process}
use tp_ssoo_1c.Kernel.State.{Config, Kernel, CpuConnection, IoConnection}
use tp_ssoo_1c.Prelude.{ℕ, Bool, false, List, [], ◌∷◌, ◌++◌, Option, none, some, if◌then◌else◌, map}
use tp_ssoo_1c.Prelude.Int.{ℤ, pos}
use tp_ssoo_1c.Utils.Text.{Text, codes, atoi}

-- The initial values of the variables.
abbrev pub globals : Config → Kernel
globals config = record {
  config = config;
  processes = [];
  new_queue = [];
  ready_queue = [];
  susp_ready_queue = [];
  susp_blocked_queue = [];
  exit_queue = [];
  blocked_queue = [];
  exec_queue = [];
  available_ios = [];
  available_cpus = [];
  mts_queue = [];
  next_pid = 0;
  total_processes_created = 0;
  closed = false;
  sent = [];
}

abbrev sized : Text → Option ℤ → Option (Text × ℤ)
sized path none = none
sized path (some size) = some (path, size)

-- The code file and the size of the first process; `none` is a start that is refused.
unfoldable pub initial_process : (Text → Bool) → Text → List Text → Option (Text × ℤ)
unfolding atoi
initial_process exists folder [] = some (codes "helloworld", pos 1024)
initial_process exists folder (path ∷ []) = none
initial_process exists folder (path ∷ size ∷ args) =
    if exists (folder ++ (b'/' ∷ path)) then sized path (atoi size) else none

-- The call of `CreateProcess` in `main`, for a kernel whose server runs already.
unfoldable pub start : (Text → Bool) → Text → List Text → ℕ → Kernel → Option Kernel
unfolding initial_process
start exists folder args now k = elim (initial_process exists folder args) [
  | none ↦ none
  | some (path, size) ↦ some (create_process path size now k)
]

-- The URLs that `ClearAndExit` asks before the kernel ends: every CPU, every device and the memory.
abbrev pub kill_url : Text → ℤ → Text
kill_url ip port =
    build_url (record { ip = ip; port = port; endpoint = codes "shutdown"; queries = [] })

unfoldable pub clear_and_exit : Text → ℤ → Kernel → List Text
unfolding build_url
clear_and_exit ip_memory port_memory k =
    map (λ (c : CpuConnection). kill_url c.ip c.port) k.available_cpus
    ++ (map
          (λ (io : IoConnection).
            codes "http://" ++ (io.ip ++ (b':' ∷ (io.port ++ codes "/shutdown"))))
          k.available_ios
        ++ (kill_url ip_memory port_memory ∷ []))
