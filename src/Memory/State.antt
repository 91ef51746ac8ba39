-- ===== src/Memory/State.antt =====
-- memoria/storage/storage.go: the package's variables as one state, and the lookup by PID.
-- Each handler runs as one step; the mutexes of the source and the delays are left out.
use tp_ssoo_1c.Prelude.{ℕ, Bool, List, [], ◌∷◌, Option, none, some, ◌==◌, if◌then◌else◌}
use tp_ssoo_1c.Prelude.Int.{ℤ}
use tp_ssoo_1c.Prelude.Exec.{Exec, modify}
use tp_ssoo_1c.Utils.Text.{Text}
use tp_ssoo_1c.Utils.Codeutils.{Instruction}

pub record Metrics : Type 0 where
  pub page_table_accesses : ℕ
  pub instructions_requested : ℕ
  pub suspensions : ℕ
  pub unsuspensions : ℕ
  pub reads : ℕ
  pub writes : ℕ

pub record ProcessData : Type 0 where
  pub pid : ℕ
  pub code : List Instruction
  pub page_bases : List ℕ
  pub metrics : Metrics

pub record PaginationConfig : Type 0 where
  pub page_size : ℕ
  pub entries_per_page : ℕ
  pub levels : ℕ

-- What the storage reads of `config.Values`.
pub record Values : Type 0 where
  pub memory_size : ℕ
  pub page_size : ℕ
  pub entries_per_page : ℕ
  pub number_of_levels : ℕ

-- `swap_file` is the text of the swap file, `none` where there is no such file.
pub record Memory : Type 0 where
  pub values : Values
  pub pagination : PaginationConfig
  pub system_memory : List ProcessData
  pub memory_size : ℕ
  pub remaining_memory : ℤ
  pub user_memory : List ℕ
  pub n_pages : ℕ
  pub page_bases : List ℕ
  pub reservation_bits : List Bool
  pub swap_file : Option Text

-- One constructor for each error message.
pub data Error : Type 0 where
  process_does_not_exist out_of_scope_program_counter : Error
  not_enough_user_memory more_arguments_than_possible opcode_not_recognized : Error
  could_not_find_pid_to_delete could_not_find_process : Error
  page_not_assigned out_of_bounds_page_memory_access body_does_not_match_page_size : Error
  address_not_matching_pagination out_of_bounds_page_table_access : Error
  out_of_bounds_process_memory_access page_base_not_valid : Error
  not_enough_memory something_wrong_on_allocation : Error
  not_in_swapfile io_eof no_swapfile not_a_number : Error

abbrev pub M : Type 0 → Type 0
M A = Exec Memory Error A

abbrev pub no_metrics : Metrics
no_metrics = record {
  page_table_accesses = 0;
  instructions_requested = 0;
  suspensions = 0;
  unsuspensions = 0;
  reads = 0;
  writes = 0;
}

unfoldable pub find_pid : ℕ → List ProcessData → Option ProcessData
find_pid pid [] = none
find_pid pid (p ∷ ps) = if p.pid == pid then some p else find_pid pid ps

-- `GetDataByPID`; the pointer that it returns is used through `update_pid`.
abbrev pub get_data_by_pid : ℕ → Memory → Option ProcessData
get_data_by_pid pid m = find_pid pid m.system_memory

-- A write through the pointer of `GetDataByPID`.
unfoldable pub update_pid : ℕ → (ProcessData → ProcessData) → List ProcessData → List ProcessData
update_pid pid f [] = []
update_pid pid f (p ∷ ps) = if p.pid == pid then f p ∷ ps else p ∷ update_pid pid f ps

abbrev pub update_process : ℕ → (ProcessData → ProcessData) → M (Unit {0})
update_process pid f = modify (λ m. record m { system_memory = update_pid pid f m.system_memory })

abbrev pub count_metric : ℕ → (Metrics → Metrics) → M (Unit {0})
count_metric pid f = update_process pid (λ p. record p { metrics = f p.metrics })
