-- ===== src/Lib.antt =====
-- An operating-system simulator of four programs: the kernel (kernel/) schedules processes, the
-- CPUs (cpu/) execute their instructions, the memory server (memoria/) holds code, pages and the
-- swap file, and IO devices (io/) wait. They talk over HTTP; what one program is told by another
-- is a parameter of the model.
--
-- - Prelude: shared names, Boolean tests, lists, integers, and `Exec`, the monad of code that
--   mutates a state and returns, fails or panics.
-- - Utils: utils/codeutils/codeutils.go and the text functions that the programs use, on lists of
--   character codes.
-- - Memory: memoria/storage/storage.go and memoria/memoria.go. `Memory` is the state of the
--   package's variables. Frames is InitializeUserMemory, allocateMemory and deallocateMemory;
--   Process is CreateProcess, GetInstruction and DeleteProcess; Pages is the access to bytes and
--   pages; Address is LogicAddressToFrame; Swap is SuspendProcess and UnSuspendProcess, with the
--   swap file as a text, and Swap/Blocks that text as a list of blocks and Swap/Unsuspension what
--   UnSuspendProcess leaves; Dump is Memory_Dump; Requests is GenericRequest.HandlerFunc and
--   Server the handlers; Ownership is the invariant that the frames of the processes are those
--   that are reserved, for a memory in which no process is suspended.
-- - Cpu: cpu/. Address is FromIntToLogicalAddres, Tlb is findFrame and AddEntryTLB, Cache is the
--   page cache with both replacement algorithms; Clock is what the two algorithms replace;
--   Machine is the state of a CPU, its requests to memory, Traducir, AddEntryCache and
--   EndProcess; Slices is what reads and writes share; Reads is ReadMemory and ReadCache, Writes
--   is WriteMemory and WriteCache; Cycle is an iteration of ciclo in cpu/cpu.go with every
--   instruction. Reads/Crossing is reads across the end of a page. Contract is what a CPU relies
--   on of the memory server, and Direct the reads and writes without a cache under that contract.
-- - Translation: where a CPU and the memory server meet. The CPU's addresses are looked up by the
--   server (Translation, Texts), Server is the requests of a CPU served by the handlers, and
--   Pages and Faithful show that the server fills the CPU's contract.
-- - Kernel: kernel/ and utils/pcb/pcb.go. Pcb is SetState; State is the kernel's global state,
--   where a queue holds PIDs and the processes stand in one store, as the source's queues hold
--   pointers; Queues is kernel/queues/queues.go, where `sort.Slice` is a parameter with its
--   documented behaviour; Shared is kernel/shared/; Api is kernel/api/kernel_api.go; Scheduler is
--   the rounds of the three schedulers; Io is the IO handlers of kernel/kernel.go; Server is the
--   endpoints with the checks of their parameters; Start is the initial values and the command
--   line; Placement is the invariant that every process stands once in the queue of its state,
--   Tracking that the processes of the CPUs and of `MTSQueue` are known; Run is the step relation
--   of the kernel with the kernels that it reaches.
-- - Io: io/io.go, a device whose kernel is a parameter; Io/Kernel is its requests served by the
--   kernel's endpoints. A device and its kernel act at one time: `now` is the same for the
--   request and the report of an IO.
--
-- An address has at least one level: `sum` of the source panics on an empty one. A CPU is written
-- through its identifier and not through a pointer, which differs where an identifier was
-- registered twice, and the end of an IO takes the first entry of its process and device, of
-- which the source assumes that there is one. Operations are atomic: each handler, goroutine body
-- or scheduler round runs as one step, so the interleavings within one are not modelled. The time
-- is an argument. Integers that the source keeps in `int` are natural numbers where they cannot
-- be negative and integers elsewhere, both without a bound. The loop of AddEntryCacheClock is on
-- fuel, one more than the number of entries: each of its rounds but the last clears the use bit
-- of another entry. The rounds in which a value is read or written page by page have as fuel the
-- bytes that are left. Every other loop is structural. A CPU's memory server, its kernel and its
-- clock are parameters, records of functions on a state that they may change; the texts of JSON
-- are kept as the values that they encode.
--
-- A report of a CPU with an empty reason or a negative program counter takes a process out of
-- EXEC for good, so the step relation has none.
--
-- Not modelled: logging, configuration files, HTTP encoding, and the start of each program with
-- its goroutines, servers and signals.
pub mod Prelude
pub mod Utils
pub mod Memory
pub mod Cpu
pub mod Translation
pub mod Kernel
pub mod Io
