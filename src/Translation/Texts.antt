-- ===== src/Translation/Texts.antt =====
-- The text in which the CPU sends the page of an address (cpu/memory/memoryConection.go,
-- fromLogicAddrToString) and in which the memory server reads it (memoria/storage/storage.go,
-- StringToLogicAddress), and that of the frame which is the answer.
use tp_ssoo_1c.Prelude.{ℕ, ◌<◌, ◌≡◌, refl, ap, ◌∙◌, List, [], ◌∷◌, map, some, length}
use tp_ssoo_1c.Prelude.Int.{pos}
use tp_ssoo_1c.Utils.Text.{itoa, atoi_or_zero}
use tp_ssoo_1c.Utils.Text.RoundTrip.{atoi-itoa, atoi_or_zero-itoa, split-join}
use tp_ssoo_1c.Cpu.Machine.{from_logic_addr_to_string, frame_of_text}
use tp_ssoo_1c.Memory.Address.{string_to_logic_address}

read_back : (ns : List ℕ) → map atoi_or_zero (map itoa ns) ≡ map pos ns
read_back [] = refl
read_back (n ∷ ns) = rw (atoi_or_zero-itoa n, read_back ns)

-- The memory server reads, in the text of an address of at least one level that the CPU sends,
-- the entries that the CPU wrote.
pub string_to_logic_address-from_logic_addr_to_string :
    (page : List ℕ)
    → 0 < length page
    → string_to_logic_address (from_logic_addr_to_string page) ≡ map pos page
unfolding string_to_logic_address from_logic_addr_to_string
string_to_logic_address-from_logic_addr_to_string [] h = elim h [ ]
string_to_logic_address-from_logic_addr_to_string (n ∷ ns) h =
    ap (map atoi_or_zero) (split-join b'|' n ns refl) ∙ read_back (n ∷ ns)

pub frame_of_text-itoa : (f : ℕ) → frame_of_text (itoa f) ≡ some f
frame_of_text-itoa f = rw (frame_of_text, atoi-itoa f)
