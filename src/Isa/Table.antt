-- ===== src/Isa/Table.antt =====
-- What holds of every entry of the opcode table holds of what is read from it.
use aru_xi.Base.{ℕ, Bool, true, false, not, ◌&&◌, ◌≡◌, refl, arith, List, [], ◌∷◌}
use aru_xi.Isa.{Opcode, is_op, op_error, op_eret, op_mvcstr, imap_entries, find_entry, imap}

abbrev entries_all : (Opcode → Bool) → List (ℕ × Opcode) → Bool
entries_all p [] = p op_error
entries_all p ((b, o) ∷ rest) = p o && entries_all p rest

find_entry_all :
    (p : Opcode → Bool) (entries : List (ℕ × Opcode)) (byte : ℕ)
    → entries_all p entries ≡ true
    → p (find_entry entries byte) ≡ true
unfolding find_entry
find_entry_all p [] byte h = h
find_entry_all p ((b, o) ∷ rest) byte h = ground (arith, find_entry_all p rest byte)

-- The table holds none of the system instructions: they are told apart by their sub-opcode.
plain : Opcode → Bool
plain o = not (is_op o op_eret) && not (is_op o op_mvcstr)

imap-plain : (byte : ℕ) → plain (imap byte) ≡ true
unfolding imap
imap-plain byte = find_entry_all plain imap_entries byte (unfold plain in refl)

pub imap-Unprivileged :
    (byte : ℕ) → (is_op (imap byte) op_eret ≡ false) × (is_op (imap byte) op_mvcstr ≡ false)
unfolding plain
imap-Unprivileged byte = let p = imap-plain byte in ground arith
