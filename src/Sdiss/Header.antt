-- ===== src/Sdiss/Header.antt =====
-- Where the disassembler (src/sdiss.c) takes operands for opcodes.
use sin.Interpret.Code.{byte_at}
use sin.Outcome.{ok}
use sin.Prelude.{ℕ, suc, ◌≡◌, refl, List, [], ◌∷◌, length, Bytes}
use sin.Sdiss.{Listing, undefined_opcode, list_opcode, list_opcodes, disassemble}

-- The interpreter takes two bytes for the header, the locals and the parameters, and the opcodes from
-- offset 2; what the disassembler lists of code without parameters begins with an opcode that is not
-- there, and of code with 104 parameters it lists nothing.
pub disassemble-params :
    (locals : ℕ) (ops : Bytes) (ls : List Listing)
    → list_opcodes (suc (length ops)) (locals ∷ 0 ∷ ops) 2 ≡ ok ls
    → (disassemble (locals ∷ 0 ∷ ops) ≡ ok (undefined_opcode ∷ ls))
      × (disassemble (locals ∷ 104 ∷ ops) ≡ ok [])
unfolding disassemble list_opcodes list_opcode byte_at
disassemble-params locals ops ls e = (rw e refl, refl)
