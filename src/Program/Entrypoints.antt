-- ===== src/Program/Entrypoints.antt =====
-- The instructions that the program serves: the functions of the `#[program]` module of
-- programs/rewards-center/src/lib.rs, by the names that Anchor's clients use.
use discount_program.Common.{String, Bool, true, List, [], ◌∷◌, ◌&&◌, any, map, same_string}
use discount_program.Idl.{IdlInstruction}
use discount_program.Program.Contexts.{served}

abbrev pub entrypoints : List String
entrypoints = map IdlInstruction.name served

-- Anchor's dispatch: an instruction of another name is refused, and with it its transaction.
unfoldable pub serves : String → Bool
serves name = any (same_string name) entrypoints

abbrev pub serves_all : List String → Bool
serves_all [] = true
serves_all (name ∷ names) = serves name && serves_all names
