-- ===== src/Program/Errors/Codes.antt =====
-- The errors of the program against those of the IDL.
use discount_program.Common.{ℕ, ◌≡◌, refl, ap, Option, List, find?, ◌==◌}
use discount_program.Idl.Defs.{IdlError}
use discount_program.Idl.Errors.{errors}
use discount_program.Program.Errors.{variants, error_codes}

-- The error that a client reads under a code.
abbrev pub find_error : ℕ → List IdlError → Option IdlError
find_error code es = find? (λ e. e.code == code) es

same_errors : error_codes 0 variants ≡ errors
unfolding error_codes
same_errors = refl

-- Under every code, the IDL of the SDK has the error, with its name and message, that the program
-- gives that code (6000 and the discriminant of the variant), or neither has one.
pub error_codes_agree :
    (code : ℕ) → find_error code (error_codes 0 variants) ≡ find_error code errors
error_codes_agree code = ap (find_error code) same_errors
