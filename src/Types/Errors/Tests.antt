-- ===== src/Types/Errors/Tests.antt =====
-- Errors on concrete values.
use dcrros.Prelude.{ℕ, ◌≡◌, refl, true, none, some, arith, ◌↔◌}
use dcrros.Prelude.Lists.{get_elem?}
use text.Mathlib.Text.{◌==◌ as str_eq}
use dcrros.Prelude.{if◌then◌else◌}
use dcrros.Types.Errors.Codes.{err_block_not_found}
use dcrros.Types.Errors.{
  RosettaError, CodeError, GoError, default_msg, as_error, full_r_error, retriable, with_msg,
  r_error, all_errors, r_error_as_error, rosetta_error_is, code_is,
}
use dcrros.Types.Errors.Convert.{r_error-r_error_as_error, all_errors_distinct}

abbrev not_found : GoError
not_found = GoError.wrapped "block 7: not found" (GoError.code err_block_not_found)

abbrev reply : RosettaError
reply = record { code = 4; message = "no such block"; retriable = true; details = none }

abbrev replied : CodeError
replied = record { code = 4; msg = "no such block"; retriable = true }

code_is-with_msg :
    code_is err_block_not_found
      (GoError.full (with_msg "x" (retriable (as_error err_block_not_found))))
    ≡ true
unfolding code_is with_msg retriable
code_is-with_msg = refl

r_error-r_error_as_error_example :
    (rosetta_error_is (some reply) (some (GoError.full replied)) ≡ true)
    × (r_error (GoError.full replied)
        ≡ some (record {
          code = 4;
          message = default_msg 4;
          retriable = true;
          details = if str_eq "no such block" "" then none else some "no such block";
        }))
unfolding r_error_as_error
r_error-r_error_as_error_example = r_error-r_error_as_error reply replied refl

all_errors_distinct_example :
    (get_elem? all_errors 4 ≡ some (full_r_error (as_error 4)))
    × ((full_r_error (as_error 4)).message ≡ (full_r_error (as_error 5)).message
        ↔ (◌≡◌ {A = ℕ} 4 5))
all_errors_distinct_example = all_errors_distinct 4 5 (omega arith) (omega arith)
