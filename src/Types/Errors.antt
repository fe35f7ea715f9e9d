-- ===== src/Types/Errors.antt =====
-- types/errors.go: errors with a code, and their conversion to and from Rosetta errors. A Go error
-- value is `GoError`; a Rosetta error pointer is an Option.
pub mod Codes
pub mod Convert
mod Tests
use dcrros.Prelude.{
  ℕ, String, Bool, true, false, Option, none, some, List, [], ◌∷◌, ◌+◌, zero, suc, nat_eq,
  if◌then◌else◌, ◌-◌,
}
use text.Mathlib.Text.{◌==◌ as str_eq}
use dcrros.Prelude.Keys.{nat_comparable}
use dcrros.Prelude.Maps.{lookup}
use dcrros.Types.Errors.Codes.{error_code_msgs, nb_error_codes, err_unknown, err_request_canceled}

-- The Error of the Rosetta library; the details hold at most the entry "error".
pub record RosettaError : Type 0 where
  pub code : ℕ
  pub message : String
  pub retriable : Bool
  pub details : Option String

-- `Error` of types/errors.go
pub record CodeError : Type 0 where
  pub code : ℕ
  pub msg : String
  pub retriable : Bool

-- The error values that the code tells apart: an ErrorCode, an Error, another type with an RError
-- method and what that gives, the two errors of package context, an error that wraps another one
-- under a text of its own, and any other error by its text.
pub data GoError : Type 0 where
  code : ℕ → GoError
  full : CodeError → GoError
  rosetta : Option RosettaError → String → GoError
  canceled deadline_exceeded : GoError
  wrapped : String → GoError → GoError
  other : String → GoError

-- errorCodeMsgs[code]: a missing key gives the empty string.
unfoldable pub default_msg : ℕ → String
unfolding error_code_msgs
default_msg c = elim (lookup c error_code_msgs) [ none ↦ "" | some msg ↦ msg ]

-- ErrorCode.Error
unfoldable pub code_text : ℕ → String
unfolding error_code_msgs
code_text c = elim (lookup c error_code_msgs) [ none ↦ "undefined error code" | some msg ↦ msg ]

-- Error.Error
unfoldable pub full_text : CodeError → String
unfolding default_msg
full_text e = if str_eq e.msg "" then default_msg e.code else e.msg

-- err.Error()
unfoldable pub error_text : GoError → String
unfolding code_text full_text
error_text (GoError.code c) = code_text c
error_text (GoError.full e) = full_text e
error_text (GoError.rosetta r t) = t
error_text GoError.canceled = "context canceled"
error_text GoError.deadline_exceeded = "context deadline exceeded"
error_text (GoError.wrapped t e) = t
error_text (GoError.other t) = t

-- The Is methods of ErrorCode and of Error, for an error of this code.
unfoldable pub code_is : ℕ → GoError → Bool
code_is c (GoError.code d) = nat_eq d c
code_is c (GoError.full e) = nat_eq e.code c
code_is c (GoError.rosetta (some r) t) = nat_eq r.code c
code_is c _ = false

abbrev pub as_error : ℕ → CodeError
as_error c = record { code = c; msg = ""; retriable = false }

unfoldable pub retriable : CodeError → CodeError
retriable e = record { code = e.code; msg = e.msg; retriable = true }

-- `Msg` and `Msgf`, the second after formatting.
unfoldable pub with_msg : String → CodeError → CodeError
with_msg m e = record { code = e.code; msg = m; retriable = e.retriable }

-- Error.RError
unfoldable pub full_r_error : CodeError → RosettaError
unfolding default_msg
full_r_error e = record {
  code = e.code;
  message = default_msg e.code;
  retriable = e.retriable;
  details = if str_eq e.msg "" then none else some e.msg;
}

-- ErrorCode.RError
abbrev pub code_r_error : ℕ → RosettaError
unfolding full_r_error
code_r_error c = full_r_error (as_error c)

-- errors.As into an Error and into an ErrorCode; an Error unwraps into its code.
unfoldable pub as_full : GoError → Option CodeError
as_full (GoError.full e) = some e
as_full (GoError.wrapped t e) = as_full e
as_full _ = none

unfoldable pub as_code : GoError → Option ℕ
as_code (GoError.code c) = some c
as_code (GoError.full e) = some e.code
as_code (GoError.wrapped t e) = as_code e
as_code _ = none

-- The end of RError, for errors that are not converted directly.
unfoldable pub unwrapped_r_error : GoError → RosettaError
unfolding as_full as_code full_r_error with_msg error_text
unwrapped_r_error err = elim (as_full err) [
  | some e ↦ full_r_error e
  | none ↦ elim (as_code err) [
    | some c ↦ full_r_error (as_error c)
    | none ↦ full_r_error (with_msg (error_text err) (as_error err_unknown))
  ]
]

-- RError of package types; another type's RError method may give nil.
unfoldable pub r_error : GoError → Option RosettaError
unfolding full_r_error unwrapped_r_error
r_error (GoError.code c) = some (full_r_error (as_error c))
r_error (GoError.full e) = some (full_r_error e)
r_error (GoError.rosetta r t) = r
r_error GoError.canceled = some (full_r_error (as_error err_request_canceled))
r_error GoError.deadline_exceeded = some (full_r_error (as_error err_request_canceled))
r_error (GoError.wrapped t e) = some (unwrapped_r_error (GoError.wrapped t e))
r_error (GoError.other t) = some (unwrapped_r_error (GoError.other t))

-- AllErrors: for i from a number on, so many rounds.
unfoldable pub errors_from : ℕ → ℕ → List RosettaError
unfolding full_r_error
errors_from i zero = []
errors_from i (suc n) = full_r_error (as_error i) ∷ errors_from (i + 1) n

unfoldable pub all_errors : List RosettaError
unfolding errors_from
all_errors = errors_from 0 nb_error_codes

-- RErrorAsError
unfoldable pub r_error_as_error : Option RosettaError → Option CodeError
r_error_as_error none = none
r_error_as_error (some r) =
    some (record { code = r.code; msg = r.message; retriable = r.retriable })

abbrev pub code_matches : RosettaError → Option ℕ → Bool
code_matches r none = false
code_matches r (some c) = nat_eq c r.code

-- RosettaErrorIs: nil errors are `none`.
unfoldable pub rosetta_error_is : Option RosettaError → Option GoError → Bool
unfolding as_code
rosetta_error_is none none = true
rosetta_error_is (some r) none = false
rosetta_error_is none (some err) = false
rosetta_error_is (some r) (some err) = code_matches r (as_code err)
