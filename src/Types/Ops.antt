-- ===== src/Types/Ops.antt =====
-- types/ops.go: the kinds of operations and their status. `unset` is Go's empty string.
use dcrros.Prelude.{String, Bool, true, false, Option, none, some, List, [], ◌∷◌}

pub data OpType : Type 0 where
  unset debit credit : OpType

pub data OpStatus : Type 0 where
  unset success reversed : OpStatus

unfoldable pub r_type : OpType → String
r_type OpType.unset = ""
r_type OpType.debit = "debit"
r_type OpType.credit = "credit"

-- `Status()`: the empty status is nil.
unfoldable pub status : OpStatus → Option String
status OpStatus.unset = none
status OpStatus.success = some "success"
status OpStatus.reversed = some "reversed"

unfoldable pub all_op_types : List String
unfolding r_type
all_op_types = r_type OpType.debit ∷ r_type OpType.credit ∷ []

abbrev pub is_success : OpStatus → Bool
is_success OpStatus.success = true
is_success _ = false

abbrev pub is_reversed : OpStatus → Bool
is_reversed OpStatus.reversed = true
is_reversed _ = false
