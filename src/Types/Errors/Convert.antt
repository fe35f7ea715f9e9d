-- ===== src/Types/Errors/Convert.antt =====
-- types/errors.go: the codes of converted errors.
use dcrros.Prelude.{
  ℕ, zero, suc, ◌+◌, ◌<◌, ◌≡◌, refl, sym, ap, ◌∙◌, String, Bool, true, ◌&&◌, Option, none, some, [],
  ◌∷◌, arith, nat_eq, nat_eq_refl, nat_eq→eq, ◌↔◌, if◌then◌else◌,
}
use mathlib.Core.Path.{subst}
use mathlib.Core.Option.{none-ne-some}
use text.Mathlib.Text.{◌==◌ as str_eq}
use dcrros.Prelude.Lists.{get_elem?}
use dcrros.Prelude.Keys.{nat_comparable}
use dcrros.Prelude.Maps.{Map, lookup}
use dcrros.Types.Errors.Codes.{error_code_msgs, nb_error_codes}
use dcrros.Types.Errors.{
  RosettaError, CodeError, GoError, default_msg, as_error, full_r_error, as_full, as_code, with_msg,
  error_text, unwrapped_r_error, r_error, errors_from, all_errors, rosetta_error_is, code_matches,
  r_error_as_error,
}

as_code-as_full : (err : GoError) (e : CodeError) → as_full err ≡ some e → as_code err ≡ some e.code
unfolding as_full as_code
as_code-as_full (GoError.full e') e h = cc
as_code-as_full (GoError.wrapped t err) e h = as_code-as_full err e h
as_code-as_full (GoError.code c) e h = absurd (none-ne-some e h)
as_code-as_full (GoError.rosetta r t) e h = absurd (none-ne-some e h)
as_code-as_full GoError.canceled e h = absurd (none-ne-some e h)
as_code-as_full GoError.deadline_exceeded e h = absurd (none-ne-some e h)
as_code-as_full (GoError.other t) e h = absurd (none-ne-some e h)

-- An error that unwraps into a code keeps it.
code-unwrapped_r_error :
    (err : GoError) (c : ℕ) → as_code err ≡ some c → (unwrapped_r_error err).code ≡ c
unfolding unwrapped_r_error full_r_error
code-unwrapped_r_error err c h = on (as_full err) refl
  where
    on :
        (q : Option CodeError)
        → as_full err ≡ q
        → ◌≡◌ {A = ℕ}
            (elim q as (λ x. RosettaError) [
              | some e ↦ full_r_error e
              | none ↦ elim (as_code err) as (λ x. RosettaError) [
                | some c ↦ full_r_error (as_error c)
                | none ↦ full_r_error (with_msg (error_text err) (as_error 0))
              ]
            ]).code
            c
    on (some e) q = let k : as_code err ≡ some e.code = as_code-as_full err e q in cc
    on none q = rw h refl

-- A converted error is recognised: for every error that is a code, an Error, or wraps one of them,
-- `RosettaErrorIs` holds of what `RError` gives for it and the error itself.
pub rosetta_error_is-r_error :
    (err : GoError) (c : ℕ)
    → as_code err ≡ some c
    → rosetta_error_is (r_error err) (some err) ≡ true
unfolding rosetta_error_is r_error full_r_error as_code
rosetta_error_is-r_error (GoError.code d) c h = nat_eq_refl d
rosetta_error_is-r_error (GoError.full e) c h = nat_eq_refl e.code
rosetta_error_is-r_error (GoError.wrapped t err) c h =
    subst (λ q. code_matches (unwrapped_r_error (GoError.wrapped t err)) q ≡ true) (sym h)
      (subst (λ d. nat_eq c d ≡ true) (sym (code-unwrapped_r_error (GoError.wrapped t err) c h))
        (nat_eq_refl c))
rosetta_error_is-r_error (GoError.rosetta r t) c h = absurd (none-ne-some c h)
rosetta_error_is-r_error GoError.canceled c h = absurd (none-ne-some c h)
rosetta_error_is-r_error GoError.deadline_exceeded c h = absurd (none-ne-some c h)
rosetta_error_is-r_error (GoError.other t) c h = absurd (none-ne-some c h)

-- A Rosetta error that is converted to a Go error is recognised as that, and converted back has the
-- same code and the same retriable flag, with its message, if it has one, as the details.
pub r_error-r_error_as_error :
    (r : RosettaError) (e : CodeError)
    → r_error_as_error (some r) ≡ some e
    → (rosetta_error_is (some r) (some (GoError.full e)) ≡ true)
      × (r_error (GoError.full e)
          ≡ some (record {
            code = r.code;
            message = default_msg r.code;
            retriable = r.retriable;
            details = if str_eq r.message "" then none else some r.message;
          }))
unfolding r_error_as_error rosetta_error_is as_code r_error full_r_error
r_error-r_error_as_error r e h =
    let q : record { code = r.code; msg = r.message; retriable = r.retriable } ≡ e = cc in
    subst
      (λ e.
        (rosetta_error_is (some r) (some (GoError.full e)) ≡ true)
        × (r_error (GoError.full e)
            ≡ some (record {
              code = r.code;
              message = default_msg r.code;
              retriable = r.retriable;
              details = if str_eq r.message "" then none else some r.message;
            })))
      q (nat_eq_refl r.code, refl)

-- The code that has a message, found from its text.
abbrev code_of : Map ℕ String → String → ℕ
code_of [] s = 0
code_of ((c, msg) ∷ m) s = if str_eq msg s then c else code_of m s

all_below : ℕ → (ℕ → Bool) → Bool
all_below zero p = true
all_below (suc n) p = p n && all_below n p

all_below-true : (n : ℕ) (p : ℕ → Bool) (x : ℕ) → all_below n p ≡ true → x < n → p x ≡ true
unfolding all_below
all_below-true zero p x h lt = absurd (omega arith)
all_below-true (suc n) p x h lt = ground (arith, all_below-true n p x)

code_of_table :
    all_below nb_error_codes (λ i. nat_eq (code_of error_code_msgs (default_msg i)) i) ≡ true
unfolding all_below error_code_msgs default_msg lookup
code_of_table = refl

-- Different codes have different default messages.
default_msg-injective :
    (i j : ℕ) → i < nb_error_codes → j < nb_error_codes → default_msg i ≡ default_msg j → i ≡ j
default_msg-injective i j li lj e =
    let back : (k : ℕ) → k < nb_error_codes → code_of error_code_msgs (default_msg k) ≡ k = λ k lk.
      nat_eq→eq _ k (
        all_below-true nb_error_codes (λ i. nat_eq (code_of error_code_msgs (default_msg i)) i) k
          code_of_table lk) in
    sym (back i li) ∙ ap (code_of error_code_msgs) e ∙ back j lj

get-errors_from :
    (n i k : ℕ) → i < n → get_elem? (errors_from k n) i ≡ some (full_r_error (as_error (k + i)))
unfolding errors_from
get-errors_from zero i k lt = absurd (omega arith)
get-errors_from (suc n) zero k lt = ap (λ j. some (full_r_error (as_error j))) (omega arith)
get-errors_from (suc n) (suc i) k lt =
    get-errors_from n i (k + 1) (omega arith)
    ∙ ap (λ j. some (full_r_error (as_error j))) (omega arith)

-- `AllErrors` has, at each index below the number of codes, the error with that code, and no two
-- of them have the same message.
pub all_errors_distinct :
    (i j : ℕ)
    → i < nb_error_codes
    → j < nb_error_codes
    → (get_elem? all_errors i ≡ some (full_r_error (as_error i)))
      × ((full_r_error (as_error i)).message ≡ (full_r_error (as_error j)).message ↔ (i ≡ j))
unfolding all_errors full_r_error
all_errors_distinct i j li lj = (
  get-errors_from nb_error_codes i 0 li ∙ ap (λ k. some (full_r_error (as_error k))) (omega arith),
  (default_msg-injective i j li lj, λ e. ap default_msg e),
)
