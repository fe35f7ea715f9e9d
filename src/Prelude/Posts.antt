-- ===== src/Prelude/Posts.antt =====
-- What holds of the value and the state that a call returns with, if it returns.
use dcrros.Prelude.Results.{Result, ok, err, panic, Action, continue}

abbrev pub Any : {A S : Type 0} → A → S → Type 0
Any a s = Unit

module _ {E S : Type 0} where
  abbrev pub Post {κ} : {A : Type 0} → (A → S → Type κ) → Result E A × S → Type κ
  Post P (ok a, s) = P a s
  Post P (err e, s) = Unit
  Post P (panic, s) = Unit

  pub Post-bind {κ κ'} :
      {A B : Type 0} (P : A → S → Type κ) (Q : B → S → Type κ') (r : Result E A × S)
      (f : A → Action E S B)
      → Post P r
      → ((a : A) (s : S) → P a s → Post Q (f a s))
      → Post Q (continue r.0 f r.1)
  Post-bind P Q (ok a, s) f h k = k a s h
  Post-bind P Q (err e, s) f h k = tt
  Post-bind P Q (panic, s) f h k = tt

  pub Post-map {κ κ'} :
      {A : Type 0} (P : A → S → Type κ) (Q : A → S → Type κ') (r : Result E A × S)
      → Post P r
      → ((a : A) (s : S) → P a s → Q a s)
      → Post Q r
  Post-map P Q (ok a, s) h k = k a s h
  Post-map P Q (err e, s) h k = tt
  Post-map P Q (panic, s) h k = tt

  pub Post-any {κ} :
      {A : Type 0} (P : S → Type κ) (r : Result E A × S) → P r.1 → Post (λ _ s. P s) r
  Post-any P (ok a, s) h = h
  Post-any P (err e, s) h = tt
  Post-any P (panic, s) h = tt

  pub Post-Any : {A : Type 0} (r : Result E A × S) → Post Any r
  Post-Any (ok a, s) = tt
  Post-Any (err e, s) = tt
  Post-Any (panic, s) = tt
