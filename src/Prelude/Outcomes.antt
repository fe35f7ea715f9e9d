-- ===== src/Prelude/Outcomes.antt =====
-- Results of Go functions that change no state, one after another.
use mathlib.Core.Path.{◌≡◌, refl}
use dcrros.Prelude.Results.{Result, ok, err, panic}

infixl 5 ◌>>=◌
abbrev pub ◌>>=◌ : {E A B : Type 0} → Result E A → (A → Result E B) → Result E B
ok a >>= f = f a
err e >>= f = err e
panic >>= f = panic

-- An error is replaced by another.
abbrev pub error_to : {E F A : Type 0} → (E → F) → Result E A → Result F A
error_to f (ok a) = ok a
error_to f (err e) = err (f e)
error_to f panic = panic

-- A chain that succeeds has a first part that does.
pub ok-bind :
    {E A B : Type 0} (r : Result E A) (f : A → Result E B) (b : B)
    → (r >>= f) ≡ ok b
    → (a : A) × ((r ≡ ok a) × (f a ≡ ok b))
ok-bind (ok a) f b e = (a, (refl, e))
ok-bind (err x) f b e = absurd cc
ok-bind panic f b e = absurd cc

pub ok-injective : {E A : Type 0} (r : Result E A) (a b : A) → r ≡ ok a → r ≡ ok b → a ≡ b
ok-injective r a b h k = cc

pub error_to-ok :
    {E F A : Type 0} (f : E → F) (r : Result E A) (a : A) → error_to f r ≡ ok a → r ≡ ok a
error_to-ok f (ok b) a h = cc
error_to-ok f (err e) a h = absurd cc
error_to-ok f panic a h = absurd cc
