-- ===== src/Types/Block/Invariant.antt =====
-- types/block.go: invariants of the state that a run over a block goes through.
use dcrros.Prelude.{◌≡◌, refl, sym, ap, Option, List}
use mathlib.Core.Path.{subst}
use dcrros.Prelude.Maps.{Map}
use dcrros.Prelude.Results.{Action}
use dcrros.BackendDb.{Error, OutPoint}
use dcrros.Wire.{MsgBlock, Dcrd}
use dcrros.Types.Block.{PrevOutput, Op, iterate_block_ops}
use dcrros.Types.Block.Mapped.{along, along-iterate_block_ops}

-- A callback and a source of previous outputs that keep a predicate, whatever they return.
module _ {S : Type 0} (dcrd : Dcrd) (apply_op : Op → Action Error S (Unit {0}))
    (fetch : List OutPoint → Action Error S (Map OutPoint PrevOutput)) (Inv : S → Type 0)
    (keeps : (op : Op) (s : S) → Inv s → Inv (apply_op op s).1)
    (fetch_keeps : (os : List OutPoint) (s : S) → Inv s → Inv (fetch os s).1) where
  -- States with the predicate, and the calls on them.
  abbrev pub Kept : Type 0
  Kept = (s : S) × Inv s

  abbrev pub apply_kept : Op → Action Error Kept (Unit {0})
  apply_kept op t = ((apply_op op t.0).0, ((apply_op op t.0).1, keeps op t.0 t.1))

  abbrev pub fetch_kept : List OutPoint → Action Error Kept (Map OutPoint PrevOutput)
  fetch_kept os t = ((fetch os t.0).0, ((fetch os t.0).1, fetch_keeps os t.0 t.1))

  abbrev pub state_of : Kept → S
  state_of t = t.0

  pub iterate_block_ops-kept :
      (b : MsgBlock) (prev : Option MsgBlock) (t : Kept)
      → iterate_block_ops dcrd apply_op fetch b prev t.0
        ≡ along state_of (iterate_block_ops dcrd apply_kept fetch_kept b prev t)
  iterate_block_ops-kept b prev t =
      along-iterate_block_ops state_of dcrd apply_kept apply_op (λ op t'. refl) fetch_kept fetch
        (λ os t'. refl) b prev t

  -- What every call of the callback and of the source of previous outputs keeps, whether it
  -- returns, fails or panics, the run over a block keeps.
  pub iterate_block_ops_keeps :
      (b : MsgBlock) (prev : Option MsgBlock) (s : S)
      → Inv s
      → Inv (iterate_block_ops dcrd apply_op fetch b prev s).1
  iterate_block_ops_keeps b prev s i =
      subst Inv (sym (ap (λ r. r.1) (iterate_block_ops-kept b prev (s, i))))
        (iterate_block_ops dcrd apply_kept fetch_kept b prev (s, i)).1.1
