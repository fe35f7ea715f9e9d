-- ===== src/Sync/Mem/Tip.antt =====
-- backend/internal/memdb/memdb.go: `RollbackTip` of the tip, as backend/sync.go calls it.
use dcrros.Prelude.{
  ℕ, ◌≤◌, ◌≡◌, refl, sym, ◌∙◌, suc, true, false, Bool-cases, Option-cases, inl, inr, none, some,
  arith, if◌then◌else◌,
}
use mathlib.Core.Path.{subst}
use dcrros.Prelude.Maps.{lookup, erase, lookup-erase}
use dcrros.Prelude.Keys.{nat_comparable, string_comparable}
use dcrros.Prelude.Words.{IsWord, sub64, slt}
use dcrros.Prelude.Results.{Result, ok, err, panic}
use dcrros.Prelude.Posts.{Post}
use dcrros.BackendDb.{Error, plain}
use dcrros.MemDb.State.{ProcessedBlock, Conn}
use dcrros.MemDb.Balances.{tip_of}
use dcrros.MemDb.Rollback.{rollback_tip, rollback_tip_of, without_tip}
use dcrros.Sync.Mem.{Stored}

-- Where the tip is above height 0, the call is checked against it.
pub rollback_tip_of-tip_of :
    (c : Conn)
    → (c.tx.updated_block ≡ false → c.tx.block_height ≡ 0)
    → slt 0 (tip_of c).1 ≡ true
    → rollback_tip_of c ≡ tip_of c
unfolding rollback_tip_of tip_of
rollback_tip_of-tip_of c fresh pos = elim (Bool-cases c.tx.updated_block) [
  | inl u ↦ (let p = rw u at pos in rw u (ground arith))
  | inr u ↦ rw (u, fresh u) refl
]

module _ (t : ℕ × ℕ) (c : Conn) (at_tip : rollback_tip_of c ≡ t) where
  rollback_tip-unwritable :
      c.tx.writable ≡ false → rollback_tip t.0 t.1 c ≡ (err (plain "unwritable tx"), c)
  unfolding rollback_tip
  rollback_tip-unwritable w = ground arith

  pub rollback_tip-lost :
      lookup t.1 c.db.processed_blocks ≡ none
      → rollback_tip t.0 t.1 c
        ≡ (if c.tx.writable then (ok tt, c) else (err (plain "unwritable tx"), c))
  unfolding rollback_tip
  rollback_tip-lost p = ground arith

  rollback_tip-panics :
      (old : ProcessedBlock)
      → c.tx.writable ≡ true
      → lookup t.1 c.db.processed_blocks ≡ some old
      → lookup (sub64 t.1 1) (erase t.1 c.db.processed_blocks) ≡ none
      → rollback_tip t.0 t.1 c ≡ (panic, record c { db = without_tip t.1 old c.db })
  unfolding rollback_tip rollback_tip_of
  rollback_tip-panics old w p q = ground arith

  abbrev moved : ProcessedBlock → ProcessedBlock → Conn
  moved old prev = record {
    db = without_tip t.1 old c.db;
    tx = record c.tx { block_hash = prev.hash; block_height = sub64 t.1 1; updated_block = true };
  }

  rollback_tip-moves :
      (old prev : ProcessedBlock)
      → c.tx.writable ≡ true
      → lookup t.1 c.db.processed_blocks ≡ some old
      → lookup (sub64 t.1 1) (erase t.1 c.db.processed_blocks) ≡ some prev
      → rollback_tip t.0 t.1 c ≡ (ok tt, moved old prev)
  unfolding rollback_tip rollback_tip_of
  rollback_tip-moves old prev w p q = ground arith

pub Post-of :
    {A : Type 0} (Q : A → Conn → Type 0) (r r' : Result Error A × Conn)
    → r ≡ r'
    → Post Q r'
    → Post Q r
Post-of Q r r' e = subst (Post Q) (sym e)

sub64-one : (x : ℕ) → IsWord x → slt 0 x ≡ true → suc (sub64 x 1) ≡ x
sub64-one x w pos = ground arith

moved-Stored :
    (t : ℕ × ℕ) (c : Conn) (at_tip : rollback_tip_of c ≡ t) (old prev : ProcessedBlock)
    → Stored c
    → tip_of c ≡ t
    → slt 0 t.1 ≡ true
    → Stored (moved t c at_tip old prev)
unfolding tip_of without_tip
moved-Stored t c at_tip old prev s e pos = record {
  fresh = λ u. absurd cc;
  full = (
    omega arith,
    λ n low high.
        let word : IsWord t.1 = subst (λ (u : ℕ × ℕ). IsWord u.1) e s.full.0 in
        let one = sub64-one t.1 word pos in
        let (b, found) = s.full.1 n low (subst (λ (u : ℕ × ℕ). n ≤ u.1) (sym e) (omega arith)) in
        (b, lookup-erase t.1 n c.db.processed_blocks ∙ ground arith),
  );
  none_stored = s.none_stored;
}

pub rolls :
    (t : ℕ × ℕ) (c : Conn)
    → Stored c
    → tip_of c ≡ t
    → slt 0 t.1 ≡ true
    → Post (λ _ c'. Stored c' × ((tip_of c').1 ≡ sub64 t.1 1)) (rollback_tip t.0 t.1 c)
rolls t c s e pos =
    let Q : Unit {0} → Conn → Type 0 = λ _ c'. Stored c' × ((tip_of c').1 ≡ sub64 t.1 1) in
    let at_tip : rollback_tip_of c ≡ t =
      rollback_tip_of-tip_of c s.fresh (subst (λ (u : ℕ × ℕ). slt 0 u.1 ≡ true) (sym e) pos) ∙ e in
    let (old, found) =
      s.full.1 t.1 (ground arith) (subst (λ (u : ℕ × ℕ). t.1 ≤ u.1) (sym e) (omega arith)) in
    elim (Bool-cases c.tx.writable) [
      | inr w ↦ Post-of Q _ _ (rollback_tip-unwritable t c at_tip w) tt
      | inl w ↦ elim (Option-cases (lookup (sub64 t.1 1) (erase t.1 c.db.processed_blocks))) [
        | inl n ↦ Post-of Q _ _ (rollback_tip-panics t c at_tip old w found n) tt
        | inr p ↦
            Post-of Q _ _ (rollback_tip-moves t c at_tip old p.0 w found p.1)
              (moved-Stored t c at_tip old p.0 s e pos, unfold tip_of in refl)
      ]
    ]
