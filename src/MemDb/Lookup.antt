-- ===== src/MemDb/Lookup.antt =====
-- What the binary search of `Balance` (memdb.go) finds, against a scan of the whole history.
use dcrros.Prelude.{
  ℕ, zero, suc, ◌≤◌, ◌<◌, ◌≡◌, refl, sym, ap, ◌∙◌, true, false, List, [], ◌∷◌, arith, nat_eq,
  if◌then◌else◌, inl, inr, Bool-cases,
}
use dcrros.Prelude.Lists.{length, All}
use dcrros.Prelude.Words.{IsWord, rank, sle}
use dcrros.Prelude.Results.{ok}
use dcrros.MemDb.Search.{search, search_finds}
use dcrros.MemDb.State.{BalanceHeight}
use dcrros.MemDb.Balances.{at_least, pick_balance, search_balance, stored_balance}

-- The heights are int64 values and grow, as `StoreBalances` appends them.
abbrev pub IsSorted : List BalanceHeight → Type 0
IsSorted [] = Unit
IsSorted (b ∷ bs) = IsWord b.height × All (λ c. rank b.height < rank c.height) bs × IsSorted bs

-- The balance of the last entry that is not above the height, or `before` if there is none.
abbrev pub latest : List BalanceHeight → ℕ → ℕ → ℕ
latest [] height before = before
latest (b ∷ bs) height before =
    let rest = latest bs height b.balance in
    let same = latest bs height before in if sle b.height height then rest else same

-- The first index whose height is not below the given one.
first_at_least : List BalanceHeight → ℕ → ℕ
first_at_least [] height = 0
first_at_least (b ∷ bs) height = if sle height b.height then 0 else suc (first_at_least bs height)

first_at_least-le : (bs : List BalanceHeight) (height : ℕ) → first_at_least bs height ≤ length bs
unfolding first_at_least
first_at_least-le [] height = omega arith
first_at_least-le (b ∷ bs) height = ground (arith, first_at_least-le bs height)

at_least_below :
    (bs : List BalanceHeight) (height i : ℕ)
    → i < first_at_least bs height
    → at_least bs height i ≡ false
unfolding first_at_least
at_least_below [] height i lt = refl
at_least_below (b ∷ bs) height zero lt = ground arith
at_least_below (b ∷ bs) height (suc i) lt = at_least_below bs height i (ground arith)

at_least-All :
    (bs : List BalanceHeight) (k height i : ℕ)
    → All (λ c. k < rank c.height) bs
    → rank height ≤ k
    → i < length bs
    → at_least bs height i ≡ true
at_least-All [] k height i a h lt = absurd (omega arith)
at_least-All (b ∷ bs) k height zero a h lt = ground arith
at_least-All (b ∷ bs) k height (suc i) a h lt = at_least-All bs k height i a.1 h (omega arith)

at_least_above :
    (bs : List BalanceHeight) (height i : ℕ)
    → IsSorted bs
    → first_at_least bs height ≤ i
    → i < length bs
    → at_least bs height i ≡ true
unfolding first_at_least
at_least_above [] height i s le lt = absurd (omega arith)
at_least_above (b ∷ bs) height zero s le lt = ground arith
at_least_above (b ∷ bs) height (suc i) s le lt = elim (Bool-cases (sle height b.height)) [
  | inl here ↦ at_least-All bs (rank b.height) height i s.1 (ground arith) (omega arith)
  | inr later ↦ at_least_above bs height i s.2 (ground arith) (omega arith)
]

search_first :
    (bs : List BalanceHeight) (height : ℕ)
    → IsSorted bs
    → search (length bs) (at_least bs height) ≡ first_at_least bs height
search_first bs height s =
    search_finds (at_least bs height) (length bs) (first_at_least bs height)
      (at_least_below bs height) (λ i. at_least_above bs height i s) (first_at_least-le bs height)

-- Entries above the height leave the balance as it was.
pub latest_above :
    (bs : List BalanceHeight) (k height before : ℕ)
    → All (λ c. k < rank c.height) bs
    → rank height ≤ k
    → latest bs height before ≡ before
latest_above [] k height before a h = refl
latest_above (b ∷ bs) k height before a h = ground (arith, latest_above bs k height before a.1 h)

-- `pick_balance` at a list whose first entry was passed, with the balance of that entry.
rank_inj : (a b : ℕ) → IsWord a → IsWord b → rank a ≡ rank b → a ≡ b
rank_inj a b ha hb e = omega arith

pick-suc :
    (b c : BalanceHeight) (bs : List BalanceHeight) (height p : ℕ)
    → pick_balance (b ∷ c ∷ bs) height (suc (suc p)) ≡ pick_balance (c ∷ bs) height (suc p)
unfolding pick_balance
pick-suc b c bs height p = ground arith

pick-first_at_least :
    (b c : BalanceHeight) (bs : List BalanceHeight) (height : ℕ)
    → sle height b.height ≡ false
    → sle height c.height ≡ false
    → pick_balance (b ∷ c ∷ bs) height (first_at_least (b ∷ c ∷ bs) height)
      ≡ pick_balance (c ∷ bs) height (first_at_least (c ∷ bs) height)
unfolding first_at_least
pick-first_at_least b c bs height low later =
    rw (low, later) (pick-suc b c bs height (first_at_least bs height))

latest-below :
    (b : BalanceHeight) (bs : List BalanceHeight) (height before : ℕ)
    → sle height b.height ≡ false
    → latest (b ∷ bs) height before ≡ latest bs height b.balance
latest-below b bs height before low = ground arith

latest-from :
    (b : BalanceHeight) (bs : List BalanceHeight) (height before : ℕ)
    → IsWord height
    → IsSorted (b ∷ bs)
    → sle height b.height ≡ true
    → latest (b ∷ bs) height before ≡ (if nat_eq b.height height then b.balance else before)
latest-from b bs height before w s here = ground (
  arith,
  latest_above bs (rank b.height) height b.balance s.1,
  latest_above bs (rank b.height) height before s.1,
  rank_inj b.height height,
)

pick-zero :
    (b : BalanceHeight) (bs : List BalanceHeight) (height : ℕ)
    → pick_balance (b ∷ bs) height 0 ≡ ok (if nat_eq b.height height then b.balance else 0)
unfolding pick_balance
pick-zero b bs height = ground arith

pick-one :
    (b c : BalanceHeight) (bs : List BalanceHeight) (height : ℕ)
    → pick_balance (b ∷ c ∷ bs) height 1
      ≡ ok (if nat_eq c.height height then c.balance else b.balance)
unfolding pick_balance
pick-one b c bs height = ground arith

pick-latest :
    (b : BalanceHeight) (bs : List BalanceHeight) (height before : ℕ)
    → IsWord height
    → IsSorted (b ∷ bs)
    → sle height b.height ≡ false
    → pick_balance (b ∷ bs) height (first_at_least (b ∷ bs) height)
      ≡ ok (latest (b ∷ bs) height before)
unfolding first_at_least
pick-latest b [] height before w s low =
    rw (latest-below b [] height before low) (unfold pick_balance in ground arith)
pick-latest b (c ∷ bs) height before w s low = elim (Bool-cases (sle height c.height)) [
  | inl here ↦
      rw (latest-below b (c ∷ bs) height before low) (
        rw (latest-from c bs height b.balance w s.2 here) (rw (low, here) (pick-one b c bs height)))
  | inr later ↦
      pick-first_at_least b c bs height low later
      ∙ pick-latest c bs height b.balance w s.2 later
      ∙ ap ok (sym (latest-below b (c ∷ bs) height before low))
]

-- On a sorted history the search finds the latest balance that is not above the height.
pub search_balance-latest :
    (b : BalanceHeight) (bs : List BalanceHeight) (height : ℕ)
    → IsWord height
    → IsSorted (b ∷ bs)
    → search_balance (b ∷ bs) height ≡ ok (latest (b ∷ bs) height 0)
unfolding search_balance first_at_least
search_balance-latest b bs height w s = elim (Bool-cases (sle height b.height)) [
  | inl here ↦
      rw (search_first (b ∷ bs) height s, here)
        (pick-zero b bs height ∙ ap ok (sym (latest-from b bs height 0 w s here)))
  | inr low ↦ rw (search_first (b ∷ bs) height s) (pick-latest b bs height 0 w s low)
]

pub stored_balance-latest :
    (bs : List BalanceHeight) (height : ℕ)
    → IsWord height
    → IsSorted bs
    → stored_balance bs height ≡ ok (latest bs height 0)
unfolding stored_balance
stored_balance-latest [] height w s = refl
stored_balance-latest (b ∷ bs) height w s = search_balance-latest b bs height w s
