-- ===== src/MemDb/History.antt =====
-- The history of an account inside a transaction (memdb.go): what the database holds, then what
-- the transaction adds. `Balance` reads it, `StoreBalances` extends it, and the merge of `Update`
-- makes it the stored one.
use dcrros.Prelude.{
  ℕ, String, ◌≡◌, refl, sym, ap, ◌∙◌, ◌<◌, true, false, Option, none, some, List, [], ◌∷◌, ◌++◌,
  arith, if◌then◌else◌, inl, inr, Bool-cases,
}
use mathlib.Core.List.{append-nil}
use dcrros.Prelude.Lists.{All}
use dcrros.Prelude.Maps.{Map, lookup, insert, lookup-insert, lookup-nil, lookup-cons, IsUnique}
use dcrros.Prelude.Keys.{◌==◌, ==_eq, string_comparable}
use dcrros.Prelude.Words.{IsWord, rank, slt}
use dcrros.Prelude.Results.{ok}
use dcrros.MemDb.State.{BalanceHeight, Conn}
use dcrros.MemDb.Balances.{slice_at, balance_from, append_balances}
use dcrros.MemDb.Commit.{merge_balances}
use dcrros.MemDb.Lookup.{
  IsSorted, latest, search_balance-latest, stored_balance-latest, latest_above,
}

abbrev pub history : Conn → String → List BalanceHeight
history c account = slice_at c.db.balances account ++ slice_at c.tx.balances account

latest-append :
    (xs ys : List BalanceHeight) (height before : ℕ)
    → latest (xs ++ ys) height before ≡ latest ys height (latest xs height before)
latest-append [] ys height before = refl
latest-append (x ∷ xs) ys height before =
    ground (arith, latest-append xs ys height x.balance, latest-append xs ys height before)

module _ {ℓ κ} {A : Type ℓ} (P : A → Type κ) where
  pub All-left : (xs ys : List A) → All P (xs ++ ys) → All P xs
  All-left [] ys a = tt
  All-left (x ∷ xs) ys a = (a.0, All-left xs ys a.1)

  pub All-right : (xs ys : List A) → All P (xs ++ ys) → All P ys
  All-right [] ys a = a
  All-right (x ∷ xs) ys a = All-right xs ys a.1

  pub All-append : (xs ys : List A) → All P xs → All P ys → All P (xs ++ ys)
  All-append [] ys a b = b
  All-append (x ∷ xs) ys a b = (a.0, All-append xs ys a.1 b)

pub IsSorted-left : (xs ys : List BalanceHeight) → IsSorted (xs ++ ys) → IsSorted xs
IsSorted-left [] ys s = tt
IsSorted-left (x ∷ xs) ys s =
    (s.0, All-left (λ c. rank x.height < rank c.height) xs ys s.1, IsSorted-left xs ys s.2)

pub IsSorted-right : (xs ys : List BalanceHeight) → IsSorted (xs ++ ys) → IsSorted ys
IsSorted-right [] ys s = s
IsSorted-right (x ∷ xs) ys s = IsSorted-right xs ys s.2

-- With the first entry at or below the height, what came before it does not count.
latest_forgets :
    (b : BalanceHeight) (bs : List BalanceHeight) (height before before' : ℕ)
    → slt height b.height ≡ false
    → latest (b ∷ bs) height before ≡ latest (b ∷ bs) height before'
latest_forgets b bs height before before' h = ground arith

-- With the first entry above the height, only what came before it counts.
latest_from :
    (b : BalanceHeight) (bs : List BalanceHeight) (height before : ℕ)
    → IsSorted (b ∷ bs)
    → slt height b.height ≡ true
    → latest (b ∷ bs) height before ≡ before
latest_from b bs height before s h =
    ground (arith, latest_above bs (rank b.height) height before s.1)

pub balance_from-latest :
    (added stored : List BalanceHeight) (height : ℕ)
    → IsWord height
    → IsSorted (stored ++ added)
    → balance_from added stored height ≡ ok (latest (stored ++ added) height 0)
unfolding balance_from
balance_from-latest [] stored height w s =
    rw (append-nil stored) (stored_balance-latest stored height w (IsSorted-left stored [] s))
balance_from-latest (b ∷ bs) stored height w s =
    let sb = IsSorted-right stored (b ∷ bs) s in
    rw (latest-append stored (b ∷ bs) height 0) (elim (Bool-cases (slt height b.height)) [
      | inl above ↦ rw above (
          stored_balance-latest stored height w (IsSorted-left stored (b ∷ bs) s)
          ∙ ap ok (sym (latest_from b bs height (latest stored height 0) sb above)))
      | inr reached ↦ rw reached (
          search_balance-latest b bs height w sb
          ∙ ap ok (latest_forgets b bs height 0 (latest stored height 0) reached))
    ])

pub slice-insert {ℓ} :
    {A : Type ℓ} (k a : String) (v : List A) (m : Map String (List A))
    → slice_at (insert k v m) a ≡ (if k == a then v else slice_at m a)
slice-insert k a v m = ground (arith, lookup-insert k a v m)

slice-nil {ℓ} : {A : Type ℓ} (a : String) → slice_at {A = A} [] a ≡ []
slice-nil {A} a = ground (arith, lookup-nil {K = String} {V = List A} a)

slice-cons {ℓ} :
    {A : Type ℓ} (a k : String) (v : List A) (m : Map String (List A))
    → slice_at ((k, v) ∷ m) a ≡ (if k == a then v else slice_at m a)
slice-cons a k v m = ground (arith, lookup-cons a k v m)

slice-none {ℓ} :
    {A : Type ℓ} (a : String) (m : Map String (List A)) → lookup a m ≡ none → slice_at m a ≡ []
slice-none a m h = ground arith

abbrev pub entry : ℕ → Option ℕ → List BalanceHeight
entry height none = []
entry height (some amount) = record { height = height; balance = amount } ∷ []

-- One entry is appended for each account that the block changed.
pub slice-append_balances :
    (height : ℕ) (bals : Map String ℕ) (m : Map String (List BalanceHeight)) (a : String)
    → IsUnique bals
    → slice_at (append_balances height bals m) a ≡ slice_at m a ++ entry height (lookup a bals)
unfolding append_balances
slice-append_balances height [] m a u = rw (lookup-nil a) (sym (append-nil (slice_at m a)))
slice-append_balances height ((k, amount) ∷ bals) m a u =
    let m' = append_balances height bals m in
    rw
      (
        slice-insert k a (slice_at m' k ++ record { height = height; balance = amount } ∷ []) m',
        lookup-cons a k amount bals,
      )
      (elim (Bool-cases (k == a)) [
        | inl same ↦
            rw (same, ← ==_eq k a same)
              (rw (slice-append_balances height bals m k u.1, u.0) (rw (append-nil (slice_at m k))))
        | inr other ↦ rw other (slice-append_balances height bals m a u.1)
      ])

pub slice-merge_balances :
    (stored added : Map String (List BalanceHeight)) (a : String)
    → IsUnique added
    → slice_at (merge_balances stored added) a ≡ slice_at stored a ++ slice_at added a
unfolding merge_balances
slice-merge_balances stored [] a u = rw (slice-nil a) (sym (append-nil (slice_at stored a)))
slice-merge_balances stored ((k, bs) ∷ added) a u =
    let m' = merge_balances stored added in
    rw (slice-insert k a (slice_at m' k ++ bs) m', slice-cons a k bs added)
      (elim (Bool-cases (k == a)) [
        | inl same ↦
            rw (same, ← ==_eq k a same)
              (ap (λ (m : List BalanceHeight). m ++ bs)
                (slice-merge_balances stored added k u.1
                  ∙ rw (slice-none k added u.0) (append-nil (slice_at stored k))))
        | inr other ↦ rw other (slice-merge_balances stored added a u.1)
      ])
