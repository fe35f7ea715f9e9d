-- ===== src/MemDb/Search.antt =====
-- `sort.Search`, the binary search that `Balance` calls, with its loop on fuel.
use dcrros.Prelude.{
  ℕ, zero, suc, ◌+◌, ◌/◌, ◌≤◌, ◌<◌, ◌≡◌, Bool, true, false, arith, ltb, if◌then◌else◌, inl, inr,
  Bool-cases, ltb→lt, ltb→le,
}

search_loop : ℕ → (ℕ → Bool) → ℕ → ℕ → ℕ
search_loop zero f i j = i
search_loop (suc fuel) f i j =
    let h = (i + j) / 2 in
    let left = search_loop fuel f i h in
    let right = search_loop fuel f (h + 1) j in if ltb i j then (if f h then left else right) else i

-- Each round halves j - i, so n rounds are enough.
unfoldable pub search : ℕ → (ℕ → Bool) → ℕ
unfolding search_loop
search n f = search_loop n f 0 n

module _ (f : ℕ → Bool) (n r : ℕ) (below : (i : ℕ) → i < r → f i ≡ false)
    (above : (i : ℕ) → r ≤ i → i < n → f i ≡ true) where
  le_of_true : (h : ℕ) → f h ≡ true → r ≤ h
  le_of_true h e = elim (Bool-cases (ltb h r)) [
    | inl p ↦ let e' : f h ≡ false = below h (ltb→lt h r p) in cc
    | inr p ↦ ltb→le h r p
  ]

  lt_of_false : (h : ℕ) → h < n → f h ≡ false → h < r
  lt_of_false h lt e = elim (Bool-cases (ltb h r)) [
    | inl p ↦ ltb→lt h r p
    | inr p ↦ let e' : f h ≡ true = above h (ltb→le h r p) lt in cc
  ]

  search_loop_finds :
      (fuel i j : ℕ) → i ≤ r → r ≤ j → j ≤ n → j ≤ i + fuel → search_loop fuel f i j ≡ r
  unfolding search_loop
  search_loop_finds zero i j ir rj jn enough = omega arith
  search_loop_finds (suc fuel) i j ir rj jn enough =
      let h : ℕ = (i + j) / 2 in
      elim (Bool-cases (ltb i j)) [
        | inr done ↦ rw done (ground arith)
        | inl more ↦ rw more (elim (Bool-cases (f h)) [
          | inl high ↦
              rw high
                (search_loop_finds fuel i h ir (le_of_true h high) (ground arith) (ground arith))
          | inr low ↦ rw low (
              search_loop_finds fuel (h + 1) j (omega (arith, lt_of_false h (ground arith) low)) rj
                jn (ground arith))
        ])
      ]

  -- With `f` false below `r` and true from there on, the search returns `r`.
  pub search_finds : r ≤ n → search n f ≡ r
  unfolding search
  search_finds h = search_loop_finds n 0 n (omega arith) h (omega arith) (omega arith)
