-- ===== src/BadgerDb/Keys.antt =====
-- backend/internal/badgerdb/db_ops.go: the keys of the database, as bytes. An account is a Go string,
-- so a sequence of bytes too.
use dcrros.Prelude.{ℕ, Option, none, some, List, [], ◌∷◌, ◌++◌, leb, if◌then◌else◌}
use dcrros.Prelude.Lists.{length}
use dcrros.Prelude.Bytes.{high_bytes, big_number, read_bytes, last_bytes}
use dcrros.Prelude.Results.{Result, ok, panic}
use dcrros.Prelude.Outcomes.{◌>>=◌}
use dcrros.BackendDb.{Error, OutPoint}

-- "last-processed-block"
abbrev pub last_processed_block_key : List ℕ
last_processed_block_key =
    108 ∷ 97 ∷ 115 ∷ 116 ∷ 45 ∷ 112 ∷ 114 ∷ 111 ∷ 99 ∷ 101 ∷ 115 ∷ 115 ∷ 101 ∷ 100 ∷ 45 ∷ 98 ∷ 108
    ∷ 111 ∷ 99 ∷ 107 ∷ []

-- "act/", "pb/", "bac/" and "autxos/"
abbrev pub account_balance_key_prefix : List ℕ
account_balance_key_prefix = 97 ∷ 99 ∷ 116 ∷ 47 ∷ []

abbrev pub processed_block_hash_key_prefix : List ℕ
processed_block_hash_key_prefix = 112 ∷ 98 ∷ 47 ∷ []

abbrev pub block_accounts_changed_prefix : List ℕ
block_accounts_changed_prefix = 98 ∷ 97 ∷ 99 ∷ 47 ∷ []

abbrev pub account_utxos_key_prefix : List ℕ
account_utxos_key_prefix = 97 ∷ 117 ∷ 116 ∷ 120 ∷ 111 ∷ 115 ∷ 47 ∷ []

-- The bytes between the account and the height stay zero: there is one.
unfoldable pub account_balance_at_height_key : List ℕ → ℕ → List ℕ
account_balance_at_height_key account height =
    account_balance_key_prefix ++ (account ++ 0 ∷ high_bytes 8 height)

-- k[len(k)-n:], which panics on a shorter key
abbrev pub key_end : ℕ → List ℕ → Result Error (List ℕ)
key_end n k = if leb n (length k) then ok (last_bytes n k) else panic

unfoldable pub extract_account_balance_key_height : List ℕ → Result Error ℕ
extract_account_balance_key_height k = key_end 8 k >>= λ b. ok (big_number b)

unfoldable pub processed_block_key : ℕ → List ℕ
processed_block_key height = processed_block_hash_key_prefix ++ high_bytes 8 height

unfoldable pub block_account_key : ℕ → List ℕ → List ℕ
block_account_key height account = block_accounts_changed_prefix ++ (high_bytes 8 height ++ account)

abbrev pub out_point_bytes : Option OutPoint → List ℕ
out_point_bytes none = []
out_point_bytes (some o) = high_bytes 32 o.hash ++ (high_bytes 4 o.index ++ o.tree ∷ [])

-- With no outpoint, the prefix of all the keys of the account.
unfoldable pub account_utxo_key : List ℕ → Option OutPoint → List ℕ
account_utxo_key account o = account_utxos_key_prefix ++ (account ++ 47 ∷ out_point_bytes o)

abbrev pub tree_of : OutPoint → List ℕ → Result Error OutPoint
tree_of o [] = panic
tree_of o (b ∷ bs) = ok (record o { tree = b })

abbrev pub index_of : ℕ → Option (List ℕ × List ℕ) → Result Error OutPoint
index_of hash none = panic
index_of hash (some (index, rest)) =
    tree_of (record { hash = hash; index = big_number index; tree = 0 }) rest

abbrev pub hash_of : Option (List ℕ × List ℕ) → Result Error OutPoint
hash_of none = panic
hash_of (some (hash, rest)) = index_of (big_number hash) (read_bytes 4 rest)

unfoldable pub extract_account_utxo_key_outpoint : List ℕ → Result Error OutPoint
extract_account_utxo_key_outpoint k = key_end 37 k >>= λ b. hash_of (read_bytes 32 b)
