-- ===== src/Types/Transactions/OutPoints.antt =====
-- types/transactions.go: the texts of outpoints.
use dcrros.Prelude.{ℕ, ◌^◌, ◌<◌, ◌≡◌, refl, String, some, [], ◌∷◌, arith}
use dcrros.Prelude.Results.{ok}
use dcrros.BackendDb.{OutPoint}
use dcrros.Types.Text.{byte_length, split_colon, append}
use dcrros.Types.Text.Digits.{
  format_uint, format_uint-IsPrint, parse_uint-IsPrint, HasNoColon, format_uint-HasNoColon,
}
use dcrros.Types.Transactions.{WireLib, decode_out_point}

split_colon_plain : (s : String) → HasNoColon s → split_colon s ≡ s ∷ []
unfolding split_colon
split_colon_plain String.[] h = refl
split_colon_plain (String.◌∷◌ c s) (e, h) = rw (e, split_colon_plain s h) refl

split_colon-append :
    (s t : String)
    → HasNoColon s
    → HasNoColon t
    → split_colon (append s (String.◌∷◌ ":" t)) ≡ s ∷ t ∷ []
unfolding split_colon
split_colon-append String.[] t h k = rw (split_colon_plain t k) refl
split_colon-append (String.◌∷◌ c s) t (e, h) k = rw (e, split_colon-append s t h k) refl

-- The text of a hash, a number of 32 bytes: what chainhash prints as 64 hex digits, its Decode reads back.
pub record IsHashText (lib : WireLib) : Type 0 where
  pub plain : (h : ℕ) → h < 2 ^ 256 → HasNoColon (lib.hash_text h)
  pub sized : (h : ℕ) → h < 2 ^ 256 → byte_length (lib.hash_text h) ≡ 64
  pub decodes : (h : ℕ) → h < 2 ^ 256 → lib.decode_hash (lib.hash_text h) ≡ some h

-- OutPoint.String of package wire: "<hash>:<index>"
abbrev pub out_point_text : WireLib → OutPoint → String
out_point_text lib o = append (lib.hash_text o.hash) (String.◌∷◌ ":" (format_uint o.index))

-- An outpoint is read back from its text, but for its tree, which becomes the regular one.
pub decode_out_point-out_point_text :
    (lib : WireLib)
    → IsHashText lib
    → (o : OutPoint) → o.hash < 2 ^ 256
    → o.index < 2 ^ 32
    → decode_out_point lib (out_point_text lib o) ≡ ok (record o { tree = 0 })
unfolding decode_out_point
decode_out_point-out_point_text lib laws o k h =
    rw
      (
        split_colon-append (lib.hash_text o.hash) (format_uint o.index) (laws.plain o.hash k)
            (format_uint-HasNoColon o.index),
        laws.sized o.hash k,
        laws.decodes o.hash k,
        parse_uint-IsPrint 32 o.index (format_uint o.index) (omega arith)
            (format_uint-IsPrint o.index (omega arith)),
      )
      refl
