-- ===== src/Types/Rosetta.antt =====
-- The fields of the Rosetta library's types that the program reads and writes. A nil pointer is
-- `none`, and so is a nil map where the code asks whether it is nil.
use dcrros.Prelude.{ℕ, String, Bool, Option, List}
use dcrros.Prelude.Maps.{Map}

-- A value in a map of metadata, by its type. A float64 is a whole number (its sign and size) or not.
pub data Value : Type 0 where
  int8 uint16 uint32 int : ℕ → Value
  text : String → Value
  bytes : List ℕ → Value
  whole : Bool → ℕ → Value
  null fraction other : Value

pub record Currency : Type 0 where
  pub symbol : String
  pub decimals : ℕ

pub record Amount : Type 0 where
  pub value : String
  pub currency : Option Currency

pub record AccountIdentifier : Type 0 where
  pub address : String
  pub metadata : Option (Map String Value)

pub data CoinAction : Type 0 where
  coin_created coin_spent : CoinAction
  unknown_action : String → CoinAction

-- The coin identifier is the text in it.
pub record CoinChange : Type 0 where
  pub coin_identifier : Option String
  pub coin_action : CoinAction

pub record Operation : Type 0 where
  pub index : ℕ
  pub type : String
  pub status : Option String
  pub account : Option AccountIdentifier
  pub amount : Option Amount
  pub metadata : Map String Value
  pub coin_change : Option CoinChange

pub data CurveType : Type 0 where
  secp256k1 other_curve : CurveType

pub data SignatureType : Type 0 where
  ecdsa other_signature : SignatureType

pub record PublicKey : Type 0 where
  pub bytes : List ℕ
  pub curve_type : CurveType

pub record SigningPayload : Type 0 where
  pub account : Option AccountIdentifier
  pub bytes : List ℕ
  pub signature_type : SignatureType

pub record Signature : Type 0 where
  pub signing_payload : Option SigningPayload
  pub public_key : Option PublicKey
  pub signature_type : SignatureType
  pub bytes : List ℕ
