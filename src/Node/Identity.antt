-- ===== src/Node/Identity.antt =====
-- The keys that the models of the node use (trinci-core-new/src/crypto/identity.rs and the crates behind
-- it), as a parameter: key pairs, public keys with their account ids, signatures of bytes. `none` stands
-- for the error of a call.
use trinci.Base.{ℕ, ◌≡◌, Bool, true, List, Option, some, String, PartialEq}

pub record Identity : Type 1 where
  pub PublicKey : Type 0
  pub KeyPair : Type 0
  pub public_key : KeyPair → PublicKey
  pub key_eq : PartialEq PublicKey
  pub to_account_id : PublicKey → Option String
  pub sign : KeyPair → List ℕ → Option (List ℕ)
  pub verify : PublicKey → List ℕ → List ℕ → Bool
  -- A signature verifies under the public key of the pair that made it.
  pub verify-sign :
      (k : KeyPair) (bytes signature : List ℕ)
      → sign k bytes ≡ some signature
      → verify (public_key k) bytes signature ≡ true
