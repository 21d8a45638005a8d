-- ===== src/Node/Signed.antt =====
-- Blocks and confirmations of the node, signed and verified.
use trinci.Base.{◌≡◌, refl, some, List, ℕ, true, String}
use trinci.Crypto.Hash.{Hash}
use trinci.Node.Identity.{Identity}
use trinci.Node.Models.{
  Codec, get_block_hash, get_builder_id, get_player_id, new_block, new_confirmation, sign_block,
  sign_confirmation, verify_block, verify_confirmation,
}

module _ ⦃i : Identity⦄ (k : Codec) where
  open i use {KeyPair}

  -- The block of a key pair that signs it verifies, where signing succeeds: its builder is the account of
  -- the key, and its hash is the one that it had before it was signed. The same holds of the player and
  -- the verification of a confirmation.
  pub signed_lem :
      (kp : KeyPair) (now : ℕ) (hashes : List Hash) (height round : ℕ) (prev hash : Hash)
      (block_signature signature : List ℕ) (id : String)
      → let block = new_block now (i.public_key kp) hashes height prev in
        let x = new_confirmation hash height round (i.public_key kp) in
        i.sign kp (k.rmp_block block.content) ≡ some block_signature
        → i.sign kp (k.rmp_confirmation x.content) ≡ some signature
        → i.to_account_id (i.public_key kp) ≡ some id
        → (verify_block k (sign_block k block kp) ≡ true)
          × (get_builder_id (sign_block k block kp) ≡ some id)
          × (get_block_hash k (sign_block k block kp) ≡ get_block_hash k block)
          × (verify_confirmation k (sign_confirmation k x kp) ≡ true)
          × (get_player_id (sign_confirmation k x kp) ≡ id)
  unfolding new_block new_confirmation sign_block verify_block get_builder_id get_block_hash
      sign_confirmation verify_confirmation get_player_id
  signed_lem kp now hashes height round prev hash bs cs id signed signed' account = (
    rw signed (i.verify-sign kp _ bs signed),
    account,
    refl,
    rw signed' (i.verify-sign kp _ cs signed'),
    rw account refl,
  )
