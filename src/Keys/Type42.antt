-- ===== src/Keys/Type42.antt =====
-- The derivation of public keys: derivation.go, destination.go and pki.go. A key is the text of its
-- encoding, and none is a nil pointer.
use Prim.Native.String.{◌++◌}
use spv_wallet.Prelude.{String, Option, none, some, ◌=?◌, ◌||◌}
use spv_wallet.Prelude.Results.{Result, ok, err, ◌>>=◌, ◌>>◌, or_fail, fail_if}

pub data KeyError : Type 0 where
  derive_key random_reference_id : KeyError

-- The child of a public key with the private key of "anyone", and random bytes in hexadecimal: the
-- go-sdk and the generator of the system.
pub record Ec : Type 0 where
  pub derive_child : String → String → Option String
  pub random_hex : Option String

pub record Destination : Type 0 where
  pub pub_key : String
  pub reference_id : String
  pub derivation_key : String

module _ (ec : Ec) where
  unfoldable pub derive : Option String → String → Result KeyError String
  derive none derivation_key = err derive_key
  derive (some key) derivation_key = or_fail (ec.derive_child key derivation_key) derive_key

  unfoldable pub new_destination_with_reference :
      Option String → String → Result KeyError Destination
  new_destination_with_reference key reference = do
    fail_if (reference =? "") derive_key
    child ← derive key ("1-destination-" ++ reference)
    ok record {
      pub_key = child;
      reference_id = reference;
      derivation_key = "1-destination-" ++ reference;
    }

  unfoldable pub new_destination_with_random_reference : Option String → Result KeyError Destination
  new_destination_with_random_reference key = do
    reference ← or_fail ec.random_hex random_reference_id
    new_destination_with_reference key reference

  -- `PaymailPKI`
  unfoldable pub paymail_pki : Option String → String → String → Result KeyError (String × String)
  paymail_pki key alias domain = do
    fail_if ((alias =? "") || (domain =? "")) derive_key
    let derivation_key = "1-paymail_pki-" ++ alias ++ "@" ++ domain ++ "_" ++ "0"
    child ← derive key derivation_key
    ok (child, derivation_key)
