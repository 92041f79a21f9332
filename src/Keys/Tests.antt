-- ===== src/Keys/Tests.antt =====
-- A key, a derived key and their addresses, as texts.
use Prim.Native.String.{◌++◌}
use spv_wallet.Prelude.{◌≡◌, refl, inl, inr, none, some, [], ◌∷◌, ◌=?◌, false, In}
use spv_wallet.Prelude.Results.{ok, err}
use spv_wallet.Bsv.{CustomInstruction, CustomInstructions}
use spv_wallet.Keys.Type42.{
  derive, new_destination_with_reference, new_destination_with_random_reference,
}
use spv_wallet.Keys.Interpreter.{
  Scripts, AddressResolver, LockingScriptResolver, step, process_each, process, derive_address_key,
  sign_address, finalize_address, address_resolver, process_address, process_locking_script,
}
use spv_wallet.Keys.Meaning.{address_found, address_meant, process_address_iff}
use spv_wallet.Keys.Recovery.{with_keys, change-process_locking_script}
use spv_wallet.Keys.Reuse.{process_reused}
use spv_wallet.Outlines.Model.{Env, owned, part_too_big}
use spv_wallet.Outlines.Evaluate.{locking_script_for_change}

abbrev scripts : Scripts
scripts = record {
  ec = record {
    derive_child = λ key reference. some (key ++ "/" ++ reference);
    random_hex = some "5a";
  };
  address_of = λ key. key;
  lock = λ address. some (118 ∷ 169 ∷ []);
}

abbrev derived : CustomInstructions
derived =
    record { kind = "type42"; instruction = "r" }
    ∷ record { kind = "sign"; instruction = "P2PKH" }
    ∷ record { kind = "other"; instruction = "" }
    ∷ []

process_address_iff_example :
    address_found (process_address scripts "key" derived) ≡ address_meant scripts "key" derived
process_address_iff_example = process_address_iff scripts "key" derived

abbrev services : Env
services = record {
  sanitize = λ s. some s;
  p2p_destination_url = λ a. none;
  host_destinations = λ url a n. none;
  has_paymail = λ u s. owned;
  default_paymail = λ u. none;
  script_from_hex = λ s. none;
  op_return_output = λ l. err part_too_big;
  hash_from_hex = λ s. some s;
  pub_key = λ u. some "key";
  new_destination = λ k. none;
  address_of = λ k. none;
  lock = λ a. none;
}

abbrev instructions : CustomInstructions
instructions = record { kind = "type42"; instruction = "1-destination-5a" } ∷ []

locks_change :
    locking_script_for_change (with_keys scripts services) "key"
    ≡ some (118 ∷ 169 ∷ [], instructions)
unfolding locking_script_for_change new_destination_with_random_reference
    new_destination_with_reference derive
locks_change = refl

change-process_locking_script_example :
    (s : LockingScriptResolver) × (process_locking_script scripts "key" instructions ≡ ok s)
    × (s.locking_script ≡ some (118 ∷ 169 ∷ []))
change-process_locking_script_example =
    change-process_locking_script scripts services "key" (118 ∷ 169 ∷ []) instructions locks_change

abbrev old_state : AddressResolver
old_state = record { pub_key = some "old"; address = some "old" }

abbrev new_state : AddressResolver
new_state = record { pub_key = some "key/1-destination-5a"; address = some "old" }

runs_again : process (address_resolver scripts) "key" instructions old_state ≡ ok new_state
unfolding process process_each step address_resolver derive_address_key sign_address derive
    finalize_address
runs_again = refl

unsigned : (i : CustomInstruction) → In i instructions → (i.kind =? "sign") ≡ false
unsigned i (inl e) = rw e refl
unsigned i (inr k) = absurd k

process_reused_example : new_state.address ≡ some "old"
process_reused_example =
    process_reused scripts "old" "key" instructions old_state new_state refl unsigned runs_again
