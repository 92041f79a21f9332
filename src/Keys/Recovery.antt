-- ===== src/Keys/Recovery.antt =====
-- The custom instructions of a change output, and its locking script.
use Prim.Native.String.{◌++◌}
use spv_wallet.Prelude.{
  ◌≡◌, refl, ◌∙◌, sym, ap, ℕ, String, Option, none, some, List, [], ◌∷◌, ◌=?◌, Option-cases, inl,
  inr,
}
use spv_wallet.Prelude.Results.{
  Result, ok, err, fail_if, ok_injective, or_fail, bind-ok, Result-cases,
}
use spv_wallet.Bsv.{CustomInstructions}
use spv_wallet.Keys.Type42.{
  KeyError, derive_key, Ec, Destination, derive, new_destination_with_reference,
  new_destination_with_random_reference,
}
use spv_wallet.Keys.Interpreter.{
  Scripts, LockingScriptResolver, step, process_each, process, derive_address_key, sign_address,
  finalize_address, finalize_locking_script, locking_script_resolver, process_locking_script,
}
use spv_wallet.Outlines.Model.{Env}
use spv_wallet.Outlines.Evaluate.{locking_script_for_change}

-- The destination that an outline takes for its change.
abbrev pub to_change : Result KeyError Destination → Option (String × String)
to_change (ok d) = some (d.pub_key, d.derivation_key)
to_change (err e) = none

-- The services of the outlines, with the derivation of keys and the scripts.
abbrev pub with_keys : Scripts → Env → Env
with_keys scripts env = record env {
  new_destination = λ key. to_change (new_destination_with_random_reference scripts.ec (some key));
  address_of = λ key. scripts.address_of (some key);
  lock = scripts.lock;
}

pub derivation_of_destination :
    (ec : Ec) (key : String) (d : Destination)
    → new_destination_with_random_reference ec (some key) ≡ ok d
    → ec.derive_child key d.derivation_key ≡ some d.pub_key
unfolding new_destination_with_random_reference new_destination_with_reference derive
derivation_of_destination ec key d h =
    let (reference, _, k) = bind-ok (or_fail ec.random_hex _) _ d h in
    let (_, _, l) = bind-ok (fail_if (reference =? "") derive_key) _ d k in
    let (child, derived, e) =
      bind-ok (or_fail (ec.derive_child key ("1-destination-" ++ reference)) derive_key) _ d l in
    rw (sym (ok_injective e)) (or_fail_some _ child derived)
  where
    or_fail_some :
        (o : Option String) (child : String)
        → ◌≡◌ {A = Result KeyError String} (or_fail o derive_key) (ok child)
        → o ≡ some child
    or_fail_some none child q = cc
    or_fail_some (some c) child q = cc

process_locking_script-type42 :
    (scripts : Scripts) (key reference child address : String) (locked : List ℕ)
    → scripts.ec.derive_child key reference ≡ some child
    → scripts.address_of (some child) ≡ some address
    → scripts.lock address ≡ some locked
    → process_locking_script scripts key (record { kind = "type42"; instruction = reference } ∷ [])
      ≡ ok record {
        address_resolver = record { pub_key = some child; address = some address };
        locking_script = some locked;
      }
unfolding process_locking_script process process_each step locking_script_resolver
    derive_address_key sign_address derive finalize_address finalize_locking_script
process_locking_script-type42 scripts key reference child address locked derived found e =
    rw (derived, found, e) refl

-- Where the change output of an outline for a public key gets a locking script and custom
-- instructions: an interpreter of locking scripts that is run on the key and the instructions returns
-- that locking script.
pub change-process_locking_script :
    (scripts : Scripts) (env : Env) (key : String) (script : List ℕ)
    (instructions : CustomInstructions)
    → locking_script_for_change (with_keys scripts env) key ≡ some (script, instructions)
    → (s : LockingScriptResolver) × (process_locking_script scripts key instructions ≡ ok s)
      × (s.locking_script ≡ some script)
unfolding locking_script_for_change process_locking_script
change-process_locking_script scripts env key script instructions h =
    elim (Result-cases (new_destination_with_random_reference scripts.ec (some key))) [
      | inr (e, failed) ↦ let k = rw (failed, locking_script_for_change) at h in cc
      | inl (d, made) ↦
          let h' = rw (made, locking_script_for_change) at h in
          elim (Option-cases (scripts.address_of (some d.pub_key))) [
            | inl none_found ↦ let k = rw none_found at h' in cc
            | inr (address, found) ↦
                let h'' = rw found at h' in
                elim (Option-cases (scripts.lock address)) [
                  | inl not_locked ↦ let k = rw not_locked at h'' in cc
                  | inr (locked, e) ↦
                      let k = some_injective (rw e at h'') in
                      interprets d address locked found e
                        (derivation_of_destination scripts.ec key d made) k
                ]
          ]
    ]
  where
    some_injective :
        {a b : List ℕ × CustomInstructions}
        → ◌≡◌ {A = Option (List ℕ × CustomInstructions)} (some a) (some b)
        → a ≡ b
    some_injective q = cc

    interprets :
        (d : Destination) (address : String) (locked : List ℕ)
        → scripts.address_of (some d.pub_key) ≡ some address
        → scripts.lock address ≡ some locked
        → scripts.ec.derive_child key d.derivation_key ≡ some d.pub_key
        → ◌≡◌ {A = List ℕ × CustomInstructions}
            (locked, record { kind = "type42"; instruction = d.derivation_key } ∷ [])
            (script, instructions)
        → (s : LockingScriptResolver) × (process_locking_script scripts key instructions ≡ ok s)
          × (s.locking_script ≡ some script)
    interprets d address locked found e derived same = (
      record {
        address_resolver = record { pub_key = some d.pub_key; address = some address };
        locking_script = some locked;
      },
      ap (process_locking_script scripts key) (sym (ap (λ p. p.1) same))
          ∙ process_locking_script-type42 scripts key d.derivation_key d.pub_key address locked
              derived found e,
      ap (λ p. some p.0) same,
    )
