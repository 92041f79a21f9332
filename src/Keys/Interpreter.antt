-- ===== src/Keys/Interpreter.antt =====
-- The interpreter of custom instructions, interpreter.go, and its resolvers of an address and of a
-- locking script, locking_resolver.go. A method of a resolver takes its state and returns the next one.
use spv_wallet.Prelude.{
  ℕ, Bool, true, false, String, Option, none, some, List, [], ◌∷◌, ◌=?◌, if◌then◌else◌,
}
use spv_wallet.Prelude.Results.{Result, ok, err, ◌>>=◌, or_fail, wrap}
use spv_wallet.Bsv.{CustomInstruction, CustomInstructions}
use spv_wallet.Keys.Type42.{Ec, derive}

pub data InstructionError : Type 0 where
  initializing unknown_instruction_type processing finalizing : InstructionError

pub data ResolverError : Type 0 where
  type42_derivation getting_address getting_locking_script : ResolverError

-- `Resolver`
pub record Resolver (K S : Type 0) : Type 0 where
  pub initialize : K → S → Result ResolverError S
  pub type42 : String → S → Result ResolverError (Bool × S)
  pub sign : String → S → Result ResolverError (Bool × S)
  pub finalize : S → Result ResolverError S

module _ {K S : Type 0} (resolver : Resolver K S) where
  -- The switch in the loop of `Process`.
  unfoldable pub step : CustomInstruction → S → Result InstructionError (Bool × S)
  step i s =
      if i.kind =? "type42"
      then wrap (λ e. processing) (resolver.type42 i.instruction s)
      else if i.kind =? "sign"
      then wrap (λ e. processing) (resolver.sign i.instruction s)
      else err unknown_instruction_type

  -- The loop of `Process`.
  unfoldable pub process_each : CustomInstructions → S → Result InstructionError S
  process_each [] s = ok s
  process_each (i ∷ instructions) s =
      step i s >>= λ p. elim p.0 [ true ↦ process_each instructions p.1 | false ↦ ok p.1 ]

  unfoldable pub process : K → CustomInstructions → S → Result InstructionError S
  process key instructions s = do
    initial ← wrap (λ e. initializing) (resolver.initialize key s)
    final ← process_each instructions initial
    wrap (λ e. finalizing) (resolver.finalize final)

pub record AddressResolver : Type 0 where
  pub pub_key : Option String
  pub address : Option String

pub record LockingScriptResolver : Type 0 where
  pub address_resolver : AddressResolver
  pub locking_script : Option (List ℕ)

-- The derivation of keys, and the addresses and scripts of the go-sdk.
pub record Scripts : Type 0 where
  pub ec : Ec
  pub address_of : Option String → Option String
  pub lock : String → Option (List ℕ)

module _ (scripts : Scripts) where
  unfoldable pub derive_address_key :
      String → AddressResolver → Result ResolverError (Bool × AddressResolver)
  derive_address_key instruction s = do
    key ← wrap (λ e. type42_derivation) (derive scripts.ec s.pub_key instruction)
    ok (true, record s { pub_key = some key })

  unfoldable pub sign_address : AddressResolver → Result ResolverError (Bool × AddressResolver)
  sign_address s = do
    a ← or_fail (scripts.address_of s.pub_key) getting_address
    ok (false, record s { address = some a })

  unfoldable pub finalize_address : AddressResolver → Result ResolverError AddressResolver
  finalize_address s = elim s.address [ none ↦ sign_address s >>= λ p. ok p.1 | some a ↦ ok s ]

  unfoldable pub address_resolver : Resolver String AddressResolver
  address_resolver = record {
    initialize = λ key s. ok (record s { pub_key = some key });
    type42 = derive_address_key;
    sign = λ instruction s. sign_address s;
    finalize = finalize_address;
  }

  -- A step of the address resolver inside that of the locking script.
  abbrev pub on_address_resolver :
      (AddressResolver → Result ResolverError (Bool × AddressResolver))
      → LockingScriptResolver
      → Result ResolverError (Bool × LockingScriptResolver)
  on_address_resolver f s =
      f s.address_resolver >>= λ p. ok (p.0, record s { address_resolver = p.1 })

  unfoldable pub finalize_locking_script :
      LockingScriptResolver → Result ResolverError LockingScriptResolver
  finalize_locking_script s = do
    final ← finalize_address s.address_resolver
    address ← or_fail final.address getting_locking_script
    script ← or_fail (scripts.lock address) getting_locking_script
    ok (record { address_resolver = final; locking_script = some script })

  unfoldable pub locking_script_resolver : Resolver String LockingScriptResolver
  locking_script_resolver = record {
    initialize = λ key s.
        ok (record s { address_resolver = record s.address_resolver { pub_key = some key } });
    type42 = λ instruction. on_address_resolver (derive_address_key instruction);
    sign = λ instruction. on_address_resolver sign_address;
    finalize = finalize_locking_script;
  }

-- The state of a new interpreter.
abbrev pub new_address_state : AddressResolver
new_address_state = record { pub_key = none; address = none }

abbrev pub new_locking_script_state : LockingScriptResolver
new_locking_script_state = record { address_resolver = new_address_state; locking_script = none }

-- `NewAddressInterpreter().Process`
unfoldable pub process_address :
    Scripts → String → CustomInstructions → Result InstructionError AddressResolver
process_address scripts key instructions =
    process (address_resolver scripts) key instructions new_address_state

-- `NewLockingScriptInterpreter().Process`
unfoldable pub process_locking_script :
    Scripts → String → CustomInstructions → Result InstructionError LockingScriptResolver
process_locking_script scripts key instructions =
    process (locking_script_resolver scripts) key instructions new_locking_script_state
