-- ===== src/Keys/Meaning.antt =====
-- What the interpreter of an address computes, against a direct description.
use spv_wallet.Prelude.{
  ◌≡◌, refl, true, false, String, Option, none, some, List, [], ◌∷◌, ◌=?◌, if◌then◌else◌,
  Bool-cases, Option-cases, inl, inr,
}
use spv_wallet.Prelude.Results.{Result, ok, err, ◌>>=◌, wrap}
use spv_wallet.Bsv.{CustomInstruction, CustomInstructions}
use spv_wallet.Keys.Type42.{derive}
use spv_wallet.Keys.Interpreter.{
  InstructionError, finalizing, Scripts, AddressResolver, step, process_each, process,
  derive_address_key, sign_address, finalize_address, address_resolver, process_address,
}

-- The derivation keys up to the first instruction to sign; there is none where an unknown
-- instruction comes before it.
unfoldable pub signing_path : CustomInstructions → Option (List String)
signing_path [] = some []
signing_path (i ∷ instructions) =
    let rest = signing_path instructions in
    if i.kind =? "type42"
    then elim rest [ none ↦ none | some path ↦ some (i.instruction ∷ path) ]
    else if i.kind =? "sign"
    then some []
    else none

-- The address of the key that a chain of derivations ends at.
unfoldable pub address_along : Scripts → String → List String → Option String
address_along scripts key [] = scripts.address_of (some key)
address_along scripts key (reference ∷ path) = elim (scripts.ec.derive_child key reference) [
  | none ↦ none
  | some child ↦ address_along scripts child path
]

abbrev pub address_meant : Scripts → String → CustomInstructions → Option String
address_meant scripts key instructions = elim (signing_path instructions) [
  | none ↦ none
  | some path ↦ address_along scripts key path
]

abbrev pub address_found : Result InstructionError AddressResolver → Option String
address_found (ok s) = s.address
address_found (err e) = none

module _ (scripts : Scripts) where
  abbrev finalized :
      Result InstructionError AddressResolver → Result InstructionError AddressResolver
  finalized r = r >>= λ s. wrap (λ e. finalizing) (finalize_address scripts s)

  unsigned : String → AddressResolver
  unsigned key = record { pub_key = some key; address = none }

  finalized_lem :
      (key : String) → address_found (finalized (ok (unsigned key))) ≡ scripts.address_of (some key)
  unfolding finalize_address sign_address unsigned
  finalized_lem key = elim (Option-cases (scripts.address_of (some key))) [
    | inl e ↦ rw e refl
    | inr (a, e) ↦ rw e refl
  ]

  module _ (key : String) (i : CustomInstruction) (instructions : CustomInstructions) where
    meant-derive :
        (i.kind =? "type42") ≡ true
        → (child : Option String) → scripts.ec.derive_child key i.instruction ≡ child
        → address_meant scripts key (i ∷ instructions)
          ≡ elim child [ none ↦ none | some c ↦ address_meant scripts c instructions ]
    unfolding address_along signing_path
    meant-derive derives child e = elim (Option-cases (signing_path instructions)) [
      | inl no_path ↦ rw (derives, signing_path, address_meant) (rw no_path (nothing no_path child))
      | inr (path, p) ↦
          rw (derives, signing_path, address_meant)
            (rw p (rw (e, address_along) (along path p child)))
    ]
      where
        nothing :
            signing_path instructions ≡ none
            → (o : Option String)
            → let r : Option String = elim o [
              | none ↦ none
              | some c ↦ address_meant scripts c instructions
            ] in
              ◌≡◌ {A = Option String} none r
        nothing no_path none = refl
        nothing no_path (some c) = rw (no_path, address_meant) refl

        along :
            (path : List String)
            → signing_path instructions ≡ some path
            → (o : Option String)
            → let r : Option String = elim o [
              | none ↦ none
              | some c ↦ address_along scripts c path
            ] in
              let m : Option String = elim o [
                | none ↦ none
                | some c ↦ address_meant scripts c instructions
              ] in
              r ≡ m
        along path p none = refl
        along path p (some c) = rw (p, address_meant) refl

    meant-sign :
        (i.kind =? "type42") ≡ false
        → (i.kind =? "sign") ≡ true
        → address_meant scripts key (i ∷ instructions) ≡ scripts.address_of (some key)
    unfolding address_along signing_path
    meant-sign other signs = rw (other, signs, signing_path, address_meant) refl

    meant-unknown :
        (i.kind =? "type42") ≡ false
        → (i.kind =? "sign") ≡ false
        → address_meant scripts key (i ∷ instructions) ≡ none
    unfolding signing_path
    meant-unknown other unknown = rw (other, unknown, signing_path, address_meant) refl

  process_each_lem :
      (key : String) (instructions : CustomInstructions)
      → address_found
          (finalized (process_each (address_resolver scripts) instructions (unsigned key)))
        ≡ address_meant scripts key instructions
  unfolding process_each address_resolver derive_address_key sign_address derive unsigned
      finalize_address step signing_path address_along
  process_each_lem key [] = finalized_lem key
  process_each_lem key (i ∷ instructions) = elim (Bool-cases (i.kind =? "type42")) [
    | inl derives ↦ elim (Option-cases (scripts.ec.derive_child key i.instruction)) [
      | inl e ↦ rw (meant-derive key i instructions derives none e) (rw (derives, e) refl)
      | inr (child, e) ↦
          let ih = process_each_lem child instructions in
          rw (meant-derive key i instructions derives (some child) e) (rw (derives, e) ih)
    ]
    | inr other ↦ elim (Bool-cases (i.kind =? "sign")) [
      | inl signs ↦
          rw (meant-sign key i instructions other signs)
            (elim (Option-cases (scripts.address_of (some key))) [
              | inl e ↦ rw (e, other, signs) refl
              | inr (a, e) ↦ rw (e, other, signs) refl
            ])
      | inr unknown ↦ rw (meant-unknown key i instructions other unknown) (rw (other, unknown) refl)
    ]
  ]

-- Where an interpreter of addresses is run once: the address it returns is that of the key at the end
-- of the derivations up to the first instruction to sign, and it returns none exactly where an unknown
-- instruction comes before that, a derivation fails or the key has no address.
pub process_address_iff :
    (scripts : Scripts) (key : String) (instructions : CustomInstructions)
    → address_found (process_address scripts key instructions)
      ≡ address_meant scripts key instructions
unfolding process_address process address_resolver unsigned
process_address_iff scripts key instructions = process_each_lem scripts key instructions
