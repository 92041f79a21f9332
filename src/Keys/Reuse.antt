-- ===== src/Keys/Reuse.antt =====
-- A second run of one interpreter.
use spv_wallet.Prelude.{
  ◌≡◌, refl, ◌∙◌, sym, ap, Bool, true, false, String, some, [], ◌∷◌, ◌=?◌, Bool-cases, inl, inr, In,
}
use spv_wallet.Prelude.Results.{Result, ok, err, wrap, bind-ok, ok_injective}
use spv_wallet.Bsv.{CustomInstruction, CustomInstructions}
use spv_wallet.Keys.Type42.{derive}
use spv_wallet.Keys.Interpreter.{
  processing, finalizing, type42_derivation, Scripts, AddressResolver, step, process_each, process,
  derive_address_key, finalize_address, address_resolver,
}

module _ (scripts : Scripts) (a : String) where
  wrap-ok : {E F A : Type 0} (w : E → F) (r : Result E A) (x : A) → wrap w r ≡ ok x → r ≡ ok x
  wrap-ok w (ok y) x h = ap ok (ok_injective h)
  wrap-ok w (err e) x h = cc

  derive_keeps_address :
      (s : AddressResolver) (reference : String) (p : Bool × AddressResolver)
      → derive_address_key scripts reference s ≡ ok p
      → (p.0 ≡ true) × (p.1.address ≡ s.address)
  unfolding derive_address_key
  derive_keeps_address s reference p h =
      let (key, _, e) =
        bind-ok (wrap (λ e. type42_derivation) (derive scripts.ec s.pub_key reference)) _ p h in
      let same = ok_injective e in (sym (ap (λ q. q.0) same), sym (ap (λ q. q.1.address) same))

  steps_keep_address :
      (instructions : CustomInstructions) (s s' : AddressResolver)
      → ((i : CustomInstruction) → In i instructions → (i.kind =? "sign") ≡ false)
      → process_each (address_resolver scripts) instructions s ≡ ok s'
      → s'.address ≡ s.address
  unfolding process_each address_resolver step
  steps_keep_address [] s s' h run = sym (ap AddressResolver.address (ok_injective run))
  steps_keep_address (i ∷ instructions) s s' h run =
      let (p, stepped, rest) = bind-ok (step (address_resolver scripts) i s) _ s' run in
      let unsigned = h i (inl refl) in
      elim (Bool-cases (i.kind =? "type42")) [
        | inr other ↦ let k = rw (other, unsigned, step) at stepped in cc
        | inl derives ↦
            let k = rw (derives, step) at stepped in
            let (proceeds, same) =
              derive_keeps_address s i.instruction p (wrap-ok (λ e. processing) _ p k) in
            steps_keep_address instructions p.1 s' (λ j m. h j (inr m)) (rw proceeds at rest) ∙ same
      ]

  finalize_keeps_address :
      (s s' : AddressResolver)
      → s.address ≡ some a
      → finalize_address scripts s ≡ ok s'
      → s'.address ≡ some a
  unfolding finalize_address
  finalize_keeps_address s s' found h =
      let k = rw (found, finalize_address) at h in
      sym (ap AddressResolver.address (ok_injective k)) ∙ found

  -- Where an interpreter that has found an address is run on another key and on instructions without
  -- one to sign, and succeeds: the address is the one it had, whatever the key and the instructions.
  pub process_reused :
      (key : String) (instructions : CustomInstructions) (s s' : AddressResolver)
      → s.address ≡ some a
      → ((i : CustomInstruction) → In i instructions → (i.kind =? "sign") ≡ false)
      → process (address_resolver scripts) key instructions s ≡ ok s'
      → s'.address ≡ some a
  unfolding process address_resolver
  process_reused key instructions s s' found unsigned h =
      let (final, each, last) =
        bind-ok
          (process_each (address_resolver scripts) instructions (record s { pub_key = some key })) _
          s' h in
      finalize_keeps_address final s'
        (steps_keep_address instructions (record s { pub_key = some key }) final unsigned each
          ∙ found)
        (wrap-ok (λ e. finalizing) _ s' last)
