-- ===== src/Contact/Triples.antt =====
-- The rule for a chain of actions, in terms of the invariant and the result.
use spv_wallet.Prelude.{◌≡◌, refl, inl, inr, Bool, true, String, Option, none, some, Bool-cases}
use spv_wallet.Prelude.Results.{Result, ok, err, Result-cases}
use spv_wallet.Contact.Model.{ContactError, Contact, validate}
use spv_wallet.Contact.Store.{
  Env, Table, Action, pure, raise, lift, or_raise, some_or, ◌>>=◌, raise_if, find, write,
  get_contact, get_contact_by_id, save, save_or,
}
use spv_wallet.Contact.Validity.{
  refused_deleted, IsSound, AllSound, SoundOption, Anything, Keeps, find-IsSound, write-AllSound,
  write-Keeps,
}

module _ (env : Env) (base : Table) where
  abbrev pub IsSoundTable : Table → Type 0
  IsSoundTable t = AllSound env t × Keeps base t

  -- A save writes only what its hook has validated.
  save-IsSound :
      (is_new : Bool) (m : Contact) (t : Table)
      → refused_deleted m ≡ true
      → IsSoundTable t
      → IsSoundTable (save env is_new m t).1
  unfolding save
  save-IsSound is_new m t d s = elim (Result-cases (validate env.valid_paymail m)) [
    | inr (e, h) ↦ rw (h, save) s
    | inl (u, h) ↦ elim (Bool-cases (env.save_fails m.id)) [
      | inl f ↦ rw (h, save) (rw f s)
      | inr f ↦ rw (h, save) (rw f (written is_new (h, d)))
    ]
  ]
    where
      written :
          (n : Bool)
          → IsSound env m
          → IsSoundTable (
              let r : Result ContactError (Unit {0}) × Table = elim (write n m t) [
                | ok t' ↦ (ok tt, t')
                | err e ↦ (err e, t)
              ] in
              r.1)
      written n h = elim (Result-cases (write n m t)) [
        | inr (e, w) ↦ rw w s
        | inl (t', w) ↦ rw w (write-AllSound env n m t t' h s.0 w, write-Keeps n base t t' m s.1 w)
      ]

  -- An action that keeps the invariant, and what its result satisfies.
  abbrev pub Ensures : {A : Type 0} → (A → Type 0) → Action A → Type 0
  Ensures {A} Q m =
      (t : Table) → IsSoundTable t → IsSoundTable (m t).1 × ((a : A) → (m t).0 ≡ ok a → Q a)

  -- The rule for a chain of actions.
  pub Ensures-bind :
      {A B : Type 0} (Q : A → Type 0) (R : B → Type 0) (m : Action A) (f : A → Action B)
      → Ensures Q m
      → ((a : A) → Q a → Ensures R (f a))
      → Ensures R (m >>= f)
  Ensures-bind {A} {B} Q R m f hm hf t s = after (m t).0 (m t).1 (hm t s).0 (hm t s).1
    where
      after :
          (r : Result ContactError A) (t' : Table)
          → IsSoundTable t'
          → ((a : A) → r ≡ ok a → Q a)
          → let p : Result ContactError B × Table = elim r [ ok a ↦ f a t' | err e ↦ raise e t' ] in
            IsSoundTable p.1 × ((b : B) → p.0 ≡ ok b → R b)
      after (ok a) t' s' q = hf a (q a refl) t' s'
      after (err e) t' s' q = (s', λ b h. cc)

  pub Ensures-pure : {A : Type 0} (Q : A → Type 0) (a : A) → Q a → Ensures Q (pure a)
  Ensures-pure Q a q t s = (s, λ b h. let e : a ≡ b = cc in rw e at q)

  pub Ensures-lift :
      {A : Type 0} (Q : A → Type 0) (r : Result ContactError A)
      → ((a : A) → r ≡ ok a → Q a)
      → Ensures Q (lift r)
  Ensures-lift Q r q t s = (s, q)

  pub Ensures-or_raise :
      {A : Type 0} (Q : A → Type 0) (r : Result ContactError A) (e : ContactError)
      → ((a : A) → r ≡ ok a → Q a)
      → Ensures Q (or_raise r e)
  Ensures-or_raise Q (ok a) e q = Ensures-pure Q a (q a refl)
  Ensures-or_raise Q (err d) e q = λ t s. (s, λ b h. cc)

  pub Ensures-some_or :
      (o : Option Contact) (e : ContactError)
      → (SoundOption env) o
      → Ensures (IsSound env) (some_or o e)
  Ensures-some_or none e q = λ t s. (s, λ b h. cc)
  Ensures-some_or (some r) e q = Ensures-pure (IsSound env) r q

  pub Ensures-found :
      {A : Type 0} (o : Option A) (e : ContactError) → Ensures Anything (some_or o e)
  Ensures-found none e t s = (s, λ b h. tt)
  Ensures-found (some r) e t s = (s, λ b h. tt)

  pub Ensures-guard : (c : Bool) (e : ContactError) → Ensures Anything (raise_if c e)
  Ensures-guard c e t s = (s, λ b h. tt)

  sound_find : (p : Contact → Bool) (t : Table) → IsSoundTable t → (SoundOption env) (find p t)
  sound_find p t s = of_option (find p t) refl
    where
      of_option : (o : Option Contact) → find p t ≡ o → (SoundOption env) o
      of_option none h = tt
      of_option (some r) h = find-IsSound env p t r s.0 h

  pub Ensures-get :
      (paymail owner : String) → Ensures (SoundOption env) (get_contact env paymail owner)
  unfolding get_contact
  Ensures-get paymail owner t s = elim (Bool-cases env.get_fails) [
    | inl f ↦ rw f (s, λ a h. cc)
    | inr f ↦ rw f (Ensures-pure (SoundOption env) (find _ t) (sound_find _ t s) t s)
  ]

  pub Ensures-get_by_id : (id : String) → Ensures (SoundOption env) (get_contact_by_id env id)
  unfolding get_contact_by_id
  Ensures-get_by_id id t s = elim (Bool-cases env.get_fails) [
    | inl f ↦ rw f (s, λ a h. cc)
    | inr f ↦ rw f (Ensures-pure (SoundOption env) (find _ t) (sound_find _ t s) t s)
  ]

  pub Ensures-save :
      (e : ContactError) (is_new : Bool) (m : Contact)
      → refused_deleted m ≡ true
      → Ensures Anything (save_or env e is_new m)
  unfolding save_or
  Ensures-save e is_new m d t s = (save-IsSound is_new m t d s, λ b h. tt)
