-- ===== src/Contact/Atomic.antt =====
-- What an action that fails leaves in the table of contacts.
use spv_wallet.Prelude.{
  ◌≡◌, ◌≢◌, refl, ap, ◌∙◌, ◌⊎◌, inl, inr, Bool, true, false, String, Option, none, some, arith, [],
  ◌∷◌, ◌=?◌, =?_iff, Bool-cases,
}
use spv_wallet.Prelude.Results.{Result, ok, err, Result-cases}
use spv_wallet.Contact.Model.{
  confirmed, ContactError, contact_not_found, contact_incorrect_status, save_contact,
  confirm_contact, Contact, validate, accept, reject, confirm, unconfirm, delete,
}
use spv_wallet.Contact.Store.{
  Env, Table, Action, raise, or_raise, some_or, ◌>>=◌, ◌>>◌, update_row, has_id, write, find,
  merged, get_contact, get_contact_by_id, save, save_or,
}
use spv_wallet.Contact.Client.{
  delete_contact_by_id, admin_unconfirm_contact, delete_contact, accept_contact, reject_contact,
  confirm_contact_of, unconfirm_contact, confirm_contacts_in_db_tx,
}

-- When it returns an error, the action leaves the table alone.
abbrev pub IsAtomic : {A : Type 0} → Action A → Type 0
IsAtomic {A} m = (t : Table) (e : ContactError) → (m t).0 ≡ err e → (m t).1 ≡ t

-- The action never changes the table.
abbrev pub IsReading : {A : Type 0} → Action A → Type 0
IsReading {A} m = (t : Table) → (m t).1 ≡ t

bind-IsAtomic :
    {A B : Type 0} (m : Action A) (f : A → Action B)
    → IsReading m
    → ((a : A) → IsAtomic (f a))
    → IsAtomic (m >>= f)
bind-IsAtomic {A} {B} m f r h t e = after (m t).0 (m t).1 (r t)
  where
    after :
        (x : Result ContactError A) (t' : Table)
        → t' ≡ t
        → let p : Result ContactError B × Table = elim x [ ok a ↦ f a t' | err d ↦ raise d t' ] in
          p.0 ≡ err e → p.1 ≡ t
    after (ok a) t' q k = h a t' e k ∙ q
    after (err d) t' q k = q

some_or-IsReading : {A : Type 0} (o : Option A) (e : ContactError) → IsReading (some_or o e)
some_or-IsReading none e t = refl
some_or-IsReading (some a) e t = refl

or_raise-IsReading :
    {A : Type 0} (r : Result ContactError A) (e : ContactError) → IsReading (or_raise r e)
or_raise-IsReading (ok a) e t = refl
or_raise-IsReading (err d) e t = refl

module _ (env : Env) where
  get_contact-IsReading : (paymail owner : String) → IsReading (get_contact env paymail owner)
  unfolding get_contact
  get_contact-IsReading paymail owner t = ground arith

  get_contact_by_id-IsReading : (id : String) → IsReading (get_contact_by_id env id)
  unfolding get_contact_by_id
  get_contact_by_id-IsReading id t = ground arith

  save-IsAtomic :
      (is_new : Bool) (m : Contact) (t : Table)
      → ((save env is_new m t).1 ≡ t) ⊎ ((save env is_new m t).0 ≡ ok tt)
  unfolding save
  save-IsAtomic is_new m t = elim (Result-cases (validate env.valid_paymail m)) [
    | inr (e, h) ↦ rw (h, save) (inl refl)
    | inl (u, h) ↦ elim (Bool-cases (env.save_fails m.id)) [
      | inl f ↦ rw (h, save) (rw f (inl refl))
      | inr f ↦ rw (h, save) (rw f (of_write (write is_new m t)))
    ]
  ]
    where
      of_write :
          (r : Result ContactError Table)
          → let p : Result ContactError (Unit {0}) × Table = elim r [
            | ok t' ↦ (ok tt, t')
            | err e ↦ (err e, t)
          ] in
            (p.1 ≡ t) ⊎ (p.0 ≡ ok tt)
      of_write (ok t') = inr refl
      of_write (err e) = inl refl

  save_or-IsAtomic :
      (e : ContactError) (is_new : Bool) (m : Contact) → IsAtomic (save_or env e is_new m)
  unfolding save_or
  save_or-IsAtomic e is_new m t d h = elim (save-IsAtomic is_new m t) [
    | inl q ↦ q
    | inr q ↦ clash q h
  ]
    where
      clash :
          {P : Type 0} {r : Result ContactError (Unit {0})}
          → r ≡ ok tt
          → (let x : Result ContactError (Unit {0}) = elim r [ ok u ↦ ok u | err k ↦ err e ] in
              x ≡ err d)
          → P
      clash q k = ground arith

  change_of :
      (get : Action (Option Contact)) (step : Contact → Result ContactError Contact)
      → IsReading get
      → IsAtomic (
          get >>= λ o. some_or o contact_not_found >>= λ c.
          or_raise (step c) contact_incorrect_status >>= λ c'. save_or env save_contact false c')
  change_of get step g = bind-IsAtomic get _ g (λ o.
      bind-IsAtomic (some_or o contact_not_found) _ (some_or-IsReading o contact_not_found) (λ c.
        bind-IsAtomic (or_raise (step c) contact_incorrect_status)
          (λ c'. save_or env save_contact false c')
          (or_raise-IsReading (step c) contact_incorrect_status)
          (λ c'. save_or-IsAtomic save_contact false c')))

  removal_of :
      (get : Action (Option Contact))
      → IsReading get
      → IsAtomic (
          get >>= λ o.
          some_or o contact_not_found >>= λ c. save_or env save_contact false (delete env.now c))
  removal_of get g = bind-IsAtomic get _ g (λ o.
      bind-IsAtomic (some_or o contact_not_found)
        (λ c. save_or env save_contact false (delete env.now c))
        (some_or-IsReading o contact_not_found)
        (λ c. save_or-IsAtomic save_contact false (delete env.now c)))

-- When accepting, rejecting, confirming, unconfirming or deleting a contact returns an error, the
-- table of contacts is as it was.
pub status_actions-IsAtomic :
    (env : Env) (xpub paymail id : String)
    → IsAtomic (accept_contact env xpub paymail)
      × IsAtomic (reject_contact env xpub paymail)
      × IsAtomic (confirm_contact_of env xpub paymail)
      × IsAtomic (unconfirm_contact env xpub paymail)
      × IsAtomic (delete_contact env xpub paymail)
      × IsAtomic (delete_contact_by_id env id)
      × IsAtomic (admin_unconfirm_contact env id)
unfolding accept_contact reject_contact confirm_contact_of unconfirm_contact delete_contact
    delete_contact_by_id admin_unconfirm_contact
status_actions-IsAtomic env xpub paymail id =
    let get = get_contact-IsReading env paymail xpub in
    let by_id = get_contact_by_id-IsReading env id in
    (
      change_of env (get_contact env paymail xpub) accept get,
      change_of env (get_contact env paymail xpub) (reject env.now) get,
      change_of env (get_contact env paymail xpub) confirm get,
      change_of env (get_contact env paymail xpub) unconfirm get,
      removal_of env (get_contact env paymail xpub) get,
      removal_of env (get_contact_by_id env id) by_id,
      change_of env (get_contact_by_id env id) unconfirm by_id,
    )

after_ok : (m k : Action (Unit {0})) (t t' : Table) → m t ≡ (ok tt, t') → (m >> k) t ≡ k t'
after_ok m k t t' h =
    ap
      (λ (p : Result ContactError (Unit {0}) × Table).
        let r : Result ContactError (Unit {0}) × Table = elim p.0 [
          | ok u ↦ k p.1
          | err e ↦ raise e p.1
        ] in
        r)
      h

-- The save of a valid stored contact.
save_or-stored :
    (env : Env) (e : ContactError) (m : Contact) (t : Table)
    → validate env.valid_paymail m ≡ ok tt
    → env.save_fails m.id ≡ false
    → has_id m.id t ≡ true
    → save_or env e false m t ≡ (ok tt, update_row m t)
unfolding save_or save write
save_or-stored env e m t v f h = rw (v, save) (rw f (rw (h, write) refl))

-- A save that the database refuses.
save_or-refused :
    (env : Env) (e : ContactError) (m : Contact) (t : Table)
    → env.save_fails m.id ≡ true
    → save_or env e false m t ≡ (err e, t)
unfolding save_or save
save_or-refused env e m t f = elim (Result-cases (validate env.valid_paymail m)) [
  | inr (x, v) ↦ rw (v, save) refl
  | inl (u, v) ↦ rw (v, save) (rw f refl)
]

-- The row of the contact that an update writes.
find_own-update_row :
    (m : Contact) (t : Table)
    → has_id m.id t ≡ true
    → (row : Contact) × (find (λ r. r.id =? m.id) (update_row m t) ≡ some row)
      × (row.status ≡ m.status)
unfolding find update_row
find_own-update_row m [] h = cc
find_own-update_row m (r ∷ t) h = elim (Bool-cases (r.id =? m.id)) [
  | inl hit ↦ rw hit (rw hit (merged r m, refl, refl))
  | inr miss ↦ rw miss (rw miss (find_own-update_row m t (rw miss at h)))
]

find_other-update_row :
    (m : Contact) (id : String) (t : Table)
    → m.id ≢ id
    → find (λ r. r.id =? id) (update_row m t) ≡ find (λ r. r.id =? id) t
unfolding find update_row
find_other-update_row m id [] n = refl
find_other-update_row m id (r ∷ t) n =
    ground (arith, =?_iff r.id m.id, =?_iff r.id id, find_other-update_row m id t n)

-- When the first of two contacts is valid, stored and saved, and the second is another one that is not
-- saved, then confirming both returns an error, and leaves the first one confirmed and the second one
-- as it was.
pub half_confirmed :
    (env : Env) (a b : Contact) (t : Table)
    → validate env.valid_paymail (record a { status = confirmed }) ≡ ok tt
    → env.save_fails a.id ≡ false
    → env.save_fails b.id ≡ true
    → has_id a.id t ≡ true
    → a.id ≢ b.id
    → let (r, after) = confirm_contacts_in_db_tx env a b t in
      (r ≡ err confirm_contact)
      × ((row : Contact) × (find (λ x. x.id =? a.id) after ≡ some row) × (row.status ≡ confirmed))
      × (find (λ x. x.id =? b.id) after ≡ find (λ x. x.id =? b.id) t)
unfolding confirm_contacts_in_db_tx
half_confirmed env a b t va sa sb has other =
    let saved = save_or-stored env confirm_contact (record a { status = confirmed }) t va sa has in
    let both =
      after_ok (save_or env confirm_contact false (record a { status = confirmed }))
        (save_or env confirm_contact false (record b { status = confirmed })) t _ saved in
    let refused =
      both ∙ save_or-refused env confirm_contact (record b { status = confirmed }) _ sb in
    rw refused (
      refl,
      find_own-update_row (record a { status = confirmed }) t has,
      find_other-update_row (record a { status = confirmed }) b.id t other,
    )
