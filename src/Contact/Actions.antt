-- ===== src/Contact/Actions.antt =====
-- The invariant of the table through each action of the client, and through any sequence of them.
use spv_wallet.Prelude.{ℕ, ◌≡◌, Bool, true, false, String, Option, arith}
use spv_wallet.Prelude.Results.{Result, ok}
use spv_wallet.Contact.Model.{
  ContactStatus, ContactError, contact_not_found, contact_incorrect_status, save_contact,
  update_contact, Metadata, Contact, accept, reject, confirm, unconfirm, delete, update_pub_key,
}
use spv_wallet.Contact.Store.{
  Env, Table, Action, pure, lift, or_raise, some_or, ◌>>=◌, get_contact, get_contact_by_id, save_or,
}
use spv_wallet.Contact.Client.{
  update, change_status, admin_change_contact_status, admin_unconfirm_contact, accept_contact,
  reject_contact, confirm_contact_of, unconfirm_contact,
}
use spv_wallet.Contact.Validity.{refused_deleted, IsSound, SoundOption, Anything}
use spv_wallet.Contact.Triples.{
  Ensures, Ensures-bind, Ensures-pure, Ensures-lift, Ensures-or_raise, Ensures-some_or, Ensures-get,
  Ensures-get_by_id, Ensures-save,
}

module _ (env : Env) (base : Table) where
  -- A change of a contact keeps the link between refusal and deletion.
  abbrev pub KeepsRefusal : (Contact → Result ContactError Contact) → Type 0
  KeepsRefusal step =
      (c c' : Contact) → refused_deleted c ≡ true → step c ≡ ok c' → refused_deleted c' ≡ true

  -- Look up a contact, change it and save it.
  pub Ensures-change :
      (get : Action (Option Contact)) (step : Contact → Result ContactError Contact)
      → Ensures env base (SoundOption env) get
      → KeepsRefusal step
      → Ensures env base (Anything) (
          get >>= λ o. some_or o contact_not_found >>= λ c.
          or_raise (step c) contact_incorrect_status >>= λ c'. save_or env save_contact false c')
  Ensures-change get step g k = Ensures-bind env base (SoundOption env) Anything get _ g (λ o so.
      Ensures-bind env base (IsSound env) Anything (some_or o contact_not_found) _
        (Ensures-some_or env base o contact_not_found so)
        (λ c sc.
          Ensures-bind env base (λ c'. refused_deleted c' ≡ true) Anything
            (or_raise (step c) contact_incorrect_status) _
            (Ensures-or_raise env base (λ c'. refused_deleted c' ≡ true) (step c)
              contact_incorrect_status (λ c' e. k c c' sc.1 e))
            (λ c' d. Ensures-save env base save_contact false c' d)))

  accept-keeps : KeepsRefusal accept
  unfolding accept
  accept-keeps c c' d e = ground arith

  reject-keeps : (now : ℕ) → KeepsRefusal (reject now)
  unfolding reject
  reject-keeps now c c' d e = ground arith

  confirm-keeps : KeepsRefusal confirm
  unfolding confirm
  confirm-keeps c c' d e = ground arith

  unconfirm-keeps : KeepsRefusal unconfirm
  unfolding unconfirm
  unconfirm-keeps c c' d e = ground arith

  change_status-keeps : (target : ContactStatus) → KeepsRefusal (change_status env target)
  unfolding change_status accept reject confirm
  change_status-keeps target c c' d e = ground arith

  pub update_pub_key-keeps :
      (pk : String) (c : Contact)
      → refused_deleted c ≡ true
      → refused_deleted (update_pub_key pk c).0 ≡ true
  unfolding update_pub_key
  update_pub_key-keeps pk c d = ground arith

  -- A chain whose first step returns something of no matter.
  pub Ensures-then :
      {A B : Type 0} (m : Action A) (f : A → Action B)
      → Ensures env base Anything m
      → ((a : A) → Ensures env base Anything (f a))
      → Ensures env base Anything (m >>= f)
  Ensures-then m f hm hf = Ensures-bind env base Anything Anything m f hm (λ a q. hf a)

  -- Save a contact and return it.
  pub Ensures-save_pure :
      {A : Type 0} (e : ContactError) (is_new : Bool) (m : Contact) (a : A)
      → refused_deleted m ≡ true
      → Ensures env base Anything (save_or env e is_new m >>= λ u. pure a)
  Ensures-save_pure e is_new m a d =
      Ensures-then (save_or env e is_new m) (λ u. pure a) (Ensures-save env base e is_new m d)
        (λ u. Ensures-pure env base Anything a tt)

  -- Look up a contact and go on with it.
  pub Ensures-with :
      {B : Type 0} (get : Action (Option Contact)) (f : Contact → Action B)
      → Ensures env base (SoundOption env) get
      → ((c : Contact) → refused_deleted c ≡ true → Ensures env base Anything (f c))
      → Ensures env base Anything (get >>= λ o. some_or o contact_not_found >>= f)
  Ensures-with get f g h = Ensures-bind env base (SoundOption env) Anything get _ g (λ o so.
      Ensures-bind env base (IsSound env) Anything (some_or o contact_not_found) f
        (Ensures-some_or env base o contact_not_found so) (λ c sc. h c sc.1))

  pub accept_contact-Ensures :
      (xpub paymail : String) → Ensures env base Anything (accept_contact env xpub paymail)
  unfolding accept_contact
  accept_contact-Ensures xpub paymail =
      Ensures-change (get_contact env paymail xpub) accept (Ensures-get env base paymail xpub)
        accept-keeps

  pub reject_contact-Ensures :
      (xpub paymail : String) → Ensures env base Anything (reject_contact env xpub paymail)
  unfolding reject_contact
  reject_contact-Ensures xpub paymail =
      Ensures-change (get_contact env paymail xpub) (reject env.now)
        (Ensures-get env base paymail xpub) (reject-keeps env.now)

  pub confirm_contact-Ensures :
      (xpub paymail : String) → Ensures env base Anything (confirm_contact_of env xpub paymail)
  unfolding confirm_contact_of
  confirm_contact-Ensures xpub paymail =
      Ensures-change (get_contact env paymail xpub) confirm (Ensures-get env base paymail xpub)
        confirm-keeps

  pub unconfirm_contact-Ensures :
      (xpub paymail : String) → Ensures env base Anything (unconfirm_contact env xpub paymail)
  unfolding unconfirm_contact
  unconfirm_contact-Ensures xpub paymail =
      Ensures-change (get_contact env paymail xpub) unconfirm (Ensures-get env base paymail xpub)
        unconfirm-keeps

  pub admin_unconfirm-Ensures :
      (id : String) → Ensures env base Anything (admin_unconfirm_contact env id)
  unfolding admin_unconfirm_contact
  admin_unconfirm-Ensures id =
      Ensures-change (get_contact_by_id env id) unconfirm (Ensures-get_by_id env base id)
        unconfirm-keeps

  pub admin_change-Ensures :
      (id : String) (target : ContactStatus)
      → Ensures env base Anything (admin_change_contact_status env id target)
  unfolding admin_change_contact_status
  admin_change-Ensures id target =
      Ensures-with (get_contact_by_id env id) _ (Ensures-get_by_id env base id) (λ c d.
        Ensures-bind env base (λ c'. refused_deleted c' ≡ true) Anything
          (lift (change_status env target c)) _
          (Ensures-lift env base (λ c'. refused_deleted c' ≡ true) (change_status env target c)
            (λ c' e. change_status-keeps target c c' d e))
          (λ c' d'. Ensures-save_pure update_contact false c' c' d'))

  pub delete-Ensures :
      (get : Action (Option Contact))
      → Ensures env base (SoundOption env) get
      → Ensures env base Anything (
          get >>= λ o.
          some_or o contact_not_found >>= λ c. save_or env save_contact false (delete env.now c))
  unfolding delete
  delete-Ensures get g =
      Ensures-with get _ g
        (λ c d. Ensures-save env base save_contact false (delete env.now c) (ground arith))

  pub update-Ensures :
      (id name : String) (metadata : Metadata)
      → Ensures env base Anything (update env id name metadata)
  unfolding update
  update-Ensures id name metadata =
      Ensures-with (get_contact_by_id env id) _ (Ensures-get_by_id env base id) (λ c d.
        let renamed : Contact = record c { full_name = name; metadata = metadata } in
        Ensures-save_pure save_contact false renamed renamed d)
