-- ===== src/Contact/Invitations.antt =====
-- The invariant of the table through the actions that create contacts and through the
-- confirmation of two contacts by the admin.
use spv_wallet.Prelude.{
  ◌≡◌, refl, Bool, true, false, not, String, Option, none, some, ◌=?◌, inl, inr, Bool-cases,
}
use spv_wallet.Contact.Model.{
  ContactStatus, not_confirmed, await_accept, confirmed, ContactError, requested_contact_invalid,
  getting_pki_failed, save_contact, missing_contact_paymail_param, could_not_find_paymail,
  could_not_find_xpub, panicked, get_contact_failed, confirm_contact, contacts_not_found,
  retrieve_paymail_info, contact_already_exists, Metadata, set_options, Contact, new_contact,
  update_pub_key, invalid_contact_paymail, adding_contact_request,
}
use spv_wallet.Contact.Store.{
  Env, Table, Action, pure, raise, lift, or_raise, some_or, rename, ◌>>=◌, raise_if, get_contact,
  save_or,
}
use spv_wallet.Contact.Client.{
  refresh_or_invite, add_contact_request, insert_or_update, upsert, create_unless, get_paymail,
  upsert_contact, admin_create_contact, validate_new_contact_req_fields, confirm_contacts_in_db_tx,
  retrieve_contacts_for_confirmation, admin_confirm_contacts, get_paymail_address,
}
use spv_wallet.Contact.Validity.{refused_deleted, SoundOption, Anything}
use spv_wallet.Contact.Triples.{
  Ensures, Ensures-bind, Ensures-pure, Ensures-lift, Ensures-or_raise, Ensures-found, Ensures-guard,
  Ensures-get, Ensures-save,
}
use spv_wallet.Contact.Actions.{Ensures-then, Ensures-save_pure, update_pub_key-keeps}

module _ (env : Env) (base : Table) where
  Ensures-raise : {A : Type 0} (e : ContactError) → Ensures env base (Anything {A = A}) (raise e)
  Ensures-raise e t s = (s, λ b h. tt)

  saved_new :
      (is_new : Bool) (name address key owner : String) (status : ContactStatus)
      (metadata : Metadata)
      → refused_deleted
          (new_contact env.sanitize_email env.uuid name address key owner status metadata)
        ≡ true
      → let c = new_contact env.sanitize_email env.uuid name address key owner status metadata in
        Ensures env base
          (Anything {A = Contact})
          (save_or env save_contact is_new c >>= λ u. pure c)
  saved_new is_new name address key owner status metadata d =
      let c = new_contact env.sanitize_email env.uuid name address key owner status metadata in
      Ensures-save_pure env base save_contact is_new c c d

  refresh_or_invite-Ensures :
      (name address requester : String) (metadata : Metadata) (key : String) (o : Option Contact)
      → SoundOption env o
      → Ensures env base Anything (refresh_or_invite env name address requester metadata key o)
  unfolding refresh_or_invite new_contact
  refresh_or_invite-Ensures name address requester metadata key (some c) so =
      let (updated, changed) = update_pub_key key c in
      elim (Bool-cases changed) [
        | inl yes_changed ↦ rw yes_changed (
            Ensures-save_pure env base save_contact false updated updated
              (update_pub_key-keeps env base key c so.1))
        | inr no_change ↦ rw no_change (Ensures-pure env base Anything updated tt)
      ]
  refresh_or_invite-Ensures name address requester metadata key none so =
      saved_new true name address key requester await_accept metadata refl

  pub add_contact_request-Ensures :
      (name address requester : String) (metadata : Metadata)
      → Ensures env base Anything (add_contact_request env name address requester metadata)
  unfolding add_contact_request
  add_contact_request-Ensures name address requester metadata =
      Ensures-then env base (raise_if (not (env.valid_paymail address)) requested_contact_invalid) _
        (Ensures-guard env base (not (env.valid_paymail address)) requested_contact_invalid)
        (λ u.
          Ensures-then env base
            (some_or (env.pki (env.sanitized_address address)) getting_pki_failed) _
            (Ensures-found env base (env.pki (env.sanitized_address address)) getting_pki_failed)
            (λ key.
              Ensures-bind env base (SoundOption env) Anything
                (get_contact env (env.sanitized_address address) requester)
                (refresh_or_invite env name (env.sanitized_address address) requester metadata key)
                (Ensures-get env base (env.sanitized_address address) requester)
                (refresh_or_invite-Ensures name (env.sanitized_address address) requester metadata
                  key)))

  insert_or_update-Ensures :
      (requester name address : String) (metadata : Metadata) (key : String) (o : Option Contact)
      → SoundOption env o
      → Ensures env base Anything (insert_or_update env requester name address metadata key o)
  unfolding insert_or_update new_contact
  insert_or_update-Ensures requester name address metadata key none so =
      saved_new true name address key requester not_confirmed metadata refl
  insert_or_update-Ensures requester name address metadata key (some c) so =
      let named : Contact = record c {
        full_name = name;
        metadata = set_options metadata c.metadata;
      } in
      let updated = (update_pub_key key named).0 in
      Ensures-save_pure env base save_contact false updated updated
        (update_pub_key-keeps env base key named so.1)

  upsert-Ensures :
      (requester name address : String) (metadata : Metadata)
      → Ensures env base Anything (upsert env requester name address metadata)
  unfolding upsert
  upsert-Ensures requester name address metadata =
      Ensures-then env base (some_or (env.pki address) getting_pki_failed) _
        (Ensures-found env base (env.pki address) getting_pki_failed)
        (λ key.
          Ensures-bind env base (SoundOption env) Anything (get_contact env address requester)
            (insert_or_update env requester name address metadata key)
            (Ensures-get env base address requester)
            (insert_or_update-Ensures requester name address metadata key))

  pub upsert_contact-Ensures :
      (name address requester requester_address : String) (metadata : Metadata)
      → Ensures env base Anything
          (upsert_contact env name address requester requester_address metadata)
  unfolding upsert_contact
  upsert_contact-Ensures name address requester requester_address metadata =
      Ensures-then env base (lift (get_paymail env requester requester_address)) _
        (Ensures-lift env base Anything _ (λ a e. tt))
        (λ p.
          Ensures-then env base (raise_if (not (env.valid_paymail address)) invalid_contact_paymail)
            _ (Ensures-guard env base (not (env.valid_paymail address)) invalid_contact_paymail)
            (λ u.
              Ensures-then env base
                (upsert env requester name (env.sanitized_address address) metadata) _
                (upsert-Ensures requester name (env.sanitized_address address) metadata)
                (λ c.
                  Ensures-then env base _ (λ v. pure c)
                    (Ensures-guard env base
                      (not (
                        env.send_contact_request (env.sanitized_address address) p.public_name
                          p.address))
                      adding_contact_request)
                    (λ v. Ensures-pure env base Anything c tt))))

  create_unless-Ensures :
      (name address owner : String) (metadata : Metadata) (key : String) (o : Option Contact)
      → Ensures env base Anything (create_unless env name address owner metadata key o)
  unfolding create_unless new_contact
  create_unless-Ensures name address owner metadata key (some c) =
      Ensures-raise {A = Contact} contact_already_exists
  create_unless-Ensures name address owner metadata key none =
      saved_new false name address key owner not_confirmed metadata refl

  create_for :
      (address name owner : String) (metadata : Metadata) (key : String)
      → Ensures env base Anything
          (get_contact env address owner >>= create_unless env name address owner metadata key)
  create_for address name owner metadata key =
      Ensures-bind env base (SoundOption env) Anything (get_contact env address owner)
        (create_unless env name address owner metadata key) (Ensures-get env base address owner)
        (λ o so. create_unless-Ensures name address owner metadata key o)

  pub admin_create_contact-Ensures :
      (address creator name : String) (metadata : Metadata)
      → Ensures env base Anything (admin_create_contact env address creator name metadata)
  unfolding admin_create_contact
  admin_create_contact-Ensures address creator name metadata =
      Ensures-then env base (raise_if (address =? "") missing_contact_paymail_param) _
        (Ensures-guard env base (address =? "") missing_contact_paymail_param)
        (λ u.
          Ensures-then env base (lift (validate_new_contact_req_fields env name creator)) _
            (Ensures-lift env base Anything _ (λ a e. tt))
            (λ v.
              Ensures-then env base (or_raise (env.paymail_address creator) could_not_find_paymail)
                _
                (Ensures-or_raise env base Anything (env.paymail_address creator)
                  could_not_find_paymail (λ a e. tt))
                (λ found.
                  Ensures-then env base (some_or found could_not_find_paymail) _
                    (Ensures-found env base found could_not_find_paymail)
                    (λ p.
                      Ensures-then env base
                        (or_raise (env.xpub_by_id p.xpub_id) could_not_find_xpub) _
                        (Ensures-or_raise env base Anything (env.xpub_by_id p.xpub_id)
                          could_not_find_xpub (λ a e. tt))
                        (λ xpub.
                          Ensures-then env base
                            (raise_if (not (env.valid_paymail address)) invalid_contact_paymail) _
                            (Ensures-guard env base (not (env.valid_paymail address))
                              invalid_contact_paymail)
                            (λ w.
                              Ensures-then env base
                                (some_or (env.pki (env.sanitized_address address))
                                  getting_pki_failed)
                                _
                                (Ensures-found env base (env.pki (env.sanitized_address address))
                                  getting_pki_failed)
                                (λ key.
                                  Ensures-then env base (some_or xpub panicked) _
                                    (Ensures-found env base xpub panicked)
                                    (λ owner. create_for address name owner metadata key))))))))

  confirm_contacts-Ensures :
      (a b : Contact) → Ensures env base Anything (confirm_contacts_in_db_tx env a b)
  unfolding confirm_contacts_in_db_tx
  confirm_contacts-Ensures a b =
      let a' : Contact = record a { status = confirmed } in
      let b' : Contact = record b { status = confirmed } in
      Ensures-then env base (save_or env confirm_contact false a')
        (λ u. save_or env confirm_contact false b')
        (Ensures-save env base confirm_contact false a' refl)
        (λ u. Ensures-save env base confirm_contact false b' refl)

  Ensures-rename :
      {A : Type 0} (e : ContactError) (m : Action A)
      → Ensures env base Anything m
      → Ensures env base Anything (rename e m)
  Ensures-rename e m h t s = ((h t s).0, λ a q. tt)

  retrieve-Ensures :
      (a b xa xb : String)
      → Ensures env base Anything (retrieve_contacts_for_confirmation env a b xa xb)
  unfolding retrieve_contacts_for_confirmation
  retrieve-Ensures a b xa xb =
      Ensures-bind env base (SoundOption env) Anything (get_contact env b xa) _
        (Ensures-get env base b xa)
        (λ o so.
          Ensures-then env base (some_or o contacts_not_found) _
            (Ensures-found env base o contacts_not_found)
            (λ c.
              Ensures-bind env base (SoundOption env) Anything (get_contact env a xb) _
                (Ensures-get env base a xb)
                (λ o' so'.
                  Ensures-then env base (some_or o' contacts_not_found) _
                    (Ensures-found env base o' contacts_not_found)
                    (λ c'.
                      let pair : Contact × Contact = (c, c') in
                      Ensures-pure env base Anything pair tt))))

  pub admin_confirm_contacts-Ensures :
      (a b : String) → Ensures env base Anything (admin_confirm_contacts env a b)
  unfolding admin_confirm_contacts
  admin_confirm_contacts-Ensures a b =
      Ensures-then env base (or_raise (get_paymail_address env a) retrieve_paymail_info) _
        (Ensures-or_raise env base Anything (get_paymail_address env a) retrieve_paymail_info
          (λ x e. tt))
        (λ p.
          Ensures-then env base (or_raise (get_paymail_address env b) retrieve_paymail_info) _
            (Ensures-or_raise env base Anything (get_paymail_address env b) retrieve_paymail_info
              (λ x e. tt))
            (λ q.
              Ensures-then env base
                (rename get_contact_failed
                  (retrieve_contacts_for_confirmation env a b p.xpub_id q.xpub_id))
                (λ pair. confirm_contacts_in_db_tx env pair.0 pair.1)
                (Ensures-rename get_contact_failed _ (retrieve-Ensures a b p.xpub_id q.xpub_id))
                (λ pair. confirm_contacts-Ensures pair.0 pair.1)))
