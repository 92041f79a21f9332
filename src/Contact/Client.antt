-- ===== src/Contact/Client.antt =====
-- The contact actions of engine/action_contact.go. Log calls are left out.
use spv_wallet.Prelude.{true, false, not, String, Option, none, some, [], ◌∷◌, ◌=?◌, if◌then◌else◌}
use spv_wallet.Prelude.Results.{Result, ok, err}
use spv_wallet.Contact.Model.{
  ContactStatus, not_confirmed, await_accept, confirmed, rejected, other, ContactError,
  contact_not_found, contact_incorrect_status, contact_already_exists, save_contact, update_contact,
  requested_contact_invalid, getting_pki_failed, adding_contact_request, invalid_requester_xpub,
  more_than_one_paymail, missing_contact_paymail_param, missing_contact_full_name,
  missing_contact_creator_paymail, could_not_find_paymail, could_not_find_xpub, panicked,
  retrieve_paymail_info, get_contact_failed, contacts_not_found, confirm_contact,
  invalid_contact_paymail, Metadata, set_options, Contact, new_contact, accept, reject, confirm,
  unconfirm, delete, update_pub_key,
}
use spv_wallet.Contact.Store.{
  PaymailAddress, Env, Action, pure, raise, lift, or_raise, some_or, rename, ◌>>=◌, ◌>>◌, raise_if,
  get_contact, get_contact_by_id, save_or,
}

module _ (env : Env) where
  open env use {
    sanitize_email, is_blank, valid_paymail, sanitized_address, pki, send_contact_request,
    paymail_address, paymails_of, xpub_by_id, now, uuid,
  }

  -- `AddContactRequest` after the look-up of the contact.
  unfoldable pub refresh_or_invite :
      String → String → String → Metadata → String → Option Contact → Action Contact
  refresh_or_invite full_name address requester metadata pub_key (some contact) =
      let (updated, changed) = update_pub_key pub_key contact in
      if changed then save_or env save_contact false updated >> pure updated else pure updated
  refresh_or_invite full_name address requester metadata pub_key none =
      let contact =
        new_contact sanitize_email uuid full_name address pub_key requester await_accept metadata in
      save_or env save_contact true contact >> pure contact

  -- `AddContactRequest`
  unfoldable pub add_contact_request : String → String → String → Metadata → Action Contact
  unfolding refresh_or_invite
  add_contact_request full_name address requester metadata = do
    raise_if (not (valid_paymail address)) requested_contact_invalid
    pub_key ← some_or (pki (sanitized_address address)) getting_pki_failed
    found ← get_contact env (sanitized_address address) requester
    refresh_or_invite full_name (sanitized_address address) requester metadata pub_key found

  -- The private `upsertContact` after the look-up of the contact.
  unfoldable pub insert_or_update :
      String → String → String → Metadata → String → Option Contact → Action Contact
  insert_or_update requester full_name address metadata pub_key none =
      let contact =
        new_contact sanitize_email uuid full_name address pub_key requester not_confirmed
          metadata in
      save_or env save_contact true contact >> pure contact
  insert_or_update requester full_name address metadata pub_key (some contact) =
      let named : Contact = record contact {
        full_name = full_name;
        metadata = set_options metadata contact.metadata;
      } in
      let (updated, changed) = update_pub_key pub_key named in
      save_or env save_contact false updated >> pure updated

  -- The private `upsertContact`.
  unfoldable pub upsert : String → String → String → Metadata → Action Contact
  unfolding insert_or_update
  upsert requester full_name address metadata = do
    pub_key ← some_or (pki address) getting_pki_failed
    found ← get_contact env address requester
    insert_or_update requester full_name address metadata pub_key found

  -- `GetPaymailAddress` of engine/action_paymails.go.
  unfoldable pub get_paymail_address : String → Result ContactError PaymailAddress
  get_paymail_address address = elim (paymail_address address) [
    | err e ↦ err e
    | ok none ↦ err could_not_find_paymail
    | ok (some p) ↦ ok p
  ]

  -- `getPaymail`
  unfoldable pub get_paymail : String → String → Result ContactError PaymailAddress
  get_paymail xpub address =
      if not (address =? "")
      then elim (get_paymail_address address) [
        | err e ↦ err e
        | ok p ↦ if not (p.xpub_id =? xpub) then err invalid_requester_xpub else ok p
      ]
      else elim (paymails_of xpub) [
        | err e ↦ err e
        | ok [] ↦ err invalid_requester_xpub
        | ok (p ∷ []) ↦ ok p
        | ok (p ∷ q ∷ rest) ↦ err more_than_one_paymail
      ]

  -- `UpsertContact`. When the invitation of the other host fails the contact stays saved.
  unfoldable pub upsert_contact : String → String → String → String → Metadata → Action Contact
  upsert_contact full_name address requester requester_address metadata = do
    requester_paymail ← lift (get_paymail requester requester_address)
    raise_if (not (valid_paymail address)) invalid_contact_paymail
    contact ← upsert requester full_name (sanitized_address address) metadata
    raise_if
        (not (
          send_contact_request (sanitized_address address) requester_paymail.public_name
            requester_paymail.address))
        adding_contact_request
    pure contact

  -- `UpdateContact`; the metadata is not a nil pointer.
  unfoldable pub update : String → String → Metadata → Action Contact
  update id full_name metadata = do
    contact ← some_or (← get_contact_by_id env id) contact_not_found
    let renamed = record contact { full_name = full_name; metadata = metadata }
    save_or env save_contact false renamed
    pure renamed

  -- `validateNewContactReqFields`
  unfoldable pub validate_new_contact_req_fields : String → String → Result ContactError (Unit {0})
  validate_new_contact_req_fields full_name creator =
      if is_blank full_name
      then err missing_contact_full_name
      else if is_blank creator
      then err missing_contact_creator_paymail
      else ok tt

  -- `AdminCreateContact` after the look-up of a duplicate; the model is not marked as new.
  unfoldable pub create_unless :
      String → String → String → Metadata → String → Option Contact → Action Contact
  create_unless full_name address owner metadata pub_key (some duplicate) =
      raise contact_already_exists
  create_unless full_name address owner metadata pub_key none =
      let contact =
        new_contact sanitize_email uuid full_name address pub_key owner not_confirmed metadata in
      save_or env save_contact false contact >> pure contact

  -- `AdminCreateContact`. `getXpubByID` may return `nil, nil`; `creatorXPub.ID` then panics.
  unfoldable pub admin_create_contact : String → String → String → Metadata → Action Contact
  unfolding create_unless
  admin_create_contact contact_paymail creator full_name metadata = do
    raise_if (contact_paymail =? "") missing_contact_paymail_param
    lift (validate_new_contact_req_fields full_name creator)
    creator_found ← or_raise (paymail_address creator) could_not_find_paymail
    creator_address ← some_or creator_found could_not_find_paymail
    xpub_found ← or_raise (xpub_by_id creator_address.xpub_id) could_not_find_xpub
    raise_if (not (valid_paymail contact_paymail)) invalid_contact_paymail
    pub_key ← some_or (pki (sanitized_address contact_paymail)) getting_pki_failed
    creator_xpub ← some_or xpub_found panicked
    duplicate ← get_contact env contact_paymail creator_xpub
    create_unless full_name contact_paymail creator_xpub metadata pub_key duplicate

  -- The `switch` of `AdminChangeContactStatus`.
  unfoldable pub change_status : ContactStatus → Contact → Result ContactError Contact
  change_status not_confirmed contact = accept contact
  change_status rejected contact = reject now contact
  change_status confirmed contact = confirm contact
  change_status await_accept contact = err contact_incorrect_status
  change_status (other s) contact = err contact_incorrect_status

  unfoldable pub admin_change_contact_status : String → ContactStatus → Action Contact
  admin_change_contact_status id status = do
    contact ← some_or (← get_contact_by_id env id) contact_not_found
    changed ← lift (change_status status contact)
    save_or env update_contact false changed
    pure changed

  unfoldable pub delete_contact_by_id : String → Action (Unit {0})
  delete_contact_by_id id = do
    contact ← some_or (← get_contact_by_id env id) contact_not_found
    save_or env save_contact false (delete now contact)

  unfoldable pub admin_unconfirm_contact : String → Action (Unit {0})
  admin_unconfirm_contact id = do
    contact ← some_or (← get_contact_by_id env id) contact_not_found
    changed ← or_raise (unconfirm contact) contact_incorrect_status
    save_or env save_contact false changed

  unfoldable pub delete_contact : String → String → Action (Unit {0})
  delete_contact xpub paymail = do
    contact ← some_or (← get_contact env paymail xpub) contact_not_found
    save_or env save_contact false (delete now contact)

  unfoldable pub accept_contact : String → String → Action (Unit {0})
  accept_contact xpub paymail = do
    contact ← some_or (← get_contact env paymail xpub) contact_not_found
    changed ← or_raise (accept contact) contact_incorrect_status
    save_or env save_contact false changed

  unfoldable pub reject_contact : String → String → Action (Unit {0})
  reject_contact xpub paymail = do
    contact ← some_or (← get_contact env paymail xpub) contact_not_found
    changed ← or_raise (reject now contact) contact_incorrect_status
    save_or env save_contact false changed

  unfoldable pub confirm_contact_of : String → String → Action (Unit {0})
  confirm_contact_of xpub paymail = do
    contact ← some_or (← get_contact env paymail xpub) contact_not_found
    changed ← or_raise (confirm contact) contact_incorrect_status
    save_or env save_contact false changed

  unfoldable pub unconfirm_contact : String → String → Action (Unit {0})
  unconfirm_contact xpub paymail = do
    contact ← some_or (← get_contact env paymail xpub) contact_not_found
    changed ← or_raise (unconfirm contact) contact_incorrect_status
    save_or env save_contact false changed

  -- `retrieveContactsForConfirmation`; the error is the one that the caller wraps.
  unfoldable pub retrieve_contacts_for_confirmation :
      String → String → String → String → Action (Contact × Contact)
  retrieve_contacts_for_confirmation paymail_a paymail_b xpub_a xpub_b = do
    contact_a ← some_or (← get_contact env paymail_b xpub_a) contacts_not_found
    contact_b ← some_or (← get_contact env paymail_a xpub_b) contacts_not_found
    pure (contact_a, contact_b)

  -- `confirmContactsInDbTx`: each save opens and commits a transaction of its own, and the outer
  -- one writes nothing.
  unfoldable pub confirm_contacts_in_db_tx : Contact → Contact → Action (Unit {0})
  confirm_contacts_in_db_tx contact_a contact_b = do
    save_or env confirm_contact false (record contact_a { status = confirmed })
    save_or env confirm_contact false (record contact_b { status = confirmed })

  -- `AdminConfirmContacts`
  unfoldable pub admin_confirm_contacts : String → String → Action (Unit {0})
  admin_confirm_contacts paymail_a paymail_b = do
    info_a ← or_raise (get_paymail_address paymail_a) retrieve_paymail_info
    info_b ← or_raise (get_paymail_address paymail_b) retrieve_paymail_info
    pair ←
        rename get_contact_failed
          (retrieve_contacts_for_confirmation paymail_a paymail_b info_a.xpub_id info_b.xpub_id)
    confirm_contacts_in_db_tx pair.0 pair.1
