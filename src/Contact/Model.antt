-- ===== src/Contact/Model.antt =====
-- engine/model_contact.go and engine/model_contact_status.go: the record and its methods. A method
-- on `*Contact` returns the new record; the time of `time.Now()` is an argument.
use spv_wallet.Prelude.{
  ℕ, Bool, true, false, not, String, Option, none, some, List, [], ◌∷◌, ◌=?◌, if◌then◌else◌,
}
use spv_wallet.Prelude.Results.{Result, ok, err}

-- `ContactStatus`; `other` is any other text, the empty one included.
pub data ContactStatus : Type 0 where
  not_confirmed await_accept confirmed rejected : ContactStatus
  other : String → ContactStatus

pub data ContactError : Type 0 where
  missing_contact_id missing_contact_full_name invalid_contact_paymail : ContactError
  missing_contact_pub_key missing_contact_status missing_contact_owner : ContactError
  cannot_accept cannot_reject cannot_confirm cannot_unconfirm : ContactError
  contact_not_found contact_incorrect_status contact_already_exists : ContactError
  save_contact update_contact database : ContactError
  requested_contact_invalid getting_pki_failed adding_contact_request : ContactError
  invalid_requester_xpub more_than_one_paymail : ContactError
  missing_contact_paymail_param missing_contact_creator_paymail : ContactError
  could_not_find_paymail could_not_find_xpub panicked : ContactError
  retrieve_paymail_info get_contact_failed contacts_not_found confirm_contact : ContactError

abbrev pub Metadata : Type 0
Metadata = List (String × String)

-- `WithMetadata`: the key's value is set, the other keys stay.
unfoldable pub with_metadata : String → String → Metadata → Metadata
with_metadata key value [] = (key, value) ∷ []
with_metadata key value ((k, v) ∷ metadata) =
    let rest = with_metadata key value metadata in
    if k =? key then (key, value) ∷ metadata else (k, v) ∷ rest

-- `SetOptions` with one `WithMetadata` for each key.
unfoldable pub set_options : Metadata → Metadata → Metadata
set_options [] metadata = metadata
set_options ((key, value) ∷ opts) metadata = set_options opts (with_metadata key value metadata)

pub record Contact : Type 0 where
  pub id : String
  pub owner_xpub_id : String
  pub full_name : String
  pub paymail : String
  pub pub_key : String
  pub status : ContactStatus
  pub metadata : Metadata
  pub deleted_at : Option ℕ

unfoldable pub new_contact :
    (String → String)
    → String
    → String
    → String
    → String
    → String
    → ContactStatus
    → Metadata
    → Contact
new_contact sanitize_email uuid full_name paymail_address pub_key owner status metadata = record {
  id = uuid;
  owner_xpub_id = owner;
  full_name = full_name;
  paymail = sanitize_email paymail_address;
  pub_key = pub_key;
  status = status;
  metadata = metadata;
  deleted_at = none;
}

abbrev pub status_is_empty : ContactStatus → Bool
status_is_empty (other s) = s =? ""
status_is_empty s = false

-- `validate`; the result of `paymail.ValidatePaymail` is the test `valid`.
unfoldable pub validate : (String → Bool) → Contact → Result ContactError (Unit {0})
validate valid m =
    if m.id =? ""
    then err missing_contact_id
    else if m.full_name =? ""
    then err missing_contact_full_name
    else if not (valid m.paymail)
    then err invalid_contact_paymail
    else if m.pub_key =? ""
    then err missing_contact_pub_key
    else if status_is_empty m.status
    then err missing_contact_status
    else if m.owner_xpub_id =? ""
    then err missing_contact_owner
    else ok tt

abbrev pub is_await_accept : ContactStatus → Bool
is_await_accept await_accept = true
is_await_accept s = false

abbrev pub is_not_confirmed : ContactStatus → Bool
is_not_confirmed not_confirmed = true
is_not_confirmed s = false

abbrev pub is_confirmed : ContactStatus → Bool
is_confirmed confirmed = true
is_confirmed s = false

unfoldable pub accept : Contact → Result ContactError Contact
accept m =
    if not (is_await_accept m.status)
    then err cannot_accept
    else ok (record m { status = not_confirmed })

unfoldable pub reject : ℕ → Contact → Result ContactError Contact
reject now m =
    if not (is_await_accept m.status)
    then err cannot_reject
    else ok (record m { deleted_at = some now; status = rejected })

unfoldable pub confirm : Contact → Result ContactError Contact
confirm m =
    if not (is_not_confirmed m.status)
    then err cannot_confirm
    else ok (record m { status = confirmed })

unfoldable pub unconfirm : Contact → Result ContactError Contact
unconfirm m =
    if not (is_confirmed m.status)
    then err cannot_unconfirm
    else ok (record m { status = not_confirmed })

unfoldable pub delete : ℕ → Contact → Contact
delete now m = record m { deleted_at = some now }

-- The record, and whether the key was another one.
unfoldable pub update_pub_key : String → Contact → Contact × Bool
update_pub_key pk m =
    if not (m.pub_key =? pk)
    then (
      record m { pub_key = pk; status = if is_confirmed m.status then not_confirmed else m.status },
      true,
    )
    else (m, false)
