-- ===== src/Contact/Requests.antt =====
-- The actions as requests, and what holds after any sequence of them.
use spv_wallet.Prelude.{map, ◌≡◌, sym, All, true, String, List, [], ◌∷◌}
use mathlib.Core.Path.{subst}
use spv_wallet.Prelude.Results.{ok}
use spv_wallet.Contact.Model.{ContactStatus, Metadata, Contact, validate}
use spv_wallet.Contact.Store.{Env, Table, get_contact, get_contact_by_id}
use spv_wallet.Contact.Client.{
  add_contact_request, upsert_contact, update, admin_create_contact, admin_change_contact_status,
  delete_contact_by_id, admin_unconfirm_contact, delete_contact, accept_contact, reject_contact,
  confirm_contact_of, unconfirm_contact, admin_confirm_contacts,
}
use spv_wallet.Contact.Validity.{refused_deleted, AllSound, Keeps, fixed_columns}
use spv_wallet.Contact.Triples.{IsSoundTable, Ensures-get, Ensures-get_by_id}
use mathlib.Core.List.{append-nil}
use spv_wallet.Contact.Actions.{
  accept_contact-Ensures, reject_contact-Ensures, confirm_contact-Ensures,
  unconfirm_contact-Ensures, admin_unconfirm-Ensures, admin_change-Ensures, delete-Ensures,
  update-Ensures,
}
use spv_wallet.Contact.Invitations.{
  add_contact_request-Ensures, upsert_contact-Ensures, admin_create_contact-Ensures,
  admin_confirm_contacts-Ensures,
}

pub data Request : Type 0 where
  invite : String → String → String → Metadata → Request
  upsert_by : String → String → String → String → Metadata → Request
  update_of : String → String → Metadata → Request
  create_by_admin : String → String → String → Metadata → Request
  change_by_admin : String → ContactStatus → Request
  delete_by_id unconfirm_by_admin : String → Request
  delete_of accept_of reject_of confirm_of unconfirm_of : String → String → Request
  confirm_both : String → String → Request

-- The table after a request.
unfoldable pub handle : Env → Request → Table → Table
handle env (invite name address owner m) t = (add_contact_request env name address owner m t).1
handle env (upsert_by name address owner own m) t =
    (upsert_contact env name address owner own m t).1
handle env (update_of id name m) t = (update env id name m t).1
handle env (create_by_admin address creator name m) t =
    (admin_create_contact env address creator name m t).1
handle env (change_by_admin id s) t = (admin_change_contact_status env id s t).1
handle env (delete_by_id id) t = (delete_contact_by_id env id t).1
handle env (unconfirm_by_admin id) t = (admin_unconfirm_contact env id t).1
handle env (delete_of xpub paymail) t = (delete_contact env xpub paymail t).1
handle env (accept_of xpub paymail) t = (accept_contact env xpub paymail t).1
handle env (reject_of xpub paymail) t = (reject_contact env xpub paymail t).1
handle env (confirm_of xpub paymail) t = (confirm_contact_of env xpub paymail t).1
handle env (unconfirm_of xpub paymail) t = (unconfirm_contact env xpub paymail t).1
handle env (confirm_both a b) t = (admin_confirm_contacts env a b t).1

-- Requests in turn, each in an environment of its own, with one rule for valid paymails.
unfoldable pub handle_all : List (Env × Request) → Table → Table
handle_all [] t = t
handle_all ((env, r) ∷ rest) t = handle_all rest (handle env r t)

handle-IsSoundTable :
    (env : Env) (base : Table) (r : Request) (t : Table)
    → IsSoundTable env base t
    → IsSoundTable env base (handle env r t)
unfolding handle delete_contact_by_id delete_contact
handle-IsSoundTable env base (invite name address owner m) t s =
    (add_contact_request-Ensures env base name address owner m t s).0
handle-IsSoundTable env base (upsert_by name address owner own m) t s =
    (upsert_contact-Ensures env base name address owner own m t s).0
handle-IsSoundTable env base (update_of id name m) t s = (update-Ensures env base id name m t s).0
handle-IsSoundTable env base (create_by_admin address creator name m) t s =
    (admin_create_contact-Ensures env base address creator name m t s).0
handle-IsSoundTable env base (change_by_admin id target) t s =
    (admin_change-Ensures env base id target t s).0
handle-IsSoundTable env base (delete_by_id id) t s =
    (delete-Ensures env base (get_contact_by_id env id) (Ensures-get_by_id env base id) t s).0
handle-IsSoundTable env base (unconfirm_by_admin id) t s =
    (admin_unconfirm-Ensures env base id t s).0
handle-IsSoundTable env base (delete_of xpub paymail) t s =
    (delete-Ensures env base (get_contact env paymail xpub) (Ensures-get env base paymail xpub) t
      s).0
handle-IsSoundTable env base (accept_of xpub paymail) t s =
    (accept_contact-Ensures env base xpub paymail t s).0
handle-IsSoundTable env base (reject_of xpub paymail) t s =
    (reject_contact-Ensures env base xpub paymail t s).0
handle-IsSoundTable env base (confirm_of xpub paymail) t s =
    (confirm_contact-Ensures env base xpub paymail t s).0
handle-IsSoundTable env base (unconfirm_of xpub paymail) t s =
    (unconfirm_contact-Ensures env base xpub paymail t s).0
handle-IsSoundTable env base (confirm_both a b) t s =
    (admin_confirm_contacts-Ensures env base a b t s).0

-- The environments share the rule for valid paymails.
abbrev pub SameRule : Env → List (Env × Request) → Type 0
SameRule first rs = All (λ (p : Env × Request). p.0.valid_paymail ≡ first.valid_paymail) rs

sound_under :
    (first env : Env) (t : Table)
    → env.valid_paymail ≡ first.valid_paymail
    → AllSound first t
    → AllSound env t
sound_under first env t e s =
    subst (λ v. All (λ (r : Contact). (validate v r ≡ ok tt) × (refused_deleted r ≡ true)) t)
      (sym e) s

handle_all-IsSoundTable :
    (first : Env) (base : Table) (rs : List (Env × Request)) (t : Table)
    → SameRule first rs
    → IsSoundTable first base t
    → IsSoundTable first base (handle_all rs t)
unfolding handle_all
handle_all-IsSoundTable first base [] t same s = s
handle_all-IsSoundTable first base ((env, r) ∷ rs) t same s =
    let next = handle-IsSoundTable env base r t (sound_under first env t same.0 s.0, s.1) in
    handle_all-IsSoundTable first base rs (handle env r t) same.1
      (sound_under env first (handle env r t) (sym same.0) next.0, next.1)

-- From a table where every contact is valid and every refused one is deleted, any sequence of
-- requests, in environments that differ in all but the rule for valid paymails, leads to a table
-- where this still holds, and where each contact of the first table still stands at its place with
-- its id, its owner and its public key.
pub requests_keep_contacts :
    (first : Env) (rs : List (Env × Request)) (t : Table)
    → SameRule first rs
    → AllSound first t
    → AllSound first (handle_all rs t) × Keeps t (handle_all rs t)
requests_keep_contacts first rs t same s =
    handle_all-IsSoundTable first t rs t same (s, ([], sym (append-nil (map fixed_columns t))))
