-- ===== src/Contact/Tests.antt =====
-- The contact actions on a small table.
use spv_wallet.Prelude.{
  ◌≡◌, ◌≢◌, =?_iff, ◌↔◌, refl, true, false, not, String, none, some, List, [], ◌∷◌, ◌=?◌,
}
use spv_wallet.Prelude.Results.{ok, err}
use spv_wallet.Contact.Model.{
  ContactStatus, not_confirmed, await_accept, confirmed, rejected, confirm_contact, Contact,
  validate, accept, reject, confirm, unconfirm,
}
use spv_wallet.Contact.Store.{Env, find}
use spv_wallet.Contact.Status.{◌⟶◌, Follows, Leads, methods-Follow, methods_reach_iff}
use spv_wallet.Contact.Validity.{AllSound, Keeps}
use spv_wallet.Contact.Client.{
  accept_contact, reject_contact, confirm_contact_of, unconfirm_contact, delete_contact,
  delete_contact_by_id, admin_unconfirm_contact, confirm_contacts_in_db_tx,
}
use spv_wallet.Contact.Atomic.{IsAtomic, half_confirmed, status_actions-IsAtomic}
use spv_wallet.Contact.Requests.{
  Request, invite, accept_of, confirm_of, reject_of, SameRule, handle_all, requests_keep_contacts,
}

abbrev environment : String → Env
environment id = record {
  to_lower = λ s. s;
  sanitize_email = λ s. s;
  is_blank = λ s. s =? "";
  valid_paymail = λ s. not (s =? "");
  sanitized_address = λ s. s;
  pki = λ s. some "key";
  send_contact_request = λ a n s. true;
  paymail_address = λ s. ok none;
  paymails_of = λ s. ok [];
  xpub_by_id = λ s. ok (some s);
  now = 7;
  uuid = id;
  get_fails = false;
  save_fails = λ s. false;
}

abbrev carol : ContactStatus → Contact
carol s = record {
  id = "1";
  owner_xpub_id = "xpub";
  full_name = "Carol";
  paymail = "carol@host";
  pub_key = "old key";
  status = s;
  metadata = [];
  deleted_at = none;
}

methods-Follow_example :
    let m = carol await_accept in
    Follows m (accept m) × Follows m (reject 3 m) × Follows m (confirm m) × Follows m (unconfirm m)
methods-Follow_example = methods-Follow 3 (carol await_accept)

methods_reach_iff_example : (await_accept ⟶ rejected) ↔ Leads 3 (carol await_accept) rejected
methods_reach_iff_example = methods_reach_iff 3 (carol await_accept) rejected

abbrev requests : List (Env × Request)
requests =
    (environment "2", invite "Dave" "dave@host" "xpub" [])
    ∷ (environment "3", accept_of "xpub" "carol@host")
    ∷ (environment "4", confirm_of "xpub" "carol@host")
    ∷ (environment "5", reject_of "xpub" "dave@host")
    ∷ []

carol-AllSound : AllSound (environment "1") (carol await_accept ∷ [])
unfolding validate
carol-AllSound = ((refl, refl), tt)

one_rule : SameRule (environment "1") requests
one_rule = (refl, (refl, (refl, (refl, tt))))

requests_keep_contacts_example :
    AllSound (environment "1") (handle_all requests (carol await_accept ∷ []))
    × Keeps (carol await_accept ∷ []) (handle_all requests (carol await_accept ∷ []))
requests_keep_contacts_example =
    requests_keep_contacts (environment "1") requests (carol await_accept ∷ []) one_rule
      carol-AllSound

abbrev no_bob : Env
no_bob = record (environment "1") { save_fails = λ s. s =? "2" }

abbrev bob : Contact
bob = record (carol not_confirmed) {
  id = "2";
  owner_xpub_id = "xpub of carol";
  paymail = "bob@host";
}

carol_validates :
    validate no_bob.valid_paymail (record (carol not_confirmed) { status = confirmed }) ≡ ok tt
unfolding validate
carol_validates = refl

other_id : (carol not_confirmed).id ≢ bob.id
other_id = λ e. let h : ("1" =? "2") ≡ true = (=?_iff "1" "2").1 e in cc

half_confirmed_example :
    let t = carol not_confirmed ∷ bob ∷ [] in
    let (r, after) = confirm_contacts_in_db_tx no_bob (carol not_confirmed) bob t in
    (r ≡ err confirm_contact)
    × ((row : Contact) × (find (λ x. x.id =? "1") after ≡ some row) × (row.status ≡ confirmed))
    × (find (λ x. x.id =? "2") after ≡ find (λ x. x.id =? "2") t)
half_confirmed_example =
    half_confirmed no_bob (carol not_confirmed) bob (carol not_confirmed ∷ bob ∷ []) carol_validates
      refl refl refl other_id

status_actions-IsAtomic_example :
    let env = environment "1" in
    IsAtomic (accept_contact env "xpub" "carol@host")
    × IsAtomic (reject_contact env "xpub" "carol@host")
    × IsAtomic (confirm_contact_of env "xpub" "carol@host")
    × IsAtomic (unconfirm_contact env "xpub" "carol@host")
    × IsAtomic (delete_contact env "xpub" "carol@host")
    × IsAtomic (delete_contact_by_id env "1")
    × IsAtomic (admin_unconfirm_contact env "1")
status_actions-IsAtomic_example = status_actions-IsAtomic (environment "1") "xpub" "carol@host" "1"
