-- ===== src/Contact/Store.antt =====
-- The table of contacts and what the client asks of the datastore: engine/model_save.go,
-- engine/datastore/models.go and the queries of engine/model_contact.go. A save runs the hook
-- `BeforeCreating` or `BeforeUpdating`, which validates, and then writes the row. The columns
-- `id`, `xpub_id` and `pub_key` are declared `<-:create`: an update does not write them. (The other
-- tags read `<-create`, without the colon, which does not restrict a column.)
use spv_wallet.Prelude.{
  ℕ, Bool, true, false, ◌&&◌, String, Option, none, some, List, [], ◌∷◌, ◌++◌, ◌=?◌, any, is_none,
  if◌then◌else◌,
}
use spv_wallet.Prelude.Results.{Result, ok, err}
use spv_wallet.Contact.Model.{ContactError, database, Contact, validate}

-- A registered paymail address, as the contact actions read it.
pub record PaymailAddress : Type 0 where
  pub xpub_id : String
  pub public_name : String
  pub address : String

-- What the actions call outside of the contacts: the go-paymail library, the paymail hosts, the
-- tables of paymails and xpubs, the clock and uuid, and whether the
-- database fails to read, or to save the contact of an id.
pub record Env : Type 0 where
  pub to_lower : String → String
  pub sanitize_email : String → String
  pub is_blank : String → Bool
  pub valid_paymail : String → Bool
  pub sanitized_address : String → String
  pub pki : String → Option String
  pub send_contact_request : String → String → String → Bool
  pub paymail_address : String → Result ContactError (Option PaymailAddress)
  pub paymails_of : String → Result ContactError (List PaymailAddress)
  pub xpub_by_id : String → Result ContactError (Option String)
  pub now : ℕ
  pub uuid : String
  pub get_fails : Bool
  pub save_fails : String → Bool

abbrev pub Table : Type 0
Table = List Contact

abbrev pub Action : Type 0 → Type 0
Action A = Table → Result ContactError A × Table

module _ {A : Type 0} where
  abbrev pub pure : A → Action A
  pure a t = (ok a, t)

  abbrev pub raise : ContactError → Action A
  raise e t = (err e, t)

  abbrev pub lift : Result ContactError A → Action A
  lift r t = (r, t)

  -- `if err != nil { return e }`
  abbrev pub or_raise : Result ContactError A → ContactError → Action A
  or_raise (ok a) e t = (ok a, t)
  or_raise (err d) e t = (err e, t)

  -- `if err != nil { return e }` after an action
  abbrev pub rename : ContactError → Action A → Action A
  rename e m t = let (r, t') = m t in (elim r [ ok a ↦ ok a | err d ↦ err e ], t')

  -- `if x == nil { return e }`
  abbrev pub some_or : Option A → ContactError → Action A
  some_or none e = raise e
  some_or (some a) e = pure a

infixl 5 ◌>>=◌ ◌>>◌
abbrev pub ◌>>=◌ : {A B : Type 0} → Action A → (A → Action B) → Action B
◌>>=◌ m f t = let (r, t') = m t in elim r [ ok a ↦ f a t' | err e ↦ raise e t' ]

abbrev pub ◌>>◌ : {A B : Type 0} → Action A → Action B → Action B
m >> k = m >>= λ _. k

abbrev pub raise_if : Bool → ContactError → Action (Unit {0})
raise_if c e t = (if c then err e else ok tt, t)

unfoldable pub find : (Contact → Bool) → Table → Option Contact
find p [] = none
find p (r ∷ t) = if p r then some r else find p t

-- What an update writes over the stored row.
abbrev pub merged : Contact → Contact → Contact
merged stored m = record m {
  id = stored.id;
  owner_xpub_id = stored.owner_xpub_id;
  pub_key = stored.pub_key;
}

unfoldable pub update_row : Contact → Table → Table
update_row m [] = []
update_row m (r ∷ t) = if r.id =? m.id then merged r m ∷ t else r ∷ update_row m t

abbrev pub has_id : String → Table → Bool
has_id id t = any (λ r. r.id =? id) t

-- gorm's `Create` of a new record, and `Save` of another, which inserts where no row is updated.
unfoldable pub write : Bool → Contact → Table → Result ContactError Table
write true m t = if has_id m.id t then err database else ok (t ++ m ∷ [])
write false m t = if has_id m.id t then ok (update_row m t) else ok (t ++ m ∷ [])

module _ (env : Env) where
  open env use {to_lower, valid_paymail, get_fails, save_fails}

  unfoldable pub get_contact : String → String → Action (Option Contact)
  get_contact paymail owner t = if get_fails then (err database, t) else (
    ok (
        find
          (λ r.
            (r.owner_xpub_id =? owner) && (r.paymail =? to_lower paymail) && is_none r.deleted_at)
          t),
    t,
  )

  unfoldable pub get_contact_by_id : String → Action (Option Contact)
  get_contact_by_id id t =
      if get_fails then (err database, t) else (ok (find (λ r. r.id =? id) t), t)

  -- `Save`: the hook, then the write, in a transaction.
  unfoldable pub save : Bool → Contact → Table → Result ContactError (Unit {0}) × Table
  save is_new m t = elim (validate valid_paymail m) [
    | err e ↦ (err e, t)
    | ok _ ↦
        if save_fails m.id
        then (err database, t)
        else elim (write is_new m t) [ ok t' ↦ (ok tt, t') | err e ↦ (err e, t) ]
  ]

  -- `if err = contact.Save(ctx); err != nil { return e }`
  unfoldable pub save_or : ContactError → Bool → Contact → Action (Unit {0})
  save_or e is_new m t =
      let (r, t') = save is_new m t in (elim r [ ok u ↦ ok u | err d ↦ err e ], t')
