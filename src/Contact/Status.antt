-- ===== src/Contact/Status.antt =====
-- The status of a contact as a state machine: which steps the methods take.
use spv_wallet.Prelude.{ℕ, ◌≡◌, ◌↔◌, refl, ◌⊎◌, inl, inr, some, arith}
use spv_wallet.Prelude.Results.{Result, ok, err}
use spv_wallet.Contact.Model.{
  ContactStatus, not_confirmed, await_accept, confirmed, rejected, Contact, accept, reject, confirm,
  unconfirm,
}
use spv_wallet.Contact.Store.{Env}
use spv_wallet.Contact.Client.{change_status}

infix 40 ◌⟶◌
pub data ◌⟶◌ : ContactStatus → ContactStatus → Type 0 where
  accepted : await_accept ⟶ not_confirmed
  refused : await_accept ⟶ rejected
  verified : not_confirmed ⟶ confirmed
  doubted : confirmed ⟶ not_confirmed

-- What a method of the record may do: follow an edge, and leave the identity alone.
abbrev pub Follows : {E : Type 0} → Contact → Result E Contact → Type 0
Follows m (err e) = Unit
Follows m (ok m') =
    (m.status ⟶ m'.status)
    × (m'.id ≡ m.id)
    × (m'.owner_xpub_id ≡ m.owner_xpub_id)
    × (m'.pub_key ≡ m.pub_key)
    × (m'.paymail ≡ m.paymail)

ruleset edges = (accepted, refused, verified, doubted)

pub change_status-Follows :
    (env : Env) (target : ContactStatus) (m : Contact) → Follows m (change_status env target m)
unfolding change_status accept reject confirm
change_status-Follows env target m = grind (arith, edges)

-- Each of the four methods follows an edge of the status diagram and leaves the identity, the
-- owner, the key and the paymail of the contact alone, or returns an error.
pub methods-Follow :
    (now : ℕ) (m : Contact)
    → Follows m (accept m)
      × Follows m (reject now m)
      × Follows m (confirm m)
      × Follows m (unconfirm m)
unfolding accept reject confirm unconfirm
methods-Follow now m =
    (grind (arith, edges), grind (arith, edges), grind (arith, edges), grind (arith, edges))

-- The methods in one: which of them leads to a status.
abbrev pub Leads : ℕ → Contact → ContactStatus → Type 0
Leads now m target =
    (m' : Contact) × (m'.status ≡ target)
    × ((accept m ≡ ok m') ⊎ (reject now m ≡ ok m') ⊎ (confirm m ≡ ok m') ⊎ (unconfirm m ≡ ok m'))

Leads-by_status :
    (now : ℕ) (m : Contact) {s target : ContactStatus}
    → m.status ≡ s
    → s ⟶ target
    → Leads now m target
unfolding accept reject confirm unconfirm
Leads-by_status now m e accepted = (record m { status = not_confirmed }, refl, inl (ground arith))
Leads-by_status now m e refused =
    (record m { deleted_at = some now; status = rejected }, refl, inr (inl (ground arith)))
Leads-by_status now m e verified =
    (record m { status = confirmed }, refl, inr (inr (inl (ground arith))))
Leads-by_status now m e doubted =
    (record m { status = not_confirmed }, refl, inr (inr (inr (ground arith))))

leads_follow :
    (now : ℕ) (m m' : Contact)
    → (accept m ≡ ok m') ⊎ (reject now m ≡ ok m') ⊎ (confirm m ≡ ok m') ⊎ (unconfirm m ≡ ok m')
    → m.status ⟶ m'.status
leads_follow now m m' h = grind (arith, methods-Follow now m)

-- A status can be reached from a contact's by one method exactly when the diagram has that edge.
pub methods_reach_iff :
    (now : ℕ) (m : Contact) (target : ContactStatus) → (m.status ⟶ target) ↔ Leads now m target
methods_reach_iff now m target =
    (λ e. Leads-by_status now m refl e, λ l. rw (l.1) at (leads_follow now m l.0 l.2))
