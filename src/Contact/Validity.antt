-- ===== src/Contact/Validity.antt =====
-- The invariant of the table of contacts, of valid rows and of the columns that only a creation writes,
-- through a write.
use spv_wallet.Prelude.{
  ◌≡◌, refl, ap, ◌∙◌, map, inl, inr, Bool, true, false, not, ◌||◌, String, Option, none, some, List,
  [], ◌∷◌, ◌++◌, arith, is_some, Bool-cases, All,
}
use mathlib.Core.List.{map-append, append_assoc}
use spv_wallet.Prelude.Results.{Result, ok, err}
use spv_wallet.Contact.Model.{ContactStatus, rejected, ContactError, database, Contact, validate}
use spv_wallet.Contact.Store.{Env, Table, find, merged, update_row, has_id, write}

abbrev pub is_rejected : ContactStatus → Bool
is_rejected rejected = true
is_rejected s = false

-- A refused contact is deleted.
abbrev pub refused_deleted : Contact → Bool
refused_deleted r = not (is_rejected r.status) || is_some r.deleted_at

abbrev pub Anything : {A : Type 0} → A → Type 0
Anything a = Unit

module _ (env : Env) where
  abbrev pub IsSound : Contact → Type 0
  IsSound r = (validate env.valid_paymail r ≡ ok tt) × (refused_deleted r ≡ true)

  abbrev pub AllSound : Table → Type 0
  AllSound t = All IsSound t

  pub find-IsSound :
      (p : Contact → Bool) (t : Table) (r : Contact) → AllSound t → find p t ≡ some r → IsSound r
  unfolding find
  find-IsSound p [] r s h = cc
  find-IsSound p (x ∷ t) r s h = ground (arith, find-IsSound p t r s.1)

  merged-IsSound : (r m : Contact) → IsSound r → IsSound m → IsSound (merged r m)
  unfolding validate
  merged-IsSound r m s h = ground arith

  update_row-IsSound :
      (m : Contact) (t : Table) → IsSound m → AllSound t → AllSound (update_row m t)
  unfolding update_row
  update_row-IsSound m [] h s = s
  update_row-IsSound m (r ∷ t) h s =
      ground (arith, merged-IsSound r m s.0 h, update_row-IsSound m t h s.1)

  append-IsSound : (m : Contact) (t : Table) → IsSound m → AllSound t → AllSound (t ++ m ∷ [])
  append-IsSound m [] h s = (h, tt)
  append-IsSound m (r ∷ t) h s = (s.0, append-IsSound m t h s.1)

  -- The contact of an option is sound.
  abbrev pub SoundOption : Option Contact → Type 0
  SoundOption none = Unit
  SoundOption (some r) = IsSound r

pub write-AllSound :
    (env : Env) (is_new : Bool) (m : Contact) (t t' : Table)
    → IsSound env m
    → AllSound env t
    → write is_new m t ≡ ok t'
    → AllSound env t'
unfolding write
write-AllSound env true m t t' h s w = ground (arith, append-IsSound env m t h s)
write-AllSound env false m t t' h s w =
    ground (arith, append-IsSound env m t h s, update_row-IsSound env m t h s)

ok_injective : {a b : Table} → ◌≡◌ {A = Result ContactError Table} (ok a) (ok b) → a ≡ b
ok_injective h = cc

-- The columns of a contact that only its creation writes.
abbrev pub fixed_columns : Contact → String × String × String
fixed_columns r = (r.id, r.owner_xpub_id, r.pub_key)

-- The rows of the earlier table are still there, in place, with the fixed columns they had.
abbrev pub Keeps : Table → Table → Type 0
Keeps base t =
    (rest : List (String × String × String)) × (map fixed_columns t
      ≡ map fixed_columns base ++ rest)

update_row-columns :
    (m : Contact) (t : Table) → map fixed_columns (update_row m t) ≡ map fixed_columns t
unfolding update_row
update_row-columns m [] = refl
update_row-columns m (r ∷ t) = ground (arith, update_row-columns m t)

append-Keeps : (base t : Table) (m : Contact) → Keeps base t → Keeps base (t ++ m ∷ [])
append-Keeps base t m (rest, e) = (
  rest ++ fixed_columns m ∷ [],
  map-append fixed_columns t (m ∷ [])
      ∙ ap (λ l. l ++ fixed_columns m ∷ []) e
      ∙ append_assoc (map fixed_columns base) rest (fixed_columns m ∷ []),
)

pub write-Keeps :
    (is_new : Bool) (base t t' : Table) (m : Contact)
    → Keeps base t
    → write is_new m t ≡ ok t'
    → Keeps base t'
unfolding write
write-Keeps true base t t' m k h = elim (Bool-cases (has_id m.id t)) [
  | inl old ↦ let clash : err database ≡ ok t' = rw old at h in cc
  | inr new ↦
      let e : t ++ m ∷ [] ≡ t' = ok_injective (rw new at h) in rw (← e) (append-Keeps base t m k)
]
write-Keeps false base t t' m k h = elim (Bool-cases (has_id m.id t)) [
  | inl old ↦
      let e : update_row m t ≡ t' = ok_injective (rw old at h) in
      rw (← e) (k.0, update_row-columns m t ∙ k.1)
  | inr new ↦
      let e : t ++ m ∷ [] ≡ t' = ok_injective (rw new at h) in rw (← e) (append-Keeps base t m k)
]
