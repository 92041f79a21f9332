-- ===== src/Chain/Fetched.antt =====
-- What a combination of getters returns.
use spv_wallet.Prelude.{
  ◌≡◌, refl, ◌∙◌, sym, ap, inl, inr, true, false, not, ◌&&◌, String, Option, none, some, List, [],
  ◌∷◌, ◌++◌, ◌=?◌, =?_iff, =?_refl, In, In-append, Bool-cases, arith,
}
use spv_wallet.Prelude.Results.{ok, or_fail, bind-ok, ok_injective}
use spv_wallet.Beef.Search.{is_member}
use spv_wallet.Chain.Getters.{
  get_transactions_failed, to_set, delete_key, take_missing, get_from, get_transactions,
}

module _ {A : Type 0} (tx_id : A → String) where
  is_member-delete_key :
      (id k : String) (keys : List String)
      → is_member id (delete_key tx_id k keys) ≡ (is_member id keys && not (k =? id))
  unfolding delete_key
  is_member-delete_key id k [] = refl
  is_member-delete_key id k (x ∷ keys) =
      let ih = is_member-delete_key id k keys in
      ground (arith, =?_iff x k, =?_iff x id, =?_iff k id)

  is_member-to_set :
      (id : String) (ids : List String) → is_member id (to_set tx_id ids) ≡ is_member id ids
  unfolding to_set
  is_member-to_set id [] = refl
  is_member-to_set id (x ∷ ids) = elim (Bool-cases (x =? id)) [
    | inl hit ↦
        let ih = is_member-to_set id ids in
        let e = ap (λ k. is_member k (to_set tx_id ids)) ((=?_iff x id).0 hit) in ground arith
    | inr miss ↦ let ih = is_member-to_set id ids in ground arith
  ]

  -- No id twice.
  abbrev pub HasUniqueIds : List A → Type 0
  HasUniqueIds [] = Unit {0}
  HasUniqueIds (tx ∷ txs) =
      ((other : A) → In other txs → (tx_id other =? tx_id tx) ≡ false) × HasUniqueIds txs

  -- The transactions have different ids, all of which were missing, and none of which is missing after.
  abbrev Takes : List A → List String → List String → Type 0
  Takes taken missing rest =
      HasUniqueIds taken
      × ((tx : A) → In tx taken → is_member (tx_id tx) missing ≡ true)
      × ((tx : A) → In tx taken → is_member (tx_id tx) rest ≡ false)
      × ((id : String) → is_member id rest ≡ true → is_member id missing ≡ true)

  take_missing-Takes :
      (txs : List A) (missing : List String)
      → Takes (take_missing tx_id txs missing).0 missing (take_missing tx_id txs missing).1
  unfolding take_missing
  take_missing-Takes [] missing = (tt, λ tx i. absurd i, λ tx i. absurd i, λ id h. h)
  take_missing-Takes (t ∷ txs) missing = elim (Bool-cases (is_member (tx_id t) missing)) [
    | inr old ↦ rw (old, take_missing) (take_missing-Takes txs missing)
    | inl new ↦
        let (unique, known, gone, fewer) =
          take_missing-Takes txs (delete_key tx_id (tx_id t) missing) in
        rw (new, take_missing)
          (
            (
              λ other i.
                  let k = known other i in
                  let d = is_member-delete_key (tx_id other) (tx_id t) missing in
                  ground (arith, =?_iff (tx_id other) (tx_id t), =?_iff (tx_id t) (tx_id other)),
              unique,
            ),
            λ tx i. elim i [
              | inl e ↦ rw e new
              | inr j ↦
                  let k = known tx j in
                  let d = is_member-delete_key (tx_id tx) (tx_id t) missing in ground arith
            ],
            λ tx i. elim i [ inl e ↦ rw e (still_gone t fewer) | inr j ↦ gone tx j ],
            λ id h.
                let k = fewer id h in
                let d = is_member-delete_key id (tx_id t) missing in ground arith,
          )
  ]
    where
      still_gone :
          (t : A)
          → ((id : String)
              → is_member id (take_missing tx_id txs (delete_key tx_id (tx_id t) missing)).1 ≡ true
              → is_member id (delete_key tx_id (tx_id t) missing) ≡ true)
          → is_member (tx_id t) (take_missing tx_id txs (delete_key tx_id (tx_id t) missing)).1
            ≡ false
      still_gone t fewer =
          let k = fewer (tx_id t) in
          let d = is_member-delete_key (tx_id t) (tx_id t) missing in
          let e = =?_refl (tx_id t) in ground arith

  append-HasUniqueIds :
      (xs ys : List A)
      → HasUniqueIds xs
      → HasUniqueIds ys
      → ((x y : A) → In x xs → In y ys → (tx_id y =? tx_id x) ≡ false)
      → HasUniqueIds (xs ++ ys)
  append-HasUniqueIds [] ys u v apart = v
  append-HasUniqueIds (x ∷ xs) ys u v apart = (
    λ other i. elim (In-append other xs ys i) [
      | inl j ↦ u.0 other j
      | inr j ↦ apart x other (inl refl) j
    ],
    append-HasUniqueIds xs ys u.1 v (λ a b i j. apart a b (inr i) j),
  )

  get_from-HasUniqueIds :
      (getters : List (Option (List String → Option (List A)))) (missing : List String)
      (txs : List A)
      → get_from tx_id getters missing ≡ ok txs
      → HasUniqueIds txs × ((tx : A) → In tx txs → is_member (tx_id tx) missing ≡ true)
  unfolding get_from
  get_from-HasUniqueIds [] missing txs h = rw (sym (ok_injective h)) (tt, λ tx i. absurd i)
  get_from-HasUniqueIds (getter ∷ getters) [] txs h =
      rw (sym (ok_injective h)) (tt, λ tx i. absurd i)
  get_from-HasUniqueIds (none ∷ getters) (id ∷ ids) txs h = cc
  get_from-HasUniqueIds (some getter ∷ getters) (id ∷ ids) txs h =
      let (found, _, k) = bind-ok (or_fail (getter (id ∷ ids)) get_transactions_failed) _ txs h in
      let (rest, later, e) =
        bind-ok (get_from tx_id getters (take_missing tx_id found (id ∷ ids)).1) _ txs k in
      let (unique, known, gone, fewer) = take_missing-Takes found (id ∷ ids) in
      let (unique_rest, known_rest) =
        get_from-HasUniqueIds getters (take_missing tx_id found (id ∷ ids)).1 rest later in
      let taken = (take_missing tx_id found (id ∷ ids)).0 in
      rw (sym (ok_injective e)) (
        append-HasUniqueIds taken rest unique unique_rest (λ x y i j.
            differ (take_missing tx_id found (id ∷ ids)).1 x y (gone x i) (known_rest y j)),
        λ tx i. elim (In-append tx taken rest i) [
          | inl j ↦ known tx j
          | inr j ↦ fewer (tx_id tx) (known_rest tx j)
        ],
      )
    where
      differ :
          (keys : List String) (x y : A)
          → is_member (tx_id x) keys ≡ false
          → is_member (tx_id y) keys ≡ true
          → (tx_id y =? tx_id x) ≡ false
      differ keys x y a b = elim (Bool-cases (tx_id y =? tx_id x)) [
        | inr apart ↦ apart
        | inl same ↦
            let e = ap (λ k. is_member k keys) ((=?_iff (tx_id y) (tx_id x)).0 same) in ground arith
      ]

-- Where the combination of getters returns transactions: no two of them have the same id, and the id of
-- each was asked for, whatever the getters return.
pub get_transactions-HasUniqueIds :
    {A : Type 0} (tx_id : A → String) (getters : List (Option (List String → Option (List A))))
    (ids : List String) (txs : List A)
    → get_transactions tx_id getters ids ≡ ok txs
    → HasUniqueIds tx_id txs × ((tx : A) → In tx txs → is_member (tx_id tx) ids ≡ true)
unfolding get_transactions
get_transactions-HasUniqueIds tx_id getters ids txs h =
    let (unique, known) = get_from-HasUniqueIds tx_id getters (to_set tx_id ids) txs h in
    (unique, λ tx i. sym (is_member-to_set tx_id (tx_id tx) ids) ∙ known tx i)
