-- ===== src/Webhooks/Serves.antt =====
-- Which webhooks have a notifier after an update.
use spv_wallet.Prelude.{
  ℕ, ◌≡◌, refl, ◌∙◌, sym, ap, ◌↔◌, inl, inr, Bool, true, false, not, ◌||◌, ◌&&◌, String, Option,
  some, List, [], ◌∷◌, map, ◌=?◌, =?_iff, =?_refl, filter, if◌then◌else◌, is_some, In, In-filter,
  filter-In, Bool-cases, arith,
}
use spv_wallet.Webhooks.Model.{Webhook, banned, deleted, Weather, get_all}
use spv_wallet.Webhooks.Manager.{
  Notifiers, load, put_notifier, has_channel, Manager, contains_webhook, add_missing, remove_stale,
  update_definitions, active, serve, update,
}
use spv_wallet.Webhooks.Update.{
  is_running, IsSynced, add_missing_lem, remove_stale_lem, keys_lem, load-put_notifier,
}

-- No two webhooks have the same url, the primary key.
abbrev pub HasUniqueUrls : List Webhook → Type 0
HasUniqueUrls [] = Unit {0}
HasUniqueUrls (w ∷ ws) = (contains_webhook ws w.url ≡ false) × HasUniqueUrls ws

contains_webhook-filter :
    (p : Webhook → Bool) (ws : List Webhook) (u : String)
    → contains_webhook ws u ≡ false
    → contains_webhook (filter p ws) u ≡ false
unfolding contains_webhook
contains_webhook-filter p [] u h = refl
contains_webhook-filter p (w ∷ ws) u h = let ih = contains_webhook-filter p ws u in ground arith

filter-HasUniqueUrls :
    (p : Webhook → Bool) (ws : List Webhook) → HasUniqueUrls ws → HasUniqueUrls (filter p ws)
filter-HasUniqueUrls p [] h = tt
filter-HasUniqueUrls p (w ∷ ws) h = elim (Bool-cases (p w)) [
  | inl keep ↦ rw keep (contains_webhook-filter p ws w.url h.0, filter-HasUniqueUrls p ws h.1)
  | inr drop ↦ rw drop (filter-HasUniqueUrls p ws h.1)
]

contains_webhook-In : (ws : List Webhook) (w : Webhook) → In w ws → contains_webhook ws w.url ≡ true
unfolding contains_webhook
contains_webhook-In (x ∷ ws) w (inl e) =
    let same = (=?_iff x.url w.url).1 (sym (ap Webhook.url e)) in ground arith
contains_webhook-In (x ∷ ws) w (inr i) = let ih = contains_webhook-In ws w i in ground arith
contains_webhook-In [] w i = absurd i

contains_webhook-inv :
    (ws : List Webhook) (u : String)
    → contains_webhook ws u ≡ true
    → (w : Webhook) × In w ws × (w.url ≡ u)
unfolding contains_webhook
contains_webhook-inv [] u h = cc
contains_webhook-inv (x ∷ ws) u h = elim (Bool-cases (x.url =? u)) [
  | inl hit ↦ (x, inl refl, (=?_iff x.url u).0 hit)
  | inr miss ↦ let (w, i, e) = contains_webhook-inv ws u (ground arith) in (w, inr i, e)
]

update_definitions_running :
    (ws : List Webhook) (l : Notifiers) (u : String)
    → is_some (load u (update_definitions ws l)) ≡ is_some (load u l)
unfolding update_definitions
update_definitions_running [] l u = refl
update_definitions_running (w ∷ ws) l u = elim (Bool-cases (is_some (load w.url l))) [
  | inr absent ↦ rw (absent, update_definitions) (update_definitions_running ws l u)
  | inl here ↦
      let e = load-put_notifier w.url u w l in
      rw (here, update_definitions)
        (update_definitions_running ws (put_notifier w.url w l) u ∙ rw e (defined u here))
]
  where
    defined :
        (u : String)
        → is_some (load w.url l) ≡ true
        → is_some (if w.url =? u then some w else load u l) ≡ is_some (load u l)
    defined u here = elim (Bool-cases (w.url =? u)) [
      | inl hit ↦
          let e = ap (λ x. is_some (load x l)) (sym ((=?_iff w.url u).0 hit)) ∙ here in
          rw hit (sym e)
      | inr miss ↦ rw miss refl
    ]

update_definitions_other :
    (ws : List Webhook) (l : Notifiers) (u : String)
    → contains_webhook ws u ≡ false
    → load u (update_definitions ws l) ≡ load u l
unfolding update_definitions contains_webhook
update_definitions_other [] l u h = refl
update_definitions_other (w ∷ ws) l u h =
    let miss : (w.url =? u) ≡ false = ground arith in
    let rest : contains_webhook ws u ≡ false = ground arith in
    elim (Bool-cases (is_some (load w.url l))) [
      | inr absent ↦ rw (absent, update_definitions) (update_definitions_other ws l u rest)
      | inl here ↦
          rw (here, update_definitions)
            (update_definitions_other ws (put_notifier w.url w l) u rest
              ∙ load-put_notifier w.url u w l
              ∙ rw miss refl)
    ]

update_definitions_lem :
    (ws : List Webhook) (l : Notifiers) (w : Webhook)
    → HasUniqueUrls ws
    → In w ws
    → is_some (load w.url l) ≡ true
    → load w.url (update_definitions ws l) ≡ some w
unfolding update_definitions
update_definitions_lem [] l w unique i here = absurd i
update_definitions_lem (x ∷ ws) l w unique (inl e) here =
    let here_x : is_some (load x.url l) ≡ true = rw e at here in
    rw (e, here_x, update_definitions)
      (update_definitions_other ws (put_notifier x.url x l) x.url unique.0
        ∙ load-put_notifier x.url x.url x l
        ∙ rw (=?_refl x.url) refl)
update_definitions_lem (x ∷ ws) l w unique (inr i) here =
    elim (Bool-cases (is_some (load x.url l))) [
      | inr absent ↦ rw (absent, update_definitions) (update_definitions_lem ws l w unique.1 i here)
      | inl present ↦
          rw (present, update_definitions)
            (update_definitions_lem ws (put_notifier x.url x l) w unique.1 i (
              rw (load-put_notifier x.url w.url x l) (elim (Bool-cases (x.url =? w.url)) [
                | inl hit ↦ rw hit refl
                | inr miss ↦ rw miss here
              ])))
    ]

active_iff :
    (now : ℕ) (ws : List Webhook) (w : Webhook)
    → In w (active now ws) ↔ (In w ws × (deleted w ≡ false) × (banned now w ≡ false))
unfolding active get_all
active_iff now ws w = (to, from)
  where
    to : In w (active now ws) → In w ws × (deleted w ≡ false) × (banned now w ≡ false)
    to i =
        let (j, free) = In-filter _ (get_all ws) w i in
        let (k, kept) = In-filter _ ws w j in (k, ground arith, ground arith)

    from : In w ws × (deleted w ≡ false) × (banned now w ≡ false) → In w (active now ws)
    from (i, kept, free) =
        filter-In _ (get_all ws) w (filter-In _ ws w i (ground arith)) (ground arith)

-- The state after the webhooks `ws` are served.
module _ (ws : List Webhook) (m : Manager) (unique : HasUniqueUrls ws) (synced : IsSynced m) where
  serve_running :
      ((u : String) → has_channel u (serve ws m).channels ≡ is_running u (serve ws m))
      × ((u : String) → is_running u (serve ws m) ≡ contains_webhook ws u)
  unfolding serve
  serve_running =
      let (s1, r1) = add_missing_lem ws m synced in
      let keys = map (λ (e : String × Webhook). e.0) (add_missing ws m).notifiers in
      let (s2, r2) = remove_stale_lem ws keys (add_missing ws m) s1 in
      (
        λ u. s2 u ∙ sym (update_definitions_running ws _ u),
        λ u.
            let a = r1 u in
            let b = r2 u in
            let c = keys_lem u (add_missing ws m).notifiers in
            let d =
              update_definitions_running ws (remove_stale ws keys (add_missing ws m)).notifiers u in
            d ∙ b ∙ rw c (only_wanted u a),
      )
    where
      only_wanted :
          (u : String)
          → is_running u (add_missing ws m) ≡ (is_running u m || contains_webhook ws u)
          → (is_running u (add_missing ws m)
              && (contains_webhook ws u || not (is_running u (add_missing ws m))))
            ≡ contains_webhook ws u
      only_wanted u a = ground arith

  serve_definition : (w : Webhook) → In w ws → load w.url (serve ws m).notifiers ≡ some w
  unfolding serve
  serve_definition w i = update_definitions_lem ws _ w unique i (
      sym (update_definitions_running ws _ w.url)
      ∙ serve_running.1 w.url
      ∙ contains_webhook-In ws w i)

  serve_iff :
      (u : String) (w : Webhook)
      → (load u (serve ws m).notifiers ≡ some w) ↔ (In w ws × (w.url ≡ u))
  serve_iff u w =
      (to, λ p. ap (λ x. load x (serve ws m).notifiers) (sym p.1) ∙ serve_definition w p.0)
    where
      some_injective : {a b : Webhook} → ◌≡◌ {A = Option Webhook} (some a) (some b) → a ≡ b
      some_injective q = cc

      to : load u (serve ws m).notifiers ≡ some w → In w ws × (w.url ≡ u)
      to h =
          let runs : is_running u (serve ws m) ≡ true = rw h refl in
          let (v, i, e) = contains_webhook-inv ws u (sym (serve_running.1 u) ∙ runs) in
          let found = ap (λ x. load x (serve ws m).notifiers) (sym e) ∙ serve_definition v i in
          let same : w ≡ v = some_injective (sym h ∙ found) in (rw same i, rw same e)

-- Where the database answers, no two webhooks have the same url, and the output channels are those of
-- the notifiers: after an update the output channels are those of the notifiers, and a url has a
-- notifier with a definition exactly where the definition is the webhook of that url in the table and
-- is neither deleted nor banned at the time.
pub update-Serves :
    (weather : Weather) (m : Manager)
    → weather.get_all_fails ≡ false
    → HasUniqueUrls m.webhooks
    → IsSynced m
    → IsSynced (update weather m)
      × ((u : String) (w : Webhook)
          → (load u (update weather m).notifiers ≡ some w) ↔ (
              In w m.webhooks × (w.url ≡ u) × (deleted w ≡ false) × (banned weather.now w ≡ false)))
unfolding update active get_all
update-Serves weather m answers unique synced =
    let unique' =
      filter-HasUniqueUrls _ (get_all m.webhooks) (filter-HasUniqueUrls _ m.webhooks unique) in
    rw answers (
      (serve_running (active weather.now m.webhooks) m unique' synced).0,
      λ u w.
          let (to, from) = serve_iff (active weather.now m.webhooks) m unique' synced u w in
          (
            λ h.
                let (i, e) = to h in
                let (j, kept, free) = (active_iff weather.now m.webhooks w).0 i in
                (j, e, kept, free),
            λ (i, e, kept, free). from ((active_iff weather.now m.webhooks w).1 (i, kept, free), e),
          ),
    )
