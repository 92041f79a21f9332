-- ===== src/Webhooks/Update.antt =====
-- Which notifiers the loops of an update add and remove, and their channels.
use spv_wallet.Prelude.{
  ◌≡◌, refl, ◌∙◌, sym, ap, inl, inr, Bool, true, false, not, ◌||◌, ◌&&◌, String, none, some, List,
  [], ◌∷◌, map, ◌=?◌, =?_iff, if◌then◌else◌, is_some, Bool-cases, Option-cases, arith,
}
use spv_wallet.Webhooks.Model.{Webhook}
use spv_wallet.Webhooks.Manager.{
  Notifiers, load, unload, put_notifier, has_channel, add_channel, remove_channel, Manager,
  add_notifier, remove_notifier, contains_webhook, add_missing, remove_stale,
}

text_swap : (a b : String) → (a =? b) ≡ (b =? a)
text_swap a b = ground (arith, =?_iff a b, =?_iff b a)

load-unload :
    (k u : String) (l : Notifiers) → load u (unload k l) ≡ (if k =? u then none else load u l)
unfolding load unload
load-unload k u [] = ground arith
load-unload k u ((j, w) ∷ l) =
    let ih = load-unload k u l in
    elim (Bool-cases (j =? k)) [
      | inl hit ↦ let same = =?_iff j k in rw (hit, ih) (ground (arith, =?_iff j k))
      | inr miss ↦ rw miss (ground (arith, =?_iff j k, =?_iff j u, =?_iff k u))
    ]

pub load-put_notifier :
    (k u : String) (w : Webhook) (l : Notifiers)
    → load u (put_notifier k w l) ≡ (if k =? u then some w else load u l)
unfolding load put_notifier
load-put_notifier k u w l = let e = load-unload k u l in ground arith

has_channel-add_channel :
    (k u : String) (cs : List String)
    → has_channel u (add_channel k cs) ≡ ((k =? u) || has_channel u cs)
unfolding add_channel
has_channel-add_channel k u cs = elim (Bool-cases (k =? u)) [
  | inl hit ↦
      let same = (=?_iff k u).0 hit in let e = ap (λ x. has_channel x cs) same in ground arith
  | inr miss ↦ ground arith
]

has_channel-remove_channel :
    (k u : String) (cs : List String)
    → has_channel u (remove_channel k cs) ≡ (not (k =? u) && has_channel u cs)
unfolding remove_channel
has_channel-remove_channel k u [] = ground arith
has_channel-remove_channel k u (c ∷ cs) =
    let ih = has_channel-remove_channel k u cs in ground (arith, =?_iff c k, =?_iff c u, =?_iff k u)

-- The notifier of the url is running.
abbrev pub is_running : String → Manager → Bool
is_running url m = is_some (load url m.notifiers)

-- The output channels are those of the notifiers.
abbrev pub IsSynced : Manager → Type 0
IsSynced m = (url : String) → has_channel url m.channels ≡ is_running url m

add_notifier_lem :
    (w : Webhook) (m : Manager)
    → IsSynced m
    → (u : String)
    → (has_channel u (add_notifier w m).channels ≡ is_running u (add_notifier w m))
      × (is_running u (add_notifier w m) ≡ (is_running u m || (w.url =? u)))
unfolding add_notifier
add_notifier_lem w m synced u =
    let e = load-put_notifier w.url u w m.notifiers in
    let f = has_channel-add_channel w.url u m.channels in
    let g = synced u in
    elim (Bool-cases (w.url =? u)) [
      | inl hit ↦ rw (e, f, hit) (refl, ground arith)
      | inr miss ↦ rw (e, f, miss) (g, ground arith)
    ]

remove_notifier_lem :
    (k : String) (m : Manager)
    → IsSynced m
    → (u : String)
    → (has_channel u (remove_notifier k m).channels ≡ is_running u (remove_notifier k m))
      × (is_running u (remove_notifier k m) ≡ (is_running u m && not (k =? u)))
unfolding remove_notifier
remove_notifier_lem k m synced u = elim (Option-cases (load k m.notifiers)) [
  | inl none_here ↦ rw (none_here, remove_notifier) (synced u, not_here none_here)
  | inr (w, here) ↦
      let e = load-unload k u m.notifiers in
      let f = has_channel-remove_channel k u m.channels in
      let g = synced u in
      rw (here, remove_notifier)
        (elim (Bool-cases (k =? u)) [
          | inl hit ↦ rw (e, f, hit) (refl, ground arith)
          | inr miss ↦ rw (e, f, miss) (g, ground arith)
        ])
]
  where
    not_here : load k m.notifiers ≡ none → is_running u m ≡ (is_running u m && not (k =? u))
    not_here none_here = elim (Bool-cases (k =? u)) [
      | inl hit ↦
          let e = ap (λ x. load x m.notifiers) (sym ((=?_iff k u).0 hit)) ∙ none_here in
          rw (hit, e) refl
      | inr miss ↦ ground arith
    ]

pub add_missing_lem :
    (ws : List Webhook) (m : Manager)
    → IsSynced m
    → IsSynced (add_missing ws m)
      × ((u : String) → is_running u (add_missing ws m) ≡ (is_running u m || contains_webhook ws u))
unfolding add_missing contains_webhook
add_missing_lem [] m synced = (synced, λ u. ground arith)
add_missing_lem (w ∷ ws) m synced = elim (Bool-cases (is_running w.url m)) [
  | inl here ↦
      let (s, r) = add_missing_lem ws m synced in rw (here, add_missing) (s, λ u. old u here (r u))
  | inr absent ↦
      let (s, r) = add_missing_lem ws (add_notifier w m) (λ u. (add_notifier_lem w m synced u).0) in
      rw (absent, add_missing)
        (s, λ u. let a = (add_notifier_lem w m synced u).1 in let b = r u in ground arith)
]
  where
    old :
        (u : String)
        → is_running w.url m ≡ true
        → is_running u (add_missing ws m) ≡ (is_running u m || contains_webhook ws u)
        → is_running u (add_missing ws m)
          ≡ (is_running u m || ((w.url =? u) || contains_webhook ws u))
    old u here r = elim (Bool-cases (w.url =? u)) [
      | inl hit ↦
          let e = ap (λ x. is_running x m) (sym ((=?_iff w.url u).0 hit)) ∙ here in ground arith
      | inr miss ↦ ground arith
    ]

pub remove_stale_lem :
    (ws : List Webhook) (urls : List String) (m : Manager)
    → IsSynced m
    → IsSynced (remove_stale ws urls m)
      × ((u : String)
          → is_running u (remove_stale ws urls m)
            ≡ (is_running u m && (contains_webhook ws u || not (has_channel u urls))))
unfolding remove_stale
remove_stale_lem ws [] m synced = (synced, λ u. ground arith)
remove_stale_lem ws (k ∷ urls) m synced = elim (Bool-cases (contains_webhook ws k)) [
  | inl wanted ↦
      let (s, r) = remove_stale_lem ws urls m synced in
      rw (wanted, remove_stale) (s, λ u. let a = r u in kept u wanted a)
  | inr stale ↦
      let (s, r) =
        remove_stale_lem ws urls (remove_notifier k m)
          (λ u. (remove_notifier_lem k m synced u).0) in
      rw (stale, remove_stale) (s, λ u. gone u stale (remove_notifier_lem k m synced u).1 (r u))
]
  where
    kept :
        (u : String)
        → contains_webhook ws k ≡ true
        → is_running u (remove_stale ws urls m)
          ≡ (is_running u m && (contains_webhook ws u || not (has_channel u urls)))
        → is_running u (remove_stale ws urls m)
          ≡ (is_running u m && (contains_webhook ws u || not ((k =? u) || has_channel u urls)))
    kept u wanted r = elim (Bool-cases (k =? u)) [
      | inl hit ↦
          let e = ap (contains_webhook ws) (sym ((=?_iff k u).0 hit)) ∙ wanted in ground arith
      | inr miss ↦ ground arith
    ]

    gone :
        (u : String)
        → contains_webhook ws k ≡ false
        → is_running u (remove_notifier k m) ≡ (is_running u m && not (k =? u))
        → is_running u (remove_stale ws urls (remove_notifier k m)) ≡ (
            is_running u (remove_notifier k m)
            && (contains_webhook ws u || not (has_channel u urls)))
        → is_running u (remove_stale ws urls (remove_notifier k m))
          ≡ (is_running u m && (contains_webhook ws u || not ((k =? u) || has_channel u urls)))
    gone u stale a r = elim (Bool-cases (k =? u)) [
      | inl hit ↦
          let e = ap (contains_webhook ws) (sym ((=?_iff k u).0 hit)) ∙ stale in ground arith
      | inr miss ↦ ground arith
    ]

pub keys_lem :
    (u : String) (l : Notifiers)
    → has_channel u (map (λ (e : String × Webhook). e.0) l) ≡ is_some (load u l)
unfolding load
keys_lem u [] = refl
keys_lem u ((k, w) ∷ l) = let ih = keys_lem u l in ground arith
