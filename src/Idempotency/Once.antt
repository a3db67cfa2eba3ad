-- ===== src/Idempotency/Once.antt =====
-- A key runs its request once (backend/app/services/idempotency_service.py).
use book_point.Base.{
  ℕ, ◌+◌, ◌≡◌, refl, sym, subst, ◌∙◌, ap, Bool, true, false, not, Option, none, some, inl, inr,
  List, [], ◌∷◌, first, keep, arith, ◌==◌, Bool-cases, if◌then◌else◌,
}
use book_point.Base.Text.{Text, eq_text, eq_text_refl}
use book_point.Idempotency.{
  IdempotencyKey, KeyStore, StartResult, abort, create_or_resolve, finalize_success, finished,
  get_by_scope_and_key, is_key, new_key, normalize_key, replayed, resolve_existing,
  start_normalized, start_request, start_with, started, replay_of,
}
use book_point.Results.{Result, err, key_in_progress, key_reused, ok}

-- The other requests leave the table as it is.
abbrev pub alone : KeyStore → KeyStore
alone store = store

pub first-keep-none :
    (p q : IdempotencyKey → Bool) (keys : List IdempotencyKey)
    → first p keys ≡ none
    → first p (keep q keys) ≡ none
first-keep-none p q [] e = refl
first-keep-none p q (r ∷ keys) e = elim (Bool-cases (p r)) [
  | inl y ↦ let e' : some r ≡ none = rw y at e in cc
  | inr n ↦ elim (Bool-cases (q r)) [
    | inl y ↦ rw (y, n) (first-keep-none p q keys (rw n at e))
    | inr m ↦ rw m (first-keep-none p q keys (rw n at e))
  ]
]

-- What a call that starts a request has done.
abbrev Begun :
    (KeyStore → KeyStore) → Text → Text → Text → IdempotencyKey → KeyStore → KeyStore → Type 0
Begun meanwhile key scope request_hash r store store' =
    let between = meanwhile store in
    (get_by_scope_and_key between.keys scope key ≡ none)
    × (r ≡ new_key between.next_id key scope request_hash)
    × (store' ≡ record between { keys = r ∷ between.keys; next_id = between.next_id + 1 })

-- A resolved row starts nothing.
resolve_existing-ne-started :
    (x : IdempotencyKey) (request_hash : Text) (store store' : KeyStore) (r : IdempotencyKey)
    → resolve_existing x request_hash store ≡ (ok (started r), store')
    → ⊥
unfolding resolve_existing
resolve_existing-ne-started x request_hash store store' r e =
    by_test (eq_text x.request_hash request_hash) x.response_status_code x.response_body_json e
  where
    by_test :
        (same : Bool) (status : Option ℕ) (body : Option Text)
        → (if not same then (err key_reused, store) else replay_of status body store)
          ≡ (ok (started r), store')
        → ⊥
    by_test false status body q = let q' = ap (λ (x : Result StartResult × KeyStore). x.0) q in cc
    by_test true (some c) (some b) q =
        let q' = ap (λ (x : Result StartResult × KeyStore). x.0) q in cc
    by_test true (some c) none q = let q' = ap (λ (x : Result StartResult × KeyStore). x.0) q in cc
    by_test true none body q = let q' = ap (λ (x : Result StartResult × KeyStore). x.0) q in cc

create_or_resolve-Begun :
    (meanwhile : KeyStore → KeyStore) (key scope request_hash : Text) (store store' : KeyStore)
    (r : IdempotencyKey) (o : Option IdempotencyKey)
    → get_by_scope_and_key (meanwhile store).keys scope key ≡ o
    → create_or_resolve key scope request_hash o (meanwhile store) ≡ (ok (started r), store')
    → Begun meanwhile key scope request_hash r store store'
create_or_resolve-Begun meanwhile key scope request_hash store store' r none m e =
    let r_is = ap (λ (x : Result StartResult × KeyStore). x.0) e in
    let store_is = ap (λ (x : Result StartResult × KeyStore). x.1) e in
    let own : new_key (meanwhile store).next_id key scope request_hash ≡ r = cc in
    (
      m,
      sym own,
      sym store_is
          ∙ ap
              (λ x. record (meanwhile store) {
                keys = x ∷ (meanwhile store).keys;
                next_id = (meanwhile store).next_id + 1;
              })
              own,
    )
create_or_resolve-Begun meanwhile key scope request_hash store store' r (some x) m e =
    absurd (resolve_existing-ne-started x request_hash (meanwhile store) store' r e)

start_with-Begun :
    (meanwhile : KeyStore → KeyStore) (n : Result (Option Text)) (scope request_hash : Text)
    (store store' : KeyStore) (r : IdempotencyKey)
    → start_with meanwhile n scope request_hash store ≡ (ok (started r), store')
    → (key : Text) × (n ≡ ok (some key)) × Begun meanwhile key scope request_hash r store store'
start_with-Begun meanwhile (err x) scope request_hash store store' r e =
    let r_is = ap (λ (x : Result StartResult × KeyStore). x.0) e in cc
start_with-Begun meanwhile (ok none) scope request_hash store store' r e =
    let r_is = ap (λ (x : Result StartResult × KeyStore). x.0) e in cc
start_with-Begun meanwhile (ok (some key)) scope request_hash store store' r e =
    (key, refl, by_lookup (get_by_scope_and_key store.keys scope key) e)
  where
    by_lookup :
        (o : Option IdempotencyKey)
        → start_normalized meanwhile key scope request_hash o store ≡ (ok (started r), store')
        → Begun meanwhile key scope request_hash r store store'
    by_lookup (some x) q = absurd (resolve_existing-ne-started x request_hash store store' r q)
    by_lookup none q =
        create_or_resolve-Begun meanwhile key scope request_hash store store' r
          (get_by_scope_and_key (meanwhile store).keys scope key) refl q

is_key-new : (k : ℕ) (key scope h : Text) → is_key scope key (new_key k key scope h) ≡ true
is_key-new k key scope h = rw (eq_text_refl scope, eq_text_refl key) refl

-- The calls with the same key and scope that may follow the one that started a request.
abbrev pub Follows : (Text → Text) → Option Text → Text → Text → IdempotencyKey → KeyStore → Type 0
Follows hash_payload raw scope payload r store =
    ((start_request hash_payload alone raw scope payload store).0 ≡ err key_in_progress)
    × ((payload' : Text)
        → eq_text (hash_payload payload) (hash_payload payload') ≡ false
        → (start_request hash_payload alone raw scope payload' store).0 ≡ err key_reused)
    × ((status_code : ℕ) (body : Text) (resource_type : Option Text) (resource_id : Option ℕ)
        → (start_request hash_payload alone raw scope payload
            (finalize_success (some r) status_code body resource_type resource_id store)).0
          ≡ ok (replayed status_code body))
    × ((r' : IdempotencyKey) × ((start_request hash_payload alone raw scope payload
            (abort (some r) store)).0
          ≡ ok (started r')))

module _ (hash_payload : Text → Text) (raw : Option Text) (key scope payload : Text)
    (n : normalize_key raw ≡ ok (some key)) (store : KeyStore) where
  start_request-found :
      (x : IdempotencyKey)
      → get_by_scope_and_key store.keys scope key ≡ some x
      → start_request hash_payload alone raw scope payload store
        ≡ resolve_existing x (hash_payload payload) store
  unfolding start_request
  start_request-found x m = rw (n, m) refl

  start_request-free :
      get_by_scope_and_key store.keys scope key ≡ none
      → start_request hash_payload alone raw scope payload store
        ≡ create_or_resolve key scope (hash_payload payload) none store
  unfolding start_request
  start_request-free m = rw (n, m) (rw m refl)

eq_refl : (k : ℕ) → (k == k) ≡ true
eq_refl k = ground arith

module _ (hash_payload : Text → Text) (raw : Option Text) (key scope payload : Text)
    (n : normalize_key raw ≡ ok (some key)) (between : KeyStore)
    (free : get_by_scope_and_key between.keys scope key ≡ none) where
  abbrev new : IdempotencyKey
  new = new_key between.next_id key scope (hash_payload payload)

  abbrev store' : KeyStore
  store' = record between { keys = new ∷ between.keys; next_id = between.next_id + 1 }

  found : get_by_scope_and_key store'.keys scope key ≡ some new
  found = rw (is_key-new between.next_id key scope (hash_payload payload)) refl

  in_progress : (start_request hash_payload alone raw scope payload store').0 ≡ err key_in_progress
  unfolding resolve_existing
  in_progress =
      ap (λ (x : Result StartResult × KeyStore). x.0)
        (start_request-found hash_payload raw key scope payload n store' new found)
      ∙ rw (eq_text_refl (hash_payload payload)) refl

  reused :
      (payload' : Text)
      → eq_text (hash_payload payload) (hash_payload payload') ≡ false
      → (start_request hash_payload alone raw scope payload' store').0 ≡ err key_reused
  unfolding resolve_existing
  reused payload' other =
      ap (λ (x : Result StartResult × KeyStore). x.0)
        (start_request-found hash_payload raw key scope payload' n store' new found)
      ∙ rw other refl

  finalized :
      (status_code : ℕ) (body : Text) (resource_type : Option Text) (resource_id : Option ℕ)
      → (start_request hash_payload alone raw scope payload
          (finalize_success (some new) status_code body resource_type resource_id store')).0
        ≡ ok (replayed status_code body)
  unfolding resolve_existing finalize_success
  finalized status_code body resource_type resource_id =
      let done = finished status_code body resource_type resource_id new in
      let rest = finalize_success (some new) status_code body resource_type resource_id store' in
      let seen : get_by_scope_and_key rest.keys scope key ≡ some done =
        rw (eq_refl between.next_id)
          (rw (is_key-new between.next_id key scope (hash_payload payload)) refl) in
      ap (λ (x : Result StartResult × KeyStore). x.0)
        (start_request-found hash_payload raw key scope payload n rest done seen)
      ∙ rw (eq_text_refl (hash_payload payload)) refl

  aborted :
      (r' : IdempotencyKey) × ((start_request hash_payload alone raw scope payload
          (abort (some new) store')).0
        ≡ ok (started r'))
  unfolding abort
  aborted =
      let rest = abort (some new) store' in
      let gone : get_by_scope_and_key rest.keys scope key ≡ none = rw (eq_refl between.next_id) (
        first-keep-none (is_key scope key) (λ r. not (r.id == between.next_id)) between.keys
          free) in
      (
        new_key rest.next_id key scope (hash_payload payload),
        ap (λ (x : Result StartResult × KeyStore). x.0)
            (start_request-free hash_payload raw key scope payload n rest gone),
      )

-- If `start_request` starts a request under a key, whatever other requests commit between its
-- lookup and its insert, then with the same key and scope (`Follows`): the same request is refused
-- as in progress; a request of another hash is refused as a reuse; after `finalize_success` the
-- same request is answered with the stored status and body; and after `abort` it starts anew.
pub start_request-once :
    (hash_payload : Text → Text) (meanwhile : KeyStore → KeyStore) (raw : Option Text)
    (scope payload : Text) (store store' : KeyStore) (r : IdempotencyKey)
    → start_request hash_payload meanwhile raw scope payload store ≡ (ok (started r), store')
    → Follows hash_payload raw scope payload r store'
unfolding start_request
start_request-once hash_payload meanwhile raw scope payload store store' r e =
    let (key, n, (free, r_is, store_is)) =
      start_with-Begun meanwhile (normalize_key raw) scope (hash_payload payload) store store' r
        e in
    follows key n free r_is store_is
  where
    follows :
        (key : Text)
        → normalize_key raw ≡ ok (some key)
        → get_by_scope_and_key (meanwhile store).keys scope key ≡ none
        → r ≡ new_key (meanwhile store).next_id key scope (hash_payload payload)
        → store' ≡ record (meanwhile store) {
          keys = r ∷ (meanwhile store).keys;
          next_id = (meanwhile store).next_id + 1;
        }
        → Follows hash_payload raw scope payload r store'
    follows key n free r_is store_is =
        let between = meanwhile store in
        let new_store = record between {
          keys = new_key between.next_id key scope (hash_payload payload) ∷ between.keys;
          next_id = between.next_id + 1;
        } in
        let store_is' : store' ≡ new_store =
          store_is
          ∙ ap (λ x. record between { keys = x ∷ between.keys; next_id = between.next_id + 1 })
              r_is in
        subst (λ x. Follows hash_payload raw scope payload x store') (sym r_is)
          (subst
            (Follows hash_payload raw scope payload
              (new_key between.next_id key scope (hash_payload payload)))
            (sym store_is')
            (
              in_progress hash_payload raw key scope payload n between free,
              reused hash_payload raw key scope payload n between free,
              finalized hash_payload raw key scope payload n between free,
              aborted hash_payload raw key scope payload n between free,
            ))
