-- ===== src/Idempotency/Others.antt =====
-- What the requests under one key do to another (backend/app/services/idempotency_service.py).
use book_point.Base.{
  ℕ, ◌≡◌, refl, sym, ◌∙◌, ap, subst, Bool, true, false, true≢false, not, ◌&&◌, Option, none, some,
  inl, inr, List, [], ◌∷◌, map, first, keep, In, ◌==◌, ==_iff, Bool-cases, arith, if◌then◌else◌,
}
use book_point.Base.Text.{Text, eq_text, eq_text→eq}
use book_point.Idempotency.{
  IdempotencyKey, KeyStore, abort, create_or_resolve, finalize_success, finished,
  get_by_scope_and_key, is_key, new_key, normalize_key, resolve_existing, start_normalized,
  start_request, replay_of,
}
use book_point.Results.{Result, ok, key_reused}
use book_point.Schedule.Pairwise.{
  Pairwise, has_clash, insert-Pairwise, keep-Pairwise, map-Pairwise, same_row,
}

abbrev pub same_key : IdempotencyKey → IdempotencyKey → Bool
same_key a b = is_key a.scope a.idempotency_key b

-- The rows have ids of their own below the next one, and no two of them scope and key in common.
abbrev pub IsTable : KeyStore → Type 0
IsTable store = Pairwise (λ r. r.id) same_key store.next_id store.keys

-- A resolved row leaves the table.
resolve_existing-table :
    (P : List IdempotencyKey → ℕ → Type 0) (x : IdempotencyKey) (request_hash : Text)
    (store : KeyStore)
    → P store.keys store.next_id
    → let after = (resolve_existing x request_hash store).1 in P after.keys after.next_id
unfolding resolve_existing
resolve_existing-table P x request_hash store h =
    by_test (eq_text x.request_hash request_hash) x.response_status_code x.response_body_json
  where
    by_test :
        (same : Bool) (status : Option ℕ) (body : Option Text)
        → let after =
            (if not same then (Result.err key_reused, store) else replay_of status body store).1 in
          P after.keys after.next_id
    by_test false status body = h
    by_test true (some c) (some b) = h
    by_test true (some c) none = h
    by_test true none body = h

first-map-fixed :
    {A : Type 0} (p : A → Bool) (f : A → A) (xs : List A)
    → ((x : A) → In x xs → (p (f x) ≡ p x) × (p x ≡ true → f x ≡ x))
    → first p (map f xs) ≡ first p xs
first-map-fixed p f [] h = refl
first-map-fixed p f (x ∷ xs) h =
    let (same, fixed) = h x (inl refl) in
    let rest = first-map-fixed p f xs (λ y i. h y (inr i)) in
    elim (Bool-cases (p x)) [ inl y ↦ rw (same, y) (ap some (fixed y)) | inr n ↦ rw (same, n) rest ]

first-keep-kept :
    {A : Type 0} (p q : A → Bool) (xs : List A)
    → ((x : A) → In x xs → p x ≡ true → q x ≡ true)
    → first p (keep q xs) ≡ first p xs
first-keep-kept p q [] h = refl
first-keep-kept p q (x ∷ xs) h =
    let rest = first-keep-kept p q xs (λ y i. h y (inr i)) in
    elim (Bool-cases (p x)) [
      | inl y ↦ rw (h x (inl refl) y, y) refl
      | inr n ↦ elim (Bool-cases (q x)) [ inl y ↦ rw (y, n) rest | inr m ↦ rw (m, n) rest ]
    ]

-- A row that no lookup finds clashes with none.
new-clash :
    (r : IdempotencyKey) (keys : List IdempotencyKey)
    → get_by_scope_and_key keys r.scope r.idempotency_key ≡ none
    → has_clash (λ x. x.id) same_key r none keys ≡ false
new-clash r [] e = refl
new-clash r (x ∷ keys) e = elim (Bool-cases (same_key r x)) [
  | inl y ↦ let found : some x ≡ none = rw y at e in cc
  | inr n ↦ rw n (new-clash r keys (rw n at e))
]

-- Two scopes and keys that differ: no row is of both.
abbrev pub Differs : (scope key scope' key' : Text) → Type 0
Differs scope key scope' key' = (eq_text scope scope' && eq_text key key') ≡ false

module _ (scope key scope' key' : Text) (other : Differs scope key scope' key') where
  not_both : (r : IdempotencyKey) → is_key scope key r ≡ true → is_key scope' key' r ≡ true → ⊥
  not_both r h h' =
      let a : r.scope ≡ scope = eq_text→eq r.scope scope (ground arith) in
      let b : r.idempotency_key ≡ key = eq_text→eq r.idempotency_key key (ground arith) in
      let moved : (eq_text scope scope' && eq_text key key') ≡ true =
        subst (λ (s : Text). (eq_text s scope' && eq_text key key') ≡ true) a
          (subst (λ (s : Text). (eq_text r.scope scope' && eq_text s key') ≡ true) b h') in
      true≢false (sym moved ∙ other)

  -- The table is kept, and the row of the other scope and key too.
  abbrev Kept : KeyStore → KeyStore → Type 0
  Kept store store' =
      IsTable store'
      × (get_by_scope_and_key store'.keys scope' key' ≡ get_by_scope_and_key store.keys scope' key')

  create_or_resolve-Kept :
      (request_hash : Text) (store : KeyStore) (o : Option IdempotencyKey)
      → get_by_scope_and_key store.keys scope key ≡ o
      → IsTable store
      → Kept store (create_or_resolve key scope request_hash o store).1
  create_or_resolve-Kept request_hash store (some x) e w =
      resolve_existing-table
        (λ keys n.
          Pairwise (λ r. r.id) same_key n keys
          × (get_by_scope_and_key keys scope' key' ≡ get_by_scope_and_key store.keys scope' key'))
        x request_hash store (w, refl)
  create_or_resolve-Kept request_hash store none e w =
      let new = new_key store.next_id key scope request_hash in
      (
        insert-Pairwise (λ r. r.id) same_key store.next_id new store.keys refl
            (new-clash new store.keys e) w,
        rw other refl,
      )

  start_normalized-Kept :
      (meanwhile : KeyStore → KeyStore) (request_hash : Text) (store : KeyStore)
      (o : Option IdempotencyKey)
      → Kept store (meanwhile store)
      → IsTable store
      → Kept store (start_normalized meanwhile key scope request_hash o store).1
  start_normalized-Kept meanwhile request_hash store (some x) quiet w =
      resolve_existing-table
        (λ keys n.
          Pairwise (λ r. r.id) same_key n keys
          × (get_by_scope_and_key keys scope' key' ≡ get_by_scope_and_key store.keys scope' key'))
        x request_hash store (w, refl)
  start_normalized-Kept meanwhile request_hash store none (w', same) w =
      let (after, kept) =
        create_or_resolve-Kept request_hash (meanwhile store)
          (get_by_scope_and_key (meanwhile store).keys scope key) refl w' in
      (after, kept ∙ same)

  module _ (r : IdempotencyKey) (store : KeyStore) (w : IsTable store) (i : In r store.keys)
      (own : is_key scope key r ≡ true) where
    -- A row of the other key has another id.
    other_id :
        (x : IdempotencyKey)
        → In x store.keys
        → is_key scope' key' x ≡ true
        → (x.id == r.id) ≡ false
    other_id x j h = elim (Bool-cases (x.id == r.id)) [
      | inr n ↦ n
      | inl y ↦
          let same =
            same_row (λ k. k.id) same_key store.next_id store.keys x r w j i
              ((==_iff x.id r.id).0 y) in
          absurd
            (not_both r own (subst (λ (z : IdempotencyKey). is_key scope' key' z ≡ true) same h))
    ]

    finalize_success-Kept :
        (status_code : ℕ) (body : Text) (resource_type : Option Text) (resource_id : Option ℕ)
        → Kept store (finalize_success (some r) status_code body resource_type resource_id store)
    unfolding finalize_success
    finalize_success-Kept status_code body resource_type resource_id = (
      map-Pairwise (λ x. x.id) same_key change keeps_id keeps_key store.next_id store.keys w,
      first-map-fixed (is_key scope' key') change store.keys
          (λ x j. (keeps_lookup x, λ h. rw (other_id x j h) refl)),
    )
      where
        change : IdempotencyKey → IdempotencyKey
        change x = if x.id == r.id then finished status_code body resource_type resource_id x else x

        keeps_id : (x : IdempotencyKey) → (change x).id ≡ x.id
        keeps_id x = elim (Bool-cases (x.id == r.id)) [ inl y ↦ rw y refl | inr n ↦ rw n refl ]

        keeps_key : (x z : IdempotencyKey) → same_key (change x) (change z) ≡ same_key x z
        keeps_key x z = elim (Bool-cases (x.id == r.id)) [
          | inl y ↦ elim (Bool-cases (z.id == r.id)) [
            | inl y' ↦ rw (y, y') refl
            | inr n ↦ rw (y, n) refl
          ]
          | inr n ↦ elim (Bool-cases (z.id == r.id)) [
            | inl y' ↦ rw (n, y') refl
            | inr m ↦ rw (n, m) refl
          ]
        ]

        keeps_lookup : (x : IdempotencyKey) → is_key scope' key' (change x) ≡ is_key scope' key' x
        keeps_lookup x = elim (Bool-cases (x.id == r.id)) [ inl y ↦ rw y refl | inr n ↦ rw n refl ]

    abort-Kept : Kept store (abort (some r) store)
    unfolding abort
    abort-Kept = (
      keep-Pairwise (λ x. x.id) same_key store.next_id (λ x. not (x.id == r.id)) store.keys w,
      first-keep-kept (is_key scope' key') (λ x. not (x.id == r.id)) store.keys
          (λ x j h. rw (other_id x j h) refl),
    )

-- A call of the service for one scope and key, the record being a row of the table under them. What other
-- requests commit during a start may be anything that keeps the table and the row of the other key.
pub data Use (scope key scope' key' : Text) : KeyStore → KeyStore → Type 0 where
  start :
      (hash_payload : Text → Text) (meanwhile : KeyStore → KeyStore) (raw : Option Text)
      (payload : Text) (store : KeyStore)
      → normalize_key raw ≡ ok (some key)
      → IsTable (meanwhile store)
      → get_by_scope_and_key (meanwhile store).keys scope' key'
        ≡ get_by_scope_and_key store.keys scope' key'
      → Use scope key scope' key' store
          (start_request hash_payload meanwhile raw scope payload store).1
  finalize :
      (r : IdempotencyKey) (status_code : ℕ) (body : Text) (resource_type : Option Text)
      (resource_id : Option ℕ) (store : KeyStore)
      → In r store.keys
      → is_key scope key r ≡ true
      → Use scope key scope' key' store
          (finalize_success (some r) status_code body resource_type resource_id store)
  give_up :
      (r : IdempotencyKey) (store : KeyStore)
      → In r store.keys
      → is_key scope key r ≡ true
      → Use scope key scope' key' store (abort (some r) store)

pub data Uses (scope key scope' key' : Text) (store : KeyStore) : KeyStore → Type 0 where
  unused : Uses scope key scope' key' store store
  used :
      {before after : KeyStore}
      → Uses scope key scope' key' store before
      → Use scope key scope' key' before after
      → Uses scope key scope' key' store after

Use-leaves_others :
    {scope key scope' key' : Text} {store store' : KeyStore}
    → Use scope key scope' key' store store'
    → Differs scope key scope' key'
    → IsTable store
    → IsTable store'
      × (get_by_scope_and_key store'.keys scope' key' ≡ get_by_scope_and_key store.keys scope' key')
unfolding start_request
Use-leaves_others {scope} {key} {scope'} {key'}
      (start hash_payload meanwhile raw payload store n table same) other w =
    rw n (
      start_normalized-Kept scope key scope' key' other meanwhile (hash_payload payload) store
        (get_by_scope_and_key store.keys scope key) (table, same) w)
Use-leaves_others {scope} {key} {scope'} {key'}
      (finalize r status_code body resource_type resource_id store i own) other w =
    finalize_success-Kept scope key scope' key' other r store w i own status_code body resource_type
      resource_id
Use-leaves_others {scope} {key} {scope'} {key'} (give_up r store i own) other w =
    abort-Kept scope key scope' key' other r store w i own

-- If the rows have ids of their own and no two have scope and key in common, then after any
-- sequence of calls under one scope and key (`start_request` with any payload, `finalize_success`
-- and `abort` of a row of the table), each with commits of other requests that keep this, the rows
-- are still so, and a lookup of another scope and key, which those commits leave, finds the row
-- that it found before.
pub Uses-leave_others :
    {scope key scope' key' : Text} {store store' : KeyStore}
    → Uses scope key scope' key' store store'
    → Differs scope key scope' key'
    → IsTable store
    → IsTable store'
      × (get_by_scope_and_key store'.keys scope' key' ≡ get_by_scope_and_key store.keys scope' key')
Uses-leave_others unused other w = (w, refl)
Uses-leave_others (used past call) other w =
    let (before, same) = Uses-leave_others past other w in
    let (after, kept) = Use-leaves_others call other before in (after, kept ∙ same)
