-- ===== src/Idempotency.antt =====
-- backend/app/services/idempotency_service.py and its repository. The JSON of a payload or a response
-- is a text, and the hash of a payload a parameter.
pub mod Once
pub mod Others
pub mod Tests
use book_point.Base.{
  ℕ, ◌+◌, Bool, true, false, not, ◌&&◌, Option, none, some, List, [], ◌∷◌, ◌++◌, map, reverse, any,
  first, keep, length, ltb, ◌==◌, if◌then◌else◌,
}
use book_point.Base.Text.{Text, eq_text, strip}
use book_point.Results.{Result, err, key_in_progress, key_reused, key_too_long, ok}

abbrev pub max_idempotency_key_length : ℕ
max_idempotency_key_length = 255

pub record IdempotencyKey : Type 0 where
  pub id : ℕ
  pub idempotency_key : Text
  pub scope : Text
  pub request_hash : Text
  pub response_status_code : Option ℕ
  pub response_body_json : Option Text
  pub resource_type : Option Text
  pub resource_id : Option ℕ

-- The table, its next id, and the replays that the metrics and the events count.
pub record KeyStore : Type 0 where
  pub keys : List IdempotencyKey
  pub next_id : ℕ
  pub replays : ℕ

-- `IdempotencyStartResult`: neither field, the record, or the response to replay.
pub data StartResult : Type 0 where
  untracked : StartResult
  started : IdempotencyKey → StartResult
  replayed : ℕ → Text → StartResult

abbrev pub normalize_stripped : Text → Result (Option Text)
normalize_stripped [] = ok none
normalize_stripped (c ∷ s) =
    if ltb max_idempotency_key_length (length (c ∷ s)) then err key_too_long else ok (some (c ∷ s))

unfoldable pub normalize_key : Option Text → Result (Option Text)
unfolding strip
normalize_key none = ok none
normalize_key (some value) = normalize_stripped (strip value)

abbrev pub is_key : Text → Text → IdempotencyKey → Bool
is_key scope key r = eq_text r.scope scope && eq_text r.idempotency_key key

abbrev pub get_by_scope_and_key : List IdempotencyKey → Text → Text → Option IdempotencyKey
get_by_scope_and_key keys scope key = first (is_key scope key) keys

-- The response of a finished request.
abbrev pub replay_of : Option ℕ → Option Text → KeyStore → Result StartResult × KeyStore
replay_of (some status_code) (some body) store =
    (ok (replayed status_code body), record store { replays = store.replays + 1 })
replay_of _ _ store = (err key_in_progress, store)

-- `_resolve_existing`
unfoldable pub resolve_existing : IdempotencyKey → Text → KeyStore → Result StartResult × KeyStore
resolve_existing existing request_hash store =
    if not (eq_text existing.request_hash request_hash)
    then (err key_reused, store)
    else replay_of existing.response_status_code existing.response_body_json store

abbrev pub new_key : ℕ → Text → Text → Text → IdempotencyKey
new_key k key scope request_hash = record {
  id = k;
  idempotency_key = key;
  scope = scope;
  request_hash = request_hash;
  response_status_code = none;
  response_body_json = none;
  resource_type = none;
  resource_id = none;
}

-- `repo.create`, under the unique constraint on scope and key: a row that another request has
-- committed meanwhile is an IntegrityError, and is resolved in place of the new one.
abbrev pub create_or_resolve :
    Text → Text → Text → Option IdempotencyKey → KeyStore → Result StartResult × KeyStore
create_or_resolve key scope request_hash (some raced) store =
    resolve_existing raced request_hash store
create_or_resolve key scope request_hash none store =
    let new = new_key store.next_id key scope request_hash in
    (ok (started new), record store { keys = new ∷ store.keys; next_id = store.next_id + 1 })

-- From the lookup on. `meanwhile` is what other requests commit between the lookup and the insert.
abbrev pub start_normalized :
    (KeyStore → KeyStore)
    → Text
    → Text
    → Text
    → Option IdempotencyKey
    → KeyStore
    → Result StartResult × KeyStore
start_normalized meanwhile key scope request_hash (some existing) store =
    resolve_existing existing request_hash store
start_normalized meanwhile key scope request_hash none store =
    create_or_resolve key scope request_hash (get_by_scope_and_key (meanwhile store).keys scope key)
      (meanwhile store)

abbrev pub start_with :
    (KeyStore → KeyStore)
    → Result (Option Text)
    → Text
    → Text
    → KeyStore
    → Result StartResult × KeyStore
start_with meanwhile (err e) scope request_hash store = (err e, store)
start_with meanwhile (ok none) scope request_hash store = (ok untracked, store)
start_with meanwhile (ok (some key)) scope request_hash store =
    start_normalized meanwhile key scope request_hash (get_by_scope_and_key store.keys scope key)
      store

unfoldable pub start_request :
    (Text → Text)
    → (KeyStore → KeyStore)
    → Option Text
    → Text
    → Text
    → KeyStore
    → Result StartResult × KeyStore
unfolding resolve_existing normalize_key
start_request hash_payload meanwhile idempotency_key scope request_payload store =
    start_with meanwhile (normalize_key idempotency_key) scope (hash_payload request_payload) store

abbrev pub finished : ℕ → Text → Option Text → Option ℕ → IdempotencyKey → IdempotencyKey
finished status_code body resource_type resource_id r = record r {
  response_status_code = some status_code;
  response_body_json = some body;
  resource_type = resource_type;
  resource_id = resource_id;
}

unfoldable pub finalize_success :
    Option IdempotencyKey → ℕ → Text → Option Text → Option ℕ → KeyStore → KeyStore
finalize_success none status_code body resource_type resource_id store = store
finalize_success (some k) status_code body resource_type resource_id store = record store {
  keys =
      map (λ r. if r.id == k.id then finished status_code body resource_type resource_id r else r)
        store.keys;
}

unfoldable pub abort : Option IdempotencyKey → KeyStore → KeyStore
abort none store = store
abort (some k) store = record store { keys = keep (λ r. not (r.id == k.id)) store.keys }
