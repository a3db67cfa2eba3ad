-- ===== src/Idempotency/Tests.antt =====
-- Runs of backend/app/services/idempotency_service.py.
use book_point.Base.{◌≡◌, refl, arith, inl, some, none, [], ◌∷◌}
use book_point.Base.Text.{Text, codes, strip}
use book_point.Idempotency.{
  IdempotencyKey, KeyStore, normalize_key, finished, get_by_scope_and_key, abort, finalize_success,
  new_key, start_request, started,
}
use book_point.Idempotency.Once.{Follows, alone, start_request-once}
use book_point.Idempotency.Others.{
  IsTable, Uses, Uses-leave_others, finalize, give_up, start, unused, used,
}
use book_point.Results.{err, key_in_progress, ok}

-- A hash that keeps the payload, for the tests.
abbrev hash_payload : Text → Text
hash_payload payload = payload

abbrev empty_store : KeyStore
empty_store = record { keys = []; next_id = 1; replays = 0 }

abbrev first_key : IdempotencyKey
first_key = new_key 1 (codes "k") (codes "s") (codes "p")

abbrev started_store : KeyStore
started_store = record { keys = first_key ∷ []; next_id = 2; replays = 0 }

start_run :
    start_request hash_payload alone (some (codes " k ")) (codes "s") (codes "p") empty_store
    ≡ (ok (started first_key), started_store)
unfolding start_request
start_run = refl

start_request-once_example :
    Follows hash_payload (some (codes " k ")) (codes "s") (codes "p") first_key started_store
start_request-once_example =
    start_request-once hash_payload alone (some (codes " k ")) (codes "s") (codes "p") empty_store
      started_store first_key start_run

-- Another request takes the key between the lookup and the insert.
abbrev raced : KeyStore → KeyStore
raced store = started_store

raced_run :
    (start_request hash_payload raced (some (codes "k")) (codes "s") (codes "p") empty_store).0
    ≡ err key_in_progress
unfolding start_request
raced_run = refl

-- A second request, under another key.
abbrev second_key : IdempotencyKey
second_key = new_key 2 (codes "j") (codes "s") (codes "q")

abbrev both : KeyStore
both = record { keys = first_key ∷ second_key ∷ []; next_id = 3; replays = 0 }

abbrev done : KeyStore
done = finalize_success (some first_key) 201 (codes "b") none none both

-- The first key is retried, finished, retried, and given up.
abbrev retried : KeyStore
retried = (start_request hash_payload alone (some (codes "k")) (codes "s") (codes "p") done).1

abbrev finished_key : IdempotencyKey
finished_key = finished 201 (codes "b") none none first_key

both-IsTable : IsTable both
both-IsTable = (omega arith, ((refl, refl), tt), (omega arith, tt, tt))

done-IsTable : IsTable done
unfolding finalize_success
done-IsTable = (omega arith, ((refl, refl), tt), (omega arith, tt, tt))

first_key-Uses :
    Uses (codes "s") (codes "k") (codes "s") (codes "j") both (abort (some finished_key) retried)
unfolding start_request finalize_success normalize_key strip
first_key-Uses =
    used
      (used
        (used
          (used unused
            (start hash_payload alone (some (codes " k")) (codes "p") both refl both-IsTable refl))
          (finalize first_key 201 (codes "b") none none both (inl refl) refl))
        (start hash_payload alone (some (codes "k")) (codes "p") done refl done-IsTable refl))
      (give_up finished_key retried (inl refl) refl)

Uses-leave_others_example :
    IsTable (abort (some finished_key) retried)
    × (get_by_scope_and_key (abort (some finished_key) retried).keys (codes "s") (codes "j")
        ≡ get_by_scope_and_key both.keys (codes "s") (codes "j"))
Uses-leave_others_example = Uses-leave_others first_key-Uses refl both-IsTable
