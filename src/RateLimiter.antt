-- ===== src/RateLimiter.antt =====
-- backend/app/services/rate_limiter.py. Times count microseconds; Redis and the hash of a key are
-- parameters.
pub mod Fallback
pub mod Window
pub mod Tests
use book_point.Base.{
  ℕ, ◌+◌, ◌-◌, ◌*◌, ◌/◌, max, Bool, true, false, not, ◌&&◌, ◌||◌, Option, none, some, List, [], ◌∷◌,
  ◌++◌, keep, leb, ltb, ◌==◌, if◌then◌else◌,
}
use book_point.Base.Text.{Text, codes, eq_text}

pub record RateLimitPolicy : Type 0 where
  pub name : Text
  pub limit : ℕ
  pub window_seconds : ℕ

pub data Backend : Type 0 where
  memory redis redis_unavailable disabled : Backend

pub record RateLimitDecision : Type 0 where
  pub allowed : Bool
  pub retry_after_seconds : ℕ
  pub limit : ℕ
  pub remaining : ℕ
  pub policy_name : Text
  pub key_fingerprint : Text
  pub backend : Backend

pub record MemoryEntry : Type 0 where
  pub count : ℕ
  pub expires_at : ℕ

-- `_entries`, a dictionary
abbrev pub Entries : Type 0
Entries = List (Text × MemoryEntry)

abbrev pub get_entry : Entries → Text → Option MemoryEntry
get_entry [] key = none
get_entry ((k, e) ∷ entries) key = if eq_text k key then some e else get_entry entries key

abbrev pub set_entry : Text → MemoryEntry → Entries → Entries
set_entry key e [] = (key, e) ∷ []
set_entry key e ((k, old) ∷ entries) =
    let rest = set_entry key e entries in
    if eq_text k key then (k, e) ∷ entries else (k, old) ∷ rest

-- `_cleanup`: the entries that have expired go.
abbrev pub cleanup : ℕ → Entries → Entries
cleanup now = keep (λ e. not (leb e.1.expires_at now))

-- The entry after a hit: a new window, or one more in the one that runs.
abbrev pub next_entry : ℕ → ℕ → Option MemoryEntry → MemoryEntry
next_entry now window_seconds none = record {
  count = 1;
  expires_at = now + 1_000_000 * window_seconds;
}
next_entry now window_seconds (some e) =
    if leb e.expires_at now
    then record { count = 1; expires_at = now + 1_000_000 * window_seconds }
    else record e { count = e.count + 1 }

-- Allowed or not, the seconds to wait, and what is left.
abbrev pub Hit : Type 0
Hit = Bool × (ℕ × ℕ)

abbrev pub decide_hit : ℕ → ℕ → MemoryEntry → Hit
decide_hit now limit e =
    let allowed = leb e.count limit in
    let seconds = (e.expires_at - now) / 1_000_000 in
    (allowed, (if not allowed then max seconds 1 else seconds, limit - e.count))

unfoldable pub hit : Text → ℕ → ℕ → ℕ → Entries → Hit × Entries
hit key limit window_seconds now entries =
    let live = cleanup now entries in
    let entry = next_entry now window_seconds (get_entry live key) in
    (decide_hit now limit entry, set_entry key entry live)

pub record Settings : Type 0 where
  pub enable_rate_limiting : Bool
  pub rate_limit_use_redis : Bool
  pub rate_limit_fallback_to_memory : Bool

pub record RateLimiter : Type 0 where
  pub entries : Entries
  pub redis_disabled_until : ℕ

-- The client's commands, on the state of Redis; none is a RedisError. A TTL below zero is none.
pub record RedisClient (R : Type 0) : Type 0 where
  pub incr : Text → R → Option ℕ × R
  pub expire : Text → ℕ → R → Option Bool × R
  pub ttl : Text → R → Option (Option ℕ) × R

abbrev pub after_ttl : ℕ → ℕ → ℕ → Hit
after_ttl count limit seconds =
    let allowed = leb count limit in
    (allowed, (if not allowed then max seconds 1 else seconds, limit - count))

abbrev pub read_ttl :
    {R : Type 0} → RedisClient R → Text → ℕ → ℕ → ℕ → Option (Option ℕ) × R → Option Hit × R
read_ttl client key limit window_seconds count (none, server) = (none, server)
read_ttl client key limit window_seconds count (some (some seconds), server) =
    (some (after_ttl count limit seconds), server)
read_ttl client key limit window_seconds count (some none, server) =
    let (reply, server') = client.expire key window_seconds server in
    (elim reply [ none ↦ none | some _ ↦ some (after_ttl count limit window_seconds) ], server')

abbrev pub first_expire : {R : Type 0} → RedisClient R → Text → ℕ → ℕ → R → Option Bool × R
first_expire client key window_seconds count server =
    if count == 1 then client.expire key window_seconds server else (some true, server)

abbrev pub after_expire :
    {R : Type 0} → RedisClient R → Text → ℕ → ℕ → ℕ → Option Bool × R → Option Hit × R
after_expire client key limit window_seconds count (none, server) = (none, server)
after_expire client key limit window_seconds count (some reply, server) =
    read_ttl client key limit window_seconds count (client.ttl key server)

abbrev pub after_incr : {R : Type 0} → RedisClient R → Text → ℕ → ℕ → Option ℕ × R → Option Hit × R
after_incr client key limit window_seconds (none, server) = (none, server)
after_incr client key limit window_seconds (some count, server) =
    after_expire client key limit window_seconds count
      (first_expire client key window_seconds count server)

unfoldable pub hit_redis : {R : Type 0} → RedisClient R → Text → ℕ → ℕ → R → Option Hit × R
hit_redis client key limit window_seconds server =
    after_incr client key limit window_seconds (client.incr key server)

abbrev pub decision : RateLimitPolicy → Text → Backend → Hit → RateLimitDecision
decision policy key_fingerprint backend h = record {
  allowed = h.0;
  retry_after_seconds = h.1.0;
  limit = policy.limit;
  remaining = h.1.1;
  policy_name = policy.name;
  key_fingerprint = key_fingerprint;
  backend = backend;
}

abbrev pub hit_memory :
    RateLimitPolicy → Text → Text → ℕ → RateLimiter → RateLimitDecision × RateLimiter
hit_memory policy key_fingerprint storage_key now limiter =
    let (h, entries) = hit storage_key policy.limit policy.window_seconds now limiter.entries in
    (decision policy key_fingerprint memory h, record limiter { entries = entries })

-- An answer of Redis, or its error: five seconds without it, and the fallback, if it is enabled.
abbrev pub after_redis :
    Settings
    → RateLimitPolicy
    → Text
    → Text
    → ℕ
    → Option Hit
    → RateLimiter
    → RateLimitDecision × RateLimiter
after_redis settings policy key_fingerprint storage_key now (some h) limiter =
    (decision policy key_fingerprint redis h, limiter)
after_redis settings policy key_fingerprint storage_key now none limiter =
    let waiting = record limiter { redis_disabled_until = now + 5_000_000 } in
    if not settings.rate_limit_fallback_to_memory
    then (decision policy key_fingerprint redis_unavailable (true, (0, policy.limit)), waiting)
    else hit_memory policy key_fingerprint storage_key now waiting

unfoldable pub check :
    {R : Type 0}
    → (Text → Text)
    → Settings
    → RedisClient R
    → RateLimitPolicy
    → Text
    → ℕ
    → RateLimiter
    → R
    → (RateLimitDecision × RateLimiter) × R
unfolding hit
check sha256 settings client policy key now limiter redis_state =
    let key_fingerprint = sha256 (policy.name ++ codes ":" ++ key) in
    let storage_key = codes "rl:" ++ policy.name ++ codes ":" ++ key_fingerprint in
    let (reply, redis_state') =
      hit_redis client storage_key policy.limit policy.window_seconds redis_state in
    if not settings.enable_rate_limiting
    then (
      (decision policy key_fingerprint disabled (true, (0, policy.limit)), limiter),
      redis_state,
    )
    else if settings.rate_limit_use_redis && not (ltb now limiter.redis_disabled_until)
    then (after_redis settings policy key_fingerprint storage_key now reply limiter, redis_state')
    else (hit_memory policy key_fingerprint storage_key now limiter, redis_state)
