-- ===== src/RateLimiter/Fallback.antt =====
-- The limiter when Redis fails (backend/app/services/rate_limiter.py).
use book_point.Base.{
  ℕ, ◌+◌, ◌<◌, ◌≤◌, ◌≡◌, refl, true, false, Option, none, some, inl, inr, ◌++◌, ltb, arith,
  Bool-cases,
}
use book_point.Base.Text.{Text, codes}
use book_point.RateLimiter.{
  RateLimitPolicy, RateLimiter, RedisClient, Settings, Hit, after_redis, check, hit, hit_redis,
}

-- Redis stays disabled for five seconds after a failure, with or without the fallback.
after_redis-disables :
    (settings : Settings) (policy : RateLimitPolicy) (key_fingerprint storage_key : Text) (now : ℕ)
    (reply : Option Hit) (limiter : RateLimiter)
    → reply ≡ none
    → (after_redis settings policy key_fingerprint storage_key now reply
        limiter).1.redis_disabled_until
      ≡ now + 5_000_000
unfolding hit
after_redis-disables settings policy key_fingerprint storage_key now (some h) limiter q = cc
after_redis-disables settings policy key_fingerprint storage_key now none limiter q =
    elim (Bool-cases settings.rate_limit_fallback_to_memory) [
      | inl y ↦ rw y refl
      | inr n ↦ rw n refl
    ]

check-disables :
    {R : Type 0} (sha256 : Text → Text) (settings : Settings) (client : RedisClient R)
    (policy : RateLimitPolicy) (key : Text) (now : ℕ) (limiter : RateLimiter) (server : R)
    → settings.enable_rate_limiting ≡ true
    → settings.rate_limit_use_redis ≡ true
    → limiter.redis_disabled_until ≤ now
    → ((k : Text) → (hit_redis client k policy.limit policy.window_seconds server).0 ≡ none)
    → (check sha256 settings client policy key now limiter server).0.1.redis_disabled_until
      ≡ now + 5_000_000
unfolding check
check-disables sha256 settings client policy key now limiter server enabled uses ready down =
    let due : ltb now limiter.redis_disabled_until ≡ false = ground arith in
    let fingerprint = sha256 (policy.name ++ codes ":" ++ key) in
    let storage_key = codes "rl:" ++ policy.name ++ codes ":" ++ fingerprint in
    rw (enabled, uses, due)
      (after_redis-disables settings policy fingerprint storage_key now
        (hit_redis client storage_key policy.limit policy.window_seconds server).0 limiter
        (down storage_key))

check-waiting :
    {R : Type 0} (sha256 : Text → Text) (settings : Settings) (client : RedisClient R)
    (policy : RateLimitPolicy) (key : Text) (now : ℕ) (limiter : RateLimiter) (server : R)
    → now < limiter.redis_disabled_until
    → check sha256 settings client policy key now limiter server
      ≡ check sha256
          (record settings { rate_limit_use_redis = false })
          client
          policy
          key
          now
          limiter
          server
unfolding check hit
check-waiting sha256 settings client policy key now limiter server l =
    let waiting : ltb now limiter.redis_disabled_until ≡ true = ground arith in
    elim (Bool-cases settings.rate_limit_use_redis) [
      | inl y ↦ rw (y, waiting) refl
      | inr n ↦ rw n refl
    ]

-- If rate limiting and Redis are enabled and the limiter is not waiting when a check comes, and
-- every hit on Redis fails at that time, then for five seconds from that check any further check,
-- of any policy and key, gives what it gives with Redis switched off: the memory store answers,
-- whether the fallback is enabled or not, and Redis is left alone.
pub check-redis_down :
    {R : Type 0} (sha256 : Text → Text) (settings : Settings) (client : RedisClient R)
    (policy policy' : RateLimitPolicy) (key key' : Text) (now later : ℕ) (limiter : RateLimiter)
    (server server' : R)
    → settings.enable_rate_limiting ≡ true
    → settings.rate_limit_use_redis ≡ true
    → limiter.redis_disabled_until ≤ now
    → ((k : Text) → (hit_redis client k policy.limit policy.window_seconds server).0 ≡ none)
    → later < now + 5_000_000
    → check sha256 settings client policy' key' later
        (check sha256 settings client policy key now limiter server).0.1
        server'
      ≡ check sha256
          (record settings { rate_limit_use_redis = false })
          client
          policy'
          key'
          later
          (check sha256 settings client policy key now limiter server).0.1
          server'
check-redis_down sha256 settings client policy policy' key key' now later limiter server server'
      enabled uses ready down soon =
    let until =
      check-disables sha256 settings client policy key now limiter server enabled uses ready down in
    check-waiting sha256 settings client policy' key' later
      (check sha256 settings client policy key now limiter server).0.1 server'
      (omega (arith, until))
