-- ===== src/RateLimiter/Tests.antt =====
-- Runs of backend/app/services/rate_limiter.py.
use book_point.Base.{ℕ, ◌≡◌, refl, min, List, [], ◌∷◌, none, true, false, arith}
use book_point.Base.Text.{Text, codes}
use book_point.RateLimiter.{
  RateLimitPolicy, RateLimiter, RedisClient, Settings, check, hit, hit_redis,
}
use book_point.RateLimiter.Fallback.{check-redis_down}
use book_point.RateLimiter.Window.{count_allowed, count_hits, count_allowed-window}

-- A client whose commands all raise.
abbrev no_redis : RedisClient ℕ
no_redis = record {
  incr = λ key server. (none, server);
  expire = λ key seconds server. (none, server);
  ttl = λ key server. (none, server);
}

abbrev settings : Settings
settings = record {
  enable_rate_limiting = true;
  rate_limit_use_redis = true;
  rate_limit_fallback_to_memory = false;
}

abbrev policy : RateLimitPolicy
policy = record { name = codes "public_slots"; limit = 1; window_seconds = 60 }

abbrev new_limiter : RateLimiter
new_limiter = record { entries = []; redis_disabled_until = 0 }

abbrev hash_key : Text → Text
hash_key key = key

-- Two requests after Redis failed: the first is let through and the second is not.
abbrev after_failure : RateLimiter
unfolding check
after_failure = (check hash_key settings no_redis policy (codes "a") 10 new_limiter 0).0.1

abbrev after_one_more : RateLimiter
unfolding check
after_one_more = (check hash_key settings no_redis policy (codes "a") 20 after_failure 0).0.1

blocked_without_fallback :
    (check hash_key settings no_redis policy (codes "a") 30 after_one_more 0).0.0.allowed ≡ false
unfolding check hit hit_redis
blocked_without_fallback = refl

check-redis_down_example :
    check hash_key settings no_redis policy
      (codes "a")
      20
      (check hash_key settings no_redis policy (codes "a") 10 new_limiter 0).0.1
      0
    ≡ check hash_key
        (record settings { rate_limit_use_redis = false })
        no_redis
        policy
        (codes "a")
        20
        (check hash_key settings no_redis policy (codes "a") 10 new_limiter 0).0.1
        0
unfolding hit_redis
check-redis_down_example =
    check-redis_down hash_key settings no_redis policy policy (codes "a") (codes "a") 10 20
      new_limiter 0 0 refl refl (omega arith) (λ k. refl) (omega arith)

abbrev client : Text
client = codes "k"

abbrev other_client : Text
other_client = codes "z"

abbrev four_hits : List (ℕ × Text)
four_hits = (1, client) ∷ (2, other_client) ∷ (3, client) ∷ (4, client) ∷ []

-- Two of the client's four hits are let through.
two_allowed : count_allowed client 2 60 ((0, client) ∷ four_hits) [] ≡ 2
unfolding count_allowed hit
two_allowed = refl

count_allowed-window_example :
    count_allowed client 2 60 ((0, client) ∷ four_hits) []
    ≡ min (count_hits client ((0, client) ∷ four_hits)) 2
count_allowed-window_example =
    count_allowed-window client 2 60 0 four_hits [] (omega arith) refl
      (omega arith, (omega arith, (omega arith, (omega arith, tt))))
