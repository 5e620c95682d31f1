-- ===== src/Auth/RateLimit.antt =====
-- backend/app/auth/rate_limit.py: the limits on requests and the delay after failed logins. The counters
-- are kept by Redis, a parameter; a limit is the pair that its text `maximum/window` stands for, and a
-- time to live below zero counts as 0.
pub mod Laws
mod Tests
use etoeragcb.Base.{
  ℕ, suc, ◌+◌, ◌-◌, ◌^◌, min, max, Bool, true, false, List, [], ◌∷◌, ◌++◌, map, ltb, nat_eq,
  if◌then◌else◌,
}
use etoeragcb.Base.Text.{Text, codes, decimal, join}

pub record RateLimitDecision : Type 0 where
  pub allowed : Bool
  pub retry_after : ℕ

pub record Limit : Type 0 where
  pub maximum : ℕ
  pub window : ℕ

-- What is asked of Redis: `INCR`, `EXPIRE`, `TTL` and `DEL`. A script runs as one step.
pub record Counters (R : Type 0) : Type 0 where
  pub incr : R → Text → R × ℕ
  pub expire : R → Text → ℕ → R
  pub ttl : R → Text → ℕ
  pub delete : R → Text → R

-- `f"rate:{scope}:{label}:{identifier}:{window}"`.
unfoldable pub bucket_of : Text → Text × Text → ℕ → Text
bucket_of scope (label, identifier) window =
    join (codes ":") (codes "rate" ∷ scope ∷ label ∷ identifier ∷ decimal window ∷ [])

module _ {R : Type 0} (redis : Counters R) where
  -- `_increment_script`: the count of a bucket and its time to live.
  unfoldable pub count_bucket : R → Text → ℕ → R × (ℕ × ℕ)
  count_bucket r key window =
      let counted = redis.incr r key in
      let kept = if nat_eq counted.1 1 then redis.expire counted.0 key window else counted.0 in
      (kept, (counted.1, redis.ttl kept key))

  -- The inner loop: the counters and `retry_after` after the limits on one identifier.
  unfoldable pub check_limits : Text → Text × Text → List Limit → R → ℕ → R × ℕ
  unfolding bucket_of count_bucket
  check_limits scope identifier [] r retry_after = (r, retry_after)
  check_limits scope identifier (limit ∷ limits) r retry_after =
      let counted = count_bucket r (bucket_of scope identifier limit.window) limit.window in
      check_limits scope identifier limits counted.0
        (if ltb limit.maximum counted.1.0 then max retry_after (max 1 counted.1.1) else retry_after)

  -- The outer loop.
  unfoldable pub check_identifiers : Text → List (Text × Text) → List Limit → R → ℕ → R × ℕ
  unfolding check_limits
  check_identifiers scope [] limits r retry_after = (r, retry_after)
  check_identifiers scope (identifier ∷ identifiers) limits r retry_after =
      let checked = check_limits scope identifier limits r retry_after in
      check_identifiers scope identifiers limits checked.0 checked.1

  -- `check`.
  unfoldable pub check : Text → List (Text × Text) → List Limit → R → R × RateLimitDecision
  unfolding check_identifiers
  check scope identifiers limits r =
      let checked = check_identifiers scope identifiers limits r 0 in
      (checked.0, record { allowed = nat_eq checked.1 0; retry_after = checked.1 })

  unfoldable pub failures_key : Text → Text
  failures_key subject = codes "rate:login:failures:" ++ subject

  -- `register_failure`: the counters, and the delay in eighths of a second.
  unfoldable pub register_failure : Text → R → R × ℕ
  unfolding failures_key
  register_failure subject r =
      let counted = redis.incr r (failures_key subject) in
      (
        if nat_eq counted.1 1
            then redis.expire counted.0 (failures_key subject) 3600
            else counted.0,
        min 16 (2 ^ min (counted.1 - 1) 4),
      )

  -- `clear_failures`.
  unfoldable pub clear_failures : Text → R → R
  unfolding failures_key
  clear_failures subject r = redis.delete r (failures_key subject)
