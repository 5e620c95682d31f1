-- ===== src/Auth/RateLimit/Laws.antt =====
-- When a request is let through, and how long it is told to wait.
use etoeragcb.Base.{ℕ, max, List, [], ◌∷◌, ◌++◌, ltb, if◌then◌else◌}
use etoeragcb.Base.Text.{Text}
use etoeragcb.Auth.RateLimit.{Limit, Counters, bucket_of, count_bucket}

-- A bucket that was counted: its limit, its count and its time to live.
pub record Counted : Type 0 where
  pub maximum : ℕ
  pub current : ℕ
  pub ttl : ℕ

-- The longest of the waits of the buckets that are over their limit, each a second at least.
unfoldable pub longest_wait : List Counted → ℕ
longest_wait [] = 0
longest_wait (c ∷ cs) =
    let rest = longest_wait cs in if ltb c.maximum c.current then max (max 1 c.ttl) rest else rest

module _ {R : Type 0} (redis : Counters R) where
  -- Every limit on every identifier, counted one after the other.
  unfoldable pub count_limits : Text → Text × Text → List Limit → R → R × List Counted
  count_limits scope identifier [] r = (r, [])
  count_limits scope identifier (limit ∷ limits) r =
      let counted = count_bucket redis r (bucket_of scope identifier limit.window) limit.window in
      let rest = count_limits scope identifier limits counted.0 in
      (
        rest.0,
        record { maximum = limit.maximum; current = counted.1.0; ttl = counted.1.1 } ∷ rest.1,
      )

  unfoldable pub count_all : Text → List (Text × Text) → List Limit → R → R × List Counted
  unfolding count_limits
  count_all scope [] limits r = (r, [])
  count_all scope (identifier ∷ identifiers) limits r =
      let counted = count_limits scope identifier limits r in
      let rest = count_all scope identifiers limits counted.0 in (rest.0, counted.1 ++ rest.1)
