-- ===== src/Auth/RateLimit/Tests.antt =====
-- Limits at concrete inputs.
use etoeragcb.Base.{ℕ, suc, true, false, ◌≡◌, refl, [], ◌∷◌, List, if◌then◌else◌}
use etoeragcb.Base.Text.{Text, codes, text_eq, join, decimal}
use etoeragcb.Auth.RateLimit.{
  Limit, Counters, count_bucket, check, register_failure, clear_failures,
}

-- Counters by key, and the times to live that were given; no time passes.
abbrev State : Type 0
State = (Text → ℕ) × (Text → ℕ)

abbrev with_value : Text → ℕ → (Text → ℕ) → Text → ℕ
with_value key n f k = if text_eq k key then n else f k

abbrev counters : Counters State
counters = record {
  incr = λ r key. ((with_value key (suc (r.0 key)) r.0, r.1), suc (r.0 key));
  expire = λ r key seconds. (r.0, with_value key seconds r.1);
  ttl = λ r key. r.1 key;
  delete = λ r key. (with_value key 0 r.0, with_value key 0 r.1);
}

abbrev fresh : State
fresh = ((λ key. 0), λ key. 0)

abbrev limits : List Limit
limits = record { maximum = 1; window = 60 } ∷ record { maximum = 5; window = 3600 } ∷ []

abbrev identifiers : List (Text × Text)
identifiers = (codes "ip", codes "10.0.0.1") ∷ []

abbrev asked_once : State
asked_once = (check counters (codes "login") identifiers limits fresh).0

-- The first request passes and the second waits for the window of a minute.
first_passes :
    (check counters (codes "login") identifiers limits fresh).1
    ≡ record { allowed = true; retry_after = 0 }
unfolding check count_bucket text_eq join decimal
first_passes = refl

second_waits :
    (check counters (codes "login") identifiers limits asked_once).1
    ≡ record { allowed = false; retry_after = 60 }
unfolding check count_bucket text_eq join decimal
second_waits = refl

-- The first failure costs an eighth of a second, and once they are cleared so does the next.
failure_delay : (register_failure counters (codes "ann") fresh).1 ≡ 1
unfolding register_failure text_eq
failure_delay = refl

cleared_delay :
    (register_failure counters
      (codes "ann")
      (clear_failures counters (codes "ann") (register_failure counters (codes "ann") fresh).0)).1
    ≡ 1
unfolding register_failure clear_failures text_eq
cleared_delay = refl
