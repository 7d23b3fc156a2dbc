-- ===== src/RateLimit/Tests.antt =====
-- Runs of the rate limiter at concrete inputs.
use tfai_go.Base.{
  arith, ◌≡◌, refl, ℕ, ◌+◌, ◌-◌, Bool, true, false, Bytes, codes, List, [], ◌∷◌, ◌++◌, ◌==◌, not,
}
use tfai_go.RateLimit.{
  Rate, Event, request, tick, RateLimiter, new_rate_limiter, handle, verdicts, get_limiter,
  put_entry, entry_limiter,
}
use tfai_go.RateLimit.Isolation.{only, verdicts-only}
use tfai_go.RateLimit.Bucket.{bucket_verdicts, verdicts-bucket_verdicts}

-- A bucket that is never filled up again.
abbrev rate : Rate
rate = record {
  Limit = ℕ;
  Limiter = ℕ;
  new_limiter = λ rps burst. burst;
  allow = λ l now. (not (l == 0), l - 1);
}

abbrev here : Bytes
here = codes "10.0.0.1"

abbrev there : Bytes
there = codes "10.0.0.2"

abbrev events : List Event
events = request here 1 ∷ request there 2 ∷ tick 3 ∷ request here 4 ∷ request here 5 ∷ []

abbrev limiter : RateLimiter rate
limiter = new_rate_limiter rate 10 2

abbrev started : RateLimiter rate
started = (handle rate limiter here 0).0

verdicts-only_example :
    verdicts rate here limiter events ≡ verdicts rate here limiter (only here events)
verdicts-only_example = verdicts-only rate here limiter events

verdicts-bucket_verdicts_example :
    verdicts rate here started events ≡ bucket_verdicts rate here 1 events
unfolding handle get_limiter put_entry entry_limiter new_rate_limiter tfai_go.Base.bytes_eq
verdicts-bucket_verdicts_example =
    verdicts-bucket_verdicts rate here 0 1 started events refl (ground arith)
