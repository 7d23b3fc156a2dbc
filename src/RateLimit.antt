-- ===== src/RateLimit.antt =====
-- internal/server/ratelimit.go: the limiter for each IP, its eviction and its middleware.
-- The token bucket is golang.org/x/time/rate, a parameter: `Rate` says what the code calls of it.
-- A request takes its limiter and spends a token in one step: another request of the same IP uses
-- the same limiter, and an eviction between the two cannot remove an entry that was just seen.
-- Times are in nanoseconds. The map is a function from the IP.
pub mod Client
pub mod Isolation
pub mod Bucket
mod Tests
use tfai_go.Base.{
  ℕ, ◌-◌, ◌*◌, ◌^◌, Bool, true, false, Option, none, some, List, [], ◌∷◌, Bytes, bytes_eq, ltb,
  if◌then◌else◌,
}

pub record Rate : Type 1 where
  pub Limit : Type 0
  pub Limiter : Type 0
  -- rate.NewLimiter(rps, burst)
  pub new_limiter : Limit → ℕ → Limiter
  -- limiter.Allow() at a time: the decision and the bucket after it
  pub allow : Limiter → ℕ → Bool × Limiter

abbrev pub default_rate_limit : ℕ
default_rate_limit = 10

abbrev pub default_rate_burst : ℕ
default_rate_burst = 20

-- 5 minutes
abbrev pub stale_after : ℕ
stale_after = 5 * 60 * 10 ^ 9

pub data Verdict : Type 0 where
  served rejected : Verdict

-- What happens to the limiter: a request from an IP at a time, or the ticker of the eviction loop.
pub data Event : Type 0 where
  request : Bytes → ℕ → Event
  tick : ℕ → Event

module _ (rate : Rate) where
  open rate use {Limit, Limiter, new_limiter, allow}

  pub record IpEntry : Type 0 where
    pub limiter : Limiter
    pub last_seen : ℕ

  pub record RateLimiter : Type 0 where
    pub ips : Bytes → Option IpEntry
    pub rps : Limit
    pub burst : ℕ

  -- newRateLimiter
  pub new_rate_limiter : Limit → ℕ → RateLimiter
  new_rate_limiter rps burst = record { ips = λ ip. none; rps = rps; burst = burst }

  -- rl.ips[ip] = entry
  pub put_entry : (Bytes → Option IpEntry) → Bytes → IpEntry → Bytes → Option IpEntry
  put_entry ips ip entry other = if bytes_eq ip other then some entry else ips other

  -- The limiter of the entry, or a new one.
  pub entry_limiter : RateLimiter → Option IpEntry → Limiter
  entry_limiter rl none = new_limiter rl.rps rl.burst
  entry_limiter rl (some entry) = entry.limiter

  -- getLimiter: the state with the entry seen now, and its limiter
  pub get_limiter : RateLimiter → Bytes → ℕ → RateLimiter × Limiter
  unfolding entry_limiter put_entry
  get_limiter rl ip now =
      let l = entry_limiter rl (rl.ips ip) in
      (record rl { ips = put_entry rl.ips ip (record { limiter = l; last_seen = now }) }, l)

  pub keep_fresh : ℕ → Option IpEntry → Option IpEntry
  keep_fresh cutoff none = none
  keep_fresh cutoff (some entry) = if ltb entry.last_seen cutoff then none else some entry

  -- evict
  pub evict : RateLimiter → ℕ → RateLimiter
  unfolding keep_fresh
  evict rl now = record rl { ips = λ ip. keep_fresh (now - stale_after) (rl.ips ip) }

  abbrev pub verdict : Bool → Verdict
  verdict true = served
  verdict false = rejected

  -- middleware: Allow mutates the limiter that the map's entry points to
  pub handle : RateLimiter → Bytes → ℕ → RateLimiter × Verdict
  unfolding get_limiter put_entry
  handle rl ip now =
      let (rl', l) = get_limiter rl ip now in
      let (ok, l') = allow l now in
      (
        record rl' { ips = put_entry rl'.ips ip (record { limiter = l'; last_seen = now }) },
        verdict ok,
      )

  -- The verdicts on the requests of one IP in a run.
  pub verdicts : Bytes → RateLimiter → List Event → List Verdict
  verdicts ip rl [] = []
  verdicts ip rl (request other now ∷ events) =
      let rest = verdicts ip (handle rl other now).0 events in
      if bytes_eq other ip then (handle rl other now).1 ∷ rest else rest
  verdicts ip rl (tick now ∷ events) = verdicts ip (evict rl now) events
