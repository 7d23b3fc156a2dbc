-- ===== src/RateLimit/Isolation.antt =====
-- The limiter treats each IP as if no other one were there.
use tfai_go.Base.{
  ℕ, ◌≡◌, refl, false, Option, none, some, List, [], ◌∷◌, Bytes, bytes_eq, bytes_eq_refl,
  bytes_eq_sound, if◌then◌else◌, Bool-cases, inl, inr,
}
use tfai_go.RateLimit.{
  Rate, IpEntry, Event, request, tick, RateLimiter, put_entry, entry_limiter, get_limiter, evict,
  handle, verdicts,
}

-- The events that one IP can notice: its own requests, and the ticks.
abbrev pub only : Bytes → List Event → List Event
only ip [] = []
only ip (request other now ∷ events) =
    let rest = only ip events in if bytes_eq other ip then request other now ∷ rest else rest
only ip (tick now ∷ events) = tick now ∷ only ip events

module _ (rate : Rate) where
  -- Two limiters that one IP cannot tell apart.
  record Agrees (ip : Bytes) (a b : RateLimiter rate) : Type 0 where
    entry : a.ips ip ≡ b.ips ip
    rps : a.rps ≡ b.rps
    burst : a.burst ≡ b.burst

  Agrees-refl : (ip : Bytes) (a : RateLimiter rate) → Agrees ip a a
  Agrees-refl ip a = record { entry = refl; rps = refl; burst = refl }

  entry_limiter_cong :
      (a b : RateLimiter rate) (o : Option (IpEntry rate))
      → a.rps ≡ b.rps
      → a.burst ≡ b.burst
      → entry_limiter rate a o ≡ entry_limiter rate b o
  unfolding entry_limiter
  entry_limiter_cong a b none p q = cc
  entry_limiter_cong a b (some entry) p q = refl

  Agrees-limiter :
      (ip : Bytes) (a b : RateLimiter rate)
      → Agrees ip a b
      → entry_limiter rate a (a.ips ip) ≡ entry_limiter rate b (b.ips ip)
  Agrees-limiter ip a b h = rw h.entry (entry_limiter_cong a b (b.ips ip) h.rps h.burst)

  handle-foreign :
      (ip other : Bytes) (now : ℕ) (a b : RateLimiter rate)
      → bytes_eq other ip ≡ false
      → Agrees ip a b
      → Agrees ip (handle rate a other now).0 b
  unfolding handle get_limiter put_entry
  handle-foreign ip other now a b ne h = record {
    entry = rw ne h.entry;
    rps = h.rps;
    burst = h.burst;
  }

  handle-own :
      (ip : Bytes) (now : ℕ) (a b : RateLimiter rate)
      → Agrees ip a b
      → Agrees ip (handle rate a ip now).0 (handle rate b ip now).0
  unfolding handle get_limiter put_entry
  handle-own ip now a b h = record {
    entry = rw (bytes_eq_refl ip) (rw (Agrees-limiter ip a b h));
    rps = h.rps;
    burst = h.burst;
  }

  verdict-own :
      (ip : Bytes) (now : ℕ) (a b : RateLimiter rate)
      → Agrees ip a b
      → (handle rate a ip now).1 ≡ (handle rate b ip now).1
  unfolding handle get_limiter
  verdict-own ip now a b h = rw (Agrees-limiter ip a b h)

  evict-Agrees :
      (ip : Bytes) (now : ℕ) (a b : RateLimiter rate)
      → Agrees ip a b
      → Agrees ip (evict rate a now) (evict rate b now)
  unfolding evict
  evict-Agrees ip now a b h = record { entry = rw h.entry; rps = h.rps; burst = h.burst }

  verdicts-Agrees :
      (ip : Bytes) (a b : RateLimiter rate) (events : List Event)
      → Agrees ip a b
      → verdicts rate ip a events ≡ verdicts rate ip b (only ip events)
  unfolding verdicts
  verdicts-Agrees ip a b [] h = refl
  verdicts-Agrees ip a b (request other now ∷ events) h = elim (Bool-cases (bytes_eq other ip)) [
    | inl e ↦
        rw (bytes_eq_sound other ip e, bytes_eq_refl ip, bytes_eq_refl ip)
          (cc (
            verdict-own ip now a b h,
            verdicts-Agrees ip (handle rate a ip now).0 (handle rate b ip now).0 events
                (handle-own ip now a b h),
          ))
    | inr e ↦ rw e (
        verdicts-Agrees ip (handle rate a other now).0 b events
          (handle-foreign ip other now a b e h))
  ]
  verdicts-Agrees ip a b (tick now ∷ events) h =
      verdicts-Agrees ip (evict rate a now) (evict rate b now) events (evict-Agrees ip now a b h)

  -- The verdicts on an IP's requests are those that it would get if no other IP sent any: requests
  -- of other IPs, in any number and at any place of the run, change nothing.
  pub verdicts-only :
      (ip : Bytes) (rl : RateLimiter rate) (events : List Event)
      → verdicts rate ip rl events ≡ verdicts rate ip rl (only ip events)
  verdicts-only ip rl events = verdicts-Agrees ip rl rl events (Agrees-refl ip rl)
