-- ===== src/RateLimit/Bucket.antt =====
-- While an IP is not idle for longer than the eviction's limit, the map refines one token bucket.
use tfai_go.Base.{
  ℕ, ◌+◌, ◌-◌, ◌≤◌, ◌≡◌, refl, ap, false, Option, some, List, [], ◌∷◌, Bytes, bytes_eq,
  bytes_eq_refl, bytes_eq_sound, ltb, if◌then◌else◌, Bool-cases, inl, inr, arith,
}
use tfai_go.RateLimit.{
  Rate, IpEntry, Event, request, tick, Verdict, verdict, RateLimiter, put_entry, entry_limiter,
  get_limiter, keep_fresh, evict, handle, verdicts, stale_after,
}

-- Every tick of the run falls at most five minutes after the IP's last request.
abbrev pub IsActive : Bytes → ℕ → List Event → Type 0
IsActive ip last [] = Unit
IsActive ip last (request other now ∷ events) =
    IsActive ip (if bytes_eq other ip then now else last) events
IsActive ip last (tick now ∷ events) = (now ≤ last + stale_after) × IsActive ip last events

module _ (rate : Rate) where
  open rate use {Limiter, allow}

  -- The specification: one bucket, asked at each request of the IP.
  pub bucket_verdicts : Bytes → Limiter → List Event → List Verdict
  bucket_verdicts ip l [] = []
  bucket_verdicts ip l (request other now ∷ events) =
      let spent = bucket_verdicts ip (allow l now).1 events in
      let rest = bucket_verdicts ip l events in
      if bytes_eq other ip then verdict rate (allow l now).0 ∷ spent else rest
  bucket_verdicts ip l (tick now ∷ events) = bucket_verdicts ip l events

  abbrev entry_of : Limiter → ℕ → Option (IpEntry rate)
  entry_of l last = some (record { limiter = l; last_seen = last })

  handle_entry :
      (ip : Bytes) (now last : ℕ) (l : Limiter) (rl : RateLimiter rate)
      → rl.ips ip ≡ entry_of l last
      → ((handle rate rl ip now).0.ips ip ≡ entry_of (allow l now).1 now)
        × ((handle rate rl ip now).1 ≡ verdict rate (allow l now).0)
  unfolding handle get_limiter put_entry entry_limiter
  handle_entry ip now last l rl h = (rw (bytes_eq_refl ip) (rw h), rw h)

  handle_other :
      (ip other : Bytes) (now : ℕ) (rl : RateLimiter rate)
      → bytes_eq other ip ≡ false
      → (handle rate rl other now).0.ips ip ≡ rl.ips ip
  unfolding handle get_limiter put_entry
  handle_other ip other now rl ne = rw ne refl

  not_stale : (now last : ℕ) → now ≤ last + stale_after → ltb last (now - stale_after) ≡ false
  not_stale now last h = ground arith

  evict_entry :
      (ip : Bytes) (now last : ℕ) (l : Limiter) (rl : RateLimiter rate)
      → now ≤ last + stale_after
      → rl.ips ip ≡ entry_of l last
      → (evict rate rl now).ips ip ≡ entry_of l last
  unfolding evict keep_fresh
  evict_entry ip now last l rl near h = rw h (rw (not_stale now last near))

  -- From a state that holds a bucket for an IP, and while no tick falls more than five minutes after
  -- the IP's last request, the verdicts on its requests are those of that one bucket, which no
  -- eviction resets.
  pub verdicts-bucket_verdicts :
      (ip : Bytes) (last : ℕ) (l : Limiter) (rl : RateLimiter rate) (events : List Event)
      → rl.ips ip ≡ some (record { limiter = l; last_seen = last })
      → IsActive ip last events
      → verdicts rate ip rl events ≡ bucket_verdicts ip l events
  unfolding verdicts bucket_verdicts
  verdicts-bucket_verdicts ip last l rl [] h active = refl
  verdicts-bucket_verdicts ip last l rl (request other now ∷ events) h active =
      elim (Bool-cases (bytes_eq other ip)) [
        | inl e ↦
            let same : other ≡ ip = bytes_eq_sound other ip e in
            let seen : (handle rate rl other now).0.ips ip ≡ entry_of (allow l now).1 now =
              rw same (handle_entry ip now last l rl h).0 in
            let said : (handle rate rl other now).1 ≡ verdict rate (allow l now).0 =
              rw same (handle_entry ip now last l rl h).1 in
            rw (e, said)
              (ap (λ vs. verdict rate (allow l now).0 ∷ vs)
                (verdicts-bucket_verdicts ip now (allow l now).1 (handle rate rl other now).0 events
                  seen (rw e at active)))
        | inr e ↦ rw e (
            verdicts-bucket_verdicts ip last l (handle rate rl other now).0 events
              (rw (handle_other ip other now rl e) h) (rw e at active))
      ]
  verdicts-bucket_verdicts ip last l rl (tick now ∷ events) h (near, active) =
      verdicts-bucket_verdicts ip last l (evict rate rl now) events
        (evict_entry ip now last l rl near h) active
