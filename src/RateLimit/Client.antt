-- ===== src/RateLimit/Client.antt =====
-- clientIP of internal/server/ratelimit.go.
use tfai_go.Base.{
  ℕ, ◌≡◌, ◌≢◌, refl, Option, none, some, [], ◌∷◌, ◌++◌, Bytes, All, ◌==◌, if◌then◌else◌, arith,
}

-- One byte in front of what the rest of the address gave.
pub cut_step : ℕ → Option Bytes → Option Bytes
cut_step c none = if c == b':' then some [] else none
cut_step c (some host) = some (c ∷ host)

-- What stands before the last colon, which the loop from the end of the address finds first.
pub before_last_colon : Bytes → Option Bytes
unfolding cut_step
before_last_colon [] = none
before_last_colon (c ∷ addr) = cut_step c (before_last_colon addr)

pub or_whole : Bytes → Option Bytes → Bytes
or_whole addr none = addr
or_whole addr (some host) = host

-- clientIP
pub client_ip : Bytes → Bytes
unfolding before_last_colon or_whole
client_ip addr = or_whole addr (before_last_colon addr)

abbrev pub LacksColon : Bytes → Type 0
LacksColon = All (λ c. c ≢ b':')

before_last_colon-LacksColon : (port : Bytes) → LacksColon port → before_last_colon port ≡ none
unfolding before_last_colon
before_last_colon-LacksColon [] h = refl
before_last_colon-LacksColon (c ∷ port) (hc, h) =
    rw (before_last_colon-LacksColon port h) (ground arith)

before_last_colon-append :
    (host port : Bytes) → LacksColon port → before_last_colon (host ++ b':' ∷ port) ≡ some host
unfolding before_last_colon
before_last_colon-append [] port h = rw (before_last_colon-LacksColon port h)
before_last_colon-append (c ∷ host) port h = rw (before_last_colon-append host port h)

-- Of an address `host:port` whose port has no colon, clientIP is the host, an IPv6 host with its
-- colons included; an address with no colon is returned whole.
pub client_ip-host_port :
    (host port : Bytes)
    → LacksColon port
    → (client_ip (host ++ b':' ∷ port) ≡ host) × (client_ip port ≡ port)
unfolding client_ip
client_ip-host_port host port h =
    (rw (before_last_colon-append host port h), rw (before_last_colon-LacksColon port h))
