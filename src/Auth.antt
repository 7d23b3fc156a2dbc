-- ===== src/Auth.antt =====
-- internal/server/auth.go: the Bearer token of a request and the check of it.
-- `r.Header.Get` gives the empty text for a header that is absent. ConstantTimeCompare is equality.
-- The Unicode case folding and white space of package `strings` are those of ASCII here; no letter
-- outside ASCII folds to a letter of "bearer".
pub mod Token
mod Tests
use tfai_go.Base.{
  ℕ, Bool, not, Option, none, some, [], ◌∷◌, Bytes, codes, bytes_eq, to_lower, trim_space, ◌==◌,
  if◌then◌else◌,
}

-- strings.SplitN(s, " ", 2): none if there is no space, which gives one part
pub push_scheme : ℕ → Option (Bytes × Bytes) → Option (Bytes × Bytes)
push_scheme c none = none
push_scheme c (some (scheme, rest)) = some (c ∷ scheme, rest)

pub cut_at_space : Bytes → Option (Bytes × Bytes)
unfolding push_scheme
cut_at_space [] = none
cut_at_space (c ∷ s) =
    let rest = push_scheme c (cut_at_space s) in if c == b' ' then some ([], s) else rest

-- strings.EqualFold
abbrev pub equal_fold : Bytes → Bytes → Bool
equal_fold s t = bytes_eq (to_lower s) (to_lower t)

pub token_of : Option (Bytes × Bytes) → Bytes
token_of none = []
token_of (some (scheme, rest)) =
    if not (equal_fold scheme (codes "bearer")) then [] else trim_space rest

-- bearerToken
pub bearer_token : Bytes → Bytes
unfolding cut_at_space token_of
bearer_token hdr = if bytes_eq hdr [] then [] else token_of (cut_at_space hdr)

-- What the middleware does with a request: pass it on, or answer 401 for one of two reasons.
pub data Gate : Type 0 where
  pass missing_header invalid_token : Gate

-- authMiddleware
pub auth_middleware : Bytes → Bytes → Gate
auth_middleware api_key hdr =
    if bytes_eq api_key []
    then pass
    else let token = bearer_token hdr in
      if bytes_eq token []
      then missing_header
      else if not (bytes_eq token api_key)
      then invalid_token
      else pass
