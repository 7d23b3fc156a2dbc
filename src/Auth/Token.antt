-- ===== src/Auth/Token.antt =====
-- Which requests the middleware lets through.
use tfai_go.Base.{
  ℕ, ◌≡◌, ◌≢◌, refl, sym, inl, inr, ◌↔◌, Option, none, some, false, [], ◌∷◌, ◌++◌, Bytes, codes,
  bytes_eq, bytes_eq_sound, bytes_eq_refl, bytes_eq_iff, bytes_eq_nil, to_lower, trim_space,
  trim_space_idem, All, ◌==◌, Bool-cases, arith,
}
use tfai_go.Auth.{cut_at_space, push_scheme, token_of, bearer_token, pass, auth_middleware}

-- A header of the form `scheme token`, split at the first space.
pub record IsBearer (hdr key : Bytes) : Type 0 where
  pub scheme : Bytes
  pub rest : Bytes
  pub spelled : hdr ≡ scheme ++ b' ' ∷ rest
  pub first_space : All (λ c. c ≢ b' ') scheme
  pub bearer : to_lower scheme ≡ codes "bearer"
  pub token : trim_space rest ≡ key

abbrev IsCut : Bytes → Option (Bytes × Bytes) → Type 0
IsCut s none = Unit
IsCut s (some (scheme, rest)) = (s ≡ scheme ++ b' ' ∷ rest) × All (λ c. c ≢ b' ') scheme

push_scheme-IsCut :
    (c : ℕ) (s : Bytes) (o : Option (Bytes × Bytes))
    → c ≢ b' '
    → IsCut s o
    → IsCut (c ∷ s) (push_scheme c o)
unfolding push_scheme
push_scheme-IsCut c s none ne h = tt
push_scheme-IsCut c s (some (scheme, rest)) ne (e, h) = (rw e, (ne, h))

cut_at_space-IsCut : (s : Bytes) → IsCut s (cut_at_space s)
unfolding cut_at_space
cut_at_space-IsCut [] = tt
cut_at_space-IsCut (c ∷ s) = elim (Bool-cases (c == b' ')) [
  | inl e ↦ rw e (ground arith, tt)
  | inr e ↦ rw e (push_scheme-IsCut c s (cut_at_space s) (ground arith) (cut_at_space-IsCut s))
]

cut_at_space-append :
    (scheme rest : Bytes)
    → All (λ c. c ≢ b' ') scheme
    → cut_at_space (scheme ++ b' ' ∷ rest) ≡ some (scheme, rest)
unfolding cut_at_space push_scheme
cut_at_space-append [] rest h = refl
cut_at_space-append (c ∷ scheme) rest (ne, h) =
    rw (cut_at_space-append scheme rest h) (ground arith)

token_of-IsBearer :
    (hdr key : Bytes) (o : Option (Bytes × Bytes))
    → IsCut hdr o
    → token_of o ≡ key
    → key ≢ []
    → IsBearer hdr key
unfolding token_of bytes_eq to_lower
token_of-IsBearer hdr key none h e ne = absurd (ne (sym e))
token_of-IsBearer hdr key (some (scheme, rest)) (s, f) e ne =
    elim (Bool-cases (bytes_eq (to_lower scheme) (codes "bearer"))) [
      | inl b ↦ record {
        scheme = scheme;
        rest = rest;
        spelled = s;
        first_space = f;
        bearer = bytes_eq_sound _ _ b;
        token = rw b at e;
      }
      | inr b ↦ absurd (ne (sym (rw b at e)))
    ]

bearer_token-IsBearer : (hdr key : Bytes) → bearer_token hdr ≡ key → key ≢ [] → IsBearer hdr key
unfolding bearer_token
bearer_token-IsBearer hdr key e ne = elim (Bool-cases (bytes_eq hdr [])) [
  | inl b ↦ absurd (ne (sym (rw b at e)))
  | inr b ↦ token_of-IsBearer hdr key (cut_at_space hdr) (cut_at_space-IsCut hdr) (rw b at e) ne
]

append-ne-nil : (s t : Bytes) (c : ℕ) → bytes_eq (s ++ c ∷ t) [] ≡ false
unfolding bytes_eq
append-ne-nil [] t c = refl
append-ne-nil (d ∷ s) t c = refl

IsBearer-bearer_token : (hdr key : Bytes) → IsBearer hdr key → bearer_token hdr ≡ key
unfolding bearer_token token_of bytes_eq trim_space to_lower
IsBearer-bearer_token hdr key b = rw b.spelled (
    rw
      (
        append-ne-nil b.scheme b.rest b' ',
        cut_at_space-append b.scheme b.rest b.first_space,
        b.bearer,
      )
      (b.token))

-- With a key set, the middleware passes a request on exactly when its header is the word "bearer",
-- in any case, a space, and a text that is the key once the white space around it is cut off.
pub auth_pass_iff :
    (key hdr : Bytes) → key ≢ [] → (auth_middleware key hdr ≡ pass) ↔ IsBearer hdr key
unfolding auth_middleware
auth_pass_iff key hdr ne = (
  λ h. bearer_token-IsBearer hdr key (passed h) ne,
  λ b. rw (IsBearer-bearer_token hdr key b) (rw (bytes_eq_nil key ne) (rw (bytes_eq_refl key))),
)
  where
    passed : auth_middleware key hdr ≡ pass → bearer_token hdr ≡ key
    passed h = ground (arith, bytes_eq_nil key ne, bytes_eq_iff (bearer_token hdr) key)

-- Some header opens the server exactly when the key that is set has no white space around it: no
-- request at all can present any other key.
pub auth_reachable_iff :
    (key : Bytes)
    → key ≢ []
    → ((hdr : Bytes) × (auth_middleware key hdr ≡ pass)) ↔ (trim_space key ≡ key)
auth_reachable_iff key ne = (
  λ (hdr, h).
      let b : IsBearer hdr key = (auth_pass_iff key hdr ne).0 h in
      rw (← b.token) (trim_space_idem b.rest),
  λ e. (codes "Bearer " ++ key, (auth_pass_iff key _ ne).1 (canonical e)),
)
  where
    canonical : trim_space key ≡ key → IsBearer (codes "Bearer " ++ key) key
    canonical e = record {
      scheme = codes "Bearer";
      rest = key;
      spelled = refl;
      first_space = omega arith;
      bearer = unfold to_lower in refl;
      token = e;
    }
