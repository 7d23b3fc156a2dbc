-- ===== src/Audit/Secrets.antt =====
-- The audit log shows of a secret only whether it is set.
use tfai_go.Base.{
  arith, ◌≡◌, refl, true, false, Option, List, [], ◌∷◌, map, Bytes, bytes_eq, String, Env, All,
  Bool-cases, inl, inr,
}
use tfai_go.Audit.{
  is_secret, presence, sanitise_key, AuditEntry, audit_keys, env_attrs, log_command_start,
  sanitise_config_path,
}

-- Two environments that differ at most in the values of secrets.
pub record SamePublic (a b : Env) : Type 0 where
  pub public : (k : String) → is_secret k ≡ false → a k ≡ b k
  pub secret : (k : String) → is_secret k ≡ true → bytes_eq (a k) [] ≡ bytes_eq (b k) []

-- The flag of an audit entry is what the table of secrets says of its key.
abbrev IsMarked : AuditEntry → Type 0
IsMarked e = e.secret ≡ is_secret e.key

audit_keys-IsMarked : All IsMarked audit_keys
unfolding is_secret
audit_keys-IsMarked = ground arith

presence_cong : (v w : Bytes) → bytes_eq v [] ≡ bytes_eq w [] → presence v ≡ presence w
unfolding presence
presence_cong v w h = rw h

env_attrs-SamePublic :
    (es : List AuditEntry) (a b : Env)
    → All IsMarked es
    → SamePublic a b
    → env_attrs es a ≡ env_attrs es b
unfolding env_attrs
env_attrs-SamePublic [] a b h same = refl
env_attrs-SamePublic (e ∷ es) a b (m, h) same = elim (Bool-cases (is_secret e.key)) [
  | inl s ↦
      rw (m, s)
        (cc (
          presence_cong (a e.key) (b e.key) (same.secret e.key s),
          env_attrs-SamePublic es a b h same,
        ))
  | inr p ↦ rw (m, p) (cc (same.public e.key p, env_attrs-SamePublic es a b h same))
]

-- The log of a command's start is the same in two environments that differ only in the values of
-- secrets: of a secret it shows whether it is set, and nothing else.
pub log_command_start-SamePublic :
    (home : Option Bytes) (a b : Env) (command config_path : Bytes)
    → SamePublic a b
    → log_command_start home a command config_path ≡ log_command_start home b command config_path
unfolding log_command_start
log_command_start-SamePublic home a b command config_path same =
    rw (env_attrs-SamePublic audit_keys a b audit_keys-IsMarked same)

env_attrs-sanitise_key :
    (es : List AuditEntry) (env : Env)
    → All IsMarked es
    → env_attrs es env ≡ map (λ e. (e.key, sanitise_key e.key (env e.key))) es
unfolding env_attrs sanitise_key
env_attrs-sanitise_key [] env h = refl
env_attrs-sanitise_key (e ∷ es) env (m, h) = rw (m, env_attrs-sanitise_key es env h)

-- Each variable of the log is shown as SanitiseKey shows it, so the flags of the audit keys and the
-- table of secrets agree.
pub log_command_start-sanitise_key :
    (home : Option Bytes) (env : Env) (command config_path : Bytes)
    → log_command_start home env command config_path
      ≡ ("command", command)
        ∷ ("config_file", sanitise_config_path home config_path)
        ∷ map (λ e. (e.key, sanitise_key e.key (env e.key))) audit_keys
unfolding log_command_start
log_command_start-sanitise_key home env command config_path =
    rw (env_attrs-sanitise_key audit_keys env audit_keys-IsMarked)
