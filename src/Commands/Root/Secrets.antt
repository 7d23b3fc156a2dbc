-- ===== src/Commands/Root/Secrets.antt =====
-- What a run of a command logs before it starts does not depend on a secret, of the environment or of the file.
use tfai_go.Base.{
  ◌≡◌, ◌∙◌, refl, sym, ap, inl, inr, ℕ, suc, true, false, Option, none, some, List, [], ◌∷◌, Bytes,
  codes, ◌++◌, bytes_eq, String, str_eq, Env, set_env, Result, ok, err, All, Bool-cases,
  if◌then◌else◌, eq_iff, arith,
}
use tfai_go.Audit.{is_secret}
use tfai_go.Audit.Secrets.{SamePublic, log_command_start-SamePublic}
use tfai_go.Commands.{Logger, new_logger}
use tfai_go.Commands.Root.{after_load, pre_run}
use tfai_go.Config.{
  Row, env_mapping, is_skipped, apply_row, apply_rows, Files, or_local, home_or_local,
  resolve_config_path, Loaded, loaded, read_failed, parse_failed, apply_config, apply_file, load,
}
use tfai_go.Config.Types.{Numbers, YamlConfig}

set_env-SamePublic :
    (a b : Env) (key : String) (v w : Bytes)
    → (is_secret key ≡ false → v ≡ w)
    → bytes_eq v [] ≡ bytes_eq w []
    → SamePublic a b
    → SamePublic (set_env a key v) (set_env b key w)
unfolding set_env
set_env-SamePublic a b key v w p e same = record {
  public = λ k s. elim (Bool-cases (str_eq key k)) [
    | inl q ↦ rw q (p (rw ((eq_iff key k).0 q) s))
    | inr q ↦ rw q (same.public k s)
  ];
  secret =
      λ k s. elim (Bool-cases (str_eq key k)) [ inl q ↦ rw q e | inr q ↦ rw q (same.secret k s) ];
}

module _ (num : Numbers) (c d : YamlConfig num) where
  -- The values of a row are the same, or they are of a secret and one is passed over just if the other is.
  pub record IsSameRow (row : Row num) : Type 0 where
    pub public : is_secret row.0 ≡ false → row.1 c ≡ row.1 d
    pub secret : is_secret row.0 ≡ true → is_skipped num (row.1 c) ≡ is_skipped num (row.1 d)

  -- Two configurations that differ at most in the values of secrets.
  abbrev pub SameConfig : Type 0
  SameConfig = All IsSameRow (env_mapping num)

  skipped_lem :
      (row : Row num) → IsSameRow row → is_skipped num (row.1 c) ≡ is_skipped num (row.1 d)
  skipped_lem row h = elim (Bool-cases (is_secret row.0)) [
    | inl s ↦ h.secret s
    | inr s ↦ ap (is_skipped num) (h.public s)
  ]

  empty_lem : (a b : Env) (k : String) → SamePublic a b → bytes_eq (a k) [] ≡ bytes_eq (b k) []
  empty_lem a b k same = elim (Bool-cases (is_secret k)) [
    | inl s ↦ same.secret k s
    | inr s ↦ ap (λ v. bytes_eq v []) (same.public k s)
  ]

  -- What both loops keep.
  abbrev Alike : Env × ℕ → Env × ℕ → Type 0
  Alike (a, n) (b, m) = SamePublic a b × (n ≡ m)

  not_empty : (v : Bytes) → is_skipped num v ≡ false → bytes_eq v [] ≡ false
  unfolding is_skipped
  not_empty v h = ground arith

  apply_row-Alike :
      (key : String) (value : YamlConfig num → Bytes) (a b : Env) (n m : ℕ)
      → IsSameRow (key, value)
      → SamePublic a b
      → n ≡ m
      → Alike (apply_row num c (key, value) (a, n)) (apply_row num d (key, value) (b, m))
  unfolding apply_row
  apply_row-Alike key value a b n m h same e = elim (Bool-cases (is_skipped num (value d))) [
    | inl s ↦ rw (skipped_lem (key, value) h, s) (same, e)
    | inr s ↦ elim (Bool-cases (bytes_eq (b key) [])) [
      | inl q ↦
          rw (skipped_lem (key, value) h, s, empty_lem a b key same, q)
            (
              set_env-SamePublic a b key (value c) (value d) h.public
                  (not_empty (value c) (skipped_lem (key, value) h ∙ s)
                    ∙ sym (not_empty (value d) s))
                  same,
              ap suc e,
            )
      | inr q ↦ rw (skipped_lem (key, value) h, s, empty_lem a b key same, q) (same, e)
    ]
  ]

  apply_rows-Alike :
      (rows : List (Row num)) (a b : Env) (n m : ℕ)
      → All IsSameRow rows
      → SamePublic a b
      → n ≡ m
      → Alike (apply_rows num c rows (a, n)) (apply_rows num d rows (b, m))
  unfolding apply_rows
  apply_rows-Alike [] a b n m h same e = (same, e)
  apply_rows-Alike ((key, value) ∷ rows) a b n m (h, hs) same e =
      let (s, k) = apply_row-Alike key value a b n m h same e in
      let (a', n') = apply_row num c (key, value) (a, n) in
      let (b', m') = apply_row num d (key, value) (b, m) in apply_rows-Alike rows a' b' n' m' hs s k

module _ (num : Numbers) where
  -- What a file gives on both sides: the same failure, with the same text of the error, or configurations that differ
  -- at most in secrets.
  abbrev pub SameDecoded : Result (YamlConfig num) → Result (YamlConfig num) → Type 0
  SameDecoded (err e) (err e') = e ≡ e'
  SameDecoded (ok c) (ok d) = SameConfig num c d
  SameDecoded c d = ⊥

  abbrev pub SameText : Files num → Files num → Result Bytes → Result Bytes → Type 0
  SameText f g (err e) (err e') = e ≡ e'
  SameText f g (ok t) (ok u) = SameDecoded (f.unmarshal t) (g.unmarshal u)
  SameText f g t u = ⊥

  -- Two file systems with the same files, whose configurations differ at most in secrets, and whose errors do not
  -- differ.
  pub record SameFiles (f g : Files num) : Type 0 where
    pub home : f.home ≡ g.home
    pub stat : (path : Bytes) → f.stat path ≡ g.stat path
    pub text : (path : Bytes) → SameText f g (f.read path) (g.read path)

  -- The results of Load.
  abbrev SameLoad : Env × Loaded num → Env × Loaded num → Type 0
  SameLoad (a, r) (b, q) = SamePublic a b × (r ≡ q)

  apply_config-SameLoad :
      (a b : Env) (path : Bytes) (c d : Result (YamlConfig num))
      → SameDecoded c d
      → SamePublic a b
      → SameLoad (apply_config num a path c) (apply_config num b path d)
  unfolding apply_config
  apply_config-SameLoad a b path (err e) (err e') h same =
      (same, ap (λ m. parse_failed (codes "config: failed to parse " ++ path ++ codes ": " ++ m)) h)
  apply_config-SameLoad a b path (err e) (ok d) h same = absurd h
  apply_config-SameLoad a b path (ok c) (err e) h same = absurd h
  apply_config-SameLoad a b path (ok c) (ok d) h same =
      let (s, e) = apply_rows-Alike num c d (env_mapping num) a b 0 0 h same refl in
      (s, ap (loaded path) e)

  apply_file-SameLoad :
      (f g : Files num) (a b : Env) (path : Bytes) (t u : Result Bytes)
      → SameText f g t u
      → SamePublic a b
      → SameLoad (apply_file num f a path t) (apply_file num g b path u)
  unfolding apply_file
  apply_file-SameLoad f g a b path (err e) (err e') h same =
      (same, ap (λ m. read_failed (codes "config: failed to read " ++ path ++ codes ": " ++ m)) h)
  apply_file-SameLoad f g a b path (err e) (ok u) h same = absurd h
  apply_file-SameLoad f g a b path (ok t) (err e) h same = absurd h
  apply_file-SameLoad f g a b path (ok t) (ok u) h same =
      apply_config-SameLoad a b path (f.unmarshal t) (g.unmarshal u) h same

  or_local_lem : (f g : Files num) → SameFiles f g → or_local num f ≡ or_local num g
  unfolding or_local
  or_local_lem f g h = ap (λ b. if b then codes "tfai.yaml" else []) (h.stat (codes "tfai.yaml"))

  home_or_local_lem :
      (f g : Files num) (home : Option Bytes)
      → SameFiles f g
      → home_or_local num f home ≡ home_or_local num g home
  unfolding home_or_local
  home_or_local_lem f g none h = or_local_lem f g h
  home_or_local_lem f g (some home) h = rw (h.stat _, or_local_lem f g h) refl

  resolve_config_path_lem :
      (f g : Files num) (a b : Env) (explicit : Bytes)
      → SameFiles f g
      → a "TFAI_CONFIG" ≡ b "TFAI_CONFIG"
      → resolve_config_path num f a explicit ≡ resolve_config_path num g b explicit
  unfolding resolve_config_path
  resolve_config_path_lem f g a b explicit h e =
      rw (e, h.stat explicit, h.stat (b "TFAI_CONFIG"), h.home, home_or_local_lem f g g.home h) refl

  load-SameLoad :
      (f g : Files num) (a b : Env) (explicit : Bytes)
      → SameFiles f g
      → SamePublic a b
      → SameLoad (load num f a explicit) (load num g b explicit)
  unfolding load is_secret
  load-SameLoad f g a b explicit h same =
      rw (resolve_config_path_lem f g a b explicit h (same.public "TFAI_CONFIG" refl))
        (elim (Bool-cases (bytes_eq (resolve_config_path num g b explicit) [])) [
          | inl e ↦ rw e (same, refl)
          | inr e ↦
              let path = resolve_config_path num g b explicit in
              rw e (apply_file-SameLoad f g a b path (f.read path) (g.read path) (h.text path) same)
        ])

  after_load-same :
      (home : Option Bytes) (log : Logger) (command : Bytes) (x y : Env × Loaded num)
      → SameLoad x y
      → ((after_load num home log command x).1 ≡ (after_load num home log command y).1)
        × SamePublic (after_load num home log command x).0 (after_load num home log command y).0
  unfolding after_load
  after_load-same home log command (a, loaded path n) (b, r) (same, e) = rw (← e) (
    ap (λ attrs. ok (record { logger = log; attrs = attrs }))
        (log_command_start-SamePublic home a b command path same),
    same,
  )
  after_load-same home log command (a, read_failed message) (b, r) (same, e) = rw (← e) (refl, same)
  after_load-same home log command (a, parse_failed message) (b, r) (same, e) =
      rw (← e) (refl, same)

  -- The home directories and the loggers are the same as well.
  after_load_cong :
      (home home' : Option Bytes) (log log' : Logger) (command : Bytes) (x y : Env × Loaded num)
      → home ≡ home'
      → log ≡ log'
      → SameLoad x y
      → ((after_load num home log command x).1 ≡ (after_load num home' log' command y).1)
        × SamePublic (after_load num home log command x).0 (after_load num home' log' command y).0
  after_load_cong home home' log log' command x y e e' h =
      rw (e, e') (after_load-same home' log' command x y h)

  new_logger_lem : (a b : Env) → SamePublic a b → new_logger a ≡ new_logger b
  unfolding new_logger is_secret
  new_logger_lem a b same = rw (same.public "LOG_LEVEL" refl, same.public "LOG_FORMAT" refl) refl

  -- Two starts of a command that differ at most in the values of secrets, in the environment or in the configuration
  -- file, log the same: the same entry by a logger of the same level and format, or the same error; provided that a
  -- file that cannot be read or parsed gives the same text of the error in both, which is part of the error that the
  -- command ends with. And the command goes on in environments that differ at most in the values of secrets. A secret
  -- of the file counts as set unless it is empty, 0 or false.
  pub pre_run-SamePublic :
      (f g : Files num) (a b : Env) (config_path command : Bytes)
      → SameFiles f g
      → SamePublic a b
      → ((pre_run num f a config_path command).1 ≡ (pre_run num g b config_path command).1)
        × SamePublic (pre_run num f a config_path command).0 (pre_run num g b config_path command).0
  unfolding pre_run
  pre_run-SamePublic f g a b config_path command h same =
      after_load_cong f.home g.home (new_logger a) (new_logger b) command (load num f a config_path)
        (load num g b config_path) h.home (new_logger_lem a b same)
        (load-SameLoad f g a b config_path h same)
