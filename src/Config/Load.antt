-- ===== src/Config/Load.antt =====
-- The precedence of Load: a variable of the environment wins over the file.
use tfai_go.Base.{
  ok, sym, ℕ, ◌≡◌, refl, ◌∙◌, inl, inr, true, false, List, [], ◌∷◌, Bytes, bytes_eq, bytes_eq_sound,
  String, str_eq, eq_iff, Env, set_env, if◌then◌else◌, Bool-cases, ◌&&◌, not, arith,
}
use tfai_go.Config.Types.{Numbers, YamlConfig}
use tfai_go.Config.{
  Row, env_mapping, is_skipped, apply_row, apply_rows, Files, load, resolve_config_path,
}

module _ (num : Numbers) where
  -- The value that a mapping has for a variable: the first that is not passed over.
  pub first_usable : YamlConfig num → List (Row num) → String → Bytes
  first_usable cfg [] k = []
  first_usable cfg ((key, value) ∷ rows) k =
      if str_eq key k && not (is_skipped num (value cfg))
      then value cfg
      else first_usable cfg rows k

  -- What the environment has, or else what the file has.
  abbrev pub env_or_file : Env → YamlConfig num → List (Row num) → String → Bytes
  env_or_file env cfg rows k = if bytes_eq (env k) [] then first_usable cfg rows k else env k

  used-filled : (v : Bytes) → is_skipped num v ≡ false → bytes_eq v [] ≡ false
  unfolding is_skipped
  used-filled v h = ground arith

  -- One row moves its value from the file to the environment.
  apply_row_lem :
      (cfg : YamlConfig num) (key : String) (value : YamlConfig num → Bytes) (rows : List (Row num))
      (env : Env) (n : ℕ) (k : String)
      → env_or_file (apply_row num cfg (key, value) (env, n)).0 cfg rows k
        ≡ env_or_file env cfg ((key, value) ∷ rows) k
  unfolding apply_row first_usable set_env
  apply_row_lem cfg key value rows env n k = elim (Bool-cases (is_skipped num (value cfg))) [
    | inl skip ↦ rw skip (ground arith)
    | inr keep ↦ elim (Bool-cases (bytes_eq (env key) [])) [
      | inl free ↦ elim (Bool-cases (str_eq key k)) [
        | inl same ↦
            let e : key ≡ k = (eq_iff key k).0 same in
            let free_k : bytes_eq (env k) [] ≡ true = rw e at free in
            rw (keep, free, same) (rw (used-filled (value cfg) keep, free_k) refl)
        | inr other ↦ rw (keep, free, other) refl
      ]
      | inr taken ↦ elim (Bool-cases (str_eq key k)) [
        | inl same ↦
            let e : key ≡ k = (eq_iff key k).0 same in
            let taken_k : bytes_eq (env k) [] ≡ false = rw e at taken in
            rw (keep, taken) (rw taken_k refl)
        | inr other ↦ rw (keep, taken, other) refl
      ]
    ]
  ]

  apply_rows_lem :
      (cfg : YamlConfig num) (rows : List (Row num)) (env : Env) (n : ℕ) (k : String)
      → (apply_rows num cfg rows (env, n)).0 k ≡ env_or_file env cfg rows k
  unfolding apply_rows first_usable
  apply_rows_lem cfg [] env n k = elim (Bool-cases (bytes_eq (env k) [])) [
    | inl e ↦ rw e (bytes_eq_sound (env k) [] e)
    | inr e ↦ rw e refl
  ]
  apply_rows_lem cfg ((key, value) ∷ rows) env n k =
      apply_rows_lem cfg rows (apply_row num cfg (key, value) (env, n)).0
        (apply_row num cfg (key, value) (env, n)).1 k
      ∙ apply_row_lem cfg key value rows env n k

  -- A configuration file that is found, read and decoded.
  pub record Found (files : Files num) (env : Env) (explicit : Bytes) (cfg : YamlConfig num)
      : Type 0 where
    pub path : Bytes
    pub text : Bytes
    pub resolved : resolve_config_path num files env explicit ≡ path
    pub filled : bytes_eq path [] ≡ false
    pub read_ok : files.read path ≡ ok text
    pub decoded : files.unmarshal text ≡ ok cfg

  -- After a file is loaded, each variable that had a value keeps it, and each other one has the value
  -- that the mapping takes from the file, which is empty for a variable with no such value.
  pub load-env_or_file :
      (files : Files num) (env : Env) (explicit : Bytes) (cfg : YamlConfig num) (k : String)
      → Found files env explicit cfg
      → (load num files env explicit).0 k ≡ env_or_file env cfg (env_mapping num) k
  unfolding load
  load-env_or_file files env explicit cfg k f =
      rw (f.resolved, f.filled, f.read_ok, f.decoded) (apply_rows_lem cfg (env_mapping num) env 0 k)

  no_server_row : (cfg : YamlConfig num) → first_usable cfg (env_mapping num) "TFAI_API_KEY" ≡ []
  unfolding first_usable
  no_server_row cfg = refl

  -- Whatever the file says, its `server` section included, loading it leaves the API key of the
  -- server as the environment had it.
  pub load-api_key :
      (files : Files num) (env : Env) (explicit : Bytes) (cfg : YamlConfig num)
      → Found files env explicit cfg
      → (load num files env explicit).0 "TFAI_API_KEY" ≡ env "TFAI_API_KEY"
  load-api_key files env explicit cfg f =
      load-env_or_file files env explicit cfg "TFAI_API_KEY" f
      ∙ elim (Bool-cases (bytes_eq (env "TFAI_API_KEY") [])) [
        | inl e ↦ rw (e, no_server_row cfg) (sym (bytes_eq_sound (env "TFAI_API_KEY") [] e))
        | inr e ↦ rw e refl
      ]
