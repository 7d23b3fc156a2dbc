-- ===== src/Provider/FromEnv/Tests.antt =====
-- A run of the overrides for generation at a concrete input: only GENERATE_MODEL and MODEL_PROVIDER are set.
use tfai_go.Base.{
  ◌≡◌, refl, none, ℕ, [], codes, Env, get_env_or_default, str_eq, bytes_eq, if◌then◌else◌,
}
use tfai_go.Provider.FromEnv.{config_from_env, no_overrides, with_generate_overrides}
use tfai_go.Provider.FromEnv.Generate.{with_generate_overrides-backend}

abbrev env : Env
env key =
    if str_eq key "GENERATE_MODEL"
    then codes "gpt-5"
    else if str_eq key "MODEL_PROVIDER"
    then codes "openai"
    else []

-- The type of temperatures does not matter here.
abbrev temperature : ℕ
temperature = 0

with_generate_overrides-backend_example :
    (with_generate_overrides env (config_from_env (λ s. none) (λ s. none) temperature env)).backend
    ≡ get_env_or_default env "GENERATE_MODEL_PROVIDER" (codes "ollama")
unfolding no_overrides bytes_eq
with_generate_overrides-backend_example =
    with_generate_overrides-backend (λ s. none) (λ s. none) temperature env refl
