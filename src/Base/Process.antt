-- ===== src/Base/Process.antt =====
-- The environment of the process: os.Getenv gives the empty text for a variable that is not set.
use Prim.Native.String.{[], String}
use mathlib.Core.List.{[]}
use text.Mathlib.Text.{◌==◌ as str_eq}
use tfai_go.Base.Tests.{if◌then◌else◌}
use tfai_go.Base.Text.{Bytes, bytes_eq}

abbrev pub Env : Type 0
Env = String → Bytes

-- os.Setenv
unfoldable pub set_env : Env → String → Bytes → Env
set_env env key value other = if str_eq key other then value else env other

-- getEnvOrDefault of packages provider, embedder and commands
unfoldable pub get_env_or_default : Env → String → Bytes → Bytes
get_env_or_default env key fallback = if bytes_eq (env key) [] then fallback else env key
