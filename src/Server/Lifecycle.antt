-- ===== src/Server/Lifecycle.antt =====
-- New and Start of internal/server/server.go: the defaults of the configuration, and how the server ends.
-- Durations are in seconds; the logger, the Prometheus registries and the probes (see Server.Health) are left
-- out. A rate is x/time/rate's Limit, with its zero and the numbers of its literals.
use tfai_go.Base.{
  ℕ, ◌*◌, Bool, true, false, Option, none, some, [], ◌∷◌, ◌++◌, Bytes, codes, bytes_eq, Result, ok,
  err, ◌==◌, if◌then◌else◌,
}
use tfai_go.Agent.Messages.{decimal}
use tfai_go.RateLimit.{Rate, RateLimiter, new_rate_limiter, default_rate_limit, default_rate_burst}

module _ (rate : Rate) (is_zero : rate.Limit → Bool) (limit_of : ℕ → rate.Limit) where
  -- Config
  pub record Config : Type 0 where
    pub host : Bytes
    pub port : ℕ
    pub read_timeout : ℕ
    pub write_timeout : ℕ
    pub shutdown_timeout : ℕ
    pub rate_limit : rate.Limit
    pub rate_burst : ℕ
    pub api_key : Bytes
    pub workspace_root : Bytes
    pub chat_timeout : ℕ

  pub or_else : ℕ → ℕ → ℕ
  or_else n default = if n == 0 then default else n

  -- What New makes of the configuration before it builds anything from it.
  unfoldable pub resolve_config : Config → Config
  unfolding or_else
  resolve_config cfg = record cfg {
    host = if bytes_eq cfg.host [] then codes "127.0.0.1" else cfg.host;
    port = or_else cfg.port 8080;
    read_timeout = or_else cfg.read_timeout 30;
    write_timeout = or_else cfg.write_timeout (5 * 60);
    shutdown_timeout = or_else cfg.shutdown_timeout 10;
    rate_limit = if is_zero cfg.rate_limit then limit_of default_rate_limit else cfg.rate_limit;
    rate_burst = or_else cfg.rate_burst default_rate_burst;
    chat_timeout = or_else cfg.chat_timeout (5 * 60);
  }

  pub record Server : Type 0 where
    pub config : Config
    pub limiter : RateLimiter rate
    pub addr : Bytes
    -- the goroutine of the limiter's eviction runs
    pub evicting : Bool

  -- New, of an agent that is nil or not, a configuration that is nil or not, and the error of
  -- filepath.Abs; `empty` is &Config{}
  unfoldable pub new : Bool → Config → Option Config → Option Bytes → Result Server
  new has_agent empty given abs_error =
      if has_agent
      then resolved (resolve_config (or_empty given)) abs_error
      else err (codes "server: agent must not be nil")
    where
      or_empty : Option Config → Config
      or_empty none = empty
      or_empty (some cfg) = cfg

      resolved : Config → Option Bytes → Result Server
      resolved cfg none = ok (record {
        config = cfg;
        limiter = new_rate_limiter rate cfg.rate_limit cfg.rate_burst;
        addr = cfg.host ++ b':' ∷ decimal cfg.port;
        evicting = true;
      })
      resolved cfg (some e) = err (codes "server: failed to resolve ui/static path: " ++ e)

  -- What the select of Start receives first: the error of ListenAndServe, or the end of the context, and
  -- then what Shutdown returns.
  pub data Ending : Type 0 where
    listen_failed : Bytes → Ending
    cancelled : Option Bytes → Ending

  -- Start
  pub start : Server → Ending → Server × Option Bytes
  start s (listen_failed e) = (s, some (codes "server: listen error: " ++ e))
  start s (cancelled (some e)) = (s, some (codes "server: graceful shutdown failed: " ++ e))
  start s (cancelled none) = (record s { evicting = false }, none)
