-- ===== src/Commands/Root.antt =====
-- The hook of cmd/tfai/commands/root.go that runs before each command: the logger, the configuration file and the
-- audit entry.
pub mod Secrets
mod Tests
use tfai_go.Base.{Option, List, Bytes, codes, ◌++◌, Env, Result, ok, err}
use tfai_go.Audit.{Attr, log_command_start}
use tfai_go.Commands.{Logger, new_logger}
use tfai_go.Config.{Files, Loaded, loaded, read_failed, parse_failed, load}
use tfai_go.Config.Types.{Numbers}

-- The logger of the hook, and the attributes of the entry that it writes.
pub record AuditEntry : Type 0 where
  pub logger : Logger
  pub attrs : List Attr

module _ (num : Numbers) where
  pub after_load : Option Bytes → Logger → Bytes → Env × Loaded num → Env × Result AuditEntry
  after_load home log command (env, loaded path applied) =
      (env, ok (record { logger = log; attrs = log_command_start home env command path }))
  after_load home log command (env, read_failed message) = (env, err message)
  after_load home log command (env, parse_failed message) = (env, err message)

  -- PersistentPreRunE, of the flag --config and the name of the command
  pub pre_run : Files num → Env → Bytes → Bytes → Env × Result AuditEntry
  unfolding after_load
  pre_run files env config_path command =
      after_load files.home (new_logger env) command (load num files env config_path)
