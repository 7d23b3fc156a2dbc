-- ===== src/Tools.antt =====
-- internal/tools: the runner of the terraform binary, and the tools for plan and state that the model may
-- call. The arguments of a call are what the JSON decoder makes of them. The process is a parameter: it
-- does not start, or it exits with a code; what a tool has run is a list of commands.
pub mod Commands
pub mod Generate
mod Tests
use tfai_go.Base.{
  Bool, false, ℤ, pos, negsuc, Option, none, some, List, [], ◌∷◌, ◌++◌, map, Bytes, codes, bytes_eq,
  Result, ok, err, not, ◌==◌, if◌then◌else◌,
}
use Prim.Native.Nat.{suc}
use tfai_go.Agent.Messages.{decimal}

-- A process, in its directory.
pub record Command : Type 0 where
  pub directory : Bytes
  pub args : List Bytes

-- RunResult
pub record RunResult : Type 0 where
  pub stdout : Bytes
  pub stderr : Bytes
  pub exit_code : ℤ

-- exec.Cmd.Run of terraform: an error that is no exit, or the outputs and the code of the exit
abbrev pub Exec : Type 0
Exec = Command → Result RunResult

-- WorkspaceContext
pub record WorkspaceContext : Type 0 where
  pub dir : Bytes
  pub var_files : List Bytes

-- The command of ExecRunner.Run
pub command_of : WorkspaceContext → Bytes → List Bytes → Command
command_of ws subcommand args = record {
  directory = ws.dir;
  args = subcommand ∷ args ++ map (λ vf. codes "-var-file=" ++ vf) ws.var_files;
}

-- What a tool has run, and what it returns.
abbrev pub Invoked : Type 0
Invoked = List Command × Result Bytes

-- ExecRunner.Run
pub run : Exec → WorkspaceContext → Bytes → List Bytes → List Command × Result RunResult
unfolding command_of
run exec ws subcommand args =
    let command = command_of ws subcommand args in (command ∷ [], exec command)

-- %d of the exit code, which is -1 for a process that a signal ended
pub decimal_int : ℤ → Bytes
decimal_int (pos n) = decimal n
decimal_int (negsuc n) = b'-' ∷ decimal (suc n)

abbrev is_zero : ℤ → Bool
is_zero (pos n) = n == 0
is_zero (negsuc n) = false

-- The text of a run: both outputs, and the code of an exit that is not 0. An exit code is not an error.
pub output_of : RunResult → Bytes
output_of r =
    if not (bytes_eq r.stderr [])
    then r.stdout ++ codes "\n--- stderr ---\n" ++ r.stderr
    else r.stdout

pub report : Bytes → List Command × Result RunResult → Invoked
unfolding output_of decimal_int
report what (commands, err e) = (commands, err (codes "execution failed: " ++ e))
report what (commands, ok r) = (
  commands,
  ok (
      if not (is_zero r.exit_code)
      then codes "terraform "
        ++ what
        ++ codes " exited with code "
        ++ decimal_int r.exit_code
        ++ codes ":\n"
        ++ output_of r
      else output_of r),
)

-- planInput
pub record PlanInput : Type 0 where
  pub dir : Bytes
  pub var_files : List Bytes
  pub destroy : Bool

-- PlanTool.InvokableRun
pub plan_run : Exec → Result PlanInput → Invoked
unfolding report run
plan_run exec (err e) = ([], err (codes "invalid input: " ++ e))
plan_run exec (ok input) =
    if bytes_eq input.dir []
    then ([], err (codes "dir is required"))
    else let args = codes "-no-color" ∷ (if input.destroy then codes "-destroy" ∷ [] else []) in
      report (codes "plan")
        (run exec (record { dir = input.dir; var_files = input.var_files }) (codes "plan") args)

-- stateInput
pub record StateInput : Type 0 where
  pub dir : Bytes
  pub subcommand : Bytes
  pub resource : Bytes

-- The switch of StateTool.InvokableRun
pub state_args : StateInput → Result (List Bytes)
state_args input =
    if bytes_eq input.subcommand (codes "list")
    then ok (codes "list" ∷ [])
    else if bytes_eq input.subcommand (codes "show")
    then (if bytes_eq input.resource []
        then err (codes "resource is required for 'show' subcommand")
        else ok (codes "show" ∷ codes "-no-color" ∷ input.resource ∷ []))
    else if bytes_eq input.subcommand (codes "pull")
    then ok (codes "pull" ∷ [])
    else err (codes "unknown subcommand")

pub state_with : Exec → StateInput → Result (List Bytes) → Invoked
unfolding report run
state_with exec input (err e) = ([], err e)
state_with exec input (ok args) =
    report (codes "state " ++ input.subcommand)
      (run exec (record { dir = input.dir; var_files = [] }) (codes "state") args)

-- StateTool.InvokableRun
pub state_run : Exec → Result StateInput → Invoked
unfolding state_with state_args
state_run exec (err e) = ([], err (codes "invalid input: " ++ e))
state_run exec (ok input) =
    if bytes_eq input.dir []
    then ([], err (codes "dir is required"))
    else state_with exec input (state_args input)
