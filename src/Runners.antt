-- ===== src/Runners.antt =====
-- cli/pkg/system/runner and cli/pkg/utils/shell.go: how a runner turns a command into one of its
-- parent, or into a process or an ssh session. What then runs is not part of the model.
pub mod Words
use Prim.Native.Char.{code}
use becloudless.Prelude.{
  ℕ, String, Bool, true, false, not, Option, none, some, List, [], ◌∷◌, ◌++◌, ◌==◌, ◌&◌,
  if◌then◌else◌, eqb, join, trim, trim_space, Outcome, ok, err,
}

-- `strings.ReplaceAll(a, "'", "'\\''")`
unfoldable pub replace_quotes : String → String
replace_quotes String.[] = ""
replace_quotes (String.◌∷◌ c a) =
    let rest = replace_quotes a in if eqb (code c) 39 then "'\\''" & rest else String.◌∷◌ c rest

unfoldable pub quote_arg : String → String
unfolding replace_quotes
quote_arg a = "'" & (replace_quotes a & "'")

-- `ShellQuoteArgs`
unfoldable pub shell_quote_args : List String → List String
unfolding quote_arg
shell_quote_args [] = []
shell_quote_args (a ∷ args) = quote_arg a ∷ shell_quote_args args

-- The readers and writers that the runners know; the files of the caller have a name.
pub data Stream : Type 0 where
  os_stdin : Stream
  os_stdout : Stream
  os_stderr : Stream
  given : String → Stream

-- the arguments of `Exec`, where `none` is the nil
pub record Invocation : Type 0 where
  pub envs : Option (List String)
  pub stdin : Option Stream
  pub stdout : Option Stream
  pub stderr : Option Stream
  pub head : String
  pub args : List String

-- `genericRunner`, where a captured stream is a buffer of the runner
unfoldable pub exec_cmd : String → List String → Invocation
exec_cmd head args = record {
  envs = none;
  stdin = some os_stdin;
  stdout = some os_stdout;
  stderr = some os_stderr;
  head = head;
  args = args;
}

-- What the buffer of a captured stream has in the end, and whether `Exec` fails.
abbrev pub Captured : Type 0
Captured = String × Bool

unfoldable pub captured : Captured → Captured
unfolding trim_space
captured (buffer, failed) = (trim_space buffer, failed)

-- The two functions get the output and the error of `Exec` together.
module _ (exec : Invocation → Captured) where
  unfoldable pub exec_cmd_get_stdout : String → List String → Captured
  unfolding exec_cmd captured
  exec_cmd_get_stdout head args =
      captured (exec (record (exec_cmd head args) { stdout = some (given "buffer") }))

  unfoldable pub exec_cmd_get_stderr : String → List String → Captured
  unfolding exec_cmd captured
  exec_cmd_get_stderr head args =
      captured (exec (record (exec_cmd head args) { stderr = some (given "buffer") }))

-- the text of a command with quoted arguments
unfoldable pub command_line : String → List String → String
unfolding shell_quote_args join
command_line head args = head & (" " & join " " (shell_quote_args args))

abbrev pub package_args : List String → List String → List String
package_args [] rest = rest
package_args (pkg ∷ packages) rest = "-p" ∷ pkg ∷ package_args packages rest

-- `NixShellRunner.Exec`, as the command of its parent
unfoldable pub nix_shell_exec : List String → Invocation → Invocation
unfolding command_line
nix_shell_exec packages inv = record inv {
  head = "nix-shell";
  args =
      "--extra-experimental-features"
      ∷ "nix-command flakes"
      ∷ package_args packages ("--run" ∷ command_line inv.head inv.args ∷ []);
}

-- `ShellRunner.Exec`: the arguments are parts of a script, so they are not quoted
unfoldable pub shell_exec : String → Bool → Invocation → Invocation
unfolding join trim
shell_exec shell strict inv = record inv {
  head = "/usr/bin/env";
  args =
      shell ∷ (if strict then "-euo" ∷ "pipefail" ∷ [] else [])
      ++ ("-c" ∷ trim (λ c. eqb (code c) 32) (inv.head & (" " & join " " inv.args)) ∷ []);
}

-- `SudoRunner.Exec`, with the reader of the password if there is one
unfoldable pub sudo_exec : Bool → Option Stream → Invocation → Invocation
sudo_exec inlined password inv = record inv {
  stdin = elim password [ none ↦ inv.stdin | some reader ↦ some reader ];
  head = if inlined then inv.head else "sudo";
  args = if inlined then inv.args else "-S" ∷ inv.head ∷ inv.args;
}

abbrev pub or_stream : Option Stream → Stream → Stream
or_stream none default = default
or_stream (some s) default = s

-- the streams, the environment and the command that a process or a session gets
pub record Started : Type 0 where
  pub envs : List String
  pub stdin : Option Stream
  pub stdout : Option Stream
  pub stderr : Option Stream
  pub command : List String

abbrev pub envs_of : Option (List String) → List String
envs_of none = []
envs_of (some envs) = envs

-- `LocalRunner.Exec` up to the start, with the environment that it adds
unfoldable pub local_exec : Invocation → Started
local_exec inv = record {
  envs = envs_of inv.envs;
  stdin = some (or_stream inv.stdin os_stdin);
  stdout = some (or_stream inv.stdout os_stdout);
  stderr = some (or_stream inv.stderr os_stderr);
  command = inv.head ∷ inv.args;
}

-- the input of a session: never the one of the terminal
abbrev pub session_stdin : Option Stream → Option Stream
session_stdin (some os_stdin) = none
session_stdin s = s

-- `SshRunner.Exec` up to the run. The default of the error stream is overwritten by the nil that was
-- given, and a session discards what it writes to a nil.
unfoldable pub ssh_exec : Invocation → Started
unfolding command_line
ssh_exec inv = record {
  envs = envs_of inv.envs;
  stdin = session_stdin inv.stdin;
  stdout = some (or_stream inv.stdout os_stdout);
  stderr = inv.stderr;
  command = command_line inv.head inv.args ∷ [];
}
