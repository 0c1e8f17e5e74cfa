-- ===== src/Builtin/Sandbox.antt =====
-- bat/services/agent/sandbox.py: `SubprocessSandbox`, one run of a program in a child process. What the
-- operating system does, with the starting, the waiting and the killing of the child, is a parameter;
-- so are the limits that POSIX puts on the child. The temporary directories are a list of their names.
use bat_ai.Prelude.{
  ◌≡◌, refl, ℕ, Bool, true, false, ◌&&◌, not, List, [], ◌∷◌, ◌++◌, Option, none, some, String,
  if◌then◌else◌, zero, contains, ◌==◌, ==_refl, keep, arith, string_eq,
}
use bat_ai.Prelude.Integers.{ℤ, pos, negsuc, print}
use bat_ai.Prelude.Dict.{Dict}
use bat_ai.Prelude.Text.{Text, codes, strip}
use bat_ai.Rag.Chunking.{is_empty}
use bat_ai.Tools.Executor.{truncate}

pub record SandboxResult : Type 0 where
  pub stdout : Text
  pub stderr : Text
  pub exit_code : ℤ
  pub timed_out : Bool

is_zero : ℤ → Bool
is_zero (pos zero) = true
is_zero _ = false

unfoldable pub succeeded : SandboxResult → Bool
unfolding is_zero
succeeded r = is_zero r.exit_code && not r.timed_out

or_else : Text → Text → Text
or_else s t = if is_empty s then t else s

unfoldable pub render : SandboxResult → Text
unfolding succeeded or_else
render r =
    if r.timed_out
    then strip (codes "Execution timed out.\n" ++ r.stdout)
    else if succeeded r
    then or_else (strip r.stdout) (codes "Executed successfully with no output.")
    else codes "Execution failed (exit "
      ++ (print r.exit_code ++ (codes "):\n" ++ strip (or_else r.stderr r.stdout)))

pub record SandboxLimits : Type 0 where
  -- in microseconds
  pub timeout_s : ℕ
  pub max_output_chars : ℕ
  pub max_cpu_seconds : ℕ
  pub max_memory_bytes : ℕ

abbrev pub default_limits : SandboxLimits
default_limits = record {
  timeout_s = 10000000;
  max_output_chars = 8000;
  max_cpu_seconds = 5;
  max_memory_bytes = 268435456;
}

-- `_BASE_ENV`
abbrev pub base_env : Dict String String
base_env =
    ("PATH", "")
    ∷ ("PYTHONIOENCODING", "utf-8")
    ∷ ("PYTHONDONTWRITEBYTECODE", "1")
    ∷ ("PYTHONHASHSEED", "0")
    ∷ ("LANG", "C.UTF-8")
    ∷ []

-- What is asked of the operating system; the child has no standard input.
pub record Command : Type 0 where
  pub program : Text
  pub arguments : List Text
  pub cwd : String
  pub env : Dict String String
  pub limits : SandboxLimits

-- How the child ends: it does not start, its output and return code arrive, the wait runs out and it is
-- killed, with the return code that it then has, or the waiting task is cancelled.
pub data Child : Type 0 where
  not_started : Text → Child
  finished : Text → Text → Option ℤ → Child
  overran : Option ℤ → Child
  abandoned : Child

pub record Host (W : Type 0) : Type 0 where
  pub execute : Command → W → Child × W

exit_code_of : Option ℤ → ℤ
exit_code_of none = negsuc 0
exit_code_of (some code) = code

-- The result of the run; none when the task is cancelled. The output is decoded already.
unfoldable pub result_of : SandboxLimits → Child → Option SandboxResult
unfolding exit_code_of truncate
result_of limits (not_started reason) = some (record {
  stdout = [];
  stderr = codes "could not start sandbox: " ++ reason;
  exit_code = negsuc 0;
  timed_out = false;
})
result_of limits (finished stdout stderr code) = some (record {
  stdout = truncate stdout limits.max_output_chars;
  stderr = truncate stderr limits.max_output_chars;
  exit_code = exit_code_of code;
  timed_out = false;
})
result_of limits (overran code) = some (record {
  stdout = truncate [] limits.max_output_chars;
  stderr = truncate [] limits.max_output_chars;
  exit_code = exit_code_of code;
  timed_out = true;
})
result_of limits abandoned = none

-- The command of `run_python`; nothing of the parent's environment is in it.
unfoldable pub command : Text → SandboxLimits → Text → String → Command
command python limits code workdir = record {
  program = python;
  arguments = codes "-I" ∷ codes "-S" ∷ codes "-B" ∷ codes "-c" ∷ code ∷ [];
  cwd = workdir;
  env = base_env;
  limits = limits;
}

-- The temporary directories beside the rest of the world.
pub record Files (W : Type 0) : Type 0 where
  pub directories : List String
  pub world : W

module _ {W : Type 0} (host : Host W) where
  -- `run_python`, in a directory with a fresh name.
  unfoldable pub run_python :
      Text → SandboxLimits → String → Text → Files W → Option SandboxResult × Files W
  unfolding result_of command
  run_python python limits workdir code files =
      let made = workdir ∷ files.directories in
      let (child, w) = host.execute (command python limits code workdir) files.world in
      (
        result_of limits child,
        record { directories = keep (λ d. not (d == workdir)) made; world = w },
      )

fresh_keep :
    (workdir : String) (dirs : List String)
    → contains workdir dirs ≡ false
    → keep (λ d. not (d == workdir)) dirs ≡ dirs
fresh_keep workdir [] h = refl
fresh_keep workdir (d ∷ dirs) h = ground (arith, fresh_keep workdir dirs)

-- However the child ends, not started, finished, killed for its time or abandoned by a cancelled task,
-- the run leaves the directories that were there, and no other.
pub run_python-directories :
    {W : Type 0} (host : Host W) (python : Text) (limits : SandboxLimits) (workdir : String)
    (code : Text) (files : Files W)
    → contains workdir files.directories ≡ false
    → (run_python host python limits workdir code files).1.directories ≡ files.directories
unfolding run_python
run_python-directories host python limits workdir code files h =
    ground (arith, fresh_keep workdir files.directories h, ==_refl workdir)
