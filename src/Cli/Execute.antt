-- ===== src/Cli/Execute.antt =====
-- internal/cli/execute.go. The `flag` package, the loading of the configuration, the database and
-- the bodies of the commands are parameters. What happens is told as a list of steps.
pub mod Laws
use hosthalla.Base.{
  ℕ, ℤ, pos, Bool, true, false, not, ◌&&◌, ◌||◌, List, [], ◌∷◌, ◌++◌, Option, none, some,
  if◌then◌else◌, ◌==◌, text_eq, Result, ok, err,
}
use hosthalla.Text.{Text, codes}
use hosthalla.Cli.Command.{Command, usage_of, run_of, needs_config, needs_db}
use hosthalla.Cli.Errors.{CliError, usage_error, wrapped, exit_code}
use hosthalla.Cli.Resolve.{Resolved, helped, resolved, unresolved, resolve}

-- What `flags.Parse` and the variables of the flags come to.
pub data Flags : Type 0 where
  asked_help : Flags
  bad_flags : Text → Flags
  parsed : Text → Bool → Bool → List Text → Flags

-- `shown` is `PrintHelp`, `reported` the error text of `handleError`, and `ran` the call of a body
-- with the path of the configuration, the JSON flag and the arguments.
pub data Step : Type 0 where
  shown : Command → Step
  reported : CliError → Step
  loaded : Text → Step
  opened : Step
  ran : ℕ → Text → Bool → List Text → Step
  closed : Step

-- `collectJSONFlag`
unfoldable pub collect_json_flag : List Text → List Text × Bool
collect_json_flag [] = ([], false)
collect_json_flag (arg ∷ args) =
    let (rest, found) = collect_json_flag args in
    if arg == codes "--json" then (rest, true) else (arg ∷ rest, found)

-- The dependencies: an error of `LoadConfig` or of the level, one of `OpenDB`, and the body's.
pub record Dependencies : Type 0 where
  pub parse_flags : List Text → Flags
  pub load_config : Text → Option CliError
  pub check_level : Text → Option CliError
  pub open_db : Option CliError
  pub run_body : ℕ → Text → Bool → List Text → Option CliError
  pub quote : Text → Text

unfoldable pub handle_error : CliError → List Step × ℤ
handle_error e = (reported e ∷ [], exit_code (some e))

-- The end of `Execute`, with the deferred `Close` where the database is open.
unfoldable pub finish : Option CliError → List Step × ℤ
finish none = ([], exit_code none)
finish (some e) = handle_error e

abbrev pub before : List Step → List Step × ℤ → List Step × ℤ
before steps (later, code) = (steps ++ later, code)

abbrev pub after : List Step × ℤ → List Step → List Step × ℤ
after (steps, code) later = (steps ++ later, code)

module _ (d : Dependencies) where
  unfoldable pub run_command : Option ℕ → Text → Bool → List Text → List Step × ℤ
  run_command none path json args = ([], exit_code none)
  run_command (some body) path json args =
      before (ran body path json args ∷ []) (finish (d.run_body body path json args))

  abbrev pub with_open : Option CliError → List Step × ℤ → List Step × ℤ
  with_open (some e) rest = handle_error (wrapped (codes "connect database: ") e)
  with_open none rest = before (opened ∷ []) (after rest (closed ∷ []))

  -- The second half of `prepare`.
  unfoldable pub with_db : Bool → List Step × ℤ → List Step × ℤ
  with_db true rest = with_open d.open_db rest
  with_db false rest = rest

  abbrev pub with_level : Option CliError → List Step × ℤ → List Step × ℤ
  with_level (some e) rest = handle_error (wrapped (codes "invalid config value log_level: ") e)
  with_level none rest = rest

  abbrev pub with_loaded : Text → Option CliError → List Step × ℤ → List Step × ℤ
  with_loaded path (some e) rest =
      handle_error (wrapped (codes "load config " ++ d.quote path ++ codes ": ") e)
  with_loaded path none rest = before (loaded path ∷ []) (with_level (d.check_level path) rest)

  -- The first half of `prepare`.
  unfoldable pub with_config : Bool → Text → List Step × ℤ → List Step × ℤ
  with_config true path rest = with_loaded path (d.load_config path) rest
  with_config false path rest = rest

  unfoldable pub execute_resolved : Text → Bool → Resolved → List Step × ℤ
  execute_resolved path json (unresolved e) = handle_error e
  execute_resolved path json (helped cmd) = (shown cmd ∷ [], exit_code none)
  execute_resolved path json (resolved cmd args) =
      with_config (needs_config cmd || needs_db cmd) path
        (with_db (needs_db cmd) (run_command (run_of cmd) path json args))

  unfoldable pub execute_flags : Command → Flags → List Step × ℤ
  execute_flags root asked_help = (shown root ∷ [], exit_code none)
  execute_flags root (bad_flags message) = handle_error (usage_error message (usage_of root))
  execute_flags root (parsed path json help args) =
      if help
      then (shown root ∷ [], exit_code none)
      else execute_resolved path (json || (collect_json_flag args).1)
          (resolve d.quote root (collect_json_flag args).0)

  -- `Execute`
  unfoldable pub execute : Command → List Text → List Step × ℤ
  execute root args = execute_flags root (d.parse_flags args)
