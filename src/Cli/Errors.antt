-- ===== src/Cli/Errors.antt =====
-- internal/cli/errors.go. `wrapped` is an error whose `Unwrap` gives another, and `plain` one with
-- nothing beneath it.
use hosthalla.Base.{ℤ, pos, Option, none, some}
use hosthalla.Text.{Text}

pub data CliError : Type 0 where
  usage_error : Text → Text → CliError
  exit_error : ℤ → CliError
  exit_with : ℤ → CliError → CliError
  wrapped : Text → CliError → CliError
  plain : Text → CliError

-- `errors.As(err, &exitErr)`: the first `ExitError` of the chain, here its code.
unfoldable pub as_exit : CliError → Option ℤ
as_exit (usage_error message usage) = none
as_exit (exit_error code) = some code
as_exit (exit_with code e) = some code
as_exit (wrapped message e) = as_exit e
as_exit (plain message) = none

-- `errors.As(err, &usageErr)`
unfoldable pub as_usage : CliError → Option (Text × Text)
as_usage (usage_error message usage) = some (message, usage)
as_usage (exit_error code) = none
as_usage (exit_with code e) = as_usage e
as_usage (wrapped message e) = as_usage e
as_usage (plain message) = none

abbrev pub code_of_usage : Option (Text × Text) → ℤ
code_of_usage none = pos 1
code_of_usage (some u) = pos 2

abbrev pub code_of_exit : Option ℤ → CliError → ℤ
code_of_exit none e = code_of_usage (as_usage e)
code_of_exit (some code) e = code

-- `ExitCode`
unfoldable pub exit_code : Option CliError → ℤ
exit_code none = pos 0
exit_code (some e) = code_of_exit (as_exit e) e
