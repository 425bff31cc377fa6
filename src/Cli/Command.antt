-- ===== src/Cli/Command.antt =====
-- internal/cli/command.go. The body of a command is known by a number; `none` is a nil `Run`.
use hosthalla.Base.{ℕ, Bool, true, false, Option, none, some, if◌then◌else◌, ◌==◌, text_eq}
use hosthalla.Text.{Text}

mutual
  pub data Command : Type 0 where
    command : Text → Text → Text → Commands → Option ℕ → Bool → Bool → Command

  pub data Commands : Type 0 where
    no_more : Commands
    more : Command → Commands → Commands

abbrev pub name_of : Command → Text
name_of (command name usage short children run needs_config needs_db) = name

abbrev pub usage_of : Command → Text
usage_of (command name usage short children run needs_config needs_db) = usage

abbrev pub short_of : Command → Text
short_of (command name usage short children run needs_config needs_db) = short

abbrev pub children_of : Command → Commands
children_of (command name usage short children run needs_config needs_db) = children

abbrev pub run_of : Command → Option ℕ
run_of (command name usage short children run needs_config needs_db) = run

abbrev pub needs_config : Command → Bool
needs_config (command name usage short children run config db) = config

abbrev pub needs_db : Command → Bool
needs_db (command name usage short children run config db) = db

-- `len(cmd.Children) > 0`
abbrev pub has_children : Command → Bool
has_children (command name usage short no_more run config db) = false
has_children (command name usage short (more c cs) run config db) = true

-- `matches`, for a command that is not nil.
unfoldable pub matches : Command → Text → Bool
matches c name = name_of c == name

unfoldable pub child_among : Commands → Text → Option Command
child_among no_more name = none
child_among (more c cs) name = if matches c name then some c else child_among cs name

-- `child`
unfoldable pub child : Command → Text → Option Command
child c name = child_among (children_of c) name
