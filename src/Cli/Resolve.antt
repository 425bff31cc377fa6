-- ===== src/Cli/Resolve.antt =====
-- internal/cli/resolve.go. Messages are texts in which `%q` is a parameter. `walk` compares its
-- command with the root by pointer, which is the flag `at_root` here: a tree has no way back.
pub mod Laws
use hosthalla.Base.{
  ℕ, Bool, true, false, not, ◌&&◌, ◌||◌, List, [], ◌∷◌, ◌++◌, Option, none, some, if◌then◌else◌,
  ◌==◌, text_eq, any,
}
use hosthalla.Text.{Text, codes, has_prefix}
use hosthalla.Cli.Command.{Command, child, has_children, usage_of, name_of, run_of}
use hosthalla.Cli.Errors.{CliError, usage_error}

pub data Walked : Type 0 where
  reached : Command → List Text → Walked
  lost : CliError → Walked

pub data Resolved : Type 0 where
  helped : Command → Resolved
  resolved : Command → List Text → Resolved
  unresolved : CliError → Resolved

abbrev pub help_word : Text
help_word = codes "help"

-- `strings.Join(args, " ")`
abbrev pub joined : List Text → Text
joined [] = []
joined (a ∷ []) = a
joined (a ∷ b ∷ args) = a ++ codes " " ++ joined (b ∷ args)

-- `hasHelpFlag`
unfoldable pub has_help_flag : List Text → Bool
has_help_flag args = any (λ arg. arg == codes "--help" || arg == codes "-h") args

module _ (quote : Text → Text) where
  -- What `walk` does at an argument that names no child.
  unfoldable pub stray : Bool → Command → Text → List Text → Walked
  stray at_root cmd arg args =
      if at_root || has_children cmd
      then lost (usage_error (codes "unknown command " ++ quote arg) (usage_of cmd))
      else reached cmd (arg ∷ args)

  unfoldable pub walk_from : Bool → Command → List Text → Walked
  walk_from at_root cmd [] = reached cmd []
  walk_from at_root cmd (arg ∷ args) =
      if has_prefix arg (codes "-") || arg == help_word
      then reached cmd (arg ∷ args)
      else elim (child cmd arg) [
        | none ↦ stray at_root cmd arg args
        | some c ↦ walk_from false c args
      ]

  unfoldable pub walk : Command → List Text → Walked
  walk root args = walk_from true root args

  abbrev pub runnable : Option ℕ → Command → List Text → Resolved
  runnable none cmd rest =
      unresolved
        (usage_error (codes "missing command under " ++ quote (name_of cmd)) (usage_of cmd))
  runnable (some body) cmd rest = resolved cmd rest

  -- `rest` does not start with `help`.
  unfoldable pub resolve_plain : Command → List Text → Resolved
  resolve_plain cmd rest = if has_help_flag rest then helped cmd else runnable (run_of cmd) cmd rest

  unfoldable pub resolve_help_tail : Command → List Text → Resolved
  resolve_help_tail cmd [] = helped cmd
  resolve_help_tail cmd (a ∷ args) =
      unresolved (
        usage_error (codes "unexpected arguments after help: " ++ joined (a ∷ args)) (usage_of cmd))

  unfoldable pub resolve_walked : Walked → Resolved
  resolve_walked (lost e) = unresolved e
  resolve_walked (reached cmd []) = resolve_plain cmd []
  resolve_walked (reached cmd (a ∷ rest)) =
      if a == help_word then resolve_help_tail cmd rest else resolve_plain cmd (a ∷ rest)

  -- `hosthalla help topic...`
  unfoldable pub resolve_topic : Command → List Text → Walked → Resolved
  resolve_topic root topic (lost e) = unresolved e
  resolve_topic root topic (reached cmd []) = helped cmd
  resolve_topic root topic (reached cmd (a ∷ rest)) =
      unresolved (usage_error (codes "unknown help topic " ++ quote (joined topic)) (usage_of root))

  unfoldable pub resolve : Command → List Text → Resolved
  resolve root [] = helped root
  resolve root (a ∷ []) =
      if a == help_word then helped root else resolve_walked (walk root (a ∷ []))
  resolve root (a ∷ b ∷ args) =
      if a == help_word
      then resolve_topic root (b ∷ args) (walk root (b ∷ args))
      else resolve_walked (walk root (a ∷ b ∷ args))
