-- ===== src/Tests/Texts.antt =====
-- Runs on texts: ports, tags, scopes, configurations and the command line.
use hosthalla.Base.{
  ◌≤◌, ◌≡◌, refl, true, false, not, ◌&&◌, List, [], ◌∷◌, none, some, ok, contains, any, ◌==◌,
  nat_eq, text_eq, arith, All,
}
use hosthalla.Text.{Text, codes, trim_space, trim_left, trim_right, is_space, has_prefix}
use hosthalla.Text.Normalize.{normalized, IsNormal, IsNodup}
use hosthalla.Text.Decimal.{atoi, itoa}
use hosthalla.Host.Port.{parse_port, parse_port_bounds, parse_port-itoa}
use hosthalla.Host.Service.Hosts.{normalize_tags}
use hosthalla.Host.Service.Hosts.Laws.{normalize_tags_lem}
use hosthalla.Auth.Service.{normalize_scopes}
use hosthalla.Api.Hosts.{has_scope}
use hosthalla.Api.Scopes.{has_scope-normalize_scopes}
use hosthalla.Cli.Command.{Command, command, no_more, more, child, child_among, matches}
use hosthalla.Cli.Resolve.{
  resolve, resolve_walked, resolve_plain, walk, walk_from, stray, has_help_flag,
}
use hosthalla.Cli.Resolve.Laws.{IsChosen, resolve-IsChosen}
use hosthalla.Cli.Execute.{Dependencies, parsed, collect_json_flag, execute}
use hosthalla.Cli.Execute.Laws.{collect_json_flag_lem, is_open, execute-closed}
use hosthalla.Tests.{ascii}

parse_port_bounds_example : (1 ≤ 8080) × (8080 ≤ 65535)
unfolding parse_port atoi trim_space trim_left trim_right is_space nat_eq text_eq
parse_port_bounds_example = parse_port_bounds (codes " 8080 ") 8080 refl

parse_port-itoa_example : parse_port (itoa 443) ≡ ok 443
parse_port-itoa_example = parse_port-itoa 443 (omega arith) (omega arith)

abbrev tags : List Text
tags = codes " Web " ∷ codes "" ∷ codes "web" ∷ codes "DB" ∷ []

normalize_tags_lem_example :
    All (IsNormal) (normalize_tags tags)
    × IsNodup (normalize_tags tags)
    × (contains (normalize_tags tags) (codes "web")
        ≡ (not (codes "web" == []) && any (λ tag. normalized tag == codes "web") tags))
    × (normalize_tags (normalize_tags tags) ≡ normalize_tags tags)
normalize_tags_lem_example = normalize_tags_lem tags (codes "web")

has_scope-normalize_scopes_example :
    has_scope (normalize_scopes (codes " Hosts:Register" ∷ [])) (codes "hosts:register")
    ≡ has_scope (codes " Hosts:Register" ∷ []) (codes "hosts:register")
has_scope-normalize_scopes_example =
    has_scope-normalize_scopes (codes " Hosts:Register" ∷ []) (codes "hosts:register")

abbrev plain_quote : Text → Text
plain_quote t = t

abbrev list_command : Command
list_command = command (codes "list") [] [] no_more (some 7) true true

abbrev root_command : Command
root_command =
    command (codes "hosthalla") [] []
      (more (command (codes "hosts") [] [] (more list_command no_more) none false false) no_more)
      none false false

abbrev line : List Text
line = codes "hosts" ∷ codes "list" ∷ codes "--all" ∷ []

resolve-IsChosen_example : IsChosen plain_quote root_command line list_command (codes "--all" ∷ [])
unfolding resolve resolve_walked resolve_plain walk walk_from stray has_help_flag child child_among
    matches has_prefix nat_eq text_eq
resolve-IsChosen_example =
    resolve-IsChosen plain_quote root_command line list_command (codes "--all" ∷ []) refl

abbrev dependencies : Dependencies
dependencies = record {
  parse_flags = λ args. parsed (codes "config.yaml") false false args;
  load_config = λ path. none;
  check_level = λ path. none;
  open_db = none;
  run_body = λ body path json args. none;
  quote = plain_quote;
}

execute-closed_example : is_open false (execute dependencies root_command line).0 ≡ false
execute-closed_example = execute-closed dependencies root_command line

collect_json_flag_lem_example :
    ((collect_json_flag (codes "--json" ∷ codes "x" ∷ [])).1
      ≡ contains (codes "--json" ∷ codes "x" ∷ []) (codes "--json"))
    × (contains (collect_json_flag (codes "--json" ∷ codes "x" ∷ [])).0 (codes "x") ≡ (
        contains (codes "--json" ∷ codes "x" ∷ []) (codes "x")
        && not (codes "x" == codes "--json")))
collect_json_flag_lem_example = collect_json_flag_lem (codes "--json" ∷ codes "x" ∷ []) (codes "x")
