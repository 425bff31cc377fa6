-- ===== src/Config/AgentFile.antt =====
-- internal/agent/file_config.go: one file's configuration, and the loading of a directory. The
-- parsers of uuids and durations, YAML and the file system are parameters.
pub mod Laws
use hosthalla.Base.{
  ℕ, ℤ, pos, negsuc, zero, suc, Bool, true, false, not, ◌&&◌, ◌||◌, List, [], ◌∷◌, ◌++◌, Option,
  none, some, map, if◌then◌else◌, ◌==◌, text_eq, nat_eq, Error, failed, about, wrap, joined, Result,
  ok, err, find_row, length, sort_by, text_before, value_or, any,
}
use hosthalla.Text.{Text, Unicode, codes, trim_space, to_lower}
use hosthalla.Text.Normalize.{normalized}
use hosthalla.Model.{Uuid, AgentConfig}
use hosthalla.Agent.Repository.{default_heartbeat_interval, default_metrics_interval}

-- `fileAgentConfig` with the structs inside it.
pub record FileConfig : Type 0 where
  pub agent_id : Text
  pub host : Text
  pub scheme : Text
  pub api_key : Text
  pub heartbeat : Text
  pub metrics : Text
  pub version : ℤ

abbrev pub positive_or_one : ℤ → ℤ
positive_or_one (pos zero) = pos 1
positive_or_one (pos (suc n)) = pos (suc n)
positive_or_one (negsuc n) = pos 1

abbrev pub checked_interval : Option ℤ → Result ℤ
checked_interval none = err (failed "invalid duration")
checked_interval (some (pos zero)) = err (failed "must be greater than zero")
checked_interval (some (pos (suc n))) = ok (pos (suc n))
checked_interval (some (negsuc n)) = err (failed "must be greater than zero")

module _ (parse_uuid : Text → Option Uuid) (parse_duration : Text → Option ℤ) where
  -- `parseIntervalOrDefault`
  unfoldable pub parse_interval_or_default : Text → ℤ → Result ℤ
  parse_interval_or_default raw fallback =
      if trim_space raw == []
      then ok fallback
      else checked_interval (parse_duration (trim_space raw))

  abbrev pub config_with : FileConfig → Uuid → ℤ → ℤ → AgentConfig
  config_with f id heartbeat metrics = record {
    id = 0;
    agent_id = id;
    host = trim_space f.host;
    scheme = trim_space f.scheme;
    api_key = trim_space f.api_key;
    heartbeat_interval = heartbeat;
    metrics_interval = metrics;
    version = positive_or_one f.version;
  }

  unfoldable pub with_metrics : FileConfig → Uuid → ℤ → Result ℤ → Result AgentConfig
  with_metrics f id heartbeat (err e) = err (wrap "invalid metrics.interval" e)
  with_metrics f id heartbeat (ok metrics) = ok (config_with f id heartbeat metrics)

  unfoldable pub with_heartbeat : FileConfig → Uuid → Result ℤ → Result AgentConfig
  with_heartbeat f id (err e) = err (wrap "invalid heartbeat.interval" e)
  with_heartbeat f id (ok heartbeat) =
      with_metrics f id heartbeat (parse_interval_or_default f.metrics default_metrics_interval)

  unfoldable pub with_id : FileConfig → Option Uuid → Result AgentConfig
  with_id f none = err (wrap "invalid agent_id" (failed "invalid UUID"))
  with_id f (some id) =
      if trim_space f.host == []
      then err (failed "connection.host is required")
      else if trim_space f.scheme == []
      then err (failed "connection.scheme is required")
      else if trim_space f.api_key == []
      then err (failed "connection.api_key is required")
      else with_heartbeat f id (parse_interval_or_default f.heartbeat default_heartbeat_interval)

  -- `toAgentConfig`
  unfoldable pub to_agent_config : FileConfig → Result AgentConfig
  to_agent_config f = with_id f (parse_uuid (trim_space f.agent_id))

pub record LoadedConfig : Type 0 where
  pub name : Text
  pub path : Text
  pub config : AgentConfig

module _ ⦃u : Unicode⦄ where
  -- `normalizedEndpoint`
  unfoldable pub normalized_endpoint : AgentConfig → Text
  normalized_endpoint c = normalized c.scheme ++ codes "://" ++ normalized c.host

  -- The key of the map `seen`; the text of a uuid is as good as the uuid.
  abbrev pub key_of : LoadedConfig → Text × Uuid
  key_of l = (normalized_endpoint l.config, l.config.agent_id)

  unfoldable pub same_key : LoadedConfig → LoadedConfig → Bool
  same_key a b =
      normalized_endpoint a.config == normalized_endpoint b.config
      && a.config.agent_id == b.config.agent_id

  -- The loop over the configurations: the ones of `seen`, and the errors.
  unfoldable pub duplicates : List LoadedConfig → List LoadedConfig → List Error
  duplicates seen [] = []
  duplicates seen (l ∷ ls) =
      let again = duplicates seen ls in
      let fresh = duplicates (l ∷ seen) ls in
      if any (same_key l) seen
      then about "duplicate agent config" (normalized_endpoint l.config) ∷ again
      else fresh

abbrev pub join_errors : Error → List Error → Error
join_errors e [] = e
join_errors e (f ∷ errs) = joined e (join_errors f errs)

-- The first loop: the configurations that could be read, and the errors of the others.
unfoldable pub collect : List (Result LoadedConfig) → List LoadedConfig × List Error
collect [] = ([], [])
collect (ok l ∷ rs) = let (ls, es) = collect rs in (l ∷ ls, es)
collect (err e ∷ rs) = let (ls, es) = collect rs in (ls, e ∷ es)

abbrev pub or_errors : List Error → List LoadedConfig → Result (List LoadedConfig)
or_errors [] ls = ok ls
or_errors (e ∷ es) ls = err (join_errors e es)

abbrev pub none_loaded : List Error → Error
none_loaded [] = failed "agent config directory contains no .yaml or .yml files"
none_loaded (e ∷ es) = join_errors e es

unfoldable pub checked_configs :
    ⦃u : Unicode⦄ → List LoadedConfig → List Error → Result (List LoadedConfig)
checked_configs [] errs = err (none_loaded errs)
checked_configs (l ∷ ls) errs = or_errors (errs ++ duplicates [] (l ∷ ls)) (l ∷ ls)

-- `LoadConfigsFromDir`, of what each configuration file of the directory gave, in the order of
-- their names.
unfoldable pub load_configs :
    ⦃u : Unicode⦄ → List (Result LoadedConfig) → Result (List LoadedConfig)
load_configs files = checked_configs (collect files).0 (collect files).1
