-- ===== src/Config/AgentFile/Laws.antt =====
-- What a configuration that was loaded is known to satisfy.
use mathlib.Core.Path.{subst}
use hosthalla.Base.{
  ℤ, pos, negsuc, zero, suc, ◌≡◌, ◌≢◌, refl, sym, ap, ◌∙◌, false, List, [], ◌∷◌, ◌++◌, Option, none,
  some, ◌==◌, text_eq, nat_eq, arith, Bool-cases, inl, inr, Error, Result, ok, err, any, All, map,
}
use hosthalla.Base.Inversion.{Result-cases}
use hosthalla.Text.{Text, Unicode, trim_space}
use hosthalla.Model.{Uuid, AgentConfig}
use hosthalla.Agent.Repository.{default_heartbeat_interval, default_metrics_interval}
use hosthalla.Config.AgentFile.{
  FileConfig, positive_or_one, checked_interval, parse_interval_or_default, config_with,
  with_metrics, with_heartbeat, with_id, to_agent_config, LoadedConfig, same_key, duplicates,
  collect, or_errors, checked_configs, load_configs,
}

-- Above zero.
abbrev pub IsPositive : ℤ → Type 0
IsPositive (pos zero) = ⊥
IsPositive (pos (suc n)) = Unit
IsPositive (negsuc n) = ⊥

pub record IsUsable (c : AgentConfig) : Type 0 where
  pub host : c.host ≢ []
  pub scheme : c.scheme ≢ []
  pub api_key : c.api_key ≢ []
  pub heartbeat : IsPositive c.heartbeat_interval
  pub metrics : IsPositive c.metrics_interval
  pub version : IsPositive c.version

positive_version : (v : ℤ) → IsPositive (positive_or_one v)
positive_version (pos zero) = tt
positive_version (pos (suc n)) = tt
positive_version (negsuc n) = tt

checked-IsPositive : (o : Option ℤ) (i : ℤ) → checked_interval o ≡ ok i → IsPositive i
checked-IsPositive none i e = cc
checked-IsPositive (some (pos zero)) i e = cc
checked-IsPositive (some (pos (suc n))) i e = subst IsPositive (un_ok e) tt
  where
    un_ok : {a b : ℤ} → ok a ≡ ok b → a ≡ b
    un_ok e = cc
checked-IsPositive (some (negsuc n)) i e = cc

module _ (parse_uuid : Text → Option Uuid) (parse_duration : Text → Option ℤ) where
  interval-IsPositive :
      (raw : Text) (fallback i : ℤ)
      → IsPositive fallback
      → parse_interval_or_default parse_uuid parse_duration raw fallback ≡ ok i
      → IsPositive i
  unfolding parse_interval_or_default
  interval-IsPositive raw fallback i h e = elim (Bool-cases (trim_space raw == [])) [
    | inl blank ↦ let same : fallback ≡ i = ground arith in subst IsPositive same h
    | inr filled ↦ checked-IsPositive (parse_duration (trim_space raw)) i (ground arith)
  ]

  with_heartbeat-IsUsable :
      (f : FileConfig) (id : Uuid) (c : AgentConfig) (r : Result ℤ)
      → trim_space f.host ≢ []
      → trim_space f.scheme ≢ []
      → trim_space f.api_key ≢ []
      → ((i : ℤ) → r ≡ ok i → IsPositive i)
      → with_heartbeat parse_uuid parse_duration f id r ≡ ok c
      → IsUsable c × (c.agent_id ≡ id)
  unfolding with_heartbeat with_metrics
  with_heartbeat-IsUsable f id c (err x) host scheme key positive e = ground arith
  with_heartbeat-IsUsable f id c (ok i) host scheme key positive e =
      elim (Result-cases
        (parse_interval_or_default parse_uuid parse_duration f.metrics default_metrics_interval)) [
          | inl (m, got) ↦
              let same : config_with parse_uuid parse_duration f id i m ≡ c = ground arith in
              let above = interval-IsPositive f.metrics default_metrics_interval m tt got in
              subst (λ x. IsUsable x × (x.agent_id ≡ id)) same
                (
                  record {
                    host = host;
                    scheme = scheme;
                    api_key = key;
                    heartbeat = positive i refl;
                    metrics = above;
                    version = positive_version f.version;
                  },
                  refl,
                )
          | inr (x, failed) ↦ ground arith
        ]

  with_id-IsUsable :
      (f : FileConfig) (o : Option Uuid) (c : AgentConfig)
      → with_id parse_uuid parse_duration f o ≡ ok c
      → IsUsable c × (o ≡ some c.agent_id)
  unfolding with_id
  with_id-IsUsable f none c e = ground arith
  with_id-IsUsable f (some id) c e =
      let (usable, same) =
        with_heartbeat-IsUsable f id c
          (parse_interval_or_default parse_uuid parse_duration f.heartbeat
            default_heartbeat_interval)
          (ground arith) (ground arith) (ground arith)
          (λ i got. interval-IsPositive f.heartbeat default_heartbeat_interval i tt got)
          (ground arith) in
      (usable, ap some (sym same))

  -- A configuration that is read from a file has a host, a scheme and a key, two intervals and a
  -- version above zero, and the identifier that its text is parsed to.
  pub to_agent_config-IsUsable :
      (f : FileConfig) (c : AgentConfig)
      → to_agent_config parse_uuid parse_duration f ≡ ok c
      → IsUsable c × (parse_uuid (trim_space f.agent_id) ≡ some c.agent_id)
  unfolding to_agent_config
  to_agent_config-IsUsable f c e = with_id-IsUsable f (parse_uuid (trim_space f.agent_id)) c e

all_read :
    (files : List (Result LoadedConfig)) → (collect files).1 ≡ [] → files ≡ map ok (collect files).0
unfolding collect
all_read [] h = refl
all_read (ok l ∷ files) h = ap (λ r. ok l ∷ r) (all_read files h)
all_read (err e ∷ files) h = ground arith

module _ ⦃u : Unicode⦄ where
  -- No two of them have the same endpoint and agent.
  abbrev pub IsDistinct : List LoadedConfig → Type 0
  IsDistinct [] = Unit
  IsDistinct (l ∷ ls) = All (λ k. same_key k l ≡ false) ls × IsDistinct ls

  fewer :
      (l : LoadedConfig) (seen ls : List LoadedConfig)
      → All (λ k. any (same_key k) (l ∷ seen) ≡ false) ls
      → All (λ k. any (same_key k) seen ≡ false) ls × All (λ k. same_key k l ≡ false) ls
  fewer l seen [] h = (tt, tt)
  fewer l seen (k ∷ ls) (h, hs) =
      let (a, b) = fewer l seen ls hs in ((ground arith, a), (ground arith, b))

  duplicates_lem :
      (seen ls : List LoadedConfig)
      → duplicates seen ls ≡ []
      → All (λ l. any (same_key l) seen ≡ false) ls × IsDistinct ls
  unfolding duplicates
  duplicates_lem seen [] h = (tt, tt)
  duplicates_lem seen (l ∷ ls) h = elim (Bool-cases (any (same_key l) seen)) [
    | inl old ↦ ground arith
    | inr fresh ↦
        let (unseen, distinct) = duplicates_lem (l ∷ seen) ls (ground arith) in
        let (before, apart) = fewer l seen ls unseen in ((fresh, before), (apart, distinct))
  ]

  or_errors_lem :
      (es : List Error) (ls ms : List LoadedConfig)
      → or_errors es ls ≡ ok ms
      → (es ≡ []) × (ls ≡ ms)
  or_errors_lem [] ls ms h = ground arith
  or_errors_lem (e ∷ es) ls ms h = ground arith

  no_errors : (es fs : List Error) → es ++ fs ≡ [] → (es ≡ []) × (fs ≡ [])
  no_errors [] fs h = (refl, h)
  no_errors (e ∷ es) fs h = ground arith

  checked_configs_lem :
      (ls ms : List LoadedConfig) (es : List Error)
      → checked_configs ls es ≡ ok ms
      → (es ≡ []) × (ls ≡ ms) × (ms ≢ []) × IsDistinct ms
  unfolding checked_configs
  checked_configs_lem [] ms es h = ground arith
  checked_configs_lem (l ∷ ls) ms es h =
      let (none_at_all, same) = or_errors_lem _ (l ∷ ls) ms h in
      let (clean, apart) = no_errors es _ none_at_all in
      (
        clean,
        same,
        subst (λ x. x ≢ []) same (ground arith),
        subst IsDistinct same (duplicates_lem [] (l ∷ ls) apart).1,
      )

  -- The loading of a directory succeeds only if every configuration file of it could be read, and
  -- gives all of them in order: at least one, and no two for the same endpoint and agent.
  pub load_configs_lem :
      (files : List (Result LoadedConfig)) (ls : List LoadedConfig)
      → load_configs files ≡ ok ls
      → (files ≡ map ok ls) × (ls ≢ []) × IsDistinct ls
  unfolding load_configs
  load_configs_lem files ls h =
      let (clean, same, filled, distinct) =
        checked_configs_lem (collect files).0 ls (collect files).1 h in
      (all_read files clean ∙ ap (λ x. map ok x) same, filled, distinct)
