-- ===== src/Api/Hosts.antt =====
-- internal/api/handlers/hosts.go
use hosthalla.Base.{
  ℕ, String, Bool, false, List, [], Option, none, some, any, if◌then◌else◌, ◌==◌, text_eq,
  is_no_rows, Result, ok, err, pure, attempt, ◌>>=◌,
}
use hosthalla.Text.{Text, Unicode, codes, trim_space}
use hosthalla.Text.Normalize.{normalized}
use hosthalla.Model.{Uuid, Host, Agent, SystemInfo}
use hosthalla.Schema.{Run}
use hosthalla.Auth.Tables.{ApiToken}
use hosthalla.Agent.Service.{register_host_agent}
use hosthalla.Host.Service.Metrics.{upsert_system_info}
use hosthalla.Host.Service.Hosts.{get_host_by_id, assign_monitoring_agent}

-- `replied` is an answer with an error, `registered` the body of a 201,
-- `stored` an empty 200.
pub data Response : Type 0 where
  replied : ℕ → String → Response
  registered : Uuid → Uuid → Text → Response
  stored : Response

module _ ⦃u : Unicode⦄ where
  -- `hasScope`
  unfoldable pub has_scope : List Text → Text → Bool
  has_scope scopes required =
      let wanted = normalized required in
      if wanted == [] then false else any (λ scope. normalized scope == wanted) scopes

-- `parseAndEnsureHostExists`: the host's identifier, or the error response that was written.
pub data Lookup : Type 0 where
  found : Uuid → Lookup
  refused : ℕ → String → Lookup

unfoldable pub lookup_result : Uuid → Result Host → Lookup
lookup_result host_id (ok _) = found host_id
lookup_result host_id (err e) =
    if is_no_rows e then refused 404 "host not found" else refused 500 "failed to get host by id"

unfoldable pub ensure_parsed : Option Uuid → Run Lookup
ensure_parsed none = pure (refused 400 "invalid host_id")
ensure_parsed (some host_id) = do
  target ← attempt (get_host_by_id host_id)
  pure (lookup_result host_id target)

module _ (parse_uuid : Text → Option Uuid) where
  unfoldable pub parse_and_ensure_host_exists : Text → Run Lookup
  parse_and_ensure_host_exists path_value =
      if trim_space path_value == []
      then pure (refused 400 "host_id is required")
      else ensure_parsed (parse_uuid (trim_space path_value))

module _ ⦃u : Unicode⦄ where
  unfoldable pub assigned : Uuid → Agent → Text → Result (Unit {0}) → Response
  assigned host_id current version (ok _) = registered current.id host_id version
  assigned host_id current version (err _) = replied 500 "failed to update host monitoring agent"

  unfoldable pub assign_registered : Uuid → Text → Result Agent → Run Response
  assign_registered host_id version (err _) = pure (replied 500 "failed to resolve host agent")
  assign_registered host_id version (ok current) = do
    done ← attempt (assign_monitoring_agent host_id current.id)
    pure (assigned host_id current version done)

  unfoldable pub register_version : Uuid → Text → Run Response
  register_version host_id version =
      if version == [] then pure (replied 400 "version is required") else do
        current ← attempt (register_host_agent host_id version)
        assign_registered host_id version current

  -- The host was looked up, and the body decoded to a request with this version.
  unfoldable pub register_decoded : Option Text → Lookup → Run Response
  register_decoded body (refused code message) = pure (replied code message)
  register_decoded none (found host_id) = pure (replied 400 "invalid request body")
  register_decoded (some version) (found host_id) = register_version host_id (trim_space version)

  module _ (parse_uuid : Text → Option Uuid) where
    unfoldable pub register_allowed : Text → Option Text → Run Response
    register_allowed path_value body = do
      target ← parse_and_ensure_host_exists parse_uuid path_value
      register_decoded body target

    -- `token` is what `GetAPITokenFromContext` finds.
    unfoldable pub register_agent : Option ApiToken → Text → Option Text → Run Response
    register_agent none path_value body = pure (replied 401 "unauthorized")
    register_agent (some token) path_value body =
        if has_scope token.scopes (codes "hosts:register")
        then register_allowed path_value body
        else pure (replied 403 "forbidden")

unfoldable pub upserted : Result SystemInfo → Response
upserted (err _) = replied 500 "failed to upsert host system info"
upserted (ok _) = stored

-- The decoded body; what it says of the host's identifier gives way to the path.
unfoldable pub upsert_decoded : (ℕ → Bool) → Option SystemInfo → Lookup → Run Response
upsert_decoded not_negative body (refused code message) = pure (replied code message)
upsert_decoded not_negative none (found host_id) = pure (replied 400 "invalid request body")
upsert_decoded not_negative (some info) (found host_id) = do
  done ← attempt (upsert_system_info not_negative (record info { host_id = host_id }))
  pure (upserted done)

module _ ⦃u : Unicode⦄ (parse_uuid : Text → Option Uuid) (not_negative : ℕ → Bool) where
  unfoldable pub upsert_allowed : Text → Option SystemInfo → Run Response
  upsert_allowed path_value body = do
    target ← parse_and_ensure_host_exists parse_uuid path_value
    upsert_decoded not_negative body target

  unfoldable pub upsert_host_system_info : Option ApiToken → Text → Option SystemInfo → Run Response
  upsert_host_system_info none path_value body = pure (replied 401 "unauthorized")
  upsert_host_system_info (some token) path_value body =
      if has_scope token.scopes (codes "hosts:register")
      then upsert_allowed path_value body
      else pure (replied 403 "forbidden")
