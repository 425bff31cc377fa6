-- ===== src/Api/Registration.antt =====
-- What the handler `RegisterAgent` leaves behind.
use hosthalla.Base.{
  ◌≡◌, ◌≢◌, refl, sym, ap, ◌∙◌, String, Bool, true, List, [], ◌∷◌, Option, none, some, ◌==◌,
  text_eq, arith, Result, ok, err, pure, attempt, ◌>>=◌, query_row, query, driver, exec,
  exec_affecting, publish, Bool-cases, inl, inr, All, find_row, nat_eq,
}
use hosthalla.Base.Inversion.{>>=-ok, Frame, Result-cases}
use hosthalla.Base.Preserves.{
  Preserves, OnDb, preserve_rules, Preserves-bind, OnDb-exec, OnDb-exec_affecting, OnDb-publish,
}
use hosthalla.Text.{Text, Unicode, codes, trim_space}
use hosthalla.Model.{Uuid, Host, Agent, Event, Tag}
use hosthalla.Schema.{Tables, Inventory, Run, HostTag, HostRow}
use hosthalla.Auth.Tables.{ApiToken}
use hosthalla.Host.HostRepository as Hosts
use hosthalla.Host.HostRepository.{list_tag_names}
use hosthalla.Host.Service.Hosts.{get_host_by_id, assign_monitoring_agent, update_host}
use hosthalla.Agent.Service.{register_host_agent}
use hosthalla.Agent.Service.Registration.{IsRegistered, register_host_agent-IsRegistered}
use hosthalla.Api.Hosts.{
  registered, has_scope, Lookup, found, refused, lookup_result, ensure_parsed,
  parse_and_ensure_host_exists, assigned, assign_registered, register_version, register_decoded,
  register_allowed, register_agent,
}

-- The agents are the ones given.
abbrev HasAgents : List Agent → Tables → Type 0
HasAgents agents t = t.agents ≡ agents

abbrev AnyEvent : Event → Type 0
AnyEvent e = Unit

pub get_host_by_id-Frame : (id : Uuid) (s : Inventory) → Frame s (get_host_by_id id s).1
unfolding get_host_by_id Hosts.get_host_by_id list_tag_names query_row query driver ◌>>=◌ pure
get_host_by_id-Frame id s = ground arith

module _ (agents : List Agent) where
  abbrev Keeps : {A : Type 0} → Run A → Type 0
  Keeps m = Preserves (OnDb (HasAgents agents) AnyEvent) m

  insert_tag-Keeps : (tag : Tag) → Keeps (exec (Hosts.insert_tag tag))
  unfolding Hosts.insert_tag
  insert_tag-Keeps tag = OnDb-exec (Hosts.insert_tag tag) (λ t t' h e. ground arith)

  insert_host_tag-Keeps : (link : HostTag) → Keeps (exec (Hosts.insert_host_tag link))
  unfolding Hosts.insert_host_tag
  insert_host_tag-Keeps link = OnDb-exec (Hosts.insert_host_tag link) (λ t t' h e. ground arith)

  clear_host_tags-Keeps : (id : Uuid) → Keeps (exec (Hosts.clear_host_tags id))
  unfolding Hosts.clear_host_tags
  clear_host_tags-Keeps id = OnDb-exec (Hosts.clear_host_tags id) (λ t t' h e. ground arith)

  update_host_row-Keeps :
      (message : String) (touched : Tables → Bool) (row : HostRow)
      → Keeps (exec_affecting message touched (Hosts.update_host_row row))
  unfolding Hosts.update_host_row
  update_host_row-Keeps message touched row =
      OnDb-exec_affecting message touched (Hosts.update_host_row row) (λ t t' h e. ground arith)

  publish-Keeps : (e : Event) → Keeps (publish e)
  publish-Keeps e = OnDb-publish e tt

  sync_host_tag-Keeps : (id : Uuid) (name : Text) → Keeps (Hosts.sync_host_tag id name)
  unfolding Hosts.sync_host_tag
  sync_host_tag-Keeps id name =
      search (preserve_rules, insert_tag-Keeps, insert_host_tag-Keeps) depth 12

  sync_host_tag_loop-Keeps :
      (id : Uuid) (names : List Text) → Keeps (Hosts.sync_host_tag_loop id names)
  unfolding Hosts.sync_host_tag_loop
  sync_host_tag_loop-Keeps id [] = search (preserve_rules) depth 4
  sync_host_tag_loop-Keeps id (name ∷ names) =
      Preserves-bind (Hosts.sync_host_tag id name) _ (sync_host_tag-Keeps id name)
        (λ _. sync_host_tag_loop-Keeps id names)

  update_host-Keeps : (value : Host) → Keeps (Hosts.update_host value)
  unfolding Hosts.update_host Hosts.update_host_body Hosts.sync_host_tags
  update_host-Keeps value =
      search
        (preserve_rules, update_host_row-Keeps, clear_host_tags-Keeps, sync_host_tag_loop-Keeps)
        depth 12

  assign-Keeps :
      ⦃u : Unicode⦄ (host_id agent_id : Uuid) → Keeps (assign_monitoring_agent host_id agent_id)
  unfolding assign_monitoring_agent update_host Hosts.get_host_by_id list_tag_names
  assign-Keeps host_id agent_id = search (preserve_rules, publish-Keeps, update_host-Keeps) depth 14

-- Where the host's lookup stops, nothing has changed.
pub parsed-Frame :
    (parse_uuid : Text → Option Uuid) (path_value : Text) (s : Inventory)
    → Frame s (parse_and_ensure_host_exists parse_uuid path_value s).1
unfolding parse_and_ensure_host_exists ensure_parsed attempt ◌>>=◌ pure
parsed-Frame parse_uuid path_value s = elim (Bool-cases (trim_space path_value == [])) [
  | inl empty ↦ rw empty (record { tables = refl; published = refl; faults = refl; random = refl })
  | inr filled ↦ rw filled (go (parse_uuid (trim_space path_value)))
]
  where
    go : (id : Option Uuid) → Frame s (ensure_parsed id s).1
    go none = record { tables = refl; published = refl; faults = refl; random = refl }
    go (some id) = get_host_by_id-Frame id s

every_event : (es : List Event) → All AnyEvent es
every_event [] = tt
every_event (e ∷ es) = (tt, every_event es)

-- The table of agents after the assignment is the one before it.
assign-agents :
    ⦃u : Unicode⦄ (host_id agent_id : Uuid) (s : Inventory)
    → (assign_monitoring_agent host_id agent_id s).1.tables.agents ≡ s.tables.agents
assign-agents host_id agent_id s =
    ((assign-Keeps s.tables.agents host_id agent_id).after s
      (record { tables_hold = refl; events_hold = every_event s.published })).tables_hold

abbrev agent_of_agents : Uuid → List Agent → Option Agent
agent_of_agents host_id agents = find_row (λ (a : Agent). a.host_id == host_id) agents

module _ ⦃u : Unicode⦄ (host_id : Uuid) (version : Text) where
  -- The agent of the response is the one that the host has.
  assign_registered-registered :
      (r : Result Agent) (s : Inventory) (a h : Uuid) (v : Text)
      → ((c : Agent) → r ≡ ok c → IsRegistered host_id c.id version s.tables)
      → (assign_registered host_id version r s).0 ≡ ok (registered a h v)
      → (host_id ≡ h)
        × (version ≡ v)
        × IsRegistered host_id a version (assign_registered host_id version r s).1.tables
  unfolding assign_registered assigned attempt pure ◌>>=◌
  assign_registered-registered (err x) s a h v there e = ground arith
  assign_registered-registered (ok c) s a h v there e =
      let (b, held, id, own) = there c refl in
      elim (Result-cases (assign_monitoring_agent host_id c.id s).0) [
        | inl (x, done) ↦ (
          ground arith,
          ground arith,
          (
            b,
            ap (agent_of_agents host_id) (assign-agents host_id c.id s) ∙ held,
            ground arith,
            own,
          ),
        )
        | inr (x, failed) ↦ ground arith
      ]

  register_version-registered :
      (s : Inventory) (a h : Uuid) (v : Text)
      → (register_version host_id version s).0 ≡ ok (registered a h v)
      → (host_id ≡ h)
        × (version ≡ v)
        × (version ≢ [])
        × IsRegistered host_id a version (register_version host_id version s).1.tables
  unfolding register_version pure attempt ◌>>=◌
  register_version-registered s a h v e = elim (Bool-cases (version == [])) [
    | inl empty ↦ ground arith
    | inr filled ↦
        let taken : register_version host_id version s
            ≡ assign_registered host_id version (register_host_agent host_id version s).0
                (register_host_agent host_id version s).1 =
          rw filled refl in
        let (x, y, z) =
          assign_registered-registered (register_host_agent host_id version s).0
            (register_host_agent host_id version s).1 a h v
            (λ c got. (register_host_agent-IsRegistered host_id version s c got).1)
            (ap (λ r. r.0) (sym taken) ∙ e) in
        (x, y, ground arith, rw taken z)
  ]

-- What a 201 says of the request, of the token and of the host's agent.
pub record IsServed ⦃u : Unicode⦄ (parse_uuid : Text → Option Uuid) (scopes : List Text)
    (path_value : Text) (body : Option Text) (agent_id host_id : Uuid) (version : Text) (t : Tables)
    : Type 0 where
  pub allowed : has_scope scopes (codes "hosts:register") ≡ true
  pub parsed : parse_uuid (trim_space path_value) ≡ some host_id
  pub decoded : (raw : Text) × (body ≡ some raw) × (trim_space raw ≡ version)
  pub filled : version ≢ []
  pub stands : IsRegistered host_id agent_id version t

module _ ⦃u : Unicode⦄ (parse_uuid : Text → Option Uuid) where
  lookup_result-found :
      (id : Uuid) (r : Result Host) (h : Uuid) → lookup_result id r ≡ found h → id ≡ h
  unfolding lookup_result
  lookup_result-found id (ok x) h e = ground arith
  lookup_result-found id (err x) h e = ground arith

  ensure_parsed-found :
      (o : Option Uuid) (s : Inventory) (h : Uuid)
      → (ensure_parsed o s).0 ≡ ok (found h)
      → o ≡ some h
  unfolding ensure_parsed attempt pure ◌>>=◌
  ensure_parsed-found none s h e = ground arith
  ensure_parsed-found (some id) s h e =
      ap some (lookup_result-found id (get_host_by_id id s).0 h (ground arith))

  parsed-found :
      (path_value : Text) (s : Inventory) (h : Uuid)
      → (parse_and_ensure_host_exists parse_uuid path_value s).0 ≡ ok (found h)
      → parse_uuid (trim_space path_value) ≡ some h
  unfolding parse_and_ensure_host_exists pure
  parsed-found path_value s h e = elim (Bool-cases (trim_space path_value == [])) [
    | inl empty ↦ ground arith
    | inr filled ↦ ensure_parsed-found (parse_uuid (trim_space path_value)) s h (ground arith)
  ]

  register_decoded-registered :
      (body : Option Text) (l : Lookup) (s : Inventory) (a h : Uuid) (v : Text)
      → (register_decoded body l s).0 ≡ ok (registered a h v)
      → (l ≡ found h)
        × ((raw : Text) × (body ≡ some raw) × (trim_space raw ≡ v))
        × (v ≢ [])
        × IsRegistered h a v (register_decoded body l s).1.tables
  unfolding register_decoded pure
  register_decoded-registered body (refused code message) s a h v e = ground arith
  register_decoded-registered none (found id) s a h v e = ground arith
  register_decoded-registered (some raw) (found id) s a h v e =
      let (x, y, z, w) = register_version-registered id (trim_space raw) s a h v e in
      let (b, held, i, own) = w in
      (ap found x, (raw, refl, y), ground arith, (b, rw (← x) held, i, own ∙ y))

  register_allowed-registered :
      (path_value : Text) (body : Option Text) (s : Inventory) (a h : Uuid) (v : Text)
      → (register_allowed parse_uuid path_value body s).0 ≡ ok (registered a h v)
      → (parse_uuid (trim_space path_value) ≡ some h)
        × ((raw : Text) × (body ≡ some raw) × (trim_space raw ≡ v))
        × (v ≢ [])
        × IsRegistered h a v (register_allowed parse_uuid path_value body s).1.tables
  unfolding register_allowed
  register_allowed-registered path_value body s a h v e =
      let (l, got, rest) =
        >>=-ok (parse_and_ensure_host_exists parse_uuid path_value) (register_decoded body) s e in
      let (same, decoded, filled, stands) =
        register_decoded-registered body l _ a h v (ap (λ r. r.0) (sym rest) ∙ e) in
      (parsed-found path_value s h (got ∙ ap ok same), decoded, filled, rw rest stands)

  -- A 201 comes only for a token with the scope `hosts:register`, for the host that the path names
  -- and a version in the body that is not blank; the host then has the agent of the response, with
  -- that version trimmed.
  pub register_agent-IsServed :
      (token : ApiToken) (path_value : Text) (body : Option Text) (s : Inventory)
      → (a h : Uuid) (v : Text)
      → (register_agent parse_uuid (some token) path_value body s).0 ≡ ok (registered a h v)
      → IsServed parse_uuid token.scopes path_value body a h v
          (register_agent parse_uuid (some token) path_value body s).1.tables
  unfolding register_agent pure
  register_agent-IsServed token path_value body s a h v e =
      elim (Bool-cases (has_scope token.scopes (codes "hosts:register"))) [
        | inl allowed ↦
            let taken : register_agent parse_uuid (some token) path_value body s
                ≡ register_allowed parse_uuid path_value body s =
              rw allowed refl in
            let (parsed, decoded, filled, stands) =
              register_allowed-registered path_value body s a h v (ap (λ r. r.0) (sym taken) ∙ e) in
            record {
              allowed = allowed;
              parsed = parsed;
              decoded = decoded;
              filled = filled;
              stands = rw taken stands;
            }
        | inr forbidden ↦ ground arith
      ]
