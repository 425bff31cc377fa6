-- ===== src/Agent/Service/Registration.antt =====
-- What a registration leaves behind.
use hosthalla.Base.{
  ◌≡◌, refl, sym, ap, ◌∙◌, true, false, ◌||◌, List, [], ◌∷◌, ◌++◌, none, some, any, find_row,
  update_rows, if◌then◌else◌, ◌==◌, nat_eq, Error, is_no_rows, Result, ok, err, arith, pure, raise,
  attempt, ◌>>=◌, query_row, exec, new_id, time_now, publish, Bool-cases, inl, inr,
}
use hosthalla.Base.Inversion.{>>=-ok, exec-ok, exec_affecting-ok, query_row-Frame, query_row-ok}
use hosthalla.Text.{Text}
use hosthalla.Model.{Uuid, Agent}
use hosthalla.Schema.{Tables, Inventory, has_agent}
use hosthalla.Agent.Repository
use hosthalla.Agent.Repository.{
  agent_of, agent_of_host, insert_agent, update_agent as update_agent_row,
}
use hosthalla.Agent.Service.{
  register_host_agent, register_found, create_agent, update_agent, get_agent_by_host_id,
}

-- The host's agent has this identifier and version.
abbrev pub IsRegistered : Uuid → Uuid → Text → Tables → Type 0
IsRegistered host_id id version t =
    (b : Agent) × (agent_of_host host_id t ≡ some b) × (b.id ≡ id) × (b.version ≡ version)

module _ (host_id : Uuid) where
  find_appended :
      (agents : List Agent) (a : Agent)
      → any (λ (b : Agent). b.id == a.id || b.host_id == a.host_id) agents ≡ false
      → a.host_id ≡ host_id
      → find_row (λ (b : Agent). b.host_id == host_id) (agents ++ a ∷ []) ≡ some a
  find_appended [] a h e = ground arith
  find_appended (b ∷ agents) a h e = ground (arith, find_appended agents a)

  find-absent :
      (agents : List Agent) (a : Agent)
      → any (λ (b : Agent). b.id == a.id || b.host_id == a.host_id) agents ≡ false
      → a.host_id ≡ host_id
      → find_row (λ (b : Agent). b.host_id == host_id) agents ≡ none
  find-absent [] a h e = refl
  find-absent (b ∷ agents) a h e = ground (arith, find-absent agents a)

  insert_agent-absent :
      (a : Agent) (t t' : Tables)
      → a.host_id ≡ host_id
      → insert_agent a t ≡ some t'
      → agent_of_host host_id t ≡ none
  unfolding insert_agent
  insert_agent-absent a t t' own e = ground (arith, find-absent t.agents a)

  insert_agent-found :
      (a : Agent) (t t' : Tables)
      → a.host_id ≡ host_id
      → insert_agent a t ≡ some t'
      → agent_of_host host_id t' ≡ some a
  unfolding insert_agent
  insert_agent-found a t t' own e = ground (arith, find_appended t.agents a)

  found-host_id :
      (agents : List Agent) (c : Agent)
      → find_row (λ (b : Agent). b.host_id == host_id) agents ≡ some c
      → c.host_id ≡ host_id
  found-host_id [] c e = cc
  found-host_id (d ∷ agents) c e = ground (arith, found-host_id agents c)

  updated_find :
      (agents : List Agent) (c : Agent) (version : Text)
      → find_row (λ (b : Agent). b.host_id == host_id) agents ≡ some c
      → c.host_id ≡ host_id
      → (b : Agent) × (find_row
            (λ (b : Agent). b.host_id == host_id)
            (update_rows
              (λ (b : Agent). b.id == c.id)
              (λ b. record b { host_id = c.host_id; version = version })
              agents)
          ≡ some b)
        × (b.id ≡ c.id)
        × (b.version ≡ version)
  updated_find [] c version e own = cc
  updated_find (d ∷ agents) c version e own = elim (Bool-cases (d.id == c.id)) [
    | inl same ↦
        (record d { host_id = c.host_id; version = version }, ground arith, ground arith, refl)
    | inr differs ↦
        let (b, found, id, changed) = updated_find agents c version (ground arith) own in
        (b, ground arith, id, changed)
  ]

  update_agent-found :
      (c : Agent) (version : Text) (t t' : Tables)
      → agent_of_host host_id t ≡ some c
      → has_agent c.id t ≡ true
      → update_agent_row (record c { version = version }) t ≡ some t'
      → IsRegistered host_id c.id version t'
  unfolding update_agent_row
  update_agent-found c version t t' found known e =
      let own = found-host_id t.agents c found in
      let (b, f, id, changed) = updated_find t.agents c version found own in
      (b, ground arith, id, changed)

  known_of_found :
      (agents : List Agent) (c : Agent)
      → find_row (λ (b : Agent). b.host_id == host_id) agents ≡ some c
      → any (λ (a : Agent). a.id == c.id) agents ≡ true
  known_of_found [] c e = cc
  known_of_found (d ∷ agents) c e = ground (arith, known_of_found agents c)

  create-IsRegistered :
      (version : Text) (s : Inventory) (a : Agent)
      → (create_agent host_id version s).0 ≡ ok a
      → (a.host_id ≡ host_id)
        × IsRegistered host_id a.id version (create_agent host_id version s).1.tables
  unfolding create_agent Repository.create ◌>>=◌ time_now new_id publish
  create-IsRegistered version s a e =
      let made =
        agent_of host_id version (s.world.ids s.world.drawn) (s.world.times s.world.reads) in
      let t = (new_id (time_now s).1).1 in
      (
        ground arith,
        (
          made,
          ground (
            arith,
            exec-ok (insert_agent made) t {x = tt},
            insert_agent-found made t.tables (exec (insert_agent made) t).1.tables refl,
          ),
          ground arith,
          ground arith,
        ),
      )

  create_absent :
      (version : Text) (s : Inventory) (a : Agent)
      → (create_agent host_id version s).0 ≡ ok a
      → agent_of_host host_id s.tables ≡ none
  unfolding create_agent Repository.create ◌>>=◌ time_now new_id publish
  create_absent version s a e =
      let made =
        agent_of host_id version (s.world.ids s.world.drawn) (s.world.times s.world.reads) in
      let t = (new_id (time_now s).1).1 in
      ground (
        arith,
        exec-ok (insert_agent made) t {x = tt},
        insert_agent-absent made t.tables (exec (insert_agent made) t).1.tables refl,
      )

  update-IsRegistered :
      (c : Agent) (version : Text) (s : Inventory)
      → agent_of_host host_id s.tables ≡ some c
      → (update_agent (record c { version = version }) s).0 ≡ ok tt
      → IsRegistered host_id c.id version (update_agent (record c { version = version }) s).1.tables
  unfolding update_agent Repository.update publish
  update-IsRegistered c version s found e =
      let c' : Agent = record c { version = version } in
      let (_, done, rest) = >>=-ok (Repository.update c') _ s e in
      rw rest (
        update_agent-found c version s.tables _ found (known_of_found s.tables.agents c found)
          (exec_affecting-ok "agent not found" (has_agent c'.id) (update_agent_row c') s done).1)

  refused : (x : Error) (t : Inventory) (a : Agent) → (raise x t).0 ≡ ok a → ⊥
  unfolding raise
  refused x t a e = cc

  found-IsRegistered :
      (version : Text) (t : Inventory) (r : Result Agent) (a : Agent)
      → ((c : Agent) → r ≡ ok c → agent_of_host host_id t.tables ≡ some c)
      → (register_found host_id version r t).0 ≡ ok a
      → (a.host_id ≡ host_id)
        × IsRegistered host_id a.id version (register_found host_id version r t).1.tables
        × ((c : Agent) → agent_of_host host_id t.tables ≡ some c → a.id ≡ c.id)
  unfolding register_found pure raise
  found-IsRegistered version t (ok c) a known e =
      let there = known c refl in
      let new : Agent = record c { version = version } in
      let (x, done, rest) = >>=-ok (update_agent new) (λ _. pure new) t e in
      let same : new ≡ a = ground (arith, rest) in
      (
        ground (arith, found-host_id t.tables.agents c there),
        rw (rest, ← same) (update-IsRegistered c version t there done),
        λ d other. ground arith,
      )
  found-IsRegistered version t (err x) a known e = elim (Bool-cases (is_no_rows x)) [
    | inl missing ↦
        let made : (create_agent host_id version t).0 ≡ ok a =
          ap (λ b. ((if b then create_agent host_id version else raise x) t).0) (sym missing) ∙ e in
        let (own, there) = create-IsRegistered version t a made in
        (own, rw missing there, λ d other. ground (arith, create_absent version t a made))
    | inr other ↦
        elim (refused x t a (
          ap (λ b. ((if b then create_agent host_id version else raise x) t).0) (sym other)
          ∙ e)) [ ]
  ]

  -- A registration that succeeds leaves the host with an agent of the identifier that it returned
  -- and of the version that was given; a host that had an agent keeps that agent's identifier.
  pub register_host_agent-IsRegistered :
      (version : Text) (s : Inventory) (a : Agent)
      → (register_host_agent host_id version s).0 ≡ ok a
      → (a.host_id ≡ host_id)
        × IsRegistered host_id a.id version (register_host_agent host_id version s).1.tables
        × ((c : Agent) → agent_of_host host_id s.tables ≡ some c → a.id ≡ c.id)
  unfolding register_host_agent get_agent_by_host_id Repository.get_by_host_id attempt ◌>>=◌
  register_host_agent-IsRegistered version s a e =
      let look = query_row (agent_of_host host_id) in
      let frame = query_row-Frame (agent_of_host host_id) s in
      let (own, there, kept) =
        found-IsRegistered version (look s).1 (look s).0 a
          (λ c found. rw (frame.tables) (query_row-ok (agent_of_host host_id) s found)) e in
      (own, there, λ c held. kept c (ap (agent_of_host host_id) frame.tables ∙ held))
