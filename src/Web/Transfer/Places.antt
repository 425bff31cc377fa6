-- ===== src/Web/Transfer/Places.antt =====
-- The address of a host that an import makes stays in the table.
use mathlib.Core.Path.{subst}
use hosthalla.Base.{
  ℕ, ◌≡◌, sym, ap, ◌∙◌, Bool, true, ◌||◌, List, [], ◌∷◌, ◌++◌, none, some, any, All, ◌==◌, nat_eq,
  text_eq, arith, Result, ok, pure, publish, exec, time_now, new_id, ◌>>◌,
}
use hosthalla.Base.Preserves.{
  Preserves, Preserves-bind, Preserves-pure, OnDb, OnDb-exec, OnDb-publish, preserve_rules,
}
use hosthalla.Base.Inversion.{>>=-ok, exec-ok, transaction-ok}
use hosthalla.Text.{Text, Unicode}
use hosthalla.Model.{
  Uuid, Host, Tag, Method, MethodType, ssh_password, ssh_key, other, Event, host_created,
}
use hosthalla.Schema.{Tables, Inventory, Run, HostRow, HostTag}
use hosthalla.Host.Cipher.{SecretCipher}
use hosthalla.Host.HostRepository as Hosts
use hosthalla.Host.HostRepository.{CreateHostDto, host_of_row, list_tag_names}
use hosthalla.Host.MethodRepository as Methods
use hosthalla.Host.Service.Hosts.{create_host, normalize_tags}
use hosthalla.Host.Service.Methods.{
  KeyCodec, create_password_method, create_key_method, store_method, encrypted,
  publish_method_created,
}
use hosthalla.Web.Transfer.{
  ExportedMethod, import_typed, import_host_management_method, import_methods,
}

-- The table `host` has a row with that address.
abbrev pub has_ip : Text → Tables → Bool
has_ip ip t = any (λ (r : HostRow). r.ip == ip) t.hosts

abbrev pub HasIp : Text → Tables → Type 0
HasIp ip t = has_ip ip t ≡ true

abbrev AnyEvent : Event → Type 0
AnyEvent e = Unit

every_event : (es : List Event) → All AnyEvent es
every_event [] = tt
every_event (e ∷ es) = (tt, every_event es)

module _ (ip : Text) where
  abbrev Keeps : {A : Type 0} → Run A → Type 0
  Keeps m = Preserves (OnDb (HasIp ip) AnyEvent) m

  any_append :
      (rs : List HostRow) (r : HostRow)
      → any (λ (o : HostRow). o.ip == ip) (rs ++ r ∷ [])
        ≡ (any (λ (o : HostRow). o.ip == ip) rs || r.ip == ip)
  any_append [] r = ground arith
  any_append (o ∷ rs) r = ground (arith, any_append rs r)

  insert_host-Keeps : (row : HostRow) → Keeps (exec (Hosts.insert_host row))
  unfolding Hosts.insert_host
  insert_host-Keeps row =
      OnDb-exec (Hosts.insert_host row) (λ t t' h e. ground (arith, any_append t.hosts row))

  insert_tag-Keeps : (tag : Tag) → Keeps (exec (Hosts.insert_tag tag))
  unfolding Hosts.insert_tag
  insert_tag-Keeps tag = OnDb-exec (Hosts.insert_tag tag) (λ t t' h e. ground arith)

  insert_host_tag-Keeps : (link : HostTag) → Keeps (exec (Hosts.insert_host_tag link))
  unfolding Hosts.insert_host_tag
  insert_host_tag-Keeps link = OnDb-exec (Hosts.insert_host_tag link) (λ t t' h e. ground arith)

  clear_host_tags-Keeps : (id : Uuid) → Keeps (exec (Hosts.clear_host_tags id))
  unfolding Hosts.clear_host_tags
  clear_host_tags-Keeps id = OnDb-exec (Hosts.clear_host_tags id) (λ t t' h e. ground arith)

  insert_method-Keeps : (m : Method) → Keeps (exec (Methods.insert_method m))
  unfolding Methods.insert_method
  insert_method-Keeps m = OnDb-exec (Methods.insert_method m) (λ t t' h e. ground arith)

  publish-Keeps : (e : Event) → Keeps (publish e)
  publish-Keeps e = OnDb-publish e tt

  sync_host_tag-Keeps : (id : Uuid) (name : Text) → Keeps (Hosts.sync_host_tag id name)
  unfolding Hosts.sync_host_tag
  sync_host_tag-Keeps id name =
      search (preserve_rules, insert_tag-Keeps, insert_host_tag-Keeps) depth 12

  sync_host_tag_loop-Keeps :
      (id : Uuid) (names : List Text) → Keeps (Hosts.sync_host_tag_loop id names)
  unfolding Hosts.sync_host_tag_loop
  sync_host_tag_loop-Keeps id [] = search preserve_rules depth 4
  sync_host_tag_loop-Keeps id (name ∷ names) =
      Preserves-bind (Hosts.sync_host_tag id name) _ (sync_host_tag-Keeps id name)
        (λ _. sync_host_tag_loop-Keeps id names)

  -- What follows the insert in the transaction of a new host.
  abbrev rest_of_create : Uuid → CreateHostDto → Run Host
  rest_of_create id dto = do Hosts.sync_host_tags id dto.tags; Hosts.get_host_by_id id

  rest_of_create-Keeps : (id : Uuid) (dto : CreateHostDto) → Keeps (rest_of_create id dto)
  unfolding Hosts.sync_host_tags Hosts.get_host_by_id list_tag_names
  rest_of_create-Keeps id dto =
      search (preserve_rules, clear_host_tags-Keeps, sync_host_tag_loop-Keeps) depth 12

  create_host_body-Keeps : (dto : CreateHostDto) → Keeps (Hosts.create_host_body dto)
  unfolding Hosts.create_host_body
  create_host_body-Keeps dto =
      search (preserve_rules, insert_host-Keeps, rest_of_create-Keeps) depth 12

  pub create_host-Keeps : ⦃u : Unicode⦄ (dto : CreateHostDto) → Keeps (create_host dto)
  unfolding create_host Hosts.create_host
  create_host-Keeps dto = search (preserve_rules, create_host_body-Keeps, publish-Keeps) depth 12

  module _ (cipher : SecretCipher) (codec : KeyCodec) where
    store_method-Keeps :
        (host_id : Uuid) (dto : List ℕ → Methods.CreateMethodDto) (plain : List ℕ)
        → Keeps (store_method cipher codec host_id dto plain)
    unfolding store_method encrypted Methods.create_method publish_method_created
    store_method-Keeps host_id dto plain =
        search (preserve_rules, insert_method-Keeps, publish-Keeps) depth 16

    import_typed-Keeps :
        (host_id : Uuid) (m : ExportedMethod) (kind : MethodType)
        → Keeps (import_typed cipher codec host_id m kind)
    unfolding import_typed create_password_method create_key_method
    import_typed-Keeps host_id m ssh_password = search (preserve_rules, store_method-Keeps) depth 16
    import_typed-Keeps host_id m ssh_key = search (preserve_rules, store_method-Keeps) depth 16
    import_typed-Keeps host_id m (other t) = search preserve_rules depth 4

    pub import_methods-Keeps :
        (host_id : Uuid) (ms : List ExportedMethod) → Keeps (import_methods cipher codec host_id ms)
    unfolding import_methods import_host_management_method
    import_methods-Keeps host_id [] = search preserve_rules depth 4
    import_methods-Keeps host_id (m ∷ ms) =
        Preserves-bind (import_host_management_method cipher codec host_id m) _
          (Preserves-bind (import_typed cipher codec host_id m m.kind) _
            (import_typed-Keeps host_id m m.kind) (λ made. Preserves-pure tt))
          (λ done. import_methods-Keeps host_id ms)

  inserted :
      (row : HostRow) (t t' : Tables)
      → row.ip ≡ ip
      → Hosts.insert_host row t ≡ some t'
      → HasIp ip t'
  unfolding Hosts.insert_host
  inserted row t t' at e = ground (arith, any_append t.hosts row)

  pub kept :
      {A : Type 0} (m : Run A) (s : Inventory)
      → Keeps m
      → HasIp ip s.tables
      → HasIp ip (m s).1.tables
  kept m s k h =
      (k.after s (record { tables_hold = h; events_hold = every_event s.published })).tables_hold

  body_places :
      (dto : CreateHostDto) (s : Inventory) {made : Host}
      → dto.ip ≡ ip
      → (Hosts.create_host_body dto s).0 ≡ ok made
      → HasIp ip (Hosts.create_host_body dto s).1.tables
  unfolding Hosts.create_host_body
  body_places dto s at e =
      let (now, got1, rest1) = >>=-ok time_now _ s e in
      let s1 = (time_now s).1 in
      let (id, got2, rest2) = >>=-ok new_id _ s1 (ap (λ r. r.0) (sym rest1) ∙ e) in
      let s2 = (new_id s1).1 in
      let row : HostRow = record {
        id = id;
        name = dto.name;
        description = dto.description;
        ip = dto.ip;
        monitoring_agent_id = none;
        created_at = now;
        updated_at = now;
      } in
      let (x, got3, rest3) =
        >>=-ok (exec (Hosts.insert_host row)) (λ _. rest_of_create id dto) s2
          (ap (λ r. r.0) (sym (rest1 ∙ rest2)) ∙ e) in
      let s3 = (exec (Hosts.insert_host row) s2).1 in
      let placed = inserted row s2.tables s3.tables at (exec-ok _ s2 got3).0 in
      subst (λ (r : Result Host × Inventory). HasIp ip r.1.tables) (sym (rest1 ∙ rest2 ∙ rest3))
        (kept (rest_of_create id dto) s3 (rest_of_create-Keeps id dto) placed)

  pub create_host-places :
      ⦃u : Unicode⦄ (dto : CreateHostDto) (s : Inventory) {made : Host}
      → dto.ip ≡ ip
      → (create_host dto s).0 ≡ ok made
      → HasIp ip (create_host dto s).1.tables
  unfolding create_host Hosts.create_host
  create_host-places dto s at e =
      let stored = record dto { tags = normalize_tags dto.tags } in
      let (made, got, rest) = >>=-ok (Hosts.create_host stored) _ s e in
      let t = (Hosts.create_host stored s).1 in
      let (before, frame, done, tables, published) =
        transaction-ok (Hosts.create_host_body stored) s got in
      let placed = body_places stored before at done in
      ap (λ r. has_ip ip r.1.tables) rest
      ∙ kept (do publish (host_created made); pure made) t
          (search (preserve_rules, publish-Keeps) depth 4) (ap (has_ip ip) tables ∙ placed)
