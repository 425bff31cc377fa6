-- ===== src/Web/Transfer.antt =====
-- The export and the import of hosts of internal/web/handlers/hosts.go. The decoding of JSON is a
-- parameter.
pub mod Counts
pub mod Places
pub mod Trace
pub mod Complete
use hosthalla.Base.{
  ℕ, suc, ◌+◌, Bool, true, false, not, ◌&&◌, ◌||◌, List, [], ◌∷◌, ◌++◌, map, Option, none, some,
  contains, select_rows, length, if◌then◌else◌, ◌==◌, nat_eq, text_eq, Result, ok, err, Error,
  failed, about, joined, pure, raise, lift, attempt, require, ◌>>=◌, ◌>>◌,
}
use hosthalla.Text.{Text, Unicode, codes, trim_space, has_prefix, has_part}
use hosthalla.Text.Decimal.{itoa}
use hosthalla.Model.{Uuid, Host, Method, MethodType, ssh_password, ssh_key, other, MethodSecret}
use hosthalla.Schema.{Run}
use hosthalla.Web.Request.{Request, Response, refused, redirected, rendered, or_refuse}
use hosthalla.Web.HostsPage.{type_text}
use hosthalla.Web.Hosts.{hosts_path}
use hosthalla.Host.Cipher.{SecretCipher}
use hosthalla.Host.HostRepository.{CreateHostDto}
use hosthalla.Host.Service.Hosts.{list_hosts, create_host}
use hosthalla.Host.Service.Methods.{
  KeyCodec, wrapped, get_method_secret, list_methods_by_hosts, create_password_method,
  create_key_method,
}

-- `hostManagementMethodExportDTO`
pub record ExportedMethod : Type 0 where
  pub name : Text
  pub kind : MethodType
  pub username : Text
  pub port : ℕ
  pub description : Text
  pub secret : MethodSecret

-- `hostImportExportDTO`; an address that is not valid is `none`.
pub record ExportedHost : Type 0 where
  pub name : Text
  pub description : Text
  pub tags : List Text
  pub ip : Option Text
  pub methods : List ExportedMethod

-- `hostsExportWarning`, less its fixed message.
pub record ExportWarning : Type 0 where
  pub host : Text
  pub ip : Text
  pub management_method : Text

-- `hostsExportResponse`
pub record HostsExport : Type 0 where
  pub hosts : List ExportedHost
  pub warnings : List ExportWarning

-- `strings.Join(parts, " / ")`
unfoldable pub join_slash : List Text → Text
join_slash [] = []
join_slash (part ∷ []) = part
join_slash (part ∷ next ∷ parts) = part ++ codes " / " ++ join_slash (next ∷ parts)

abbrev unless_blank : Text → List Text
unless_blank [] = []
unless_blank (c ∷ t) = (c ∷ t) ∷ []

unfoldable pub format_export_management_method : Method → Text
format_export_management_method method = join_slash (
    (type_text method.kind ∷ method.username ∷ [])
    ++ unless_blank method.name
    ++ unless_blank method.description)

module _ (cipher : SecretCipher) (codec : KeyCodec) where
  abbrev exported_method : Method → MethodSecret → ExportedMethod
  exported_method method secret = record {
    name = method.name;
    kind = method.kind;
    username = method.username;
    port = method.port;
    description = method.description;
    secret = secret;
  }

  -- One round of the inner loop: the method, or the warning that stands for it.
  abbrev add_exported :
      Host
      → Method
      → Result MethodSecret
      → List ExportedMethod × List ExportWarning
      → List ExportedMethod × List ExportWarning
  add_exported target method (ok secret) (methods, warnings) =
      (exported_method method secret ∷ methods, warnings)
  add_exported target method (err e) (methods, warnings) = (
    methods,
    record {
      host = target.name;
      ip = target.ip;
      management_method = format_export_management_method method;
    }
        ∷ warnings,
  )

  unfoldable pub export_methods :
      Host → List Method → Run (List ExportedMethod × List ExportWarning)
  export_methods target [] = pure ([], [])
  export_methods target (method ∷ methods) = do
    secret ← attempt (get_method_secret cipher codec target.id method.id)
    rest ← export_methods target methods
    pure (add_exported target method secret rest)

  abbrev exported_host : Host → List ExportedMethod → ExportedHost
  exported_host target methods = record {
    name = target.name;
    description = target.description;
    tags = target.tags;
    ip = some target.ip;
    methods = methods;
  }

  unfoldable pub export_each : List Method → List Host → Run HostsExport
  export_each methods [] = pure (record { hosts = []; warnings = [] })
  export_each methods (target ∷ targets) = do
    own ← export_methods target (select_rows (λ (m : Method). m.host_id == target.id) methods)
    rest ← export_each methods targets
    pure (record {
      hosts = exported_host target own.0 ∷ rest.hosts;
      warnings = own.1 ++ rest.warnings;
    })

  -- `ExportHosts`
  unfoldable pub export_hosts : ⦃u : Unicode⦄ → Run (Response HostsExport)
  export_hosts = or_refuse 500 (list_hosts []) λ hosts.
      or_refuse 500 (list_methods_by_hosts (map (λ (h : Host). h.id) hosts))
        λ methods. do exported ← export_each methods hosts; pure (rendered exported)

abbrev is_blank : Text → Bool
is_blank t = trim_space t == []

-- The switch of `validateImportedManagementMethods`.
abbrev secret_check : ℕ → ExportedMethod → MethodType → Result (Unit {0})
secret_check idx method ssh_password =
    if is_blank method.secret.password then err (about "password is required" (itoa idx)) else ok tt
secret_check idx method ssh_key =
    if is_blank method.secret.public_key
    then err (about "public key is required" (itoa idx))
    else if is_blank method.secret.private_key
    then err (about "private key is required" (itoa idx))
    else ok tt
secret_check idx method (other t) = err (about "unsupported type" t)

unfoldable pub validate_method : ℕ → ExportedMethod → Result (Unit {0})
validate_method idx method =
    if is_blank method.username
    then err (about "username is required" (itoa idx))
    else secret_check idx method method.kind

unfoldable pub validate_imported_methods : ℕ → List ExportedMethod → Result (Unit {0})
validate_imported_methods idx [] = ok tt
validate_imported_methods idx (method ∷ methods) = elim (validate_method idx method) [
  | ok _ ↦ validate_imported_methods (idx + 1) methods
  | err e ↦ err e
]

-- `importHostCandidate`
pub record Candidate : Type 0 where
  pub index : ℕ
  pub host : CreateHostDto
  pub methods : List ExportedMethod

-- The variables of the loop that gathers the candidates.
pub record Gathered : Type 0 where
  pub seen : List Text
  pub candidates : List Candidate
  pub skipped : ℕ

abbrev candidate_of : ℕ → ExportedHost → Text → Candidate
candidate_of idx host ip = record {
  index = idx;
  host = record { name = host.name; description = host.description; tags = host.tags; ip = ip };
  methods = host.methods;
}

abbrev invalid_host : ℕ → Error
invalid_host idx = about "invalid host at index" (itoa idx)

-- What the rest of a round, whose message has both texts, makes of a host whose methods were checked.
abbrev add_candidate : ℕ → ExportedHost → Text → Gathered → Result (Unit {0}) → Result Gathered
add_candidate idx host ip g (err e) = err (joined (invalid_host idx) e)
add_candidate idx host ip g (ok _) = ok (record {
  seen = ip ∷ g.seen;
  candidates = g.candidates ++ candidate_of idx host ip ∷ [];
  skipped = g.skipped;
})

-- One round over a host whose name is not blank and whose address is valid.
unfoldable pub gather_valid : List Text → ℕ → ExportedHost → Text → Gathered → Result Gathered
gather_valid existing idx host ip g =
    if contains existing ip || contains g.seen ip
    then ok (record g { skipped = g.skipped + 1 })
    else add_candidate idx host ip g (validate_imported_methods 0 host.methods)

abbrev gather_addressed : List Text → ℕ → ExportedHost → Option Text → Gathered → Result Gathered
gather_addressed existing idx host none g = err (invalid_host idx)
gather_addressed existing idx host (some ip) g =
    if is_blank host.name then err (invalid_host idx) else gather_valid existing idx host ip g

-- The loop of `ImportHosts` over the payload.
unfoldable pub gather : List Text → ℕ → List ExportedHost → Gathered → Result Gathered
gather existing idx [] g = ok g
gather existing idx (host ∷ hosts) g = elim (gather_addressed existing idx host host.ip g) [
  | ok g' ↦ gather existing (idx + 1) hosts g'
  | err e ↦ err e
]

unfoldable pub imported_management_method_name : ExportedMethod → Text
imported_management_method_name method =
    if not (trim_space method.name == []) then trim_space method.name else elim method.kind [
      | ssh_password ↦ codes "SSH password"
      | ssh_key ↦ codes "SSH private key"
      | other t ↦ t
    ]

-- `importHostsResponse`
pub record ImportCounts : Type 0 where
  pub imported : ℕ
  pub skipped : ℕ
  pub total_received : ℕ

module _ (cipher : SecretCipher) (codec : KeyCodec) where
  wrapping : Run Method → Run Method
  wrapping make = do made ← attempt make; lift (wrapped "failed to import management method" made)

  unfoldable pub import_typed : Uuid → ExportedMethod → MethodType → Run Method
  unfolding wrapping
  import_typed host_id method ssh_password = wrapping (
      create_password_method cipher codec host_id (record {
        name = imported_management_method_name method;
        username = method.username;
        password = method.secret.password;
        port = method.port;
        description = method.description;
      }))
  import_typed host_id method ssh_key = wrapping (
      create_key_method cipher codec host_id (record {
        name = imported_management_method_name method;
        username = method.username;
        public_key = method.secret.public_key;
        private_key = method.secret.private_key;
        port = method.port;
        description = method.description;
      }))
  import_typed host_id method (other t) = raise (about "unsupported management method type" t)

  unfoldable pub import_host_management_method : Uuid → ExportedMethod → Run Unit
  import_host_management_method host_id method = do import_typed host_id method method.kind; pure tt

  unfoldable pub import_methods : Uuid → List ExportedMethod → Run Unit
  import_methods host_id [] = pure tt
  import_methods host_id (method ∷ methods) = do
    import_host_management_method host_id method
    import_methods host_id methods

  -- The loop of `ImportHosts` over the candidates, and its count.
  unfoldable pub import_candidates :
      ⦃u : Unicode⦄ → {B : Type 0} → (ℕ → Response B) → ℕ → List Candidate → Run (Response B)
  import_candidates finish count [] = pure (finish count)
  import_candidates finish count (candidate ∷ candidates) =
      or_refuse 500 (create_host candidate.host) λ created.
        or_refuse 400 (import_methods created.id candidate.methods)
          λ done. import_candidates finish (count + 1) candidates

  -- The answer at the end, by the header `Accept`.
  abbrev pub import_answer : Request → ℕ → ℕ → ℕ → Response ImportCounts
  import_answer r skipped total imported =
      if has_part (r.header (codes "Accept")) (codes "application/json")
      then rendered (record { imported = imported; skipped = skipped; total_received = total })
      else redirected hosts_path

  -- `ImportHosts` from the decoded payload on.
  unfoldable pub import_hosts :
      ⦃u : Unicode⦄ → Request → Result (List ExportedHost) → Run (Response ImportCounts)
  import_hosts r payload = or_refuse 400 (lift payload) λ received.
      or_refuse 500 (list_hosts []) λ existing.
        or_refuse 400
          (lift (
            gather (map (λ (h : Host). h.ip) existing) 0 received
              (record { seen = []; candidates = []; skipped = 0 })))
          λ gathered.
            import_candidates (import_answer r gathered.skipped (length received)) 0
              gathered.candidates

-- `decodeHostsImportPayload`: an array of hosts, or an object with one. `as_object` gives `none`
-- where the object has no array.
unfoldable pub decode_hosts_import_payload :
    {Json : Type 0}
    → (Json → Result (List ExportedHost))
    → (Json → Result (Option (List ExportedHost)))
    → Result Json
    → Result (List ExportedHost)
decode_hosts_import_payload as_array as_object (err e) = err e
decode_hosts_import_payload as_array as_object (ok raw) = elim (as_array raw) [
  | ok hosts ↦ ok hosts
  | err _ ↦ elim (as_object raw) [
    | err e ↦ err e
    | ok none ↦ err (failed "JSON must contain a hosts array")
    | ok (some hosts) ↦ ok hosts
  ]
]
