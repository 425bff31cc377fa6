-- ===== src/Host/MethodRepository.antt =====
-- internal/host/sqlite/host_management_method.go
use hosthalla.Base.{
  ℕ, Bool, not, ◌&&◌, ◌||◌, List, [], ◌∷◌, ◌++◌, Option, none, some, any, find_row, select_rows,
  delete_rows, update_rows, if◌then◌else◌, ◌==◌, nat_eq, contains, leb, ltb, pure, ◌>>=◌, ◌>>◌,
  query, query_row, exec, exec_affecting, new_id, time_now, sort_by,
}
use hosthalla.Text.{Text}
use hosthalla.Model.{Uuid, Method, MethodType}
use hosthalla.Schema.{Tables, Run, has_host}

-- `CreateHostManagementMethodDTO`
pub record CreateMethodDto : Type 0 where
  pub name : Text
  pub kind : MethodType
  pub username : Text
  pub port : ℕ
  pub secret : List ℕ
  pub description : Text

-- `UpdateHostManagementMethodDTO`
pub record UpdateMethodDto : Type 0 where
  pub name : Text
  pub username : Text
  pub port : ℕ
  pub secret : List ℕ
  pub description : Text

-- `check (port between 1 and 65535)`
abbrev pub port_check : ℕ → Bool
port_check port = leb 1 port && leb port 65535

abbrev pub has_method : Uuid → Tables → Bool
has_method id t = any (λ (m : Method). m.id == id) t.credentials

-- `insert into host_credential`
unfoldable pub insert_method : Method → Tables → Option Tables
insert_method m t =
    if has_method m.id t || not (has_host m.host_id t) || not (port_check m.port)
    then none
    else some (record t { credentials = t.credentials ++ m ∷ [] })

abbrev pub with_update : UpdateMethodDto → ℕ → Method → Method
with_update dto now m = record m {
  name = dto.name;
  username = dto.username;
  port = dto.port;
  secret = dto.secret;
  description = dto.description;
  updated_at = now;
}

-- `update host_credential set ... where id = ?`
unfoldable pub update_method_row : Uuid → UpdateMethodDto → ℕ → Tables → Option Tables
update_method_row id dto now t =
    if has_method id t && not (port_check dto.port)
    then none
    else some (record t {
      credentials = update_rows (λ m. m.id == id) (with_update dto now) t.credentials;
    })

unfoldable pub delete_method_row : Uuid → Tables → Option Tables
delete_method_row id t =
    some (record t { credentials = delete_rows (λ m. m.id == id) t.credentials })

-- `order by created_at asc`
abbrev pub older_method : Method → Method → Bool
older_method a b = ltb a.created_at b.created_at

unfoldable pub list_methods : Uuid → Run (List Method)
list_methods host_id =
    query (λ t. sort_by older_method (select_rows (λ m. m.host_id == host_id) t.credentials))

-- The map from hosts to methods, as the list of its rows in the order of the query.
unfoldable pub list_methods_by_hosts : List Uuid → Run (List Method)
list_methods_by_hosts [] = pure []
list_methods_by_hosts (id ∷ ids) = query λ t.
    sort_by
      (λ a b. ltb a.host_id b.host_id || a.host_id == b.host_id && ltb a.created_at b.created_at)
      (select_rows (λ m. contains (id ∷ ids) m.host_id) t.credentials)

unfoldable pub get_method_by_id : Uuid → Run Method
get_method_by_id id = query_row (λ t. find_row (λ (m : Method). m.id == id) t.credentials)

-- The value that `CreateHostManagementMethod` inserts and returns.
abbrev pub method_of : Uuid → CreateMethodDto → Uuid → ℕ → Method
method_of host_id dto id now = record {
  id = id;
  host_id = host_id;
  name = dto.name;
  kind = dto.kind;
  username = dto.username;
  port = dto.port;
  secret = dto.secret;
  description = dto.description;
  created_at = now;
  updated_at = now;
}

unfoldable pub create_method : Uuid → CreateMethodDto → Run Method
create_method host_id dto = do
  now ← time_now
  id ← new_id
  exec (insert_method (method_of host_id dto id now))
  pure (method_of host_id dto id now)

unfoldable pub update_method : Uuid → UpdateMethodDto → Run Method
update_method id dto = do
  now ← time_now
  exec_affecting "host management method not found" (has_method id) (update_method_row id dto now)
  get_method_by_id id

unfoldable pub delete_method : Uuid → Run Unit
delete_method id = exec (delete_method_row id)
