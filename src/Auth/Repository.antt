-- ===== src/Auth/Repository.antt =====
-- internal/authentication/storage/sqlite/repositories.go
use hosthalla.Base.{
  ℕ, Bool, not, ◌&&◌, ◌||◌, List, [], ◌∷◌, ◌++◌, Option, none, some, any, find_row, select_rows,
  delete_rows, update_rows, if◌then◌else◌, ◌==◌, text_eq, ltb, pure, ◌>>=◌, ◌>>◌, query, query_row,
  exec, exec_affecting, new_id, time_now, sort_by,
}
use hosthalla.Text.{Text}
use hosthalla.Auth.Tables.{
  Profile, PasswordAuthentication, Session, ApiToken, PasswordRow, AuthTables, AuthRun, has_profile,
}

-- `insert into profile`: the identifier and the name are unique.
unfoldable pub insert_profile : Profile → AuthTables → Option AuthTables
insert_profile p t =
    if any (λ (q : Profile). q.id == p.id || q.username == p.username) t.profiles
    then none
    else some (record t { profiles = t.profiles ++ p ∷ [] })

unfoldable pub create_profile : Text → AuthRun Profile
create_profile username = do
  now ← time_now
  id ← new_id
  exec
      (insert_profile (record { id = id; username = username; created_at = now; updated_at = now }))
  pure (record { id = id; username = username; created_at = now; updated_at = now })

-- `order by created_at desc`
abbrev pub newer_profile : Profile → Profile → Bool
newer_profile a b = ltb b.created_at a.created_at

unfoldable pub list_profiles : AuthRun (List Profile)
list_profiles = query (λ t. sort_by newer_profile t.profiles)

abbrev pub profile_with_id : Text → AuthTables → Option Profile
profile_with_id id t = find_row (λ (p : Profile). p.id == id) t.profiles

abbrev pub profile_named : Text → AuthTables → Option Profile
profile_named username t = find_row (λ (p : Profile). p.username == username) t.profiles

unfoldable pub get_profile_by_id : Text → AuthRun Profile
get_profile_by_id id = query_row (profile_with_id id)

unfoldable pub get_profile_by_username : Text → AuthRun Profile
get_profile_by_username username = query_row (profile_named username)

unfoldable pub rename_profile : Profile → ℕ → AuthTables → Option AuthTables
rename_profile p now t =
    if has_profile p.id t
      && any (λ (q : Profile). not (q.id == p.id) && q.username == p.username) t.profiles
    then none
    else some (record t {
      profiles =
          update_rows (λ (q : Profile). q.id == p.id)
            (λ q. record q { username = p.username; updated_at = now }) t.profiles;
    })

-- The profile comes back as Go leaves it behind the pointer.
unfoldable pub update_profile : Profile → AuthRun Profile
update_profile p = do
  now ← time_now
  exec_affecting "profile not found" (has_profile p.id) (rename_profile p now)
  pure (record p { updated_at = now })

-- `delete from profile`, and the rows that reference it.
abbrev pub without_profile : Text → AuthTables → AuthTables
without_profile id t = record {
  profiles = delete_rows (λ (p : Profile). p.id == id) t.profiles;
  passwords = delete_rows (λ (r : PasswordRow). r.profile_id == id) t.passwords;
  sessions = delete_rows (λ (s : Session). s.profile_id == id) t.sessions;
  tokens = delete_rows (λ (k : ApiToken). k.profile_id == id) t.tokens;
}

unfoldable pub delete_profile : Text → AuthRun Unit
delete_profile id =
    exec_affecting "profile not found" (has_profile id) (λ t. some (without_profile id t))

unfoldable pub insert_password : PasswordRow → AuthTables → Option AuthTables
insert_password r t =
    if any (λ (q : PasswordRow). q.id == r.id) t.passwords || not (has_profile r.profile_id t)
    then none
    else some (record t { passwords = t.passwords ++ r ∷ [] })

unfoldable pub create_password : Text → Text → AuthRun PasswordAuthentication
create_password profile_id hash = do
  now ← time_now
  id ← new_id
  exec (
      insert_password (record {
        id = id;
        profile_id = profile_id;
        password_hash = hash;
        created_at = now;
        updated_at = now;
      }))
  pure (record { password_hash = hash; created_at = now; updated_at = now })

abbrev pub scan_password : Option PasswordRow → Option PasswordAuthentication
scan_password none = none
scan_password (some r) = some (record {
  password_hash = r.password_hash;
  created_at = r.created_at;
  updated_at = r.updated_at;
})

abbrev pub newer_password : PasswordRow → PasswordRow → Bool
newer_password a b = ltb b.created_at a.created_at

abbrev pub first {ℓ} : {A : Type ℓ} → List A → Option A
first [] = none
first (x ∷ xs) = some x

-- The join of the two tables on the profile; names are unique, so it has the rows of one profile.
abbrev pub password_of : Text → AuthTables → Option PasswordAuthentication
password_of username t = scan_password (
    first (
      sort_by newer_password (
        select_rows
          (λ (r : PasswordRow).
            any (λ (p : Profile). p.id == r.profile_id && p.username == username) t.profiles)
          t.passwords)))

unfoldable pub get_password_by_id : Text → AuthRun PasswordAuthentication
get_password_by_id id =
    query_row (λ t. scan_password (find_row (λ (r : PasswordRow). r.id == id) t.passwords))

unfoldable pub get_password_by_username : Text → AuthRun PasswordAuthentication
get_password_by_username username = query_row (password_of username)

unfoldable pub insert_session : Session → AuthTables → Option AuthTables
insert_session s t =
    if any (λ (q : Session). q.id == s.id) t.sessions || not (has_profile s.profile_id t)
    then none
    else some (record t { sessions = t.sessions ++ s ∷ [] })

unfoldable pub create_session : Text → AuthRun Session
create_session profile_id = do
  now ← time_now
  id ← new_id
  exec (
      insert_session
        (record { id = id; profile_id = profile_id; created_at = now; updated_at = now }))
  pure (record { id = id; profile_id = profile_id; created_at = now; updated_at = now })

abbrev pub newer_session : Session → Session → Bool
newer_session a b = ltb b.created_at a.created_at

abbrev pub session_with_id : Text → AuthTables → Option Session
session_with_id id t = find_row (λ (s : Session). s.id == id) t.sessions

unfoldable pub get_session_by_id : Text → AuthRun Session
get_session_by_id id = query_row (session_with_id id)

unfoldable pub get_session_by_profile_id : Text → AuthRun Session
get_session_by_profile_id profile_id = query_row λ t.
    first
      (sort_by newer_session (select_rows (λ (s : Session). s.profile_id == profile_id) t.sessions))

abbrev pub has_session : Text → AuthTables → Bool
has_session id t = any (λ (s : Session). s.id == id) t.sessions

abbrev pub without_session : Text → AuthTables → Option AuthTables
without_session id t =
    some (record t { sessions = delete_rows (λ (s : Session). s.id == id) t.sessions })

unfoldable pub delete_session : Text → AuthRun Unit
delete_session id = exec_affecting "session not found" (has_session id) (without_session id)
