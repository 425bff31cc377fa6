-- ===== src/Web/Sessions/Login.antt =====
-- What a login leaves behind, and what the session check makes of its cookie.
use mathlib.Core.Path.{subst}
use hosthalla.Base.{
  ℕ, ◌≡◌, refl, sym, ap, ◌∙◌, Bool, true, false, not, List, [], ◌∷◌, ◌++◌, none, some, any,
  find_row, Result, ok, err, pure, attempt, exec, time_now, new_id, ◌>>=◌, ◌==◌, text_eq, arith,
  inl, inr, query_row,
}
use hosthalla.Base.Inversion.{
  >>=-ok, exec-ok, query_row-ok, query_row-Frame, query_row_answers, require-ok, Result-cases,
}
use hosthalla.Text.{Text, codes, trim_space}
use hosthalla.Auth.Tables.{Profile, PasswordAuthentication, Session, AuthDb, AuthRun, AuthTables}
use hosthalla.Auth.Repository as Repository
use hosthalla.Auth.Repository.{password_of, session_with_id, get_session_by_id}
use hosthalla.Auth.Service.{validate_password, get_profile_by_username, create_session}
use hosthalla.Web.Request.{Request, Response, form_value, rendered}
use hosthalla.Web.Sessions.{
  Cookie, login, after_password, after_profile, after_session, login_response, auth_middleware,
  passed, gate,
}

find_append :
    (rows : List Session) (s : Session)
    → any (λ (q : Session). q.id == s.id) rows ≡ false
    → find_row (λ (q : Session). q.id == s.id) (rows ++ s ∷ []) ≡ some s
find_append [] s h = ground arith
find_append (q ∷ rows) s h = ground (arith, find_append rows s)

absent :
    (rows : List Session) (id : Text)
    → any (λ (q : Session). q.id == id) rows ≡ false
    → find_row (λ (q : Session). q.id == id) rows ≡ none
absent [] id h = refl
absent (q ∷ rows) id h = ground (arith, absent rows id)

-- A session that a call stored, with an identifier that no session had.
pub record IsNew (session : Session) (before after : AuthTables) : Type 0 where
  pub unused : session_with_id session.id before ≡ none
  pub added : after.sessions ≡ before.sessions ++ session ∷ []
  pub kept : session_with_id session.id after ≡ some session

insert_session-IsNew :
    (session : Session) (t t' : AuthTables)
    → Repository.insert_session session t ≡ some t'
    → IsNew session t t'
unfolding Repository.insert_session
insert_session-IsNew session t t' e = record {
  unused = ground (arith, absent t.sessions session.id);
  added = ground arith;
  kept = ground (arith, find_append t.sessions session);
}

create_session-IsNew :
    (id : Text) (s : AuthDb) {session : Session}
    → (create_session id s).0 ≡ ok session
    → (session.profile_id ≡ trim_space id) × IsNew session s.tables (create_session id s).1.tables
unfolding create_session Repository.create_session pure time_now new_id
create_session-IsNew id s {session} e =
    let (filled, first) = require-ok (not (trim_space id == [])) _ _ s e in
    let e1 = ap (λ r. r.0) (sym first) ∙ e in
    let (now, got1, second) = >>=-ok time_now _ s e1 in
    let s1 = (time_now s).1 in
    let e2 = ap (λ r. r.0) (sym second) ∙ e1 in
    let (new, got2, third) = >>=-ok new_id _ s1 e2 in
    let s2 = (new_id s1).1 in
    let e3 = ap (λ r. r.0) (sym third) ∙ e2 in
    let made : Session = record {
      id = new;
      profile_id = trim_space id;
      created_at = now;
      updated_at = now;
    } in
    let (x, got3, fourth) = >>=-ok (exec (Repository.insert_session made)) _ s2 e3 in
    let value : ok made ≡ ok session = ap (λ r. r.0) (sym fourth) ∙ e3 in
    let same : made ≡ session = cc in
    let s3 = (exec (Repository.insert_session made) s2).1 in
    let held : IsNew made s.tables s3.tables =
      insert_session-IsNew made s2.tables s3.tables (exec-ok _ s2 got3).0 in
    (
      ap (λ (q : Session). q.profile_id) (sym same),
      subst (λ (r : Result Session × AuthDb). IsNew session s.tables r.1.tables)
          (sym (first ∙ second ∙ third ∙ fourth))
          (subst (λ (q : Session). IsNew q s.tables s3.tables) same held),
    )

attempt-step :
    {A B : Type 0} (m : AuthRun A) (f : Result A → AuthRun B) (s : AuthDb)
    → (attempt m >>= f) s ≡ f (m s).0 (m s).1
unfolding attempt ◌>>=◌
attempt-step m f s = refl

-- A new session in the table, for a profile of that name whose password was compared.
pub record IsAdmitted (compare_password : Text → Text → Bool) (r : Request)
    (before after : AuthTables) (cookie : Cookie) : Type 0 where
  pub held : PasswordAuthentication
  pub stored : password_of (form_value r (codes "username")) before ≡ some held
  pub matched : compare_password held.password_hash (form_value r (codes "password")) ≡ true
  pub profile : Profile
  pub named : Repository.profile_named (form_value r (codes "username")) before ≡ some profile
  pub session : Session
  pub owner : session.profile_id ≡ trim_space profile.id
  pub named_by : cookie.value ≡ session.id
  pub created : IsNew session before after

module _ (compare_password : Text → Text → Bool) (r : Request) where
  abbrev username : Text
  username = form_value r (codes "username")

  abbrev validate : AuthRun Bool
  validate = validate_password compare_password username (form_value r (codes "password"))

  validated :
      (s : AuthDb)
      → (validate s).0 ≡ ok true
      → (held : PasswordAuthentication) × (password_of username s.tables ≡ some held)
        × (compare_password held.password_hash (form_value r (codes "password")) ≡ true)
        × ((validate s).1.tables ≡ s.tables)
  unfolding validate_password Repository.get_password_by_username pure
  validated s e =
      let find = query_row (password_of username) in
      let (held, got, rest) = >>=-ok find _ s e in
      let verdict : ok (compare_password held.password_hash (form_value r (codes "password")))
          ≡ ok true =
        ap (λ q. q.0) (sym rest) ∙ e in
      (
        held,
        query_row-ok (password_of username) s got,
        cc,
        ap (λ q. q.1.tables) rest ∙ (query_row-Frame (password_of username) s).tables,
      )

  session_step :
      (profile : Profile) (t : AuthDb) (cookie : Cookie)
      → (after_profile compare_password r (ok profile) t).0 ≡ ok (rendered cookie)
      → (session : Session) × (session.profile_id ≡ trim_space profile.id)
        × (cookie.value ≡ session.id)
        × IsNew session t.tables (after_profile compare_password r (ok profile) t).1.tables
  unfolding pure
  session_step profile t cookie e =
      let make = create_session profile.id in
      let taken = attempt-step make (λ made. pure (after_session compare_password r made)) t in
      let answer : ok (after_session compare_password r (make t).0) ≡ ok (rendered cookie) =
        ap (λ q. q.0) (sym taken) ∙ e in
      elim (Result-cases (make t).0) [
        | inl (session, made) ↦
            let (owner, new) = create_session-IsNew profile.id t made in
            let shown : ok (login_response compare_password r session) ≡ ok (rendered cookie) =
              ap (λ q. ok (after_session compare_password r q)) (sym made) ∙ answer in
            let same : cookie.value ≡ session.id = cc in
            (
              session,
              owner,
              same,
              subst (λ (q : Result (Response Cookie) × AuthDb). IsNew session t.tables q.1.tables)
                  (sym taken) new,
            )
        | inr (x, failed_with) ↦
            let shown : ok (after_session compare_password r (err x)) ≡ ok (rendered cookie) =
              ap (λ q. ok (after_session compare_password r q)) (sym failed_with) ∙ answer in
            cc
      ]

  password_step :
      (t : AuthDb) (cookie : Cookie)
      → (after_password compare_password r (ok true) t).0 ≡ ok (rendered cookie)
      → (profile : Profile) × (Repository.profile_named username t.tables ≡ some profile)
        × (session : Session) × (session.profile_id ≡ trim_space profile.id)
        × (cookie.value ≡ session.id)
        × IsNew session t.tables (after_password compare_password r (ok true) t).1.tables
  unfolding pure get_profile_by_username Repository.get_profile_by_username
  password_step t cookie e =
      let find = query_row (Repository.profile_named username) in
      let next = after_profile compare_password r in
      let taken = attempt-step find next t in
      elim (Result-cases (find t).0) [
        | inl (profile, got) ↦
            let moved : after_password compare_password r (ok true) t
                ≡ next (ok profile) (find t).1 =
              taken ∙ ap (λ q. next q (find t).1) got in
            let (session, owner, same, new) =
              session_step profile (find t).1 cookie (ap (λ q. q.0) (sym moved) ∙ e) in
            (
              profile,
              query_row-ok (Repository.profile_named username) t got,
              session,
              owner,
              same,
              subst (λ (q : Result (Response Cookie) × AuthDb). IsNew session t.tables q.1.tables)
                  (sym moved)
                  (subst
                    (λ (b : AuthTables). IsNew session b (next (ok profile) (find t).1).1.tables)
                    (query_row-Frame (Repository.profile_named username) t).tables new),
            )
        | inr (x, failed_with) ↦
            let moved : after_password compare_password r (ok true) t ≡ next (err x) (find t).1 =
              taken ∙ ap (λ q. next q (find t).1) failed_with in
            let shown = ap (λ q. q.0) (sym moved) ∙ e in cc
      ]

  login_step :
      (s : AuthDb) (cookie : Cookie)
      → (login compare_password r s).0 ≡ ok (rendered cookie)
      → IsAdmitted compare_password r s.tables (login compare_password r s).1.tables cookie
  unfolding login pure
  login_step s cookie e =
      let next = after_password compare_password r in
      let taken = attempt-step validate next s in
      elim (Result-cases (validate s).0) [
        | inl (true, got) ↦
            let moved : login compare_password r s ≡ next (ok true) (validate s).1 =
              taken ∙ ap (λ q. next q (validate s).1) got in
            let (held, stored, matched, same) = validated s got in
            let (profile, named, session, owner, named_by, new) =
              password_step (validate s).1 cookie (ap (λ q. q.0) (sym moved) ∙ e) in
            record {
              held = held;
              stored = stored;
              matched = matched;
              profile = profile;
              named = ap (Repository.profile_named username) (sym same) ∙ named;
              session = session;
              owner = owner;
              named_by = named_by;
              created =
                  subst
                    (λ (q : Result (Response Cookie) × AuthDb). IsNew session s.tables q.1.tables)
                    (sym moved)
                    (subst
                      (λ (b : AuthTables). IsNew session b (next (ok true) (validate s).1).1.tables)
                      same new);
            }
        | inl (false, got) ↦
            let moved : login compare_password r s ≡ next (ok false) (validate s).1 =
              taken ∙ ap (λ q. next q (validate s).1) got in
            let shown = ap (λ q. q.0) (sym moved) ∙ e in cc
        | inr (x, failed_with) ↦
            let moved : login compare_password r s ≡ next (err x) (validate s).1 =
              taken ∙ ap (λ q. next q (validate s).1) failed_with in
            let shown = ap (λ q. q.0) (sym moved) ∙ e in cc
      ]

  -- A login that sets a cookie has compared the password that is stored under the given user name,
  -- and found that it matches; it has added one session, of the profile of that name, with an
  -- identifier that no session had, which is the value of the cookie; and from then on `AuthMiddleware` hands a request with that cookie on with that session, in every state
  -- with the tables that the login left and with no fault ahead.
  pub login-admits :
      (s : AuthDb) (cookie : Cookie)
      → (login compare_password r s).0 ≡ ok (rendered cookie)
      → (admitted : IsAdmitted compare_password r s.tables
          (login compare_password r s).1.tables
          cookie)
        × ((t : AuthDb)
            → t.tables ≡ (login compare_password r s).1.tables
            → ((k : ℕ) → t.world.faults k ≡ none)
            → (auth_middleware (some cookie.value) t).0 ≡ ok (passed admitted.session))
  unfolding auth_middleware get_session_by_id pure
  login-admits s cookie e =
      let admitted = login_step s cookie e in
      (
        admitted,
        λ t same quiet.
            let find = query_row (session_with_id cookie.value) in
            ap (λ q. q.0) (attempt-step find (λ found. pure (gate found)) t)
            ∙ ap (λ q. ok (gate q))
                (query_row_answers (session_with_id cookie.value) t quiet (
                  ap (session_with_id cookie.value) same
                  ∙ ap (λ v. session_with_id v (login compare_password r s).1.tables)
                      admitted.named_by
                  ∙ admitted.created.kept)),
      )
