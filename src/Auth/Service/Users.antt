-- ===== src/Auth/Service/Users.antt =====
-- A user is made whole or not at all.
use hosthalla.Base.{
  ◌≡◌, refl, sym, ap, ◌∙◌, true, false, not, ◌||◌, List, [], ◌∷◌, ◌++◌, Option, some, any,
  delete_rows, ◌==◌, text_eq, Error, joined, Result, ok, err, arith, pure, raise, lift, attempt,
  ◌>>=◌, require, exec, store, driver, time_now, new_id, Bool-cases, inl, inr, ◌⊎◌, All,
}
use hosthalla.Base.Inversion.{>>=-err, >>=-step, exec-ok, exec_affecting-ok, Result-cases}
use hosthalla.Text.{Text, trim_space}
use hosthalla.Auth.Tables.{
  Profile, PasswordAuthentication, PasswordRow, Session, ApiToken, AuthTables, AuthDb, AuthRun,
  has_profile,
}
use hosthalla.Auth.Repository
use hosthalla.Auth.Repository.{insert_profile, without_profile, insert_password}
use hosthalla.Auth.Service.{create_user, settle_user, back_out, hashed, CreateUserDto}

-- The foreign keys: every password, session and token belongs to a profile.
pub record IsClosed (t : AuthTables) : Type 0 where
  pub passwords : All (λ (r : PasswordRow). has_profile r.profile_id t ≡ true) t.passwords
  pub sessions : All (λ (s : Session). has_profile s.profile_id t ≡ true) t.sessions
  pub tokens : All (λ (k : ApiToken). has_profile k.profile_id t ≡ true) t.tokens

apart :
    (ps : List Profile) (p : Profile) (x : Text)
    → any (λ (q : Profile). q.id == p.id || q.username == p.username) ps ≡ false
    → any (λ (q : Profile). q.id == x) ps ≡ true
    → (x == p.id) ≡ false
apart [] p x fresh known = ground arith
apart (q ∷ ps) p x fresh known = ground (arith, apart ps p x)

delete_appended :
    (ps : List Profile) (p : Profile)
    → any (λ (q : Profile). q.id == p.id || q.username == p.username) ps ≡ false
    → delete_rows (λ (q : Profile). q.id == p.id) (ps ++ p ∷ []) ≡ ps
delete_appended [] p fresh = ground arith
delete_appended (q ∷ ps) p fresh = ground (arith, delete_appended ps p)

module _ {A : Type 0} (owner : A → Text) (t : AuthTables) (p : Profile) where
  delete_unowned :
      (rows : List A)
      → any (λ (q : Profile). q.id == p.id || q.username == p.username) t.profiles ≡ false
      → All (λ a. has_profile (owner a) t ≡ true) rows
      → delete_rows (λ a. owner a == p.id) rows ≡ rows
  delete_unowned [] fresh h = refl
  delete_unowned (a ∷ rows) fresh (known, h) =
      rw (apart t.profiles p (owner a) fresh known) (ap (λ l. a ∷ l) (delete_unowned rows fresh h))

taken_back :
    (p : Profile) (t t' : AuthTables)
    → IsClosed t
    → insert_profile p t ≡ some t'
    → without_profile p.id t' ≡ t
unfolding insert_profile
taken_back p t t' closed e =
    let fresh : any (λ (q : Profile). q.id == p.id || q.username == p.username) t.profiles ≡ false =
      ground arith in
    ground (
      arith,
      delete_appended t.profiles p,
      delete_unowned (λ (r : PasswordRow). r.profile_id) t p t.passwords fresh closed.passwords,
      delete_unowned (λ (s : Session). s.profile_id) t p t.sessions fresh closed.sessions,
      delete_unowned (λ (k : ApiToken). k.profile_id) t p t.tokens fresh closed.tokens,
    )

made_profile :
    (username : Text) (s : AuthDb) (p : Profile)
    → (Repository.create_profile username s).0 ≡ ok p
    → insert_profile p s.tables ≡ some (Repository.create_profile username s).1.tables
unfolding Repository.create_profile time_now new_id pure ◌>>=◌
made_profile username s p e =
    let t = (new_id (time_now s).1).1 in
    let made : Profile = record {
      id = s.world.ids s.world.drawn;
      username = username;
      created_at = s.world.times s.world.reads;
      updated_at = s.world.times s.world.reads;
    } in
    ground (arith, exec-ok (insert_profile made) t {x = tt})

no_profile :
    (username : Text) (s : AuthDb) (x : Error)
    → (Repository.create_profile username s).0 ≡ err x
    → (Repository.create_profile username s).1.tables ≡ s.tables
unfolding Repository.create_profile time_now new_id exec store driver pure ◌>>=◌
no_profile username s x e = ground arith

no_password :
    (id hash : Text) (s : AuthDb) (x : Error)
    → (Repository.create_password id hash s).0 ≡ err x
    → (Repository.create_password id hash s).1.tables ≡ s.tables
unfolding Repository.create_password time_now new_id exec store driver pure ◌>>=◌
no_password id hash s x e = ground arith

-- The tables are as they were, or the taking back of the profile failed too.
abbrev pub IsUndone : AuthTables → Error → AuthDb → Type 0
IsUndone before e after =
    (after.tables ≡ before) ⊎ ((first : Error) × (second : Error) × (e ≡ joined first second))

deleted_profile :
    (id : Text) (s : AuthDb)
    → (Repository.delete_profile id s).0 ≡ ok tt
    → (Repository.delete_profile id s).1.tables ≡ without_profile id s.tables
unfolding Repository.delete_profile
deleted_profile id s e =
    let (_, done, _) =
      exec_affecting-ok "profile not found" (has_profile id) (λ t. some (without_profile id t)) s
        e in
    ground arith

backed_out :
    (x e : Error) (r : Result (Unit {0})) (before : AuthTables) (s : AuthDb)
    → (r ≡ ok tt → s.tables ≡ before)
    → (back_out x r s).0 ≡ err e
    → IsUndone before e (back_out x r s).1
unfolding back_out raise
backed_out x e (ok tt) before s back h = inl (back refl)
backed_out x e (err y) before s back h = inr (x, y, ground arith)

settled :
    (p : Profile) (r : Result PasswordAuthentication) (before : AuthTables) (s : AuthDb) (e : Error)
    → ((x : Error) → r ≡ err x → without_profile p.id s.tables ≡ before)
    → (settle_user p r s).0 ≡ err e
    → IsUndone before e (settle_user p r s).1
unfolding settle_user pure attempt ◌>>=◌
settled p (ok a) before s e back h = ground arith
settled p (err x) before s e back h =
    backed_out x e (Repository.delete_profile p.id s).0 before (Repository.delete_profile p.id s).1
      (λ gone. deleted_profile p.id s gone ∙ back x refl) h

settle_step :
    (p : Profile) (m : AuthRun PasswordAuthentication) (s : AuthDb)
    → (attempt m >>= settle_user p) s ≡ settle_user p (m s).0 (m s).1
unfolding attempt ◌>>=◌
settle_step p m s = refl

module _ (hash_password : Text → Option Text) where
  stored_user :
      (username hash : Text) (s : AuthDb) (e : Error)
      → IsClosed s.tables
      → ((do
        created ← Repository.create_profile username
        stored ← attempt (Repository.create_password created.id hash)
        settle_user created stored)
          s).0
        ≡ err e
      → IsUndone s.tables e
          ((do
            created ← Repository.create_profile username
            stored ← attempt (Repository.create_password created.id hash)
            settle_user created stored)
            s).1
  stored_user username hash s e closed h =
      let make = Repository.create_profile username in
      elim (Result-cases (make s).0) [
        | inl (p, made) ↦
            let kept =
              taken_back p s.tables (make s).1.tables closed (made_profile username s p made) in
            let pw = Repository.create_password p.id hash in
            let rest = λ (created : Profile).
              attempt (Repository.create_password created.id hash) >>= settle_user created in
            let step = >>=-step make rest s made ∙ settle_step p pw (make s).1 in
            rw step (
              settled p (pw (make s).1).0 s.tables (pw (make s).1).1 e
                (λ x bad. ap (without_profile p.id) (no_password p.id hash (make s).1 x bad) ∙ kept)
                (ap (λ r. r.0) (sym step) ∙ h))
        | inr (x, failed) ↦ rw (>>=-err make _ s failed) (inl (no_profile username s x failed))
      ]

  whole :
      (dto : CreateUserDto) (hash : Text) (s : AuthDb)
      → not (trim_space dto.username == []) ≡ true
      → hashed hash_password dto.password ≡ ok hash
      → create_user hash_password dto s
        ≡ (do
          created ← Repository.create_profile (trim_space dto.username)
          stored ← attempt (Repository.create_password created.id hash)
          settle_user created stored)
            s
  unfolding create_user require lift ◌>>=◌
  whole dto hash s filled good = rw (filled, good) refl

  -- Where every password, session and token belongs to a profile, a user that cannot be created
  -- leaves the tables as they were, unless the taking back of its profile fails as well, which the
  -- error then tells of.
  pub create_user-IsUndone :
      (dto : CreateUserDto) (s : AuthDb) (e : Error)
      → IsClosed s.tables
      → (create_user hash_password dto s).0 ≡ err e
      → IsUndone s.tables e (create_user hash_password dto s).1
  unfolding create_user require lift ◌>>=◌
  create_user-IsUndone dto s e closed h = elim (Bool-cases (not (trim_space dto.username == []))) [
    | inl filled ↦ elim (Result-cases (hashed hash_password dto.password)) [
      | inl (hash, good) ↦
          let rest = whole dto hash s filled good in
          rw rest
            (stored_user (trim_space dto.username) hash s e closed (ap (λ r. r.0) (sym rest) ∙ h))
      | inr (x, bad) ↦ rw (filled, bad) (inl refl)
    ]
    | inr blank ↦ rw blank (inl refl)
  ]
