-- ===== src/Cli/Execute/Laws.antt =====
-- What a run of the program does, and in which order.
use hosthalla.Base.{
  ℕ, ℤ, ◌≡◌, refl, ap, ◌∙◌, Bool, true, false, not, ◌&&◌, ◌||◌, List, [], ◌∷◌, ◌++◌, Option, none,
  some, ◌==◌, text_eq, contains, arith, Bool-cases, Option-cases, inl, inr,
}
use hosthalla.Text.{Text, codes}
use hosthalla.Cli.Command.{Command, run_of, needs_config, needs_db}
use hosthalla.Cli.Resolve.{Resolved, helped, resolved, unresolved}
use hosthalla.Cli.Execute.{
  Flags, asked_help, bad_flags, parsed, Step, shown, reported, loaded, opened, ran, closed,
  collect_json_flag, Dependencies, handle_error, finish, run_command, with_db, with_config,
  execute_resolved, execute_flags, execute,
}

module _ (w a : Text) where
  found_step : (b : Bool) → (a == w) ≡ true → true ≡ (w == a || b)
  found_step b flag = ground arith

  missed_step : (b : Bool) → (a == w) ≡ false → b ≡ (w == a || b)
  missed_step b other = ground arith

  dropped_step :
      (arg : Text) (b : Bool)
      → (a == w) ≡ true
      → (b && not (arg == w)) ≡ ((arg == a || b) && not (arg == w))
  dropped_step arg b flag = ground arith

  kept_step :
      (arg : Text) (b : Bool)
      → (a == w) ≡ false
      → (arg == a || b && not (arg == w)) ≡ ((arg == a || b) && not (arg == w))
  kept_step arg b other = ground arith

-- After collectJSONFlag the flag says whether an argument was --json, and an argument is there
-- afterwards exactly when it was before and is not --json.
pub collect_json_flag_lem :
    (args : List Text) (arg : Text)
    → ((collect_json_flag args).1 ≡ contains args (codes "--json"))
      × (contains (collect_json_flag args).0 arg
          ≡ (contains args arg && not (arg == codes "--json")))
unfolding collect_json_flag
collect_json_flag_lem [] arg = (refl, refl)
collect_json_flag_lem (a ∷ args) arg =
    let (found, kept) = collect_json_flag_lem args arg in
    elim (Bool-cases (a == codes "--json")) [
      | inl flag ↦ rw flag (
        found_step (codes "--json") a _ flag,
        kept ∙ dropped_step (codes "--json") a arg (contains args arg) flag,
      )
      | inr other ↦ rw other (
        found ∙ missed_step (codes "--json") a _ other,
        ap (λ b. arg == a || b) kept ∙ kept_step (codes "--json") a arg (contains args arg) other,
      )
    ]

-- Whether the database is open after the steps.
abbrev pub is_open : Bool → List Step → Bool
is_open db [] = db
is_open db (opened ∷ steps) = is_open true steps
is_open db (closed ∷ steps) = is_open false steps
is_open db (shown c ∷ steps) = is_open db steps
is_open db (reported e ∷ steps) = is_open db steps
is_open db (loaded path ∷ steps) = is_open db steps
is_open db (ran body path json args ∷ steps) = is_open db steps

is_open-append :
    (db : Bool) (steps later : List Step)
    → is_open db (steps ++ later) ≡ is_open (is_open db steps) later
is_open-append db [] later = refl
is_open-append db (opened ∷ steps) later = is_open-append true steps later
is_open-append db (closed ∷ steps) later = is_open-append false steps later
is_open-append db (shown c ∷ steps) later = is_open-append db steps later
is_open-append db (reported e ∷ steps) later = is_open-append db steps later
is_open-append db (loaded path ∷ steps) later = is_open-append db steps later
is_open-append db (ran body path json args ∷ steps) later = is_open-append db steps later

module _ (d : Dependencies) where
  run_command-closed :
      (run : Option ℕ) (path : Text) (json db : Bool) (args : List Text)
      → is_open db (run_command d run path json args).0 ≡ db
  unfolding run_command finish handle_error
  run_command-closed none path json db args = refl
  run_command-closed (some body) path json db args =
      elim (Option-cases (d.run_body body path json args)) [
        | inl fine ↦ rw fine refl
        | inr (e, failed) ↦ rw failed refl
      ]

  with_db-closed :
      (needed : Bool) (rest : List Step × ℤ)
      → ((db : Bool) → is_open db rest.0 ≡ db)
      → is_open false (with_db d needed rest).0 ≡ false
  unfolding with_db handle_error
  with_db-closed false rest h = h false
  with_db-closed true rest h = elim (Option-cases d.open_db) [
    | inl fine ↦ rw fine (is_open-append true rest.0 (closed ∷ []))
    | inr (e, failed) ↦ rw failed refl
  ]

  with_config-closed :
      (needed : Bool) (path : Text) (rest : List Step × ℤ)
      → is_open false rest.0 ≡ false
      → is_open false (with_config d needed path rest).0 ≡ false
  unfolding with_config handle_error
  with_config-closed false path rest h = h
  with_config-closed true path rest h = elim (Option-cases (d.load_config path)) [
    | inl fine ↦ elim (Option-cases (d.check_level path)) [
      | inl level ↦ rw (fine, level) h
      | inr (e, failed) ↦ rw (fine, failed) refl
    ]
    | inr (e, failed) ↦ rw failed refl
  ]

  execute_resolved-closed :
      (path : Text) (json : Bool) (r : Resolved)
      → is_open false (execute_resolved d path json r).0 ≡ false
  unfolding execute_resolved handle_error
  execute_resolved-closed path json (unresolved e) = refl
  execute_resolved-closed path json (helped c) = refl
  execute_resolved-closed path json (resolved c args) =
      with_config-closed (needs_config c || needs_db c) path _
        (with_db-closed (needs_db c) _ (λ db. run_command-closed (run_of c) path json db args))

  -- However the program is called and whatever fails, a database that was opened is closed when
  -- `Execute` returns.
  pub execute-closed :
      (root : Command) (args : List Text) → is_open false (execute d root args).0 ≡ false
  unfolding execute execute_flags handle_error
  execute-closed root args = go (d.parse_flags args)
    where
      go : (f : Flags) → is_open false (execute_flags d root f).0 ≡ false
      go asked_help = refl
      go (bad_flags message) = refl
      go (parsed path json true left) = refl
      go (parsed path json false left) = execute_resolved-closed path _ _
