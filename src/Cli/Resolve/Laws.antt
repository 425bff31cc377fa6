-- ===== src/Cli/Resolve/Laws.antt =====
-- Which command the arguments reach.
use mathlib.Core.Path.{subst}
use hosthalla.Base.{
  ℕ, ◌≡◌, ◌≢◌, ap, ◌∙◌, Bool, true, false, ◌||◌, List, [], ◌∷◌, ◌++◌, Option, none, some, ◌==◌,
  text_eq, arith, Bool-cases, Option-cases, inl, inr,
}
use hosthalla.Text.{Text, codes, has_prefix}
use hosthalla.Cli.Command.{Command, child, run_of}
use hosthalla.Cli.Resolve.{
  Walked, reached, lost, resolved, help_word, stray, walk_from, walk, has_help_flag, runnable,
  resolve_plain, resolve_help_tail, resolve_walked, resolve_topic, resolve,
}

-- The names lead from one command down to another, none of them a flag or `help`.
pub data Leads : Command → List Text → Command → Type 0 where
  here : (c : Command) → Leads c [] c
  down :
      (c d e : Command) (name : Text) (names : List Text)
      → child c name ≡ some d
      → has_prefix name (codes "-") || name == help_word ≡ false
      → Leads d names e
      → Leads c (name ∷ names) e

stops :
    (c e : Command) (args rest : List Text)
    → reached c args ≡ reached e rest
    → (names : List Text) × Leads c names e × (args ≡ names ++ rest)
stops c e args rest h =
    let same : c ≡ e = cc in
    let left : args ≡ rest = cc in ([], subst (λ x. Leads c [] x) same (here c), left)

module _ (quote : Text → Text) where
  stray-reached :
      (at_root : Bool) (c e : Command) (a : Text) (args rest : List Text)
      → stray quote at_root c a args ≡ reached e rest
      → reached c (a ∷ args) ≡ reached e rest
  unfolding stray
  stray-reached at_root c e a args rest h = ground arith

  walk_from-Leads :
      (at_root : Bool) (c : Command) (args : List Text) (e : Command) (rest : List Text)
      → walk_from quote at_root c args ≡ reached e rest
      → (names : List Text) × Leads c names e × (args ≡ names ++ rest)
  unfolding walk_from
  walk_from-Leads at_root c [] e rest h = stops c e [] rest h
  walk_from-Leads at_root c (a ∷ args) e rest h =
      elim (Bool-cases (has_prefix a (codes "-") || a == help_word)) [
        | inl word ↦ stops c e (a ∷ args) rest (ground arith)
        | inr name ↦ elim (Option-cases (child c a)) [
          | inl stray ↦
              stops c e (a ∷ args) rest (stray-reached at_root c e a args rest (ground arith))
          | inr (d, found) ↦
              let (names, leads, same) = walk_from-Leads false d args e rest (ground arith) in
              (a ∷ names, down c d e a names found name leads, ap (λ l. a ∷ l) same)
        ]
      ]

  runnable-resolved :
      (run : Option ℕ) (c e : Command) (rest args : List Text)
      → runnable quote run c rest ≡ resolved e args
      → (run ≢ none) × (c ≡ e) × (rest ≡ args)
  runnable-resolved none c e rest args h = ground arith
  runnable-resolved (some body) c e rest args h = ground arith

  resolve_plain-resolved :
      (c e : Command) (rest args : List Text)
      → resolve_plain quote c rest ≡ resolved e args
      → (run_of c ≢ none) × (c ≡ e) × (rest ≡ args) × (has_help_flag rest ≡ false)
  unfolding resolve_plain
  resolve_plain-resolved c e rest args h = elim (Bool-cases (has_help_flag rest)) [
    | inl asked ↦ ground arith
    | inr silent ↦
        let (x, y, z) = runnable-resolved (run_of c) c e rest args (ground arith) in
        (x, y, z, silent)
  ]

  -- What stands behind a command that is going to be run.
  pub record IsChosen (root : Command) (args : List Text) (e : Command) (rest : List Text)
      : Type 0 where
    pub path : (names : List Text) × Leads root names e × (args ≡ names ++ rest)
    pub runs : run_of e ≢ none
    pub silent : has_help_flag rest ≡ false

  tail_helps :
      (c e : Command) (args rest : List Text) → resolve_help_tail quote c args ≢ resolved e rest
  unfolding resolve_help_tail
  tail_helps c e [] rest h = ground arith
  tail_helps c e (a ∷ args) rest h = ground arith

  resolve_walked-resolved :
      (w : Walked) (e : Command) (rest : List Text)
      → resolve_walked quote w ≡ resolved e rest
      → (w ≡ reached e rest) × (run_of e ≢ none) × (has_help_flag rest ≡ false)
  unfolding resolve_walked
  resolve_walked-resolved (lost x) e rest h = ground arith
  resolve_walked-resolved (reached c []) e rest h =
      let (run, cmd, left, flag) = resolve_plain-resolved c e [] rest h in
      (ap (λ x. reached x []) cmd ∙ ap (reached e) left, rw (← cmd) run, rw (← left) flag)
  resolve_walked-resolved (reached c (a ∷ args)) e rest h = elim (Bool-cases (a == help_word)) [
    | inl asked ↦ absurd (tail_helps c e args rest (ground arith))
    | inr other ↦
        let (run, cmd, left, flag) = resolve_plain-resolved c e (a ∷ args) rest (ground arith) in
        (ap (λ x. reached x (a ∷ args)) cmd ∙ ap (reached e) left, rw (← cmd) run, rw (← left) flag)
  ]

  topic_helps :
      (root e : Command) (topic rest : List Text) (w : Walked)
      → resolve_topic quote root topic w ≢ resolved e rest
  unfolding resolve_topic
  topic_helps root e topic rest (lost x) h = ground arith
  topic_helps root e topic rest (reached c []) h = ground arith
  topic_helps root e topic rest (reached c (a ∷ args)) h = ground arith

  chosen :
      (root : Command) (args : List Text) (e : Command) (rest : List Text)
      → resolve_walked quote (walk quote root args) ≡ resolved e rest
      → IsChosen root args e rest
  unfolding walk
  chosen root args e rest h =
      let (w, run, flag) = resolve_walked-resolved (walk quote root args) e rest h in
      record { path = walk_from-Leads true root args e rest w; runs = run; silent = flag }

  -- A command that `resolve` hands over to be run has a body, is reached from the root by the first
  -- arguments as names of children, none of them `help` or a flag, and gets the other arguments in
  -- their order, among which there is no help flag.
  pub resolve-IsChosen :
      (root : Command) (args : List Text) (e : Command) (rest : List Text)
      → resolve quote root args ≡ resolved e rest
      → IsChosen root args e rest
  unfolding resolve
  resolve-IsChosen root [] e rest h = ground arith
  resolve-IsChosen root (a ∷ []) e rest h = elim (Bool-cases (a == help_word)) [
    | inl asked ↦ ground arith
    | inr other ↦ chosen root (a ∷ []) e rest (ground arith)
  ]
  resolve-IsChosen root (a ∷ b ∷ args) e rest h = elim (Bool-cases (a == help_word)) [
    | inl asked ↦
        absurd (topic_helps root e (b ∷ args) rest (walk quote root (b ∷ args)) (ground arith))
    | inr other ↦ chosen root (a ∷ b ∷ args) e rest (ground arith)
  ]
