-- ===== src/Agent/Runtime/Termination.antt =====
-- `Runtime.Run` comes to an end, and not before every instance did.
use mathlib.Core.Path.{subst}
use mathlib.Core.List.{Perm, perm_middle, append_assoc, append-nil, perm-append_left_iff}
use mathlib.Core.List.Perm
use hosthalla.Base.{
  ℕ, suc, ◌+◌, ◌*◌, ◌≤◌, ◌≡◌, ◌≢◌, ◌↔◌, refl, sym, ap, ◌∙◌, true, List, [], ◌∷◌, ◌++◌, map, none,
  some, length, length-append, Result, ok, arith, if◌then◌else◌, nat_eq,
}
use hosthalla.Text.{Text}
use hosthalla.Agent.Runtime.{
  Run, InstanceResult, Ending, finished, run_instance, start, Step, cancel, send, receive, stop,
  Steps, here, next, outcome, run,
}

abbrev pub names_of : List InstanceResult → List Text
names_of = map (λ r. r.name)

record Inv (names : List Text) (s : Run) : Type 0 where
  room : s.capacity ≡ length names
  left : s.remaining ≡ length s.running + length s.channel
  total : s.remaining + length s.logged ≡ length names
  all : Perm (names_of s.logged ++ (names_of s.channel ++ s.running)) names

-- How many steps are left at most.
abbrev fuel : Run → ℕ
fuel s =
    2 * length s.running
    + length s.channel
    + (if s.is_stopping then 0 else 1)
    + (if s.is_cancelled then 0 else 1)

names_of-append : (xs ys : List InstanceResult) → names_of (xs ++ ys) ≡ names_of xs ++ names_of ys
names_of-append [] ys = refl
names_of-append (x ∷ xs) ys = ap (λ r. x.name ∷ r) (names_of-append xs ys)

length-middle :
    (xs : List Text) (x : Text) (ys : List Text) → length (xs ++ x ∷ ys) ≡ suc (length (xs ++ ys))
length-middle [] x ys = refl
length-middle (y ∷ xs) x ys = ap suc (length-middle xs x ys)

run_instance_name : (name : Text) (ending : Ending) → (run_instance name ending).name ≡ name
unfolding run_instance
run_instance_name name (finished e) = refl
run_instance_name name (Ending.panicked m k) = refl

start-Inv : (names : List Text) → Inv names (start names)
unfolding start
start-Inv names = record {
  room = refl;
  left = omega arith;
  total = omega arith;
  all = Perm.refl names;
}

-- The name of an instance that ends moves from `running` to the end of `channel`.
moved :
    (logged channel before : List Text) (name : Text) (after : List Text)
    → Perm
        (logged ++ ((channel ++ name ∷ []) ++ (before ++ after)))
        (logged ++ (channel ++ (before ++ (name ∷ after))))
moved logged channel before name after =
    let front : Perm (name ∷ (before ++ after)) (before ++ (name ∷ after)) =
      Perm.symm (perm_middle before after) in
    let inner : Perm (channel ++ (name ∷ (before ++ after)))
        (channel ++ (before ++ (name ∷ after))) =
      (perm-append_left_iff channel).1 front in
    rw (append_assoc channel (name ∷ []) (before ++ after)) ((perm-append_left_iff logged).1 inner)

Step-Inv : (names : List Text) {s t : Run} → Step s t → Inv names s → Inv names t
Step-Inv names {s} {t} (cancel c e) h =
    rw e (record { room = h.room; left = h.left; total = h.total; all = h.all })
Step-Inv names {s} {t} (send before name after ending split room e) h =
    let result = run_instance name ending in
    let named : names_of (s.channel ++ result ∷ []) ≡ names_of s.channel ++ name ∷ [] =
      names_of-append s.channel (result ∷ [])
      ∙ ap (λ n. names_of s.channel ++ n ∷ []) (run_instance_name name ending) in
    rw e (record {
      room = h.room;
      left = ground (
        arith,
        h.left,
        length-middle before name after,
        length-append s.channel (result ∷ []),
        ap length split,
      );
      total = h.total;
      all =
          subst (λ ns. Perm (names_of s.logged ++ (ns ++ (before ++ after))) names) (sym named)
            (Perm.trans (moved (names_of s.logged) (names_of s.channel) before name after) (
              subst (λ ns. Perm (names_of s.logged ++ (names_of s.channel ++ ns)) names) split
                h.all));
    })
Step-Inv names {s} {t} (receive result rest some_left split e) h = rw e (record {
  room = h.room;
  left = ground (arith, h.left, ap length split);
  total = ground (arith, h.total, length-append s.logged (result ∷ []));
  all =
      subst (λ ns. Perm (ns ++ (names_of rest ++ s.running)) names)
        (sym (names_of-append s.logged (result ∷ [])))
        (subst (λ ns. Perm ns names)
          (sym (append_assoc (names_of s.logged) (result.name ∷ []) (names_of rest ++ s.running)))
          (subst (λ c. Perm (names_of s.logged ++ (names_of c ++ s.running)) names) split h.all));
})
Step-Inv names {s} {t} (stop some_left going cancelled e) h =
    rw e (record { room = h.room; left = h.left; total = h.total; all = h.all })

Step-fuel : {s t : Run} → Step s t → suc (fuel t) ≤ fuel s
Step-fuel {s} {t} (cancel c e) = rw e (ground arith)
Step-fuel {s} {t} (send before name after ending split room e) = rw e (
    ground (
      arith,
      length-middle before name after,
      length-append s.channel (run_instance name ending ∷ []),
      ap length split,
    ))
Step-fuel {s} {t} (receive result rest some_left split e) = rw e (ground (arith, ap length split))
Step-fuel {s} {t} (stop some_left going cancelled e) = rw e (ground arith)

Steps-Inv : (names : List Text) {s t : Run} {n : ℕ} → Steps s n t → Inv names s → Inv names t
Steps-Inv names here h = h
Steps-Inv names (next steps step) h = Step-Inv names step (Steps-Inv names steps h)

Steps-fuel : {s t : Run} {n : ℕ} → Steps s n t → n + fuel t ≤ fuel s
Steps-fuel here = omega arith
Steps-fuel (next steps step) = omega (arith, Steps-fuel steps, Step-fuel step)

-- The loop is never stuck: what an instance sends finds room, and what was sent is received.
progress : (names : List Text) (s : Run) → Inv names s → s.remaining ≢ 0 → (t : Run) × Step s t
progress names s h going = by_lists s.running s.channel refl refl
  where
    by_lists :
        (running : List Text) (channel : List InstanceResult)
        → s.running ≡ running
        → s.channel ≡ channel
        → (t : Run) × Step s t
    by_lists running (result ∷ rest) e f = (_, receive result rest (omega arith) f refl)
    by_lists (name ∷ names) [] e f = (
      _,
      send [] name names (finished none) e
          (ground (arith, h.total, h.left, h.room, ap length e, ap length f)) refl,
    )
    by_lists [] [] e f = absurd (going (ground (arith, h.left, ap length e, ap length f)))

nothing_left :
    (running : List Text) (channel : List InstanceResult)
    → length running + length channel ≡ 0
    → names_of channel ++ running ≡ []
nothing_left [] [] e = refl
nothing_left (name ∷ running) channel e = absurd (ground arith)
nothing_left [] (result ∷ channel) e = absurd (ground arith)

finished_all :
    (names : List Text) (s : Run) → Inv names s → s.remaining ≡ 0 → Perm (names_of s.logged) names
finished_all names s h e =
    let empty = nothing_left s.running s.channel (sym h.left ∙ e) in
    subst (λ ns. Perm ns names)
      (ap (λ ns. names_of s.logged ++ ns) empty ∙ append-nil (names_of s.logged)) h.all

-- However the instances end and whenever the context is cancelled, the loop of `Runtime.Run` takes
-- at most 2n + 2 steps for n instances, n > 0, counting those of the instances; until it returns,
-- some step can be taken; and when it returns, the results it has logged are those of the n
-- instances, one each, and it returns no error exactly if the context was cancelled.
pub run_terminates :
    (first : Text) (others : List Text) (n : ℕ) (t : Run)
    → Steps (start (first ∷ others)) n t
    → (n ≤ 2 * length (first ∷ others) + 2)
      × (run (first ∷ others) t ≡ none → (u : Run) × Step t u)
      × ((r : Result (Unit {0}))
          → run (first ∷ others) t ≡ some r
          → Perm (names_of t.logged) (first ∷ others) × ((r ≡ ok tt) ↔ (t.is_cancelled ≡ true)))
unfolding run outcome start
run_terminates first others n t steps =
    let names = first ∷ others in
    let h = Steps-Inv names steps (start-Inv names) in
    (
      omega (arith, Steps-fuel steps),
      λ inside. progress names t h (λ e. ground arith),
      λ r done. (
        finished_all names t h (ground arith),
        (λ fine. ground arith, λ cancelled. ground arith),
      ),
    )
