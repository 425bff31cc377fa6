-- ===== src/Agent/Collector/Exclusive.antt =====
-- The cache of `CachedMetricsCollector` over every interleaving of its callers.
use mathlib.Core.Path.{subst}
use hosthalla.Base.{
  ℕ, ◌+◌, ◌-◌, ◌≤◌, ◌≡◌, ◌≢◌, ◌⊎◌, inl, inr, refl, sym, ap, ◌∙◌, Bool, true, false, List, [], ◌∷◌,
  Option, none, some, Result, ltb, if◌then◌else◌, nat_eq, contains, arith,
}
use hosthalla.Model.{Metric}
use hosthalla.Agent.Collector.{
  Collector, Phase, outside, collecting, waiting, returned, panicking, Start, Collected, gave,
  panicked, phase_of, with_phase, is_fresh, is_busy, enter, finish, wake, give_up, Step, call,
  collected, woken, gave_up, tick, Reach, here, next, initial,
}

-- Each collection starts no earlier than the one before it, and by the distance.
abbrev pub Spaced : ℕ → List Start → Type 0
Spaced ttl [] = Unit
Spaced ttl (s ∷ []) = Unit
Spaced ttl (s ∷ r ∷ rest) = (r.instant + ttl ≤ s.instant) × Spaced ttl (r ∷ rest)

abbrev IsFirst : ℕ → List Start → Type 0
IsFirst caller [] = ⊥
IsFirst caller (s ∷ rest) = s.caller ≡ caller

abbrev IsPast : ℕ → List Start → Type 0
IsPast clock [] = Unit
IsPast clock (s ∷ rest) = s.instant ≤ clock

abbrev IsSettled : Option ℕ → List Start → Type 0
IsSettled updated [] = Unit
IsSettled none (s ∷ rest) = ⊥
IsSettled (some updated) (s ∷ rest) = s.instant ≤ updated

record Inv (ttl : ℕ) (c : Collector) : Type 0 where
  owner :
      (caller channel : ℕ)
      → c.phases caller ≡ collecting channel
      → (c.is_running ≡ true) × IsFirst caller c.starts × (channel ≡ c.completed)
  worker : c.is_running ≡ true → (caller : ℕ) × (c.phases caller ≡ collecting c.completed)
  waiters :
      (caller channel : ℕ)
      → c.phases caller ≡ waiting channel
      → (contains c.closed channel ≡ true) ⊎ ((c.is_running ≡ true) × (channel ≡ c.completed))
  settled : c.is_running ≡ false → IsSettled c.updated c.starts
  past : IsPast c.clock c.starts
  spaced : Spaced ttl c.starts

with_phase-cases :
    (caller other : ℕ) (p q : Phase) (phases : ℕ → Phase)
    → with_phase caller p phases other ≡ q
    → ((other ≡ caller) × (p ≡ q)) ⊎ ((other ≢ caller) × (phases other ≡ q))
with_phase-cases caller other p q phases e = ground arith

with_phase_other :
    (caller other : ℕ) (p : Phase) (phases : ℕ → Phase)
    → other ≢ caller
    → with_phase caller p phases other ≡ phases other
with_phase_other caller other p phases h = ground arith

with_phase_same :
    (caller : ℕ) (p : Phase) (phases : ℕ → Phase) → with_phase caller p phases caller ≡ p
with_phase_same caller p phases = ground arith

abbrev is_collecting : Phase → Bool
is_collecting outside = false
is_collecting (collecting _) = true
is_collecting (waiting _) = false
is_collecting (returned _) = false
is_collecting (panicking _) = false

abbrev is_waiting : Phase → Bool
is_waiting outside = false
is_waiting (collecting _) = false
is_waiting (waiting _) = true
is_waiting (returned _) = false
is_waiting (panicking _) = false

not_busy : (p : Phase) → is_busy p ≡ false → is_collecting p ≡ false
not_busy outside h = refl
not_busy (collecting g) h = cc
not_busy (waiting g) h = refl
not_busy (returned r) h = refl
not_busy (panicking m) h = refl

module _ (ttl : ℕ) (c : Collector) (h : Inv ttl c) (caller : ℕ) where
  -- A caller that was not collecting comes to stand elsewhere, and collects nothing there.
  move-Inv :
      (p : Phase)
      → is_collecting (c.phases caller) ≡ false
      → is_collecting p ≡ false
      → ((channel : ℕ)
          → p ≡ waiting channel
          → (contains c.closed channel ≡ true) ⊎ ((c.is_running ≡ true) × (channel ≡ c.completed)))
      → Inv ttl (record c { phases = with_phase caller p c.phases })
  move-Inv p idle still joins = record {
    owner = λ other channel e.
        elim (with_phase-cases caller other p (collecting channel) c.phases e) [
          | inl (same, q) ↦ absurd (clash (ap is_collecting (sym q) ∙ still))
          | inr (differ, q) ↦ h.owner other channel q
        ];
    worker = λ busy.
        let (other, q) = h.worker busy in
        (
          other,
          with_phase_other caller other p c.phases
                (λ same. clash (ap is_collecting (sym (ap c.phases (sym same) ∙ q)) ∙ idle))
              ∙ q,
        );
    waiters = λ other channel e.
        elim (with_phase-cases caller other p (waiting channel) c.phases e) [
          | inl (same, q) ↦ joins channel q
          | inr (differ, q) ↦ h.waiters other channel q
        ];
    settled = h.settled;
    past = h.past;
    spaced = h.spaced;
  }
    where
      clash : true ≢ false
      clash e = cc

  leave-Inv :
      (r : Result Metric)
      → is_collecting (c.phases caller) ≡ false
      → Inv ttl (record c { phases = with_phase caller (returned r) c.phases })
  leave-Inv r idle = move-Inv (returned r) idle refl (λ channel e. cc)

  begin-Spaced :
      (starts : List Start)
      → is_fresh ttl c.clock c.updated ≡ false
      → IsSettled c.updated starts
      → IsPast c.clock starts
      → Spaced ttl starts
      → Spaced ttl (record { caller = caller; instant = c.clock } ∷ starts)
  begin-Spaced [] stale settled past spaced = tt
  begin-Spaced (s ∷ rest) stale settled past spaced = by_update c.updated refl
    where
      by_update :
          (u : Option ℕ) → c.updated ≡ u → (s.instant + ttl ≤ c.clock) × Spaced ttl (s ∷ rest)
      by_update none e = absurd (subst (λ u. IsSettled u (s ∷ rest)) e settled)
      by_update (some u) e =
          let before : s.instant ≤ u = subst (λ o. IsSettled o (s ∷ rest)) e settled in
          let old : ltb (c.clock - u) ttl ≡ false = ap (is_fresh ttl c.clock) (sym e) ∙ stale in
          (ground arith, spaced)

  begin-Inv :
      is_fresh ttl c.clock c.updated ≡ false
      → c.is_running ≡ false
      → Inv ttl (record c {
        is_running = true;
        completed = c.completed + 1;
        phases = with_phase caller (collecting (c.completed + 1)) c.phases;
        starts = record { caller = caller; instant = c.clock } ∷ c.starts;
      })
  begin-Inv stale idle = record {
    owner = λ other channel e.
        elim (with_phase-cases caller other (collecting (c.completed + 1)) (collecting channel)
          c.phases e) [
            | inl (same, q) ↦ (refl, sym same, cc)
            | inr (differ, q) ↦
                let (busy, first, newest) = h.owner other channel q in
                absurd (clash (sym busy ∙ idle))
          ];
    worker = λ busy. (caller, with_phase_same caller (collecting (c.completed + 1)) c.phases);
    waiters = λ other channel e.
        elim (with_phase-cases caller other (collecting (c.completed + 1)) (waiting channel)
          c.phases e) [
            | inl (same, q) ↦ cc
            | inr (differ, q) ↦ elim (h.waiters other channel q) [
              | inl closed ↦ inl closed
              | inr (busy, newest) ↦ absurd (clash (sym busy ∙ idle))
            ]
          ];
    settled = λ e. absurd (clash e);
    past = omega arith;
    spaced = begin-Spaced c.starts stale (h.settled idle) h.past h.spaced;
  }
    where
      clash : true ≢ false
      clash e = cc

  either-Inv :
      (b : Bool) (d e : Collector)
      → (b ≡ true → Inv ttl d)
      → (b ≡ false → Inv ttl e)
      → Inv ttl (if b then d else e)
  either-Inv true d e yes_case no_case = yes_case refl
  either-Inv false d e yes_case no_case = no_case refl

  enter-Inv : is_busy (c.phases caller) ≡ false → Inv ttl (enter ttl caller c)
  unfolding enter
  enter-Inv free =
      let idle = not_busy (c.phases caller) free in
      either-Inv (is_fresh ttl c.clock c.updated) _ _ (λ fresh. leave-Inv c.result idle)
        λ stale.
          either-Inv c.is_running _ _
            (λ busy. move-Inv (waiting c.completed) idle refl (λ channel e. inr (busy, cc)))
            (begin-Inv stale)

  phase_of-idle : (outcome : Collected) → is_collecting (phase_of outcome) ≡ false
  phase_of-idle (gave r) = refl
  phase_of-idle (panicked m) = refl

  finish-Inv :
      (channel : ℕ) (outcome : Collected)
      → c.phases caller ≡ collecting channel
      → Inv ttl (finish caller channel outcome c)
  unfolding finish
  finish-Inv channel outcome at =
      let (busy, first, newest) = h.owner caller channel at in
      record {
        owner = λ other g e.
            elim (with_phase-cases caller other (phase_of outcome) (collecting g) c.phases e) [
              | inl (same, q) ↦ absurd (clash (ap is_collecting (sym q) ∙ phase_of-idle outcome))
              | inr (differ, q) ↦
                  absurd (differ (first_unique c.starts other (h.owner other g q).1 first))
            ];
        worker = λ e. absurd (clash (sym e));
        waiters = λ other g e.
            elim (with_phase-cases caller other (phase_of outcome) (waiting g) c.phases e) [
              | inl (same, q) ↦ absurd (clash (ap is_waiting (sym q) ∙ phase_of-calm outcome))
              | inr (differ, q) ↦ elim (h.waiters other g q) [
                | inl closed ↦ inl (ground arith)
                | inr (running, latest) ↦ inl (ground (arith, newest))
              ]
            ];
        settled = λ e. settle c.clock c.starts h.past;
        past = h.past;
        spaced = h.spaced;
      }
    where
      clash : true ≢ false
      clash e = cc

      first_unique :
          (starts : List Start) (other : ℕ)
          → IsFirst other starts
          → IsFirst caller starts
          → other ≡ caller
      first_unique [] other f g = absurd f
      first_unique (s ∷ rest) other f g = sym f ∙ g

      settle :
          (clock : ℕ) (starts : List Start) → IsPast clock starts → IsSettled (some clock) starts
      settle clock [] past = tt
      settle clock (s ∷ rest) past = past

      phase_of-calm : (outcome : Collected) → is_waiting (phase_of outcome) ≡ false
      phase_of-calm (gave r) = refl
      phase_of-calm (panicked m) = refl

IsPast-later :
    (clock later : ℕ) (starts : List Start)
    → clock ≤ later
    → IsPast clock starts
    → IsPast later starts
IsPast-later clock later [] le past = tt
IsPast-later clock later (s ∷ rest) le past = omega arith

waiting_idle : (p : Phase) (channel : ℕ) → p ≡ waiting channel → is_collecting p ≡ false
waiting_idle p channel e = ap is_collecting e

Step-Inv : (ttl : ℕ) {c d : Collector} → Step ttl c d → Inv ttl c → Inv ttl d
unfolding wake give_up
Step-Inv ttl {c} (call caller free e) h = subst (Inv ttl) (sym e) (enter-Inv ttl c h caller free)
Step-Inv ttl {c} (collected caller channel outcome at e) h =
    subst (Inv ttl) (sym e) (finish-Inv ttl c h caller channel outcome at)
Step-Inv ttl {c} (woken caller channel at closed e) h =
    subst (Inv ttl) (sym e) (leave-Inv ttl c h caller _ (waiting_idle (c.phases caller) channel at))
Step-Inv ttl {c} (gave_up caller channel at e) h =
    subst (Inv ttl) (sym e) (leave-Inv ttl c h caller _ (waiting_idle (c.phases caller) channel at))
Step-Inv ttl {c} (tick later le e) h = subst (Inv ttl) (sym e) (record {
  owner = h.owner;
  worker = h.worker;
  waiters = h.waiters;
  settled = h.settled;
  past = IsPast-later c.clock later c.starts le h.past;
  spaced = h.spaced;
})

initial-Inv : (ttl : ℕ) → Inv ttl initial
initial-Inv ttl = record {
  owner = λ caller channel e. cc;
  worker = λ e. cc;
  waiters = λ caller channel e. cc;
  settled = λ e. tt;
  past = tt;
  spaced = tt;
}

Reach-Inv : (ttl : ℕ) {c : Collector} → Reach ttl initial c → Inv ttl c
Reach-Inv ttl here = initial-Inv ttl
Reach-Inv ttl (next reach step) = Step-Inv ttl step (Reach-Inv ttl reach)

-- In every state that callers of a new `CachedMetricsCollector` can come to: no two of them are in
-- the wrapped collector; any two collections in a row are started at least `ttl` apart; and the
-- channel that a caller waits for is closed already, or some caller is in the collection at whose
-- end it is closed.
pub Reach-IsExclusive :
    (ttl : ℕ) (c : Collector)
    → Reach ttl initial c
    → ((a b g k : ℕ) → c.phases a ≡ collecting g → c.phases b ≡ collecting k → a ≡ b)
      × Spaced ttl c.starts
      × ((a g : ℕ)
          → c.phases a ≡ waiting g
          → (contains c.closed g ≡ true) ⊎ ((b : ℕ) × (c.phases b ≡ collecting g)))
Reach-IsExclusive ttl c reach =
    let h = Reach-Inv ttl reach in
    (
      λ a b g k at_a at_b. same_first c.starts a b (h.owner a g at_a).1 (h.owner b k at_b).1,
      h.spaced,
      λ a g at. elim (h.waiters a g at) [
        | inl closed ↦ inl closed
        | inr (busy, newest) ↦
            let (b, works) = h.worker busy in inr (b, works ∙ ap collecting (sym newest))
      ],
    )
  where
    same_first : (starts : List Start) (a b : ℕ) → IsFirst a starts → IsFirst b starts → a ≡ b
    same_first [] a b f g = absurd f
    same_first (s ∷ rest) a b f g = sym f ∙ g
