-- ===== src/Bus.antt =====
-- internal/events/in_memory.go. An event's type is a key, and a handler code over some state; `none`
-- is `nil`.
use hosthalla.Base.{
  ℕ, ◌≡◌, refl, sym, ap, ◌∙◌, List, [], ◌∷◌, ◌++◌, Option, none, some, failed, Result, ok, err,
  Exec, pure, raise, lift, ◌>>=◌, ◌>>◌, if◌then◌else◌, ◌==◌, nat_eq, Bool-cases, inl, inr,
}
use hosthalla.Base.Inversion.{>>=-cases, >>=-step, >>=-err}

abbrev pub Handler : Type 0 → Type 0 → Type 0
Handler S E = E → Exec S Unit

-- `handlers map[reflect.Type][]Handler`
abbrev pub Bus : Type 0 → Type 0 → Type 0
Bus S E = ℕ → List (Handler S E)

module _ {S : Type 0} where
  bind_same :
      (m n : Exec S Unit) (f : Unit {0} → Exec S Unit) (s t : S)
      → m s ≡ n t
      → (m >>= f) s ≡ (n >>= f) t
  unfolding ◌>>=◌ lift
  bind_same m n f s t e = ap (λ (r : Result (Unit {0}) × S). (lift r.0 >>= f) r.1) e

module _ {S E : Type 0} where
  -- The loop of `Publish`.
  unfoldable pub run_handlers : List (Handler S E) → E → Exec S Unit
  run_handlers [] event = pure tt
  run_handlers (handler ∷ handlers) event = do handler event; run_handlers handlers event

  module _ (key : E → ℕ) where
    -- `Publish`
    unfoldable pub publish_event : Bus S E → Option E → Exec S Unit
    publish_event bus none = raise (failed "event is nil")
    publish_event bus (some event) = run_handlers (bus (key event)) event

    abbrev with_handler : ℕ → Handler S E → Bus S E → Bus S E
    with_handler k handler bus other = if other == k then bus other ++ handler ∷ [] else bus other

    -- `Subscribe`
    unfoldable pub subscribe : Option E → Option (Handler S E) → Bus S E → Result (Bus S E)
    subscribe none handler bus = err (failed "event is nil")
    subscribe (some event) none bus = err (failed "handler is nil")
    subscribe (some event) (some handler) bus = ok (with_handler (key event) handler bus)

  one_handler : (h : Handler S E) (event : E) (s : S) → run_handlers (h ∷ []) event s ≡ h event s
  unfolding run_handlers pure
  one_handler h event s = elim (>>=-cases (h event) (λ _. pure tt) s) [
    | inl (x, done, e) ↦ e ∙ ap (λ r. (r, (h event s).1)) (sym done)
    | inr (x, failed_with, e) ↦ e ∙ ap (λ r. (r, (h event s).1)) (sym failed_with)
  ]

  run_handlers-append :
      (hs : List (Handler S E)) (h : Handler S E) (event : E) (s : S)
      → run_handlers (hs ++ h ∷ []) event s ≡ (run_handlers hs event >> h event) s
  unfolding run_handlers pure
  run_handlers-append [] h event s =
      one_handler h event s ∙ sym (>>=-step (pure tt) (λ _. h event) s refl)
  run_handlers-append (g ∷ hs) h event s =
      elim (>>=-cases (g event) (λ _. run_handlers hs event) s) [
        | inl (x, done, e) ↦
            >>=-step (g event) (λ _. run_handlers (hs ++ h ∷ []) event) s done
            ∙ run_handlers-append hs h event (g event s).1
            ∙ sym (
                bind_same (run_handlers (g ∷ hs) event) (run_handlers hs event) (λ _. h event) s
                  (g event s).1 e)
        | inr (x, failed_with, e) ↦
            >>=-err (g event) (λ _. run_handlers (hs ++ h ∷ []) event) s failed_with
            ∙ sym (
                >>=-err (run_handlers (g ∷ hs) event) (λ _. h event) s (ap (λ r. r.0) e)
                ∙ ap (λ r. (err x, r.1)) e)
      ]

  module _ (key : E → ℕ) where
    -- After a handler was subscribed to the type of an event, publishing an event of that type does
    -- what it did before and then, only if that succeeded, calls the handler on it; publishing one
    -- of another type does just what it did.
    pub subscribe-publish_event :
        (sample event : E) (handler : Handler S E) (bus bus' : Bus S E) (s : S)
        → subscribe key (some sample) (some handler) bus ≡ ok bus'
        → publish_event key bus' (some event) s ≡ (
            if key event == key sample
            then (publish_event key bus (some event) >> handler event) s
            else publish_event key bus (some event) s)
    unfolding subscribe publish_event
    subscribe-publish_event sample event handler bus bus' s e =
        let made : with_handler key (key sample) handler bus ≡ bus' = cc in
        sym (ap (λ (b : Bus S E). run_handlers (b (key event)) event s) made)
        ∙ (elim (Bool-cases (key event == key sample)) [
          | inl same ↦ rw same (run_handlers-append (bus (key event)) handler event s)
          | inr differ ↦ rw differ refl
        ])
