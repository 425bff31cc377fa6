-- ===== src/Host/Service/Ping.antt =====
-- `PingHost`, `PingAllHosts`, `pingHost` and `pingFailureMessage` of internal/host/service.go. The
-- `ping` command is a parameter: what it did, by the instant at which it was started.
use mathlib.Core.Path.{subst}
use hosthalla.Base.{
  ℕ, ◌-◌, ◌≡◌, refl, sym, ap, ◌∙◌, String, Bool, true, false, List, [], ◌∷◌, Error, ok, pure, raise,
  ◌>>=◌, ◌>>◌, publish, time_now, if◌then◌else◌, arith, map, All, not,
}
use hosthalla.Base.Inversion.{>>=-ok}
use hosthalla.Text.{Text, Unicode, codes, to_lower, has_part}
use hosthalla.Model.{Uuid, Host, PingResult, ping_completed, ping_all_completed}
use hosthalla.Schema.{Run, Inventory}
use hosthalla.Host.HostRepository as Repository

-- What `cmd.CombinedOutput` comes back with.
pub data Outcome : Type 0 where
  succeeded : Outcome
  exited : Text → Outcome
  not_run : Error → Outcome

abbrev is_filled : String → Bool
is_filled String.[] = false
is_filled (String.◌∷◌ c s) = true

module _ ⦃u : Unicode⦄ where
  unfoldable pub ping_failure_message : Text → String
  ping_failure_message raw =
      let output = to_lower raw in
      if has_part output (codes "100% packet loss")
      then "No ICMP response (100% packet loss)."
      else if has_part output (codes "name or service not known")
      then "Cannot resolve host address."
      else if has_part output (codes "network is unreachable")
      then "Network is unreachable."
      else "Host is unreachable via ICMP."

  abbrev pub base_result : Host → ℕ → ℕ → ℕ → PingResult
  base_result target started ended checked = record {
    host_id = target.id;
    ip = target.ip;
    is_reachable = false;
    duration = ended - started;
    error_message = "";
    checked_at = checked;
  }

  -- The result of the command, from the one that is filled in before it is looked at.
  unfoldable pub judge : PingResult → Outcome → Run PingResult
  judge result succeeded = pure (record result { is_reachable = true })
  judge result (exited output) =
      pure (record result { error_message = ping_failure_message output })
  judge result (not_run e) = raise e

  module _ (ping : ℕ → Text → Outcome) where
    unfoldable pub ping_one : Host → Run PingResult
    ping_one target = do
      started ← time_now
      ended ← time_now
      checked ← time_now
      judge (base_result target started ended checked) (ping started target.ip)

    unfoldable pub ping_host : Uuid → Run PingResult
    ping_host host_id = do
      target ← Repository.get_host_by_id host_id
      result ← ping_one target
      publish (ping_completed result)
      pure result

    unfoldable pub ping_each : List Host → Run (List PingResult)
    ping_each [] = pure []
    ping_each (target ∷ targets) = do
      result ← ping_one target
      results ← ping_each targets
      pure (result ∷ results)

    unfoldable pub ping_all_hosts : Run (List PingResult)
    ping_all_hosts = do
      hosts ← Repository.list_hosts []
      results ← ping_each hosts
      publish (ping_all_completed results)
      pure results

  -- A result has a message exactly when its host was not reached.
  abbrev pub IsJudged : PingResult → Type 0
  IsJudged r = is_filled r.error_message ≡ not r.is_reachable

  message_filled : (raw : Text) → is_filled (ping_failure_message raw) ≡ true
  unfolding ping_failure_message
  message_filled raw =
      pick (has_part (to_lower raw) (codes "100% packet loss"))
        (has_part (to_lower raw) (codes "name or service not known"))
        (has_part (to_lower raw) (codes "network is unreachable"))
    where
      pick :
          (a b c : Bool)
          → is_filled (
              if a
              then "No ICMP response (100% packet loss)."
              else if b
              then "Cannot resolve host address."
              else if c
              then "Network is unreachable."
              else "Host is unreachable via ICMP.")
            ≡ true
      pick true b c = refl
      pick false true c = refl
      pick false false true = refl
      pick false false false = refl

  un_ok : {a b : PingResult} → ok a ≡ ok b → a ≡ b
  un_ok e = cc

  judge-IsJudged :
      (target : Host) (a b c : ℕ) (o : Outcome) (s : Inventory) (r : PingResult)
      → (judge (base_result target a b c) o s).0 ≡ ok r
      → (r.host_id ≡ target.id) × IsJudged r
  unfolding judge pure raise
  judge-IsJudged target a b c succeeded s r e =
      subst (λ q. (q.host_id ≡ target.id) × IsJudged q) (un_ok e) (refl, refl)
  judge-IsJudged target a b c (exited raw) s r e =
      subst (λ q. (q.host_id ≡ target.id) × IsJudged q) (un_ok e) (refl, message_filled raw)
  judge-IsJudged target a b c (not_run x) s r e = ground arith

  module _ (ping : ℕ → Text → Outcome) where
    ping_one-IsJudged :
        (target : Host) (s : Inventory) (r : PingResult)
        → (ping_one ping target s).0 ≡ ok r
        → (r.host_id ≡ target.id) × IsJudged r
    unfolding ping_one time_now ◌>>=◌
    ping_one-IsJudged target s r e = judge-IsJudged target _ _ _ _ _ r e

    cong2 :
        {a b : Uuid} {xs ys : List Uuid} → a ≡ b → xs ≡ ys → ◌≡◌ {A = List Uuid} (a ∷ xs) (b ∷ ys)
    cong2 e f = cc

    un_ok_list : {a b : List PingResult} → ok a ≡ ok b → a ≡ b
    un_ok_list e = cc

    pub ping_each-IsJudged :
        (targets : List Host) (s : Inventory) (rs : List PingResult)
        → (ping_each ping targets s).0 ≡ ok rs
        → (map (λ (r : PingResult). r.host_id) rs ≡ map (λ (h : Host). h.id) targets)
          × All IsJudged rs
    unfolding ping_each pure
    ping_each-IsJudged [] s rs e =
        subst (λ l. (map (λ (r : PingResult). r.host_id) l ≡ []) × All IsJudged l) (un_ok_list e)
          (refl, tt)
    ping_each-IsJudged (target ∷ targets) s rs e =
        let (r, got, rest) = >>=-ok (ping_one ping target) _ s e in
        let (qs, more, last) = >>=-ok (ping_each ping targets) _ _ (ap (λ x. x.0) (sym rest) ∙ e) in
        let (id, judged) = ping_one-IsJudged target s r got in
        let (ids, all) = ping_each-IsJudged targets (ping_one ping target s).1 qs more in
        let same : r ∷ qs ≡ rs = ground arith in
        subst
          (λ l.
            (map (λ (r : PingResult). r.host_id) l ≡ map (λ (h : Host). h.id) (target ∷ targets))
            × All IsJudged l)
          same (cong2 id ids, (judged, all))
