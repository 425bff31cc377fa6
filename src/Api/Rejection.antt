-- ===== src/Api/Rejection.antt =====
-- What the handler `RegisterAgent` does to the store where it turns a request away.
use hosthalla.Base.{
  ℕ, ◌≡◌, ◌≢◌, refl, sym, ap, ◌∙◌, String, [], Option, none, some, ◌==◌, text_eq, arith, Result, ok,
  err, pure, attempt, ◌>>=◌, Bool-cases, inl, inr, nat_eq,
}
use hosthalla.Base.Inversion.{>>=-ok, Frame, Frame-trans, Result-cases}
use hosthalla.Text.{Text, Unicode, codes, trim_space}
use hosthalla.Model.{Uuid, Agent}
use hosthalla.Schema.{Inventory}
use hosthalla.Auth.Tables.{ApiToken}
use hosthalla.Host.Service.Hosts.{assign_monitoring_agent}
use hosthalla.Agent.Service.{register_host_agent}
use hosthalla.Api.Hosts.{
  replied, has_scope, Lookup, found, refused, parse_and_ensure_host_exists, assigned,
  assign_registered, register_version, register_decoded, register_allowed, register_agent,
}
use hosthalla.Api.Registration.{parsed-Frame}

-- An answer that is neither a success nor a fault of the server changed nothing.
module _ ⦃u : Unicode⦄ (code : ℕ) (message : String) where
  assign_registered-rejected :
      (id : Uuid) (version : Text) (r : Result Agent) (s : Inventory)
      → (assign_registered id version r s).0 ≡ ok (replied code message)
      → code ≡ 500
  unfolding assign_registered assigned attempt pure ◌>>=◌
  assign_registered-rejected id version (err x) s e = ground arith
  assign_registered-rejected id version (ok c) s e =
      elim (Result-cases (assign_monitoring_agent id c.id s).0) [
        | inl (x, done) ↦ ground arith
        | inr (x, failed) ↦ ground arith
      ]

  register_version-rejected :
      (id : Uuid) (version : Text) (s : Inventory)
      → (register_version id version s).0 ≡ ok (replied code message)
      → code ≢ 500
      → (register_version id version s).1 ≡ s
  unfolding register_version pure attempt ◌>>=◌
  register_version-rejected id version s e fine = elim (Bool-cases (version == [])) [
    | inl empty ↦ rw empty refl
    | inr filled ↦
        let taken : register_version id version s
            ≡ assign_registered id version (register_host_agent id version s).0
                (register_host_agent id version s).1 =
          rw filled refl in
        absurd (fine (assign_registered-rejected id version _ _ (ap (λ r. r.0) (sym taken) ∙ e)))
  ]

  register_decoded-rejected :
      (body : Option Text) (l : Lookup) (s : Inventory)
      → (register_decoded body l s).0 ≡ ok (replied code message)
      → code ≢ 500
      → (register_decoded body l s).1 ≡ s
  unfolding register_decoded pure
  register_decoded-rejected body (refused c m) s e fine = refl
  register_decoded-rejected none (found id) s e fine = refl
  register_decoded-rejected (some raw) (found id) s e fine =
      register_version-rejected id (trim_space raw) s e fine

  unchanged : (s t : Inventory) → t ≡ s → Frame s t
  unchanged s t e = rw e (record { tables = refl; published = refl; faults = refl; random = refl })

  -- A request that RegisterAgent answers with an error other than 500 leaves the tables and the
  -- published events as they were.
  pub register_agent-rejected :
      (parse_uuid : Text → Option Uuid) (token : Option ApiToken) (path_value : Text)
      → (body : Option Text) (s : Inventory)
      → (register_agent parse_uuid token path_value body s).0 ≡ ok (replied code message)
      → code ≢ 500
      → Frame s (register_agent parse_uuid token path_value body s).1
  unfolding register_agent register_allowed pure
  register_agent-rejected parse_uuid none path_value body s e fine = unchanged s s refl
  register_agent-rejected parse_uuid (some token) path_value body s e fine =
      elim (Bool-cases (has_scope token.scopes (codes "hosts:register"))) [
        | inl allowed ↦
            let look = parse_and_ensure_host_exists parse_uuid path_value in
            let taken : register_agent parse_uuid (some token) path_value body s
                ≡ (look >>= register_decoded body) s =
              rw allowed refl in
            let (l, got, rest) =
              >>=-ok look (register_decoded body) s (ap (λ r. r.0) (sym taken) ∙ e) in
            let same =
              register_decoded-rejected body l (look s).1 (ap (λ r. r.0) (sym (taken ∙ rest)) ∙ e)
                fine in
            rw (taken ∙ rest)
              (Frame-trans (parsed-Frame parse_uuid path_value s) (unchanged (look s).1 _ same))
        | inr forbidden ↦ rw forbidden (unchanged s s refl)
      ]
