-- ===== src/Web/Hosts/Unchanged.antt =====
-- What a host form that is refused leaves behind.
use hosthalla.Base.{
  ℕ, ◌≡◌, ◌≢◌, sym, ap, ◌∙◌, inl, inr, Error, Result, ok, err, pure, arith, ◌>>=◌, ◌>>◌, publish,
  transaction,
}
use hosthalla.Base.Inversion.{>>=-cases, transaction-err}
use hosthalla.Text.{Text, Unicode}
use hosthalla.Model.{Uuid, Host, host_updated}
use hosthalla.Schema.{Inventory}
use hosthalla.Host.HostRepository as Repository
use hosthalla.Host.HostRepository.{CreateHostDto}
use hosthalla.Host.Service.Hosts.{create_host, update_host, get_host_by_id, normalize_tags}
use hosthalla.Host.Service.Hosts.Laws.{create_host-err}
use hosthalla.Web.Request.{Request, refused}
use hosthalla.Web.Request.Laws.{
  Declines, Declines-lift, Declines-read, Declines-write, redirect_never,
}
use hosthalla.Api.Registration.{get_host_by_id-Frame}
use hosthalla.Web.Hosts.{
  parse_host_form, create_host_request, update_host_request, with_form, host_id_of, hosts_path,
}

written :
    (target : Host) (s : Inventory) {e : Error}
    → (Repository.update_host target s).0 ≡ err e
    → (Repository.update_host target s).1.tables ≡ s.tables
unfolding Repository.update_host pure
written target s h =
    let body = transaction (Repository.update_host_body target) in
    elim (>>=-cases body (λ at. pure (record target { updated_at = at })) s) [
      | inl (at, done, rest) ↦ absurd (never (ap (λ r. r.0) (sym rest) ∙ h))
      | inr (x, failed, rest) ↦
          ap (λ r. r.1.tables) rest ∙ transaction-err (Repository.update_host_body target) s failed
    ]
  where
    never : {A : Type 0} {a : A} {e : Error} → ¬ (ok a ≡ err e)
    never h = cc

module _ ⦃u : Unicode⦄ where
  update_host-err :
      (target : Host) (s : Inventory) {e : Error}
      → (update_host target s).0 ≡ err e
      → (update_host target s).1.tables ≡ s.tables
  unfolding update_host
  update_host-err target s {e} h =
      let stored = record target { tags = normalize_tags target.tags } in
      elim (>>=-cases (Repository.update_host stored)
        (λ updated. do publish (host_updated updated); pure updated) s) [
          | inl (made, done, rest) ↦ absurd (published_ok made _ e (ap (λ r. r.0) (sym rest) ∙ h))
          | inr (x, failed, rest) ↦ ap (λ r. r.1.tables) rest ∙ written stored s failed
        ]
    where
      published_ok :
          (made : Host) (t : Inventory) (x : Error)
          → ((do publish (host_updated made); pure made) t).0 ≢ err x
      published_ok made t x q = unfold publish pure ◌>>=◌ in ground arith

  module _ (parse_addr : Text → Result Text) (r : Request) where
    create_host_request-Declines : Declines (create_host_request parse_addr r)
    unfolding create_host_request
    create_host_request-Declines = Declines-lift 400 (parse_host_form parse_addr r) _ λ dto.
        Declines-write 500 (create_host dto) _ (λ s x. create_host-err dto s x)
          λ made. redirect_never hosts_path

    update_host_request-Declines :
        (parse_uuid : Text → Result Uuid) → Declines (update_host_request parse_addr parse_uuid r)
    unfolding update_host_request
    update_host_request-Declines parse_uuid =
        Declines-lift 400 (host_id_of parse_uuid r) _ λ host_id.
          Declines-lift 400 (parse_host_form parse_addr r) _ λ dto.
            Declines-read 404 (get_host_by_id host_id) _
              (λ s. (get_host_by_id-Frame host_id s).tables)
              λ current.
                Declines-write 500 (update_host (with_form parse_addr r dto current)) _
                  (λ s x. update_host-err (with_form parse_addr r dto current) s)
                  λ updated. redirect_never hosts_path

  -- A form that makes or changes a host and is answered with an error, whatever the error, leaves
  -- the tables as they were.
  pub host_forms-refused :
      (parse_addr : Text → Result Text) (parse_uuid : Text → Result Uuid) (r : Request)
      → (s : Inventory) (code : ℕ) (e : Error)
      → ((create_host_request parse_addr r s).0 ≡ ok (refused code e)
          → (create_host_request parse_addr r s).1.tables ≡ s.tables)
        × ((update_host_request parse_addr parse_uuid r s).0 ≡ ok (refused code e)
            → (update_host_request parse_addr parse_uuid r s).1.tables ≡ s.tables)
  host_forms-refused parse_addr parse_uuid r s code e = (
    (create_host_request-Declines parse_addr r).kept s code e,
    (update_host_request-Declines parse_addr r parse_uuid).kept s code e,
  )
