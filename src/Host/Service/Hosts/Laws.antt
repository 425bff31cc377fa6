-- ===== src/Host/Service/Hosts/Laws.antt =====
-- The tags of a host, and what the making of a host leaves behind.
use hosthalla.Base.{
  ◌≡◌, ◌≢◌, sym, ap, ◌∙◌, not, ◌&&◌, List, [], any, contains, ◌==◌, text_eq, All, Error, err, ◌>>=◌,
  ◌>>◌, pure, publish, arith, inl, inr,
}
use hosthalla.Base.Inversion.{>>=-err, >>=-step, Result-cases, transaction-err}
use hosthalla.Text.{Text, Unicode}
use hosthalla.Text.Normalize.{
  normalized, IsNormal, IsNodup, normalize_loop-IsNormal, contains-normalize_loop,
  normalize_loop_idempotent,
}
use hosthalla.Model.{Host, host_created}
use hosthalla.Schema.{Inventory}
use hosthalla.Host.HostRepository as Repository
use hosthalla.Host.HostRepository.{CreateHostDto}
use hosthalla.Host.Service.Hosts.{normalize_tags, create_host}

module _ ⦃u : Unicode⦄ where
  -- `normalizeTags` gives tags that are trimmed, in lower case and not empty, none of them twice; a
  -- text is among them exactly when it is not empty and is what some entry comes to in that form;
  -- and tags in that form come back as they are.
  pub normalize_tags_lem :
      (tags : List Text) (t : Text)
      → All IsNormal (normalize_tags tags)
        × IsNodup (normalize_tags tags)
        × (contains (normalize_tags tags) t
            ≡ (not (t == []) && any (λ tag. normalized tag == t) tags))
        × (normalize_tags (normalize_tags tags) ≡ normalize_tags tags)
  unfolding normalize_tags
  normalize_tags_lem tags t = (
    (normalize_loop-IsNormal tags).0,
    (normalize_loop-IsNormal tags).1,
    contains-normalize_loop tags t,
    normalize_loop_idempotent tags,
  )

  published_ok :
      (made : Host) (s : Inventory) (e : Error)
      → ((do publish (host_created made); pure made) s).0 ≢ err e
  unfolding publish pure ◌>>=◌
  published_ok made s e h = ground arith

  undone :
      (dto : CreateHostDto) (s : Inventory) (x : Error)
      → (Repository.create_host dto s).0 ≡ err x
      → (Repository.create_host dto s).1.tables ≡ s.tables
  unfolding Repository.create_host
  undone dto s x failed = transaction-err (Repository.create_host_body dto) s failed

  -- A host that cannot be made leaves the tables as they were.
  pub create_host-err :
      (dto : CreateHostDto) (s : Inventory) (e : Error)
      → (create_host dto s).0 ≡ err e
      → (create_host dto s).1.tables ≡ s.tables
  unfolding create_host
  create_host-err dto s e h =
      let make = Repository.create_host (record dto { tags = normalize_tags dto.tags }) in
      elim (Result-cases (make s).0) [
        | inl (made, done) ↦
            absurd
              (published_ok made (make s).1 e (ap (λ r. r.0) (sym (>>=-step make _ s done)) ∙ h))
        | inr (x, failed) ↦ rw (>>=-err make _ s failed) (undone _ s x failed)
      ]
