-- ===== src/Host/Service/Methods/Secrecy.antt =====
-- Secrets leave the service only through the two operations that are there for it.
use mathlib.Core.Path.{subst}
use hosthalla.Base.{ℕ, ◌≡◌, refl, sym, ap, ◌∙◌, pure, List, [], ◌∷◌, map, All, ok}
use hosthalla.Base.Preserves.{Preserves, OnDb, OnDb-publish, OnDb-exec, preserve_rules}
use hosthalla.Base.Inversion.{>>=-ok}
use hosthalla.Model.{Uuid, Method, Event, method_created}
use hosthalla.Schema.{Tables, Inventory}
use hosthalla.Host.Cipher.{SecretCipher}
use hosthalla.Host.MethodRepository as Repository
use hosthalla.Host.Service.Methods.{
  KeyCodec, redacted, list_methods, list_methods_by_hosts, CreatePasswordDto, CreateKeyDto,
  publish_method_created, encrypted, store_method, create_password_method, create_key_method,
}

-- An event that carries a management method carries it without its secret.
abbrev pub IsRedacted : Event → Type 0
IsRedacted (method_created _ m) = m.secret ≡ []
IsRedacted _ = Unit

abbrev Anything : Tables → Type 0
Anything t = Unit

repository_create :
    (host_id : Uuid) (dto : Repository.CreateMethodDto)
    → Preserves (OnDb Anything IsRedacted) (Repository.create_method host_id dto)
unfolding Repository.create_method
repository_create host_id dto = search (preserve_rules, OnDb-exec)

publish_method_created-IsRedacted :
    (host_id : Uuid) (m : Method)
    → Preserves (OnDb Anything IsRedacted) (publish_method_created host_id m)
unfolding publish_method_created
publish_method_created-IsRedacted host_id m =
    OnDb-publish (method_created host_id (redacted m)) refl

module _ (cipher : SecretCipher) (codec : KeyCodec) where
  encrypted-IsRedacted :
      (plain : List ℕ) → Preserves (OnDb Anything IsRedacted) (encrypted cipher codec plain)
  unfolding encrypted
  encrypted-IsRedacted plain = search preserve_rules

  store_method-IsRedacted :
      (host_id : Uuid) (dto : List ℕ → Repository.CreateMethodDto) (plain : List ℕ)
      → Preserves (OnDb Anything IsRedacted) (store_method cipher codec host_id dto plain)
  unfolding store_method
  store_method-IsRedacted host_id dto plain =
      search
        (preserve_rules, encrypted-IsRedacted, repository_create, publish_method_created-IsRedacted)
        depth 8

  create_password_keeps :
      (host_id : Uuid) (dto : CreatePasswordDto)
      → Preserves (OnDb Anything IsRedacted) (create_password_method cipher codec host_id dto)
  unfolding create_password_method
  create_password_keeps host_id dto = search (preserve_rules, store_method-IsRedacted) depth 12

  create_key_keeps :
      (host_id : Uuid) (dto : CreateKeyDto)
      → Preserves (OnDb Anything IsRedacted) (create_key_method cipher codec host_id dto)
  unfolding create_key_method
  create_key_keeps host_id dto = search (preserve_rules, store_method-IsRedacted) depth 12

  -- Creating a method, of either kind, whether it succeeds or fails, publishes no secret: if every
  -- event before it carries its method without a secret, so does every event after it.
  pub create_method-IsRedacted :
      (host_id : Uuid) (password_dto : CreatePasswordDto) (key_dto : CreateKeyDto) (s : Inventory)
      → All IsRedacted s.published
      → All IsRedacted (create_password_method cipher codec host_id password_dto s).1.published
        × All IsRedacted (create_key_method cipher codec host_id key_dto s).1.published
  create_method-IsRedacted host_id password_dto key_dto s h =
      let start : OnDb Anything IsRedacted s = record { tables_hold = tt; events_hold = h } in
      (
        ((create_password_keeps host_id password_dto).after s start).events_hold,
        ((create_key_keeps host_id key_dto).after s start).events_hold,
      )

abbrev pub HidesSecret : Method → Type 0
HidesSecret m = m.secret ≡ []

ok_injective : {ms ns : List Method} → ok ms ≡ ok ns → ms ≡ ns
ok_injective e = cc

map-redacted : (ms : List Method) → All HidesSecret (map redacted ms)
map-redacted [] = tt
map-redacted (m ∷ ms) = (refl, map-redacted ms)

-- Neither list of methods that a call returns, that of one host or that of several, shows a
-- secret.
pub list_methods-HidesSecret :
    (host_id : Uuid) (host_ids : List Uuid) (s : Inventory) (ms ns : List Method)
    → (list_methods host_id s).0 ≡ ok ms
    → (list_methods_by_hosts host_ids s).0 ≡ ok ns
    → All HidesSecret ms × All HidesSecret ns
unfolding list_methods list_methods_by_hosts pure
list_methods-HidesSecret host_id host_ids s ms ns e f =
    let (found, _, same) = >>=-ok (Repository.list_methods host_id) _ s e in
    let (founds, _, sames) = >>=-ok (Repository.list_methods_by_hosts host_ids) _ s f in
    (
      subst (All HidesSecret) (ok_injective (sym (ap (λ p. p.0) same) ∙ e)) (map-redacted found),
      subst (All HidesSecret) (ok_injective (sym (ap (λ p. p.0) sames) ∙ f)) (map-redacted founds),
    )
