-- ===== src/Host/Service/Methods/RoundTrip.antt =====
-- A secret that was stored is the secret that is shown.
use mathlib.Core.Path.{subst}
use hosthalla.Base.{
  ℕ, ◌≡◌, refl, sym, ap, ◌∙◌, Bool, true, false, List, [], ◌∷◌, ◌++◌, none, some, Result, ok, err,
  arith, find_row, any, ◌==◌, nat_eq, text_eq, ◌>>=◌, ◌>>◌, query_row, query, driver, require, pure,
  lift, String, exec, draw_random, publish, time_now, new_id,
}
use hosthalla.Base.Inversion.{>>=-ok, require-ok, exec-ok}
use hosthalla.Text.{Text, trim_space}
use hosthalla.Model.{Uuid, Method, MethodType, ssh_key}
use hosthalla.Schema.{Tables, Inventory, Run}
use hosthalla.Host.Cipher.{SecretCipher, FillsBuffer}
use hosthalla.Host.MethodRepository as Repository
use hosthalla.Host.MethodRepository.{CreateMethodDto, method_of}
use hosthalla.Host.Service.Methods.{
  KeyCodec, owned_method, get_method_secret, decrypted, encrypted, secret_of, CreatePasswordDto,
  CreateKeyDto, create_key_method, create_password_method, store_method, publish_method_created,
  password_only, wrapped, key_pair,
}
use hosthalla.Host.Service.Methods.Ownership.{stored}

-- No driver call fails from here on.
abbrev pub IsQuiet : Inventory → Type 0
IsQuiet s = (k : ℕ) → s.world.faults k ≡ none

-- Every read of random bytes, from here on, fills its buffer.
abbrev pub HasEntropy : Inventory → Type 0
HasEntropy s = (k : ℕ) → FillsBuffer (s.world.random k)

find_row-append :
    (p : Method → Bool) (ms : List Method) (m : Method)
    → any p ms ≡ false
    → p m ≡ true
    → find_row p (ms ++ m ∷ []) ≡ some m
find_row-append p [] m h e = rw e
find_row-append p (n ∷ ms) m h e = ground (arith, find_row-append p ms m)

insert_method-stored :
    (m : Method) (t t' : Tables) → Repository.insert_method m t ≡ some t' → stored m.id t' ≡ some m
unfolding Repository.insert_method
insert_method-stored m t t' e = ground (arith, find_row-append (λ n. n.id == m.id) t.credentials m)

-- What `CreateHostManagementMethod` returns is what it stored.
create_method-stored :
    (host_id : Uuid) (dto : CreateMethodDto) (s : Inventory) (m : Method)
    → (Repository.create_method host_id dto s).0 ≡ ok m
    → (stored m.id (Repository.create_method host_id dto s).1.tables ≡ some m)
      × (m.secret ≡ dto.secret)
      × (m.host_id ≡ host_id)
      × (m.kind ≡ dto.kind)
unfolding Repository.create_method ◌>>=◌ time_now new_id
create_method-stored host_id dto s m e =
    let now = s.world.times s.world.reads in
    let id = s.world.ids s.world.drawn in
    let made = method_of host_id dto id now in
    let t = (new_id (time_now s).1).1 in
    ground (
      arith,
      exec-ok (Repository.insert_method made) t {x = tt},
      insert_method-stored made t.tables (exec (Repository.insert_method made) t).1.tables,
    )

abbrev end_of_store : Uuid → CreateMethodDto → Run Method
end_of_store host_id dto = do
  method ← Repository.create_method host_id dto
  publish_method_created host_id method
  pure method

module _ (cipher : SecretCipher) (codec : KeyCodec) where
  end_of_store-stored :
      (host_id : Uuid) (dto : CreateMethodDto) (s : Inventory) (m : Method)
      → (end_of_store host_id dto s).0 ≡ ok m
      → (stored m.id (end_of_store host_id dto s).1.tables ≡ some m)
        × (m.secret ≡ dto.secret)
        × (m.host_id ≡ host_id)
        × (m.kind ≡ dto.kind)
  unfolding publish_method_created publish ◌>>=◌
  end_of_store-stored host_id dto s m e = ground (arith, create_method-stored host_id dto s m)

  encrypted-ok :
      (plain secret : List ℕ) (s : Inventory)
      → (encrypted cipher codec plain s).0 ≡ ok secret
      → cipher.encrypt (s.world.random s.world.random_reads) plain ≡ ok secret
  unfolding encrypted draw_random ◌>>=◌
  encrypted-ok plain secret s e = ground arith

  get_of_stored :
      (host_id : Uuid) (m : Method) (plain : List ℕ) (s : Inventory)
      → IsQuiet s
      → stored m.id s.tables ≡ some m
      → m.host_id ≡ host_id
      → cipher.decrypt m.secret ≡ ok plain
      → (get_method_secret cipher codec host_id m.id s).0 ≡ secret_of cipher codec m.kind plain
  unfolding get_method_secret owned_method Repository.get_method_by_id query_row query driver
      require decrypted ◌>>=◌
  get_of_stored host_id m plain s quiet found own e = ground (arith, quiet s.world.calls)

  -- After the encryption: what is stored, and that a quiet environment shows its plain text.
  store_method-shown :
      (host_id : Uuid) (dto : List ℕ → CreateMethodDto) (plain : List ℕ) (s : Inventory)
      (m : Method)
      → ((secret : List ℕ) → (dto secret).secret ≡ secret)
      → HasEntropy s
      → (store_method cipher codec host_id dto plain s).0 ≡ ok m
      → IsQuiet (store_method cipher codec host_id dto plain s).1
      → (get_method_secret cipher codec host_id m.id
          (store_method cipher codec host_id dto plain s).1).0
        ≡ secret_of cipher codec m.kind plain
  unfolding store_method
  store_method-shown host_id dto plain s m keeps full e quiet =
      let (secret, sealed, rest) = >>=-ok (encrypted cipher codec plain) _ s e in
      let t = (encrypted cipher codec plain s).1 in
      let (kept, same, own, kind) =
        end_of_store-stored host_id (dto secret) t m (ap (λ r. r.0) (sym rest) ∙ e) in
      let opened : cipher.decrypt m.secret ≡ ok plain = rw (same ∙ keeps secret) (
        cipher.decrypt-encrypt _ plain secret (full s.world.random_reads)
          (encrypted-ok plain secret s sealed)) in
      rw rest (
        get_of_stored host_id m plain (end_of_store host_id (dto secret) t).1 (rw rest at quiet)
          kept own opened)

  store_method-kind :
      (host_id : Uuid) (dto : List ℕ → CreateMethodDto) (plain : List ℕ) (s : Inventory)
      (m : Method)
      → (store_method cipher codec host_id dto plain s).0 ≡ ok m
      → (secret : List ℕ) × (m.kind ≡ (dto secret).kind)
  unfolding store_method
  store_method-kind host_id dto plain s m e =
      let (secret, sealed, rest) = >>=-ok (encrypted cipher codec plain) _ s e in
      let t = (encrypted cipher codec plain s).1 in
      (secret, (end_of_store-stored host_id (dto secret) t m (ap (λ r. r.0) (sym rest) ∙ e)).3)

  -- A password that CreateSSHPasswordManagementMethod stored, trimmed, is what
  -- GetHostManagementMethodSecret shows, where random bytes fill their buffers and no later driver
  -- call fails.
  pub get_method_secret-create_password_method :
      (host_id : Uuid) (dto : CreatePasswordDto) (s : Inventory) (m : Method)
      → HasEntropy s
      → (create_password_method cipher codec host_id dto s).0 ≡ ok m
      → IsQuiet (create_password_method cipher codec host_id dto s).1
      → (get_method_secret cipher codec host_id m.id
          (create_password_method cipher codec host_id dto s).1).0
        ≡ ok (password_only (trim_space dto.password))
  unfolding create_password_method secret_of
  get_method_secret-create_password_method host_id dto s m full e quiet =
      let plain = trim_space dto.password in
      let (_, named) = require-ok _ _ _ s e in
      let (_, used) = require-ok _ _ _ s (ap (λ r. r.0) (sym named) ∙ e) in
      let (_, guarded) =
        require-ok _ _ _ s (ap (λ r. r.0) (sym used) ∙ ap (λ r. r.0) (sym named) ∙ e) in
      subst
        (λ r.
          r.0 ≡ ok m
          → IsQuiet r.1
          → (get_method_secret cipher codec host_id m.id r.1).0 ≡ ok (password_only plain))
        (sym (named ∙ used ∙ guarded))
        (λ made quiet'.
          store_method-shown host_id _ plain s m (λ _. refl) full made quiet'
          ∙ rw (store_method-kind host_id _ plain s m made).1 refl)
        e quiet

  wrapped-ok :
      (message : String) (r : Result (List ℕ)) {a : List ℕ} → wrapped message r ≡ ok a → r ≡ ok a
  wrapped-ok message (ok b) e = e
  wrapped-ok message (err x) e = cc

  secret_of-key :
      (kind : MethodType) (raw : List ℕ) (keys : Text × Text)
      → kind ≡ ssh_key
      → codec.decode raw ≡ ok keys
      → secret_of cipher codec kind raw ≡ ok (key_pair keys)
  unfolding secret_of
  secret_of-key kind raw keys e decoded = rw (e, secret_of, decoded)

  -- The two keys that CreateSSHKeyManagementMethod stored, trimmed, are what
  -- GetHostManagementMethodSecret shows, where random bytes fill their buffers and no later driver
  -- call fails.
  pub get_method_secret-create_key_method :
      (host_id : Uuid) (dto : CreateKeyDto) (s : Inventory) (m : Method)
      → HasEntropy s
      → (create_key_method cipher codec host_id dto s).0 ≡ ok m
      → IsQuiet (create_key_method cipher codec host_id dto s).1
      → (get_method_secret cipher codec host_id m.id
          (create_key_method cipher codec host_id dto s).1).0
        ≡ ok (key_pair (trim_space dto.public_key, trim_space dto.private_key))
  unfolding create_key_method lift
  get_method_secret-create_key_method host_id dto s m full e quiet =
      let keys : Text × Text = (trim_space dto.public_key, trim_space dto.private_key) in
      let (_, named) = require-ok _ _ _ s e in
      let (_, used) = require-ok _ _ _ s (ap (λ r. r.0) (sym named) ∙ e) in
      let start = named ∙ used in
      let (_, public) = require-ok _ _ _ s (ap (λ r. r.0) (sym start) ∙ e) in
      let (_, private) = require-ok _ _ _ s (ap (λ r. r.0) (sym (start ∙ public)) ∙ e) in
      let guarded = start ∙ public ∙ private in
      let (raw, coded, rest) = >>=-ok _ _ s (ap (λ r. r.0) (sym guarded) ∙ e) in
      let decoded = codec.decode-encode keys.0 keys.1 raw (wrapped-ok _ _ coded) in
      subst
        (λ r.
          r.0 ≡ ok m
          → IsQuiet r.1
          → (get_method_secret cipher codec host_id m.id r.1).0 ≡ ok (key_pair keys))
        (sym (guarded ∙ rest))
        (λ made quiet'.
          store_method-shown host_id _ raw s m (λ _. refl) full made quiet'
          ∙ secret_of-key m.kind raw keys (store_method-kind host_id _ raw s m made).1 decoded)
        e quiet
