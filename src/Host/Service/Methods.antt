-- ===== src/Host/Service/Methods.antt =====
-- The operations on management methods of internal/host/service.go. The secret cipher, the JSON
-- codec of a key pair and the SSH checker are parameters.
pub mod Secrecy
pub mod Ownership
pub mod RoundTrip
use hosthalla.Base.{
  ℕ, String, Bool, true, false, not, ◌||◌, List, [], ◌∷◌, map, Option, none, some, Error, failed,
  wrap, Result, ok, err, pure, raise, lift, require, attempt, ◌>>=◌, ◌>>◌, publish, draw_random,
  if◌then◌else◌, ◌==◌, nat_eq, text_eq, ◌≡◌,
}
use hosthalla.Text.{Text, trim_space}
use hosthalla.Model.{
  Uuid, Host, Method, MethodType, ssh_password, ssh_key, other, MethodSecret, method_created,
}
use hosthalla.Schema.{Run}
use hosthalla.Host.Cipher.{SecretCipher}
use hosthalla.Host.Port.{normalize_port}
use hosthalla.Host.HostRepository.{get_host_by_id}
use hosthalla.Host.MethodRepository as Repository
use hosthalla.Host.MethodRepository.{CreateMethodDto, UpdateMethodDto}

-- `encoding/json` on `{publicKey, privateKey}`: what is encoded decodes to the same two texts.
pub record KeyCodec : Type 0 where
  pub encode : Text → Text → Result (List ℕ)
  pub decode : List ℕ → Result (Text × Text)
  pub decode-encode :
      (public_key private_key : Text) (bytes : List ℕ)
      → encode public_key private_key ≡ ok bytes
      → decode bytes ≡ ok (public_key, private_key)

abbrev pub wrapped {ℓ} : {A : Type ℓ} → String → Result A → Result A
wrapped message (ok a) = ok a
wrapped message (err e) = err (wrap message e)

abbrev pub redacted : Method → Method
redacted m = record m { secret = [] }

unfoldable pub list_methods : Uuid → Run (List Method)
list_methods host_id = do methods ← Repository.list_methods host_id; pure (map redacted methods)

unfoldable pub list_methods_by_hosts : List Uuid → Run (List Method)
list_methods_by_hosts host_ids = do
  methods ← Repository.list_methods_by_hosts host_ids
  pure (map redacted methods)

-- The load that `GetHostManagementMethodSecret`, `TestSSHManagementMethod`,
-- `UpdateHostManagementMethod` and `DeleteHostManagementMethod` begin with.
unfoldable pub owned_method : Uuid → Uuid → Run Method
owned_method host_id method_id = do
  method ← Repository.get_method_by_id method_id
  require (method.host_id == host_id) (failed "management method not found")
  pure method

-- `CreateSSHPasswordManagementMethodDTO`
pub record CreatePasswordDto : Type 0 where
  pub name : Text
  pub username : Text
  pub password : Text
  pub port : ℕ
  pub description : Text

-- `CreateSSHKeyManagementMethodDTO`
pub record CreateKeyDto : Type 0 where
  pub name : Text
  pub username : Text
  pub public_key : Text
  pub private_key : Text
  pub port : ℕ
  pub description : Text

-- `UpdateHostManagementMethodInput`
pub record UpdateInput : Type 0 where
  pub name : Text
  pub username : Text
  pub password : Text
  pub public_key : Text
  pub private_key : Text
  pub port : ℕ
  pub description : Text

-- `sshcheck.Params`
pub record SshParams : Type 0 where
  pub host : Text
  pub port : ℕ
  pub username : Text
  pub kind : MethodType
  pub password : Text
  pub private_key : Text

abbrev pub filled : Text → String → Run Unit
filled t message = require (not (t == [])) (failed message)

unfoldable pub publish_method_created : Uuid → Method → Run Unit
publish_method_created host_id method = publish (method_created host_id (redacted method))

abbrev pub password_only : Text → MethodSecret
password_only p = record { password = p; public_key = []; private_key = [] }

abbrev pub key_pair : Text × Text → MethodSecret
key_pair keys = record { password = []; public_key = keys.0; private_key = keys.1 }

module _ (cipher : SecretCipher) (codec : KeyCodec) where
  unfoldable pub decrypted : Method → Run (List ℕ)
  decrypted method = lift (wrapped "failed to decrypt secret" (cipher.decrypt method.secret))

  unfoldable pub encrypted : List ℕ → Run (List ℕ)
  encrypted plain = do
    random ← draw_random
    lift (wrapped "failed to encrypt secret" (cipher.encrypt random plain))

  -- The switch on the type of a method whose secret is decrypted.
  secret_of : MethodType → List ℕ → Result MethodSecret
  secret_of ssh_password plain = ok (password_only plain)
  secret_of ssh_key plain = elim (codec.decode plain) [
    | ok keys ↦ ok (key_pair keys)
    | err e ↦ err (wrap "failed to decode secret" e)
  ]
  secret_of (other _) plain = err (failed "unsupported management method type")

  unfoldable pub get_method_secret : Uuid → Uuid → Run MethodSecret
  unfolding secret_of
  get_method_secret host_id method_id = do
    method ← owned_method host_id method_id
    plain ← decrypted method
    lift (secret_of method.kind plain)

  -- The end that `CreateSSHPasswordManagementMethod` and `CreateSSHKeyManagementMethod` share, from
  -- the encryption of the secret on.
  unfoldable pub store_method : Uuid → (List ℕ → CreateMethodDto) → List ℕ → Run Method
  store_method host_id dto plain = do
    secret ← encrypted plain
    method ← Repository.create_method host_id (dto secret)
    publish_method_created host_id method
    pure method

  unfoldable pub create_password_method : Uuid → CreatePasswordDto → Run Method
  create_password_method host_id dto = do
    let name = trim_space dto.name
    let username = trim_space dto.username
    let password = trim_space dto.password
    filled name "name is required"
    filled username "username is required"
    filled password "password is required"
    store_method host_id
        (λ secret. record {
          name = name;
          kind = ssh_password;
          username = username;
          port = normalize_port dto.port;
          secret = secret;
          description = trim_space dto.description;
        })
        password

  unfoldable pub create_key_method : Uuid → CreateKeyDto → Run Method
  create_key_method host_id dto = do
    let name = trim_space dto.name
    let username = trim_space dto.username
    let public_key = trim_space dto.public_key
    let private_key = trim_space dto.private_key
    filled name "name is required"
    filled username "username is required"
    filled public_key "public key is required"
    filled private_key "private key is required"
    raw ← lift (wrapped "failed to prepare ssh key secret" (codec.encode public_key private_key))
    store_method host_id
        (λ secret. record {
          name = name;
          kind = ssh_key;
          username = username;
          port = normalize_port dto.port;
          secret = secret;
          description = trim_space dto.description;
        })
        raw

  -- A key that the form leaves blank stays the stored one.
  abbrev pub or_stored : Text → Text → Text
  or_stored given stored = if given == [] then stored else given

  updated_keys : Uuid → Uuid → Text → Text → Run (List ℕ)
  updated_keys host_id method_id public_key private_key = do
    current ← get_method_secret host_id method_id
    raw ← lift (
        wrapped "failed to prepare ssh key secret" (
          codec.encode (or_stored public_key current.public_key)
            (or_stored private_key current.private_key)))
    encrypted raw

  -- The switch of `UpdateHostManagementMethod`, which gives the secret to store.
  updated_secret : Uuid → Uuid → Method → MethodType → UpdateInput → Run (List ℕ)
  updated_secret host_id method_id method ssh_password dto =
      if trim_space dto.password == []
      then pure method.secret
      else encrypted (trim_space dto.password)
  updated_secret host_id method_id method ssh_key dto =
      if not (trim_space dto.public_key == []) || not (trim_space dto.private_key == [])
      then updated_keys host_id method_id (trim_space dto.public_key) (trim_space dto.private_key)
      else pure method.secret
  updated_secret host_id method_id method (other _) dto =
      raise (failed "unsupported management method type")

  unfoldable pub update_method : Uuid → Uuid → UpdateInput → Run Method
  unfolding updated_secret updated_keys
  update_method host_id method_id dto = do
    method ← owned_method host_id method_id
    let name = trim_space dto.name
    let username = trim_space dto.username
    filled name "name is required"
    filled username "username is required"
    secret ← updated_secret host_id method_id method method.kind dto
    updated ← Repository.update_method method_id (record {
      name = name;
      username = username;
      port = normalize_port dto.port;
      secret = secret;
      description = trim_space dto.description;
    })
    pure (redacted updated)

  -- The credentials that `TestSSHManagementMethod` adds to the parameters of the check.
  checked_params : SshParams → Method → MethodType → Run SshParams
  checked_params params method ssh_password = do
    plain ← decrypted method
    pure (record params { password = plain })
  checked_params params method ssh_key = do
    plain ← decrypted method
    keys ← lift (wrapped "failed to decode secret" (codec.decode plain))
    pure (record params { private_key = keys.1 })
  checked_params params method (other _) = pure params

  unfoldable pub test_method : {Status : Type 0} → (SshParams → Status) → Uuid → Uuid → Run Status
  unfolding checked_params
  test_method check host_id method_id = do
    target ← get_host_by_id host_id
    method ← owned_method host_id method_id
    params ←
        checked_params
          (record {
            host = target.ip;
            port = method.port;
            username = method.username;
            kind = method.kind;
            password = [];
            private_key = [];
          })
          method method.kind
    pure (check params)

unfoldable pub delete_method : Uuid → Uuid → Run Unit
delete_method host_id method_id = do
  owned_method host_id method_id
  Repository.delete_method method_id
