-- ===== src/Web/Methods.antt =====
-- The handlers on management methods of internal/web/handlers/hosts.go.
use hosthalla.Base.{
  ℕ, ◌/◌, ◌++◌, List, ◌∷◌, [], if◌then◌else◌, ◌==◌, text_eq, Result, failed, pure, lift, ◌>>=◌,
  Exec, time_now, pos,
}
use hosthalla.Text.{Text, Unicode, codes, trim_space}
use hosthalla.Model.{Uuid, MethodSecret}
use hosthalla.Schema.{Run, Inventory}
use hosthalla.Auth.Tables.{Session, AuthRun, AuthDb}
use hosthalla.Auth.Service.{create_api_token}
use hosthalla.Web.Request.{
  Request, form_value, query_value, Response, refused, redirected, rendered, or_refuse, parse_form,
}
use hosthalla.Web.Hosts.{host_id_of, method_id_of, hosts_path}
use hosthalla.Host.Cipher.{SecretCipher}
use hosthalla.Host.Port.{parse_port}
use hosthalla.Host.Service.Hosts.{get_host_by_id}
use hosthalla.Host.Service.Methods.{
  KeyCodec, SshParams, create_password_method, create_key_method, update_method, delete_method,
  get_method_secret, test_method,
}

-- `ManagementMethodFields`: the form's host and type.
unfoldable pub management_method_fields : Request → Response (Text × Text)
management_method_fields r =
    let method_type = trim_space (query_value r (codes "methodType")) in
    rendered (
      r.path_value (codes "id"),
      if method_type == codes "ssh_key" then codes "ssh_key" else codes "ssh_password",
    )

-- `sshcheck.Result`
pub record CheckResult : Type 0 where
  pub status : Text
  pub message : Text
  pub checked_at : ℕ
  pub duration : ℕ

-- `testSSHManagementMethodResponse`
pub record CheckResponse : Type 0 where
  pub status : Text
  pub message : Text
  pub checked_at : Text
  pub duration_ms : ℕ

module _ (cipher : SecretCipher) (codec : KeyCodec) (parse_uuid : Text → Result Uuid) where
  unfoldable pub create_password_request : Request → Uuid → Run (Response Unit)
  create_password_request r host_id =
      or_refuse 400 (lift (parse_port (form_value r (codes "port")))) λ port.
        or_refuse 400
          (create_password_method cipher codec host_id (record {
            name = form_value r (codes "name");
            username = form_value r (codes "username");
            password = form_value r (codes "password");
            port = port;
            description = form_value r (codes "description");
          }))
          λ made. pure (redirected hosts_path)

  unfoldable pub create_key_request : Request → Uuid → Run (Response Unit)
  create_key_request r host_id =
      or_refuse 400 (lift (parse_port (form_value r (codes "port")))) λ port.
        or_refuse 400
          (create_key_method cipher codec host_id (record {
            name = form_value r (codes "name");
            username = form_value r (codes "username");
            public_key = form_value r (codes "publicKey");
            private_key = form_value r (codes "privateKey");
            port = port;
            description = form_value r (codes "description");
          }))
          λ made. pure (redirected hosts_path)

  -- `CreateHostManagementMethod`
  unfoldable pub create_method_request : Request → Run (Response Unit)
  create_method_request r = or_refuse 400 (lift (host_id_of parse_uuid r)) λ host_id.
      or_refuse 400 (lift (parse_form r)) λ parsed.
        let method_type = trim_space (form_value r (codes "methodType")) in
        if method_type == codes "ssh_password"
        then create_password_request r host_id
        else if method_type == codes "ssh_key"
        then create_key_request r host_id
        else pure (refused 400 (failed "unsupported management method type"))

  -- `parseHostAndMethodIDs`, before a handler goes on.
  unfoldable pub with_ids :
      {B : Type 0} → Request → (Uuid → Uuid → Run (Response B)) → Run (Response B)
  with_ids r next = or_refuse 400 (lift (host_id_of parse_uuid r)) λ host_id.
      or_refuse 400 (lift (method_id_of parse_uuid r)) λ method_id. next host_id method_id

  -- `UpdateHostManagementMethod`
  unfoldable pub update_method_request : Request → Run (Response Unit)
  update_method_request r = with_ids r λ host_id method_id.
      or_refuse 400 (lift (parse_form r)) λ parsed.
        or_refuse 400 (lift (parse_port (form_value r (codes "port")))) λ port.
          or_refuse 400
            (update_method cipher codec host_id method_id (record {
              name = form_value r (codes "name");
              username = form_value r (codes "username");
              password = form_value r (codes "password");
              public_key = form_value r (codes "publicKey");
              private_key = form_value r (codes "privateKey");
              port = port;
              description = form_value r (codes "description");
            }))
            λ updated. pure (redirected hosts_path)

  -- `DeleteHostManagementMethod`
  unfoldable pub delete_method_request : Request → Run (Response Unit)
  delete_method_request r = with_ids r λ host_id method_id.
      or_refuse 404 (delete_method host_id method_id) λ done. pure (redirected hosts_path)

  -- `GetHostManagementMethodSecret`
  unfoldable pub get_method_secret_request : Request → Run (Response MethodSecret)
  get_method_secret_request r = with_ids r λ host_id method_id.
      or_refuse 404 (get_method_secret cipher codec host_id method_id)
        λ secret. pure (rendered secret)

  -- `TestSSHManagementMethod`; `rfc3339` is the text of an instant.
  unfoldable pub test_method_request :
      (SshParams → CheckResult) → (ℕ → Text) → Request → Run (Response CheckResponse)
  test_method_request check rfc3339 r = with_ids r λ host_id method_id.
      or_refuse 404 (test_method cipher codec check host_id method_id) λ result. pure (
        rendered (record {
          status = result.status;
          message = result.message;
          checked_at = rfc3339 result.checked_at;
          duration_ms = result.duration / 1000000;
        }))

-- The two databases of the handlers that use both services.
abbrev pub Site : Type 0
Site = Inventory × AuthDb

module _ {A : Type 0} where
  unfoldable pub on_inventory : Run A → Exec Site A
  on_inventory m (inventory, auth) = let (r, inventory') = m inventory in (r, (inventory', auth))

  unfoldable pub on_auth : AuthRun A → Exec Site A
  on_auth m (inventory, auth) = let (r, auth') = m auth in (r, (inventory, auth'))

module _ ⦃u : Unicode⦄ (sha256 : Text → List ℕ) (parse_uuid : Text → Result Uuid)
    (uuid_text : Uuid → Text) (rfc3339 : ℕ → Text) (web_origin : Text) where
  unfoldable pub register_command : Text → Text → Text
  register_command host_id token =
      codes "hosthalla agent register --host="
      ++ (web_origin ++ (codes " --host-id=" ++ (host_id ++ (codes " --token=" ++ token))))

  -- `CreateAgentRegisterCommand`; `session` is what `GetSessionFromContext` finds.
  unfoldable pub create_agent_register_command :
      Result Session → Request → Exec Site (Response Text)
  create_agent_register_command session r = or_refuse 500 (lift session) λ session.
      or_refuse 400 (lift (host_id_of parse_uuid r)) λ host_id.
        or_refuse 404 (on_inventory (get_host_by_id host_id)) λ target. do
          now ← on_auth time_now
          or_refuse 500
              (on_auth (
                create_api_token sha256 (record {
                  profile_id = session.profile_id;
                  name =
                      codes "Agent token for host "
                      ++ (uuid_text host_id ++ (codes " (" ++ (rfc3339 now ++ codes ")")));
                  scopes = codes "hosts:register" ∷ [];
                  expires_in = pos 0;
                })))
              λ created. pure (rendered (register_command (uuid_text host_id) created.plain_token))
