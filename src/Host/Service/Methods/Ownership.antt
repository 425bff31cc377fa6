-- ===== src/Host/Service/Methods/Ownership.antt =====
-- A management method can be reached only under the host that it belongs to.
use mathlib.Core.Path.{subst}
use hosthalla.Base.{
  ◌≡◌, ◌≢◌, refl, ap, ◌∙◌, not, List, [], ◌∷◌, Option, some, All, ok, err, Error, arith, find_row,
  select_rows, delete_rows, ◌==◌, nat_eq, ◌>>=◌, query_row, query, driver, require, exec,
  Bool-cases, inl, inr, eq_of_==,
}
use hosthalla.Base.Inversion.{Frame, >>=-err, >>=-step, Result-cases, exec-ok, exec-err}
use hosthalla.Model.{Uuid, Method}
use hosthalla.Schema.{Tables, Inventory, Run}
use hosthalla.Host.Cipher.{SecretCipher}
use hosthalla.Host.MethodRepository as Repository
use hosthalla.Host.Service.Methods.{
  KeyCodec, UpdateInput, owned_method, get_method_secret, update_method, delete_method,
}

abbrev pub stored : Uuid → Tables → Option Method
stored method_id t = find_row (λ (m : Method). m.id == method_id) t.credentials

module _ (host_id method_id : Uuid) (s : Inventory) where
  owned_method-Frame : Frame s (owned_method host_id method_id s).1
  unfolding owned_method Repository.get_method_by_id query_row query driver ◌>>=◌ require
  owned_method-Frame = ground arith

  owned_method-ok :
      (m : Method)
      → (owned_method host_id method_id s).0 ≡ ok m
      → (stored method_id s.tables ≡ some m) × (m.host_id ≡ host_id)
  unfolding owned_method Repository.get_method_by_id query_row query driver ◌>>=◌ require
  owned_method-ok m e = ground arith

  owned_method_foreign :
      (m : Method)
      → stored method_id s.tables ≡ some m
      → m.host_id ≢ host_id
      → (e : Error) × ((owned_method host_id method_id s).0 ≡ err e)
  owned_method_foreign m found foreign = elim (Result-cases (owned_method host_id method_id s).0) [
    | inl (m', e) ↦ let (found', same) = owned_method-ok m' e in absurd (foreign (ground arith))
    | inr (e, h) ↦ (e, h)
  ]

  -- The call failed, and changed neither the tables nor the published events.
  abbrev pub Refused : {A : Type 0} → Run A → Type 0
  Refused m = ((e : Error) × ((m s).0 ≡ err e)) × Frame s (m s).1

  Refused-owned :
      {A : Type 0} (f : Method → Run A) (m : Method)
      → stored method_id s.tables ≡ some m
      → m.host_id ≢ host_id
      → Refused (owned_method host_id method_id >>= f)
  Refused-owned f m found foreign =
      let (e, failed) = owned_method_foreign m found foreign in
      rw (>>=-err (owned_method host_id method_id) f s failed) ((e, refl), owned_method-Frame)

  -- Asked under another host than its own, the secret of a stored method is not shown, and the
  -- method is neither changed nor deleted, whatever the database and the environment do: the call
  -- fails, and the tables and the published events are as they were.
  pub foreign_method-Refused :
      (cipher : SecretCipher) (codec : KeyCodec) (input : UpdateInput) (m : Method)
      → stored method_id s.tables ≡ some m
      → m.host_id ≢ host_id
      → Refused (get_method_secret cipher codec host_id method_id)
        × Refused (update_method cipher codec host_id method_id input)
        × Refused (delete_method host_id method_id)
  unfolding get_method_secret update_method delete_method
  foreign_method-Refused cipher codec input m found foreign = (
    Refused-owned _ m found foreign,
    Refused-owned _ m found foreign,
    Refused-owned _ m found foreign,
  )

-- Identifiers are the primary key of the table.
abbrev pub DistinctIds : List Method → Type 0
DistinctIds [] = Unit
DistinctIds (m ∷ ms) = All (λ (n : Method). n.id ≢ m.id) ms × DistinctIds ms

abbrev pub elsewhere : Uuid → List Method → List Method
elsewhere host_id = select_rows (λ (m : Method). not (m.host_id == host_id))

module _ (host_id method_id : Uuid) where
  kept_of_absent :
      (ms : List Method)
      → All (λ (n : Method). n.id ≢ method_id) ms
      → delete_rows (λ (m : Method). m.id == method_id) ms ≡ ms
  kept_of_absent [] h = refl
  kept_of_absent (m ∷ ms) (p, h) = ground (arith, kept_of_absent ms h)

  elsewhere-delete :
      (ms : List Method) (m : Method)
      → DistinctIds ms
      → find_row (λ (n : Method). n.id == method_id) ms ≡ some m
      → m.host_id ≡ host_id
      → elsewhere host_id (delete_rows (λ (n : Method). n.id == method_id) ms)
        ≡ elsewhere host_id ms
  elsewhere-delete [] m d found own = refl
  elsewhere-delete (n ∷ ms) m (fresh, d) found own = elim (Bool-cases (n.id == method_id)) [
    | inl hit ↦
        let absent = subst (λ i. All (λ (o : Method). o.id ≢ i) ms) (eq_of_== _ _ hit) fresh in
        ground (arith, kept_of_absent ms absent)
    | inr miss ↦ rw miss (ground (arith, elsewhere-delete ms m d))
  ]

  deleted-credentials :
      (t t' : Tables)
      → Repository.delete_method_row method_id t ≡ some t'
      → t'.credentials ≡ delete_rows (λ (m : Method). m.id == method_id) t.credentials
  unfolding Repository.delete_method_row
  deleted-credentials t t' e = ground arith

  repository_delete-keeps_others :
      (t : Inventory) (m : Method)
      → DistinctIds t.tables.credentials
      → stored method_id t.tables ≡ some m
      → m.host_id ≡ host_id
      → elsewhere host_id (Repository.delete_method method_id t).1.tables.credentials
        ≡ elsewhere host_id t.tables.credentials
  unfolding Repository.delete_method
  repository_delete-keeps_others t m d found own =
      let f = Repository.delete_method_row method_id in
      elim (Result-cases (exec f t).0) [
        | inl (x, e) ↦
            let (done, _, _) = exec-ok f t e in
            ap (elsewhere host_id) (deleted-credentials t.tables _ done)
            ∙ elsewhere-delete t.tables.credentials m d found own
        | inr (x, e) ↦
            ap (λ (ts : Tables). elsewhere host_id ts.credentials) (exec-err f t e).tables
      ]

  -- Where the identifiers of methods are distinct, DeleteHostManagementMethod keeps every method
  -- of every other host, whether it succeeds or fails.
  pub delete_method-keeps_others :
      (s : Inventory)
      → DistinctIds s.tables.credentials
      → elsewhere host_id (delete_method host_id method_id s).1.tables.credentials
        ≡ elsewhere host_id s.tables.credentials
  unfolding delete_method
  delete_method-keeps_others s d =
      let m = owned_method host_id method_id in
      let frame = (owned_method-Frame host_id method_id s).tables in
      elim (Result-cases (m s).0) [
        | inl (a, e) ↦
            let (found, own) = owned_method-ok host_id method_id s a e in
            rw (>>=-step m (λ _. Repository.delete_method method_id) s e) (
              repository_delete-keeps_others (m s).1 a (rw frame d) (rw frame found) own
              ∙ ap (λ (ts : Tables). elsewhere host_id ts.credentials) frame)
        | inr (x, e) ↦
            rw (>>=-err m (λ _. Repository.delete_method method_id) s e)
              (ap (λ (ts : Tables). elsewhere host_id ts.credentials) frame)
      ]
