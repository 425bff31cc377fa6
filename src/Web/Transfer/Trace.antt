-- ===== src/Web/Transfer/Trace.antt =====
-- What an import makes, as a list of hosts to be made and the calls that made them.
use mathlib.Core.List.{append-nil, append_assoc}
use mathlib.Core.Path.{subst}
use hosthalla.Base.{
  ℕ, ◌+◌, ◌≡◌, refl, sym, ap, ◌∙◌, false, ◌||◌, List, [], ◌∷◌, ◌++◌, Option, none, some, contains,
  if◌then◌else◌, text_eq, arith, Bool-cases, inl, inr, Error, Result, ok, err, pure,
}
use hosthalla.Base.Inversion.{>>=-ok, Result-cases}
use hosthalla.Text.{Text, Unicode}
use hosthalla.Model.{Uuid, Host}
use hosthalla.Schema.{Inventory}
use hosthalla.Host.Cipher.{SecretCipher}
use hosthalla.Host.HostRepository.{CreateHostDto}
use hosthalla.Host.Service.Hosts.{create_host}
use hosthalla.Host.Service.Methods.{KeyCodec}
use hosthalla.Web.Transfer.{
  ExportedMethod, ExportedHost, Candidate, Gathered, gather, gather_valid, gather_addressed,
  add_candidate, candidate_of, is_blank, validate_imported_methods, import_host_management_method,
  import_methods,
}

-- A host to be made with its methods.
pub record Order : Type 0 where
  pub host : CreateHostDto
  pub methods : List ExportedMethod

abbrev pub order_of : ExportedHost → Text → Order
order_of h ip = record {
  host = record { name = h.name; description = h.description; tags = h.tags; ip = ip };
  methods = h.methods;
}

-- The hosts of a payload, each with all that it comes with, but for those whose address is among
-- the ones that exist or belongs to an earlier host of the payload.
abbrev pub fresh_orders : List Text → List Text → List ExportedHost → List Order
fresh_orders existing seen [] = []
fresh_orders existing seen (h ∷ hosts) = elim h.ip [
  | none ↦ fresh_orders existing seen hosts
  | some ip ↦
      if contains existing ip || contains seen ip
      then fresh_orders existing seen hosts
      else order_of h ip ∷ fresh_orders existing (ip ∷ seen) hosts
]

abbrev pub orders : List Candidate → List Order
orders [] = []
orders (c ∷ cs) = record { host = c.host; methods = c.methods } ∷ orders cs

orders-append :
    (cs : List Candidate) (c : Candidate)
    → orders (cs ++ c ∷ []) ≡ orders cs ++ record { host = c.host; methods = c.methods } ∷ []
orders-append [] c = refl
orders-append (d ∷ cs) c =
    ap (λ os. record { host = d.host; methods = d.methods } ∷ os) (orders-append cs c)

module _ (existing : List Text) where
  -- What a round adds to the candidates is what the rest is then spared.
  abbrev Agrees : ExportedHost → List ExportedHost → Gathered → Gathered → Type 0
  Agrees h hosts g g' =
      orders g'.candidates ++ fresh_orders existing g'.seen hosts
      ≡ orders g.candidates ++ fresh_orders existing g.seen (h ∷ hosts)

  module _ (idx : ℕ) (h : ExportedHost) (hosts : List ExportedHost) (g g' : Gathered) where
    add-Agrees :
        (ip : Text)
        → h.ip ≡ some ip
        → (contains existing ip || contains g.seen ip) ≡ false
        → add_candidate idx h ip g (validate_imported_methods 0 h.methods) ≡ ok g'
        → Agrees h hosts g g'
    add-Agrees ip at new e = elim (Result-cases (validate_imported_methods 0 h.methods)) [
      | inr (x, bad) ↦ ground arith
      | inl (x, good) ↦
          let next : ok g' ≡ add_candidate idx h ip g (ok x) =
            sym e ∙ ap (add_candidate idx h ip g) good in
          let made : g' ≡ record {
            seen = ip ∷ g.seen;
            candidates = g.candidates ++ candidate_of idx h ip ∷ [];
            skipped = g.skipped;
          } =
            cc in
          rw (made, at, new)
            (ap (λ os. os ++ fresh_orders existing (ip ∷ g.seen) hosts)
                (orders-append g.candidates (candidate_of idx h ip))
              ∙ append_assoc (orders g.candidates) (order_of h ip ∷ [])
                  (fresh_orders existing (ip ∷ g.seen) hosts))
    ]

    valid-Agrees :
        (ip : Text)
        → h.ip ≡ some ip
        → gather_valid existing idx h ip g ≡ ok g'
        → Agrees h hosts g g'
    unfolding gather_valid
    valid-Agrees ip at e = elim (Bool-cases (contains existing ip || contains g.seen ip)) [
      | inr new ↦ add-Agrees ip at new (rw new at e)
      | inl known ↦
          let made : g' ≡ record g { skipped = g.skipped + 1 } = ground arith in
          rw (made, at, known) refl
    ]

    addressed-Agrees :
        (o : Option Text)
        → h.ip ≡ o
        → gather_addressed existing idx h o g ≡ ok g'
        → Agrees h hosts g g'
    addressed-Agrees none at e = cc
    addressed-Agrees (some ip) at e = elim (Bool-cases (is_blank h.name)) [
      | inl blank ↦ ground arith
      | inr named ↦ valid-Agrees ip at (rw named at e)
    ]

  pub gather-orders :
      (idx : ℕ) (hosts : List ExportedHost) (g g' : Gathered)
      → gather existing idx hosts g ≡ ok g'
      → orders g'.candidates ≡ orders g.candidates ++ fresh_orders existing g.seen hosts
  unfolding gather
  gather-orders idx [] g g' e =
      let same : g ≡ g' = cc in
      ap (λ (x : Gathered). orders x.candidates) (sym same) ∙ sym (append-nil (orders g.candidates))
  gather-orders idx (h ∷ hosts) g g' e =
      elim (Result-cases (gather_addressed existing idx h h.ip g)) [
        | inr (x, bad) ↦ absurd (clash (rw (bad, gather) at e))
        | inl (m, good) ↦
            gather-orders (idx + 1) hosts m g' (rw (good, gather) at e)
            ∙ addressed-Agrees idx h hosts g m h.ip refl good
      ]
    where
      clash : {x : Error} → ¬ (err x ≡ ok g')
      clash q = cc

module _ (cipher : SecretCipher) (codec : KeyCodec) where
  -- The methods are imported one after the other, and none of the calls fails.
  abbrev pub MethodsMade : Uuid → List ExportedMethod → Inventory → Inventory → Type 0
  MethodsMade host_id [] s t = s ≡ t
  MethodsMade host_id (m ∷ ms) s t =
      let call = import_host_management_method cipher codec host_id m s in
      (call.0 ≡ ok tt) × MethodsMade host_id ms call.1 t

  pub import_methods-Made :
      (host_id : Uuid) (ms : List ExportedMethod) (s : Inventory) {x : Unit {0}}
      → (import_methods cipher codec host_id ms s).0 ≡ ok x
      → MethodsMade host_id ms s (import_methods cipher codec host_id ms s).1
  unfolding import_methods pure
  import_methods-Made host_id [] s e = refl
  import_methods-Made host_id (m ∷ ms) s e =
      let (y, done, rest) = >>=-ok (import_host_management_method cipher codec host_id m) _ s e in
      let call = import_host_management_method cipher codec host_id m s in
      let later = import_methods-Made host_id ms call.1 (ap (λ r. r.0) (sym rest) ∙ e) in
      (
        done,
        subst (λ (r : Result (Unit {0}) × Inventory). MethodsMade host_id ms call.1 r.1) (sym rest)
            later,
      )

  -- The hosts are made one after the other, each followed by its methods, under the identifier that
  -- the host was given.
  abbrev pub HostsMade : ⦃u : Unicode⦄ → List Order → Inventory → Inventory → Type 0
  HostsMade [] s t = s ≡ t
  HostsMade (o ∷ os) s t =
      (made : Host) × ((create_host o.host s).0 ≡ ok made)
      × (next : Inventory) × MethodsMade made.id o.methods (create_host o.host s).1 next
      × HostsMade os next t
