-- ===== src/Web/Transfer/Counts.antt =====
-- The loop of `ImportHosts` over the payload.
use hosthalla.Base.{
  ℕ, suc, ◌+◌, ◌≡◌, refl, sym, ap, ◌∙◌, true, ◌||◌, List, [], ◌∷◌, ◌++◌, Option, none, some,
  contains, length, length-append, Error, ok, err, arith, Bool-cases, inl, inr, ◌==◌, text_eq, All,
  ◌⊎◌,
}
use hosthalla.Base.Inversion.{Result-cases}
use hosthalla.Text.{Text}
use hosthalla.Web.Transfer.{
  ExportedHost, Candidate, Gathered, gather, gather_valid, gather_addressed, add_candidate,
  candidate_of, is_blank, validate_imported_methods,
}

abbrev pub candidate_ips : List Candidate → List Text
candidate_ips [] = []
candidate_ips (c ∷ cs) = c.host.ip ∷ candidate_ips cs

-- A host of the payload whose address is in one of two lists.
abbrev pub IsAmong : List Text → List Text → ExportedHost → Type 0
IsAmong existing fresh h =
    (ip : Text) × (h.ip ≡ some ip) × ((contains existing ip ≡ true) ⊎ (contains fresh ip ≡ true))

module _ (existing : List Text) where
  -- The addresses seen are those of the candidates.
  record Inv (g : Gathered) : Type 0 where
    same : (ip : Text) → contains g.seen ip ≡ contains (candidate_ips g.candidates) ip

  contains-append :
      (cs : List Candidate) (c : Candidate) (ip : Text)
      → contains (candidate_ips (cs ++ c ∷ [])) ip
        ≡ (contains (candidate_ips cs) ip || ip == c.host.ip)
  contains-append [] c ip = ground arith
  contains-append (d ∷ cs) c ip = ground (arith, contains-append cs c ip)

  -- What a round does, where it does not end the request.
  record Round (h : ExportedHost) (g g' : Gathered) : Type 0 where
    inv : Inv g'
    count : length g'.candidates + g'.skipped ≡ suc (length g.candidates + g.skipped)
    grows :
        (ip : Text)
        → contains (candidate_ips g.candidates) ip ≡ true
        → contains (candidate_ips g'.candidates) ip ≡ true
    placed : IsAmong existing (candidate_ips g'.candidates) h

  module _ (idx : ℕ) (h : ExportedHost) (g g' : Gathered) (inv : Inv g) where
    add-Round :
        (ip : Text)
        → h.ip ≡ some ip
        → add_candidate idx h ip g (validate_imported_methods 0 h.methods) ≡ ok g'
        → Round h g g'
    add-Round ip at e = elim (Result-cases (validate_imported_methods 0 h.methods)) [
      | inr (x, bad) ↦ ground arith
      | inl (x, good) ↦
          let c = candidate_of idx h ip in
          let next : ok g' ≡ add_candidate idx h ip g (ok x) =
            sym e ∙ ap (add_candidate idx h ip g) good in
          let made : g' ≡ record {
            seen = ip ∷ g.seen;
            candidates = g.candidates ++ c ∷ [];
            skipped = g.skipped;
          } =
            cc in
          rw made (record {
            inv = record {
              same = λ other. ground (arith, inv.same other, contains-append g.candidates c other);
            };
            count = ground (arith, length-append g.candidates (c ∷ []));
            grows = λ other in_it. ground (arith, contains-append g.candidates c other);
            placed = (ip, at, inr (ground (arith, contains-append g.candidates c ip)));
          })
    ]

    gather_valid-Round :
        (ip : Text) → h.ip ≡ some ip → gather_valid existing idx h ip g ≡ ok g' → Round h g g'
    unfolding gather_valid
    gather_valid-Round ip at e = elim (Bool-cases (contains existing ip || contains g.seen ip)) [
      | inr fresh ↦ add-Round ip at (rw fresh at e)
      | inl known ↦
          let made : g' ≡ record g { skipped = g.skipped + 1 } = ground arith in
          rw made (record {
            inv = record { same = inv.same };
            count = omega arith;
            grows = λ other in_it. in_it;
            placed = (ip, at, either ip known);
          })
    ]
      where
        either :
            (ip : Text)
            → (contains existing ip || contains g.seen ip) ≡ true
            → (contains existing ip ≡ true) ⊎ (contains (candidate_ips g.candidates) ip ≡ true)
        either ip known = elim (Bool-cases (contains existing ip)) [
          | inl old ↦ inl old
          | inr new ↦ inr (sym (inv.same ip) ∙ ground arith)
        ]

    addressed-Round :
        (o : Option Text) → h.ip ≡ o → gather_addressed existing idx h o g ≡ ok g' → Round h g g'
    addressed-Round none at e = cc
    addressed-Round (some ip) at e = elim (Bool-cases (is_blank h.name)) [
      | inl blank ↦ ground arith
      | inr named ↦ gather_valid-Round ip at (rw named at e)
    ]

  pub record Outcome (hosts : List ExportedHost) (g g' : Gathered) : Type 0 where
    pub count : length g'.candidates + g'.skipped ≡ length g.candidates + g.skipped + length hosts
    pub grows :
        (ip : Text)
        → contains (candidate_ips g.candidates) ip ≡ true
        → contains (candidate_ips g'.candidates) ip ≡ true
    pub placed : All (IsAmong existing (candidate_ips g'.candidates)) hosts

  weaken :
      (h : ExportedHost) (xs ys : List Text)
      → ((ip : Text) → contains xs ip ≡ true → contains ys ip ≡ true)
      → IsAmong existing xs h
      → IsAmong existing ys h
  weaken h xs ys up (ip, at, inl old) = (ip, at, inl old)
  weaken h xs ys up (ip, at, inr new) = (ip, at, inr (up ip new))

  gather-Outcome :
      (idx : ℕ) (hosts : List ExportedHost) (g g' : Gathered)
      → Inv g
      → gather existing idx hosts g ≡ ok g'
      → Outcome hosts g g'
  unfolding gather
  gather-Outcome idx [] g g' inv e =
      let same : g ≡ g' = cc in
      rw (sym same) (record { count = omega arith; grows = λ ip h. h; placed = tt })
  gather-Outcome idx (h ∷ hosts) g g' inv e =
      elim (Result-cases (gather_addressed existing idx h h.ip g)) [
        | inr (x, bad) ↦ absurd (clash (rw (bad, gather) at e))
        | inl (m, good) ↦
            let round = addressed-Round idx h g m inv h.ip refl good in
            let rest = gather-Outcome (idx + 1) hosts m g' round.inv (rw (good, gather) at e) in
            record {
              count = omega (arith, round.count, rest.count);
              grows = λ ip in_it. rest.grows ip (round.grows ip in_it);
              placed = (weaken h _ _ rest.grows round.placed, rest.placed);
            }
      ]
    where
      clash : {x : Error} → ¬ (err x ≡ ok g')
      clash q = cc

  abbrev pub nothing_gathered : Gathered
  nothing_gathered = record { seen = []; candidates = []; skipped = 0 }

  pub gathered-Outcome :
      (hosts : List ExportedHost) (g : Gathered)
      → gather existing 0 hosts nothing_gathered ≡ ok g
      → Outcome hosts nothing_gathered g
  gathered-Outcome hosts g e =
      gather-Outcome 0 hosts nothing_gathered g (record { same = λ ip. refl }) e
