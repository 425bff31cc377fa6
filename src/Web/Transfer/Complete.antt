-- ===== src/Web/Transfer/Complete.antt =====
-- What an import that succeeds leaves in the inventory.
use mathlib.Core.Path.{subst}
use hosthalla.Base.{
  ℕ, ◌+◌, ◌≡◌, ◌≢◌, refl, sym, ap, ◌∙◌, Bool, true, List, [], ◌∷◌, map, some, any, contains,
  select_rows, sort_by, any-sort_by, length, All, ◌==◌, nat_eq, text_eq, arith, inl, inr, ◌⊎◌,
  Error, Result, ok, pure, query, Bool-cases, query, eq_of_==,
}
use hosthalla.Base.Inversion.{>>=-ok, query-ok, query-Frame}
use hosthalla.Text.{Text, Unicode, codes, has_part}
use hosthalla.Model.{Host}
use hosthalla.Schema.{Tables, Inventory, HostRow}
use hosthalla.Host.Cipher.{SecretCipher}
use hosthalla.Host.HostRepository as Hosts
use hosthalla.Host.HostRepository.{CreateHostDto, host_of_row, list_tag_names}
use hosthalla.Host.Service.Hosts.{create_host, list_hosts, normalize_tags}
use hosthalla.Host.Service.Methods.{KeyCodec}
use hosthalla.Web.Request.{Request, Response, refused, rendered}
use hosthalla.Web.Request.Laws.{Accepts, or_refuse-went, lift-went}
use hosthalla.Web.Transfer.{
  ExportedHost, Candidate, ImportCounts, gather, import_methods, import_candidates, import_hosts,
  import_answer,
}
use hosthalla.Web.Transfer.Places.{
  has_ip, HasIp, kept, create_host-Keeps, import_methods-Keeps, create_host-places,
}
use hosthalla.Web.Transfer.Trace.{
  orders, fresh_orders, gather-orders, import_methods-Made, HostsMade,
}
use hosthalla.Web.Transfer.Counts.{candidate_ips, IsAmong, nothing_gathered, gathered-Outcome}

module _ (cipher : SecretCipher) (codec : KeyCodec) ⦃u : Unicode⦄ {B : Type 0}
    (finish : ℕ → Response B) where
  -- The loop over the candidates, where it comes to its end.
  candidates-end :
      (count : ℕ) (cs : List Candidate) (s : Inventory) {a : Response B}
      → (import_candidates cipher codec finish count cs s).0 ≡ ok a
      → Accepts a
      → (a ≡ finish (count + length cs))
        × ((ip : Text)
            → (HasIp ip s.tables) ⊎ (contains (candidate_ips cs) ip ≡ true)
            → HasIp ip (import_candidates cipher codec finish count cs s).1.tables)
        × HostsMade cipher codec (orders cs) s (import_candidates cipher codec finish count cs s).1
  unfolding import_candidates pure
  candidates-end count [] s {a} e fine = (
    let same : finish count ≡ a = cc in sym same ∙ ap finish (omega arith),
    λ ip h. elim h [ inl old ↦ old | inr new ↦ cc ],
    refl,
  )
  candidates-end count (c ∷ cs) s {a} e fine =
      let (made, created, rest) = or_refuse-went 500 (create_host c.host) _ s e fine in
      let s1 = (create_host c.host s).1 in
      let e1 = ap (λ r. r.0) (sym rest) ∙ e in
      let methods = import_methods cipher codec made.id c.methods in
      let (x, done, after) = or_refuse-went 400 methods _ s1 e1 fine in
      let s2 = (methods s1).1 in
      let e2 = ap (λ r. r.0) (sym after) ∙ e1 in
      let (counted, held, others) = candidates-end (count + 1) cs s2 e2 fine in
      let carried = λ (ip : Text) (h : HasIp ip s1.tables).
        kept ip methods s1 (import_methods-Keeps ip cipher codec made.id c.methods) h in
      (
        counted ∙ ap finish (omega arith),
        λ ip h.
            subst (λ (r : Result (Response B) × Inventory). HasIp ip r.1.tables)
              (sym (rest ∙ after)) (held ip (step ip s2.tables h created carried)),
        (
          made,
          created,
          s2,
          import_methods-Made cipher codec made.id c.methods s1 done,
          subst (λ (r : Result (Response B) × Inventory). HostsMade cipher codec (orders cs) s2 r.1)
              (sym (rest ∙ after)) others,
        ),
      )
    where
      step :
          (ip : Text) (t : Tables) {made : Host}
          → (HasIp ip s.tables) ⊎ (contains (candidate_ips (c ∷ cs)) ip ≡ true)
          → (create_host c.host s).0 ≡ ok made
          → ((other : Text) → HasIp other (create_host c.host s).1.tables → HasIp other t)
          → (HasIp ip t) ⊎ (contains (candidate_ips cs) ip ≡ true)
      step ip t (inl old) created carried =
          inl (carried ip (kept ip (create_host c.host) s (create_host-Keeps ip c.host) old))
      step ip t (inr new) created carried = elim (Bool-cases (ip == c.host.ip)) [
        | inl same ↦
            inl (
              carried ip
                (create_host-places ip c.host s (sym (eq_of_== ip c.host.ip same)) created))
        | inr differ ↦ inr (ground arith)
      ]

-- The addresses of a list of hosts are those of the rows that it was made of.
hosts_of_rows-ips :
    (rows : List HostRow) (s : Inventory) {hosts : List Host}
    → (Hosts.hosts_of_rows rows s).0 ≡ ok hosts
    → (map (λ (h : Host). h.ip) hosts ≡ map (λ (r : HostRow). r.ip) rows)
      × ((Hosts.hosts_of_rows rows s).1.tables ≡ s.tables)
unfolding Hosts.hosts_of_rows pure list_tag_names
hosts_of_rows-ips [] s {hosts} e =
    let same : hosts ≡ [] = cc in (ap (map (λ (h : Host). h.ip)) same, refl)
hosts_of_rows-ips (row ∷ rows) s {hosts} e =
    let (tags, got, rest) = >>=-ok (list_tag_names row.id) _ s e in
    let s1 = (list_tag_names row.id s).1 in
    let e1 = ap (λ r. r.0) (sym rest) ∙ e in
    let (others, got', rest') = >>=-ok (Hosts.hosts_of_rows rows) _ s1 e1 in
    let (ips, same) = hosts_of_rows-ips rows s1 got' in
    let made : ok hosts ≡ ok (host_of_row row tags ∷ others) =
      sym e ∙ ap (λ r. r.0) (rest ∙ rest') in
    let value : hosts ≡ host_of_row row tags ∷ others = cc in
    (
      ap (map (λ (h : Host). h.ip)) value ∙ ap (λ l. row.ip ∷ l) ips,
      ap (λ r. r.1.tables) (rest ∙ rest') ∙ same ∙ (query-Frame (Hosts.tag_names row.id) s).tables,
    )

contains-ips :
    (rows : List HostRow) (ip : Text)
    → contains (map (λ (r : HostRow). r.ip) rows) ip ≡ any (λ (r : HostRow). r.ip == ip) rows
contains-ips [] ip = refl
contains-ips (r ∷ rows) ip = ground (arith, contains-ips rows ip)

any-select :
    (p q : HostRow → Bool) (rows : List HostRow)
    → any p (select_rows q rows) ≡ true
    → any p rows ≡ true
any-select p q [] h = h
any-select p q (r ∷ rows) h = ground (arith, any-select p q rows)

list_hosts-ips :
    ⦃u : Unicode⦄ (s : Inventory) {hosts : List Host}
    → (list_hosts [] s).0 ≡ ok hosts
    → ((ip : Text) → contains (map (λ (h : Host). h.ip) hosts) ip ≡ true → HasIp ip s.tables)
      × ((list_hosts [] s).1.tables ≡ s.tables)
unfolding list_hosts Hosts.list_hosts
list_hosts-ips s {hosts} e =
    let filter = normalize_tags [] in
    let select = λ (t : Tables).
      sort_by Hosts.newer_host (select_rows (Hosts.matches_tags filter t) t.hosts) in
    let (rows, got, rest) = >>=-ok (query select) _ s e in
    let t = (query select s).1 in
    let (ips, same) = hosts_of_rows-ips rows t (ap (λ r. r.0) (sym rest) ∙ e) in
    let chosen : rows ≡ select s.tables = query-ok select s got in
    (
      λ ip h.
          let in_rows : any (λ (r : HostRow). r.ip == ip) (select s.tables) ≡ true =
            ap (any (λ (r : HostRow). r.ip == ip)) (sym chosen)
            ∙ sym (contains-ips rows ip)
            ∙ ap (λ l. contains l ip) (sym ips)
            ∙ h in
          any-select (λ (r : HostRow). r.ip == ip) (Hosts.matches_tags filter s.tables)
            s.tables.hosts
            (sym (any-sort_by Hosts.newer_host (λ (r : HostRow). r.ip == ip) _) ∙ in_rows),
      ap (λ r. r.1.tables) rest ∙ same ∙ (query-Frame select s).tables,
    )

-- The counts in the answer, where it has any.
answered_counts :
    (cipher : SecretCipher) (codec : KeyCodec) (r : Request) (skipped total n : ℕ)
    → (counts : ImportCounts) → import_answer cipher codec r skipped total n ≡ rendered counts
    → counts ≡ record { imported = n; skipped = skipped; total_received = total }
answered_counts cipher codec r skipped total n counts e =
    elim (Bool-cases (has_part (r.header (codes "Accept")) (codes "application/json"))) [
      | inl json ↦ let same = rw json at e in cc
      | inr page ↦ let same = rw page at e in cc
    ]

length-orders : (cs : List Candidate) → length (orders cs) ≡ length cs
length-orders [] = refl
length-orders (c ∷ cs) = omega (arith, length-orders cs)

counts_add_up :
    (cipher : SecretCipher) (codec : KeyCodec) (r : Request) (counts : ImportCounts)
    → (made skipped total received : ℕ)
    → import_answer cipher codec r skipped total (0 + made) ≡ rendered counts
    → made + skipped ≡ 0 + 0 + received
    → received ≡ total
    → (counts.imported + counts.skipped ≡ counts.total_received)
      × (counts.total_received ≡ received)
counts_add_up cipher codec r counts made skipped total received shown all same =
    let known = answered_counts cipher codec r skipped total (0 + made) counts shown in
    (
      ap (λ (c : ImportCounts). c.imported + c.skipped) known
          ∙ omega (arith, all, same)
          ∙ sym (ap (λ (c : ImportCounts). c.total_received) known),
      ap (λ (c : ImportCounts). c.total_received) known ∙ sym same,
    )

-- A host of the payload has an address, and the table has a row with it.
abbrev pub IsPresent : Tables → ExportedHost → Type 0
IsPresent t h = (ip : Text) × (h.ip ≡ some ip) × (has_ip ip t ≡ true)

present :
    (t : Tables) (existing fresh : List Text) (hosts : List ExportedHost)
    → ((ip : Text)
        → (contains existing ip ≡ true) ⊎ (contains fresh ip ≡ true)
        → has_ip ip t ≡ true)
    → All (IsAmong existing fresh) hosts
    → All (IsPresent t) hosts
present t existing fresh [] held h = tt
present t existing fresh (x ∷ hosts) held ((ip, at, among), h) =
    ((ip, at, held ip among), present t existing fresh hosts held h)

module _ (cipher : SecretCipher) (codec : KeyCodec) ⦃u : Unicode⦄ (r : Request) where
  -- An import that is answered without an error found the hosts that exist; it then made, one after
  -- the other, the hosts of the payload whose address was neither among theirs nor that of an earlier
  -- host of the payload, each with its name, description, tags and address, and imported all of its
  -- methods under the identifier that it was given, and none of these calls failed. Every address of
  -- the payload is then that of a host; and where the answer has counts, the imported are those that
  -- were made, and with the skipped they are all that were received.
  pub import_hosts_complete :
      (received : List ExportedHost) (s : Inventory) (a : Response ImportCounts)
      → (import_hosts cipher codec r (ok received) s).0 ≡ ok a
      → ((code : ℕ) (e : Error) → a ≢ refused code e)
      → ((existing : List Host) × ((list_hosts [] s).0 ≡ ok existing)
          × HostsMade cipher codec
              (fresh_orders (map (λ (h : Host). h.ip) existing) [] received)
              (list_hosts [] s).1
              (import_hosts cipher codec r (ok received) s).1
          × ((counts : ImportCounts)
              → a ≡ rendered counts
              → counts.imported
                ≡ length (fresh_orders (map (λ (h : Host). h.ip) existing) [] received)))
        × All (IsPresent (import_hosts cipher codec r (ok received) s).1.tables) received
        × ((counts : ImportCounts)
            → a ≡ rendered counts
            → (counts.imported + counts.skipped ≡ counts.total_received)
              × (counts.total_received ≡ length received))
  unfolding import_hosts
  import_hosts_complete received s a e fine =
      let (payload, decoded, first) = lift-went 400 (ok received) _ s e fine in
      let same : received ≡ payload = cc in
      let e1 = ap (λ q. q.0) (sym first) ∙ e in
      let (existing, listed, second) = or_refuse-went 500 (list_hosts []) _ s e1 fine in
      let (old, untouched) = list_hosts-ips s listed in
      let t = (list_hosts [] s).1 in
      let e2 = ap (λ q. q.0) (sym second) ∙ e1 in
      let ips = map (λ (h : Host). h.ip) existing in
      let (g, gathered, third) =
        lift-went 400 (gather ips 0 payload (nothing_gathered ips)) _ t e2 fine in
      let e3 = ap (λ q. q.0) (sym third) ∙ e2 in
      let all_of = ap (λ hs. gather ips 0 hs (nothing_gathered ips)) same ∙ gathered in
      let outcome = gathered-Outcome ips received g all_of in
      let chosen = gather-orders ips 0 received (nothing_gathered ips) g all_of in
      let finish = import_answer cipher codec r g.skipped (length payload) in
      let whole = first ∙ second ∙ third in
      let (counted, held, trace) = candidates-end cipher codec finish 0 g.candidates t e3 fine in
      (
        (
          existing,
          listed,
          subst
              (λ (q : Result (Response ImportCounts) × Inventory).
                HostsMade cipher codec (fresh_orders ips [] received) t q.1)
              (sym whole)
              (subst
                (λ os.
                  HostsMade cipher codec os t
                    (import_candidates cipher codec finish 0 g.candidates t).1)
                chosen trace),
          λ counts shown.
              ap (λ (c : ImportCounts). c.imported)
                (answered_counts cipher codec r g.skipped (length payload) (0 + length g.candidates)
                  counts (sym counted ∙ shown))
              ∙ (omega (arith, length-orders g.candidates))
              ∙ ap length chosen,
        ),
        subst
            (λ (q : Result (Response ImportCounts) × Inventory).
              All (IsPresent q.1.tables) received)
            (sym whole)
            (present (import_candidates cipher codec finish 0 g.candidates t).1.tables ips
              (candidate_ips g.candidates) received
              (λ ip among. held ip (elim among [
                | inl before ↦ inl (ap (has_ip ip) untouched ∙ old ip before)
                | inr new ↦ inr new
              ]))
              outcome.placed),
        λ counts shown.
            counts_add_up cipher codec r counts (length g.candidates) g.skipped (length payload)
              (length received) (sym counted ∙ shown) outcome.count (ap length same),
      )
