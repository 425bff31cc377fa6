-- ===== src/Host/SystemInfoRepository/RoundTrip.antt =====
-- What `UpsertHostSystemInfo` stores is what is read back.
use mathlib.Core.Path.{subst}
use mathlib.Core.Option
use mathlib.Core.List.{append-nil, append_assoc}
use hosthalla.Base.{
  Result, ℕ, ◌+◌, ◌≡◌, ◌≢◌, refl, sym, ap, ◌∙◌, Bool, List, [], ◌∷◌, ◌++◌, map, Option, some, ok,
  true, false, select_rows, delete_rows, update_rows, find_row, any, ◌==◌, nat_eq, arith,
  Bool-cases, inl, inr, exec, pure, query, query_row, time_now, sort_by, insert_sorted,
}
use hosthalla.Base.Inversion.{
  transaction-ok, >>=-ok, exec-ok, time_now-Frame, query_row-ok, query-ok, query_row-Frame,
  query-Frame,
}
use hosthalla.Text.{Text}
use hosthalla.Model.{Uuid, SystemInfo}
use hosthalla.Schema.{Tables, Inventory, SystemRow, GpuRow}
use hosthalla.Host.SystemInfoRepository.{
  upsert_system_row, clear_gpus, insert_gpu, insert_gpus, gpu_names, by_gpu_position, system_row,
  get_system_info, upsert_system_info, upsert_system_info_body, columns,
}

abbrev gpus_of : Uuid → List GpuRow → List GpuRow
gpus_of host_id = select_rows (λ g. g.host_id == host_id)

abbrev numbered : Uuid → ℕ → List Text → List GpuRow
numbered host_id k [] = []
numbered host_id k (name ∷ names) =
    record { host_id = host_id; position = k; name = name } ∷ numbered host_id (k + 1) names

insert_sorted-numbered :
    (host_id : Uuid) (k : ℕ) (name : Text) (names : List Text)
    → insert_sorted by_gpu_position
        (record { host_id = host_id; position = k; name = name })
        (numbered host_id (k + 1) names)
      ≡ numbered host_id k (name ∷ names)
unfolding insert_sorted
insert_sorted-numbered host_id k name [] = refl
insert_sorted-numbered host_id k name (n ∷ names) = ground arith

sort_by-numbered :
    (host_id : Uuid) (k : ℕ) (names : List Text)
    → sort_by by_gpu_position (numbered host_id k names) ≡ numbered host_id k names
unfolding sort_by
sort_by-numbered host_id k [] = refl
sort_by-numbered host_id k (name ∷ names) =
    rw (sort_by-numbered host_id (k + 1) names) (insert_sorted-numbered host_id k name names)

map-numbered :
    (host_id : Uuid) (k : ℕ) (names : List Text)
    → map (λ (g : GpuRow). g.name) (numbered host_id k names) ≡ names
map-numbered host_id k [] = refl
map-numbered host_id k (name ∷ names) = ap (λ r. name ∷ r) (map-numbered host_id (k + 1) names)

gpus_of-append :
    (host_id : Uuid) (gs hs : List GpuRow)
    → gpus_of host_id (gs ++ hs) ≡ gpus_of host_id gs ++ gpus_of host_id hs
gpus_of-append host_id [] hs = refl
gpus_of-append host_id (g ∷ gs) hs = ground (arith, gpus_of-append host_id gs hs)

gpus_of-cleared :
    (host_id : Uuid) (gs : List GpuRow)
    → gpus_of host_id (delete_rows (λ g. g.host_id == host_id) gs) ≡ []
gpus_of-cleared host_id [] = refl
gpus_of-cleared host_id (g ∷ gs) = ground (arith, gpus_of-cleared host_id gs)

gpus_of-others :
    (host_id other : Uuid) (gs : List GpuRow)
    → other ≢ host_id
    → gpus_of other (delete_rows (λ g. g.host_id == host_id) gs) ≡ gpus_of other gs
gpus_of-others host_id other [] h = refl
gpus_of-others host_id other (g ∷ gs) h = ground (arith, gpus_of-others host_id other gs h)

module _ (host_id : Uuid) where
  abbrev found : Uuid → List SystemRow → Option SystemRow
  found id = find_row (λ r. r.value.host_id == id)

  found-append :
      (rs : List SystemRow) (r : SystemRow)
      → any (λ (o : SystemRow). o.value.host_id == host_id) rs ≡ false
      → r.value.host_id ≡ host_id
      → found host_id (rs ++ r ∷ []) ≡ some r
  found-append [] r h e = ground arith
  found-append (o ∷ rs) r h e = ground (arith, found-append rs r)

  found-append_other :
      (other : Uuid) (rs : List SystemRow) (r : SystemRow)
      → other ≢ r.value.host_id
      → found other (rs ++ r ∷ []) ≡ found other rs
  found-append_other other [] r h = ground arith
  found-append_other other (o ∷ rs) r h = ground (arith, found-append_other other rs r h)

  module _ (f : SystemRow → SystemRow)
      (keeps : (r : SystemRow) → (f r).value.host_id ≡ host_id) where
    found-update :
        (rs : List SystemRow)
        → any (λ (o : SystemRow). o.value.host_id == host_id) rs ≡ true
        → (r : SystemRow) × (found host_id (update_rows (λ o. o.value.host_id == host_id) f rs)
            ≡ some (f r))
    found-update [] h = cc
    found-update (o ∷ rs) h = elim (Bool-cases (o.value.host_id == host_id)) [
      | inl own ↦ (o, ground (arith, keeps o))
      | inr not_own ↦ let (r, e) = found-update rs (ground arith) in (r, ground arith)
    ]

    found-update_other :
        (other : Uuid) (rs : List SystemRow)
        → other ≢ host_id
        → found other (update_rows (λ o. o.value.host_id == host_id) f rs) ≡ found other rs
    found-update_other other [] h = refl
    found-update_other other (o ∷ rs) h = ground (arith, keeps o, found-update_other other rs h)

module _ (i : SystemInfo) (old : Tables) where
  -- The stage of the transaction after `done` of the GPUs.
  record Written (names : List Text) (k : ℕ) (t : Tables) : Type 0 where
    row : (r : SystemRow) × (system_row i.host_id t ≡ some r) × (r.value ≡ columns i)
    gpus : gpus_of i.host_id t.gpus ++ numbered i.host_id k names ≡ numbered i.host_id 0 i.gpus
    row_others : (other : Uuid) → other ≢ i.host_id → system_row other t ≡ system_row other old
    gpus_others : (other : Uuid) → other ≢ i.host_id → gpus_of other t.gpus ≡ gpus_of other old.gpus

  module _ (not_negative : ℕ → Bool) (now : ℕ) where
    upserted :
        (t : Tables)
        → upsert_system_row not_negative i now old ≡ some t
        → ((r : SystemRow) × (system_row i.host_id t ≡ some r) × (r.value ≡ columns i))
          × ((other : Uuid) → other ≢ i.host_id → system_row other t ≡ system_row other old)
          × (t.gpus ≡ old.gpus)
    unfolding upsert_system_row system_row
    upserted t e =
        let held = any (λ (r : SystemRow). r.value.host_id == i.host_id) old.system_infos in
        let renew : SystemRow → SystemRow =
          λ r. record { value = columns i; created_at = r.created_at; updated_at = now } in
        let row : SystemRow = record { value = columns i; created_at = now; updated_at = now } in
        elim (Bool-cases held) [
          | inl present ↦
              let renewed =
                update_rows (λ (r : SystemRow). r.value.host_id == i.host_id) renew
                  old.system_infos in
              let next : t ≡ record old { system_infos = renewed } = ground arith in
              let (r, got) = found-update i.host_id renew (λ r. refl) old.system_infos present in
              rw next (
                (renew r, got, refl),
                λ other h. found-update_other i.host_id renew (λ r. refl) other old.system_infos h,
                refl,
              )
          | inr absent ↦
              let next : t ≡ record old { system_infos = old.system_infos ++ row ∷ [] } =
                ground arith in
              rw next (
                (row, found-append i.host_id old.system_infos row absent refl, refl),
                λ other h. found-append_other i.host_id other old.system_infos row h,
                refl,
              )
        ]

    upsert-clear-Written :
        (t t' : Tables)
        → upsert_system_row not_negative i now old ≡ some t
        → clear_gpus i.host_id t ≡ some t'
        → Written i.gpus 0 t'
    unfolding clear_gpus system_row
    upsert-clear-Written t t' e c =
        let (row, others, same) = upserted t e in
        let next : t'
            ≡ record t { gpus = delete_rows (λ (g : GpuRow). g.host_id == i.host_id) t.gpus } =
          ground arith in
        rw next (record {
          row = row;
          gpus = ap (λ gs. gs ++ numbered i.host_id 0 i.gpus) (gpus_of-cleared i.host_id t.gpus);
          row_others = others;
          gpus_others =
              λ other h. gpus_of-others i.host_id other t.gpus h ∙ ap (gpus_of other) same;
        })

  insert_gpu-Written :
      (name : Text) (names : List Text) (k : ℕ) (t t' : Tables)
      → Written (name ∷ names) k t
      → insert_gpu i.host_id k name t ≡ some t'
      → Written names (k + 1) t'
  unfolding insert_gpu system_row
  insert_gpu-Written name names k t t' w e =
      let g : GpuRow = record { host_id = i.host_id; position = k; name = name } in
      let next : t' ≡ record t { gpus = t.gpus ++ g ∷ [] } = ground arith in
      let own : gpus_of i.host_id (g ∷ []) ≡ g ∷ [] = ground arith in
      rw next (record {
        row = w.row;
        gpus =
            ap (λ gs. gs ++ numbered i.host_id (k + 1) names)
              (gpus_of-append i.host_id t.gpus (g ∷ [])
                ∙ ap (λ r. gpus_of i.host_id t.gpus ++ r) own)
            ∙ append_assoc (gpus_of i.host_id t.gpus) (g ∷ []) (numbered i.host_id (k + 1) names)
            ∙ w.gpus;
        row_others = w.row_others;
        gpus_others = λ other h.
            gpus_of-append other t.gpus (g ∷ [])
            ∙ ground (arith, append-nil (gpus_of other t.gpus))
            ∙ w.gpus_others other h;
      })

  insert_gpus-Written :
      (names : List Text) (k : ℕ) (s : Inventory) {x : Unit {0}}
      → Written names k s.tables
      → (insert_gpus i.host_id k names s).0 ≡ ok x
      → (n : ℕ) × Written [] n (insert_gpus i.host_id k names s).1.tables
  unfolding insert_gpus pure
  insert_gpus-Written [] k s w e = (k, w)
  insert_gpus-Written (name ∷ names) k s w e =
      let (x, got, rest) = >>=-ok (exec (insert_gpu i.host_id k name)) _ s e in
      let t = (exec (insert_gpu i.host_id k name) s).1 in
      let w' = insert_gpu-Written name names k s.tables t.tables w (exec-ok _ s got).0 in
      let (n, done) = insert_gpus-Written names (k + 1) t w' (ap (λ r. r.0) (sym rest) ∙ e) in
      (n, subst (λ (r : Result (Unit {0}) × Inventory). Written [] n r.1.tables) (sym rest) done)

get_system_info-ok :
    (host_id : Uuid) (s : Inventory) {v : SystemInfo}
    → (get_system_info host_id s).0 ≡ ok v
    → (r : SystemRow) × (system_row host_id s.tables ≡ some r)
      × (v ≡ record r.value { gpus = gpu_names host_id s.tables })
      × ((get_system_info host_id s).1.tables ≡ s.tables)
unfolding get_system_info pure
get_system_info-ok host_id s {v} e =
    let (row, got, first) = >>=-ok (query_row (system_row host_id)) _ s e in
    let t = (query_row (system_row host_id) s).1 in
    let read = query_row-Frame (system_row host_id) s in
    let (names, got', second) =
      >>=-ok (query (gpu_names host_id)) _ t (ap (λ r. r.0) (sym first) ∙ e) in
    let read' = query-Frame (gpu_names host_id) t in
    (
      row,
      query_row-ok (system_row host_id) s got,
      let same : ok v ≡ ok (record row.value { gpus = names }) =
            sym e ∙ ap (λ r. r.0) (first ∙ second) in
          let value : v ≡ record row.value { gpus = names } = cc in
          value
          ∙ ap (λ n. record row.value { gpus = n })
              (query-ok (gpu_names host_id) t got' ∙ ap (gpu_names host_id) read.tables),
      ap (λ r. r.1.tables) (first ∙ second) ∙ read'.tables ∙ read.tables,
    )

abbrev with_gpus : List Text → SystemInfo → SystemInfo
with_gpus names i = record i { gpus = names }

-- What the two tables hold of a host.
abbrev pub stored : Uuid → Tables → Option SystemInfo
stored host_id t =
    Option.map (λ (r : SystemRow). with_gpus (gpu_names host_id t) r.value) (system_row host_id t)

module _ (i : SystemInfo) (old : Tables) where
  Written-names : (k : ℕ) (t : Tables) → Written i old [] k t → gpu_names i.host_id t ≡ i.gpus
  unfolding gpu_names
  Written-names k t w =
      let gpus = sym (append-nil (gpus_of i.host_id t.gpus)) ∙ w.gpus in
      rw gpus (rw (sort_by-numbered i.host_id 0 i.gpus) (map-numbered i.host_id 0 i.gpus))

  Written-stored : (k : ℕ) (t : Tables) → Written i old [] k t → stored i.host_id t ≡ some i
  Written-stored k t w =
      let (r, got, same) = w.row in
      ap (Option.map (λ (o : SystemRow). with_gpus (gpu_names i.host_id t) o.value)) got
      ∙ ap (λ (v : SystemInfo). some (with_gpus (gpu_names i.host_id t) v)) same
      ∙ ap (λ names. some (with_gpus names i)) (Written-names k t w)

  Written-others :
      (k : ℕ) (t : Tables) (other : Uuid)
      → Written i old [] k t
      → other ≢ i.host_id
      → stored other t ≡ stored other old
  unfolding gpu_names
  Written-others k t other w h =
      ap (Option.map (λ (o : SystemRow). with_gpus (gpu_names other t) o.value))
        (w.row_others other h)
      ∙ ap
          (λ gs.
            Option.map
              (λ (o : SystemRow).
                with_gpus (map (λ (g : GpuRow). g.name) (sort_by by_gpu_position gs)) o.value)
              (system_row other old))
          (w.gpus_others other h)

module _ (not_negative : ℕ → Bool) (i : SystemInfo) where
  body_stores :
      (s : Inventory) {v : SystemInfo}
      → (upsert_system_info_body not_negative i s).0 ≡ ok v
      → (k : ℕ) × Written i s.tables [] k (upsert_system_info_body not_negative i s).1.tables
        × (v ≡ i)
  unfolding upsert_system_info_body
  body_stores s {v} e0 =
      let (now, got1, rest1) = >>=-ok time_now _ s e0 in
      let s1 = (time_now s).1 in
      let e1 = ap (λ r. r.0) (sym rest1) ∙ e0 in
      let (x2, got2, rest2) = >>=-ok (exec (upsert_system_row not_negative i now)) _ s1 e1 in
      let s2 = (exec (upsert_system_row not_negative i now) s1).1 in
      let e2 = ap (λ r. r.0) (sym rest2) ∙ e1 in
      let (x3, got3, rest3) = >>=-ok (exec (clear_gpus i.host_id)) _ s2 e2 in
      let s3 = (exec (clear_gpus i.host_id) s2).1 in
      let e3 = ap (λ r. r.0) (sym rest3) ∙ e2 in
      let (x4, got4, rest4) = >>=-ok (insert_gpus i.host_id 0 i.gpus) _ s3 e3 in
      let s4 = (insert_gpus i.host_id 0 i.gpus s3).1 in
      let e4 = ap (λ r. r.0) (sym rest4) ∙ e3 in
      let start = (time_now-Frame s).tables in
      let written =
        upsert-clear-Written i s.tables not_negative now s2.tables s3.tables
          (subst (λ t. upsert_system_row not_negative i now t ≡ some s2.tables) start
            (exec-ok _ s1 got2).0)
          (exec-ok _ s2 got3).0 in
      let (k, w) = insert_gpus-Written i s.tables i.gpus 0 s3 written got4 in
      let (row, found_row, value, same) = get_system_info-ok i.host_id s4 e4 in
      let end = ap (λ r. r.1.tables) (rest1 ∙ rest2 ∙ rest3 ∙ rest4) ∙ same in
      let held : some v ≡ some i =
        ap some value
        ∙ sym (
            ap (Option.map (λ (o : SystemRow). with_gpus (gpu_names i.host_id s4.tables) o.value))
              found_row)
        ∙ Written-stored i s.tables k s4.tables w in
      (k, subst (λ t. Written i s.tables [] k t) (sym end) w, cc)

  -- An upsert of system information that succeeds returns exactly what it was given, GPUs in their
  -- order included; the tables then hold just that of the host, whatever they held of it before,
  -- and what they hold of every other host is unchanged.
  pub upsert_system_info-stored :
      (s : Inventory) (v : SystemInfo)
      → (upsert_system_info not_negative i s).0 ≡ ok v
      → (v ≡ i)
        × (stored i.host_id (upsert_system_info not_negative i s).1.tables ≡ some i)
        × ((other : Uuid)
            → other ≢ i.host_id
            → stored other (upsert_system_info not_negative i s).1.tables ≡ stored other s.tables)
  unfolding upsert_system_info
  upsert_system_info-stored s v e =
      let (t, frame, done, tables, published) =
        transaction-ok (upsert_system_info_body not_negative i) s e in
      let (k, w, same) = body_stores t done in
      (
        same,
        ap (stored i.host_id) tables ∙ Written-stored i t.tables k _ w,
        λ other h.
            ap (stored other) tables
            ∙ Written-others i t.tables k _ other w h
            ∙ ap (stored other) frame.tables,
      )
