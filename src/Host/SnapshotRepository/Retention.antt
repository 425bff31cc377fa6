-- ===== src/Host/SnapshotRepository/Retention.antt =====
-- How many snapshots a host keeps.
use hosthalla.Base.{
  ℕ, suc, ◌≤◌, ◌≢◌, ◌≡◌, refl, ap, Bool, true, not, ◌&&◌, List, [], ◌∷◌, map, length, select_rows,
  delete_rows, contains, ◌==◌, nat_eq, if◌then◌else◌, arith, Bool-cases, inl, inr, length-take-le,
  All,
}
use hosthalla.Model.{Uuid}
use hosthalla.Schema.{Tables, SnapshotRow}
use hosthalla.Host.SnapshotRepository.{snapshots_of, kept_ids, max_snapshots_per_host}

length-map : (f : SnapshotRow → ℕ) (xs : List SnapshotRow) → length (map f xs) ≡ length xs
length-map f [] = refl
length-map f (x ∷ xs) = ap suc (length-map f xs)

pub kept_ids-le :
    (host_id : Uuid) (t : Tables) → length (kept_ids host_id t) ≤ max_snapshots_per_host
unfolding kept_ids
kept_ids-le host_id t = rw length-map (length-take-le max_snapshots_per_host _)

-- Identifiers of the rows are different: the table's primary key.
abbrev pub DistinctRows : List SnapshotRow → Type 0
DistinctRows [] = Unit
DistinctRows (s ∷ ss) = All (λ (r : SnapshotRow). r.id ≢ s.id) ss × DistinctRows ss

without : ℕ → List ℕ → List ℕ
without i [] = []
without i (k ∷ ks) = let rest = without i ks in if i == k then ks else k ∷ rest

length-without :
    (i : ℕ) (ks : List ℕ) → contains ks i ≡ true → length ks ≡ suc (length (without i ks))
unfolding without
length-without i [] h = cc
length-without i (k ∷ ks) h = ground (arith, length-without i ks)

contains-without :
    (i j : ℕ) (ks : List ℕ) → j ≢ i → contains ks j ≡ true → contains (without i ks) j ≡ true
unfolding without
contains-without i j [] h c = cc
contains-without i j (k ∷ ks) h c = ground (arith, contains-without i j ks h)

abbrev pub Within : List ℕ → List SnapshotRow → Type 0
Within keep = All (λ s. contains keep s.id ≡ true)

Within-without :
    (i : ℕ) (keep : List ℕ) (ss : List SnapshotRow)
    → All (λ (r : SnapshotRow). r.id ≢ i) ss
    → Within keep ss
    → Within (without i keep) ss
Within-without i keep [] h w = tt
Within-without i keep (s ∷ ss) (p, h) (q, w) =
    (contains-without i s.id keep p q, Within-without i keep ss h w)

-- Rows with different identifiers, all in a list, are no more than the list is long.
pub pigeonhole :
    (keep : List ℕ) (ss : List SnapshotRow)
    → DistinctRows ss
    → Within keep ss
    → length ss ≤ length keep
pigeonhole keep [] d w = omega arith
pigeonhole keep (s ∷ ss) (fresh, d) (here, w) = omega (
  arith,
  length-without s.id keep here,
  pigeonhole (without s.id keep) ss d (Within-without s.id keep ss fresh w),
)

module _ (p : SnapshotRow → Bool) where
  All-select :
      (P : SnapshotRow → Type 0) (ss : List SnapshotRow) → All P ss → All P (select_rows p ss)
  All-select P [] h = tt
  All-select P (s ∷ ss) (q, h) = elim (Bool-cases (p s)) [
    | inl hit ↦ rw hit (q, All-select P ss h)
    | inr miss ↦ rw miss (All-select P ss h)
  ]

  pub All-delete :
      (P : SnapshotRow → Type 0) (ss : List SnapshotRow) → All P ss → All P (delete_rows p ss)
  All-delete P [] h = tt
  All-delete P (s ∷ ss) (q, h) = elim (Bool-cases (p s)) [
    | inl hit ↦ rw hit (All-delete P ss h)
    | inr miss ↦ rw miss (q, All-delete P ss h)
  ]

  pub DistinctRows-select :
      (ss : List SnapshotRow) → DistinctRows ss → DistinctRows (select_rows p ss)
  DistinctRows-select [] d = tt
  DistinctRows-select (s ∷ ss) (fresh, d) = elim (Bool-cases (p s)) [
    | inl hit ↦
        rw hit (All-select (λ (r : SnapshotRow). r.id ≢ s.id) ss fresh, DistinctRows-select ss d)
    | inr miss ↦ rw miss (DistinctRows-select ss d)
  ]

  pub DistinctRows-delete :
      (ss : List SnapshotRow) → DistinctRows ss → DistinctRows (delete_rows p ss)
  DistinctRows-delete [] d = tt
  DistinctRows-delete (s ∷ ss) (fresh, d) = elim (Bool-cases (p s)) [
    | inl hit ↦ rw hit (DistinctRows-delete ss d)
    | inr miss ↦
        rw miss (All-delete (λ (r : SnapshotRow). r.id ≢ s.id) ss fresh, DistinctRows-delete ss d)
  ]

module _ (host_id : Uuid) (keep : List ℕ) where
  abbrev pub gone : SnapshotRow → Bool
  gone s = s.host_id == host_id && not (contains keep s.id)

  pub left-Within :
      (ss : List SnapshotRow) → Within keep (snapshots_of host_id (delete_rows gone ss))
  left-Within [] = tt
  left-Within (s ∷ ss) = elim (Bool-cases (s.host_id == host_id)) [
    | inl own ↦ elim (Bool-cases (contains keep s.id)) [
      | inl kept ↦ rw (own, kept) (rw own (kept, left-Within ss))
      | inr lost ↦ rw (own, lost) (left-Within ss)
    ]
    | inr foreign ↦ rw foreign (rw foreign (left-Within ss))
  ]

  pub others_left :
      (other : Uuid) (ss : List SnapshotRow)
      → other ≢ host_id
      → snapshots_of other (delete_rows gone ss) ≡ snapshots_of other ss
  others_left other [] h = refl
  others_left other (s ∷ ss) h = ground (arith, others_left other ss h)
