-- ===== src/Host/SnapshotRepository/Bounded.antt =====
-- `CreateHostMetricSnapshot` keeps the number of snapshots of every host within its limit.
use hosthalla.Base.{
  ℕ, ◌+◌, ◌≤◌, ◌<◌, ◌≢◌, ◌≡◌, Bool, List, [], ◌∷◌, ◌++◌, some, length, delete_rows, ◌==◌, nat_eq,
  arith, Bool-cases, inl, inr, ◌>>=◌, exec, driver, pure, All, query_row, query, eq_of_==,
  All-append,
}
use hosthalla.Base.Inversion.{
  Establishes, Establishes-bind, Establishes-exec, Establishes-Frame, transaction-keeps,
  driver-Frame, Frame,
}
use hosthalla.Model.{Uuid, Metric, Snapshot}
use hosthalla.Schema.{Tables, Inventory, SnapshotRow}
use hosthalla.Host.SnapshotRepository.{
  snapshots_of, kept_ids, prune_snapshots, insert_snapshot, insert_snapshot_id, insert_metric,
  insert_metrics, get_snapshot_by_id, load_metrics, create_snapshot, create_snapshot_body,
  max_snapshots_per_host,
}
use hosthalla.Host.SnapshotRepository.Retention.{
  DistinctRows, kept_ids-le, pigeonhole, All-delete, DistinctRows-select, DistinctRows-delete,
  left-Within, others_left, gone,
}

-- The primary key and the sequence behind it.
pub record HasKeys (t : Tables) : Type 0 where
  pub distinct : DistinctRows t.snapshots
  pub below : All (λ (r : SnapshotRow). r.id < t.next_snapshot) t.snapshots

abbrev pub IsCapped : Uuid → Tables → Type 0
IsCapped host_id t = length (snapshots_of host_id t.snapshots) ≤ max_snapshots_per_host

pub record IsBounded (t : Tables) : Type 0 where
  pub keys : HasKeys t
  pub capped : (host_id : Uuid) → IsCapped host_id t

-- Between the insert and the pruning, the host in hand may be over the limit.
record IsOpen (host_id : Uuid) (t : Tables) : Type 0 where
  keys : HasKeys t
  others : (other : Uuid) → other ≢ host_id → IsCapped other t

below_mono :
    (n : ℕ) (ss : List SnapshotRow)
    → All (λ (r : SnapshotRow). r.id < n) ss
    → All (λ (r : SnapshotRow). r.id < n + 1) ss
below_mono n [] h = tt
below_mono n (s ∷ ss) (p, h) = (omega arith, below_mono n ss h)

DistinctRows-append :
    (ss : List SnapshotRow) (r : SnapshotRow)
    → DistinctRows ss
    → All (λ (s : SnapshotRow). s.id < r.id) ss
    → DistinctRows (ss ++ r ∷ [])
DistinctRows-append [] r d h = (tt, tt)
DistinctRows-append (s ∷ ss) r (fresh, d) (p, h) = (
  All-append (λ (o : SnapshotRow). o.id ≢ s.id) ss (r ∷ []) fresh (omega arith, tt),
  DistinctRows-append ss r d h,
)

others-append :
    (other : Uuid) (ss : List SnapshotRow) (r : SnapshotRow)
    → other ≢ r.host_id
    → snapshots_of other (ss ++ r ∷ []) ≡ snapshots_of other ss
others-append other [] r h = ground arith
others-append other (s ∷ ss) r h = ground (arith, others-append other ss r h)

module _ (host_id : Uuid) where
  insert_snapshot-IsOpen :
      (timestamp : ℕ) (t t' : Tables)
      → IsBounded t
      → insert_snapshot host_id timestamp t ≡ some t'
      → IsOpen host_id t'
  unfolding insert_snapshot
  insert_snapshot-IsOpen timestamp t t' b e =
      let row : SnapshotRow = record {
        id = t.next_snapshot;
        host_id = host_id;
        timestamp = timestamp;
      } in
      let next : t'
          ≡ record t { snapshots = t.snapshots ++ row ∷ []; next_snapshot = t.next_snapshot + 1 } =
        ground arith in
      rw next (record {
        keys = record {
          distinct = DistinctRows-append t.snapshots row b.keys.distinct b.keys.below;
          below =
              All-append (λ (r : SnapshotRow). r.id < t.next_snapshot + 1) t.snapshots (row ∷ [])
                (below_mono t.next_snapshot t.snapshots b.keys.below) (omega arith, tt);
        };
        others = λ other h. rw (others-append other t.snapshots row h) (b.capped other);
      })

  same-IsOpen :
      (t t' : Tables)
      → t'.snapshots ≡ t.snapshots
      → t'.next_snapshot ≡ t.next_snapshot
      → IsOpen host_id t
      → IsOpen host_id t'
  same-IsOpen t t' snapshots next b = record {
    keys = record {
      distinct = rw snapshots b.keys.distinct;
      below = rw (snapshots, next) b.keys.below;
    };
    others = λ other h. rw snapshots (b.others other h);
  }

  insert_metric-IsOpen :
      (not_negative : ℕ → Bool) (id position : ℕ) (m : Metric) (t t' : Tables)
      → IsOpen host_id t
      → insert_metric not_negative id position m t ≡ some t'
      → IsOpen host_id t'
  unfolding insert_metric
  insert_metric-IsOpen not_negative id position m t t' b e =
      same-IsOpen t t' (ground arith) (ground arith) b

  pruned-snapshots :
      (t t' : Tables)
      → prune_snapshots host_id t ≡ some t'
      → (t'.snapshots ≡ delete_rows (gone host_id (kept_ids host_id t)) t.snapshots)
        × (t'.next_snapshot ≡ t.next_snapshot)
  unfolding prune_snapshots
  pruned-snapshots t t' e = (ground arith, ground arith)

  left_capped :
      (keep : List ℕ) (ss : List SnapshotRow)
      → DistinctRows ss
      → length (snapshots_of host_id (delete_rows (gone host_id keep) ss)) ≤ length keep
  left_capped keep ss d =
      let left = delete_rows (gone host_id keep) ss in
      pigeonhole keep (snapshots_of host_id left)
        (DistinctRows-select (λ s. s.host_id == host_id) left
          (DistinctRows-delete (gone host_id keep) ss d))
        (left-Within host_id keep ss)

  prune_snapshots-IsBounded :
      (t t' : Tables) → IsOpen host_id t → prune_snapshots host_id t ≡ some t' → IsBounded t'
  prune_snapshots-IsBounded t t' b e =
      let keep = kept_ids host_id t in
      let (left, next) = pruned-snapshots t t' e in
      record {
        keys = record {
          distinct = rw left (DistinctRows-delete (gone host_id keep) t.snapshots b.keys.distinct);
          below =
              rw (left, next)
                (All-delete (gone host_id keep) (λ (r : SnapshotRow). r.id < t.next_snapshot)
                  t.snapshots b.keys.below);
        };
        capped = λ other. rw left (elim (Bool-cases (other == host_id)) [
          | inl own ↦
              rw (eq_of_== other host_id own)
                (omega (arith, left_capped keep t.snapshots b.keys.distinct, kept_ids-le host_id t))
          | inr foreign ↦
              let differs : other ≢ host_id = ground arith in
              rw (others_left host_id keep other t.snapshots differs) (b.others other differs)
        ]);
      }

  insert_metrics-IsOpen :
      (not_negative : ℕ → Bool) (id position : ℕ) (ms : List Metric)
      → Establishes {S = Inventory}
          (λ s. IsOpen host_id s.tables)
          (λ s. IsOpen host_id s.tables)
          (insert_metrics not_negative id position ms)
  unfolding insert_metrics pure
  insert_metrics-IsOpen not_negative id position [] = record { result = λ s b e. b }
  insert_metrics-IsOpen not_negative id position (m ∷ ms) =
      Establishes-bind (exec (insert_metric not_negative id position m)) _
        (Establishes-exec _ (insert_metric-IsOpen not_negative id position m))
        λ _. insert_metrics-IsOpen not_negative id (position + 1) ms

insert_snapshot_id-IsOpen :
    (snapshot : Snapshot)
    → Establishes {S = Inventory}
        (λ s. IsBounded s.tables)
        (λ s. IsOpen snapshot.host_id s.tables)
        (insert_snapshot_id snapshot)
unfolding insert_snapshot_id pure
insert_snapshot_id-IsOpen snapshot = record {
  result = λ s b e.
      (Establishes-bind (exec (insert_snapshot snapshot.host_id snapshot.timestamp)) _
          (Establishes-exec _ (insert_snapshot-IsOpen snapshot.host_id snapshot.timestamp))
          λ _.
            Establishes-bind driver _
              (Establishes-Frame (IsOpen snapshot.host_id) driver driver-Frame)
              λ _. record { result = λ t o e'. o }).result
        s b e;
}

get_snapshot_by_id-Frame : (id : ℕ) (s : Inventory) → Frame s (get_snapshot_by_id id s).1
unfolding get_snapshot_by_id load_metrics query_row query driver ◌>>=◌ pure
get_snapshot_by_id-Frame id s = ground arith

create_snapshot_body-IsBounded :
    (not_negative : ℕ → Bool) (snapshot : Snapshot)
    → Establishes {S = Inventory}
        (λ s. IsBounded s.tables)
        (λ s. IsBounded s.tables)
        (create_snapshot_body not_negative snapshot)
unfolding create_snapshot_body
create_snapshot_body-IsBounded not_negative snapshot =
    Establishes-bind (insert_snapshot_id snapshot) _ (insert_snapshot_id-IsOpen snapshot) λ id.
      Establishes-bind (insert_metrics not_negative id 0 snapshot.metrics) _
        (insert_metrics-IsOpen snapshot.host_id not_negative id 0 snapshot.metrics)
        λ _.
          Establishes-bind (exec (prune_snapshots snapshot.host_id)) _
            (Establishes-exec _ (prune_snapshots-IsBounded snapshot.host_id))
            λ _. Establishes-Frame IsBounded (get_snapshot_by_id id) (get_snapshot_by_id-Frame id)

-- Whether it succeeds or fails, `CreateHostMetricSnapshot` keeps the identifiers of the snapshots
-- different and below the table's sequence, and every host at 500 snapshots or fewer.
pub create_snapshot-IsBounded :
    (not_negative : ℕ → Bool) (snapshot : Snapshot) (s : Inventory)
    → IsBounded s.tables
    → IsBounded (create_snapshot not_negative snapshot s).1.tables
unfolding create_snapshot
create_snapshot-IsBounded not_negative snapshot s b =
    transaction-keeps IsBounded (create_snapshot_body not_negative snapshot) s
      (create_snapshot_body-IsBounded not_negative snapshot) b
