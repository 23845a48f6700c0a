-- ===== src/Cloud/Sync/Telemetry.antt =====
-- cloud-sync.service.ts, `ingest`: the loop over the devices' statuses, and whose telemetry it meets.
use mathlib.Core.Path.{subst}
use mathlib.Core.List.{Memᴰ}
use mathlib.Core.List.Memᴰ
use eventcommerce_os.Base.{
  ◌≡◌, ◌⊎◌, conflict, refl, String, none, some, true, List, [], ◌∷◌, ◌||◌, string_eq, option_eq,
  find, ok, err, arith, Bool, Bool-cases, Option-cases, Result-cases, inl, inr, ==_iff, Option,
  update_where,
}
use eventcommerce_os.Base.Int.{fits_integer}
use eventcommerce_os.Contracts.{DeviceCloudStatus}
use eventcommerce_os.Cloud.Sync.Tables.{EdgeSyncIdentity, DeviceStateRow, CloudSyncDb}
use eventcommerce_os.Cloud.Sync.{
  differs, keep_statuses, keep_status, upsert_device, is_device, device_row, update_device,
}
use eventcommerce_os.Cloud.Sync.Scopes.{IsOther}
use eventcommerce_os.Cloud.Sync.Foreign.{member_of_find, differs-IsOther}

-- a row of the telemetry is another scope's
abbrev pub OfOthers : EdgeSyncIdentity → DeviceStateRow → Type 0
OfOthers identity row =
    IsOther row.organisation_id identity.organisation_id ⊎ IsOther row.edge_id identity.edge_id

others_of_differs :
    (identity : EdgeSyncIdentity) (row : DeviceStateRow)
    → (differs row.organisation_id identity.organisation_id || differs row.edge_id identity.edge_id)
      ≡ true
    → OfOthers identity row
others_of_differs identity row h =
    elim (Bool-cases (differs row.organisation_id identity.organisation_id)) [
      | inl e ↦ inl (differs-IsOther row.organisation_id identity.organisation_id e)
      | inr e ↦ inr (differs-IsOther row.edge_id identity.edge_id (ground arith))
    ]

own_scope :
    (identity : EdgeSyncIdentity) (row : DeviceStateRow)
    → row.organisation_id ≡ some identity.organisation_id
    → row.edge_id ≡ some identity.edge_id
    → ¬ OfOthers identity row
own_scope identity row o e (inl (other, same, n)) = absurd (ground arith)
own_scope identity row o e (inr (other, same, n)) = absurd (ground arith)

member_of_update_where {ℓ} :
    {A : Type ℓ} (p : A → Bool) (f : A → A) (x : A) (xs : List A)
    → Memᴰ x (update_where p f xs)
    → Memᴰ x xs ⊎ ((y : A) × (x ≡ f y))
member_of_update_where p f x [] m = absurd (Memᴰ.not-nil m)
member_of_update_where p f x (y ∷ ys) m = elim (Bool-cases (p y)) [
  | inl here ↦ elim (Memᴰ.cases_cons (rw here at m)) [
    | inl e ↦ inr (y, e)
    | inr rest ↦ elim (member_of_update_where p f x ys rest) [
      | inl m' ↦ inl (Memᴰ.tail m')
      | inr made ↦ inr made
    ]
  ]
  | inr other ↦ elim (Memᴰ.cases_cons (rw other at m)) [
    | inl e ↦ inl (Memᴰ.head e)
    | inr rest ↦ elim (member_of_update_where p f x ys rest) [
      | inl m' ↦ inl (Memᴰ.tail m')
      | inr made ↦ inr made
    ]
  ]
]

-- the rows of other scopes were there before
abbrev Inherits : EdgeSyncIdentity → List DeviceStateRow → List DeviceStateRow → Type 0
Inherits identity before after =
    (row : DeviceStateRow) → Memᴰ row after → OfOthers identity row → Memᴰ row before

-- What the writing of one status does to the telemetry: it only brings in rows of its own scope, and
-- it is a conflict only where the device's row is another scope's.
upsert_device-Inherits :
    (status : DeviceCloudStatus) (identity : EdgeSyncIdentity) (there : Option DeviceStateRow)
    (db : CloudSyncDb) {db' : CloudSyncDb}
    → upsert_device status identity there db ≡ ok db'
    → Inherits identity db.device_states db'.device_states
unfolding upsert_device
upsert_device-Inherits status identity none db {db'} h row m others =
    let same : db'.device_states ≡ device_row status identity ∷ db.device_states = ground arith in
    elim (Memᴰ.cases_cons (subst (Memᴰ row) same m)) [
      | inl e ↦ absurd (own_scope identity row (rw e refl) (rw e refl) others)
      | inr old ↦ old
    ]
upsert_device-Inherits status identity (some there) db {db'} h row m others =
    let same : db'.device_states
        ≡ update_where (is_device status.device_id) (update_device status identity)
            db.device_states =
      ground arith in
    elim (member_of_update_where (is_device status.device_id) (update_device status identity) row
      db.device_states (subst (Memᴰ row) same m)) [
        | inl old ↦ old
        | inr (y, e) ↦ absurd (own_scope identity row (rw e refl) (rw e refl) others)
      ]

keep_status-Inherits :
    (status : DeviceCloudStatus) (identity : EdgeSyncIdentity) (db : CloudSyncDb)
    {db' : CloudSyncDb}
    → keep_status status identity db ≡ ok db'
    → Inherits identity db.device_states db'.device_states
unfolding keep_status
keep_status-Inherits status identity db h =
    elim (Bool-cases (fits_integer status.edge_backlog_count)) [
      | inl fits ↦
          upsert_device-Inherits status identity
            (find (is_device status.device_id) db.device_states) db (rw fits at h)
      | inr bad ↦ absurd (ground arith)
    ]

-- a status whose device's row is another scope's
abbrev pub IsClash : EdgeSyncIdentity → List DeviceStateRow → DeviceCloudStatus → Type 0
IsClash identity rows status =
    (row : DeviceStateRow) × Memᴰ row rows
    × (row.device_id ≡ status.device_id)
    × OfOthers identity row

keep_status-IsClash :
    (status : DeviceCloudStatus) (identity : EdgeSyncIdentity) (db : CloudSyncDb) {message : String}
    → keep_status status identity db ≡ err (conflict message)
    → IsClash identity db.device_states status
unfolding keep_status upsert_device
keep_status-IsClash status identity db h =
    elim (Option-cases (find (is_device status.device_id) db.device_states)) [
      | inl e ↦ absurd (ground arith)
      | inr (row, e) ↦
          let (m, same) = member_of_find (is_device status.device_id) db.device_states e in
          (
            row,
            m,
            (==_iff row.device_id status.device_id).0 same,
            others_of_differs identity row (ground arith),
          )
    ]

pub keep_statuses-IsClash :
    (statuses : List DeviceCloudStatus) (identity : EdgeSyncIdentity) (db : CloudSyncDb)
    {message : String}
    → keep_statuses statuses identity db ≡ err (conflict message)
    → (status : DeviceCloudStatus) × Memᴰ status statuses × IsClash identity db.device_states status
unfolding keep_statuses
keep_statuses-IsClash [] identity db h = absurd (ground arith)
keep_statuses-IsClash (status ∷ statuses) identity db {message} h =
    elim (Result-cases (keep_status status identity db)) [
      | inr (x, e) ↦ (
        status,
        Memᴰ.head refl,
        keep_status-IsClash status identity db {message = message} (ground arith),
      )
      | inl (mid, e) ↦
          let (late, m, (row, there, same, others)) =
            keep_statuses-IsClash statuses identity mid {message = message} (rw e at h) in
          (
            late,
            Memᴰ.tail m,
            (row, keep_status-Inherits status identity db e row there others, same, others),
          )
    ]
