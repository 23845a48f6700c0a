-- ===== src/Cloud/Sync/Foreign.antt =====
-- cloud-sync.service.ts, `ingest`: what its three tests of the devices find.
use mathlib.Core.List.{Memᴰ}
use eventcommerce_os.Base.{
  ◌≡◌, ◌⊎◌, refl, String, none, some, true, List, [], ◌∷◌, ◌++◌, map, includes, ◌==◌, ◌!=◌,
  string_eq, option_eq, find, ok, arith, Bool, Bool-cases, Option-cases, inl, inr, ==_iff, Option,
  sym,
}
use eventcommerce_os.Contracts.{SyncEventEnvelope, DeviceCloudStatus, EdgeCloudBatch}
use eventcommerce_os.Cloud.Sync.Tables.{
  EdgeSyncIdentity, RosterRow, DeviceStateRow, CloudEventRow, CloudSyncDb,
}
use eventcommerce_os.Cloud.Sync.{
  devices_of, differs, other_roster, other_state, other_event, check_claims,
}
use eventcommerce_os.Cloud.Sync.Scopes.{
  IsOther, IsElsewhere, by_roster, by_telemetry, by_event, Mentions, in_event, in_status,
}

pub member_of_find {ℓ} :
    {A : Type ℓ} (p : A → Bool) (xs : List A) {x : A}
    → find p xs ≡ some x
    → Memᴰ x xs × (p x ≡ true)
member_of_find p [] h = absurd (ground arith)
member_of_find p (y ∷ ys) {x} h = elim (Bool-cases (p y)) [
  | inl here ↦ let same : y ≡ x = ground arith in (Memᴰ.head (sym same), rw same at here)
  | inr other ↦ let (m, holds) = member_of_find p ys {x = x} (ground arith) in (Memᴰ.tail m, holds)
]

member_of_includes :
    {A : Type 0} (key : A → String) (xs : List A) {id : String}
    → includes id (map key xs) ≡ true
    → (x : A) × Memᴰ x xs × (key x ≡ id)
member_of_includes key [] h = absurd (ground arith)
member_of_includes key (x ∷ xs) {id} h = elim (Bool-cases (key x == id)) [
  | inl here ↦ (x, Memᴰ.head refl, (==_iff (key x) id).0 here)
  | inr other ↦
      let (y, m, e) = member_of_includes key xs {id = id} (ground arith) in (y, Memᴰ.tail m, e)
]

includes_cases :
    (id : String) (xs ys : List String)
    → includes id (xs ++ ys) ≡ true
    → (includes id xs ≡ true) ⊎ (includes id ys ≡ true)
includes_cases id [] ys h = inr h
includes_cases id (x ∷ xs) ys h = elim (Bool-cases (x == id)) [
  | inl here ↦ inl (ground arith)
  | inr other ↦ elim (includes_cases id xs ys (ground arith)) [
    | inl e ↦ inl (ground arith)
    | inr e ↦ inr e
  ]
]

includes-Mentions :
    (batch : EdgeCloudBatch) (device : String)
    → includes device (devices_of batch) ≡ true
    → Mentions batch device
includes-Mentions batch device h =
    elim (includes_cases device (map (λ (e : SyncEventEnvelope). e.device_id) batch.events) _ h) [
      | inl e ↦
          let (event, m, same) =
            member_of_includes (λ (e : SyncEventEnvelope). e.device_id) batch.events e in
          in_event event m same
      | inr e ↦
          let (status, m, same) =
            member_of_includes (λ (s : DeviceCloudStatus). s.device_id) batch.device_statuses e in
          in_status status m same
    ]

pub differs-IsOther :
    (value : Option String) (own : String) → differs value own ≡ true → IsOther value own
differs-IsOther none own h = absurd (ground arith)
differs-IsOther (some a) own h = (a, refl, λ e. ground arith)

-- what the code says of a batch: it speaks of a device that belongs to another edge's scope
abbrev pub IsForeign : EdgeCloudBatch → EdgeSyncIdentity → CloudSyncDb → Type 0
IsForeign batch identity db =
    (device : String) × Mentions batch device × IsElsewhere identity device db

other_roster-IsForeign :
    (batch : EdgeCloudBatch) (identity : EdgeSyncIdentity) (db : CloudSyncDb) {row : RosterRow}
    → find (other_roster identity (devices_of batch)) db.roster ≡ some row
    → IsForeign batch identity db
other_roster-IsForeign batch identity db {row} h =
    let (m, holds) = member_of_find (other_roster identity (devices_of batch)) db.roster h in
    (
      row.device_id,
      includes-Mentions batch row.device_id (ground arith),
      by_roster row m refl (elim (Bool-cases (row.organisation_id != identity.organisation_id)) [
        | inl e ↦ inl (λ same. ground arith)
        | inr e ↦ inr (λ same. ground arith)
      ]),
    )

other_state-IsForeign :
    (batch : EdgeCloudBatch) (identity : EdgeSyncIdentity) (db : CloudSyncDb) {row : DeviceStateRow}
    → find (other_state identity (devices_of batch)) db.device_states ≡ some row
    → IsForeign batch identity db
other_state-IsForeign batch identity db {row} h =
    let (m, holds) = member_of_find (other_state identity (devices_of batch)) db.device_states h in
    (
      row.device_id,
      includes-Mentions batch row.device_id (ground arith),
      by_telemetry row m refl
          (elim (Bool-cases (differs row.organisation_id identity.organisation_id)) [
            | inl e ↦ inl (differs-IsOther row.organisation_id identity.organisation_id e)
            | inr e ↦ inr (differs-IsOther row.edge_id identity.edge_id (ground arith))
          ]),
    )

other_event-IsForeign :
    (batch : EdgeCloudBatch) (identity : EdgeSyncIdentity) (db : CloudSyncDb) {row : CloudEventRow}
    → find (other_event identity (devices_of batch)) db.events ≡ some row
    → IsForeign batch identity db
other_event-IsForeign batch identity db {row} h =
    let (m, holds) = member_of_find (other_event identity (devices_of batch)) db.events h in
    (
      row.envelope.device_id,
      includes-Mentions batch row.envelope.device_id (ground arith),
      by_event row m refl
          ((==_iff row.organisation_id (some identity.organisation_id)).0 (ground arith))
          (differs-IsOther row.edge_id identity.edge_id (ground arith)),
    )

-- The three tests pass, or a device is another's.
pub check_claims-cases :
    (batch : EdgeCloudBatch) (identity : EdgeSyncIdentity) (db : CloudSyncDb)
    → (check_claims identity (devices_of batch) db ≡ ok tt) ⊎ IsForeign batch identity db
unfolding check_claims
check_claims-cases batch identity db =
    elim (Option-cases (find (other_roster identity (devices_of batch)) db.roster)) [
      | inr (x, e) ↦ inr (other_roster-IsForeign batch identity db e)
      | inl e₁ ↦
          elim (Option-cases (find (other_state identity (devices_of batch)) db.device_states)) [
            | inr (x, e) ↦ inr (other_state-IsForeign batch identity db e)
            | inl e₂ ↦
                elim (Option-cases (find (other_event identity (devices_of batch)) db.events)) [
                  | inr (x, e) ↦ inr (other_event-IsForeign batch identity db e)
                  | inl e₃ ↦ inl (rw (e₁, e₂, e₃) refl)
                ]
          ]
    ]
