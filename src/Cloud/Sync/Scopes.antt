-- ===== src/Cloud/Sync/Scopes.antt =====
-- cloud-sync.service.ts, `ingest`: a batch that speaks of a device of another edge's scope is refused.
use mathlib.Core.List.{Memᴰ}
use mathlib.Core.List.Memᴰ
use eventcommerce_os.Base.{
  ◌≡◌, ◌≢◌, ◌⊎◌, any, conflict, refl, String, none, some, true, List, [], ◌∷◌, ◌++◌, map, includes,
  ◌==◌, ◌||◌, string_eq, option_eq, find, Result, err, arith, Bool, Option-cases, inl, inr, ==_iff,
  Option, ap, sym, ◌∙◌,
}
use eventcommerce_os.Base.Searching.{any_of_find-none}
use eventcommerce_os.Contracts.{SyncEventEnvelope, DeviceCloudStatus, EdgeCloudBatch}
use eventcommerce_os.Cloud.Sync.Tables.{
  EdgeSyncIdentity, RosterRow, DeviceStateRow, CloudEventRow, CloudSyncDb,
}
use eventcommerce_os.Cloud.Sync.{
  devices_of, differs, other_roster, other_state, other_event, check_claims, ingest,
}

abbrev pub IsConflict {ℓ} : {A : Type ℓ} → Result A → Type 0
IsConflict (err (conflict message)) = Unit
IsConflict _ = ⊥

-- The specification: an optional text that is there and is not one's own.
abbrev pub IsOther : Option String → String → Type 0
IsOther value own = (other : String) × (value ≡ some other) × (other ≢ own)

-- a device belongs to another edge or organisation: by the roster, by its telemetry, or by an event
-- of the organisation that another edge has sent
pub data IsElsewhere (identity : EdgeSyncIdentity) (device : String) (db : CloudSyncDb)
    : Type 0 where
  by_roster :
      (row : RosterRow)
      → Memᴰ row db.roster
      → row.device_id ≡ device
      → (row.organisation_id ≢ identity.organisation_id) ⊎ (row.edge_id ≢ identity.edge_id)
      → IsElsewhere identity device db
  by_telemetry :
      (row : DeviceStateRow)
      → Memᴰ row db.device_states
      → row.device_id ≡ device
      → IsOther row.organisation_id identity.organisation_id ⊎ IsOther row.edge_id identity.edge_id
      → IsElsewhere identity device db
  by_event :
      (row : CloudEventRow)
      → Memᴰ row db.events
      → row.envelope.device_id ≡ device
      → row.organisation_id ≡ some identity.organisation_id
      → IsOther row.edge_id identity.edge_id
      → IsElsewhere identity device db

-- a batch speaks of a device: in an event, or in a status
pub data Mentions (batch : EdgeCloudBatch) (device : String) : Type 0 where
  in_event :
      (event : SyncEventEnvelope)
      → Memᴰ event batch.events
      → event.device_id ≡ device
      → Mentions batch device
  in_status :
      (status : DeviceCloudStatus)
      → Memᴰ status batch.device_statuses
      → status.device_id ≡ device
      → Mentions batch device

-- The converse of a look-up: a member that passes a test is found.
any_of_member {ℓ} :
    {A : Type ℓ} (p : A → Bool) (x : A) (xs : List A) → Memᴰ x xs → p x ≡ true → any p xs ≡ true
any_of_member p x [] m h = absurd (Memᴰ.not-nil m)
any_of_member p x (y ∷ ys) (Memᴰ.head e) h = let h' : p y ≡ true = rw e at h in rw h' refl
any_of_member p x (y ∷ ys) (Memᴰ.tail m) h = ground (arith, any_of_member p x ys m h)

includes_of_member :
    {A : Type 0} (key : A → String) (x : A) (xs : List A) {id : String}
    → Memᴰ x xs
    → key x ≡ id
    → includes id (map key xs) ≡ true
includes_of_member key x [] m e = absurd (Memᴰ.not-nil m)
includes_of_member key x (y ∷ ys) {id} (Memᴰ.head e') e =
    let same : (key y == id) ≡ true = (==_iff (key y) id).1 (ap key (sym e') ∙ e) in rw same refl
includes_of_member key x (y ∷ ys) {id} (Memᴰ.tail m) e =
    ground (arith, includes_of_member key x ys {id = id} m e)

includes_before :
    (id : String) (xs ys : List String) → includes id xs ≡ true → includes id (xs ++ ys) ≡ true
includes_before id [] ys h = absurd (ground arith)
includes_before id (x ∷ xs) ys h = ground (arith, includes_before id xs ys)

includes_after :
    (id : String) (xs ys : List String) → includes id ys ≡ true → includes id (xs ++ ys) ≡ true
includes_after id [] ys h = h
includes_after id (x ∷ xs) ys h = ground (arith, includes_after id xs ys h)

-- What a batch speaks of is among the devices that are looked up.
includes-devices_of :
    (batch : EdgeCloudBatch) (device : String)
    → Mentions batch device
    → includes device (devices_of batch) ≡ true
includes-devices_of batch device (in_event event m e) =
    includes_before device (map (λ (e : SyncEventEnvelope). e.device_id) batch.events) _
      (includes_of_member (λ (e : SyncEventEnvelope). e.device_id) event batch.events m e)
includes-devices_of batch device (in_status status m e) =
    includes_after device (map (λ (e : SyncEventEnvelope). e.device_id) batch.events) _
      (includes_of_member (λ (s : DeviceCloudStatus). s.device_id) status batch.device_statuses m e)

differs_of_other :
    (value : Option String) (own : String) → IsOther value own → differs value own ≡ true
differs_of_other none own (other, e, n) = absurd (ground arith)
differs_of_other (some a) own (other, e, n) = ground arith

-- One of the three tests finds the row.
IsElsewhere-found :
    (identity : EdgeSyncIdentity) (device : String) (devices : List String) (db : CloudSyncDb)
    → includes device devices ≡ true
    → IsElsewhere identity device db
    → (any (other_roster identity devices) db.roster
        || any (other_state identity devices) db.device_states
        || any (other_event identity devices) db.events)
      ≡ true
IsElsewhere-found identity device devices db spoken (by_roster row m e other) =
    let found = any_of_member (other_roster identity devices) row db.roster m (ground arith) in
    rw found refl
IsElsewhere-found identity device devices db spoken (by_telemetry row m e other) =
    let found = any_of_member (other_state identity devices) row db.device_states m (
      ground (
        arith,
        differs_of_other row.organisation_id identity.organisation_id,
        differs_of_other row.edge_id identity.edge_id,
      )) in
    ground arith
IsElsewhere-found identity device devices db spoken (by_event row m e own other) =
    let found =
      any_of_member (other_event identity devices) row db.events m
        (ground (arith, differs_of_other row.edge_id identity.edge_id other)) in
    ground arith

refused_of_found :
    (batch : EdgeCloudBatch) (identity : EdgeSyncIdentity) (db : CloudSyncDb)
    → (any (other_roster identity (devices_of batch)) db.roster
        || any (other_state identity (devices_of batch)) db.device_states
        || any (other_event identity (devices_of batch)) db.events)
      ≡ true
    → IsConflict (ingest batch identity db)
unfolding ingest check_claims
refused_of_found batch identity db h =
    let devices = devices_of batch in
    elim (Option-cases (find (other_roster identity devices) db.roster)) [
      | inr (x, e) ↦ rw e tt
      | inl e₁ ↦ elim (Option-cases (find (other_state identity devices) db.device_states)) [
        | inr (x, e) ↦ rw (e₁, e) tt
        | inl e₂ ↦ elim (Option-cases (find (other_event identity devices) db.events)) [
          | inr (x, e) ↦ rw (e₁, e₂, e) tt
          | inl e₃ ↦ absurd (
              ground (
                arith,
                any_of_find-none (other_roster identity devices) db.roster e₁,
                any_of_find-none (other_state identity devices) db.device_states e₂,
                any_of_find-none (other_event identity devices) db.events e₃,
              ))
        ]
      ]
    ]

-- A batch that speaks of a device of another scope is refused.
pub ingest-IsConflict :
    (batch : EdgeCloudBatch) (identity : EdgeSyncIdentity) (db : CloudSyncDb) (device : String)
    → Mentions batch device
    → IsElsewhere identity device db
    → IsConflict (ingest batch identity db)
ingest-IsConflict batch identity db device spoken elsewhere = refused_of_found batch identity db (
    IsElsewhere-found identity device (devices_of batch) db
      (includes-devices_of batch device spoken) elsewhere)
