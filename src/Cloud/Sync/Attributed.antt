-- ===== src/Cloud/Sync/Attributed.antt =====
-- cloud-sync.service.ts, `ingest`: a batch is refused for its scope just where a device that it speaks
-- of belongs to another.
use mathlib.Core.Path.{subst}
use mathlib.Core.List.{Memᴰ}
use eventcommerce_os.Base.{◌↔◌, refl, string_eq, option_eq, arith, Result-cases, inl, inr}
use eventcommerce_os.Contracts.{EdgeCloudBatch}
use eventcommerce_os.Cloud.Sync.Tables.{EdgeSyncIdentity, CloudSyncDb}
use eventcommerce_os.Cloud.Sync.{ingest, process_all, keep_statuses}
use eventcommerce_os.Cloud.Sync.Scopes.{IsConflict, by_telemetry, in_status, ingest-IsConflict}
use eventcommerce_os.Cloud.Sync.Foreign.{IsForeign, check_claims-cases}
use eventcommerce_os.Cloud.Sync.Untouched.{
  conflict_of, process_all-KeepsStates, process_all-no_conflict,
}
use eventcommerce_os.Cloud.Sync.Telemetry.{keep_statuses-IsClash}

ingest-IsForeign :
    (batch : EdgeCloudBatch) (identity : EdgeSyncIdentity) (db : CloudSyncDb)
    → IsConflict (ingest batch identity db)
    → IsForeign batch identity db
unfolding ingest
ingest-IsForeign batch identity db refusal =
    let (message, h) = conflict_of (ingest batch identity db) refusal in
    elim (check_claims-cases batch identity db) [
      | inr foreign ↦ foreign
      | inl passed ↦ elim (Result-cases (process_all batch.events identity db)) [
        | inr (x, e) ↦
            absurd
              (process_all-no_conflict batch.events identity db {message = message} (ground arith))
        | inl ((outcomes, mid), e) ↦
            elim (Result-cases (keep_statuses batch.device_statuses identity mid)) [
              | inl (last, e') ↦ absurd (ground arith)
              | inr (x, e') ↦
                  let (status, m, (row, there, same, others)) =
                    keep_statuses-IsClash batch.device_statuses identity mid {message = message}
                      (ground arith) in
                  (
                    status.device_id,
                    in_status status m refl,
                    by_telemetry row
                        (subst (Memᴰ row) (process_all-KeepsStates batch.events identity db e)
                          there)
                        same others,
                  )
            ]
      ]
    ]

-- The cloud refuses a batch as a conflict exactly when it speaks, in an event or in a status, of a
-- device that belongs to another edge's scope: the device is another's where the roster attributes it
-- to another organisation or edge, where its telemetry does, or where another edge of the organisation
-- has sent one of its stored events. A conflict of a single event does not refuse its batch.
pub ingest-IsConflict_iff :
    (batch : EdgeCloudBatch) (identity : EdgeSyncIdentity) (db : CloudSyncDb)
    → IsConflict (ingest batch identity db) ↔ IsForeign batch identity db
ingest-IsConflict_iff batch identity db = (
  ingest-IsForeign batch identity db,
  λ foreign. ingest-IsConflict batch identity db foreign.0 foreign.1 foreign.2,
)
