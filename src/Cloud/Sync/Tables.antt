-- ===== src/Cloud/Sync/Tables.antt =====
-- apps/cloud-api/src/sync/cloud-sync.service.ts: the tables of the synchronisation (migrations 0002 to
-- 0004, 0009, 0010, 0012 and 0022). The columns of a processed event are the fields of its envelope; the
-- JSON text of an order's lines is their list.
use eventcommerce_os.Base.{
  ℕ, ◌+◌, String, Option, some, Bool, List, ◌∷◌, ◌==◌, string_eq, nat_eq, option_eq, ◌&&◌,
}
use eventcommerce_os.Contracts.{SyncEventEnvelope}
use eventcommerce_os.Cloud.Sync.Payload.{OrderLineProjection}

pub record EdgeSyncIdentity : Type 0 where
  pub edge_id : String
  pub organisation_id : String

-- cloud_pos_device_roster, sync_device_state
pub record RosterRow : Type 0 where
  pub device_id : String
  pub edge_id : String
  pub organisation_id : String

pub record DeviceStateRow : Type 0 where
  pub device_id : String
  pub last_seen_at : ℕ
  pub last_sequence_seen : ℕ
  pub edge_accepted_through_sequence : ℕ
  pub edge_backlog_count : ℕ
  pub last_cloud_delivery_at : Option ℕ
  pub edge_id : Option String
  pub organisation_id : Option String

pub record CloudEventRow : Type 0 where
  pub envelope : SyncEventEnvelope
  pub edge_id : Option String
  pub organisation_id : Option String
  pub received_at : ℕ

pub record OrderStateRow : Type 0 where
  pub order_id : String
  pub device_id : String
  pub last_sequence : ℕ
  pub state : String
  pub total_minor : ℕ
  pub currency : String
  pub event_id : String
  pub sales_location_id : Option String
  pub lines : List OrderLineProjection
  pub occurred_at : String
  pub close_method : Option String
  pub cashier_id : Option String
  pub updated_at : ℕ

-- the JSON text in `details`, by the values of its members
pub data CloudExceptionDetails : Type 0 where
  -- existingEdgeId, authenticatedEdgeId
  reused_instance : Option String → String → CloudExceptionDetails
  -- existingEventInstanceId, authenticatedEdgeId
  reused_sequence : String → String → CloudExceptionDetails
  -- reason
  invalid_order : String → CloudExceptionDetails
  -- the existing value and the incoming one
  differing : Option String → Option String → CloudExceptionDetails
  -- existingDeviceId
  other_device : String → CloudExceptionDetails
  -- currentState, incomingState, currentSequence
  regression : String → String → ℕ → CloudExceptionDetails

pub record CloudExceptionRow : Type 0 where
  pub id : String
  pub exception_type : String
  pub event_instance_id : String
  pub device_id : String
  pub aggregate_id : String
  pub details : CloudExceptionDetails

-- the tables, the values that `randomUUID` will return and how many it has, and `now()`
pub record CloudSyncDb : Type 0 where
  pub roster : List RosterRow
  pub device_states : List DeviceStateRow
  pub events : List CloudEventRow
  pub orders : List OrderStateRow
  pub exceptions : List CloudExceptionRow
  pub uuids : ℕ → String
  pub drawn : ℕ
  pub now : ℕ
  -- whether PostgreSQL takes the texts of an event for its columns: `occurred_at` as a timestamptz, the
  -- payload as jsonb, no NUL character, keys no longer than an index holds
  pub readable : SyncEventEnvelope → Bool

abbrev pub has_instance : String → CloudEventRow → Bool
has_instance id row = row.envelope.event_instance_id == id

abbrev pub has_sequence : String → String → ℕ → CloudEventRow → Bool
has_sequence organisation device sequence row =
    row.organisation_id == some organisation
    && row.envelope.device_id == device
    && row.envelope.sequence == sequence

abbrev pub is_order : String → OrderStateRow → Bool
is_order id row = row.order_id == id

unfoldable pub exception :
    String → SyncEventEnvelope → CloudExceptionDetails → CloudSyncDb → CloudSyncDb
exception type event details db = record db {
  exceptions =
      record {
        id = db.uuids db.drawn;
        exception_type = type;
        event_instance_id = event.event_instance_id;
        device_id = event.device_id;
        aggregate_id = event.aggregate_id;
        details = details;
      }
      ∷ db.exceptions;
  drawn = db.drawn + 1;
}
