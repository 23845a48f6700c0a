-- ===== src/Cloud/Sync/Tests.antt =====
-- cloud-sync.service.ts: the theorems at one order that is opened and closed.
use eventcommerce_os.Base.{
  ◌≡◌, ◌↔◌, string_eq, refl, true, String, String-discrete, Option-discrete, none, some, List, [],
  ◌∷◌, map, find, ok, IsOk, value, value_lem, ℕ,
}
use native.Mathlib.Decide.{ℕ_discrete}
use eventcommerce_os.Base.Int.{pos, fits_integer}
use eventcommerce_os.Base.Texts.{trim, trim_start, trim_end, is_currency_code}
use eventcommerce_os.Contracts.{
  integer, text, Members, empty, member, SyncEventEnvelope, DeviceCloudStatus, EdgeCloudBatch,
  EdgeCloudAck, duplicate, ReceiptStatus-discrete,
}
use eventcommerce_os.Cloud.Sync.Payload.{
  order_payload, order_state, currency_of, trimmed, optional_text, raw_lines, close_method_of,
}
use eventcommerce_os.Cloud.Sync.Tables.{
  EdgeSyncIdentity, CloudSyncDb, OrderStateRow, is_order, exception,
}
use eventcommerce_os.Cloud.Sync.Projection.{
  Outcome, safe_order_advance, apply_existing, apply_to, apply_parsed, apply_order,
}
use eventcommerce_os.Cloud.Sync.Events.{store, new_event, by_sequence, by_instance, process_event}
use eventcommerce_os.Cloud.Sync.{Outcomes, process_all, check_claims, keep_statuses, ingest}
use eventcommerce_os.Cloud.Sync.Orders.{Advances}
use eventcommerce_os.Cloud.Sync.Batches.{ingest-Advances}
use eventcommerce_os.Cloud.Sync.Once.{process_event_again, process_all_again, duplicate_of}
use eventcommerce_os.Cloud.Sync.Refusals.{IsRecorded, process_event-IsRecorded}
use eventcommerce_os.Cloud.Sync.Scopes.{IsConflict}
use eventcommerce_os.Cloud.Sync.Foreign.{IsForeign}
use eventcommerce_os.Cloud.Sync.Attributed.{ingest-IsConflict_iff}

abbrev payload : String → Members
payload state = member "currency" (text "KES") (
    member "eventId" (text " fest ") (
      member "orderId" (text "o1")
        (member "state" (text state) (member "totalMinor" (integer (pos 500)) empty))))

abbrev event : String → ℕ → String → SyncEventEnvelope
event id sequence state = record {
  event_instance_id = id;
  event_id = id;
  event_type = "ORDER_CLOSED_CASH";
  aggregate_type = "ORDER";
  aggregate_id = "o1";
  event_version = 1;
  device_id = "till";
  sequence = sequence;
  occurred_at = "2026-01-01T00:00:00.000Z";
  idempotency_key = id;
  payload = payload state;
}

abbrev own : EdgeSyncIdentity
own = record { edge_id = "edge"; organisation_id = "org" }

abbrev nothing : CloudSyncDb
nothing = record {
  roster = record { device_id = "bar"; edge_id = "other"; organisation_id = "org" } ∷ [];
  device_states = [];
  events = [];
  orders = [];
  exceptions = [];
  uuids = λ n. "uuid";
  drawn = 0;
  now = 1000;
  readable = λ e. true;
}

abbrev events_batch : List SyncEventEnvelope → EdgeCloudBatch
events_batch events = record { edge_id = "edge"; events = events; device_statuses = [] }

abbrev opening : EdgeCloudBatch
opening = events_batch (event "i1" 1 "OPEN" ∷ [])

opening-IsOk : IsOk (ingest opening own nothing)
unfolding ingest check_claims process_all keep_statuses process_event by_instance by_sequence
    new_event fits_integer String-discrete ℕ_discrete
opening-IsOk = tt

abbrev opened : EdgeCloudAck × CloudSyncDb
opened = value (ingest opening own nothing) opening-IsOk

abbrev the_order : OrderStateRow
the_order = record {
  order_id = "o1";
  device_id = "till";
  last_sequence = 1;
  state = "OPEN";
  total_minor = 500;
  currency = "KES";
  event_id = "fest";
  sales_location_id = none;
  lines = [];
  occurred_at = "2026-01-01T00:00:00.000Z";
  close_method = none;
  cashier_id = none;
  updated_at = 1000;
}

opened_orders : opened.1.orders ≡ the_order ∷ []
unfolding ingest check_claims process_all keep_statuses process_event by_instance by_sequence
    new_event store fits_integer String-discrete ℕ_discrete apply_order apply_parsed apply_to
    order_payload order_state currency_of is_currency_code trimmed trim trim_start trim_end
    optional_text raw_lines close_method_of Option-discrete
opened_orders = refl

-- the order is closed, and then a late event opens it again
abbrev closing : EdgeCloudBatch
closing = events_batch (event "i2" 2 "CLOSED" ∷ event "i3" 3 "OPEN" ∷ [])

abbrev one_open : CloudSyncDb
one_open = record nothing { orders = the_order ∷ [] }

closing-IsOk : IsOk (ingest closing own one_open)
unfolding ingest check_claims process_all keep_statuses process_event by_instance by_sequence
    new_event store fits_integer String-discrete ℕ_discrete apply_order apply_parsed apply_to
    order_payload order_state currency_of is_currency_code trimmed trim trim_start trim_end
    optional_text raw_lines close_method_of Option-discrete apply_existing safe_order_advance
closing-IsOk = tt

abbrev closed : EdgeCloudAck × CloudSyncDb
closed = value (ingest closing own one_open) closing-IsOk

closed_answer :
    (map (λ (r : OrderStateRow). r.state) closed.1.orders ≡ "CLOSED" ∷ [])
    × (closed.0.accepted_event_instance_ids ≡ "i2" ∷ [])
    × (closed.0.conflict_event_instance_ids ≡ "i3" ∷ [])
unfolding ingest check_claims process_all keep_statuses process_event by_instance by_sequence
    new_event store fits_integer String-discrete ℕ_discrete apply_order apply_parsed apply_to
    order_payload order_state currency_of is_currency_code trimmed trim trim_start trim_end
    optional_text raw_lines close_method_of Option-discrete apply_existing safe_order_advance
    exception ReceiptStatus-discrete
closed_answer = (refl, refl, refl)

abbrev telemetry : String → DeviceCloudStatus
telemetry device = record {
  device_id = device;
  last_seen_at = 900;
  last_sequence_seen = 3;
  edge_accepted_through_sequence = 3;
  edge_backlog_count = 0;
  last_cloud_delivery_at = none;
}

abbrev one_closed : CloudSyncDb
one_closed = record nothing { orders = record the_order { state = "CLOSED" } ∷ [] }

late-IsOk : IsOk (process_event (event "i3" 3 "OPEN") own one_closed)
unfolding process_event by_instance by_sequence new_event fits_integer String-discrete ℕ_discrete
late-IsOk = tt

abbrev late : Outcome
late = value (process_event (event "i3" 3 "OPEN") own one_closed) late-IsOk

single-IsOk : IsOk (process_all (event "i2" 2 "CLOSED" ∷ []) own one_open)
unfolding process_all process_event by_instance by_sequence new_event fits_integer String-discrete
    ℕ_discrete
single-IsOk = tt

abbrev single : Outcomes × CloudSyncDb
single = value (process_all (event "i2" 2 "CLOSED" ∷ []) own one_open) single-IsOk

ingest-Advances_example :
    (new : OrderStateRow) × (find (is_order "o1") closed.1.orders ≡ some new)
    × Advances the_order new
unfolding String-discrete
ingest-Advances_example =
    ingest-Advances closing own one_open "o1" the_order
      (value_lem (ingest closing own one_open) closing-IsOk) refl

ingest-IsConflict_iff_example :
    IsConflict (ingest (record opening { device_statuses = telemetry "bar" ∷ [] }) own nothing)
    ↔ IsForeign (record opening { device_statuses = telemetry "bar" ∷ [] }) own nothing
ingest-IsConflict_iff_example =
    ingest-IsConflict_iff (record opening { device_statuses = telemetry "bar" ∷ [] }) own nothing

process_event_again_example :
    process_event (event "i3" 3 "OPEN") own late.1 ≡ ok (duplicate, late.1)
unfolding String-discrete Option-discrete
process_event_again_example =
    process_event_again (event "i3" 3 "OPEN") own one_closed refl refl
      (value_lem (process_event (event "i3" 3 "OPEN") own one_closed) late-IsOk)

process_event-IsRecorded_example : IsRecorded (event "i3" 3 "OPEN") one_closed late
process_event-IsRecorded_example =
    process_event-IsRecorded (event "i3" 3 "OPEN") own one_closed
      (value_lem (process_event (event "i3" 3 "OPEN") own one_closed) late-IsOk)

process_all_again_example :
    process_all (event "i2" 2 "CLOSED" ∷ []) own single.1
    ≡ ok (map duplicate_of (event "i2" 2 "CLOSED" ∷ []), single.1)
unfolding process_all process_event by_instance by_sequence new_event store fits_integer
    String-discrete ℕ_discrete apply_order apply_parsed apply_to order_payload order_state
    currency_of is_currency_code trimmed trim trim_start trim_end optional_text raw_lines
    close_method_of Option-discrete apply_existing safe_order_advance exception
    ReceiptStatus-discrete
process_all_again_example =
    process_all_again (event "i2" 2 "CLOSED" ∷ []) own one_open
      (value_lem (process_all (event "i2" 2 "CLOSED" ∷ []) own one_open) single-IsOk) refl
