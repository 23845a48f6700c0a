-- ===== src/Cloud/Sync/Projection.antt =====
-- apps/cloud-api/src/sync/cloud-sync.service.ts, `applyOrder`: an event of an order against the row of
-- the order.
use eventcommerce_os.Base.{
  ℕ, String, Option, none, some, Bool, false, not, ◌||◌, ◌∷◌, ◌==◌, ◌!=◌, string_eq, option_eq, leb,
  find, update_where, if◌then◌else◌, Result, ok, err, Failure, error, conflict, forbidden,
  not_found, database,
}
use eventcommerce_os.Contracts.{SyncEventEnvelope, ReceiptStatus, accepted, conflicting}
use eventcommerce_os.Cloud.Sync.Payload.{OrderProjectionPayload, order_payload}
use eventcommerce_os.Cloud.Sync.Tables.{
  OrderStateRow, CloudSyncDb, CloudExceptionDetails, invalid_order, differing, other_device,
  regression, is_order, exception,
}

unfoldable pub safe_order_advance : String → String → Bool
safe_order_advance current incoming =
    if current == "OPEN"
    then incoming == "OPEN" || incoming == "CLOSED"
    else if current == "CLOSED"
    then incoming == "CLOSED"
    else false

-- both are known, and they are not the same
abbrev pub clash : Option String → Option String → Bool
clash (some a) (some b) = a != b
clash _ _ = false

-- COALESCE(a, b)
abbrev pub coalesce : Option String → Option String → Option String
coalesce none b = b
coalesce (some a) b = some a

abbrev pub order_row : SyncEventEnvelope → OrderProjectionPayload → ℕ → OrderStateRow
order_row event payload now = record {
  order_id = event.aggregate_id;
  device_id = event.device_id;
  last_sequence = event.sequence;
  state = payload.state;
  total_minor = payload.total_minor;
  currency = payload.currency;
  event_id = payload.event_id;
  sales_location_id = payload.sales_location_id;
  lines = payload.lines;
  occurred_at = payload.occurred_at;
  close_method = payload.close_method;
  cashier_id = payload.cashier_id;
  updated_at = now;
}

-- the SET clause of the UPDATE
abbrev pub advance : SyncEventEnvelope → OrderProjectionPayload → ℕ → OrderStateRow → OrderStateRow
advance event payload now row = record row {
  last_sequence = event.sequence;
  state = payload.state;
  total_minor = payload.total_minor;
  currency = payload.currency;
  event_id = payload.event_id;
  sales_location_id = coalesce payload.sales_location_id row.sales_location_id;
  lines = if payload.lines_provided then payload.lines else row.lines;
  occurred_at = payload.occurred_at;
  close_method = coalesce payload.close_method row.close_method;
  cashier_id = coalesce payload.cashier_id row.cashier_id;
  updated_at = now;
}

-- the message of the error that is caught
abbrev pub message_of : Failure → String
message_of (error m) = m
message_of (conflict m) = m
message_of (forbidden m) = m
message_of (not_found m) = m
message_of (database m) = m

abbrev pub Outcome : Type 0
Outcome = ReceiptStatus × CloudSyncDb

abbrev pub refused : String → SyncEventEnvelope → CloudExceptionDetails → CloudSyncDb → Outcome
refused type event details db = (conflicting, exception type event details db)

-- the event against the row that is there
unfoldable pub apply_existing :
    SyncEventEnvelope → OrderProjectionPayload → OrderStateRow → CloudSyncDb → Outcome
unfolding safe_order_advance
apply_existing event payload existing db =
    if existing.device_id != event.device_id
    then refused "ORDER_DEVICE_CONFLICT" event (other_device existing.device_id) db
    else if leb event.sequence existing.last_sequence
    then (accepted, db)
    else if existing.event_id != payload.event_id
    then refused "ORDER_EVENT_CONFLICT" event
        (differing (some existing.event_id) (some payload.event_id)) db
    else if clash existing.sales_location_id payload.sales_location_id
    then refused "ORDER_LOCATION_CONFLICT" event
        (differing existing.sales_location_id payload.sales_location_id) db
    else if clash existing.close_method payload.close_method
    then refused "ORDER_CLOSE_METHOD_CONFLICT" event
        (differing existing.close_method payload.close_method) db
    else if clash existing.cashier_id payload.cashier_id
    then refused "ORDER_CASHIER_CONFLICT" event (differing existing.cashier_id payload.cashier_id)
        db
    else if not (safe_order_advance existing.state payload.state)
    then refused "ORDER_STATE_REGRESSION" event
        (regression existing.state payload.state existing.last_sequence) db
    else (
      accepted,
      record db {
        orders =
            update_where (is_order event.aggregate_id) (advance event payload db.now) db.orders;
      },
    )

unfoldable pub apply_to :
    SyncEventEnvelope → OrderProjectionPayload → Option OrderStateRow → CloudSyncDb → Outcome
unfolding apply_existing
apply_to event payload none db =
    (accepted, record db { orders = order_row event payload db.now ∷ db.orders })
apply_to event payload (some existing) db = apply_existing event payload existing db

unfoldable pub apply_parsed :
    SyncEventEnvelope → Result OrderProjectionPayload → CloudSyncDb → Outcome
unfolding apply_to
apply_parsed event (err e) db =
    refused "INVALID_ORDER_EVENT" event (invalid_order (message_of e)) db
apply_parsed event (ok payload) db =
    apply_to event payload (find (is_order event.aggregate_id) db.orders) db

unfoldable pub apply_order : SyncEventEnvelope → CloudSyncDb → Outcome
unfolding order_payload apply_parsed
apply_order event db = apply_parsed event (order_payload event) db
