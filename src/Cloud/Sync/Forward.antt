-- ===== src/Cloud/Sync/Forward.antt =====
-- cloud-sync.service.ts, `processEvent`: every order only moves forward, whatever the event says.
use eventcommerce_os.Base.{
  ◌≡◌, refl, sym, ap, ◌∙◌, String, Option, none, some, List, string_eq, ==_iff, find, update_where,
  if◌then◌else◌, ok, ok-inj, arith, Bool-cases, Option-cases, Result-cases, inl, inr, ◌!=◌,
  option_eq,
}
use eventcommerce_os.Base.Searching.{find-holds, find-update_where}
use eventcommerce_os.Contracts.{SyncEventEnvelope, envelope_eq}
use eventcommerce_os.Cloud.Sync.Payload.{OrderProjectionPayload, order_payload}
use eventcommerce_os.Cloud.Sync.Tables.{
  EdgeSyncIdentity, CloudSyncDb, OrderStateRow, CloudEventRow, is_order, has_instance, has_sequence,
  exception,
}
use eventcommerce_os.Cloud.Sync.Projection.{Outcome, advance, apply_to, apply_parsed, apply_order}
use eventcommerce_os.Cloud.Sync.Events.{
  store, known_instance, new_event, by_sequence, by_instance, process_event,
}
use eventcommerce_os.Cloud.Sync.Orders.{Advances, Advances-refl, apply_existing-cases}

-- the order has a row in the table that the first row has advanced to
abbrev pub Forward : String → OrderStateRow → List OrderStateRow → Type 0
Forward id row orders =
    (new : OrderStateRow) × (find (is_order id) orders ≡ some new) × Advances row new

pub Forward-refl :
    (id : String) (row : OrderStateRow) (orders : List OrderStateRow)
    → find (is_order id) orders ≡ some row
    → Forward id row orders
Forward-refl id row orders h = (row, h, Advances-refl row)

-- the row of an order after the UPDATE of an order
advanced-Forward :
    (event : SyncEventEnvelope) (payload : OrderProjectionPayload) (db : CloudSyncDb) (id : String)
    (existing row : OrderStateRow)
    → find (is_order event.aggregate_id) db.orders ≡ some existing
    → Advances existing (advance event payload db.now existing)
    → find (is_order id) db.orders ≡ some row
    → Forward id row
        (update_where (is_order event.aggregate_id) (advance event payload db.now) db.orders)
advanced-Forward event payload db id existing row there step found =
    let change = advance event payload db.now in
    elim (Bool-cases (is_order event.aggregate_id row)) [
      | inr other ↦ (
        row,
        find-update_where (is_order event.aggregate_id) (is_order id) change db.orders {x = row}
              (λ y. refl) found
            ∙ ap (λ b. some (if b then change row else row)) other,
        Advances-refl row,
      )
      | inl own ↦
          let same : id ≡ event.aggregate_id =
            sym ((==_iff row.order_id id).0 (find-holds (is_order id) db.orders found))
            ∙ (==_iff row.order_id event.aggregate_id).0 own in
          let e : existing ≡ row = ground (arith, rw same at found) in
          (
            change row,
            find-update_where (is_order event.aggregate_id) (is_order id) change db.orders {x = row}
                  (λ y. refl) found
                ∙ ap (λ b. some (if b then change row else row)) own,
            rw e at step,
          )
    ]

apply_to-Forward :
    (event : SyncEventEnvelope) (payload : OrderProjectionPayload) (there : Option OrderStateRow)
    (db : CloudSyncDb) (id : String) (row : OrderStateRow)
    → find (is_order event.aggregate_id) db.orders ≡ there
    → find (is_order id) db.orders ≡ some row
    → Forward id row (apply_to event payload there db).1.orders
unfolding apply_to exception
apply_to-Forward event payload none db id row there found =
    (row, ground (arith, ==_iff event.aggregate_id id), Advances-refl row)
apply_to-Forward event payload (some existing) db id row there found =
    elim (apply_existing-cases event payload existing db) [
      | inl same ↦ rw same (Forward-refl id row db.orders found)
      | inr (inl (type, details, e)) ↦ rw e (Forward-refl id row db.orders found)
      | inr (inr (changed, step)) ↦
          rw changed (advanced-Forward event payload db id existing row there step found)
    ]

apply_order-Forward :
    (event : SyncEventEnvelope) (db : CloudSyncDb) (id : String) (row : OrderStateRow)
    → find (is_order id) db.orders ≡ some row
    → Forward id row (apply_order event db).1.orders
unfolding apply_order apply_parsed exception
apply_order-Forward event db id row found = elim (Result-cases (order_payload event)) [
  | inr (x, e) ↦ rw e (Forward-refl id row db.orders found)
  | inl (payload, e) ↦ rw e (
      apply_to-Forward event payload (find (is_order event.aggregate_id) db.orders) db id row refl
        found)
]

new_event-Forward :
    (event : SyncEventEnvelope) (identity : EdgeSyncIdentity) (db : CloudSyncDb) (id : String)
    (row : OrderStateRow) {r : Outcome}
    → new_event event identity db ≡ ok r
    → find (is_order id) db.orders ≡ some row
    → Forward id row r.1.orders
unfolding new_event store
new_event-Forward event identity db id row {r} h found =
    elim (Bool-cases (event.aggregate_type != "ORDER")) [
      | inl other ↦
          let e : r.1.orders ≡ db.orders = ground arith in
          rw e (Forward-refl id row db.orders found)
      | inr order ↦
          let e : r ≡ apply_order event (store event identity db) = ground arith in
          rw e (apply_order-Forward event (store event identity db) id row found)
    ]

-- An event that is not new changes no order.
by_sequence-Forward :
    (event : SyncEventEnvelope) (identity : EdgeSyncIdentity) (there : Option CloudEventRow)
    (db : CloudSyncDb) (id : String) (row : OrderStateRow) {r : Outcome}
    → by_sequence event identity there db ≡ ok r
    → find (is_order id) db.orders ≡ some row
    → Forward id row r.1.orders
unfolding by_sequence exception
by_sequence-Forward event identity none db id row h found =
    new_event-Forward event identity db id row h found
by_sequence-Forward event identity (some x) db id row {r} h found =
    let e : r.1.orders ≡ db.orders = ground arith in rw e (Forward-refl id row db.orders found)

known_instance-orders :
    (event : SyncEventEnvelope) (identity : EdgeSyncIdentity) (existing : CloudEventRow)
    (db : CloudSyncDb)
    → (known_instance event identity existing db).1.orders ≡ db.orders
unfolding known_instance exception
known_instance-orders event identity existing db = ground arith

pub process_event-Forward :
    (event : SyncEventEnvelope) (identity : EdgeSyncIdentity) (db : CloudSyncDb) (id : String)
    (row : OrderStateRow) {r : Outcome}
    → process_event event identity db ≡ ok r
    → find (is_order id) db.orders ≡ some row
    → Forward id row r.1.orders
unfolding process_event by_instance
process_event-Forward event identity db id row {r} h found =
    elim (Option-cases (find (has_instance event.event_instance_id) db.events)) [
      | inl new ↦
          by_sequence-Forward event identity
            (find (has_sequence identity.organisation_id event.device_id event.sequence) db.events)
            db id row (rw new at h) found
      | inr (existing, there) ↦
          let e : r.1.orders ≡ db.orders =
            ap (λ (q : Outcome). q.1.orders) (sym (ok-inj (rw there at h)))
            ∙ known_instance-orders event identity existing db in
          rw e (Forward-refl id row db.orders found)
    ]
