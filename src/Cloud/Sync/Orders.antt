-- ===== src/Cloud/Sync/Orders.antt =====
-- cloud-sync.service.ts: an order's row only moves forward.
use eventcommerce_os.Base.{
  ◌≡◌, ◌≢◌, ◌⊎◌, refl, ◌∙◌, ℕ, ◌≤◌, String, Option, none, some, true, false, ◌!=◌, string_eq,
  option_eq, ==_iff, leb, update_where, arith, Bool-cases, inl, inr, String-discrete,
}
use eventcommerce_os.Contracts.{SyncEventEnvelope, accepted}
use eventcommerce_os.Cloud.Sync.Payload.{OrderProjectionPayload}
use eventcommerce_os.Cloud.Sync.Tables.{CloudSyncDb, OrderStateRow, is_order, CloudExceptionDetails}
use eventcommerce_os.Cloud.Sync.Projection.{
  Outcome, refused, safe_order_advance, clash, coalesce, advance, apply_existing,
}

-- what was known stays as it was
abbrev pub IsKept : Option String → Option String → Type 0
IsKept none new = Unit
IsKept (some a) new = new ≡ some a

-- How an order's row may change: it stays with its device and its event, its sequence number does not
-- fall, a closed order stays closed, and what is known of its location, its cashier and its way of
-- closing stays.
pub record Advances (old new : OrderStateRow) : Type 0 where
  pub order : new.order_id ≡ old.order_id
  pub device : new.device_id ≡ old.device_id
  pub event : new.event_id ≡ old.event_id
  pub sequence : old.last_sequence ≤ new.last_sequence
  pub closed : (old.state ≢ "CLOSED") ⊎ (new.state ≡ "CLOSED")
  pub location : IsKept old.sales_location_id new.sales_location_id
  pub closing : IsKept old.close_method new.close_method
  pub cashier : IsKept old.cashier_id new.cashier_id

IsKept-refl : (a : Option String) → IsKept a a
IsKept-refl none = tt
IsKept-refl (some a) = refl

IsKept-trans : (a b c : Option String) → IsKept a b → IsKept b c → IsKept a c
IsKept-trans none b c h k = tt
IsKept-trans (some a) b c h k = rw h at k

closed_dec : (state : String) → (state ≢ "CLOSED") ⊎ (state ≡ "CLOSED")
closed_dec state = elim (String-discrete state "CLOSED") [ yes p ↦ inr p | no n ↦ inl n ]

pub Advances-refl : (row : OrderStateRow) → Advances row row
Advances-refl row = record {
  order = refl;
  device = refl;
  event = refl;
  sequence = omega arith;
  closed = closed_dec row.state;
  location = IsKept-refl row.sales_location_id;
  closing = IsKept-refl row.close_method;
  cashier = IsKept-refl row.cashier_id;
}

pub Advances-trans : (a b c : OrderStateRow) → Advances a b → Advances b c → Advances a c
Advances-trans a b c h k = record {
  order = k.order ∙ h.order;
  device = k.device ∙ h.device;
  event = k.event ∙ h.event;
  sequence = omega (arith, h.sequence, k.sequence);
  closed = elim h.closed [
    | inl n ↦ inl n
    | inr p ↦ elim k.closed [ inl n ↦ absurd (n p) | inr q ↦ inr q ]
  ];
  location = IsKept-trans a.sales_location_id _ _ h.location k.location;
  closing = IsKept-trans a.close_method _ _ h.closing k.closing;
  cashier = IsKept-trans a.cashier_id _ _ h.cashier k.cashier;
}

IsKept-coalesce : (old new : Option String) → clash old new ≡ false → IsKept old (coalesce new old)
IsKept-coalesce none new h = tt
IsKept-coalesce (some a) none h = refl
IsKept-coalesce (some a) (some b) h = ground (arith, ==_iff a b)

advance_closed :
    (current incoming : String)
    → safe_order_advance current incoming ≡ true
    → (current ≢ "CLOSED") ⊎ (incoming ≡ "CLOSED")
unfolding safe_order_advance String-discrete
advance_closed current incoming h = elim (String-discrete current "CLOSED") [
  | no n ↦ inl n
  | yes p ↦ inr ((==_iff incoming "CLOSED").0 (rw p at h))
]

-- The UPDATE advances the row that it is for, where every test lets it through.
advance-Advances :
    (event : SyncEventEnvelope) (payload : OrderProjectionPayload) (now : ℕ) (row : OrderStateRow)
    → (row.device_id != event.device_id) ≡ false
    → leb event.sequence row.last_sequence ≡ false
    → (row.event_id != payload.event_id) ≡ false
    → clash row.sales_location_id payload.sales_location_id ≡ false
    → clash row.close_method payload.close_method ≡ false
    → clash row.cashier_id payload.cashier_id ≡ false
    → safe_order_advance row.state payload.state ≡ true
    → Advances row (advance event payload now row)
advance-Advances event payload now row device sequence same location method cashier state = record {
  order = refl;
  device = refl;
  event = ground (arith, ==_iff row.event_id payload.event_id);
  sequence = ground arith;
  closed = advance_closed row.state payload.state state;
  location = IsKept-coalesce row.sales_location_id payload.sales_location_id location;
  closing = IsKept-coalesce row.close_method payload.close_method method;
  cashier = IsKept-coalesce row.cashier_id payload.cashier_id cashier;
}

-- The outcome of an event that was refused, with one exception.
abbrev pub IsRefusal : SyncEventEnvelope → CloudSyncDb → Outcome → Type 0
IsRefusal event db r =
    (type : String) × (details : CloudExceptionDetails) × (r ≡ refused type event details db)

-- The three ways in which an event meets the row of its order: it is too old, it is refused, or the
-- row advances.
pub apply_existing-cases :
    (event : SyncEventEnvelope) (payload : OrderProjectionPayload) (row : OrderStateRow)
    (db : CloudSyncDb)
    → (apply_existing event payload row db ≡ (accepted, db))
      ⊎ (IsRefusal event db (apply_existing event payload row db)
          ⊎ ((apply_existing event payload row db ≡ (
            accepted,
            record db {
              orders =
                  update_where
                    (is_order event.aggregate_id)
                    (advance event payload db.now)
                    db.orders;
            },
          ))
              × Advances row (advance event payload db.now row)))
unfolding apply_existing
apply_existing-cases event payload row db = elim (Bool-cases (row.device_id != event.device_id)) [
  | inl e ↦ rw e (inr (inl (_, _, refl)))
  | inr device ↦ elim (Bool-cases (leb event.sequence row.last_sequence)) [
    | inl e ↦ rw (device, e) (inl refl)
    | inr sequence ↦ elim (Bool-cases (row.event_id != payload.event_id)) [
      | inl e ↦ rw (device, sequence, e) (inr (inl (_, _, refl)))
      | inr same ↦ elim (Bool-cases (clash row.sales_location_id payload.sales_location_id)) [
        | inl e ↦ rw (device, sequence, same, e) (inr (inl (_, _, refl)))
        | inr location ↦ elim (Bool-cases (clash row.close_method payload.close_method)) [
          | inl e ↦ rw (device, sequence, same, location, e) (inr (inl (_, _, refl)))
          | inr method ↦ elim (Bool-cases (clash row.cashier_id payload.cashier_id)) [
            | inl e ↦ rw (device, sequence, same, location, method, e) (inr (inl (_, _, refl)))
            | inr cashier ↦ elim (Bool-cases (safe_order_advance row.state payload.state)) [
              | inr e ↦
                  rw (device, sequence, same, location, method, cashier, e) (inr (inl (_, _, refl)))
              | inl state ↦
                  rw (device, sequence, same, location, method, cashier, state)
                    (inr (
                      inr (
                        refl,
                        advance-Advances event payload db.now row device sequence same location
                            method cashier state,
                      )))
            ]
          ]
        ]
      ]
    ]
  ]
]
