-- ===== src/Edge/DeviceSync/Stored.antt =====
-- device-sync.service.ts, `persistEvent`: an event is stored once and queued once.
use eventcommerce_os.Base.{
  ◌≡◌, refl, ap, ℕ, String, Option, none, some, true, false, List, [], ◌∷◌, map, ◌==◌, string_eq,
  nat_eq, ==_iff, any, find, includes, has_repeat, Eq, ok, arith, Bool-cases, Result-cases, ok-inj,
  ◌⊎◌, inl, inr, Bool, ◌&&◌,
}
use mathlib.Core.Path.{subst}
use eventcommerce_os.Base.Int.{fits_integer}
use eventcommerce_os.Contracts.{SyncEventEnvelope, envelope_eq, SyncEventReceipt}
use eventcommerce_os.Edge.DeviceSync.{
  SyncDb, ProcessedRow, CloudOutboxRow, has_instance, has_sequence, instance_of, is_taken,
  receipt_of, store, exception, refuse, persist_event, persist_all,
}

abbrev pub key_of : ProcessedRow → String × ℕ
key_of row = (row.envelope.device_id, row.envelope.sequence)

unfoldable pub Key-discrete : Discrete (String × ℕ)
Key-discrete = hlevel (string_eq.dec_eq, nat_eq.dec_eq)

instance abbrev pub key_eq : Eq (String × ℕ)
key_eq = record { dec_eq = Key-discrete }

-- Every stored event is in the outbox once, and no two share an instance or a device's sequence
-- number.
pub record IsStored (db : SyncDb) : Type 0 where
  pub queued_once :
      map (λ (row : CloudOutboxRow). row.envelope) db.outbox
      ≡ map (λ (row : ProcessedRow). row.envelope) db.events
  pub instances : has_repeat (map instance_of db.events) ≡ false
  pub sequences : has_repeat (map key_of db.events) ≡ false

includes-instance :
    (id : String) (rows : List ProcessedRow)
    → includes id (map instance_of rows) ≡ any (has_instance id) rows
includes-instance id [] = refl
includes-instance id (row ∷ rows) = ground (arith, includes-instance id rows)

key-eq :
    (device : String) (sequence : ℕ) (row : ProcessedRow)
    → (key_of row == (device, sequence)) ≡ has_sequence device sequence row
key-eq device sequence row = ground (
  arith,
  ==_iff (key_of row) (device, sequence),
  ==_iff row.envelope.device_id device,
  ==_iff row.envelope.sequence sequence,
)

includes-key :
    (device : String) (sequence : ℕ) (rows : List ProcessedRow)
    → includes (device, sequence) (map key_of rows) ≡ any (has_sequence device sequence) rows
includes-key device sequence [] = refl
includes-key device sequence (row ∷ rows) =
    ground (arith, key-eq device sequence row, includes-key device sequence rows)

store-IsStored :
    (event : SyncEventEnvelope) (db : SyncDb)
    → is_taken event db ≡ false
    → IsStored db
    → IsStored (store event db)
unfolding store
store-IsStored event db free sound = record {
  queued_once = ap (λ rest. event ∷ rest) sound.queued_once;
  instances = ground (arith, includes-instance event.event_instance_id db.events, sound.instances);
  sequences =
      ground (arith, includes-key event.device_id event.sequence db.events, sound.sequences);
}

-- The database takes the values of an event's row.
abbrev pub is_storable : SyncEventEnvelope → SyncDb → Bool
is_storable event db = fits_integer event.event_version && db.readable event

-- What a refused event leaves alone.
pub record SameTables (db db' : SyncDb) : Type 0 where
  pub events : db'.events ≡ db.events
  pub outbox : db'.outbox ≡ db.outbox
  pub watermarks : db'.watermarks ≡ db.watermarks
  pub readable : db'.readable ≡ db.readable

pub refuse-same :
    (event : SyncEventEnvelope) (row : Option ProcessedRow) (db : SyncDb)
    → SameTables db (refuse event row db).1
unfolding refuse exception
refuse-same event none db = record {
  events = refl;
  outbox = refl;
  watermarks = refl;
  readable = refl;
}
refuse-same event (some row) db = elim (Bool-cases (row.envelope == event)) [
  | inl e ↦ rw e (record { events = refl; outbox = refl; watermarks = refl; readable = refl })
  | inr e ↦ rw e (record { events = refl; outbox = refl; watermarks = refl; readable = refl })
]

-- The two ways in which `persistEvent` ends.
pub persist_event-cases :
    (event : SyncEventEnvelope) (db : SyncDb) {r : SyncEventReceipt × SyncDb}
    → persist_event event db ≡ ok r
    → ((is_taken event db ≡ false) × (r ≡ (receipt_of event, store event db)))
      ⊎ ((is_taken event db ≡ true)
          × (r ≡ refuse event (find (has_instance event.event_instance_id) db.events) db))
unfolding persist_event
persist_event-cases event db {r} h = elim (Bool-cases (is_taken event db)) [
  | inl taken ↦ inr (taken, ground arith)
  | inr free ↦ inl (free, ground arith)
]

pub refuse-IsStored :
    (event : SyncEventEnvelope) (row : Option ProcessedRow) (db : SyncDb)
    → IsStored db
    → IsStored (refuse event row db).1
refuse-IsStored event row db sound =
    let same = refuse-same event row db in
    record {
      queued_once = rw (same.outbox, same.events) sound.queued_once;
      instances = rw same.events sound.instances;
      sequences = rw same.events sound.sequences;
    }

-- Which texts the database reads is not a matter of its rows.
pub persist_event-readable :
    (event : SyncEventEnvelope) (db : SyncDb) {r : SyncEventReceipt × SyncDb}
    → persist_event event db ≡ ok r
    → r.1.readable ≡ db.readable
unfolding store
persist_event-readable event db {r} h = elim (persist_event-cases event db h) [
  | inl (free, e) ↦ rw (ap (λ (q : SyncEventReceipt × SyncDb). q.1) e) refl
  | inr (taken, e) ↦
      rw (ap (λ (q : SyncEventReceipt × SyncDb). q.1) e)
        (refuse-same event (find (has_instance event.event_instance_id) db.events) db).readable
]

pub persist_event-IsStored :
    (event : SyncEventEnvelope) (db : SyncDb) {r : SyncEventReceipt × SyncDb}
    → persist_event event db ≡ ok r
    → IsStored db
    → IsStored r.1
persist_event-IsStored event db {r} h sound = elim (persist_event-cases event db h) [
  | inl (free, e) ↦
      rw (ap (λ (q : SyncEventReceipt × SyncDb). q.1) e) (store-IsStored event db free sound)
  | inr (taken, e) ↦
      rw (ap (λ (q : SyncEventReceipt × SyncDb). q.1) e)
        (refuse-IsStored event (find (has_instance event.event_instance_id) db.events) db sound)
]

-- The first round of the loop, and the rest of it.
pub persist_all-eq_ok :
    (event : SyncEventEnvelope) (events : List SyncEventEnvelope) (db : SyncDb)
    {receipts : List SyncEventReceipt} {db' : SyncDb}
    → persist_all (event ∷ events) db ≡ ok (receipts, db')
    → (first : SyncEventReceipt × SyncDb) × (rest : List SyncEventReceipt) × (persist_event event db
        ≡ ok first)
      × (persist_all events first.1 ≡ ok (rest, db'))
      × (receipts ≡ first.0 ∷ rest)
unfolding persist_all
persist_all-eq_ok event events db {receipts} {db'} h =
    elim (Result-cases (persist_event event db)) [
      | inr (x, e) ↦ absurd (ground arith)
      | inl (first, e) ↦ elim (Result-cases (persist_all events first.1)) [
        | inr (x, e') ↦ absurd (ground arith)
        | inl (rest, e') ↦ (first, rest.0, e, ground arith, ground arith)
      ]
    ]

-- What each event keeps, the loop keeps.
pub persist_all_inv :
    (P : SyncDb → Type 0) (events : List SyncEventEnvelope) (db : SyncDb)
    {receipts : List SyncEventReceipt} {db' : SyncDb}
    → ((event : SyncEventEnvelope) (s : SyncDb) (r : SyncEventReceipt × SyncDb)
        → persist_event event s ≡ ok r
        → P s
        → P r.1)
    → persist_all events db ≡ ok (receipts, db')
    → P db
    → P db'
unfolding persist_all
persist_all_inv P [] db {receipts} {db'} keep h p =
    subst P (ap (λ (q : List SyncEventReceipt × SyncDb). q.1) (ok-inj h)) p
persist_all_inv P (event ∷ events) db keep h p =
    let (first, rest, e, e', _) = persist_all-eq_ok event events db h in
    persist_all_inv P events first.1 keep e' (keep event db first e p)
