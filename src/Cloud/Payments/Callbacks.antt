-- ===== src/Cloud/Payments/Callbacks.antt =====
-- payments.service.ts, `ingestProviderCallback` and `applyUnmatchedCallbacks`.
pub mod Once
pub mod Order
use eventcommerce_os.Base.{
  ℕ, ◌+◌, String, Option, none, some, Bool, true, false, ◌&&◌, ◌||◌, not, List, [], ◌∷◌, ◌==◌, ◌!=◌,
  string_eq, nat_eq, option_eq, any, select, update_where, if◌then◌else◌, leb, Result, ok, err,
  bind, error, template,
}
use eventcommerce_os.Base.Sorting.{sort_by}
use eventcommerce_os.Cloud.Payments.{
  PayDb, AttemptRow, ProviderTruth, ProviderEventRow, VerifiedProviderCallback, PaymentProvider,
  given, load_attempt_by_id, load_attempt_by_provider_reference, apply_provider_truth,
}

pub data CallbackStatus : Type 0 where
  applied duplicate unmatched conflicting : CallbackStatus

-- the unique key of an event
abbrev pub is_event : String → String → ProviderEventRow → Bool
is_event provider key e = e.provider_id == provider && e.provider_event_key == key

abbrev pub new_event : String → VerifiedProviderCallback → PayDb → ProviderEventRow
new_event provider callback db = record {
  id = db.next_event_id;
  provider_id = provider;
  provider_event_key = callback.provider_event_key;
  payment_attempt_id = none;
  payload = callback.truth;
  received_at = db.now;
}

-- INSERT INTO payment_provider_events
abbrev pub with_event : String → VerifiedProviderCallback → PayDb → PayDb
with_event provider callback db = record db {
  events = new_event provider callback db ∷ db.events;
  next_event_id = db.next_event_id + 1;
}

-- UPDATE payment_provider_events SET payment_attempt_id = $1 WHERE id = $2
abbrev pub attach_event : String → ℕ → PayDb → PayDb
attach_event attempt_id event_id db = record db {
  events =
      update_where (λ (e : ProviderEventRow). e.id == event_id)
        (λ e. record e { payment_attempt_id = some attempt_id }) db.events;
}

abbrev pub load_by_reference : String → Option String → PayDb → Option AttemptRow
load_by_reference provider none db = none
load_by_reference provider (some reference) db =
    load_attempt_by_provider_reference provider reference db

-- the attempt that a callback is about; `none` is UNMATCHED
abbrev pub load_by_truth : String → Option String → Option String → PayDb → Option AttemptRow
load_by_truth provider (some id) reference db = load_attempt_by_id id db
load_by_truth provider none reference db = load_by_reference provider reference db

-- `applied ? 'APPLIED' : 'CONFLICT'`
abbrev pub status_of : Bool × PayDb → CallbackStatus × PayDb
status_of (true, db) = (applied, db)
status_of (false, db) = (conflicting, db)

-- what follows when the event was inserted
unfoldable pub ingest_for :
    String → ℕ → ProviderTruth → Option AttemptRow → PayDb → CallbackStatus × PayDb
ingest_for provider event_id truth none db = (unmatched, db)
ingest_for provider event_id truth (some attempt) db =
    if attempt.provider_id != provider
    then (conflicting, db)
    else status_of (apply_provider_truth attempt truth (attach_event attempt.id event_id db))

-- the transaction of `ingestProviderCallback`
unfoldable pub ingest : String → VerifiedProviderCallback → PayDb → CallbackStatus × PayDb
unfolding ingest_for load_attempt_by_id load_attempt_by_provider_reference
ingest provider callback db =
    if any (is_event provider callback.provider_event_key) db.events
    then (duplicate, db)
    else (let truth = callback.truth in
        let db' = with_event provider callback db in
        ingest_for provider db.next_event_id truth
          (load_by_truth provider (given truth.payment_attempt_id) (given truth.provider_reference)
            db')
          db')

-- `ingestProviderCallback` for a provider that was found by its id
unfoldable pub ingest_provider_callback :
    PaymentProvider → String → PayDb → Result (CallbackStatus × PayDb)
unfolding ingest
ingest_provider_callback provider payload db =
    if not provider.asynchronous_callbacks
    then err (
        error
          (template ("Provider " ∷ provider.id ∷ " does not accept asynchronous callbacks" ∷ [])))
    else bind (provider.parse_and_verify_webhook payload)
        (λ callback. ok (ingest provider.id callback db))

-- $3 IS NOT NULL AND payload->>'providerReference' = $3
abbrev pub names_reference : Option String → ProviderTruth → Bool
names_reference none truth = false
names_reference (some reference) truth = truth.provider_reference == some reference

-- the events that `applyUnmatchedCallbacks` reads
abbrev pub is_unmatched : AttemptRow → ProviderEventRow → Bool
is_unmatched attempt e =
    e.provider_id == attempt.provider_id
    && e.payment_attempt_id == none
    && (e.payload.payment_attempt_id == some attempt.id
        || names_reference attempt.provider_reference e.payload)

-- one round of its loop, a transaction
abbrev pub apply_event : ProviderEventRow → Option AttemptRow → PayDb → PayDb
apply_event event none db = db
apply_event event (some locked) db =
    (apply_provider_truth locked event.payload (attach_event locked.id event.id db)).1

unfoldable pub apply_events : String → List ProviderEventRow → PayDb → PayDb
unfolding load_attempt_by_id
apply_events attempt_id [] db = db
apply_events attempt_id (event ∷ events) db =
    apply_events attempt_id events (apply_event event (load_attempt_by_id attempt_id db) db)

-- SELECT … ORDER BY received_at
abbrev pub unmatched_events : AttemptRow → PayDb → List ProviderEventRow
unmatched_events attempt db =
    sort_by leb (λ (e : ProviderEventRow). e.received_at) (select (is_unmatched attempt) db.events)

unfoldable pub apply_unmatched_callbacks : AttemptRow → PayDb → PayDb
unfolding apply_events
apply_unmatched_callbacks attempt db = apply_events attempt.id (unmatched_events attempt db) db
