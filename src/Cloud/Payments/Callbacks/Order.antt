-- ===== src/Cloud/Payments/Callbacks/Order.antt =====
-- payments.service.ts, `applyUnmatchedCallbacks`: stored callbacks in any number and order.
use mathlib.Core.Path.{subst}
use eventcommerce_os.Base.{
  ◌≡◌, refl, sym, ◌∙◌, String, Option, none, some, true, List, [], ◌∷◌, arith,
}
use eventcommerce_os.Domain.Payment.{
  PaymentAttemptState, created, initiated, pending, succeeded, failed, unknown,
  can_transition_payment_attempt, PaymentAttemptState-discrete,
}
use eventcommerce_os.Cloud.Payments.{PayDb, AttemptRow, ProviderEventRow, load_attempt_by_id}
use eventcommerce_os.Cloud.Payments.Moves.{MovesTo, stays, apply_provider_truth-MovesTo, load-row}
use eventcommerce_os.Cloud.Payments.Callbacks.{
  attach_event, apply_event, apply_events, apply_unmatched_callbacks, unmatched_events,
}

transition_trans :
    (a b c : PaymentAttemptState)
    → can_transition_payment_attempt a b ≡ true
    → can_transition_payment_attempt b c ≡ true
    → can_transition_payment_attempt a c ≡ true
unfolding can_transition_payment_attempt PaymentAttemptState-discrete
transition_trans created created c h k = ground arith
transition_trans created initiated c h k = ground arith
transition_trans created pending c h k = ground arith
transition_trans created unknown c h k = ground arith
transition_trans created succeeded c h k = ground arith
transition_trans created failed c h k = ground arith
transition_trans initiated b c h k = ground arith
transition_trans pending b c h k = ground arith
transition_trans unknown b c h k = ground arith
transition_trans succeeded b c h k = ground arith
transition_trans failed b c h k = ground arith

pub MovesTo-trans : (id : String) (a b c : PayDb) → MovesTo id a b → MovesTo id b c → MovesTo id a c
MovesTo-trans id a b c m n old found =
    let (mid, found', step, p, k) = m old found in
    let (new, found'', step', p', k') = n mid found' in
    (new, found'', transition_trans old.status mid.status new.status step step', p ∙ p', k ∙ k')

apply_event-MovesTo :
    (event : ProviderEventRow) (id other : String) (loaded : Option AttemptRow) (db : PayDb)
    → load_attempt_by_id id db ≡ loaded
    → MovesTo other db (apply_event event loaded db)
unfolding load_attempt_by_id
apply_event-MovesTo event id other none db h = stays other db db refl
apply_event-MovesTo event id other (some locked) db h =
    let (row, found, same, e, k) = load-row id db h in
    let at : load_attempt_by_id locked.id (attach_event locked.id event.id db) ≡ some locked =
      subst (λ i. load_attempt_by_id i (attach_event locked.id event.id db) ≡ some locked)
        (sym k ∙ e) h in
    apply_provider_truth-MovesTo locked event.payload (attach_event locked.id event.id db) other at

apply_events-MovesTo :
    (id other : String) (events : List ProviderEventRow) (db : PayDb)
    → MovesTo other db (apply_events id events db)
unfolding apply_events
apply_events-MovesTo id other [] db = stays other db db refl
apply_events-MovesTo id other (event ∷ events) db =
    let next = apply_event event (load_attempt_by_id id db) db in
    MovesTo-trans other db next (apply_events id events next)
      (apply_event-MovesTo event id other (load_attempt_by_id id db) db refl)
      (apply_events-MovesTo id other events next)

-- However many callbacks came before the attempt was known, once they are applied every attempt of the
-- database is where one allowed transition leads from where it was (from a settled state to itself
-- alone), and keeps its payment and its idempotency key.
pub apply_unmatched_callbacks-MovesTo :
    (attempt : AttemptRow) (other : String) (db : PayDb)
    → MovesTo other db (apply_unmatched_callbacks attempt db)
unfolding apply_unmatched_callbacks
apply_unmatched_callbacks-MovesTo attempt other db =
    apply_events-MovesTo attempt.id other (unmatched_events attempt db) db
