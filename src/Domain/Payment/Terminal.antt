-- ===== src/Domain/Payment/Terminal.antt =====
-- packages/domain/src/payment.ts: what any sequence of accepted transitions can do to an attempt.
use eventcommerce_os.Base.{
  ◌≡◌, refl, true, List, [], ◌∷◌, Result, ok, err, arith, ◌⊎◌, inl, inr, bind,
}
use eventcommerce_os.Domain.Payment.{
  PaymentAttemptState, created, initiated, pending, succeeded, failed, unknown,
  can_transition_payment_attempt, assert_payment_attempt_transition, payment_attempt_is_terminal,
  state_after_provider_timeout, PaymentAttemptState-discrete,
}

-- an attempt driven through a list of target states, each asserted first; the run stops at the
-- first refusal
unfoldable pub drive : PaymentAttemptState → List PaymentAttemptState → Result PaymentAttemptState
drive state [] = ok state
drive state (to ∷ rest) =
    let next = drive to rest in bind (assert_payment_attempt_transition state to) (λ _. next)

step_terminal :
    (from to : PaymentAttemptState)
    → payment_attempt_is_terminal from ≡ true
    → assert_payment_attempt_transition from to ≡ ok tt
    → to ≡ from
unfolding payment_attempt_is_terminal assert_payment_attempt_transition PaymentAttemptState-discrete
step_terminal succeeded to t h = ground arith
step_terminal failed to t h = ground arith
step_terminal created to t h = ground arith
step_terminal initiated to t h = ground arith
step_terminal pending to t h = ground arith
step_terminal unknown to t h = ground arith

bind-eq_ok :
    {A : Type 0} (m : Result (Unit {0})) (k : Result A) {a : A}
    → bind m (λ _. k) ≡ ok a
    → (m ≡ ok tt) × (k ≡ ok a)
bind-eq_ok (ok tt) k h = (refl, h)
bind-eq_ok (err e) k h = cc

-- Once an attempt has succeeded or failed, whatever sequence of transitions is accepted after that
-- leaves it in the same state: a settled payment never changes its outcome.
pub drive_terminal :
    (state : PaymentAttemptState) (path : List PaymentAttemptState) {last : PaymentAttemptState}
    → payment_attempt_is_terminal state ≡ true
    → drive state path ≡ ok last
    → last ≡ state
unfolding drive
drive_terminal state [] t h = cc
drive_terminal state (to ∷ rest) t h =
    let (step, run) = bind-eq_ok (assert_payment_attempt_transition state to) (drive to rest) h in
    let same = step_terminal state to t step in rw (← same) (drive_terminal to rest (rw same t) run)

step_created :
    (from to : PaymentAttemptState)
    → assert_payment_attempt_transition from to ≡ ok tt
    → to ≡ created
    → from ≡ created
unfolding assert_payment_attempt_transition PaymentAttemptState-discrete
step_created created to h e = refl
step_created _ to h e = ground arith

-- No accepted sequence of transitions leads back to CREATED: an attempt that ends there never left.
pub drive_created :
    (state : PaymentAttemptState) (path : List PaymentAttemptState)
    → drive state path ≡ ok created
    → state ≡ created
unfolding drive
drive_created state [] h = cc
drive_created state (to ∷ rest) h =
    let (step, run) = bind-eq_ok (assert_payment_attempt_transition state to) (drive to rest) h in
    step_created state to step (drive_created to rest run)

-- From every state the state that a provider timeout leads to is an accepted transition; it is
-- UNKNOWN unless the attempt is settled, and a second timeout changes nothing.
pub timeout_allowed :
    (state : PaymentAttemptState)
    → (can_transition_payment_attempt state (state_after_provider_timeout state) ≡ true)
      × (state_after_provider_timeout (state_after_provider_timeout state)
          ≡ state_after_provider_timeout state)
      × ((state_after_provider_timeout state ≡ unknown)
          ⊎ (payment_attempt_is_terminal state ≡ true))
unfolding can_transition_payment_attempt state_after_provider_timeout payment_attempt_is_terminal
    PaymentAttemptState-discrete
timeout_allowed created = (refl, refl, inl refl)
timeout_allowed initiated = (refl, refl, inl refl)
timeout_allowed pending = (refl, refl, inl refl)
timeout_allowed succeeded = (refl, refl, inr refl)
timeout_allowed failed = (refl, refl, inr refl)
timeout_allowed unknown = (refl, refl, inl refl)
