-- ===== src/Domain/Payment.antt =====
-- packages/domain/src/payment.ts: the state machine of a payment attempt.
pub mod Terminal
use eventcommerce_os.Base.{
  Bool, true, false, ◌||◌, not, List, [], ◌∷◌, Eq, ◌==◌, includes, if◌then◌else◌, Result, Failure,
  throw_if, error, String, template,
}

pub data PaymentAttemptState : Type 0 where
  created initiated pending succeeded failed unknown : PaymentAttemptState

unfoldable pub PaymentAttemptState-discrete : Discrete PaymentAttemptState
PaymentAttemptState-discrete = hlevel

instance abbrev pub payment_attempt_state_eq : Eq PaymentAttemptState
payment_attempt_state_eq = record { dec_eq = PaymentAttemptState-discrete }

abbrev pub payment_attempt_state_name : PaymentAttemptState → String
payment_attempt_state_name created = "CREATED"
payment_attempt_state_name initiated = "INITIATED"
payment_attempt_state_name pending = "PENDING"
payment_attempt_state_name succeeded = "SUCCEEDED"
payment_attempt_state_name failed = "FAILED"
payment_attempt_state_name unknown = "UNKNOWN"

abbrev pub allowed_transitions : PaymentAttemptState → List PaymentAttemptState
allowed_transitions created = initiated ∷ pending ∷ succeeded ∷ failed ∷ unknown ∷ []
allowed_transitions initiated = pending ∷ succeeded ∷ failed ∷ unknown ∷ []
allowed_transitions pending = succeeded ∷ failed ∷ unknown ∷ []
allowed_transitions unknown = pending ∷ succeeded ∷ failed ∷ []
allowed_transitions succeeded = []
allowed_transitions failed = []

unfoldable pub can_transition_payment_attempt : PaymentAttemptState → PaymentAttemptState → Bool
can_transition_payment_attempt from to = from == to || includes to (allowed_transitions from)

unfoldable pub assert_payment_attempt_transition :
    PaymentAttemptState → PaymentAttemptState → Result (Unit {0})
unfolding can_transition_payment_attempt
assert_payment_attempt_transition from to =
    throw_if (not (can_transition_payment_attempt from to)) (
      error (
        template (
          "Invalid payment attempt transition: "
          ∷ payment_attempt_state_name from
          ∷ " -> "
          ∷ payment_attempt_state_name to
          ∷ [])))

unfoldable pub payment_attempt_needs_reconciliation : PaymentAttemptState → Bool
payment_attempt_needs_reconciliation state = state == unknown

unfoldable pub payment_attempt_is_terminal : PaymentAttemptState → Bool
payment_attempt_is_terminal state = state == succeeded || state == failed

unfoldable pub state_after_provider_timeout : PaymentAttemptState → PaymentAttemptState
unfolding payment_attempt_is_terminal
state_after_provider_timeout current =
    if payment_attempt_is_terminal current then current else unknown
