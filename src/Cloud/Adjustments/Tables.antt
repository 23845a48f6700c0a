-- ===== src/Cloud/Adjustments/Tables.antt =====
-- apps/cloud-api/src/payments/payment-adjustments.service.ts: its tables (migrations/0007_payments.sql),
-- its queries and its providers.
use eventcommerce_os.Base.{
  ℕ, ◌+◌, String, Option, none, some, Bool, true, false, ◌&&◌, ◌||◌, List, [], ◌∷◌, ◌==◌, ◌!=◌,
  string_eq, nat_eq, option_eq, ltb, leb, select, update_where, if◌then◌else◌, Eq,
}
use eventcommerce_os.Base.Sorting.{sort_by}
use eventcommerce_os.Domain.Payment.{succeeded, payment_attempt_state_eq}
use eventcommerce_os.Cloud.Payments.{PaymentRow, AttemptDbRow, ProviderTruth}

pub data AdjustmentKind : Type 0 where
  refund reversal : AdjustmentKind

pub data AdjustmentStatus : Type 0 where
  adjustment_requested adjustment_pending adjustment_succeeded : AdjustmentStatus
  adjustment_failed adjustment_unknown : AdjustmentStatus

unfoldable pub AdjustmentStatus-discrete : Discrete AdjustmentStatus
AdjustmentStatus-discrete = hlevel

instance abbrev pub adjustment_status_eq : Eq AdjustmentStatus
adjustment_status_eq = record { dec_eq = AdjustmentStatus-discrete }

pub record AdjustmentRow : Type 0 where
  pub id : String
  pub payment_id : String
  pub provider_id : String
  pub source_provider_reference : String
  pub amount_minor : ℕ
  pub currency : String
  pub reason : String
  pub requesting_actor_id : String
  pub approving_actor_id : Option String
  pub provider_reference : Option String
  pub failure_code : Option String
  pub idempotency_key : String
  pub status : AdjustmentStatus
  pub created_at : ℕ
  pub updated_at : ℕ

pub record AdjustmentInput : Type 0 where
  pub id : String
  pub payment_id : String
  pub amount_minor : ℕ
  pub currency : String
  pub reason : String
  pub requesting_actor_id : String
  pub approving_actor_id : Option String
  pub idempotency_key : String

-- an attempt with its `created_at`
pub record RailAttempt : Type 0 where
  pub attempt : AttemptDbRow
  pub created_at : ℕ

pub record AdjustmentCall : Type 0 where
  pub provider_reference : String
  pub amount_minor : ℕ
  pub currency : String
  pub idempotency_key : String

-- a provider's part in adjustments: its capabilities, and the methods that it has
pub record AdjustmentProvider : Type 0 where
  pub id : String
  pub refunds : Bool
  pub reversals : Bool
  pub refund : Option (AdjustmentCall → Option ProviderTruth)
  pub reverse : Option (AdjustmentCall → Option ProviderTruth)

pub record AdjustmentDb : Type 0 where
  pub payments : List PaymentRow
  pub attempts : List RailAttempt
  pub refunds : List AdjustmentRow
  pub reversals : List AdjustmentRow
  pub now : ℕ

abbrev pub table : AdjustmentKind → AdjustmentDb → List AdjustmentRow
table refund db = db.refunds
table reversal db = db.reversals

abbrev pub set_table : AdjustmentKind → List AdjustmentRow → AdjustmentDb → AdjustmentDb
set_table refund rows db = record db { refunds = rows }
set_table reversal rows db = record db { reversals = rows }

abbrev pub has_id : String → AdjustmentRow → Bool
has_id id row = row.id == id

abbrev pub has_key : String → AdjustmentRow → Bool
has_key key row = row.idempotency_key == key

abbrev pub is_payment : String → PaymentRow → Bool
is_payment id row = row.id == id

-- UPDATE … WHERE id = … AND status = 'REQUESTED'
abbrev pub is_requested : String → AdjustmentRow → Bool
is_requested id row = row.id == id && row.status == adjustment_requested

unfoldable pub update_requested :
    AdjustmentKind → String → (AdjustmentRow → AdjustmentRow) → AdjustmentDb → AdjustmentDb
update_requested kind id change db =
    set_table kind (update_where (is_requested id) change (table kind db)) db

-- ORDER BY resolved_at DESC NULLS LAST, created_at DESC
abbrev pub later : Option ℕ × ℕ → Option ℕ × ℕ → Bool
later (none, c) (none, d) = leb d c
later (none, c) (some b, d) = false
later (some a, c) (none, d) = true
later (some a, c) (some b, d) = ltb b a || (a == b && leb d c)

abbrev pub resolution : RailAttempt → Option ℕ × ℕ
resolution r = (r.attempt.resolved_at, r.created_at)

abbrev pub is_rail : String → RailAttempt → Bool
is_rail payment r =
    r.attempt.payment_id == payment
    && r.attempt.status == succeeded
    && r.attempt.provider_reference != none

-- the provider and the reference of an attempt whose reference is known
abbrev pub rail_of : RailAttempt → Option (String × String)
rail_of r = elim r.attempt.provider_reference [
  | none ↦ none
  | some reference ↦ some (r.attempt.provider_id, reference)
]

abbrev pub first_rail : List RailAttempt → Option (String × String)
first_rail [] = none
first_rail (r ∷ rest) = rail_of r

unfoldable pub rail : String → AdjustmentDb → Option (String × String)
rail payment db = first_rail (sort_by later resolution (select (is_rail payment) db.attempts))

abbrev pub has_method : Option (AdjustmentCall → Option ProviderTruth) → Bool
has_method none = false
has_method (some call) = true

abbrev pub method :
    AdjustmentKind → AdjustmentProvider → Option (AdjustmentCall → Option ProviderTruth)
method refund provider = provider.refund
method reversal provider = provider.reverse

abbrev pub supports : AdjustmentKind → AdjustmentProvider → Bool
supports refund provider = provider.refunds && has_method provider.refund
supports reversal provider = provider.reversals && has_method provider.reverse

-- `kind.toLowerCase()` with an s
abbrev pub plural : AdjustmentKind → String
plural refund = "refunds"
plural reversal = "reversals"

-- SUM(amount_minor) of what has not failed
abbrev pub reserved_in : String → List AdjustmentRow → ℕ
reserved_in payment [] = 0
reserved_in payment (row ∷ rows) =
    let rest = reserved_in payment rows in
    if row.payment_id == payment && row.status != adjustment_failed
    then row.amount_minor + rest
    else rest

unfoldable pub reserved : String → AdjustmentDb → ℕ
reserved payment db = reserved_in payment db.refunds + reserved_in payment db.reversals
