-- ===== src/Domain/Transitions/Paths.antt =====
-- packages/domain/src/inventory.ts: the paths that the two tables of transitions allow.
use eventcommerce_os.Base.{
  ℕ, ◌+◌, ◌≤◌, ◌<◌, ◌≡◌, ◌≢◌, refl, true, List, [], ◌∷◌, length, includes, Result, ok, err, arith,
  bind,
}
use eventcommerce_os.Domain.Transitions.{
  StockTransferState, requested, assigned, picking, in_transit, received, cancelled,
  require_transfer_transition, transfer_state_eq, StockTransferState-discrete, InventoryAlertState,
  opened, acknowledged, alert_assigned, resolved, require_alert_transition,
  InventoryAlertState-discrete,
}

-- a transfer driven through a list of states, each step required first
unfoldable pub move : StockTransferState → List StockTransferState → Result StockTransferState
move state [] = ok state
move state (to ∷ rest) =
    let next = move to rest in bind (require_transfer_transition state to) (λ _. next)

-- an alert driven through a list of states
unfoldable pub move_alert :
    InventoryAlertState → List InventoryAlertState → Result InventoryAlertState
move_alert state [] = ok state
move_alert state (to ∷ rest) =
    let next = move_alert to rest in bind (require_alert_transition state to) (λ _. next)

bind-eq_ok :
    {A B : Type 0} (m : Result A) (k : Result B) {b : B}
    → bind m (λ _. k) ≡ ok b
    → (a : A) × (m ≡ ok a) × (k ≡ ok b)
bind-eq_ok (ok a) k h = (a, refl, h)
bind-eq_ok (err e) k h = cc

-- how far along its life a transfer is
abbrev rank : StockTransferState → ℕ
rank requested = 0
rank assigned = 1
rank picking = 2
rank in_transit = 3
rank received = 4
rank cancelled = 4

rank_step :
    (from to : StockTransferState) {s : StockTransferState}
    → require_transfer_transition from to ≡ ok s
    → rank from < rank to
unfolding require_transfer_transition StockTransferState-discrete
rank_step requested to h = ground arith
rank_step _ to h = ground arith

rank-move :
    (state : StockTransferState) (path : List StockTransferState) {last : StockTransferState}
    → move state path ≡ ok last
    → rank state + length path ≤ rank last
unfolding move
rank-move state [] h = ground arith
rank-move state (to ∷ rest) h =
    let (s, step, run) = bind-eq_ok (require_transfer_transition state to) (move to rest) h in
    omega (arith, rank_step state to step, rank-move to rest run)

rank-le : (s : StockTransferState) → rank s ≤ 4
rank-le requested = omega arith
rank-le _ = omega arith

-- Every accepted life of a transfer is short: at most four steps from REQUESTED, so none repeats.
pub move_bounded :
    (path : List StockTransferState) {last : StockTransferState}
    → move requested path ≡ ok last
    → length path ≤ 4
move_bounded path {last} h = omega (arith, rank-move requested path h, rank-le last)

-- how far before RECEIVED the stock has left the source
abbrev has_left : StockTransferState → ℕ
has_left in_transit = 1
has_left received = 1
has_left _ = 0

left_step :
    (from to : StockTransferState) {s : StockTransferState}
    → require_transfer_transition from to ≡ ok s
    → has_left from ≤ has_left to
unfolding require_transfer_transition StockTransferState-discrete
left_step requested to h = ground arith
left_step _ to h = ground arith

left_move :
    (state : StockTransferState) (path : List StockTransferState) {last : StockTransferState}
    → move state path ≡ ok last
    → has_left state ≤ has_left last
unfolding move
left_move state [] h = ground arith
left_move state (to ∷ rest) h =
    let (s, step, run) = bind-eq_ok (require_transfer_transition state to) (move to rest) h in
    omega (arith, left_step state to step, left_move to rest run)

-- Stock that is in transit is never cancelled away: no accepted path leads from IN_TRANSIT to
-- CANCELLED.
pub in_transit_not_cancelled :
    (path : List StockTransferState) → ¬ (move in_transit path ≡ ok cancelled)
in_transit_not_cancelled path h = omega (arith, left_move in_transit path h)

received_last :
    (from : StockTransferState) {s : StockTransferState}
    → require_transfer_transition from received ≡ ok s
    → from ≡ in_transit
unfolding require_transfer_transition StockTransferState-discrete
received_last requested h = ground arith
received_last _ h = ground arith

-- A transfer that becomes RECEIVED was IN_TRANSIT: every accepted path to RECEIVED that takes a
-- step passes through IN_TRANSIT, or starts there.
pub received_through_transit :
    (state : StockTransferState) (path : List StockTransferState)
    → move state path ≡ ok received
    → state ≢ received
    → includes in_transit (state ∷ path) ≡ true
unfolding move StockTransferState-discrete
received_through_transit received path h n = absurd (n refl)
received_through_transit state [] h n = cc
received_through_transit state (received ∷ rest) h n =
    let (s, step, run) =
      bind-eq_ok (require_transfer_transition state received) (move received rest) h in
    ground (arith, received_last state step)
received_through_transit state (to ∷ rest) h n =
    let (s, step, run) = bind-eq_ok (require_transfer_transition state to) (move to rest) h in
    ground (arith, received_through_transit to rest run)

abbrev alert_rank : InventoryAlertState → ℕ
alert_rank opened = 0
alert_rank acknowledged = 1
alert_rank alert_assigned = 2
alert_rank resolved = 3

alert_step :
    (from to : InventoryAlertState) {s : InventoryAlertState}
    → require_alert_transition from to ≡ ok s
    → alert_rank from < alert_rank to
unfolding require_alert_transition InventoryAlertState-discrete
alert_step opened to h = ground arith
alert_step _ to h = ground arith

-- An alert only moves forward: along any accepted path each step raises its rank, so it is resolved
-- at most once and never reopened.
pub alert_forward :
    (state : InventoryAlertState) (path : List InventoryAlertState) {last : InventoryAlertState}
    → move_alert state path ≡ ok last
    → alert_rank state + length path ≤ alert_rank last
unfolding move_alert
alert_forward state [] h = ground arith
alert_forward state (to ∷ rest) h =
    let (s, step, run) = bind-eq_ok (require_alert_transition state to) (move_alert to rest) h in
    omega (arith, alert_step state to step, alert_forward to rest run)
