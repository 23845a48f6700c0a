-- ===== src/Domain/Transitions.antt =====
-- packages/domain/src/inventory.ts: the state machines of stock transfers and inventory alerts.
pub mod Paths
use eventcommerce_os.Base.{
  Bool, not, List, [], ◌∷◌, Eq, includes, Result, ok, throw_if, error, String, template,
}
use eventcommerce_os.Base.Do.{◌>>◌}

pub data StockTransferState : Type 0 where
  requested assigned picking in_transit received cancelled : StockTransferState

unfoldable pub StockTransferState-discrete : Discrete StockTransferState
StockTransferState-discrete = hlevel

instance abbrev pub transfer_state_eq : Eq StockTransferState
transfer_state_eq = record { dec_eq = StockTransferState-discrete }

abbrev pub transfer_state_name : StockTransferState → String
transfer_state_name requested = "REQUESTED"
transfer_state_name assigned = "ASSIGNED"
transfer_state_name picking = "PICKING"
transfer_state_name in_transit = "IN_TRANSIT"
transfer_state_name received = "RECEIVED"
transfer_state_name cancelled = "CANCELLED"

abbrev pub transfer_transitions : StockTransferState → List StockTransferState
transfer_transitions requested = assigned ∷ cancelled ∷ []
transfer_transitions assigned = picking ∷ cancelled ∷ []
transfer_transitions picking = in_transit ∷ cancelled ∷ []
transfer_transitions in_transit = received ∷ []
transfer_transitions received = []
transfer_transitions cancelled = []

unfoldable pub require_transfer_transition :
    StockTransferState → StockTransferState → Result StockTransferState
require_transfer_transition from to = do
  throw_if (not (includes to (transfer_transitions from))) (
      error (
        template (
          "invalid stock transfer transition "
          ∷ transfer_state_name from
          ∷ " -> "
          ∷ transfer_state_name to
          ∷ [])))
  ok to

pub data InventoryAlertState : Type 0 where
  opened acknowledged alert_assigned resolved : InventoryAlertState

unfoldable pub InventoryAlertState-discrete : Discrete InventoryAlertState
InventoryAlertState-discrete = hlevel

instance abbrev pub alert_state_eq : Eq InventoryAlertState
alert_state_eq = record { dec_eq = InventoryAlertState-discrete }

abbrev pub alert_state_name : InventoryAlertState → String
alert_state_name opened = "OPEN"
alert_state_name acknowledged = "ACKNOWLEDGED"
alert_state_name alert_assigned = "ASSIGNED"
alert_state_name resolved = "RESOLVED"

abbrev pub alert_transitions : InventoryAlertState → List InventoryAlertState
alert_transitions opened = acknowledged ∷ alert_assigned ∷ resolved ∷ []
alert_transitions acknowledged = alert_assigned ∷ resolved ∷ []
alert_transitions alert_assigned = resolved ∷ []
alert_transitions resolved = []

unfoldable pub require_alert_transition :
    InventoryAlertState → InventoryAlertState → Result InventoryAlertState
require_alert_transition from to = do
  throw_if (not (includes to (alert_transitions from))) (
      error (
        template (
          "invalid inventory alert transition "
          ∷ alert_state_name from
          ∷ " -> "
          ∷ alert_state_name to
          ∷ [])))
  ok to
