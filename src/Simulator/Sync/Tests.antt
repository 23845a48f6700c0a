-- ===== src/Simulator/Sync/Tests.antt =====
-- simulator.ts: the theorems at one sale at the first bar.
use eventcommerce_os.Base.{
  ◌≡◌, refl, ◌==◌, nat_eq, ℕ, String, some, true, false, Bool, [], ◌∷◌, includes, string_eq,
  String-discrete,
}
use native.Mathlib.Decide.{ℕ_discrete}
use eventcommerce_os.Base.Int.{ℤ, pos, negsuc, ◌+ℤ◌, int_laws}
use eventcommerce_os.Simulator.Sync.{
  SyncState, SyncMutation, InventoryKey, InventoryKey-discrete, inventory_mutation, stock,
  drain_local_queue, drain_edge_queue,
}
use eventcommerce_os.Simulator.Sync.Balance.{Balanced}
use eventcommerce_os.Simulator.Sync.Convergence.{
  HeadAgrees, drain_local_queue-Balanced, drain_edge_queue-converges,
}
use eventcommerce_os.Simulator.Sync.Pending.{pending}

abbrev sale : SyncMutation
sale = record {
  id = "order-1:inventory:beer";
  register_id = "bar-1-register-1";
  kind = inventory_mutation;
  order_id = "order-1";
  bar_index = some 0;
  sku_id = some "beer";
  quantity_delta = some (negsuc 0);
}

abbrev opening : SyncState
opening = record {
  edge_inventory = ((0, "beer"), pos 10) ∷ [];
  cloud_inventory = ((0, "beer"), pos 10) ∷ [];
  local_queue = sale ∷ [];
  edge_queue = [];
  edge_applied = [];
  cloud_applied = [];
  cloud_orders = [];
  duplicate_sync_deliveries = 0;
  duplicate_business_effects = 0;
  simulated_dependency_errors = 0;
  drawn = 0;
}

unchanged : (a : ℤ) → a ≡ a +ℤ pos 0
unchanged a = grind int_laws

opening-Balanced : Balanced opening
unfolding pending
opening-Balanced = record {
  balance = λ key. unchanged (stock key opening.edge_inventory);
  covered = λ i. refl;
}

-- the second coin has the sale sent twice, the others lose and repeat nothing
abbrev coins : ℕ → Bool
coins n = n == 1

abbrev sent : SyncState
sent = drain_local_queue coins (λ register. true) opening

drain_local_queue-Balanced_example : Balanced (drain_local_queue coins (λ register. true) opening)
drain_local_queue-Balanced_example =
    drain_local_queue-Balanced coins (λ register. true) opening opening-Balanced

sent_agrees : (key : InventoryKey) → HeadAgrees key sent.edge_queue
unfolding drain_local_queue ℕ_discrete String-discrete
sent_agrees key = ((λ e. refl), tt)

sent_drained : (drain_edge_queue coins true false false sent).edge_queue ≡ []
unfolding drain_local_queue drain_edge_queue ℕ_discrete String-discrete InventoryKey-discrete ◌+ℤ◌
sent_drained = refl

drain_edge_queue-converges_example :
    ((key : InventoryKey)
      → stock key (drain_edge_queue coins true false false sent).edge_inventory
        ≡ stock key (drain_edge_queue coins true false false sent).cloud_inventory)
    × ((i : String)
        → includes i (drain_edge_queue coins true false false sent).edge_applied
          ≡ includes i (drain_edge_queue coins true false false sent).cloud_applied)
drain_edge_queue-converges_example =
    drain_edge_queue-converges coins true false false sent sent_agrees
      (drain_local_queue-Balanced coins (λ register. true) opening opening-Balanced) sent_drained
