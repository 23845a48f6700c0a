-- ===== src/Simulator/Sync.antt =====
-- packages/simulator/src/simulator.ts: the queues between the registers, the edge and the cloud, with
-- losses, duplicates and reordering. A call of `random.chance` is a value of the function `coins`;
-- what is available in a second, and the capacities, are arguments. Stock is counted in whole units.
pub mod Pending
pub mod Balance
pub mod Convergence
mod Tests
use eventcommerce_os.Base.{
  ℕ, ◌+◌, zero, suc, String, Option, none, some, Bool, true, false, ◌&&◌, ◌||◌, not, List, [], ◌∷◌,
  ◌++◌, map, ◌==◌, string_eq, nat_eq, Eq, includes, if◌then◌else◌,
}
use eventcommerce_os.Base.Int.{ℤ, pos, ◌+ℤ◌}
use eventcommerce_os.Base.Maps.{map_get, map_set}

pub data MutationKind : Type 0 where
  order_mutation inventory_mutation : MutationKind

pub record SyncMutation : Type 0 where
  pub id : String
  pub register_id : String
  pub kind : MutationKind
  pub order_id : String
  pub bar_index : Option ℕ
  pub sku_id : Option String
  pub quantity_delta : Option ℤ

-- `${barIndex}|${skuId}`: the bar's number has no bar sign, so the text stands for the pair
abbrev pub InventoryKey : Type 0
InventoryKey = ℕ × String

unfoldable pub InventoryKey-discrete : Discrete InventoryKey
InventoryKey-discrete = hlevel (nat_eq.dec_eq, string_eq.dec_eq)

instance abbrev pub inventory_key_eq : Eq InventoryKey
inventory_key_eq = record { dec_eq = InventoryKey-discrete }

abbrev pub Inventory : Type 0
Inventory = List (InventoryKey × ℤ)

pub record SyncState : Type 0 where
  pub edge_inventory : Inventory
  pub cloud_inventory : Inventory
  pub local_queue : List SyncMutation
  pub edge_queue : List SyncMutation
  pub edge_applied : List String
  pub cloud_applied : List String
  pub cloud_orders : List String
  pub duplicate_sync_deliveries : ℕ
  pub duplicate_business_effects : ℕ
  pub simulated_dependency_errors : ℕ
  -- how many coins were drawn
  pub drawn : ℕ

abbrev pub or_zero : Option ℤ → ℤ
or_zero none = pos 0
or_zero (some q) = q

-- `inventory.get(key) ?? 0`
abbrev pub stock : InventoryKey → Inventory → ℤ
stock key inventory = or_zero (map_get key inventory)

abbrev pub change_from :
    MutationKind → Option ℕ → Option String → Option ℤ → Option (InventoryKey × ℤ)
change_from inventory_mutation (some bar) (some sku) (some quantity) = some ((bar, sku), quantity)
change_from _ _ _ _ = none

-- the stock that a mutation changes, and by how much
abbrev pub change_of : SyncMutation → Option (InventoryKey × ℤ)
change_of m = change_from m.kind m.bar_index m.sku_id m.quantity_delta

unfoldable pub add_stock : Option (InventoryKey × ℤ) → Inventory → Inventory
add_stock none inventory = inventory
add_stock (some (key, quantity)) inventory = map_set key (stock key inventory +ℤ quantity) inventory

unfoldable pub apply_at_edge : SyncMutation → SyncState → SyncState
unfolding add_stock
apply_at_edge m s = if includes m.id s.edge_applied then s else record s {
  edge_applied = m.id ∷ s.edge_applied;
  edge_inventory = add_stock (change_of m) s.edge_inventory;
}

-- the cloud's orders after one more, and whether that was a duplicate
abbrev pub add_order : MutationKind → String → SyncState → SyncState
add_order inventory_mutation order s = s
add_order order_mutation order s =
    if includes order s.cloud_orders
    then record s { duplicate_business_effects = s.duplicate_business_effects + 1 }
    else record s { cloud_orders = order ∷ s.cloud_orders }

unfoldable pub apply_at_cloud : SyncMutation → SyncState → SyncState
unfolding add_stock
apply_at_cloud m s =
    if includes m.id s.cloud_applied
    then record s { duplicate_sync_deliveries = s.duplicate_sync_deliveries + 1 }
    else (let s' = add_order m.kind m.order_id s in
        record s' {
          cloud_applied = m.id ∷ s.cloud_applied;
          cloud_inventory = add_stock (change_of m) s.cloud_inventory;
        })

-- `this.edgeQueue.push(mutation)`
abbrev pub push : SyncMutation → SyncState → SyncState
push m s = record s { edge_queue = s.edge_queue ++ (m ∷ []) }

abbrev pub draw : SyncState → SyncState
draw s = record s { drawn = s.drawn + 1 }

-- a mutation that reaches the edge, once or twice in its queue for the cloud
unfoldable pub accept : Bool → SyncMutation → SyncState → SyncState
unfolding apply_at_edge
accept twice m s = let s' = push m (apply_at_edge m s) in if twice then push m s' else s'

abbrev pub keep : SyncMutation → SyncState → SyncState
keep m s = record s { local_queue = s.local_queue ++ (m ∷ []) }

-- the loop of `drainLocalQueue` over the queue that it found; `capacity` is what may still move, and
-- what does not move is kept in its order
unfoldable pub drain_local :
    (ℕ → Bool) → (String → Bool) → ℕ → List SyncMutation → SyncState → SyncState
unfolding accept
drain_local coins reachable capacity [] s = s
drain_local coins reachable zero (m ∷ queue) s = drain_local coins reachable zero queue (keep m s)
drain_local coins reachable (suc capacity) (m ∷ queue) s =
    if not (reachable m.register_id)
    then drain_local coins reachable (suc capacity) queue (keep m s)
    else if coins s.drawn
    then drain_local coins reachable (suc capacity) queue (
        keep m
          (draw (record s { simulated_dependency_errors = s.simulated_dependency_errors + 1 })))
    else drain_local coins reachable capacity queue (draw (accept (coins (s.drawn + 1)) m (draw s)))

unfoldable pub drain_local_queue : (ℕ → Bool) → (String → Bool) → SyncState → SyncState
unfolding drain_local
drain_local_queue coins reachable s =
    drain_local coins reachable 250 s.local_queue (record s { local_queue = [] })

-- the first of at least two mutations goes to the end
abbrev pub rotate : List SyncMutation → List SyncMutation
rotate (first ∷ second ∷ rest) = (second ∷ rest) ++ (first ∷ [])
rotate queue = queue

-- the `while` of `drainEdgeQueue` over the queue; what is left stays queued
unfoldable pub drain_edge : (ℕ → Bool) → ℕ → List SyncMutation → SyncState → SyncState
unfolding apply_at_cloud
drain_edge coins capacity [] s = record s { edge_queue = [] }
drain_edge coins zero (m ∷ queue) s = record s { edge_queue = m ∷ queue }
drain_edge coins (suc capacity) (m ∷ queue) s =
    let next = drain_edge coins capacity queue (apply_at_cloud m (draw s)) in
    if coins s.drawn
    then record s {
      edge_queue = m ∷ queue;
      simulated_dependency_errors = s.simulated_dependency_errors + 1;
      drawn = s.drawn + 1;
    }
    else next

abbrev pub is_long : List SyncMutation → Bool
is_long (first ∷ second ∷ rest) = true
is_long _ = false

-- the reordering step of `drainEdgeQueue`; `reorders` is whether the fault is configured
abbrev pub reorder : (ℕ → Bool) → Bool → SyncState → SyncState
reorder coins reorders s =
    if reorders && is_long s.edge_queue
    then if coins s.drawn
      then record s { edge_queue = rotate s.edge_queue; drawn = s.drawn + 1 }
      else draw s
    else s

-- a slow database is an error while there is something to do
abbrev pub note_slow : Bool → List SyncMutation → SyncState → SyncState
note_slow true (m ∷ queue) s = record s {
  simulated_dependency_errors = s.simulated_dependency_errors + 1;
}
note_slow _ _ s = s

unfoldable pub drain_edge_queue : (ℕ → Bool) → Bool → Bool → Bool → SyncState → SyncState
unfolding drain_edge
drain_edge_queue coins available slow reorders s =
    let s' = reorder coins reorders (note_slow slow s.edge_queue s) in
    let drained = drain_edge coins (if slow then 20 else 300) s'.edge_queue s' in
    if not available then s else drained
