-- ===== src/Simulator/Sync/Convergence.antt =====
-- simulator.ts: what the release check asks of the queues as INVENTORY_CONVERGENCE, for every choice
-- of losses, duplicates and orders.
use mathlib.Core.Path.{subst}
use eventcommerce_os.Base.{
  ◌≡◌, refl, sym, ap, ◌∙◌, ℕ, ◌+◌, zero, suc, String, Bool, true, false, not, ◌&&◌, ◌||◌, List, [],
  ◌∷◌, map, string_eq, includes, Bool-cases, inl, inr, if◌then◌else◌,
}
use eventcommerce_os.Base.Int.{ℤ, pos, ◌+ℤ◌, int_laws}
use eventcommerce_os.Simulator.Sync.{
  SyncMutation, SyncState, InventoryKey, stock, apply_at_cloud, accept, keep, draw, drain_local,
  drain_local_queue, rotate, drain_edge, drain_edge_queue, reorder, is_long, note_slow,
}
use eventcommerce_os.Simulator.Sync.Balance.{
  Balanced, includes_snoc, accept-Balanced, deliver-Balanced,
}
use eventcommerce_os.Simulator.Sync.Pending.{pending, id_of, pending-rotate, Agrees}

-- what is balanced is the stocks, the applied ids and the queue
rebalance :
    (s t : SyncState)
    → t.edge_inventory ≡ s.edge_inventory
    → t.cloud_inventory ≡ s.cloud_inventory
    → t.edge_applied ≡ s.edge_applied
    → t.cloud_applied ≡ s.cloud_applied
    → t.edge_queue ≡ s.edge_queue
    → Balanced s
    → Balanced t
rebalance s t e₁ e₂ e₃ e₄ e₅ b = record {
  balance = λ key. rw (e₁, e₂, e₄, e₅) (b.balance key);
  covered = λ i. rw (e₃, e₄, e₅) (b.covered i);
}

drain_local-Balanced :
    (coins : ℕ → Bool) (reachable : String → Bool) (capacity : ℕ) (queue : List SyncMutation)
    (s : SyncState)
    → Balanced s
    → Balanced (drain_local coins reachable capacity queue s)
unfolding drain_local
drain_local-Balanced coins reachable capacity [] s b = b
drain_local-Balanced coins reachable zero (m ∷ queue) s b =
    drain_local-Balanced coins reachable zero queue (keep m s)
      (rebalance s (keep m s) refl refl refl refl refl b)
drain_local-Balanced coins reachable (suc capacity) (m ∷ queue) s b =
    elim (Bool-cases (not (reachable m.register_id))) [
      | inl away ↦ rw away (
          drain_local-Balanced coins reachable (suc capacity) queue (keep m s)
            (rebalance s (keep m s) refl refl refl refl refl b))
      | inr near ↦ elim (Bool-cases (coins s.drawn)) [
        | inl lost ↦
            let s' = keep m (
              draw
                (record s { simulated_dependency_errors = s.simulated_dependency_errors + 1 })) in
            rw (near, lost)
              (drain_local-Balanced coins reachable (suc capacity) queue s'
                (rebalance s s' refl refl refl refl refl b))
        | inr sent ↦
            let s' = accept (coins (s.drawn + 1)) m (draw s) in
            rw (near, sent)
              (drain_local-Balanced coins reachable capacity queue (draw s') (
                rebalance s' (draw s') refl refl refl refl refl (
                  accept-Balanced (coins (s.drawn + 1)) m (draw s)
                    (rebalance s (draw s) refl refl refl refl refl b))))
      ]
    ]

-- Whatever the losses, the unreachable registers and the duplicates, a second of `drainLocalQueue`
-- keeps the balance: the edge's stock stays the cloud's with what is queued for it, each mutation
-- counted once.
pub drain_local_queue-Balanced :
    (coins : ℕ → Bool) (reachable : String → Bool) (s : SyncState)
    → Balanced s
    → Balanced (drain_local_queue coins reachable s)
unfolding drain_local_queue
drain_local_queue-Balanced coins reachable s b =
    let s' : SyncState = record s { local_queue = [] } in
    drain_local-Balanced coins reachable 250 s.local_queue s'
      (rebalance s s' refl refl refl refl refl b)

drain_edge-Balanced :
    (coins : ℕ → Bool) (capacity : ℕ) (queue : List SyncMutation) (s : SyncState)
    → Balanced (record s { edge_queue = queue })
    → Balanced (drain_edge coins capacity queue s)
unfolding drain_edge
drain_edge-Balanced coins capacity [] s b = b
drain_edge-Balanced coins zero (m ∷ queue) s b = b
drain_edge-Balanced coins (suc capacity) (m ∷ queue) s b = elim (Bool-cases (coins s.drawn)) [
  | inl lost ↦
      rw lost (rebalance (record s { edge_queue = m ∷ queue }) _ refl refl refl refl refl b)
  | inr sent ↦ rw sent (
      drain_edge-Balanced coins capacity queue (apply_at_cloud m (draw s)) (
        deliver-Balanced m queue (draw s) (
          rebalance (record s { edge_queue = m ∷ queue })
            (record (draw s) { edge_queue = m ∷ queue }) refl refl refl refl refl b)))
]

-- every mutation with the id of the queue's first one changes the same stock
abbrev pub HeadAgrees : InventoryKey → List SyncMutation → Type 0
HeadAgrees key [] = Unit
HeadAgrees key (m ∷ queue) = Agrees key m queue

includes-rotate :
    (i : String) (queue : List SyncMutation)
    → includes i (map id_of (rotate queue)) ≡ includes i (map id_of queue)
includes-rotate i [] = refl
includes-rotate i (m ∷ []) = refl
includes-rotate i (m ∷ x ∷ queue) = includes_snoc i (x ∷ queue) m

rotate-Balanced :
    (s : SyncState) (queue : List SyncMutation)
    → ((key : InventoryKey) → HeadAgrees key queue)
    → Balanced (record s { edge_queue = queue })
    → Balanced (record s { edge_queue = rotate queue })
rotate-Balanced s [] agrees b = b
rotate-Balanced s (m ∷ []) agrees b = b
rotate-Balanced s (m ∷ x ∷ queue) agrees b = record {
  balance = λ key.
      b.balance key
      ∙ ap (λ p. stock key s.cloud_inventory +ℤ p)
          (sym (pending-rotate key s.cloud_applied m (x ∷ queue) (agrees key)));
  covered = λ i.
      b.covered i
      ∙ ap (λ c. includes i s.cloud_applied || c) (sym (includes-rotate i (m ∷ x ∷ queue)));
}

reorder-Balanced :
    (coins : ℕ → Bool) (reorders : Bool) (s : SyncState)
    → ((key : InventoryKey) → HeadAgrees key s.edge_queue)
    → Balanced s
    → Balanced (reorder coins reorders s)
reorder-Balanced coins reorders s agrees b = elim (Bool-cases (reorders && is_long s.edge_queue)) [
  | inl asked ↦ elim (Bool-cases (coins s.drawn)) [
    | inl turned ↦
        let s' : SyncState = record s { edge_queue = rotate s.edge_queue } in
        rw (asked, turned)
          (rebalance s' (record s' { drawn = s.drawn + 1 }) refl refl refl refl refl
            (rotate-Balanced s s.edge_queue agrees b))
    | inr straight ↦ rw (asked, straight) (rebalance s (draw s) refl refl refl refl refl b)
  ]
  | inr kept ↦ rw kept b
]

note_slow-Balanced :
    (slow : Bool) (queue : List SyncMutation) (s : SyncState)
    → Balanced s
    → Balanced (note_slow slow queue s)
note_slow-Balanced true (m ∷ queue) s b =
    rebalance s (note_slow true (m ∷ queue) s) refl refl refl refl refl b
note_slow-Balanced true [] s b = b
note_slow-Balanced false queue s b = b

note_slow-queue :
    (slow : Bool) (queue : List SyncMutation) (s : SyncState)
    → (note_slow slow queue s).edge_queue ≡ s.edge_queue
note_slow-queue true (m ∷ queue) s = refl
note_slow-queue true [] s = refl
note_slow-queue false queue s = refl

drain_edge_queue-Balanced :
    (coins : ℕ → Bool) (available slow reorders : Bool) (s : SyncState)
    → ((key : InventoryKey) → HeadAgrees key s.edge_queue)
    → Balanced s
    → Balanced (drain_edge_queue coins available slow reorders s)
unfolding drain_edge_queue
drain_edge_queue-Balanced coins false slow reorders s agrees b = b
drain_edge_queue-Balanced coins true slow reorders s agrees b =
    let t = note_slow slow s.edge_queue s in
    let s' = reorder coins reorders t in
    drain_edge-Balanced coins (if slow then 20 else 300) s'.edge_queue s' (
      reorder-Balanced coins reorders t
        (λ key. subst (HeadAgrees key) (sym (note_slow-queue slow s.edge_queue s)) (agrees key))
        (note_slow-Balanced slow s.edge_queue s b))

zero_rest : (a : ℤ) → a +ℤ pos 0 ≡ a
zero_rest a = grind int_laws

none_pending : (key : InventoryKey) (done : List String) (a : ℤ) → a +ℤ pending key done [] ≡ a
unfolding pending
none_pending key done a = zero_rest a

or_false : (a : Bool) → (a || false) ≡ a
or_false true = refl
or_false false = refl

-- The edge and the cloud converge: from a balanced state, with whatever losses, reordering and
-- duplicates, when `drainEdgeQueue` leaves its queue empty the cloud has the edge's stock of every SKU
-- at every bar and has applied the same mutations. It is assumed of the queue that mutations with the
-- id of the first one change the same stock.
pub drain_edge_queue-converges :
    (coins : ℕ → Bool) (available slow reorders : Bool) (s : SyncState)
    → ((key : InventoryKey) → HeadAgrees key s.edge_queue)
    → Balanced s
    → (drain_edge_queue coins available slow reorders s).edge_queue ≡ []
    → ((key : InventoryKey)
        → stock key (drain_edge_queue coins available slow reorders s).edge_inventory
          ≡ stock key (drain_edge_queue coins available slow reorders s).cloud_inventory)
      × ((i : String)
          → includes i (drain_edge_queue coins available slow reorders s).edge_applied
            ≡ includes i (drain_edge_queue coins available slow reorders s).cloud_applied)
drain_edge_queue-converges coins available slow reorders s agrees b empty =
    let t = drain_edge_queue coins available slow reorders s in
    let after = drain_edge_queue-Balanced coins available slow reorders s agrees b in
    (
      λ key.
          after.balance key
          ∙ ap (λ q. stock key t.cloud_inventory +ℤ pending key t.cloud_applied q) empty
          ∙ none_pending key t.cloud_applied (stock key t.cloud_inventory),
      λ i.
          after.covered i
          ∙ ap (λ q. includes i t.cloud_applied || includes i (map id_of q)) empty
          ∙ or_false (includes i t.cloud_applied),
    )
