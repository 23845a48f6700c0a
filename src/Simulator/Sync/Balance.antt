-- ===== src/Simulator/Sync/Balance.antt =====
-- simulator.ts: the balance between the edge, the cloud and the queue between them.
use mathlib.Core.Path.{subst}
use eventcommerce_os.Base.{
  ◌≡◌, refl, sym, ap, ◌∙◌, String, Bool, true, false, ◌||◌, List, [], ◌∷◌, ◌++◌, map, ◌==◌,
  string_eq, ==_iff, ==_refl, includes, arith, Bool-cases, inl, inr, if◌then◌else◌,
}
use eventcommerce_os.Base.Int.{ℤ, ◌+ℤ◌, int_laws}
use eventcommerce_os.Simulator.Sync.{
  SyncMutation, SyncState, InventoryKey, MutationKind, order_mutation, inventory_mutation, stock,
  change_of, apply_at_edge, apply_at_cloud, add_order, push, accept,
}
use eventcommerce_os.Simulator.Sync.Pending.{delta, pending, id_of, pending-snoc, stock-add_stock}

-- The edge's stock is the cloud's with what is still queued for it, and the edge has applied what the
-- cloud has applied and what is queued.
pub record Balanced (s : SyncState) : Type 0 where
  pub balance :
      (key : InventoryKey)
      → stock key s.edge_inventory
        ≡ stock key s.cloud_inventory +ℤ pending key s.cloud_applied s.edge_queue
  pub covered :
      (i : String)
      → includes i s.edge_applied
        ≡ (includes i s.cloud_applied || includes i (map id_of s.edge_queue))

pub includes_snoc :
    (i : String) (queue : List SyncMutation) (m : SyncMutation)
    → includes i (map id_of (queue ++ (m ∷ []))) ≡ (m.id == i || includes i (map id_of queue))
includes_snoc i [] m = refl
includes_snoc i (x ∷ queue) m =
    turn (x.id == i) (m.id == i) (includes i (map id_of queue)) (includes_snoc i queue m)
  where
    turn : (a b c : Bool) {d : Bool} → d ≡ (b || c) → (a || d) ≡ (b || (a || c))
    turn true true c h = refl
    turn true false c h = refl
    turn false true c h = h
    turn false false c h = h

regroup : (a b c : ℤ) → (a +ℤ b) +ℤ c ≡ a +ℤ (b +ℤ c)
regroup a b c = grind int_laws

or_mid : (a b c : Bool) → (b || (a || c)) ≡ (a || (b || c))
or_mid true true c = refl
or_mid true false c = refl
or_mid false true c = refl
or_mid false false c = refl

or_true : (a : Bool) → (a || true) ≡ true
or_true true = refl
or_true false = refl

-- A mutation that the edge takes in, new or repeated, keeps the balance.
accept_once-Balanced :
    (m : SyncMutation) (s : SyncState) → Balanced s → Balanced (push m (apply_at_edge m s))
unfolding apply_at_edge
accept_once-Balanced m s b = elim (Bool-cases (includes m.id s.edge_applied)) [
  | inl old ↦ rw old (record {
    balance = λ key.
        b.balance key
        ∙ ap (λ p. stock key s.cloud_inventory +ℤ p)
            (sym (
              pending-snoc key s.cloud_applied s.edge_queue m
              ∙ ap
                  (λ c.
                    if c
                    then pending key s.cloud_applied s.edge_queue
                    else pending key s.cloud_applied s.edge_queue +ℤ delta key (change_of m))
                  (sym (b.covered m.id) ∙ old)));
    covered = λ i. covers_old i old;
  })
  | inr new ↦ rw new (record {
    balance = λ key.
        stock-add_stock key (change_of m) s.edge_inventory
        ∙ ap (λ q. q +ℤ delta key (change_of m)) (b.balance key)
        ∙ regroup (stock key s.cloud_inventory) (pending key s.cloud_applied s.edge_queue)
            (delta key (change_of m))
        ∙ ap (λ p. stock key s.cloud_inventory +ℤ p)
            (sym (
              pending-snoc key s.cloud_applied s.edge_queue m
              ∙ ap
                  (λ c.
                    if c
                    then pending key s.cloud_applied s.edge_queue
                    else pending key s.cloud_applied s.edge_queue +ℤ delta key (change_of m))
                  (sym (b.covered m.id) ∙ new)));
    covered = λ i.
        ap (λ c. m.id == i || c) (b.covered i)
        ∙ or_mid (includes i s.cloud_applied) (m.id == i) (includes i (map id_of s.edge_queue))
        ∙ ap (λ c. includes i s.cloud_applied || c) (sym (includes_snoc i s.edge_queue m));
  })
]
  where
    covers_old :
        (i : String)
        → includes m.id s.edge_applied ≡ true
        → includes i s.edge_applied
          ≡ (includes i s.cloud_applied || includes i (map id_of (s.edge_queue ++ (m ∷ []))))
    covers_old i old = elim (Bool-cases (m.id == i)) [
      | inl e ↦
          let at : m.id ≡ i = ground (arith, ==_iff m.id i) in
          sym (
            ap (λ c. includes i s.cloud_applied || c) (includes_snoc i s.edge_queue m)
            ∙ ap (λ c. includes i s.cloud_applied || (c || includes i (map id_of s.edge_queue))) e
            ∙ or_true (includes i s.cloud_applied)
            ∙ sym (ap (λ j. includes j s.edge_applied) (sym at) ∙ old))
      | inr e ↦
          b.covered i
          ∙ ap (λ c. includes i s.cloud_applied || (c || includes i (map id_of s.edge_queue)))
              (sym e)
          ∙ ap (λ c. includes i s.cloud_applied || c) (sym (includes_snoc i s.edge_queue m))
    ]

applied-again :
    (m : SyncMutation) (s : SyncState) → includes m.id s.edge_applied ≡ true → apply_at_edge m s ≡ s
unfolding apply_at_edge
applied-again m s h = rw h refl

applied-id :
    (m : SyncMutation) (s : SyncState)
    → includes m.id (push m (apply_at_edge m s)).edge_applied ≡ true
unfolding apply_at_edge
applied-id m s = elim (Bool-cases (includes m.id s.edge_applied)) [
  | inl old ↦ rw (old, old) refl
  | inr new ↦ rw (new, ==_refl m.id) refl
]

pub accept-Balanced :
    (twice : Bool) (m : SyncMutation) (s : SyncState) → Balanced s → Balanced (accept twice m s)
unfolding accept
accept-Balanced false m s b = accept_once-Balanced m s b
accept-Balanced true m s b =
    let s' = push m (apply_at_edge m s) in
    subst (λ t. Balanced (push m t)) (applied-again m s' (applied-id m s))
      (accept_once-Balanced m s' (accept_once-Balanced m s b))

add_order-same :
    (kind : MutationKind) (order : String) (s : SyncState)
    → ((add_order kind order s).edge_inventory ≡ s.edge_inventory)
      × ((add_order kind order s).edge_applied ≡ s.edge_applied)
add_order-same inventory_mutation order s = (refl, refl)
add_order-same order_mutation order s = elim (Bool-cases (includes order s.cloud_orders)) [
  | inl e ↦ rw e (refl, refl)
  | inr e ↦ rw e (refl, refl)
]

-- The cloud takes the first mutation of the queue.
pub deliver-Balanced :
    (m : SyncMutation) (queue : List SyncMutation) (s : SyncState)
    → Balanced (record s { edge_queue = m ∷ queue })
    → Balanced (record (apply_at_cloud m s) { edge_queue = queue })
unfolding apply_at_cloud pending
deliver-Balanced m queue s b = elim (Bool-cases (includes m.id s.cloud_applied)) [
  | inl old ↦
      rw old (record { balance = λ key. rw old at (b.balance key); covered = λ i. covers i old })
  | inr new ↦
      let (same, same') = add_order-same m.kind m.order_id s in
      rw new (record {
        balance = λ key.
            ap (stock key) same
            ∙ (rw new at (b.balance key))
            ∙ sym (
                regroup (stock key s.cloud_inventory) (delta key (change_of m))
                  (pending key (m.id ∷ s.cloud_applied) queue))
            ∙ ap (λ q. q +ℤ pending key (m.id ∷ s.cloud_applied) queue)
                (sym (stock-add_stock key (change_of m) s.cloud_inventory));
        covered = λ i.
            ap (includes i) same'
            ∙ b.covered i
            ∙ turn (m.id == i) (includes i s.cloud_applied) (includes i (map id_of queue));
      })
]
  where
    turn : (a b c : Bool) → (b || (a || c)) ≡ ((a || b) || c)
    turn true true c = refl
    turn true false c = refl
    turn false true c = refl
    turn false false c = refl

    covers :
        (i : String)
        → includes m.id s.cloud_applied ≡ true
        → includes i s.edge_applied ≡ (includes i s.cloud_applied || includes i (map id_of queue))
    covers i old = elim (Bool-cases (m.id == i)) [
      | inl e ↦
          let at : m.id ≡ i = ground (arith, ==_iff m.id i) in
          let there : includes i s.cloud_applied ≡ true =
            ap (λ j. includes j s.cloud_applied) (sym at) ∙ old in
          b.covered i
          ∙ ap (λ c. c || (m.id == i || includes i (map id_of queue))) there
          ∙ sym (ap (λ c. c || includes i (map id_of queue)) there)
      | inr e ↦
          b.covered i
          ∙ ap (λ c. includes i s.cloud_applied || (c || includes i (map id_of queue))) e
    ]
