-- ===== src/Simulator/Sync/Pending.antt =====
-- simulator.ts: the stock changes that are on their way to the cloud.
use eventcommerce_os.Base.{
  ◌≡◌, refl, sym, ap, ◌∙◌, String, Option, none, some, Bool, true, false, ◌||◌, List, [], ◌∷◌, ◌++◌,
  map, ◌==◌, string_eq, ==_iff, ==_refl, includes, All, arith, Bool-cases, inl, inr, if◌then◌else◌,
}
use eventcommerce_os.Base.Int.{ℤ, pos, ◌+ℤ◌, int_laws}
use eventcommerce_os.Base.Maps.{map_get-map_set}
use eventcommerce_os.Simulator.Sync.{
  SyncMutation, InventoryKey, inventory_key_eq, Inventory, stock, change_of, add_stock,
}

-- what a change does to the stock of a key
abbrev pub delta : InventoryKey → Option (InventoryKey × ℤ) → ℤ
delta key none = pos 0
delta key (some (k, quantity)) = if k == key then quantity else pos 0

zero_right : (a : ℤ) → a ≡ a +ℤ pos 0
zero_right a = grind int_laws

pub stock-add_stock :
    (key : InventoryKey) (change : Option (InventoryKey × ℤ)) (inventory : Inventory)
    → stock key (add_stock change inventory) ≡ stock key inventory +ℤ delta key change
unfolding add_stock
stock-add_stock key none inventory = zero_right (stock key inventory)
stock-add_stock key (some (k, quantity)) inventory = elim (Bool-cases (k == key)) [
  | inl e ↦
      rw (map_get-map_set key k (stock k inventory +ℤ quantity) inventory, e)
        (ap (λ j. stock j inventory +ℤ quantity) (same k key e))
  | inr e ↦
      rw (map_get-map_set key k (stock k inventory +ℤ quantity) inventory, e)
        (zero_right (stock key inventory))
]
  where
    same : (j k : InventoryKey) → (j == k) ≡ true → j ≡ k
    same j k h = ground (arith, ==_iff j k)

-- what the cloud will have added to a key's stock when it has the queue, if it has applied `done`
unfoldable pub pending : InventoryKey → List String → List SyncMutation → ℤ
pending key done [] = pos 0
pending key done (m ∷ queue) =
    let seen = pending key done queue in
    let fresh = delta key (change_of m) +ℤ pending key (m.id ∷ done) queue in
    if includes m.id done then seen else fresh

abbrev pub id_of : SyncMutation → String
id_of m = m.id

-- `pending` looks at what was applied by its ids only.
pub pending-ext :
    (key : InventoryKey) (a b : List String) (queue : List SyncMutation)
    → ((i : String) → includes i a ≡ includes i b)
    → pending key a queue ≡ pending key b queue
unfolding pending
pending-ext key a b [] h = refl
pending-ext key a b (m ∷ queue) h = elim (Bool-cases (includes m.id a)) [
  | inl e ↦ rw (e, sym (h m.id) ∙ e) (pending-ext key a b queue h)
  | inr e ↦
      rw (e, sym (h m.id) ∙ e)
        (ap (λ p. delta key (change_of m) +ℤ p)
          (pending-ext key (m.id ∷ a) (m.id ∷ b) queue (λ i. ap (λ c. (m.id == i) || c) (h i))))
]

seen_again :
    (x m : String) (done : List String) (c : Bool)
    → includes x done ≡ true
    → (includes m done || (x == m || c)) ≡ (includes m done || c)
seen_again x m done c h = elim (Bool-cases (x == m)) [
  | inl e ↦
      let there : includes m done ≡ true =
        ap (λ i. includes i done) (ground (arith, ==_iff x m)) ∙ h in
      rw there refl
  | inr e ↦ rw e refl
]

swap_or : (a b c : Bool) → (b || (a || c)) ≡ ((a || b) || c)
swap_or true true c = refl
swap_or true false c = refl
swap_or false true c = refl
swap_or false false c = refl

turn_or : (a b c : Bool) → (b || (a || c)) ≡ (a || (b || c))
turn_or true true c = refl
turn_or true false c = refl
turn_or false true c = refl
turn_or false false c = refl

-- a sum under a choice
add_under :
    (b : Bool) (x p d : ℤ) → x +ℤ (if b then p else p +ℤ d) ≡ (if b then x +ℤ p else (x +ℤ p) +ℤ d)
add_under true x p d = refl
add_under false x p d = grind int_laws

-- A mutation at the end counts if it is neither applied nor queued.
pub pending-snoc :
    (key : InventoryKey) (done : List String) (queue : List SyncMutation) (m : SyncMutation)
    → pending key done (queue ++ (m ∷ [])) ≡ (
        if includes m.id done || includes m.id (map id_of queue)
        then pending key done queue
        else pending key done queue +ℤ delta key (change_of m))
unfolding pending
pending-snoc key done [] m = elim (Bool-cases (includes m.id done)) [
  | inl e ↦ rw (e) refl
  | inr e ↦ rw (e) (grind int_laws)
]
pending-snoc key done (x ∷ queue) m = elim (Bool-cases (includes x.id done)) [
  | inl e ↦
      rw (e, seen_again x.id m.id done (includes m.id (map id_of queue)) e)
        (pending-snoc key done queue m)
  | inr e ↦
      rw (e, swap_or (x.id == m.id) (includes m.id done) (includes m.id (map id_of queue)))
        (ap (λ p. delta key (change_of x) +ℤ p) (pending-snoc key (x.id ∷ done) queue m)
          ∙ add_under ((x.id == m.id || includes m.id done) || includes m.id (map id_of queue))
              (delta key (change_of x)) (pending key (x.id ∷ done) queue) (delta key (change_of m)))
]

-- two mutations with one id are one mutation
abbrev pub Agrees : InventoryKey → SyncMutation → List SyncMutation → Type 0
Agrees key m queue =
    All (λ (x : SyncMutation). x.id ≡ m.id → delta key (change_of x) ≡ delta key (change_of m))
      queue

add_zero : (a : ℤ) → a +ℤ pos 0 ≡ pos 0 +ℤ a
add_zero a = grind int_laws

swap_add : (a b c : ℤ) → a +ℤ (b +ℤ c) ≡ b +ℤ (a +ℤ c)
swap_add a b c = grind int_laws

-- the later place of a mutation, when it is there
twin :
    (key : InventoryKey) (done : List String) (queue : List SyncMutation) (m x : SyncMutation)
    → includes m.id done ≡ false
    → x.id ≡ m.id
    → (x.id == m.id) ≡ true
    → delta key (change_of x) ≡ delta key (change_of m)
    → delta key (change_of m) +ℤ pending key (m.id ∷ done) (x ∷ queue) ≡ (
        if includes m.id (map id_of (x ∷ queue))
        then pending key done (x ∷ queue)
        else pending key done (x ∷ queue) +ℤ delta key (change_of m))
unfolding pending
twin key done queue m x new same e agree =
    let new' : includes x.id done ≡ false = ap (λ i. includes i done) same ∙ new in
    let at : (m.id == x.id) ≡ true = ap (λ i. m.id == i) same ∙ ==_refl m.id in
    rw (at, e, new')
      (ap (λ p. p +ℤ pending key (m.id ∷ done) queue) (sym agree)
        ∙ ap (λ i. delta key (change_of x) +ℤ pending key (i ∷ done) queue) (sym same))

==_sym : (a b : String) → (b == a) ≡ false → (a == b) ≡ false
==_sym a b h = ground (arith, ==_iff a b, ==_iff b a)

-- A mutation that is not applied counts once: at the front, or at its later place.
pending-front :
    (key : InventoryKey) (done : List String) (queue : List SyncMutation) (m : SyncMutation)
    → includes m.id done ≡ false
    → Agrees key m queue
    → delta key (change_of m) +ℤ pending key (m.id ∷ done) queue ≡ (
        if includes m.id (map id_of queue)
        then pending key done queue
        else pending key done queue +ℤ delta key (change_of m))
unfolding pending
pending-front key done [] m new agrees = add_zero (delta key (change_of m))
pending-front key done (x ∷ queue) m new (agree, agrees) = elim (Bool-cases (x.id == m.id)) [
  | inl e ↦
      let same : x.id ≡ m.id = ground (arith, ==_iff x.id m.id) in
      twin key done queue m x new same e (agree same)
  | inr e ↦ elim (Bool-cases (includes x.id done)) [
    | inl seen ↦ rw (e, seen, ==_sym m.id x.id e) (pending-front key done queue m new agrees)
    | inr fresh ↦
        let swapped =
          pending-ext key (x.id ∷ m.id ∷ done) (m.id ∷ x.id ∷ done) queue
            (λ i. turn_or (m.id == i) (x.id == i) (includes i done)) in
        let rest = pending-front key (x.id ∷ done) queue m (rw (e, new) refl) agrees in
        rw (e, fresh, ==_sym m.id x.id e)
          (swap_add (delta key (change_of m)) (delta key (change_of x))
              (pending key (x.id ∷ m.id ∷ done) queue)
            ∙ ap (λ p. delta key (change_of x) +ℤ (delta key (change_of m) +ℤ p)) swapped
            ∙ ap (λ p. delta key (change_of x) +ℤ p) rest
            ∙ add_under (includes m.id (map id_of queue)) (delta key (change_of x))
                (pending key (x.id ∷ done) queue) (delta key (change_of m)))
  ]
]

-- Putting the first mutation at the end of the queue changes nothing for the cloud's stock.
pub pending-rotate :
    (key : InventoryKey) (done : List String) (m : SyncMutation) (queue : List SyncMutation)
    → Agrees key m queue
    → pending key done (queue ++ (m ∷ [])) ≡ pending key done (m ∷ queue)
unfolding pending
pending-rotate key done m queue agrees = elim (Bool-cases (includes m.id done)) [
  | inl e ↦ rw e (rw e at (pending-snoc key done queue m))
  | inr e ↦
      rw e
        ((rw e at (pending-snoc key done queue m)) ∙ sym (pending-front key done queue m e agrees))
]
