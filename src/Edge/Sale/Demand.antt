-- ===== src/Edge/Sale/Demand.antt =====
-- inventory-sale-consumer.service.ts, `consumeOne` and `addMovement`: the movements of a sale against
-- what its lines demand.
use eventcommerce_os.Base.{
  ◌≡◌, refl, String, List, [], ◌∷◌, Option, none, some, Bool, true, false, Result, ok, err, arith,
  ◌==◌, string_eq, if◌then◌else◌, includes, sym, ◌∙◌,
}
use eventcommerce_os.Base.Maps.{map_get, map_get-map_set}
use eventcommerce_os.Base.Int.{ℤ, pos, ◌+ℤ◌, ◌*ℤ◌, int_laws}
use eventcommerce_os.Domain.Movement.{
  InventoryMovementType, sale, recipe_consumption, consume_recipe,
}
use eventcommerce_os.Edge.Sale.Tables.{RecipeRow}
use eventcommerce_os.Edge.Sale.Reading.{SaleLine}
use eventcommerce_os.Edge.Sale.Recipes.{
  SaleMovement, Expansion, expanded, unknown_sku, unknown_component, movement_key, add_to,
  add_movement, add_components, expand_line, expand, recipe_of,
}

-- the quantity of the movement under a key, none counting as nothing
abbrev pub quantity_of : Option SaleMovement → ℤ
quantity_of none = pos 0
quantity_of (some m) = m.quantity

-- the specification: what the lines of a sale take under a key
abbrev pub counted : String → String → ℤ → ℤ
counted key at quantity = if at == key then quantity else pos 0

abbrev pub parts : String → ℤ → List RecipeRow → ℤ
parts key sold [] = pos 0
parts key sold (c ∷ cs) =
    counted key (movement_key recipe_consumption c.component_sku_id)
      (sold *ℤ c.quantity_per_sold_unit)
    +ℤ parts key sold cs

abbrev pub line_demand : String → SaleLine → List RecipeRow → ℤ
line_demand key line [] = counted key (movement_key sale line.sku_id) line.quantity
line_demand key line (c ∷ cs) = parts key line.quantity (c ∷ cs)

abbrev pub demand : String → List RecipeRow → List SaleLine → ℤ
demand key recipes [] = pos 0
demand key recipes (line ∷ lines) =
    line_demand key line (recipe_of recipes line.sku_id) +ℤ demand key recipes lines

+ℤ_zero : (a : ℤ) → a +ℤ pos 0 ≡ a
+ℤ_zero a = grind (int_laws)

zero_+ℤ : (a : ℤ) → pos 0 +ℤ a ≡ a
zero_+ℤ a = grind (int_laws)

+ℤ_assoc : (a b c : ℤ) → (a +ℤ b) +ℤ c ≡ a +ℤ (b +ℤ c)
+ℤ_assoc a b c = grind (int_laws)

quantity_of-add_to :
    (old : Option SaleMovement) (new : SaleMovement)
    → quantity_of (some (add_to old new)) ≡ quantity_of old +ℤ new.quantity
quantity_of-add_to none new = sym (zero_+ℤ new.quantity)
quantity_of-add_to (some old) new = refl

quantity_of-add_movement :
    (key sku : String) (type : InventoryMovementType) (q : ℤ) (ms : List (String × SaleMovement))
    → quantity_of (map_get key (add_movement sku type q ms))
      ≡ quantity_of (map_get key ms) +ℤ counted key (movement_key type sku) q
unfolding add_movement
quantity_of-add_movement key sku type q ms =
    rw map_get-map_set (grind (arith, quantity_of-add_to, +ℤ_zero))

consume_recipe-product : (sold per : ℤ) {q : ℤ} → consume_recipe sold per ≡ ok q → q ≡ sold *ℤ per
unfolding consume_recipe
consume_recipe-product sold per h = ground arith

-- An expansion that succeeds has passed each of its tests.
component-eq_ok :
    (sold component : String) (known : Bool) (used : Result ℤ) (next : ℤ → Result Expansion)
    {ms : List (String × SaleMovement)}
    → (elim known [
      | false ↦ ok (unknown_component sold component)
      | true ↦ elim used [ err e ↦ err e | ok q ↦ next q ]
    ])
      ≡ ok (expanded ms)
    → (q : ℤ) × (used ≡ ok q) × (next q ≡ ok (expanded ms))
component-eq_ok sold component false used next h = absurd (ground arith)
component-eq_ok sold component true (ok q) next h = (q, refl, h)
component-eq_ok sold component true (err e) next h = absurd (ground arith)

add_components-demand :
    (key : String) (known : List String) (line : SaleLine) (cs : List RecipeRow)
    (ms : List (String × SaleMovement)) {ms' : List (String × SaleMovement)}
    → add_components known line cs ms ≡ ok (expanded ms')
    → quantity_of (map_get key ms') ≡ quantity_of (map_get key ms) +ℤ parts key line.quantity cs
unfolding add_components
add_components-demand key known line [] ms h = cc (+ℤ_zero (quantity_of (map_get key ms)))
add_components-demand key known line (c ∷ cs) ms h =
    let (q, used, rest) =
      component-eq_ok line.sku_id c.component_sku_id (includes c.component_sku_id known)
        (consume_recipe line.quantity c.quantity_per_sold_unit)
        (λ q.
          add_components known line cs (add_movement c.component_sku_id recipe_consumption q ms))
        h in
    cc (
      add_components-demand key known line cs
          (add_movement c.component_sku_id recipe_consumption q ms) rest,
      quantity_of-add_movement key c.component_sku_id recipe_consumption q ms,
      consume_recipe-product line.quantity c.quantity_per_sold_unit used,
      +ℤ_assoc (quantity_of (map_get key ms))
          (counted key (movement_key recipe_consumption c.component_sku_id) q)
          (parts key line.quantity cs),
    )

expand_line-demand :
    (key : String) (known : List String) (line : SaleLine) (cs : List RecipeRow)
    (ms : List (String × SaleMovement)) {ms' : List (String × SaleMovement)}
    → expand_line known line cs ms ≡ ok (expanded ms')
    → quantity_of (map_get key ms') ≡ quantity_of (map_get key ms) +ℤ line_demand key line cs
unfolding expand_line
expand_line-demand key known line [] ms h =
    ground (arith, quantity_of-add_movement key line.sku_id sale line.quantity ms)
expand_line-demand key known line (c ∷ cs) ms h = add_components-demand key known line (c ∷ cs) ms h

line-eq_ok :
    (first : Result Expansion) (next : List (String × SaleMovement) → Result Expansion)
    {ms : List (String × SaleMovement)}
    → (elim first [
      | ok (expanded more) ↦ next more
      | ok (unknown_sku sku) ↦ ok (unknown_sku sku)
      | ok (unknown_component sold component) ↦ ok (unknown_component sold component)
      | err e ↦ err e
    ])
      ≡ ok (expanded ms)
    → (more : List (String × SaleMovement)) × (first ≡ ok (expanded more))
      × (next more ≡ ok (expanded ms))
line-eq_ok (ok (expanded more)) next h = (more, refl, h)
line-eq_ok (ok (unknown_sku sku)) next h = absurd (ground arith)
line-eq_ok (ok (unknown_component sold component)) next h = absurd (ground arith)
line-eq_ok (err e) next h = absurd (ground arith)

expand_from-demand :
    (key : String) (known : List String) (recipes : List RecipeRow) (lines : List SaleLine)
    (ms : List (String × SaleMovement)) {ms' : List (String × SaleMovement)}
    → expand known recipes lines ms ≡ ok (expanded ms')
    → quantity_of (map_get key ms') ≡ quantity_of (map_get key ms) +ℤ demand key recipes lines
unfolding expand
expand_from-demand key known recipes [] ms h = cc (+ℤ_zero (quantity_of (map_get key ms)))
expand_from-demand key known recipes (line ∷ lines) ms h =
    let recipe = recipe_of recipes line.sku_id in
    let (more, first, rest) =
      line-eq_ok (expand_line known line recipe ms) (expand known recipes lines) h in
    cc (
      expand_line-demand key known line recipe ms first,
      expand_from-demand key known recipes lines more rest,
      +ℤ_assoc (quantity_of (map_get key ms)) (line_demand key line recipe)
          (demand key recipes lines),
    )

-- When every SKU of a sale is configured, each movement that is computed takes what the lines demand
-- under its key, the type and the SKU: the quantities of the lines that sell the SKU as it is, or the
-- lines' quantities times what their recipes use of the component. A key that nothing demands takes
-- nothing.
pub expand-demand :
    (key : String) (known : List String) (recipes : List RecipeRow) (lines : List SaleLine)
    {movements : List (String × SaleMovement)}
    → expand known recipes lines [] ≡ ok (expanded movements)
    → quantity_of (map_get key movements) ≡ demand key recipes lines
expand-demand key known recipes lines h =
    expand_from-demand key known recipes lines [] h ∙ zero_+ℤ (demand key recipes lines)
