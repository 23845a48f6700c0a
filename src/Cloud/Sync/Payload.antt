-- ===== src/Cloud/Sync/Payload.antt =====
-- apps/cloud-api/src/sync/cloud-sync.service.ts, `orderPayload`: the payload of an order's event as
-- the projection of the order takes it. The code's Error is an exception with its message.
use eventcommerce_os.Base.{
  ℕ, suc, String, Option, none, some, Bool, true, false, List, [], ◌∷◌, ◌==◌, ◌!=◌, leb, string_eq,
  option_eq, Result, ok, err, error, throw_if, template, is_empty, includes, if◌then◌else◌,
}
use eventcommerce_os.Base.Texts.{trim, is_currency_code, decimal}
use eventcommerce_os.Base.Do.{◌>>=◌, ◌>>◌}
use eventcommerce_os.Base.Int.{pos}
use eventcommerce_os.Contracts.{
  Json, null, integer, text, array, object, Items, nil, item, Members, empty, member,
  SyncEventEnvelope,
}

pub record OrderLineProjection : Type 0 where
  pub sku_id : String
  pub quantity : ℕ
  pub unit_price_minor : ℕ
  pub menu_item_id : Option String

pub record OrderProjectionPayload : Type 0 where
  pub state : String
  pub total_minor : ℕ
  pub currency : String
  pub event_id : String
  pub sales_location_id : Option String
  pub close_method : Option String
  pub cashier_id : Option String
  pub lines : List OrderLineProjection
  pub lines_provided : Bool
  pub occurred_at : String

-- `payload[key]`: `none` is undefined
abbrev pub field : String → Members → Option Json
field key empty = none
field key (member k v rest) = let others = field key rest in if k == key then some v else others

abbrev pub text_of : Option Json → Option String
text_of (some (text s)) = some s
text_of _ = none

-- a safe integer that is at least the bound
abbrev pub integer_of : ℕ → Option Json → Option ℕ
integer_of bound (some (integer (pos n))) = if leb bound n then some n else none
integer_of bound _ = none

-- `typeof value === 'string' && value.trim()`
unfoldable pub trimmed : Option String → Option String
trimmed none = none
trimmed (some s) = let t = trim s in if is_empty t then none else some t

-- a value that must be there, or an exception
abbrev pub or_error {ℓ} : {A : Type ℓ} → Option A → String → Result A
or_error none message = err (error message)
or_error (some a) message = ok a

-- an optional text: undefined and null are the same
unfoldable pub optional_text : Option Json → String → Result (Option String)
unfolding trimmed
optional_text none message = ok none
optional_text (some null) message = ok none
optional_text value message = or_error (trimmed (text_of value)) message >>= λ t. ok (some t)

-- `value !== undefined`
abbrev pub is_provided : Option Json → Bool
is_provided none = false
is_provided (some v) = true

-- the same, where null is refused
unfoldable pub menu_item : Option Json → String → Result (Option String)
unfolding trimmed
menu_item none message = ok none
menu_item value message = or_error (trimmed (text_of value)) message >>= λ t. ok (some t)

abbrev pub line_message : ℕ → String → String
line_message index rest = template ("synced lines[" ∷ decimal index ∷ "]" ∷ rest ∷ [])

unfoldable pub line_members : ℕ → Json → Result Members
line_members index (object members) = ok members
line_members index _ = err (error (line_message index " must be an object"))

unfoldable pub order_line : ℕ → Json → Result OrderLineProjection
unfolding line_members trimmed menu_item
order_line index line = do
  fields ← line_members index line
  sku ←
      or_error (trimmed (text_of (field "skuId" fields)))
        (line_message index ".skuId must be non-empty")
  quantity ←
      or_error (integer_of 1 (field "quantity" fields))
        (line_message index ".quantity must be a positive safe integer")
  price ←
      or_error (integer_of 0 (field "unitPriceMinor" fields))
        (line_message index ".unitPriceMinor must be a non-negative safe integer")
  menu_item ←
      menu_item (field "menuItemId" fields)
        (line_message index ".menuItemId must be non-empty when provided")
  ok (record {
    sku_id = sku;
    quantity = quantity;
    unit_price_minor = price;
    menu_item_id = menu_item;
  })

unfoldable pub order_lines : ℕ → Items → Result (List OrderLineProjection)
unfolding order_line
order_lines index nil = ok []
order_lines index (item line rest) = order_line index line >>= λ first.
    order_lines (suc index) rest >>= λ others. ok (first ∷ others)

unfoldable pub raw_lines : Option Json → Result (List OrderLineProjection)
unfolding order_lines
raw_lines none = ok []
raw_lines (some (array items)) = order_lines 0 items
raw_lines (some _) = err (error "synced lines must be an array")

unfoldable pub close_method_of : String → String → Option String
close_method_of state event_type =
    if state != "CLOSED"
    then none
    else if event_type == "ORDER_CLOSED_CASH"
    then some "CASH"
    else if event_type == "ORDER_CLOSED_PROVIDER"
    then some "PROVIDER"
    else some "UNKNOWN"

-- `['OPEN', 'CLOSED'].includes(state)` of a text
unfoldable pub order_state : Option String → Option String
order_state none = none
order_state (some s) = if includes s ("OPEN" ∷ "CLOSED" ∷ []) then some s else none

unfoldable pub currency_of : Option String → Option String
currency_of none = none
currency_of (some s) = if is_currency_code s then some s else none

unfoldable pub order_payload : SyncEventEnvelope → Result OrderProjectionPayload
unfolding order_state currency_of trimmed optional_text raw_lines close_method_of
order_payload event = do
  state ←
      or_error (order_state (text_of (field "state" event.payload)))
        "unsupported synced order state"
  total ←
      or_error (integer_of 0 (field "totalMinor" event.payload))
        "synced totalMinor must be a non-negative safe integer"
  currency ←
      or_error (currency_of (text_of (field "currency" event.payload))) "synced currency is invalid"
  throw_if (text_of (field "orderId" event.payload) != some event.aggregate_id)
      (error "payload orderId must equal aggregateId")
  business_event ←
      or_error (trimmed (text_of (field "eventId" event.payload))) "synced eventId is required"
  sales_location ←
      optional_text (field "salesLocationId" event.payload)
        "synced salesLocationId must be a non-empty string when provided"
  cashier ←
      optional_text (field "cashierId" event.payload)
        "synced cashierId must be a non-empty string when provided"
  lines ← raw_lines (field "lines" event.payload)
  ok (record {
    state = state;
    total_minor = total;
    currency = currency;
    event_id = business_event;
    sales_location_id = sales_location;
    close_method = close_method_of state event.event_type;
    cashier_id = cashier;
    lines = lines;
    lines_provided = is_provided (field "lines" event.payload);
    occurred_at = event.occurred_at;
  })
