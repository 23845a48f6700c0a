-- ===== src/Edge/Sale/Reading.antt =====
-- apps/event-edge/src/inventory/inventory-sale-consumer.service.ts, `parse`: the lines of a sale from
-- the payload of its event.
use eventcommerce_os.Base.{ℕ, String, Option, none, some, List, [], ◌∷◌}
use eventcommerce_os.Base.Int.{ℤ, pos}
use eventcommerce_os.Contracts.{Json, array, object, Items, nil, item, SyncEventEnvelope}
use eventcommerce_os.Cloud.Sync.Payload.{field, text_of, integer_of, trimmed}

pub record SaleLine : Type 0 where
  pub sku_id : String
  pub quantity : ℤ

pub record ParsedSale : Type 0 where
  pub event_id : String
  pub sales_location_id : String
  pub order_id : String
  pub lines : List SaleLine

-- one line, from its trimmed SKU and its quantity
abbrev sale_line_of : Option String → Option ℕ → Option SaleLine
sale_line_of (some sku) (some n) = some (record { sku_id = sku; quantity = pos n })
sale_line_of _ _ = none

unfoldable pub sale_line : Json → Option SaleLine
sale_line (object row) =
    sale_line_of (trimmed (text_of (field "skuId" row))) (integer_of 1 (field "quantity" row))
sale_line _ = none

abbrev both : {A : Type 0} → Option A → Option (List A) → Option (List A)
both (some x) (some xs) = some (x ∷ xs)
both _ _ = none

unfoldable pub sale_lines : Items → Option (List SaleLine)
unfolding sale_line
sale_lines nil = some []
sale_lines (item raw rest) = both (sale_line raw) (sale_lines rest)

-- `payload.lines`, an array that is not empty
unfoldable pub payload_lines : Option Json → Option (List SaleLine)
unfolding sale_lines
payload_lines (some (array (item raw rest))) = sale_lines (item raw rest)
payload_lines _ = none

abbrev parsed_of :
    Option String → Option String → Option String → Option (List SaleLine) → Option ParsedSale
parsed_of (some event) (some location) (some order) (some lines) =
    some
      (record { event_id = event; sales_location_id = location; order_id = order; lines = lines })
parsed_of _ _ _ _ = none

unfoldable pub parse : SyncEventEnvelope → Option ParsedSale
unfolding trimmed payload_lines
parse event =
    parsed_of (trimmed (text_of (field "eventId" event.payload)))
      (trimmed (text_of (field "salesLocationId" event.payload)))
      (trimmed (text_of (field "orderId" event.payload)))
      (payload_lines (field "lines" event.payload))
