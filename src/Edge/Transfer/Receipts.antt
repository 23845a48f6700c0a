-- ===== src/Edge/Transfer/Receipts.antt =====
-- inventory-transfer.service.ts, `receive`: when a receipt is accepted, and when it can be replayed.
use mathlib.Core.Path.{subst}
use eventcommerce_os.Base.{
  inl, inr, Failure, Result-cases, err, ◌≡◌, ◌≢◌, ap, ◌∙◌, String, Option, none, some, false, List,
  [], ◌∷◌, ◌==◌, string_eq, find, ok, arith, map, has_repeat, template,
}
use eventcommerce_os.Base.Int.{ℤ}
use eventcommerce_os.Base.Sorting.{sort_by}
use eventcommerce_os.Domain.Transitions.{in_transit, received, transfer_state_eq}
use eventcommerce_os.Edge.Rows.{TransferDbRow, transfer_manage, ReceiptRow, text}
use eventcommerce_os.Edge.Db.{Db, each}
use eventcommerce_os.Edge.Ledger.Insert.{authorize-same}
use eventcommerce_os.Edge.Db.Inversion.{>>=-eq_ok}
use eventcommerce_os.Edge.Ledger.{authorize}
use eventcommerce_os.Edge.Transfer.{
  TransferReceiptInput, TransferRow, map_row, sku_of, has_id, transfer, lines_in, lock_stocks,
  finish,
}
use eventcommerce_os.Edge.Transfer.States.{transfer-eq_ok, finish-eq_ok}
use eventcommerce_os.Edge.Transfer.Receive.{
  receive, receive_known, receive_or_replay, receive_new, settle, update_transfer, check_receipt,
  receipt_of, receive_line,
}

-- the quantities of a receipt in the order in which they are worked off
abbrev pub ordered : TransferReceiptInput → Db → List (String × ℤ)
ordered input db = sort_by db.locale_le sku_of input.quantities

abbrev pub previous_receipt : TransferReceiptInput → Db → Option ReceiptRow
previous_receipt input db =
    find (λ (r : ReceiptRow). r.idempotency_key == input.idempotency_key) db.receipts

abbrev pub receipt_locked : TransferReceiptInput → Db → Db
receipt_locked input db = record db {
  locks =
      text (template ("stock-transfer-receipt-idempotency:" ∷ input.idempotency_key ∷ []))
      ∷ db.locks;
}

pub receive_known-eq_ok :
    (row : TransferDbRow) (input : TransferReceiptInput) (db : Db) {x : TransferRow × Db}
    → receive_known row input db ≡ ok x
    → (row.state ≡ in_transit)
      × (has_repeat (map sku_of (ordered input db)) ≡ false)
      × (receive_or_replay row input
            (ordered input db)
            (previous_receipt input db)
            (receipt_locked input db)
          ≡ ok x)
unfolding receive_known
receive_known-eq_ok row input db h = ground arith

-- The way in of `receive`: the transfer is there.
pub receive-eq_ok :
    (id : String) (input : TransferReceiptInput) (db : Db) {x : TransferRow × Db}
    → receive id input db ≡ ok x
    → (row : TransferDbRow) × (find (has_id id) db.transfers ≡ some row)
      × (row.id ≡ id)
      × (receive_known row input db ≡ ok x)
unfolding receive
receive-eq_ok id input db {x} h =
    let (row, db₁, read, h₁) = >>=-eq_ok (transfer id) _ db h in
    let (found, e₁, same) = transfer-eq_ok id db read in
    let (_, db₂, auth, h₂) =
      >>=-eq_ok (authorize row.event_id input.actor_id transfer_manage) _ db₁ h₁ in
    let e : db₂ ≡ db = authorize-same row.event_id input.actor_id transfer_manage db₁ auth ∙ e₁ in
    (row, found, same, subst (λ d. receive_known row input d ≡ ok x) e h₂)

-- the last steps of `receive` return the row that they leave in the table
settle-result :
    (row : TransferDbRow) (input : TransferReceiptInput) (db : Db) {r : TransferRow} {db' : Db}
    → settle row input db ≡ ok (r, db')
    → (row' : TransferDbRow) × (find (has_id row.id) db'.transfers ≡ some row') × (r ≡ map_row row')
unfolding settle
settle-result row input db h =
    let (_, db₂, moved, h₂) =
      >>=-eq_ok (update_transfer row input (lines_in row.id db)) (λ _. finish row.id) db h in
    let (row', found, e, kept, kept_transfers) = finish-eq_ok row.id db₂ h₂ in
    (row', ap (find (has_id row.id)) kept_transfers ∙ found, e)

-- the database after `insert_receipt`
abbrev pub with_receipt : TransferDbRow → TransferReceiptInput → List (String × ℤ) → Db → Db
with_receipt row input quantities db = record db {
  receipts = receipt_of row input quantities ∷ db.receipts;
}

receive_new-result :
    (row : TransferDbRow) (input : TransferReceiptInput) (quantities : List (String × ℤ)) (db : Db)
    {r : TransferRow} {db' : Db}
    → receive_new row input quantities db ≡ ok (r, db')
    → (row' : TransferDbRow) × (find (has_id row.id) db'.transfers ≡ some row') × (r ≡ map_row row')
unfolding receive_new
receive_new-result row input quantities db h =
    let (_, db₂, checked, h₂) =
      >>=-eq_ok (each quantities (check_receipt (lines_in row.id db))) _ db h in
    let (_, db₃, locked, h₃) =
      >>=-eq_ok (lock_stocks row.event_id row.destination_location_id (map sku_of quantities)) _ db₂
        h₂ in
    let (_, db₅, booked, h₅) =
      >>=-eq_ok (each quantities (receive_line row input)) (λ _. settle row input)
        (with_receipt row input quantities db₃) h₃ in
    settle-result row input db₅ h₅

-- A replayed receipt, a transfer that stays in transit and a transfer that is completed all return
-- the row that is stored.
receive_or_replay-result :
    (row : TransferDbRow) (input : TransferReceiptInput) (quantities : List (String × ℤ))
    (previous : Option ReceiptRow) (db : Db) {r : TransferRow} {db' : Db}
    → find (has_id row.id) db.transfers ≡ some row
    → receive_or_replay row input quantities previous db ≡ ok (r, db')
    → (row' : TransferDbRow) × (find (has_id row.id) db'.transfers ≡ some row') × (r ≡ map_row row')
unfolding receive_or_replay
receive_or_replay-result row input quantities none db found h =
    receive_new-result row input quantities db h
receive_or_replay-result row input quantities (some previous) db found h =
    (row, ground arith, ground arith)

-- after the last receipt nothing is accepted
no_receipt :
    (id : String) (input again : TransferReceiptInput) (db : Db) {r : TransferRow} {db' : Db}
    → receive id input db ≡ ok (r, db')
    → r.state ≡ received
    → (x : TransferRow × Db) → receive id again db' ≢ ok x
no_receipt id input again db {r} {db'} h done x h' =
    let (row, found, same, known) = receive-eq_ok id input db h in
    let (moving, distinct, step) = receive_known-eq_ok row input db known in
    let (row', found', e) =
      receive_or_replay-result row input (ordered input db) (previous_receipt input db)
        (receipt_locked input db) (rw same found) step in
    let (row'', found'', same', known') = receive-eq_ok id again db' h' in
    let (moving', _, _) = receive_known-eq_ok row'' again db' known' in
    ground (arith, moving', done, e, found', found'', same)

-- The receipt that completes a transfer is the last one that is accepted: once `receive` has
-- returned the state RECEIVED, every `receive` for the transfer fails on the database that it left,
-- the same receipt given again included.
pub receive-last :
    (id : String) (input again : TransferReceiptInput) (db : Db) {r : TransferRow} {db' : Db}
    → receive id input db ≡ ok (r, db')
    → r.state ≡ received
    → (e : Failure) × (receive id again db' ≡ err e)
receive-last id input again db {r} {db'} h done = elim (Result-cases (receive id again db')) [
  | inl (x, e) ↦ absurd (no_receipt id input again db h done x e)
  | inr refused ↦ refused
]
