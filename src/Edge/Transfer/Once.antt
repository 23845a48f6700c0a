-- ===== src/Edge/Transfer/Once.antt =====
-- inventory-transfer.service.ts, `receive`: what a receipt's idempotency key promises.
use eventcommerce_os.Base.{
  ◌≡◌, refl, ap, ◌∙◌, String, some, List, ◌∷◌, ◌==◌, string_eq, ==_refl, find, ok, arith,
  Bool-cases, Option-cases, inl, inr, map, all,
}
use eventcommerce_os.Base.Int.{ℤ}
use eventcommerce_os.Domain.Transitions.{in_transit, received}
use eventcommerce_os.Edge.Rows.{LedgerInput, LedgerRow, TransferDbRow, TransferLineRow, ReceiptRow}
use eventcommerce_os.Edge.Db.{Db, each}
use eventcommerce_os.Edge.Db.Inversion.{>>=-eq_ok, each_inv}
use eventcommerce_os.Edge.Ledger.{insert}
use eventcommerce_os.Edge.Ledger.Posting.{
  Posted, inserted, replayed, insert-eq_ok, insert_with-Posted,
}
use eventcommerce_os.Edge.Transfer.{
  TransferReceiptInput, TransferRow, map_row, sku_of, has_id, lines_in, lock_stocks, finish,
}
use eventcommerce_os.Edge.Transfer.Advance.{update_state}
use eventcommerce_os.Edge.Transfer.States.{finish-eq_ok, write_history-same, updated}
use eventcommerce_os.Edge.Transfer.Stock.{lock_stocks-same}
use eventcommerce_os.Edge.Transfer.Receive.{
  receive, receive_or_replay, receive_new, settle, update_transfer, check_receipt, receipt_of,
  receive_line, receipt_movement, is_complete, check_outstanding, has_sku,
}
use eventcommerce_os.Edge.Transfer.Receipts.{
  receive-eq_ok, receive_known-eq_ok, with_receipt, ordered, previous_receipt, receipt_locked,
}

Posted-receipts :
    (input : LedgerInput) (id : String) (db : Db) {row : LedgerRow} {db' : Db}
    → Posted input id db row db'
    → db'.receipts ≡ db.receipts
Posted-receipts input id db (inserted r f c e) = ap (λ (d : Db). d.receipts) e
Posted-receipts input id db (replayed x m e) = ap (λ (d : Db). d.receipts) e

insert-receipts :
    (input : LedgerInput) (db : Db) {r : LedgerRow × Db}
    → insert input db ≡ ok r
    → r.1.receipts ≡ db.receipts
insert-receipts input db h =
    let (id, drawn, _, _, run) = insert-eq_ok input db h in
    Posted-receipts input id _ (insert_with-Posted input id _ run)

receive_line-receipts :
    (row : TransferDbRow) (input : TransferReceiptInput) (entry : String × ℤ) (db db' : Db)
    → receive_line row input entry db ≡ ok (tt, db')
    → db'.receipts ≡ db.receipts
unfolding receive_line
receive_line-receipts row input (sku, quantity) db db' h =
    let (_, db₁, posted, h₁) =
      >>=-eq_ok (insert (receipt_movement row input sku quantity)) _ db h in
    ground (arith, insert-receipts (receipt_movement row input sku quantity) db posted)

update_transfer-receipts :
    (row : TransferDbRow) (input : TransferReceiptInput) (after : List TransferLineRow) (db : Db)
    {r : Unit {0} × Db}
    → update_transfer row input after db ≡ ok r
    → r.1.receipts ≡ db.receipts
unfolding update_transfer update_state
update_transfer-receipts row input after db h = elim (Bool-cases (all is_complete after)) [
  | inl complete ↦
      (write_history-same row.id (some in_transit) received input.actor_id input.reason
        input.received_at
        (record db {
          transfers =
              updated row.id received (λ r. record r { received_at = some input.received_at }) db;
        })
        (rw complete at h)).0.receipts
  | inr partial ↦ ground arith
]

settle-receipts :
    (row : TransferDbRow) (input : TransferReceiptInput) (db : Db) {r : TransferRow} {db' : Db}
    → settle row input db ≡ ok (r, db')
    → db'.receipts ≡ db.receipts
unfolding settle
settle-receipts row input db h =
    let (_, db₁, moved, h₁) =
      >>=-eq_ok (update_transfer row input (lines_in row.id db)) (λ _. finish row.id) db h in
    let (row', found, e, kept, kept_transfers) = finish-eq_ok row.id db₁ h₁ in
    kept.receipts ∙ update_transfer-receipts row input (lines_in row.id db) db moved

check_receipt-same :
    (its_lines : List TransferLineRow) (entry : String × ℤ) (db db' : Db)
    → check_receipt its_lines entry db ≡ ok (tt, db')
    → db' ≡ db
unfolding check_receipt check_outstanding
check_receipt-same its_lines (sku, quantity) db db' h =
    elim (Option-cases (find (has_sku sku) its_lines)) [
      | inl missing ↦ absurd (ground arith)
      | inr (line, e) ↦ ground arith
    ]

-- An accepted new receipt is stored with its key.
receive_new-receipts :
    (row : TransferDbRow) (input : TransferReceiptInput) (quantities : List (String × ℤ)) (db : Db)
    {r : TransferRow} {db' : Db}
    → receive_new row input quantities db ≡ ok (r, db')
    → db'.receipts ≡ receipt_of row input quantities ∷ db.receipts
unfolding receive_new
receive_new-receipts row input quantities db h =
    let (_, db₂, checked, h₂) =
      >>=-eq_ok (each quantities (check_receipt (lines_in row.id db))) _ db h in
    let (_, db₃, locked, h₃) =
      >>=-eq_ok (lock_stocks row.event_id row.destination_location_id (map sku_of quantities)) _ db₂
        h₂ in
    let (_, db₅, booked, h₅) =
      >>=-eq_ok (each quantities (receive_line row input)) (λ _. settle row input)
        (with_receipt row input quantities db₃) h₃ in
    let same : db₂ ≡ db =
      each_inv (λ d. d ≡ db) quantities (check_receipt (lines_in row.id db)) db
        (λ x s t step e. check_receipt-same (lines_in row.id db) x s t step ∙ e) checked refl in
    let kept : db₅.receipts ≡ receipt_of row input quantities ∷ db₃.receipts =
      each_inv (λ d. d.receipts ≡ receipt_of row input quantities ∷ db₃.receipts) quantities
        (receive_line row input) (with_receipt row input quantities db₃)
        (λ x s t step e. receive_line-receipts row input x s t step ∙ e) booked refl in
    let unlocked =
      (lock_stocks-same row.event_id row.destination_location_id (map sku_of quantities) db₂
        locked).1 in
    settle-receipts row input db₅ h₅
    ∙ kept
    ∙ ap (λ rs. receipt_of row input quantities ∷ rs) (unlocked ∙ ap (λ (d : Db). d.receipts) same)

-- After an accepted receipt its key is in the table.
receive-has_key :
    (id : String) (input : TransferReceiptInput) (db : Db) {r : TransferRow} {db' : Db}
    → receive id input db ≡ ok (r, db')
    → (p : ReceiptRow) × (find
          (λ (x : ReceiptRow). x.idempotency_key == input.idempotency_key)
          db'.receipts
        ≡ some p)
unfolding receive_or_replay
receive-has_key id input db {r} {db'} h =
    let (row, found, same, known) = receive-eq_ok id input db h in
    let (moving, distinct, step) = receive_known-eq_ok row input db known in
    elim (Option-cases (previous_receipt input db)) [
      | inl new ↦
          let kept =
            receive_new-receipts row input (ordered input db) (receipt_locked input db)
              (rw new at step) in
          (receipt_of row input (ordered input db), rw (kept, ==_refl input.idempotency_key) refl)
      | inr (p, e) ↦ (p, ground arith)
    ]

-- A receipt key moves stock at most once: after an accepted receipt, a later one with the same key,
-- if it is accepted, takes its lock and changes nothing else, and returns the transfer as it is.
pub receive_once :
    (id other : String) (input again : TransferReceiptInput) (db : Db) {r r' : TransferRow}
    {db' db'' : Db}
    → receive id input db ≡ ok (r, db')
    → again.idempotency_key ≡ input.idempotency_key
    → receive other again db' ≡ ok (r', db'')
    → (row : TransferDbRow) × (find (has_id other) db'.transfers ≡ some row)
      × (r' ≡ map_row row)
      × (db'' ≡ receipt_locked again db')
unfolding receive_or_replay
receive_once id other input again db {r} {r'} {db'} h key h' =
    let (p, e) = receive-has_key id input db h in
    let (row, found, same, known) = receive-eq_ok other again db' h' in
    let (moving, distinct, step) = receive_known-eq_ok row again db' known in
    let e' : previous_receipt again db' ≡ some p = rw key e in
    (row, found, ground arith, ground arith)
