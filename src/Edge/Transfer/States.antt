-- ===== src/Edge/Transfer/States.antt =====
-- inventory-transfer.service.ts: the state of a transfer moves only along the allowed transitions.
use mathlib.Core.Path.{subst₂}
use eventcommerce_os.Base.{
  ◌≡◌, ◌≢◌, refl, ap, ◌∙◌, String, Option, some, List, ◌==◌, string_eq, ==_iff, find, update_where,
  Result, ok, err, arith, Option-cases, inl, inr, if◌then◌else◌,
}
use eventcommerce_os.Base.Searching.{find-holds, find-update_where, find-update_where_other}
use eventcommerce_os.Domain.Transitions.{
  StockTransferState, requested, require_transfer_transition, transfer_state_eq,
}
use eventcommerce_os.Edge.Rows.{Instant, TransferDbRow, transfer_manage}
use eventcommerce_os.Edge.Db.{Db, Tx, lift, ◌>>◌}
use eventcommerce_os.Edge.Ledger.Insert.{authorize-same}
use eventcommerce_os.Edge.Db.Inversion.{>>=-eq_ok}
use eventcommerce_os.Edge.Ledger.{authorize, enqueue}
use eventcommerce_os.Edge.Transfer.{
  TransferTransitionInput, TransferRow, map_row, has_id, transfer, write_history, finish,
}
use eventcommerce_os.Edge.Transfer.Advance.{stamp, update_state, simple_transition}

-- What an operation on a transfer leaves alone.
pub record SameTables (db db' : Db) : Type 0 where
  pub permissions : db'.permissions ≡ db.permissions
  pub ledger : db'.ledger ≡ db.ledger
  pub transfer_lines : db'.transfer_lines ≡ db.transfer_lines
  pub receipts : db'.receipts ≡ db.receipts

pub transfer-eq_ok :
    (id : String) (db : Db) {row : TransferDbRow} {db' : Db}
    → transfer id db ≡ ok (row, db')
    → (find (has_id id) db.transfers ≡ some row) × (db' ≡ db) × (row.id ≡ id)
unfolding transfer
transfer-eq_ok id db {row} h = elim (Option-cases (find (has_id id) db.transfers)) [
  | inl missing ↦ absurd (ground arith)
  | inr (found, e) ↦ ground (arith, find-holds (has_id id) db.transfers {x = found} e)
]

pub write_history-same :
    (id : String) (from : Option StockTransferState) (to : StockTransferState) (actor : String)
    (reason : Option String) (at : Instant) (db : Db) {r : Unit {0} × Db}
    → write_history id from to actor reason at db ≡ ok r
    → SameTables db r.1 × (r.1.transfers ≡ db.transfers)
unfolding write_history
write_history-same id from to actor reason at db h = ground arith

pub finish-eq_ok :
    (id : String) (db : Db) {r : TransferRow} {db' : Db}
    → finish id db ≡ ok (r, db')
    → (row : TransferDbRow) × (find (has_id id) db.transfers ≡ some row)
      × (r ≡ map_row row)
      × SameTables db db'
      × (db'.transfers ≡ db.transfers)
unfolding finish enqueue
finish-eq_ok id db {r} {db'} h = elim (Option-cases (find (has_id id) db.transfers)) [
  | inl missing ↦ absurd (ground arith)
  | inr (row, e) ↦ (row, e, ground arith, ground arith, ground arith)
]

-- the table of transfers after `update_state`
abbrev pub updated :
    String → StockTransferState → (TransferDbRow → TransferDbRow) → Db → List TransferDbRow
updated id to also db =
    update_where (has_id id) (λ row. also (record row { state = to; updated_at = db.now }))
      db.transfers

-- `also` sets columns other than the id and the state
abbrev pub KeepsState : (TransferDbRow → TransferDbRow) → Type 0
KeepsState also = (r : TransferDbRow) → ((also r).id ≡ r.id) × ((also r).state ≡ r.state)

pub updated-find :
    (id : String) (to : StockTransferState) (also : TransferDbRow → TransferDbRow) (db : Db)
    (row : TransferDbRow)
    → KeepsState also
    → find (has_id id) db.transfers ≡ some row
    → find (has_id id) (updated id to also db)
      ≡ some (also (record row { state = to; updated_at = db.now }))
updated-find id to also db row keep h =
    let f : TransferDbRow → TransferDbRow =
      λ r. also (record r { state = to; updated_at = db.now }) in
    find-update_where (has_id id) (has_id id) f db.transfers {x = row}
      (λ y. ap (λ i. i == id) (keep (record y { state = to; updated_at = db.now })).0) h
    ∙ ap (λ b. some (if b then f row else row)) (find-holds (has_id id) db.transfers h)

pub updated-find_ne :
    (id other : String) (to : StockTransferState) (also : TransferDbRow → TransferDbRow) (db : Db)
    → KeepsState also
    → other ≢ id
    → find (has_id other) (updated id to also db) ≡ find (has_id other) db.transfers
updated-find_ne id other to also db keep ne =
    find-update_where_other (has_id id) (has_id other)
      (λ r. also (record r { state = to; updated_at = db.now })) db.transfers
      (λ y. ap (λ i. i == other) (keep (record y { state = to; updated_at = db.now })).0)
      (λ y h. ground (arith, ==_iff y.id id))

stamp-KeepsState :
    (to : StockTransferState) (input : TransferTransitionInput) → KeepsState (stamp to input)
stamp-KeepsState requested input r = (refl, refl)
stamp-KeepsState _ input r = (refl, refl)

-- What an accepted transition has done to the transfer, from the row that it found.
pub record Moved (id : String) (to : StockTransferState) (row : TransferDbRow)
    (result : TransferRow) (db db' : Db) : Type 0 where
  pub found : find (has_id id) db.transfers ≡ some row
  pub allowed : require_transfer_transition row.state to ≡ ok to
  pub result_state : result.state ≡ to
  pub stored :
      (row' : TransferDbRow) × (find (has_id id) db'.transfers ≡ some row') × (row'.state ≡ to)
  pub others :
      (other : String)
      → other ≢ id
      → find (has_id other) db'.transfers ≡ find (has_id other) db.transfers

pub transition_cases :
    (from to : StockTransferState) {s : StockTransferState}
    → require_transfer_transition from to ≡ ok s
    → s ≡ to
unfolding require_transfer_transition
transition_cases from to h = ground arith

pub lift-eq_ok :
    {A : Type 0} (m : Result A) (db : Db) {r : A × Db}
    → lift m db ≡ ok r
    → (m ≡ ok r.0) × (r.1 ≡ db)
lift-eq_ok (ok a) db h = (cc, cc)
lift-eq_ok (err e) db h = cc

-- `simpleTransition` from its UPDATE on
abbrev rest_of : TransferTransitionInput → StockTransferState → TransferDbRow → Tx TransferRow
rest_of input to row =
    update_state row.id to (stamp to input)
    >> (write_history row.id (some row.state) to input.actor_id input.reason input.occurred_at
        >> finish row.id)

rest-Moved :
    (input : TransferTransitionInput) (to : StockTransferState) (row : TransferDbRow) (db : Db)
    {result : TransferRow} {db' : Db}
    → find (has_id row.id) db.transfers ≡ some row
    → require_transfer_transition row.state to ≡ ok to
    → rest_of input to row db ≡ ok (result, db')
    → Moved row.id to row result db db' × SameTables db db'
unfolding update_state
rest-Moved input to row db {result} {db'} found allowed h =
    let keep = stamp-KeepsState to input in
    let db₁ : Db = record db { transfers = updated row.id to (stamp to input) db } in
    let (_, db₂, wrote, h₂) =
      >>=-eq_ok
        (write_history row.id (some row.state) to input.actor_id input.reason input.occurred_at) _
        db₁ h in
    let (kept, kept_transfers) =
      write_history-same row.id (some row.state) to input.actor_id input.reason input.occurred_at
        db₁ wrote in
    let (row', found', e, kept', kept_transfers') = finish-eq_ok row.id db₂ h₂ in
    let stored = updated-find row.id to (stamp to input) db row keep found in
    let new_row : TransferDbRow = stamp to input (record row { state = to; updated_at = db.now }) in
    let transfers : db'.transfers ≡ updated row.id to (stamp to input) db =
      kept_transfers' ∙ kept_transfers in
    let new_state = (keep (record row { state = to; updated_at = db.now })).1 in
    (
      record {
        found = found;
        allowed = allowed;
        result_state = ground arith;
        stored = (new_row, rw transfers stored, new_state);
        others =
            λ other ne. rw transfers (updated-find_ne row.id other to (stamp to input) db keep ne);
      },
      record {
        permissions = kept'.permissions ∙ kept.permissions;
        ledger = kept'.ledger ∙ kept.ledger;
        transfer_lines = kept'.transfer_lines ∙ kept.transfer_lines;
        receipts = kept'.receipts ∙ kept.receipts;
      },
    )

-- An accepted `simpleTransition` (of `assign`, `startPicking` and `cancel`) follows an allowed
-- transition of the state that was stored: it returns and stores the new state, and changes no other
-- transfer, no stock, no line, no receipt and no permission.
pub simple_transition-Moved :
    (id : String) (input : TransferTransitionInput) (to : StockTransferState) (db : Db)
    {result : TransferRow} {db' : Db}
    → simple_transition id input to db ≡ ok (result, db')
    → (row : TransferDbRow) × (Moved id to row result db db' × SameTables db db')
unfolding simple_transition
simple_transition-Moved id input to db {result} {db'} h =
    let (row, db₁, read, h₁) = >>=-eq_ok (transfer id) _ db h in
    let (found, e₁, same) = transfer-eq_ok id db read in
    let (_, db₂, auth, h₂) =
      >>=-eq_ok (authorize row.event_id input.actor_id transfer_manage) _ db₁ h₁ in
    let (s, db₃, lifted, h₃) =
      >>=-eq_ok (lift (require_transfer_transition row.state to)) _ db₂ h₂ in
    let (allowed, e₃) = lift-eq_ok (require_transfer_transition row.state to) db₂ lifted in
    let e : db₃ ≡ db =
      e₃ ∙ authorize-same row.event_id input.actor_id transfer_manage db₁ auth ∙ e₁ in
    let outcome =
      rest-Moved input to row db₃ (rw (e, same) found)
        (allowed ∙ ap ok (transition_cases row.state to allowed)) h₃ in
    (row, subst₂ (λ d i. Moved i to row result d db' × SameTables d db') e same outcome)
