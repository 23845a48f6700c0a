-- ===== src/Edge/DeviceSync/Gapless.antt =====
-- device-sync.service.ts, `advanceWatermark`: what the loop over the stored numbers reaches is stored.
use eventcommerce_os.Base.{
  ◌≡◌, refl, sym, ap, ◌∙◌, ℕ, ◌+◌, ◌≤◌, ◌<◌, String, Option, none, some, Bool, true, List, [], ◌∷◌,
  ◌==◌, string_eq, nat_eq, ==_iff, ltb, leb, any, find, select, arith, Bool-cases, inl, inr, ◌&&◌,
  ◌||◌,
}
use eventcommerce_os.Base.Sorting.{insert_sorted, sort_by}
use eventcommerce_os.Edge.DeviceSync.{
  SyncDb, ProcessedRow, has_sequence, is_of, accepted_through, sequence_of, walk, advance_watermark,
  below_blocking, accepted_sequence,
}

abbrev has_number : ℕ → ProcessedRow → Bool
has_number n row = sequence_of row == n

-- Every number above the watermark, up to where the loop ends, is in the list.
walk-covers :
    (w n : ℕ) (rows : List ProcessedRow) → w < n → n ≤ walk w rows → any (has_number n) rows ≡ true
walk-covers w n [] lt le = absurd (omega arith)
walk-covers w n (row ∷ rows) lt le = ground (
  arith,
  walk-covers (sequence_of row) n rows,
  ==_iff (sequence_of row) (w + 1),
  ==_iff (sequence_of row) n,
)

any-insert_sorted :
    (p : ProcessedRow → Bool) (row : ProcessedRow) (rows : List ProcessedRow)
    → any p (insert_sorted leb sequence_of row rows) ≡ (p row || any p rows)
any-insert_sorted p row [] = refl
any-insert_sorted p row (x ∷ xs) = ground (arith, any-insert_sorted p row xs)

any-sort_by :
    (p : ProcessedRow → Bool) (rows : List ProcessedRow)
    → any p (sort_by leb sequence_of rows) ≡ any p rows
any-sort_by p [] = refl
any-sort_by p (x ∷ xs) =
    any-insert_sorted p x (sort_by leb sequence_of xs) ∙ ap (λ b. p x || b) (any-sort_by p xs)

any-select :
    (p q : ProcessedRow → Bool) (rows : List ProcessedRow)
    → any p (select q rows) ≡ true
    → any (λ row. q row && p row) rows ≡ true
any-select p q [] h = cc
any-select p q (x ∷ xs) h = ground (arith, any-select p q xs)

any-implied :
    (p q : ProcessedRow → Bool) (rows : List ProcessedRow)
    → ((row : ProcessedRow) → p row ≡ true → q row ≡ true)
    → any p rows ≡ true
    → any q rows ≡ true
any-implied p q [] imp h = cc
any-implied p q (x ∷ xs) imp h = ground (arith, imp x, any-implied p q xs imp)

-- Every number from 1 up to `n` is stored for the device.
abbrev pub Gapless : String → ℕ → SyncDb → Type 0
Gapless device n db = (s : ℕ) → 0 < s → s ≤ n → any (has_sequence device s) db.events ≡ true

pub advance_watermark-Gapless :
    (device : String) (db : SyncDb)
    → Gapless device (accepted_through (find (is_of device) db.watermarks)) db
    → Gapless device (advance_watermark device db) db
unfolding advance_watermark
advance_watermark-Gapless device db below s positive le =
    let w = accepted_through (find (is_of device) db.watermarks) in
    let above =
      λ (row : ProcessedRow). row.envelope.device_id == device && ltb w (sequence_of row) in
    elim (Bool-cases (leb s w)) [
      | inl e ↦ below s positive (ground arith)
      | inr e ↦
          any-implied (λ row. above row && has_number s row) (has_sequence device s) db.events
            (λ row h. ground arith)
            (any-select (has_number s) above db.events (
              sym (any-sort_by (has_number s) (select above db.events))
              ∙ walk-covers w s (sort_by leb sequence_of (select above db.events)) (ground arith)
                  le))
    ]

-- A blocking exception only lowers what is acknowledged.
pub below_blocking-le : (b : Option ℕ) (w : ℕ) → below_blocking b w ≤ w
below_blocking-le none w = ground arith
below_blocking-le (some b) w = ground arith

pub accepted_sequence-Gapless :
    (device : String) (db : SyncDb)
    → Gapless device (accepted_through (find (is_of device) db.watermarks)) db
    → Gapless device (accepted_sequence device db) db
unfolding accepted_sequence
accepted_sequence-Gapless device db below s positive le =
    advance_watermark-Gapless device db below s positive
      (omega (arith, le, below_blocking-le _ (advance_watermark device db)))
