-- ===== src/Cloud/Payments/Initiation/Claims.antt =====
-- payments.service.ts, `initiate`: a request reaches its provider at most once.
use eventcommerce_os.Base.{
  ◌≡◌, ◌≢◌, refl, ap, ◌∙◌, String, some, Bool, true, false, List, [], ◌∷◌, ◌==◌, ◌!=◌, string_eq,
  nat_eq, ==_iff, ==_refl, any, find, Failure, error, ok, err, bind, arith, Bool-cases,
  Option-cases, inl, inr,
}
use eventcommerce_os.Cloud.Payments.{
  PayDb, PaymentRow, AttemptRow, AttemptDbRow, joined, join, load_attempt_by_idempotency,
}
use eventcommerce_os.Cloud.Payments.Initiation.{
  InitiatePaymentRequest, is_payment, insert_payment, new_attempt, has_key, is_other_payment,
  check_payment, insert_attempt, claim,
}

find-any {ℓ} :
    {A : Type ℓ} (p : A → Bool) (xs : List A) {x : A} → find p xs ≡ some x → any p xs ≡ true
find-any p [] h = cc
find-any p (y ∷ ys) {x} h = ground (arith, find-any p ys {x = x})

-- What an accepted claim has done.
record Claimed (request : InitiatePaymentRequest) (fingerprint : String) (db db' : PayDb)
    : Type 0 where
  payment : PaymentRow
  found : find (is_payment request.payment_id) db'.payments ≡ some payment
  agrees : is_other_payment request payment ≡ false
  attempts : db'.attempts ≡ new_attempt request fingerprint db ∷ db.attempts

insert_payment-same :
    (request : InitiatePaymentRequest) (db : PayDb)
    → (insert_payment request db).attempts ≡ db.attempts
unfolding insert_payment
insert_payment-same request db = ground arith

insert_payment-now :
    (request : InitiatePaymentRequest) (db : PayDb) → (insert_payment request db).now ≡ db.now
unfolding insert_payment
insert_payment-now request db = ground arith

insert_attempt-owned :
    (request : InitiatePaymentRequest) (fingerprint : String) (db : PayDb) {db' : PayDb}
    → insert_attempt request fingerprint db ≡ ok (true, db')
    → db' ≡ record db { attempts = new_attempt request fingerprint db ∷ db.attempts }
unfolding insert_attempt
insert_attempt-owned request fingerprint db h =
    elim (Bool-cases (any (has_key request.idempotency_key) db.attempts)) [
      | inl taken ↦ elim (Option-cases (load_attempt_by_idempotency request.idempotency_key db)) [
        | inl e ↦ absurd (ground arith)
        | inr (x, e) ↦ absurd (ground arith)
      ]
      | inr free ↦ ground arith
    ]

claim-Claimed :
    (request : InitiatePaymentRequest) (fingerprint : String) (db : PayDb) {db' : PayDb}
    → claim request fingerprint db ≡ ok (true, db')
    → Claimed request fingerprint db db'
unfolding claim
claim-Claimed request fingerprint db {db'} h =
    let db₁ = insert_payment request db in
    elim (Option-cases (find (is_payment request.payment_id) db₁.payments)) [
      | inl e ↦ absurd (ground arith)
      | inr (p, e) ↦ elim (Bool-cases (is_other_payment request p)) [
        | inl other ↦ absurd (ground (arith, rw (e, other) at h))
        | inr same ↦
            let run : insert_attempt request fingerprint db₁ ≡ ok (true, db') = rw (e, same) at h in
            let result = insert_attempt-owned request fingerprint db₁ run in
            record {
              payment = p;
              found =
                  ap (λ (d : PayDb). find (is_payment request.payment_id) d.payments) result ∙ e;
              agrees = same;
              attempts =
                  ap (λ (d : PayDb). d.attempts) result
                  ∙ ground (arith, insert_payment-same request db, insert_payment-now request db);
            }
      ]
    ]

-- the attempt of a claim, found by its key
load-claimed :
    (request : InitiatePaymentRequest) (fingerprint key : String) (db db' : PayDb)
    → key ≡ request.idempotency_key
    → db'.attempts ≡ new_attempt request fingerprint db ∷ db.attempts
    → (any (has_key key) db'.attempts ≡ true)
      × (find (has_key key) db'.attempts ≡ some (new_attempt request fingerprint db))
load-claimed request fingerprint key db db' same e =
    rw (e, same, ==_refl request.idempotency_key) (refl, refl)

join-fingerprint :
    (db : PayDb) (row : AttemptDbRow) {a : AttemptRow}
    → join db (some row) ≡ some a
    → a.request_fingerprint ≡ row.request_fingerprint
unfolding join
join-fingerprint db row h =
    elim (Option-cases (find (λ (p : PaymentRow). p.id == row.payment_id) db.payments)) [
      | inl e ↦ absurd (ground arith)
      | inr (p, e) ↦ ground arith
    ]

-- a key that is taken by a request of another content
insert_attempt-refused :
    (request : InitiatePaymentRequest) (fingerprint : String) (db : PayDb) (row : AttemptDbRow)
    → any (has_key request.idempotency_key) db.attempts ≡ true
    → find (has_key request.idempotency_key) db.attempts ≡ some row
    → row.request_fingerprint ≢ fingerprint
    → (e : Failure) × (insert_attempt request fingerprint db ≡ err e)
unfolding insert_attempt load_attempt_by_idempotency
insert_attempt-refused request fingerprint db row taken found differs =
    elim (Option-cases (join db (some row))) [
      | inl e ↦
          (error "Idempotency conflict without existing payment attempt", rw (taken, found, e) refl)
      | inr (a, e) ↦
          let other : (a.request_fingerprint != fingerprint) ≡ true =
            ground (
              arith,
              ==_iff a.request_fingerprint fingerprint,
              join-fingerprint db row {a = a} e,
            ) in
          (
            error "Idempotency key was reused for a different payment request",
            rw (taken, found, e, other) refl,
          )
    ]

claim-refused :
    (request : InitiatePaymentRequest) (fingerprint : String) (db : PayDb) (row : AttemptDbRow)
    → any (has_key request.idempotency_key) db.attempts ≡ true
    → find (has_key request.idempotency_key) db.attempts ≡ some row
    → row.request_fingerprint ≢ fingerprint
    → (e : Failure) × (claim request fingerprint db ≡ err e)
unfolding claim
claim-refused request fingerprint db row taken found differs =
    let db₁ = insert_payment request db in
    let same = insert_payment-same request db in
    let (e, refused) =
      insert_attempt-refused request fingerprint db₁ row
        (ap (any (has_key request.idempotency_key)) same ∙ taken)
        (ap (find (has_key request.idempotency_key)) same ∙ found) differs in
    elim (check_payment request (find (is_payment request.payment_id) db₁.payments))
      as (λ r. (x : Failure) × (bind r (λ _. insert_attempt request fingerprint db₁) ≡ err x)) [
        | ok _ ↦ (e, refused)
        | err x ↦ (x, refl)
      ]

join-some :
    (db : PayDb) (row : AttemptDbRow) (p : PaymentRow)
    → find (is_payment row.payment_id) db.payments ≡ some p
    → (a : AttemptRow) × (join db (some row) ≡ some a)
      × (a.request_fingerprint ≡ row.request_fingerprint)
unfolding join
join-some db row p e = (joined row p, rw (e, join) refl, refl)

-- a claim given again
claim-replayed :
    (request : InitiatePaymentRequest) (fingerprint : String) (db : PayDb) (row : AttemptDbRow)
    (p : PaymentRow)
    → find (has_key request.idempotency_key) db.attempts ≡ some row
    → find (is_payment request.payment_id) db.payments ≡ some p
    → is_other_payment request p ≡ false
    → row.payment_id ≡ request.payment_id
    → row.request_fingerprint ≡ fingerprint
    → claim request fingerprint db ≡ ok (false, db)
unfolding claim insert_payment insert_attempt load_attempt_by_idempotency
claim-replayed request fingerprint db row p found paid agrees same print =
    let taken = find-any (has_key request.idempotency_key) db.attempts found in
    let there = find-any (is_payment request.payment_id) db.payments paid in
    let (a, loaded, printed) =
      join-some db row p (ap (λ i. find (is_payment i) db.payments) same ∙ paid) in
    let equal : (a.request_fingerprint != fingerprint) ≡ false =
      ground (arith, ==_refl fingerprint, printed, print) in
    rw (there, paid, agrees, taken, found, loaded, equal) refl

-- The initiation of a payment attempt is owned once: after a request has claimed it, the same request
-- does not own it and changes nothing, and a request that reuses the idempotency key for another
-- content is refused.
pub claim-once :
    (request again : InitiatePaymentRequest) (fingerprint other : String) (db : PayDb) {db' : PayDb}
    → claim request fingerprint db ≡ ok (true, db')
    → again.idempotency_key ≡ request.idempotency_key
    → fingerprint ≢ other
    → (claim request fingerprint db' ≡ ok (false, db'))
      × (e : Failure) × (claim again other db' ≡ err e)
claim-once request again fingerprint other db {db'} h key differs =
    let c = claim-Claimed request fingerprint db h in
    let (taken, found) =
      load-claimed request fingerprint request.idempotency_key db db' refl c.attempts in
    let (e, refused) =
      claim-refused again other db' (new_attempt request fingerprint db) (rw key taken)
        (rw key found) differs in
    (
      claim-replayed request fingerprint db' (new_attempt request fingerprint db) c.payment found
          c.found c.agrees refl refl,
      e,
      refused,
    )
