-- ===== src/Payments.antt =====
-- `settle` and `handleSettlement` of test-api/src/payment-service.ts, with what they use of
-- test-api/src/domain.ts: the worker that settles payments. The rows of the database, the documents, the
-- queue and the events are explicit, and each delivery says which of the calls throws, if one does. A
-- key such as `${paymentId}:settlement` is the pair of its parts, and the id of a message is that of its
-- payment, as `create` makes it.
pub mod Settling
pub mod Publishing
mod Tests
use tokyo_tester.Base.{
  ℕ, ◌+◌, ◌≡◌, refl, Bool, true, false, not, ◌&&◌, ◌||◌, Option, none, some, List, [], ◌∷◌, ◌++◌,
  map, any, tally, leb, ◌==◌, if◌then◌else◌,
}
use tokyo_tester.Names.{Text}
use tokyo_tester.Graph.Texts.{text_eq, has}

pub record PaymentRequest : Type 0 where
  pub payment_id : Text
  pub amount : ℕ
  pub currency : Text

-- A row of `payments`; what the worker does not read is left out.
pub record PaymentRow : Type 0 where
  pub payment_id : Text
  pub settled : Bool

pub data EntryType : Type 0 where
  authorization settlement : EntryType

-- A row of `ledger_entries`; a settlement's amount is below zero.
pub record LedgerEntry : Type 0 where
  pub payment_id : Text
  pub entry_type : EntryType
  pub amount : ℕ

-- A row of `settlement_events`, by its `payment_id`.
pub record SettlementEvent : Type 0 where
  pub payment_id : Text
  pub published : Bool

pub record Message : Type 0 where
  pub content : PaymentRequest
  pub retry_count : Option ℕ

pub record Infra : Type 0 where
  pub payments : List PaymentRow
  pub ledger_entries : List LedgerEntry
  pub settlement_events : List SettlementEvent
  pub settled_audit : List Text
  pub failed_audit : List (Text × ℕ)
  pub settled_status : List Text
  pub sent : List Text
  pub queue : List Message

-- The call that throws, if one does.
pub data Call : Type 0 where
  nothing transaction audit cache producer send mark : Call

abbrev pub is_settlement : EntryType → Bool
is_settlement settlement = true
is_settlement authorization = false

abbrev pub is_pending : Text → PaymentRow → Bool
is_pending i r = text_eq r.payment_id i && not r.settled

-- `UPDATE payments … WHERE payment_id = … AND status = 'pending'`
unfoldable pub settle_payments : Text → List PaymentRow → List PaymentRow
settle_payments i [] = []
settle_payments i (r ∷ rs) =
    (if is_pending i r then record r { settled = true } else r) ∷ settle_payments i rs

-- `ON CONFLICT (entry_key) DO NOTHING`
unfoldable pub add_settlement : PaymentRequest → List LedgerEntry → List LedgerEntry
add_settlement p es =
    if any (λ e. text_eq e.payment_id p.payment_id && is_settlement e.entry_type) es
    then es
    else record { payment_id = p.payment_id; entry_type = settlement; amount = p.amount } ∷ es

unfoldable pub add_event : Text → List SettlementEvent → List SettlementEvent
add_event i es =
    if any (λ e. text_eq e.payment_id i) es
    then es
    else record { payment_id = i; published = false } ∷ es

-- The transaction, and whether the payment has changed from pending to settled.
unfoldable pub settle_rows : PaymentRequest → Infra → Infra × Bool
settle_rows p s =
    let moved = record s { payments = settle_payments p.payment_id s.payments } in
    if tally (is_pending p.payment_id) s.payments == 1
    then (
      record moved {
        ledger_entries = add_settlement p s.ledger_entries;
        settlement_events = add_event p.payment_id s.settlement_events;
      },
      true,
    )
    else (moved, false)

-- `$setOnInsert` with `upsert`
unfoldable pub add_audit : Text → Infra → Infra
add_audit i s = record s {
  settled_audit = if has i s.settled_audit then s.settled_audit else i ∷ s.settled_audit;
}

unfoldable pub mark_published : Text → List SettlementEvent → List SettlementEvent
mark_published i es =
    map (λ e. if text_eq e.payment_id i then record e { published = true } else e) es

-- `settle` after the transaction, and whether it returns.
unfoldable pub publish : Call → PaymentRequest → Infra × Bool → Infra × Bool
publish call p (s, false) = (s, true)
publish audit p (s, true) = (s, false)
publish cache p (s, true) = (add_audit p.payment_id s, false)
publish producer p (s, true) =
    (record (add_audit p.payment_id s) { settled_status = p.payment_id ∷ s.settled_status }, false)
publish send p (s, true) =
    (record (add_audit p.payment_id s) { settled_status = p.payment_id ∷ s.settled_status }, false)
publish mark p (s, true) = (
  record (add_audit p.payment_id s) {
    settled_status = p.payment_id ∷ s.settled_status;
    sent = p.payment_id ∷ s.sent;
  },
  false,
)
publish call p (s, true) = (
  record (add_audit p.payment_id s) {
    settled_status = p.payment_id ∷ s.settled_status;
    sent = p.payment_id ∷ s.sent;
    settlement_events = mark_published p.payment_id s.settlement_events;
  },
  true,
)

abbrev pub throws_first : Call → Bool
throws_first transaction = true
throws_first _ = false

-- A transaction that throws leaves nothing.
unfoldable pub settle : Call → PaymentRequest → Infra → Infra × Bool
settle call p s = if throws_first call then (s, false) else publish call p (settle_rows p s)

unfoldable pub next_retry_count : Option ℕ → ℕ
next_retry_count none = 1
next_retry_count (some n) = n + 1

abbrev pub is_retry_allowed : ℕ → Bool
is_retry_allowed n = leb n 3

-- What `handleSettlement` does after `settle`.
unfoldable pub after_settle : Message → Infra × Bool → Infra
after_settle m (s, true) = s
after_settle m (s, false) =
    let n = next_retry_count m.retry_count in
    if is_retry_allowed n
    then record s { queue = s.queue ++ record m { retry_count = some n } ∷ [] }
    else record s { failed_audit = (m.content.payment_id, n) ∷ s.failed_audit }

unfoldable pub handle_settlement : Call → Message → Infra → Infra
handle_settlement call m s = after_settle m (settle call m.content s)

-- Deliveries one after the other, whichever messages they are of.
unfoldable pub handle_all : List (Call × Message) → Infra → Infra
handle_all [] s = s
handle_all (d ∷ ds) s = handle_all ds (handle_settlement d.0 d.1 s)
