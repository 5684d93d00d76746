-- ===== src/Payments/Settling.antt =====
-- What the deliveries to the worker of test-api/src/payment-service.ts leave, in whatever order they come
-- and wherever they fail.
use mathlib.Core.Path.{subst}
use tokyo_tester.Base.{
  ◌+◌, ◌≤◌, ◌≡◌, refl, ◌∙◌, Bool, Bool-cases, inl, inr, true, false, not, ◌&&◌, List, [], ◌∷◌, any,
  tally, ◌==◌, arith,
}
use tokyo_tester.Names.{Text}
use tokyo_tester.Graph.Texts.{text_eq, text_eq_iff, text_eq_refl}
use tokyo_tester.Payments.{
  PaymentRequest, PaymentRow, LedgerEntry, SettlementEvent, Message, Infra, Call, nothing,
  transaction, audit, cache, producer, send, mark, is_settlement, is_pending, settle_payments,
  add_settlement, add_event, settle_rows, add_audit, mark_published, publish, throws_first, settle,
  is_retry_allowed, next_retry_count, after_settle, handle_settlement, handle_all,
}

module _ (i : Text) where
  abbrev pub is_row : PaymentRow → Bool
  is_row r = text_eq r.payment_id i

  abbrev pub is_settled : PaymentRow → Bool
  is_settled r = text_eq r.payment_id i && r.settled

  abbrev pub is_entry : LedgerEntry → Bool
  is_entry e = text_eq e.payment_id i && is_settlement e.entry_type

  abbrev pub is_event : SettlementEvent → Bool
  is_event e = text_eq e.payment_id i

  tally-row :
      (j : Text) (rs : List PaymentRow) → tally is_row (settle_payments j rs) ≡ tally is_row rs
  unfolding settle_payments
  tally-row j [] = refl
  tally-row j (r ∷ rs) = ground (arith, tally-row j rs)

  tally-settled_other :
      (j : Text) (rs : List PaymentRow)
      → text_eq j i ≡ false
      → tally is_settled (settle_payments j rs) ≡ tally is_settled rs
  unfolding settle_payments
  tally-settled_other j [] n = refl
  tally-settled_other j (r ∷ rs) n = ground (
    arith,
    tally-settled_other j rs n,
    text_eq_iff r.payment_id i,
    text_eq_iff r.payment_id j,
    text_eq_iff j i,
  )

  tally-settled_same :
      (rs : List PaymentRow)
      → tally is_settled (settle_payments i rs) ≡ tally is_settled rs + tally (is_pending i) rs
  unfolding settle_payments
  tally-settled_same [] = refl
  tally-settled_same (r ∷ rs) = ground (arith, tally-settled_same rs)

  tally-pending :
      (rs : List PaymentRow) → tally is_row rs ≡ tally is_settled rs + tally (is_pending i) rs
  tally-pending [] = refl
  tally-pending (r ∷ rs) = ground (arith, tally-pending rs)

  tally-no_entry : (es : List LedgerEntry) → any is_entry es ≡ not (tally is_entry es == 0)
  tally-no_entry [] = ground arith
  tally-no_entry (e ∷ es) = ground (arith, tally-no_entry es)

  tally-no_event : (es : List SettlementEvent) → any is_event es ≡ not (tally is_event es == 0)
  tally-no_event [] = ground arith
  tally-no_event (e ∷ es) = ground (arith, tally-no_event es)

  tally-mark_published :
      (j : Text) (es : List SettlementEvent)
      → tally is_event (mark_published j es) ≡ tally is_event es
  unfolding mark_published
  tally-mark_published j [] = refl
  tally-mark_published j (e ∷ es) = ground (arith, tally-mark_published j es)

-- For one payment: it has at most one row, and as many settlements in the ledger and as many events as
-- rows that are settled.
pub record Balanced (i : Text) (s : Infra) : Type 0 where
  pub one : tally (is_row i) s.payments ≤ 1
  pub ledger : tally (is_entry i) s.ledger_entries ≡ tally (is_settled i) s.payments
  pub events : tally (is_event i) s.settlement_events ≡ tally (is_settled i) s.payments

tally-add_settlement :
    (p : PaymentRequest) (es : List LedgerEntry)
    → tally (is_entry p.payment_id) es ≡ 0
    → tally (is_entry p.payment_id) (add_settlement p es) ≡ 1
unfolding add_settlement
tally-add_settlement p es h =
    ground (arith, tally-no_entry p.payment_id es, text_eq_refl p.payment_id)

tally-add_event :
    (i : Text) (es : List SettlementEvent)
    → tally (is_event i) es ≡ 0
    → tally (is_event i) (add_event i es) ≡ 1
unfolding add_event
tally-add_event i es h = ground (arith, tally-no_event i es, text_eq_refl i)

tally-add_settlement_other :
    (i : Text) (p : PaymentRequest) (es : List LedgerEntry)
    → text_eq p.payment_id i ≡ false
    → tally (is_entry i) (add_settlement p es) ≡ tally (is_entry i) es
unfolding add_settlement
tally-add_settlement_other i p es n = ground arith

tally-add_event_other :
    (i j : Text) (es : List SettlementEvent)
    → text_eq j i ≡ false
    → tally (is_event i) (add_event j es) ≡ tally (is_event i) es
unfolding add_event
tally-add_event_other i j es n = ground arith

settle_rows-same :
    (p : PaymentRequest) (s : Infra)
    → Balanced p.payment_id s
    → Balanced p.payment_id (settle_rows p s).0
unfolding settle_rows
settle_rows-same p s b =
    let i = p.payment_id in
    let rows = tally-pending i s.payments in
    let moved = tally-settled_same i s.payments in
    let kept = tally-row i i s.payments in
    elim (Bool-cases (tally (is_pending i) s.payments == 1)) [
      | inl pending ↦
          let free : tally (is_settled i) s.payments ≡ 0 = ground (arith, rows, b.one) in
          let entry = tally-add_settlement p s.ledger_entries (b.ledger ∙ free) in
          let event = tally-add_event i s.settlement_events (b.events ∙ free) in
          rw pending (record {
            one = omega (arith, kept, b.one);
            ledger = ground (arith, entry, moved, free);
            events = ground (arith, event, moved, free);
          })
      | inr other ↦
          let none_pending : tally (is_pending i) s.payments ≡ 0 = ground (arith, rows, b.one) in
          rw other (record {
            one = omega (arith, kept, b.one);
            ledger = omega (arith, moved, none_pending, b.ledger);
            events = omega (arith, moved, none_pending, b.events);
          })
    ]

settle_rows-other :
    (i : Text) (p : PaymentRequest) (s : Infra)
    → text_eq p.payment_id i ≡ false
    → Balanced i s
    → Balanced i (settle_rows p s).0
unfolding settle_rows
settle_rows-other i p s n b =
    let moved = tally-settled_other i p.payment_id s.payments n in
    let kept = tally-row i p.payment_id s.payments in
    let entry = tally-add_settlement_other i p s.ledger_entries n in
    let event = tally-add_event_other i p.payment_id s.settlement_events n in
    elim (Bool-cases (tally (is_pending p.payment_id) s.payments == 1)) [
      | inl pending ↦ rw pending (record {
        one = omega (arith, kept, b.one);
        ledger = omega (arith, moved, entry, b.ledger);
        events = omega (arith, moved, event, b.events);
      })
      | inr other ↦ rw other (record {
        one = omega (arith, kept, b.one);
        ledger = omega (arith, moved, b.ledger);
        events = omega (arith, moved, b.events);
      })
    ]

settle_rows-Balanced :
    (i : Text) (p : PaymentRequest) (s : Infra) → Balanced i s → Balanced i (settle_rows p s).0
settle_rows-Balanced i p s b = elim (Bool-cases (text_eq p.payment_id i)) [
  | inl same ↦
      let e = (text_eq_iff p.payment_id i).0 same in
      subst (λ k. Balanced k s → Balanced k (settle_rows p s).0) e (settle_rows-same p s) b
  | inr other ↦ settle_rows-other i p s other b
]

pub publish-Balanced :
    (i : Text) (call : Call) (p : PaymentRequest) (s : Infra) (moved : Bool)
    → Balanced i s
    → Balanced i (publish call p (s, moved)).0
unfolding publish add_audit
publish-Balanced i call p s false b = b
publish-Balanced i audit p s true b = b
publish-Balanced i cache p s true b = record { one = b.one; ledger = b.ledger; events = b.events }
publish-Balanced i producer p s true b = record {
  one = b.one;
  ledger = b.ledger;
  events = b.events;
}
publish-Balanced i send p s true b = record { one = b.one; ledger = b.ledger; events = b.events }
publish-Balanced i mark p s true b = record { one = b.one; ledger = b.ledger; events = b.events }
publish-Balanced i nothing p s true b = record {
  one = b.one;
  ledger = b.ledger;
  events = tally-mark_published i p.payment_id s.settlement_events ∙ b.events;
}
publish-Balanced i transaction p s true b = record {
  one = b.one;
  ledger = b.ledger;
  events = tally-mark_published i p.payment_id s.settlement_events ∙ b.events;
}

settle-Balanced :
    (i : Text) (call : Call) (p : PaymentRequest) (s : Infra)
    → Balanced i s
    → Balanced i (settle call p s).0
unfolding settle
settle-Balanced i call p s b = elim (Bool-cases (throws_first call)) [
  | inl thrown ↦ rw thrown b
  | inr begun ↦ rw begun (
      publish-Balanced i call p (settle_rows p s).0 (settle_rows p s).1
        (settle_rows-Balanced i p s b))
]

after_settle-Balanced :
    (i : Text) (m : Message) (s : Infra) (done : Bool)
    → Balanced i s
    → Balanced i (after_settle m (s, done))
unfolding after_settle
after_settle-Balanced i m s true b = b
after_settle-Balanced i m s false b =
    elim (Bool-cases (is_retry_allowed (next_retry_count m.retry_count))) [
      | inl again ↦ rw again (record { one = b.one; ledger = b.ledger; events = b.events })
      | inr over ↦ rw over (record { one = b.one; ledger = b.ledger; events = b.events })
    ]

-- However often, in whatever order and for whatever payments messages are delivered, and wherever the
-- handling of each fails, every payment keeps as many settlements in the ledger and as many events as
-- it has settled rows, one at most: no payment is settled twice, and none without its entry.
pub handle_all-Balanced :
    (ds : List (Call × Message)) (i : Text) (s : Infra)
    → Balanced i s
    → Balanced i (handle_all ds s)
unfolding handle_all handle_settlement
handle_all-Balanced [] i s b = b
handle_all-Balanced (d ∷ ds) i s b =
    let t = settle d.0 d.1.content s in
    handle_all-Balanced ds i (after_settle d.1 t)
      (after_settle-Balanced i d.1 t.0 t.1 (settle-Balanced i d.0 d.1.content s b))
