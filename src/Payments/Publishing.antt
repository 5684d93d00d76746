-- ===== src/Payments/Publishing.antt =====
-- Which settlements the worker of test-api/src/payment-service.ts publishes.
use tokyo_tester.Base.{
  ◌≡◌, refl, ap, ◌∙◌, Bool, Bool-cases, inl, inr, true, false, not, ◌||◌, List, [], ◌∷◌, any, all,
  tally, ◌==◌, arith,
}
use tokyo_tester.Names.{Text}
use tokyo_tester.Graph.Texts.{text_eq, text_eq_iff, text_eq_refl, has}
use tokyo_tester.Payments.{
  PaymentRequest, PaymentRow, SettlementEvent, Message, Infra, Call, nothing, transaction, audit,
  cache, producer, send, mark, is_pending, settle_payments, settle_rows, add_audit, mark_published,
  publish, throws_first, settle, is_retry_allowed, next_retry_count, after_settle,
  handle_settlement, handle_all,
}
use tokyo_tester.Payments.Settling.{is_settled}

-- The calls between the transaction and the event.
abbrev pub is_between : Call → Bool
is_between audit = true
is_between cache = true
is_between producer = true
is_between send = true
is_between _ = false

module _ (i : Text) where
  pending_gone : (rs : List PaymentRow) → tally (is_pending i) (settle_payments i rs) ≡ 0
  unfolding settle_payments
  pending_gone [] = refl
  pending_gone (r ∷ rs) = ground (arith, pending_gone rs)

  pending_stays_gone :
      (j : Text) (rs : List PaymentRow)
      → tally (is_pending i) rs ≡ 0
      → tally (is_pending i) (settle_payments j rs) ≡ 0
  unfolding settle_payments
  pending_stays_gone j [] h = refl
  pending_stays_gone j (r ∷ rs) h = ground (arith, pending_stays_gone j rs)

  settled_stays :
      (j : Text) (rs : List PaymentRow)
      → any (is_settled i) rs ≡ true
      → any (is_settled i) (settle_payments j rs) ≡ true
  unfolding settle_payments
  settled_stays j [] h = h
  settled_stays j (r ∷ rs) h = ground (arith, settled_stays j rs)

  settled_now :
      (rs : List PaymentRow)
      → any (is_pending i) rs ≡ true
      → any (is_settled i) (settle_payments i rs) ≡ true
  unfolding settle_payments
  settled_now [] h = cc
  settled_now (r ∷ rs) h = ground (arith, settled_now rs)

  -- The payment is settled, no row of it is pending, and it has not been published.
  pub record IsSilent (s : Infra) : Type 0 where
    pub settled : any (is_settled i) s.payments ≡ true
    pub over : tally (is_pending i) s.payments ≡ 0
    pub unsent : has i s.sent ≡ false

  payments-settle_rows :
      (p : PaymentRequest) (s : Infra)
      → ((settle_rows p s).0.payments ≡ settle_payments p.payment_id s.payments)
        × ((settle_rows p s).0.sent ≡ s.sent)
  unfolding settle_rows
  payments-settle_rows p s = elim (Bool-cases (tally (is_pending p.payment_id) s.payments == 1)) [
    | inl pending ↦ rw pending (refl, refl)
    | inr other ↦ rw other (refl, refl)
  ]

  settle_rows-IsSilent :
      (p : PaymentRequest) (s : Infra) → IsSilent s → IsSilent (settle_rows p s).0
  settle_rows-IsSilent p s k =
      let (rows, sent_same) = payments-settle_rows p s in
      record {
        settled = rw rows (settled_stays p.payment_id s.payments k.settled);
        over = rw rows (pending_stays_gone p.payment_id s.payments k.over);
        unsent = rw sent_same k.unsent;
      }

  moved_once :
      (p : PaymentRequest) (s : Infra)
      → (settle_rows p s).1 ≡ (tally (is_pending p.payment_id) s.payments == 1)
  unfolding settle_rows
  moved_once p s = elim (Bool-cases (tally (is_pending p.payment_id) s.payments == 1)) [
    | inl pending ↦ rw pending refl
    | inr other ↦ rw other refl
  ]

  -- A payment whose event goes out has changed from pending just now.
  moved_other :
      (p : PaymentRequest) (s : Infra)
      → tally (is_pending i) s.payments ≡ 0
      → (settle_rows p s).1 ≡ true
      → text_eq p.payment_id i ≡ false
  moved_other p s h m = elim (Bool-cases (text_eq p.payment_id i)) [
    | inl same ↦
        let z : tally (is_pending p.payment_id) s.payments ≡ 0 =
          ap (λ k. tally (is_pending k) s.payments) ((text_eq_iff p.payment_id i).0 same) ∙ h in
        ground (arith, moved_once p s)
    | inr other ↦ other
  ]

  publish-IsSilent :
      (call : Call) (p : PaymentRequest) (s : Infra) (moved : Bool)
      → (moved ≡ true → text_eq p.payment_id i ≡ false)
      → IsSilent s
      → IsSilent (publish call p (s, moved)).0
  unfolding publish add_audit has
  publish-IsSilent call p s false f k = k
  publish-IsSilent audit p s true f k = k
  publish-IsSilent cache p s true f k = record {
    settled = k.settled;
    over = k.over;
    unsent = k.unsent;
  }
  publish-IsSilent producer p s true f k = record {
    settled = k.settled;
    over = k.over;
    unsent = k.unsent;
  }
  publish-IsSilent send p s true f k = record {
    settled = k.settled;
    over = k.over;
    unsent = k.unsent;
  }
  publish-IsSilent mark p s true f k = record {
    settled = k.settled;
    over = k.over;
    unsent = ground (arith, f refl, k.unsent);
  }
  publish-IsSilent nothing p s true f k = record {
    settled = k.settled;
    over = k.over;
    unsent = ground (arith, f refl, k.unsent);
  }
  publish-IsSilent transaction p s true f k = record {
    settled = k.settled;
    over = k.over;
    unsent = ground (arith, f refl, k.unsent);
  }

  after_settle-IsSilent :
      (m : Message) (s : Infra) (done : Bool) → IsSilent s → IsSilent (after_settle m (s, done))
  unfolding after_settle
  after_settle-IsSilent m s true k = k
  after_settle-IsSilent m s false k =
      elim (Bool-cases (is_retry_allowed (next_retry_count m.retry_count))) [
        | inl again ↦ rw again (record { settled = k.settled; over = k.over; unsent = k.unsent })
        | inr over ↦ rw over (record { settled = k.settled; over = k.over; unsent = k.unsent })
      ]

  settle-IsSilent :
      (call : Call) (p : PaymentRequest) (s : Infra) → IsSilent s → IsSilent (settle call p s).0
  unfolding settle
  settle-IsSilent call p s k = elim (Bool-cases (throws_first call)) [
    | inl thrown ↦ rw thrown k
    | inr begun ↦ rw begun (
        publish-IsSilent call p (settle_rows p s).0 (settle_rows p s).1
          (λ m. moved_other p s k.over m) (settle_rows-IsSilent p s k))
  ]

  handle_all-IsSilent :
      (ds : List (Call × Message)) (s : Infra) → IsSilent s → IsSilent (handle_all ds s)
  unfolding handle_all handle_settlement
  handle_all-IsSilent [] s k = k
  handle_all-IsSilent (d ∷ ds) s k =
      let t = settle d.0 d.1.content s in
      handle_all-IsSilent ds (after_settle d.1 t)
        (after_settle-IsSilent d.1 t.0 t.1 (settle-IsSilent d.0 d.1.content s k))

publish_between :
    (i : Text) (call : Call) (p : PaymentRequest) (s : Infra) (moved : Bool)
    → is_between call ≡ true
    → IsSilent i s
    → IsSilent i (publish call p (s, moved)).0
unfolding publish add_audit
publish_between i call p s false b k = k
publish_between i audit p s true b k = k
publish_between i cache p s true b k = record {
  settled = k.settled;
  over = k.over;
  unsent = k.unsent;
}
publish_between i producer p s true b k = record {
  settled = k.settled;
  over = k.over;
  unsent = k.unsent;
}
publish_between i send p s true b k = record {
  settled = k.settled;
  over = k.over;
  unsent = k.unsent;
}
publish_between i mark p s true b k = cc
publish_between i nothing p s true b k = cc
publish_between i transaction p s true b k = cc

begun_between : (call : Call) → is_between call ≡ true → throws_first call ≡ false
begun_between call b = ground arith

-- Where a call between the transaction and the event throws for a payment that is pending and not
-- published, the payment is settled, and no delivery after it, the retries included, publishes it.
pub handle_settlement-IsSilent :
    (call : Call) (m : Message) (s : Infra) (later : List (Call × Message))
    → is_between call ≡ true
    → any (is_pending m.content.payment_id) s.payments ≡ true
    → has m.content.payment_id s.sent ≡ false
    → IsSilent m.content.payment_id (handle_all later (handle_settlement call m s))
unfolding handle_settlement settle
handle_settlement-IsSilent call m s later b pending unsent =
    let p = m.content in
    let i = p.payment_id in
    let (rows, sent_same) = payments-settle_rows i p s in
    let moved : IsSilent i (settle_rows p s).0 = record {
      settled = rw rows (settled_now i s.payments pending);
      over = rw rows (pending_gone i s.payments);
      unsent = rw sent_same unsent;
    } in
    let t = publish call p (settle_rows p s) in
    handle_all-IsSilent i later _ (
      rw (begun_between call b) (
        after_settle-IsSilent i m t.0 t.1
          (publish_between i call p (settle_rows p s).0 (settle_rows p s).1 b moved)))

-- Every event of the payment is marked as published.
abbrev pub are_published : Text → List SettlementEvent → Bool
are_published i es = all (λ e. not (text_eq e.payment_id i) || e.published) es

are_published-mark :
    (i : Text) (es : List SettlementEvent) → are_published i (mark_published i es) ≡ true
unfolding mark_published
are_published-mark i [] = refl
are_published-mark i (e ∷ es) = ground (arith, are_published-mark i es)

-- What is left when nothing throws.
pub record IsPublished (i : Text) (s : Infra) : Type 0 where
  pub settled : any (is_settled i) s.payments ≡ true
  pub sent : has i s.sent ≡ true
  pub marked : are_published i s.settlement_events ≡ true

publish-IsPublished :
    (m : Message) (s : Infra) (moved : Bool)
    → moved ≡ true
    → any (is_settled m.content.payment_id) s.payments ≡ true
    → IsPublished m.content.payment_id (after_settle m (publish nothing m.content (s, moved)))
unfolding publish after_settle add_audit has
publish-IsPublished m s true e k = record {
  settled = k;
  sent = ground (arith, text_eq_refl m.content.payment_id);
  marked = are_published-mark m.content.payment_id s.settlement_events;
}
publish-IsPublished m s false e k = cc

any-pending :
    (i : Text) (rs : List PaymentRow) → any (is_pending i) rs ≡ not (tally (is_pending i) rs == 0)
any-pending i [] = ground arith
any-pending i (r ∷ rs) = ground (arith, any-pending i rs)

-- A payment with one row, which is pending, is settled and published by a delivery in which nothing
-- throws.
pub handle_settlement-IsPublished :
    (m : Message) (s : Infra)
    → tally (is_pending m.content.payment_id) s.payments ≡ 1
    → IsPublished m.content.payment_id (handle_settlement nothing m s)
unfolding handle_settlement settle
handle_settlement-IsPublished m s one =
    let p = m.content in
    let i = p.payment_id in
    let (rows, sent_same) = payments-settle_rows i p s in
    let pending : any (is_pending i) s.payments ≡ true = ground (arith, any-pending i s.payments) in
    publish-IsPublished m (settle_rows p s).0 (settle_rows p s).1 (ground (arith, moved_once i p s))
      (rw rows (settled_now i s.payments pending))
