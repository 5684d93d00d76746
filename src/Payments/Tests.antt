-- ===== src/Payments/Tests.antt =====
-- Deliveries to the worker that settles payments.
use tokyo_tester.Base.{◌≡◌, refl, false, none, List, [], ◌∷◌, arith}
use tokyo_tester.Graph.Texts.{has, text_eq}
use tokyo_tester.Bundle.{codes}
use tokyo_tester.Payments.{
  Message, Infra, Call, nothing, transaction, mark, send, handle_settlement, handle_all,
}
use tokyo_tester.Payments.Settling.{Balanced, handle_all-Balanced}
use tokyo_tester.Payments.Publishing.{IsSilent, handle_settlement-IsSilent}

payments : Unit {0}
unfolding has text_eq
payments = tt

abbrev order : Message
order = record {
  content = record { payment_id = codes "p1"; amount = 250; currency = codes "EUR" };
  retry_count = none;
}

-- One payment, which waits for its settlement.
abbrev waiting : Infra
waiting = record {
  payments = record { payment_id = codes "p1"; settled = false } ∷ [];
  ledger_entries = [];
  settlement_events = [];
  settled_audit = [];
  failed_audit = [];
  settled_status = [];
  sent = [];
  queue = [];
}

abbrev deliveries : List (Call × Message)
deliveries = (transaction, order) ∷ (mark, order) ∷ (nothing, order) ∷ []

waiting-Balanced : Balanced (codes "p1") waiting
unfolding payments
waiting-Balanced = record { one = omega arith; ledger = refl; events = refl }

handle_all-Balanced_example : Balanced (codes "p1") (handle_all deliveries waiting)
handle_all-Balanced_example = handle_all-Balanced deliveries (codes "p1") waiting waiting-Balanced

unsent : has (codes "p1") waiting.sent ≡ false
unfolding payments
unsent = refl

handle_settlement-IsSilent_example :
    IsSilent (codes "p1") (handle_all deliveries (handle_settlement send order waiting))
unfolding payments
handle_settlement-IsSilent_example =
    handle_settlement-IsSilent send order waiting deliveries refl refl unsent
