-- ===== src/Sync/Overlap/Sequence.antt =====
-- `commitBatch` of sync-service.ts in one piece, as in Sync/Service, and in its parts, as in Sync/Overlap.
use tokyo_tester.Base.{◌≡◌, refl, ap, ◌∙◌, Option, none, some, List, [], ◌∷◌, arith, if◌then◌else◌}
use tokyo_tester.Sync.{SyncChange, SyncBatchResponse}
use tokyo_tester.Sync.Order.{order_sync_changes}
use tokyo_tester.Sync.Service.{
  SyncService, Env, send_batch, conclude, retry_repaired, commit_batch, end_retry, after_repair,
  end_commit, repair_missing_entity_updates,
}
use tokyo_tester.Sync.Overlap.{Waiting, first, second, begin_send, conclude_with, mend, resume}

module _ (env : Env) where
  -- The answer to a batch that is sent at once.
  abbrev pub reply : List SyncChange → SyncService → Option SyncBatchResponse
  reply batch s = if env.identity then env.respond s.sent (order_sync_changes batch) else none

  -- The second `await`, where there is one.
  abbrev pub resume_more : List Waiting → SyncService → SyncService → SyncService
  resume_more [] before after = after
  resume_more (first batch ∷ ws) before after = after
  resume_more (second batch repaired ∷ ws) before after =
      (resume env (second batch repaired) (reply repaired before) after).service

  send_batch_lem :
      (batch : List SyncChange) (s : SyncService)
      → send_batch env batch s ≡ (begin_send env batch s, reply batch s)
  unfolding send_batch begin_send
  send_batch_lem batch s = ground arith

  conclude_lem :
      (batch : List SyncChange) (r : SyncBatchResponse) (s : SyncService)
      → (conclude env batch r s).0 ≡ (conclude_with env batch r s).service
  unfolding conclude conclude_with
  conclude_lem batch r s = ground arith

  resume-conclude :
      (batch : List SyncChange) (r : SyncBatchResponse) (s : SyncService)
      → (conclude_with env batch r s).more ≡ []
  unfolding conclude_with
  resume-conclude batch r s = ground arith

  end_retry-resume :
      (batch repaired : List SyncChange) (o : Option SyncBatchResponse) (s : SyncService)
      → (end_retry env batch repaired o s).0 ≡ (resume env (second batch repaired) o s).service
  unfolding end_retry resume
  end_retry-resume batch repaired none s = refl
  end_retry-resume batch repaired (some r) s = conclude_lem repaired r s

  retry_repaired-resume :
      (batch repaired : List SyncChange) (s : SyncService)
      → (retry_repaired env batch repaired s).0
        ≡ (resume env
            (second batch repaired)
            (reply repaired s)
            (begin_send env repaired s)).service
  unfolding retry_repaired
  retry_repaired-resume batch repaired s =
      ap (λ p. (end_retry env batch repaired p.1 p.0).0) (send_batch_lem repaired s)
      ∙ end_retry-resume batch repaired (reply repaired s) (begin_send env repaired s)

  after_repair-resume :
      (batch : List SyncChange) (r : SyncBatchResponse) (m : Option (List SyncChange))
      (s : SyncService)
      → (after_repair env batch r m s).0
        ≡ resume_more (mend env batch r m s).more s (mend env batch r m s).service
  unfolding after_repair mend
  after_repair-resume batch r (some repaired) s = retry_repaired-resume batch repaired s
  after_repair-resume batch r none s = rw (resume-conclude batch r s) (conclude_lem batch r s)

  end_commit-resume :
      (batch : List SyncChange) (o : Option SyncBatchResponse) (s : SyncService)
      → (end_commit env batch o s).0
        ≡ resume_more (resume env (first batch) o s).more s (resume env (first batch) o s).service
  unfolding end_commit resume
  end_commit-resume batch none s = refl
  end_commit-resume batch (some r) s =
      after_repair-resume batch r (repair_missing_entity_updates batch r.errors) s

  -- `commitBatch` with nothing in between is its parts one after the other: it leaves what sending the
  -- batch, going on with the answer, and going on with the answer to the repaired batch where there
  -- is one, leave.
  pub commit_batch-resume :
      (batch : List SyncChange) (s : SyncService)
      → (commit_batch env batch s).0
        ≡ resume_more
            (resume env (first batch) (reply batch s) (begin_send env batch s)).more
            (begin_send env batch s)
            (resume env (first batch) (reply batch s) (begin_send env batch s)).service
  unfolding commit_batch
  commit_batch-resume batch s =
      ap (λ p. (end_commit env batch p.1 p.0).0) (send_batch_lem batch s)
      ∙ end_commit-resume batch (reply batch s) (begin_send env batch s)
