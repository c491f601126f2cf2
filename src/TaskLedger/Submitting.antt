-- ===== src/TaskLedger/Submitting.antt =====
-- crates/task-ledger/src/lib.rs: `submit`, called again with a key that it has seen.
use nausicaa.Prelude.{
  ◌≡◌, refl, String, false, Option, none, some, Result, ok, arith, string_ord, ap, ◌∙◌, sym,
}
use nausicaa.Prelude.BTreeMap.{get, insert, get-insert_same}
use nausicaa.Prelude.LogFile.{LogFile, Bytes}
use nausicaa.Prelude.Exec.{continue_ok}
use nausicaa.TaskLedger.{TaskRecord, Submission, LedgerEnvelope, Ledger, LedgerHost, submitted}
use nausicaa.TaskLedger.Journal.{append_locked, apply_event}
use nausicaa.TaskLedger.Operations.{submit, submit_known, create_task, known, lock, new_task}
use nausicaa.TaskLedger.Appended.{append_locked-Appended}

module _ {V H F : Type 0} (host : LedgerHost H) (log : LogFile F)
    (encode : LedgerEnvelope V → Result Bytes String) (key : String) where
  -- a new task is found under its key from then on
  create_task-known :
      (payload : V) (s t : Ledger V H F) {sub : Submission V}
      → create_task host log encode key payload s ≡ (ok sub, t)
      → (known host log encode t (get key t.idempotency) ≡ some sub.task)
        × (t.is_poisoned ≡ s.is_poisoned)
  unfolding apply_event
  create_task-known payload s t {sub} h =
      let fresh = host.fresh_thread_id (host.now_ms s.host).1 in
      let s' : Ledger V H F = record s { host = fresh.1 } in
      let task = new_task (host.now_ms s.host).0 fresh.0 key payload in
      let (d, u, p, q) = continue_ok (append_locked host log encode (submitted task) s') _ h in
      let a = append_locked-Appended host log encode _ s' u p in
      let last : u ≡ t = ap (λ x. x.1) q in
      let made : task ≡ sub.task = ground (arith, q) in
      let grown : insert task.id task s.tasks ≡ u.tasks = ground (arith, a.applied) in
      let found : get key u.idempotency ≡ some task.id =
        rw a.index (get-insert_same key task.id s.idempotency) in
      let stored : get task.id u.tasks ≡ some task =
        rw (← grown) (get-insert_same task.id task s.tasks) in
      rw (← last, ← made) (ap (known host log encode u) found ∙ stored, a.poisoned)

  submit_known-known :
      (payload : V) (s t : Ledger V H F) (found : Option (TaskRecord V)) {sub : Submission V}
      → known host log encode s (get key s.idempotency) ≡ found
      → submit_known host log encode key payload found s ≡ (ok sub, t)
      → (known host log encode t (get key t.idempotency) ≡ some sub.task)
        × (t.is_poisoned ≡ s.is_poisoned)
  submit_known-known payload s t none e h = create_task-known payload s t h
  submit_known-known payload s t (some task) {sub} e h =
      let last : s ≡ t = ap (λ x. x.1) h in
      let made : task ≡ sub.task = ground (arith, h) in rw (← last, ← made) (e, refl)

  -- A submission that succeeds, whether it created the task or found it, is what `submit` returns
  -- when it is called on the ledger as that submission left it, with the same key and any payload:
  -- the second call creates nothing and leaves the ledger as it is.
  pub submit-submit :
      (payload later : V) (s t : Ledger V H F) (sub : Submission V)
      → submit host log encode key payload s ≡ (ok sub, t)
      → submit host log encode key later t ≡ (ok (record { task = sub.task; created = false }), t)
  unfolding submit
  submit-submit payload later s t sub h =
      let (d, u, p, q) =
        continue_ok (lock host log encode s)
          (λ _ s.
            submit_known host log encode key payload
              (known host log encode s (get key s.idempotency)) s)
          h in
      let same : s ≡ u = ground (arith, p) in
      let open_lock : s.is_poisoned ≡ false = ground (arith, p) in
      let (found, kept) = submit_known-known payload u t _ refl q in
      let clear : t.is_poisoned ≡ false = kept ∙ (ap (λ x. x.is_poisoned) (sym same) ∙ open_lock) in
      rw (clear, found) refl
