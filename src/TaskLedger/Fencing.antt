-- ===== src/TaskLedger/Fencing.antt =====
-- crates/task-ledger/src/lib.rs: who may end a claimed task, and that a task ends once.
use nausicaa.Prelude.{
  ℕ, ◌<◌, ◌≡◌, refl, String, false, none, some, Result, ok, err, arith, ==_iff, string_ord, leb,
  if◌then◌else◌, Bool-cases, ◌⊎◌, inl, inr, ap, ◌∙◌, sym,
}
use nausicaa.Prelude.BTreeMap.{get}
use nausicaa.Prelude.LogFile.{LogFile, Bytes}
use nausicaa.Prelude.Exec.{Exec, throw, continue_ok}
use nausicaa.TaskLedger.{
  TaskId, TaskStatus, DeliveryState, TaskLease, LeaseToken, TaskRecord, LedgerEvent, LedgerEnvelope,
  Ledger, LedgerHost, error, unknown_task, heartbeat, succeeded, panicked,
}
use nausicaa.TaskLedger.Journal.{
  Tasks, apply_event, terminal, end_with, set_result, extend_lease, extended,
}
use nausicaa.TaskLedger.Operations.{
  append_and_get, lock, lift, require_task, require_lease, finish, succeed, heartbeat_task,
}
use nausicaa.TaskLedger.Appended.{Appended, append_and_get-Appended, get-update}

-- the token is the one of the task's current claim, whose lease has not run out
pub record IsHeld {V : Type 0} (token : LeaseToken) (now : ℕ) (task : TaskRecord V)
    (lease : TaskLease) : Type 0 where
  pub running : task.status ≡ TaskStatus.running
  pub leased : task.lease ≡ some lease
  pub worker : token.worker_id ≡ lease.worker_id
  pub attempt : token.attempt ≡ task.attempt
  pub live : now < lease.expires_at_unix_ms

require_lease-IsHeld :
    {V : Type 0} (task : TaskRecord V) (token : LeaseToken) (now : ℕ) {lease : TaskLease}
    → require_lease task token now ≡ ok lease
    → IsHeld token now task lease
unfolding require_lease
require_lease-IsHeld task token now {lease} h = record {
  running = ground arith;
  leased = ground arith;
  worker = ground (arith, ==_iff token.worker_id lease.worker_id);
  attempt = ground arith;
  live = ground arith;
}

Outcome-result : {A E : Type 0} (r : Result A E) → ((a : A) × (r ≡ ok a)) ⊎ ((e : E) × (r ≡ err e))
Outcome-result (ok a) = inl (a, refl)
Outcome-result (err e) = inr (e, refl)

-- what `succeeded` makes of a task
apply_event-succeeded :
    {V : Type 0} (tasks after : Tasks V) (id : TaskId) (value : V) (time : ℕ)
    → apply_event tasks (succeeded id value) time ≡ ok after
    → (task : TaskRecord V) × (get id tasks ≡ some task)
      × (get id after ≡ some (set_result value (end_with TaskStatus.succeeded none time task)))
unfolding apply_event terminal
apply_event-succeeded tasks after id value time h =
    elim (Outcome-result (terminal id TaskStatus.succeeded none time tasks)) [
      | inr (e, x) ↦ ground (arith, rw (terminal, x) at h)
      | inl (ended, x) ↦
          let (task, found, now_ended, grown) =
            get-update _ id (end_with TaskStatus.succeeded none time) tasks ended x in
          let (second, found_again, last, grown_again) =
            get-update panicked id (set_result value) ended after (rw x at h) in
          let same : end_with TaskStatus.succeeded none time task ≡ second =
            ground (arith, now_ended, found_again) in
          (task, found, rw (← same) at last)
    ]

-- a step behind a guard that refuses `a ≤ b`
guarded :
    {S E A : Type 0} (a b : ℕ) (e : E) (m : Exec S E A) (s : S) {r : A} {t : S}
    → (if leb a b then throw e else m) s ≡ (ok r, t)
    → (b < a) × (m s ≡ (ok r, t))
guarded a b e m s h = elim (Bool-cases (leb a b)) [
  | inl c ↦ cc (rw c at h)
  | inr c ↦ (ground (arith, c), rw c at h)
]

module _ {V H F : Type 0} (host : LedgerHost H) (log : LogFile F)
    (encode : LedgerEnvelope V → Result Bytes String) (id : TaskId) (token : LeaseToken)
    (now : ℕ) where
  finish-IsHeld :
      (event : LedgerEvent V) (s t : Ledger V H F) {r : TaskRecord V}
      → finish host log encode id token now event s ≡ (ok r, t)
      → (task : TaskRecord V) × (lease : TaskLease) × (get id s.tasks ≡ some task)
        × IsHeld token now task lease
        × Appended host log encode event s t
        × (get id t.tasks ≡ some r)
        × (s.is_poisoned ≡ false)
  unfolding finish require_task
  finish-IsHeld event s t h =
      let (d, u, p, q) = continue_ok (lock host log encode s) _ h in
      let same : s ≡ u = ground (arith, p) in
      let (task, u', p', q') = continue_ok (require_task host log encode id u) _ q in
      let (lease, u'', p'', q'') =
        continue_ok (lift host log encode (require_lease task token now) u') _ q' in
      let held : IsHeld token now task lease =
        require_lease-IsHeld task token now (ap (λ x. x.0) p'') in
      let same' : u ≡ u' = ap (λ x. x.1) p' in
      let same'' : u' ≡ u'' = ap (λ x. x.1) p'' in
      let unmoved : u'' ≡ s = sym (same ∙ (same' ∙ same'')) in
      let found : get id s.tasks ≡ some task = rw (same) (ground (arith, p')) in
      let (a, g) = append_and_get-Appended host log encode id event s t (rw unmoved at q'') in
      (task, lease, found, held, a, g, ground (arith, p))

  -- A worker's `succeed` is accepted only for a task that is running under an unexpired lease of
  -- that worker and of the same claim attempt. The task is then succeeded with the worker's result,
  -- holds no lease, awaits the delivery of its completion and keeps its attempt, and it is the
  -- record returned.
  pub succeed-IsHeld :
      (value : V) (s t : Ledger V H F) (r : TaskRecord V)
      → succeed host log encode id token now value s ≡ (ok r, t)
      → (task : TaskRecord V) × (lease : TaskLease) × (get id s.tasks ≡ some task)
        × IsHeld token now task lease
        × (get id t.tasks ≡ some r)
        × (r.status ≡ TaskStatus.succeeded)
        × (r.result ≡ some value)
        × (r.lease ≡ none)
        × (r.delivery ≡ DeliveryState.pending)
        × (r.attempt ≡ task.attempt)
  unfolding succeed
  succeed-IsHeld value s t r h =
      let (task, lease, found, held, a, g, _) = finish-IsHeld (succeeded id value) s t h in
      let (task', found', last) =
        apply_event-succeeded s.tasks t.tasks id value (host.now_ms s.host).0 a.applied in
      let same : task' ≡ task = ground (arith, found, found') in
      let made : set_result value (end_with TaskStatus.succeeded none (host.now_ms s.host).0 task)
          ≡ r =
        ground (arith, g, rw same at last) in
      (
        task,
        lease,
        found,
        held,
        g,
        ap (λ x. x.status) (sym made),
        ap (λ x. x.result) (sym made),
        ap (λ x. x.lease) (sym made),
        ap (λ x. x.delivery) (sym made),
        ap (λ x. x.attempt) (sym made),
      )

  -- A heartbeat is accepted only from the holder of the lease, before it runs out, and only to a later
  -- end. The task then runs on under the same worker and the same attempt until that end.
  pub heartbeat_task-IsHeld :
      (expires : ℕ) (s t : Ledger V H F) (r : TaskRecord V)
      → heartbeat_task host log encode id token now expires s ≡ (ok r, t)
      → (task : TaskRecord V) × (lease : TaskLease) × (get id s.tasks ≡ some task)
        × IsHeld token now task lease
        × (lease.expires_at_unix_ms < expires)
        × (get id t.tasks ≡ some r)
        × (r.status ≡ TaskStatus.running)
        × (r.lease ≡ some (record lease { expires_at_unix_ms = expires }))
        × (r.attempt ≡ task.attempt)
  unfolding heartbeat_task require_task apply_event
  heartbeat_task-IsHeld expires s t r h =
      let (d, u, p, q) = continue_ok (lock host log encode s) _ h in
      let same : s ≡ u = ground (arith, p) in
      let (task, u', p', q') = continue_ok (require_task host log encode id u) _ q in
      let (lease, u'', p'', q'') =
        continue_ok (lift host log encode (require_lease task token now) u') _ q' in
      let held : IsHeld token now task lease =
        require_lease-IsHeld task token now (ap (λ x. x.0) p'') in
      let same' : u ≡ u' = ap (λ x. x.1) p' in
      let same'' : u' ≡ u'' = ap (λ x. x.1) p'' in
      let unmoved : u'' ≡ s = sym (same ∙ (same' ∙ same'')) in
      let found : get id s.tasks ≡ some task = rw (same) (ground (arith, p')) in
      let (later, stored) =
        guarded expires lease.expires_at_unix_ms _
          (append_and_get host log encode id (heartbeat id expires)) u'' q'' in
      let (a, g) =
        append_and_get-Appended host log encode id (heartbeat id expires) s t
          (rw unmoved at stored) in
      let (task', found', last, grown) =
        get-update (error (unknown_task id)) id (extend_lease expires (host.now_ms s.host).0)
          s.tasks t.tasks a.applied in
      let again : task' ≡ task = ground (arith, found, found') in
      let made : extend_lease expires (host.now_ms s.host).0 task ≡ r =
        ground (arith, g, rw again at last) in
      (
        task,
        lease,
        found,
        held,
        later,
        g,
        ap (λ x. x.status) (sym made) ∙ held.running,
        ap (λ x. x.lease) (sym made) ∙ ap (extended expires) held.leased,
        ap (λ x. x.attempt) (sym made),
      )
