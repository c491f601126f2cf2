-- ===== src/TaskLedger/Ended.antt =====
-- crates/task-ledger/src/lib.rs: a task that has ended, under the calls of workers and clients.
use nausicaa.Prelude.{
  ℕ, ◌≡◌, refl, String, Bool, true, false, some, List, [], ◌∷◌, Result, ap, ◌∙◌, arith, ◌⊎◌, inl,
  inr, Bool-cases, ◌==◌, ==_iff, string_ord, if◌then◌else◌,
}
use nausicaa.Prelude.BTreeMap.{get}
use nausicaa.Prelude.LogFile.{LogFile, Bytes}
use nausicaa.Prelude.Exec.{◌>>=◌, Outcome-cases}
use nausicaa.TaskLedger.{
  TaskId, TaskStatus, LeaseToken, TaskRecord, LedgerEvent, LedgerEnvelope, Ledger, LedgerHost,
  Operation, is_terminal, is_running, succeeded, failed,
}
use nausicaa.TaskLedger.Journal.{append_locked}
use nausicaa.TaskLedger.Operations.{
  append_and_get, indexed, lock, require_task, require_lease, finish, succeed, fail, heartbeat_task,
  cancel,
}
use nausicaa.TaskLedger.Appended.{append_locked-Appended, apply_event-other, target}

-- a task whose outcome is settled, an unknown one included
abbrev pub IsEnded : TaskStatus → Type 0
IsEnded status =
    (status ≡ TaskStatus.succeeded)
    ⊎ (status ≡ TaskStatus.failed)
    ⊎ (status ≡ TaskStatus.cancelled)
    ⊎ (status ≡ TaskStatus.unknown)

IsEnded-flags :
    (status : TaskStatus)
    → IsEnded status
    → (is_running status ≡ false) × (is_terminal status ≡ true)
unfolding is_terminal
IsEnded-flags status (inl e) = rw e (refl, refl)
IsEnded-flags status (inr (inl e)) = rw e (refl, refl)
IsEnded-flags status (inr (inr (inl e))) = rw e (refl, refl)
IsEnded-flags status (inr (inr (inr e))) = rw e (refl, refl)

-- the calls that name a task and may change its outcome or its lease
pub data Call (V : Type 0) : Type 0 where
  succeed_call : TaskId → LeaseToken → ℕ → V → Call V
  fail_call : TaskId → LeaseToken → ℕ → String → Call V
  heartbeat_call : TaskId → LeaseToken → ℕ → ℕ → Call V
  cancel_call : TaskId → String → Call V

module _ {V H F : Type 0} (host : LedgerHost H) (log : LogFile F)
    (encode : LedgerEnvelope V → Result Bytes String) where
  -- the ledger after a call, whatever the call returned
  abbrev pub after_call : Call V → Ledger V H F → Ledger V H F
  after_call (succeed_call id token now value) s = (succeed host log encode id token now value s).1
  after_call (fail_call id token now reason) s = (fail host log encode id token now reason s).1
  after_call (heartbeat_call id token now expires) s =
      (heartbeat_task host log encode id token now expires s).1
  after_call (cancel_call id reason) s = (cancel host log encode id reason s).1

  abbrev pub after_calls : List (Call V) → Ledger V H F → Ledger V H F
  after_calls [] s = s
  after_calls (call ∷ calls) s = after_calls calls (after_call call s)

  module _ (j : TaskId) where
    -- the call leaves the task as it is
    abbrev Leaves : {A : Type 0} → Operation V H F A → Type 0
    Leaves m = (s : Ledger V H F) → get j (m s).1.tasks ≡ get j s.tasks

    Leaves-bind :
        {A B : Type 0} (m : Operation V H F A) (f : A → Operation V H F B)
        → Leaves m
        → ((a : A) → Leaves (f a))
        → Leaves (m >>= f)
    Leaves-bind m f k l s = elim (Outcome-cases (m s)) [
      | inl (a, t, e) ↦ rw e (l a t ∙ rw e at (k s))
      | inr (x, t, e) ↦ rw e (rw e at (k s))
    ]

    if-Leaves :
        {A : Type 0} (b : Bool) (p q : Operation V H F A)
        → Leaves p
        → Leaves q
        → Leaves (if b then p else q)
    if-Leaves true p q h k = h
    if-Leaves false p q h k = k

    lock-Leaves : Leaves (lock host log encode)
    lock-Leaves s = ground arith

    require_task-Leaves : (id : TaskId) → Leaves (require_task host log encode id)
    unfolding require_task
    require_task-Leaves id s = refl

    indexed-Leaves : (id : TaskId) → Leaves (indexed host log encode id)
    unfolding indexed
    indexed-Leaves id s = refl

    append_locked-Leaves :
        (event : LedgerEvent V)
        → (target event == j) ≡ false
        → Leaves (append_locked host log encode event)
    unfolding append_locked
    append_locked-Leaves event other s =
        elim (Outcome-cases (append_locked host log encode event s)) [
          | inl (d, t, e) ↦
              let a = append_locked-Appended host log encode event s t e in
              rw e
                (apply_event-other j event (host.now_ms s.host).0 s.tasks t.tasks a.applied other)
          | inr (x, t, e) ↦ rw e (ground (arith, e))
        ]

    append_and_get-Leaves :
        (id : TaskId) (event : LedgerEvent V)
        → (target event == j) ≡ false
        → Leaves (append_and_get host log encode id event)
    unfolding append_and_get
    append_and_get-Leaves id event other =
        Leaves-bind (append_locked host log encode event) (λ _. indexed host log encode id)
          (append_locked-Leaves event other) (λ _. indexed-Leaves id)

    finish-Leaves :
        (id : TaskId) (token : LeaseToken) (now : ℕ) (event : LedgerEvent V)
        → (target event == j) ≡ false
        → Leaves (finish host log encode id token now event)
    unfolding finish
    finish-Leaves id token now event other =
        search (Leaves-bind, lock-Leaves, require_task-Leaves, append_and_get-Leaves, other)

    heartbeat_task-Leaves :
        (id : TaskId) (token : LeaseToken) (now expires : ℕ)
        → (id == j) ≡ false
        → Leaves (heartbeat_task host log encode id token now expires)
    unfolding heartbeat_task
    heartbeat_task-Leaves id token now expires other =
        search
          (Leaves-bind, lock-Leaves, require_task-Leaves, if-Leaves, append_and_get-Leaves, other)

    cancel-Leaves :
        (id : TaskId) (reason : String)
        → (id == j) ≡ false
        → Leaves (cancel host log encode id reason)
    unfolding cancel
    cancel-Leaves id reason other =
        search
          (Leaves-bind, lock-Leaves, require_task-Leaves, if-Leaves, append_and_get-Leaves, other)

  module _ (j : TaskId) (s : Ledger V H F) (r : TaskRecord V) where
    finish-refused :
        (token : LeaseToken) (now : ℕ) (event : LedgerEvent V)
        → get j s.tasks ≡ some r
        → is_running r.status ≡ false
        → (finish host log encode j token now event s).1 ≡ s
    unfolding finish require_task require_lease
    finish-refused token now event e idle = elim (Bool-cases s.is_poisoned) [
      | inl p ↦ rw p refl
      | inr p ↦ rw (p, e, idle) refl
    ]

    heartbeat_task-refused :
        (token : LeaseToken) (now expires : ℕ)
        → get j s.tasks ≡ some r
        → is_running r.status ≡ false
        → (heartbeat_task host log encode j token now expires s).1 ≡ s
    unfolding heartbeat_task require_task require_lease
    heartbeat_task-refused token now expires e idle = elim (Bool-cases s.is_poisoned) [
      | inl p ↦ rw p refl
      | inr p ↦ rw (p, e, idle) refl
    ]

    cancel-refused :
        (reason : String)
        → get j s.tasks ≡ some r
        → is_terminal r.status ≡ true
        → (cancel host log encode j reason s).1 ≡ s
    unfolding cancel require_task
    cancel-refused reason e ended = elim (Bool-cases s.is_poisoned) [
      | inl p ↦ rw p refl
      | inr p ↦ rw (p, e, ended) refl
    ]

    -- one call, of whatever task
    after_call-ended :
        (call : Call V)
        → get j s.tasks ≡ some r
        → IsEnded r.status
        → get j (after_call call s).tasks ≡ some r
    unfolding succeed fail
    after_call-ended (succeed_call id token now value) e h = elim (Bool-cases (id == j)) [
      | inr other ↦ finish-Leaves j id token now (succeeded id value) other s ∙ e
      | inl x ↦
          let same : id ≡ j = (==_iff id j).0 x in
          let idle = (IsEnded-flags r.status h).0 in
          rw same
            (ap (λ t. get j t.tasks) (finish-refused token now (succeeded j value) e idle) ∙ e)
    ]
    after_call-ended (fail_call id token now reason) e h = elim (Bool-cases (id == j)) [
      | inr other ↦ finish-Leaves j id token now (failed id reason) other s ∙ e
      | inl x ↦
          let same : id ≡ j = (==_iff id j).0 x in
          let idle = (IsEnded-flags r.status h).0 in
          rw same (ap (λ t. get j t.tasks) (finish-refused token now (failed j reason) e idle) ∙ e)
    ]
    after_call-ended (heartbeat_call id token now expires) e h = elim (Bool-cases (id == j)) [
      | inr other ↦ heartbeat_task-Leaves j id token now expires other s ∙ e
      | inl x ↦
          let same : id ≡ j = (==_iff id j).0 x in
          let idle = (IsEnded-flags r.status h).0 in
          rw same (ap (λ t. get j t.tasks) (heartbeat_task-refused token now expires e idle) ∙ e)
    ]
    after_call-ended (cancel_call id reason) e h = elim (Bool-cases (id == j)) [
      | inr other ↦ cancel-Leaves j id reason other s ∙ e
      | inl x ↦
          let same : id ≡ j = (==_iff id j).0 x in
          let ended = (IsEnded-flags r.status h).1 in
          rw same (ap (λ t. get j t.tasks) (cancel-refused reason e ended) ∙ e)
    ]

  -- A task that has succeeded, failed, been cancelled or been given up as unknown is the same record
  -- after any sequence of calls of `succeed`, `fail`, `heartbeat` and `cancel`, of this task or of
  -- others, with any tokens, times and values, whether they return errors or not, and whatever the
  -- file does.
  pub after_calls-ended :
      (j : TaskId) (r : TaskRecord V) (calls : List (Call V)) (s : Ledger V H F)
      → get j s.tasks ≡ some r
      → IsEnded r.status
      → get j (after_calls calls s).tasks ≡ some r
  after_calls-ended j r [] s e h = e
  after_calls-ended j r (call ∷ calls) s e h =
      after_calls-ended j r calls (after_call call s) (after_call-ended j s r call e h) h
