-- ===== src/TaskLedger/Indexed.antt =====
-- crates/task-ledger/src/lib.rs: the index of idempotency keys that `open` rebuilds.
use nausicaa.Prelude.{
  ◌≡◌, refl, String, false, some, List, [], ◌∷◌, Result, ok, ap, sym, ◌∙◌, arith, In, ◌⊎◌, inl, inr,
  Bool-cases, Result-cases, ◌==◌, ==_iff, string_ord,
}
use nausicaa.Prelude.BTreeMap.{BTreeMap, get, insert, values, get-insert, get-insert_same}
use nausicaa.Prelude.LogFile.{LogFile, Bytes}
use nausicaa.TaskLedger.{TaskId, TaskRecord, LedgerEnvelope, Ledger, LedgerHost}
use nausicaa.TaskLedger.Journal.{Tasks, index_tasks, open_ledger, replay_lines}
use nausicaa.TaskLedger.Operations.{submit}
use nausicaa.TaskLedger.Expiry.{IsKeyed}

get-values :
    {V : Type 0} (id : TaskId) (tasks : Tasks V) {task : TaskRecord V}
    → get id tasks ≡ some task
    → In task (values tasks)
unfolding get
get-values id [] h = absurd (ground (arith, h))
get-values id ((k, first) ∷ tasks) h = elim (Bool-cases (k == id)) [
  | inl e ↦ inl (ground (arith, rw e at h))
  | inr e ↦ inr (get-values id tasks (rw e at h))
]

values-get :
    {V : Type 0} (tasks : Tasks V) (task : TaskRecord V)
    → IsKeyed tasks
    → In task (values tasks)
    → get task.id tasks ≡ some task
unfolding get
values-get [] task keyed i = absurd i
values-get ((k, first) ∷ tasks) task (own, fresh, keyed) (inl e) =
    let same : k ≡ task.id = sym (ap (λ t. t.id) e ∙ own) in
    rw ((==_iff k task.id).1 same) (ap (λ t. some t) (sym e))
values-get ((k, first) ∷ tasks) task (own, fresh, keyed) (inr i) =
    let found = values-get tasks task keyed i in
    elim (Bool-cases (k == task.id)) [
      | inr e ↦ rw e found
      | inl e ↦
          absurd (ground (arith, ap (λ a. get a tasks) ((==_iff k task.id).0 e), fresh, found))
    ]

module _ {V : Type 0} (decode : String → Result (LedgerEnvelope V) String) (key : String) where
  -- the key is that of one of the tasks, and its identifier is in the index
  abbrev Knows : List (TaskRecord V) → BTreeMap String TaskId → Type 0
  Knows tasks keys =
      (found : TaskRecord V) × In found tasks
      × (found.idempotency_key ≡ key)
      × (get key keys ≡ some found.id)

  index_tasks-cases :
      (tasks : List (TaskRecord V)) (keys : BTreeMap String TaskId)
      → (get key (index_tasks decode tasks keys) ≡ get key keys)
        ⊎ Knows tasks (index_tasks decode tasks keys)
  index_tasks-cases [] keys = inl refl
  index_tasks-cases (task ∷ tasks) keys =
      let next = insert task.idempotency_key task.id keys in
      elim (index_tasks-cases tasks next) [
        | inr (found, i, own, g) ↦ inr (found, inr i, own, g)
        | inl g ↦ elim (Bool-cases (task.idempotency_key == key)) [
          | inl e ↦ inr (
            task,
            inl refl,
            (==_iff task.idempotency_key key).0 e,
            g ∙ ground (arith, get-insert task.idempotency_key key task.id keys, e),
          )
          | inr e ↦ inl (g ∙ ground (arith, get-insert task.idempotency_key key task.id keys, e))
        ]
      ]

  index_tasks-In :
      (tasks : List (TaskRecord V)) (keys : BTreeMap String TaskId) (task : TaskRecord V)
      → In task tasks
      → task.idempotency_key ≡ key
      → Knows tasks (index_tasks decode tasks keys)
  index_tasks-In [] keys task i e = absurd i
  index_tasks-In (first ∷ tasks) keys task (inl same) e =
      let next = insert first.idempotency_key first.id keys in
      let own : first.idempotency_key ≡ key = ap (λ t. t.idempotency_key) (sym same) ∙ e in
      elim (index_tasks-cases tasks next) [
        | inr (found, i, k, g) ↦ (found, inr i, k, g)
        | inl g ↦ (
          first,
          inl refl,
          own,
          g
              ∙ (ap (λ k. get k next) (sym own)
                  ∙ get-insert_same first.idempotency_key first.id keys),
        )
      ]
  index_tasks-In (first ∷ tasks) keys task (inr i) e =
      let (found, j, k, g) =
        index_tasks-In tasks (insert first.idempotency_key first.id keys) task i e in
      (found, inr j, k, g)

module _ {V H F : Type 0} (host : LedgerHost H) (log : LogFile F)
    (encode : LedgerEnvelope V → Result Bytes String)
    (decode : String → Result (LedgerEnvelope V) String) where
  open_ledger-fields :
      (lines : List (Result String String)) (file : F) (h : H) (t : Ledger V H F)
      → open_ledger decode lines file h ≡ ok t
      → (t.is_poisoned ≡ false) × (t.idempotency ≡ index_tasks decode (values t.tasks) [])
  unfolding open_ledger
  open_ledger-fields lines file h t e =
      elim (Result-cases (replay_lines decode 0 lines ([], 0, []))) [
        | inl (x, p) ↦ absurd (ground (arith, rw p at e))
        | inr ((tasks, next, written), p) ↦
            let opened : Ledger V H F = record {
              is_poisoned = false;
              file = file;
              next_sequence = next;
              tasks = tasks;
              idempotency = index_tasks decode (values tasks) [];
              written = written;
              host = h;
            } in
            let made : opened ≡ t = ground (arith, rw p at e) in rw (← made) (refl, refl)
      ]

  -- A ledger that is opened knows the keys of its tasks: `submit` with the key of any of them, and any
  -- payload, creates nothing, leaves the ledger as it is and returns a task with that key. The map
  -- that was read has no identifier twice and each task under its own.
  pub open_ledger-submit :
      (lines : List (Result String String)) (file : F) (h : H) (t : Ledger V H F) (id : TaskId)
      (task : TaskRecord V) (payload : V)
      → open_ledger decode lines file h ≡ ok t
      → IsKeyed t.tasks
      → get id t.tasks ≡ some task
      → (found : TaskRecord V) × (found.idempotency_key ≡ task.idempotency_key)
        × (submit host log encode task.idempotency_key payload t
            ≡ (ok (record { task = found; created = false }), t))
  unfolding submit
  open_ledger-submit lines file h t id task payload e keyed got =
      let (clear, index) = open_ledger-fields lines file h t e in
      let (found, i, own, g) =
        index_tasks-In decode task.idempotency_key (values t.tasks) [] task
          (get-values id t.tasks got) refl in
      let stored = values-get t.tasks found keyed i in
      (found, own, rw (clear, index, g, stored) refl)
