-- ===== src/Memory/Cache.antt =====
-- crates/memory/src/lib.rs: the cache of snapshots, bounded, and the same for every compile of a turn.
use nausicaa.Prelude.{
  ℕ, suc, ◌≤◌, ◌≡◌, refl, sym, ap, ◌∙◌, false, none, some, List, [], ◌∷◌, ◌++◌, arith, length,
  length-append, In, In-append_cases, In-append_right, In-append_left, append_assoc, push, inl, inr,
  string_ord, pair_ord, ltb, Bool-cases, ==_iff, ◌==◌, if◌then◌else◌,
}
use nausicaa.Prelude.BTreeMap.{
  BTreeMap, get, insert, remove, get-insert, get-insert_same, get-remove,
}
use nausicaa.Memory.{MemoryRecord}
use nausicaa.Memory.Snapshots.{SnapshotKey, SnapshotCache, evict, remember}

abbrev Entries : Type 0
Entries = BTreeMap SnapshotKey (List MemoryRecord)

-- no key is twice in the list
abbrev pub IsUnique : List SnapshotKey → Type 0
IsUnique [] = Unit
IsUnique (key ∷ order) = (In key order → ⊥) × IsUnique order

-- every key that is in the order has an entry
abbrev Covers : List SnapshotKey → Entries → Type 0
Covers order entries = (key : SnapshotKey) → In key order → get key entries ≡ none → ⊥

-- no key has an entry but those in the order
abbrev pub Lists : List SnapshotKey → Entries → Type 0
Lists order entries = (key : SnapshotKey) → (In key order → ⊥) → get key entries ≡ none

-- a key that is not in the list is not one that is
In-other :
    (key j : SnapshotKey) (order : List SnapshotKey)
    → (In key order → ⊥)
    → In j order
    → (key == j) ≡ false
In-other key j order fresh h = elim (Bool-cases (key == j)) [
  | inl e ↦ let same : key ≡ j = (==_iff key j).0 e in absurd (fresh (rw same h))
  | inr e ↦ e
]

get-remove_other :
    (key j : SnapshotKey) (entries : Entries)
    → (key == j) ≡ false
    → get j (remove key entries) ≡ get j entries
get-remove_other key j entries h =
    get-remove key j entries ∙ ap (λ b. if b then none else get j entries) h

get-insert_other :
    (key j : SnapshotKey) (memories : List MemoryRecord) (entries : Entries)
    → (key == j) ≡ false
    → get j (insert key memories entries) ≡ get j entries
get-insert_other key j memories entries h =
    get-insert key j memories entries ∙ ap (λ b. if b then some memories else get j entries) h

absent-other :
    (j key : SnapshotKey) (entries : Entries) {memories : List MemoryRecord}
    → get j entries ≡ none
    → get key entries ≡ some memories
    → (j == key) ≡ false
absent-other j key entries h e = elim (Bool-cases (j == key)) [
  | inl same ↦ absurd (ground (arith, ap (λ k. get k entries) ((==_iff j key).0 same), h, e))
  | inr other ↦ other
]

evict-length :
    (maximum : ℕ) (order : List SnapshotKey) (entries : Entries)
    → length (evict maximum order entries).order ≤ maximum
unfolding evict
evict-length maximum [] entries = omega arith
evict-length maximum (key ∷ order) entries =
    ground (arith, evict-length maximum order (remove key entries))

IsUnique-evict :
    (maximum : ℕ) (order : List SnapshotKey) (entries : Entries)
    → IsUnique order
    → IsUnique (evict maximum order entries).order
unfolding evict
IsUnique-evict maximum [] entries u = tt
IsUnique-evict maximum (key ∷ order) entries (fresh, u) =
    elim (Bool-cases (ltb maximum (suc (length order)))) [
      | inl h ↦ rw h (IsUnique-evict maximum order (remove key entries) u)
      | inr h ↦ rw h (fresh, u)
    ]

Covers-evict :
    (maximum : ℕ) (order : List SnapshotKey) (entries : Entries)
    → IsUnique order
    → Covers order entries
    → Covers (evict maximum order entries).order (evict maximum order entries).entries
unfolding evict
Covers-evict maximum [] entries u c = λ key h. absurd h
Covers-evict maximum (key ∷ order) entries (fresh, u) c =
    elim (Bool-cases (ltb maximum (suc (length order)))) [
      | inl h ↦ rw h (
          Covers-evict maximum order (remove key entries) u (λ j i e.
            c j (inr i) (sym (get-remove_other key j entries (In-other key j order fresh i)) ∙ e)))
      | inr h ↦ rw h c
    ]

Lists-evict :
    (maximum : ℕ) (order : List SnapshotKey) (entries : Entries)
    → Lists order entries
    → Lists (evict maximum order entries).order (evict maximum order entries).entries
unfolding evict
Lists-evict maximum [] entries l = l
Lists-evict maximum (key ∷ order) entries l = elim (Bool-cases (ltb maximum (suc (length order)))) [
  | inl h ↦ rw h (
      Lists-evict maximum order (remove key entries) (λ j i. elim (Bool-cases (key == j)) [
        | inl e ↦ get-remove key j entries ∙ ap (λ b. if b then none else get j entries) e
        | inr e ↦
            get-remove_other key j entries e
            ∙ l j (λ k. elim k [
              | inl same ↦ absurd (ground (arith, e, (==_iff key j).1 (sym same)))
              | inr later ↦ i later
            ])
      ]))
  | inr h ↦ rw h l
]

-- the key keeps its entry while it is among the last
evict-keeps :
    (maximum : ℕ) (pre post : List SnapshotKey) (key : SnapshotKey) (entries : Entries)
    (memories : List MemoryRecord)
    → suc (length post) ≤ maximum
    → IsUnique (pre ++ key ∷ post)
    → get key entries ≡ some memories
    → (rest : List SnapshotKey) × ((evict maximum (pre ++ key ∷ post) entries).order
        ≡ rest ++ key ∷ post)
      × (get key (evict maximum (pre ++ key ∷ post) entries).entries ≡ some memories)
unfolding evict
evict-keeps maximum [] post key entries memories bound u h =
    let fits : ltb maximum (suc (length post)) ≡ false = ground (arith, bound) in
    rw fits ([], refl, h)
evict-keeps maximum (x ∷ pre) post key entries memories bound (fresh, u) h =
    elim (Bool-cases (ltb maximum (suc (length (pre ++ key ∷ post))))) [
      | inl over ↦
          let other =
            In-other x key (pre ++ key ∷ post) fresh
              (In-append_right key pre (key ∷ post) (inl refl)) in
          rw over (
            evict-keeps maximum pre post key (remove x entries) memories bound u
              (get-remove_other x key entries other ∙ h))
      | inr fits ↦ rw fits (x ∷ pre, refl, h)
    ]

-- the cache after any compiles: no key twice, an entry for every key and for no other, and no more
-- than the maximum
pub record IsCache (maximum : ℕ) (cache : SnapshotCache) : Type 0 where
  pub unique : IsUnique cache.order
  pub covers : Covers cache.order cache.entries
  pub listed : Lists cache.order cache.entries
  pub bounded : length cache.order ≤ maximum

IsUnique-push :
    (key : SnapshotKey) (order : List SnapshotKey)
    → IsUnique order
    → (In key order → ⊥)
    → IsUnique (push key order)
IsUnique-push key [] u fresh = (λ h. absurd h, tt)
IsUnique-push key (x ∷ order) (other, u) fresh = (
  λ h. elim (In-append_cases x order (key ∷ []) h) [
    | inl i ↦ other i
    | inr (inl e) ↦ fresh (inl (sym e))
    | inr (inr i) ↦ absurd i
  ],
  IsUnique-push key order u (λ h. fresh (inr h)),
)

Covers-insert :
    (key : SnapshotKey) (order : List SnapshotKey) (memories : List MemoryRecord)
    (entries : Entries)
    → Covers order entries
    → Covers (push key order) (insert key memories entries)
Covers-insert key order memories entries c j h e = elim (Bool-cases (key == j)) [
  | inl same ↦ absurd (ground (arith, get-insert key j memories entries, same, e))
  | inr other ↦ elim (In-append_cases j order (key ∷ []) h) [
    | inl i ↦ c j i (sym (get-insert_other key j memories entries other) ∙ e)
    | inr (inl p) ↦ absurd (ground (arith, other, (==_iff key j).1 (sym p)))
    | inr (inr i) ↦ absurd i
  ]
]

Lists-insert :
    (key : SnapshotKey) (order : List SnapshotKey) (memories : List MemoryRecord)
    (entries : Entries)
    → Lists order entries
    → Lists (push key order) (insert key memories entries)
Lists-insert key order memories entries l j h = elim (Bool-cases (key == j)) [
  | inl same ↦ absurd (h (In-append_right j order (key ∷ []) (inl (sym ((==_iff key j).0 same)))))
  | inr other ↦
      get-insert_other key j memories entries other
      ∙ l j (λ i. h (In-append_left j order (key ∷ []) i))
]

pub remember-IsCache :
    (maximum : ℕ) (key : SnapshotKey) (memories : List MemoryRecord) (cache : SnapshotCache)
    → IsCache maximum cache
    → get key cache.entries ≡ none
    → IsCache maximum (remember maximum key memories cache)
unfolding remember
remember-IsCache maximum key memories cache c absent =
    let u = IsUnique-push key cache.order c.unique (λ h. c.covers key h absent) in
    let e = insert key memories cache.entries in
    record {
      unique = IsUnique-evict maximum (push key cache.order) e u;
      covers =
          Covers-evict maximum (push key cache.order) e u
            (Covers-insert key cache.order memories cache.entries c.covers);
      listed =
          Lists-evict maximum (push key cache.order) e
            (Lists-insert key cache.order memories cache.entries c.listed);
      bounded = evict-length maximum (push key cache.order) e;
    }

-- the key has these memories, and at most `n` keys are younger
abbrev pub Retains : ℕ → SnapshotKey → List MemoryRecord → SnapshotCache → Type 0
Retains n key memories cache =
    (pre : List SnapshotKey) × (post : List SnapshotKey) × (cache.order ≡ pre ++ key ∷ post)
    × (length post ≤ n)
    × (get key cache.entries ≡ some memories)

pub remember-Retains :
    (maximum n : ℕ) (key j : SnapshotKey) (memories others : List MemoryRecord)
    (cache : SnapshotCache)
    → IsCache maximum cache
    → get j cache.entries ≡ none
    → suc (suc n) ≤ maximum
    → Retains n key memories cache
    → Retains (suc n) key memories (remember maximum j others cache)
unfolding remember
remember-Retains maximum n key j memories others cache c absent bound (pre, post, p, q, r) =
    let other = absent-other j key cache.entries absent r in
    let u = IsUnique-push j cache.order c.unique (λ h. c.covers j h absent) in
    let grown : push j cache.order ≡ pre ++ key ∷ push j post =
      ap (push j) p ∙ append_assoc pre (key ∷ post) (j ∷ []) in
    let (rest, o, g) =
      evict-keeps maximum pre (push j post) key (insert j others cache.entries) memories
        (ground (arith, length-append post (j ∷ []))) (rw (← grown) u)
        (get-insert_other j key others cache.entries other ∙ r) in
    rw grown (rest, push j post, o, ground (arith, length-append post (j ∷ [])), g)

-- a snapshot that was just taken
pub remember-Retains_new :
    (maximum : ℕ) (key : SnapshotKey) (memories : List MemoryRecord) (cache : SnapshotCache)
    → IsCache maximum cache
    → get key cache.entries ≡ none
    → 1 ≤ maximum
    → Retains 0 key memories (remember maximum key memories cache)
unfolding remember
remember-Retains_new maximum key memories cache c absent bound =
    let u = IsUnique-push key cache.order c.unique (λ h. c.covers key h absent) in
    let (rest, o, g) =
      evict-keeps maximum cache.order [] key (insert key memories cache.entries) memories bound u
        (get-insert_same key memories cache.entries) in
    (rest, [], o, omega arith, g)
