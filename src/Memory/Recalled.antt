-- ===== src/Memory/Recalled.antt =====
-- crates/memory/src/lib.rs: what lexical recall returns.
use mathlib.Core.Path.{subst}
use nausicaa.Prelude.{
  ℕ, zero, suc, ◌<◌, ◌≤◌, ◌≡◌, refl, sym, ap, ◌∙◌, String, true, List, [], ◌∷◌, arith, length, In,
  ◌⊎◌, inl, inr, map, Bool-cases, Ordering, string_ord,
}
use nausicaa.Prelude.Sorting.{
  take, place, sort_by, place-cases, In-place, In-sort_by, In-take, length-take,
}
use nausicaa.Memory.{MemoryRecord, Unicode, score, is_recalled, scored, rank, recall_from}

abbrev Ranked : Type 0
Ranked = ℕ × MemoryRecord

-- the first does not come after the second: it has a higher score, or the same and an update no older
abbrev pub IsNotAfter : Ranked → Ranked → Type 0
IsNotAfter p q = (q.0 < p.0) ⊎ ((q.0 ≡ p.0) × ((q.1).updated_at_unix_ms ≤ (p.1).updated_at_unix_ms))

IsNotAfter-trans : (p q r : Ranked) → IsNotAfter p q → IsNotAfter q r → IsNotAfter p r
IsNotAfter-trans p q r (inl h) (inl k) = inl (omega (arith, h, k))
IsNotAfter-trans p q r (inl h) (inr (e, k)) = inl (omega (arith, h, e))
IsNotAfter-trans p q r (inr (e, h)) (inl k) = inl (omega (arith, e, k))
IsNotAfter-trans p q r (inr (e, h)) (inr (f, k)) = inr (f ∙ e, omega (arith, h, k))

-- what `rank` says of two records
rank-gt : (p q : Ranked) → rank p q ≡ Ordering.gt → IsNotAfter q p
unfolding rank
rank-gt p q h = ground (arith, h)

rank-IsNotAfter : (p q : Ranked) → (rank p q ≡ Ordering.gt → ⊥) → IsNotAfter p q
unfolding rank
rank-IsNotAfter p q h = ground (arith, h)

-- every one of the list does not come before
abbrev IsBelow : Ranked → List Ranked → Type 0
IsBelow p xs = (q : Ranked) → In q xs → IsNotAfter p q

abbrev IsSorted : List Ranked → Type 0
IsSorted [] = Unit
IsSorted (p ∷ xs) = IsBelow p xs × IsSorted xs

IsBelow-place :
    (p q : Ranked) (xs : List Ranked) → IsNotAfter p q → IsBelow p xs → IsBelow p (place rank q xs)
IsBelow-place p q xs h below r i = elim (In-place rank q r xs i) [
  | inl e ↦ rw e h
  | inr j ↦ below r j
]

IsSorted-place : (p : Ranked) (xs : List Ranked) → IsSorted xs → IsSorted (place rank p xs)
unfolding place
IsSorted-place p [] h = (λ q i. absurd i, tt)
IsSorted-place p (x ∷ xs) (below, h) = elim (place-cases rank p x xs) [
  | inl (after, e) ↦ rw e (IsBelow-place x p xs (rank-gt p x after) below, IsSorted-place p xs h)
  | inr (before, e) ↦
      let first = rank-IsNotAfter p x before in
      rw e (
        λ q i. elim i [
          | inl same ↦ rw same first
          | inr j ↦ IsNotAfter-trans p x q first (below q j)
        ],
        (below, h),
      )
]

IsSorted-sort_by : (xs : List Ranked) → IsSorted (sort_by rank xs)
unfolding sort_by
IsSorted-sort_by [] = tt
IsSorted-sort_by (x ∷ xs) = IsSorted-place x (sort_by rank xs) (IsSorted-sort_by xs)

-- one that is left out comes after all that are taken, which are as many as there may be
take-IsSorted :
    (n : ℕ) (xs : List Ranked) (p : Ranked)
    → IsSorted xs
    → In p xs
    → In p (take n xs)
      ⊎ ((length (take n xs) ≡ n) × ((q : Ranked) → In q (take n xs) → IsNotAfter q p))
take-IsSorted zero xs p h i = inr (refl, λ q j. absurd j)
take-IsSorted (suc n) [] p h i = absurd i
take-IsSorted (suc n) (x ∷ xs) p (below, h) (inl e) = inl (inl e)
take-IsSorted (suc n) (x ∷ xs) p (below, h) (inr i) = elim (take-IsSorted n xs p h i) [
  | inl j ↦ inl (inr j)
  | inr (e, all) ↦
      inr (ap (λ m. suc m) e, λ q j. elim j [ inl same ↦ rw same (below p i) | inr k ↦ all q k ])
]

In-snd : (xs : List Ranked) (p : Ranked) → In p xs → In p.1 (map (λ x. x.1) xs)
In-snd [] p i = absurd i
In-snd (x ∷ xs) p (inl e) = inl (ap (λ y. y.1) e)
In-snd (x ∷ xs) p (inr i) = inr (In-snd xs p i)

In-unmap :
    (xs : List Ranked) (r : MemoryRecord)
    → In r (map (λ x. x.1) xs)
    → (p : Ranked) × In p xs × (p.1 ≡ r)
In-unmap [] r i = absurd i
In-unmap (x ∷ xs) r (inl e) = (x, inl refl, sym e)
In-unmap (x ∷ xs) r (inr i) = let (p, j, e) = In-unmap xs r i in (p, inr j, e)

length-snd : (xs : List Ranked) → length (map (λ x. x.1) xs) ≡ length xs
length-snd [] = refl
length-snd (x ∷ xs) = ap (λ n. suc n) (length-snd xs)

module _ (unicode : Unicode) (query : String) where
  abbrev pub ranked : MemoryRecord → Ranked
  ranked r = (score unicode query r, r)

  In-scored :
      (r : MemoryRecord) (records : List MemoryRecord)
      → In r records
      → is_recalled unicode query r ≡ true
      → In (ranked r) (scored unicode query records)
  unfolding scored
  In-scored r [] i h = absurd i
  In-scored r (x ∷ records) (inl e) h = rw (← e, h) (inl refl)
  In-scored r (x ∷ records) (inr i) h = elim (Bool-cases (is_recalled unicode query x)) [
    | inl yes_ ↦ rw yes_ (inr (In-scored r records i h))
    | inr no_ ↦ rw no_ (In-scored r records i h)
  ]

  scored-In :
      (p : Ranked) (records : List MemoryRecord)
      → In p (scored unicode query records)
      → (p ≡ ranked p.1) × In p.1 records × (is_recalled unicode query p.1 ≡ true)
  unfolding scored
  scored-In p [] i = absurd i
  scored-In p (x ∷ records) i = elim (Bool-cases (is_recalled unicode query x)) [
    | inl h ↦ elim (rw h at i) [
      | inl e ↦ rw e (refl, inl refl, h)
      | inr j ↦ let (e, k, r) = scored-In p records j in (e, inr k, r)
    ]
    | inr h ↦ let (e, k, r) = scored-In p records (rw h at i) in (e, inr k, r)
  ]

  abbrev best : ℕ → List MemoryRecord → List Ranked
  best limit records = take limit (sort_by rank (scored unicode query records))

  best-In :
      (limit : ℕ) (records : List MemoryRecord) (p : Ranked)
      → In p (best limit records)
      → (p ≡ ranked p.1) × In p.1 records × (is_recalled unicode query p.1 ≡ true)
  best-In limit records p i = scored-In p records (
      (In-sort_by rank p (scored unicode query records)).0
        (In-take limit p (sort_by rank (scored unicode query records)) i))

  -- Recall returns no more records than its limit, and a record that it returns is one of the
  -- store's that the query recalls: one with a positive score, or any where the query has no tokens.
  pub recall_from-In :
      (limit : ℕ) (records : List MemoryRecord) (r : MemoryRecord)
      → In r (recall_from unicode query limit records)
      → In r records
        × (is_recalled unicode query r ≡ true)
        × (length (recall_from unicode query limit records) ≤ limit)
  unfolding recall_from
  recall_from-In limit records r i =
      let (p, j, e) = In-unmap (best limit records) r i in
      let (_, k, h) = best-In limit records p j in
      (
        rw (← e) k,
        rw (← e) h,
        rw (length-snd (best limit records))
            (length-take limit (sort_by rank (scored unicode query records))),
      )

  -- none of the records comes after it
  abbrev pub AreNotAfter : MemoryRecord → List MemoryRecord → Type 0
  AreNotAfter r [] = Unit
  AreNotAfter r (q ∷ records) = IsNotAfter (ranked q) (ranked r) × AreNotAfter r records

  AreNotAfter-snd :
      (r : MemoryRecord) (xs : List Ranked)
      → ((p : Ranked) → In p xs → IsNotAfter p (ranked r))
      → ((p : Ranked) → In p xs → p ≡ ranked p.1)
      → AreNotAfter r (map (λ x. x.1) xs)
  AreNotAfter-snd r [] above of = tt
  AreNotAfter-snd r (x ∷ xs) above of = (
    subst (λ y. IsNotAfter y (ranked r)) (of x (inl refl)) (above x (inl refl)),
    AreNotAfter-snd r xs (λ p i. above p (inr i)) (λ p i. of p (inr i)),
  )

  -- A record of the store that the query recalls is returned, or as many records as the limit are,
  -- and none of them comes after it: each has a higher score, or the same score and an update that
  -- is no older.
  pub recall_from-best :
      (limit : ℕ) (records : List MemoryRecord) (r : MemoryRecord)
      → In r records
      → is_recalled unicode query r ≡ true
      → In r (recall_from unicode query limit records)
        ⊎ ((length (recall_from unicode query limit records) ≡ limit)
            × AreNotAfter r (recall_from unicode query limit records))
  unfolding recall_from
  recall_from-best limit records r i h =
      let all = scored unicode query records in
      let found = (In-sort_by rank (ranked r) all).1 (In-scored r records i h) in
      elim (take-IsSorted limit (sort_by rank all) (ranked r) (IsSorted-sort_by all) found) [
        | inl k ↦ inl (In-snd (best limit records) (ranked r) k)
        | inr (e, above) ↦ inr (
          rw (length-snd (best limit records)) e,
          AreNotAfter-snd r (best limit records) above (λ p k. (best-In limit records p k).0),
        )
      ]
