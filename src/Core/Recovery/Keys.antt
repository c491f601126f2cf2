-- ===== src/Core/Recovery/Keys.antt =====
-- crates/harness-core/src/recovery.rs: the keys that the second loop visits.
use nausicaa.Prelude.{◌≡◌, true, List, [], ◌∷◌, ◌||◌, arith, string_ord, pair_ord}
use nausicaa.Prelude.BTreeMap
use nausicaa.Prelude.BTreeMap.{BTreeMap}
use nausicaa.Prelude.BTreeSet
use nausicaa.Core.Recovery.{Key, Scan, extend, scan_keys}
use nausicaa.Core.Recovery.Collected.{known, is_some}

contains-extend :
    (k : Key) (s ks : List Key)
    → BTreeSet.contains k (extend s ks) ≡ (BTreeSet.contains k s || BTreeSet.contains k ks)
unfolding extend BTreeSet.contains
contains-extend k s [] = ground arith
contains-extend k s (j ∷ ks) =
    ground (arith, contains-extend k (BTreeSet.insert j s) ks, BTreeSet.contains-insert j k s)

contains-keys :
    {A : Type 0} (k : Key) (m : BTreeMap Key A)
    → is_some (BTreeMap.get k m) ≡ true
    → BTreeSet.contains k (BTreeMap.keys m) ≡ true
unfolding BTreeMap.get BTreeSet.contains
contains-keys k [] h = cc
contains-keys k ((j, a) ∷ m) h = ground (arith, contains-keys k m)

module _ {V : Type 0} where
  -- every known key is visited
  pub known-scan_keys :
      (scan : Scan V) (k : Key) → known scan k ≡ true → BTreeSet.contains k (scan_keys scan) ≡ true
  unfolding scan_keys
  known-scan_keys scan k h =
      let calls = BTreeMap.keys scan.calls in
      let prepared = BTreeMap.keys scan.prepared in
      ground (
        arith,
        contains-keys k scan.calls,
        contains-keys k scan.prepared,
        contains-keys k scan.started,
        contains-extend k (extend (extend [] calls) prepared) (BTreeMap.keys scan.started),
        contains-extend k (extend [] calls) prepared,
        contains-extend k [] calls,
      )
