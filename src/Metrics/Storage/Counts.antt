-- ===== src/Metrics/Storage/Counts.antt =====
-- The storage as a collection of snapshots: what any sequence of calls leaves in it.
use ncore.Common.{
  ℕ, ◌+◌, ◌≡◌, refl, sym, ◌∙◌, Option, none, some, List, [], ◌∷◌, ◌++◌, Bool, true, ◌&&◌, ◌||◌, ltb,
  if◌then◌else◌, arith, Bool-cases, inl, inr,
}
use ncore.Metrics.Storage.{
  Bytes, Snapshot, Data, MemoryStorage, new_memory_storage, build_key, append_at, add_snapshot,
  is_empty, bytes_equal, store, store_loop, store_batch, keep_after, cleanup_loop, cleanup,
}

-- a call of a method, with the instant and the clock of Cleanup
pub data Call : Type 0 where
  call_store : Option Snapshot → Call
  call_store_batch : List (Option Snapshot) → Call
  call_cleanup : ℕ → ℕ → Call

unfoldable pub run : List Call → MemoryStorage → MemoryStorage
run [] m = m
run (call_store s ∷ calls) m = run calls (store s m).1
run (call_store_batch snapshots ∷ calls) m = run calls (store_batch snapshots m)
run (call_cleanup before now ∷ calls) m = run calls (cleanup before now m)

-- The same on a plain list.
pub put : Option Snapshot → List Snapshot → List Snapshot
put none xs = xs
put (some s) xs = if is_empty s.extension_name || is_empty s.metric_type then xs else s ∷ xs

pub put_all : List (Option Snapshot) → List Snapshot → List Snapshot
unfolding put
put_all [] xs = xs
put_all (s ∷ snapshots) xs = put_all snapshots (put s xs)

pub after : ℕ → List Snapshot → List Snapshot
after before [] = []
after before (s ∷ xs) = if ltb before s.timestamp then s ∷ after before xs else after before xs

unfoldable pub held : List Call → List Snapshot → List Snapshot
unfolding put put_all after
held [] xs = xs
held (call_store s ∷ calls) xs = held calls (put s xs)
held (call_store_batch snapshots ∷ calls) xs = held calls (put_all snapshots xs)
held (call_cleanup before now ∷ calls) xs = held calls (after before xs)

-- how many snapshots satisfy a test
unfoldable pub count : (Snapshot → Bool) → List Snapshot → ℕ
count test [] = 0
count test (s ∷ xs) = (if test s then 1 else 0) + count test xs

unfoldable pub count_data : (Snapshot → Bool) → Data → ℕ
unfolding count
count_data test [] = 0
count_data test ((key, snapshots) ∷ entries) = count test snapshots + count_data test entries

pub count-append :
    (test : Snapshot → Bool) (xs ys : List Snapshot)
    → count test (xs ++ ys) ≡ count test xs + count test ys
unfolding count
count-append test [] ys = omega arith
count-append test (x ∷ xs) ys = omega (arith, count-append test xs ys)

count_data-append_at :
    (test : Snapshot → Bool) (key : Bytes) (s : Snapshot) (entries : Data)
    → count_data test (append_at key s entries)
      ≡ (if test s then 1 else 0) + count_data test entries
unfolding count count_data append_at
count_data-append_at test key s [] = omega arith
count_data-append_at test key s ((other, snapshots) ∷ entries) =
    elim (Bool-cases (bytes_equal other key)) [
      | inl same ↦ rw same (omega (arith, count-append test snapshots (s ∷ [])))
      | inr differ ↦ rw differ (omega (arith, count_data-append_at test key s entries))
    ]

-- Only what is after the instant satisfies both tests.
both : ℕ → (Snapshot → Bool) → Snapshot → Bool
both before test s = ltb before s.timestamp && test s

count-keep_after :
    (test : Snapshot → Bool) (before : ℕ) (xs : List Snapshot)
    → count test (keep_after before xs).0 ≡ count (both before test) xs
unfolding count keep_after both
count-keep_after test before [] = refl
count-keep_after test before (s ∷ xs) = elim (Bool-cases (ltb before s.timestamp)) [
  | inl young ↦ rw young (omega (arith, count-keep_after test before xs))
  | inr old ↦ rw old (omega (arith, count-keep_after test before xs))
]

count-after :
    (test : Snapshot → Bool) (before : ℕ) (xs : List Snapshot)
    → count test (after before xs) ≡ count (both before test) xs
unfolding count after both
count-after test before [] = refl
count-after test before (s ∷ xs) = elim (Bool-cases (ltb before s.timestamp)) [
  | inl young ↦ rw young (omega (arith, count-after test before xs))
  | inr old ↦ rw old (omega (arith, count-after test before xs))
]

keep_after-removed :
    (before : ℕ) (xs : List Snapshot)
    → (keep_after before xs).1 + count (λ s. true) (keep_after before xs).0 ≡ count (λ s. true) xs
unfolding keep_after count
keep_after-removed before [] = refl
keep_after-removed before (s ∷ xs) = elim (Bool-cases (ltb before s.timestamp)) [
  | inl young ↦ rw young (omega (arith, keep_after-removed before xs))
  | inr old ↦ rw old (omega (arith, keep_after-removed before xs))
]

-- a key whose slice is empty is deleted
kept_entry : Bytes → List Snapshot → Data → Data
kept_entry key kept rest = elim kept [ [] ↦ rest | ◌∷◌ s ss ↦ (key, s ∷ ss) ∷ rest ]

count_data-kept_entry :
    (test : Snapshot → Bool) (key : Bytes) (kept : List Snapshot) (rest : Data)
    → count_data test (kept_entry key kept rest) ≡ count test kept + count_data test rest
unfolding kept_entry count count_data
count_data-kept_entry test key [] rest = omega arith
count_data-kept_entry test key (s ∷ kept) rest = refl

count_data-cleanup_loop :
    (test : Snapshot → Bool) (before : ℕ) (entries : Data)
    → count_data test (cleanup_loop before entries).0 ≡ count_data (both before test) entries
unfolding cleanup_loop kept_entry count_data
count_data-cleanup_loop test before [] = refl
count_data-cleanup_loop test before ((key, snapshots) ∷ entries) =
    count_data-kept_entry test key (keep_after before snapshots).0 (cleanup_loop before entries).0
    ∙ omega
        (arith, count-keep_after test before snapshots, count_data-cleanup_loop test before entries)

cleanup_loop-removed :
    (before : ℕ) (entries : Data)
    → (cleanup_loop before entries).1 + count_data (λ s. true) (cleanup_loop before entries).0
      ≡ count_data (λ s. true) entries
unfolding cleanup_loop kept_entry count_data
cleanup_loop-removed before [] = refl
cleanup_loop-removed before ((key, snapshots) ∷ entries) = omega (
  arith,
  count_data-kept_entry (λ s. true) key (keep_after before snapshots).0
      (cleanup_loop before entries).0,
  keep_after-removed before snapshots,
  cleanup_loop-removed before entries,
)

-- The storage holds the snapshots of a list, and counts them.
abbrev pub IsHolding : MemoryStorage → List Snapshot → Type 0
IsHolding m xs =
    ((test : Snapshot → Bool) → count_data test m.series ≡ count test xs)
    × (m.total ≡ count_data (λ s. true) m.series)

store-IsHolding :
    (s : Option Snapshot) (m : MemoryStorage) (xs : List Snapshot)
    → IsHolding m xs
    → IsHolding (store s m).1 (put s xs)
unfolding store put add_snapshot count
store-IsHolding none m xs h = h
store-IsHolding (some s) m xs h = elim (Bool-cases (is_empty s.extension_name)) [
  | inl unnamed ↦ rw (unnamed, store) h
  | inr named ↦ elim (Bool-cases (is_empty s.metric_type)) [
    | inl untyped ↦ rw (named, store, untyped, store) h
    | inr typed ↦
        let added = λ (test : Snapshot → Bool).
          count_data-append_at test (build_key s.extension_name s.metric_type) s m.series in
        rw (named, store, typed, store)
          ((λ test. omega (arith, added test, h.0 test)), omega (arith, added (λ x. true), h.1))
  ]
]

-- what the loop over a batch adds
IsAdding : List (Option Snapshot) → Data → ℕ → Type 0
IsAdding snapshots entries n =
    (xs : List Snapshot)
    → ((test : Snapshot → Bool) → count_data test entries ≡ count test xs)
    → ((test : Snapshot → Bool)
        → count_data test (store_loop snapshots entries n).0 ≡ count test (put_all snapshots xs))
      × (count_data (λ s. true) (store_loop snapshots entries n).0 + n
          ≡ count_data (λ s. true) entries + (store_loop snapshots entries n).1)

store_loop-IsAdding :
    (snapshots : List (Option Snapshot)) (entries : Data) (n : ℕ) → IsAdding snapshots entries n
unfolding IsAdding store_loop put_all put add_snapshot count
store_loop-IsAdding [] entries n xs h = (h, refl)
store_loop-IsAdding (none ∷ snapshots) entries n xs h = store_loop-IsAdding snapshots entries n xs h
store_loop-IsAdding (some s ∷ snapshots) entries n xs h =
    elim (Bool-cases (is_empty s.extension_name || is_empty s.metric_type)) [
      | inl invalid ↦ rw (invalid, store_loop) (store_loop-IsAdding snapshots entries n xs h)
      | inr proper ↦
          let added = λ (test : Snapshot → Bool).
            count_data-append_at test (build_key s.extension_name s.metric_type) s entries in
          let later =
            store_loop-IsAdding snapshots
              (append_at (build_key s.extension_name s.metric_type) s entries) (n + 1) (s ∷ xs)
              (λ test. omega (arith, added test, h test)) in
          rw (proper, store_loop) (later.0, omega (arith, later.1, added (λ x. true)))
    ]

store_batch-IsHolding :
    (snapshots : List (Option Snapshot)) (m : MemoryStorage) (xs : List Snapshot)
    → IsHolding m xs
    → IsHolding (store_batch snapshots m) (put_all snapshots xs)
unfolding store_batch IsAdding
store_batch-IsHolding snapshots m xs h =
    let added = store_loop-IsAdding snapshots m.series 0 xs h.0 in
    (added.0, omega (arith, added.1, h.1))

cleanup-IsHolding :
    (before now : ℕ) (m : MemoryStorage) (xs : List Snapshot)
    → IsHolding m xs
    → IsHolding (cleanup before now m) (after before xs)
unfolding cleanup
cleanup-IsHolding before now m xs h = (
  (λ test.
      count_data-cleanup_loop test before m.series
      ∙ h.0 (both before test)
      ∙ sym (count-after test before xs)),
  omega (arith, cleanup_loop-removed before m.series, h.1),
)

run-keeps :
    (calls : List Call) (m : MemoryStorage) (xs : List Snapshot)
    → IsHolding m xs
    → IsHolding (run calls m) (held calls xs)
unfolding run held
run-keeps [] m xs h = h
run-keeps (call_store s ∷ calls) m xs h =
    run-keeps calls (store s m).1 (put s xs) (store-IsHolding s m xs h)
run-keeps (call_store_batch snapshots ∷ calls) m xs h =
    run-keeps calls (store_batch snapshots m) (put_all snapshots xs)
      (store_batch-IsHolding snapshots m xs h)
run-keeps (call_cleanup before now ∷ calls) m xs h =
    run-keeps calls (cleanup before now m) (after before xs) (cleanup-IsHolding before now m xs h)

-- After any calls of Store, StoreBatch and Cleanup on a new storage, and whatever the test, as many of the
-- snapshots in it satisfy the test as of those that were valid when stored and that no later Cleanup was
-- to remove; and Total is the number of snapshots in it.
pub run-IsHolding :
    (calls : List Call) (now : ℕ) → IsHolding (run calls (new_memory_storage now)) (held calls [])
unfolding new_memory_storage count_data count
run-IsHolding calls now = run-keeps calls (new_memory_storage now) [] ((λ test. refl), refl)
