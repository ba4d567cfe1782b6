-- ===== src/Metrics/Storage/Latest.antt =====
-- What GetLatest and Query read: each snapshot stands under the name of its extension.
use ncore.Common.{
  ℕ, ◌+◌, ◌≡◌, refl, sym, ap, ◌∙◌, Option, none, some, List, [], ◌∷◌, Bool, true, false, ◌&&◌, ◌||◌,
  ltb, ◌==◌, if◌then◌else◌, arith, Bool-cases, ==_sound, inl, inr, All, All-append, ap₂,
}
use ncore.Metrics.Storage.{
  Bytes, Snapshot, Data, MemoryStorage, new_memory_storage, build_key, parse_key, append_at,
  add_snapshot, is_empty, bytes_equal, store, store_loop, store_batch, keep_after, cleanup_loop,
  cleanup, collect,
}
use ncore.Metrics.Storage.Keys.{HasNoColon, parse_key-build_key}
use ncore.Metrics.Storage.Counts.{
  Call, call_store, call_store_batch, call_cleanup, run, held, count, count_data, count-append,
  run-IsHolding,
}

bytes_equal_sound : (xs ys : Bytes) → bytes_equal xs ys ≡ true → xs ≡ ys
bytes_equal_sound [] [] h = refl
bytes_equal_sound [] (y ∷ ys) h = absurd (cc)
bytes_equal_sound (x ∷ xs) [] h = absurd (cc)
bytes_equal_sound (x ∷ xs) (y ∷ ys) h = elim (Bool-cases (x == y)) [
  | inl same ↦
      ap₂ (λ c cs. c ∷ cs) (==_sound x y same) (bytes_equal_sound xs ys (ground (arith, h, same)))
  | inr differ ↦ absurd (ground (arith, h, differ))
]

-- Under a key stand snapshots of the extension that parseKey finds in it.
abbrev IsOf : Bytes → Snapshot → Type 0
IsOf key s = (parse_key key).0 ≡ s.extension_name

abbrev AreKeyed : Data → Type 0
AreKeyed entries = All (λ (p : Bytes × List Snapshot). All (IsOf p.0) p.1) entries

append_at-AreKeyed :
    (key : Bytes) (s : Snapshot) (entries : Data)
    → IsOf key s
    → AreKeyed entries
    → AreKeyed (append_at key s entries)
unfolding append_at
append_at-AreKeyed key s [] own h = ((own, tt), tt)
append_at-AreKeyed key s ((other, snapshots) ∷ entries) own h =
    elim (Bool-cases (bytes_equal other key)) [
      | inl same ↦
          let its : IsOf other s =
            ap (λ k. (parse_key k).0) (bytes_equal_sound other key same) ∙ own in
          rw same (All-append (IsOf other) snapshots (s ∷ []) h.0 (its, tt), h.1)
      | inr differ ↦ rw differ (h.0, append_at-AreKeyed key s entries own h.1)
    ]

add_snapshot-AreKeyed :
    (s : Snapshot) (entries : Data)
    → HasNoColon s.extension_name
    → AreKeyed entries
    → AreKeyed (add_snapshot s entries)
unfolding add_snapshot
add_snapshot-AreKeyed s entries plain h =
    append_at-AreKeyed (build_key s.extension_name s.metric_type) s entries
      (ap (λ (names : Bytes × Bytes). names.0)
        (parse_key-build_key s.extension_name s.metric_type plain))
      h

All-keep_after {κ} :
    (P : Snapshot → Type κ) (before : ℕ) (xs : List Snapshot)
    → All P xs
    → All P (keep_after before xs).0
unfolding keep_after
All-keep_after P before [] h = tt
All-keep_after P before (s ∷ xs) h = elim (Bool-cases (ltb before s.timestamp)) [
  | inl young ↦ rw young (h.0, All-keep_after P before xs h.1)
  | inr old ↦ rw old (All-keep_after P before xs h.1)
]

cleanup_loop-AreKeyed :
    (before : ℕ) (entries : Data) → AreKeyed entries → AreKeyed (cleanup_loop before entries).0
unfolding cleanup_loop
cleanup_loop-AreKeyed before [] h = tt
cleanup_loop-AreKeyed before ((key, snapshots) ∷ entries) h =
    elim (keep_after before snapshots).0
        as (λ kept.
          All (IsOf key) kept
          → AreKeyed (elim kept [
            | [] ↦ (cleanup_loop before entries).0
            | ◌∷◌ s ss ↦ (key, s ∷ ss) ∷ (cleanup_loop before entries).0
          ])) [
            | [] ↦ λ k. cleanup_loop-AreKeyed before entries h.1
            | ◌∷◌ s ss ↦ λ k. (k, cleanup_loop-AreKeyed before entries h.1)
          ]
      (All-keep_after (IsOf key) before snapshots h.0)

-- No name of an extension has a colon.
abbrev pub IsPlain : Option Snapshot → Type 0
IsPlain none = Unit
IsPlain (some s) = HasNoColon s.extension_name

abbrev pub ArePlain : List Call → Type 0
ArePlain [] = Unit
ArePlain (call_store s ∷ calls) = IsPlain s × ArePlain calls
ArePlain (call_store_batch snapshots ∷ calls) = All IsPlain snapshots × ArePlain calls
ArePlain (call_cleanup before now ∷ calls) = ArePlain calls

store-AreKeyed :
    (s : Option Snapshot) (m : MemoryStorage)
    → IsPlain s
    → AreKeyed m.series
    → AreKeyed (store s m).1.series
unfolding store
store-AreKeyed none m plain h = h
store-AreKeyed (some s) m plain h = elim (Bool-cases (is_empty s.extension_name)) [
  | inl unnamed ↦ rw (unnamed, store) h
  | inr named ↦ elim (Bool-cases (is_empty s.metric_type)) [
    | inl untyped ↦ rw (named, store, untyped, store) h
    | inr typed ↦ rw (named, store, typed, store) (add_snapshot-AreKeyed s m.series plain h)
  ]
]

store_loop-AreKeyed :
    (snapshots : List (Option Snapshot)) (entries : Data) (n : ℕ)
    → All IsPlain snapshots
    → AreKeyed entries
    → AreKeyed (store_loop snapshots entries n).0
unfolding store_loop
store_loop-AreKeyed [] entries n plain h = h
store_loop-AreKeyed (none ∷ snapshots) entries n plain h =
    store_loop-AreKeyed snapshots entries n plain.1 h
store_loop-AreKeyed (some s ∷ snapshots) entries n plain h =
    elim (Bool-cases (is_empty s.extension_name || is_empty s.metric_type)) [
      | inl invalid ↦ rw (invalid, store_loop) (store_loop-AreKeyed snapshots entries n plain.1 h)
      | inr proper ↦
          rw (proper, store_loop)
            (store_loop-AreKeyed snapshots (add_snapshot s entries) (n + 1) plain.1
              (add_snapshot-AreKeyed s entries plain.0 h))
    ]

run-AreKeyed :
    (calls : List Call) (m : MemoryStorage)
    → ArePlain calls
    → AreKeyed m.series
    → AreKeyed (run calls m).series
unfolding run store_batch cleanup
run-AreKeyed [] m plain h = h
run-AreKeyed (call_store s ∷ calls) m plain h =
    run-AreKeyed calls (store s m).1 plain.1 (store-AreKeyed s m plain.0 h)
run-AreKeyed (call_store_batch snapshots ∷ calls) m plain h =
    run-AreKeyed calls (store_batch snapshots m) plain.1
      (store_loop-AreKeyed snapshots m.series 0 plain.0 h)
run-AreKeyed (call_cleanup before now ∷ calls) m plain h =
    run-AreKeyed calls (cleanup before now m) plain (cleanup_loop-AreKeyed before m.series h)

-- a snapshot of the extension that satisfies a test
abbrev pub is_of : Bytes → (Snapshot → Bool) → Snapshot → Bool
is_of name test s = bytes_equal s.extension_name name && test s

count-is_of :
    (name : Bytes) (test : Snapshot → Bool) (key : Bytes) (xs : List Snapshot)
    → All (IsOf key) xs
    → count (is_of name test) xs ≡ (if bytes_equal (parse_key key).0 name then count test xs else 0)
unfolding count
count-is_of name test key [] h = ground arith
count-is_of name test key (s ∷ xs) h =
    let later = count-is_of name test key xs h.1 in
    elim (Bool-cases (bytes_equal (parse_key key).0 name)) [
      | inl same ↦
          let its : bytes_equal s.extension_name name ≡ true =
            ap (λ n. bytes_equal n name) (sym h.0) ∙ same in
          let rest : count (is_of name test) xs ≡ count test xs = (rw same at later) in
          rw (its, same) (omega (arith, rest))
      | inr differ ↦
          let its : bytes_equal s.extension_name name ≡ false =
            ap (λ n. bytes_equal n name) (sym h.0) ∙ differ in
          let rest : count (is_of name test) xs ≡ 0 = (rw differ at later) in
          rw (its, differ) (omega (arith, rest))
    ]

count-collect :
    (name : Bytes) (test : Snapshot → Bool) (entries : Data)
    → AreKeyed entries
    → count test (collect name entries) ≡ count_data (is_of name test) entries
unfolding collect count count_data
count-collect name test [] h = refl
count-collect name test ((key, snapshots) ∷ entries) h =
    let here = count-is_of name test key snapshots h.0 in
    let later = count-collect name test entries h.1 in
    elim (Bool-cases (bytes_equal (parse_key key).0 name)) [
      | inl same ↦
          let its : count (is_of name test) snapshots ≡ count test snapshots = (rw same at here) in
          rw (same, collect)
            (omega (arith, its, later, count-append test snapshots (collect name entries)))
      | inr differ ↦
          let its : count (is_of name test) snapshots ≡ 0 = (rw differ at here) in
          rw (differ, collect) (omega (arith, its, later))
    ]

-- After any calls of Store, StoreBatch and Cleanup on a new storage in which no extension's name has a
-- colon, the loop of GetLatest finds, whatever the test, as many snapshots that satisfy it as there are
-- among those of the extension that were valid when stored and that no later Cleanup was to remove.
pub collect-held :
    (calls : List Call) (now : ℕ) (name : Bytes) (test : Snapshot → Bool)
    → ArePlain calls
    → count test (collect name (run calls (new_memory_storage now)).series)
      ≡ count (is_of name test) (held calls [])
unfolding new_memory_storage
collect-held calls now name test plain =
    count-collect name test (run calls (new_memory_storage now)).series
      (run-AreKeyed calls (new_memory_storage now) plain tt)
    ∙ (run-IsHolding calls now).0 (is_of name test)
