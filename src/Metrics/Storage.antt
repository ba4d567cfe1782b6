-- ===== src/Metrics/Storage.antt =====
-- extension/metrics/memory_storage.go: MemoryStorage.
-- A string is the list of its bytes, an instant a number of nanoseconds. The map is a list of pairs in
-- the order in which a loop meets them, the field `series`. The estimate of the memory
-- and the errors counter are left out: nothing but GetStats reads them. sort.Slice is an argument.
pub mod Keys
pub mod Counts
pub mod Latest
mod Tests
use ncore.Common.{
  ℕ, zero, suc, ◌+◌, ◌-◌, Option, none, some, List, [], ◌∷◌, ◌++◌, Bool, true, false, ltb, leb, not,
  ◌==◌, ◌&&◌, ◌||◌, if◌then◌else◌, length, take,
}
use ncore.Common.Int.{ℤ, pos, negsuc}

abbrev pub Bytes : Type 0
Bytes = List ℕ

abbrev pub bytes_equal : Bytes → Bytes → Bool
bytes_equal [] [] = true
bytes_equal [] (y ∷ ys) = false
bytes_equal (x ∷ xs) [] = false
bytes_equal (x ∷ xs) (y ∷ ys) = x == y && bytes_equal xs ys

abbrev pub Labels : Type 0
Labels = List (Bytes × Bytes)

-- no labels are the nil map
pub record Snapshot : Type 0 where
  pub extension_name : Bytes
  pub metric_type : Bytes
  pub value : ℤ
  pub labels : Option Labels
  pub timestamp : ℕ

abbrev pub Data : Type 0
Data = List (Bytes × List Snapshot)

pub record MemoryStorage : Type 0 where
  pub series : Data
  pub total : ℕ
  pub last_cleanup : ℕ

unfoldable pub new_memory_storage : ℕ → MemoryStorage
new_memory_storage now = record { series = []; total = 0; last_cleanup = now }

-- the separator, a colon
abbrev pub colon : ℕ
colon = 58

unfoldable pub build_key : Bytes → Bytes → Bytes
build_key extension_name metric_type = extension_name ++ colon ∷ metric_type

-- strings.SplitN(key, ":", 2), when it gives two parts
unfoldable pub split_key : Bytes → Option (Bytes × Bytes)
split_key [] = none
split_key (c ∷ key) =
    if c == colon
    then some ([], key)
    else elim (split_key key) [ none ↦ none | some parts ↦ some (c ∷ parts.0, parts.1) ]

unfoldable pub parse_key : Bytes → Bytes × Bytes
unfolding split_key
parse_key key = elim (split_key key) [ none ↦ ([], []) | some parts ↦ parts ]

-- `m.data[key] = append(m.data[key], snapshot)`
unfoldable pub append_at : Bytes → Snapshot → Data → Data
append_at key snapshot [] = (key, snapshot ∷ []) ∷ []
append_at key snapshot ((other, snapshots) ∷ entries) =
    let rest = append_at key snapshot entries in
    if bytes_equal other key
    then (other, snapshots ++ snapshot ∷ []) ∷ entries
    else (other, snapshots) ∷ rest

unfoldable pub add_snapshot : Snapshot → Data → Data
add_snapshot s entries = append_at (build_key s.extension_name s.metric_type) s entries

-- `true` for the empty string
abbrev pub is_empty : Bytes → Bool
is_empty [] = true
is_empty (c ∷ cs) = false

pub data StoreError : Type 0 where
  snapshot_nil extension_name_empty metric_type_empty : StoreError

-- nil is `none`
unfoldable pub store : Option Snapshot → MemoryStorage → Option StoreError × MemoryStorage
unfolding add_snapshot
store none m = (some snapshot_nil, m)
store (some s) m =
    if is_empty s.extension_name
    then (some extension_name_empty, m)
    else if is_empty s.metric_type
    then (some metric_type_empty, m)
    else (none, record m { series = add_snapshot s m.series; total = m.total + 1 })

-- the loop over the batch, with validCount
unfoldable pub store_loop : List (Option Snapshot) → Data → ℕ → Data × ℕ
unfolding add_snapshot
store_loop [] entries valid_count = (entries, valid_count)
store_loop (none ∷ snapshots) entries valid_count = store_loop snapshots entries valid_count
store_loop (some s ∷ snapshots) entries valid_count =
    if is_empty s.extension_name || is_empty s.metric_type
    then store_loop snapshots entries valid_count
    else store_loop snapshots (add_snapshot s entries) (valid_count + 1)

unfoldable pub store_batch : List (Option Snapshot) → MemoryStorage → MemoryStorage
store_batch snapshots m =
    let r = store_loop snapshots m.series 0 in record m { series = r.0; total = m.total + r.1 }

-- the snapshots after an instant, and how many are not
unfoldable pub keep_after : ℕ → List Snapshot → List Snapshot × ℕ
keep_after before [] = ([], 0)
keep_after before (s ∷ snapshots) =
    let (kept, removed) = keep_after before snapshots in
    if ltb before s.timestamp then (s ∷ kept, removed) else (kept, removed + 1)

unfoldable pub cleanup_loop : ℕ → Data → Data × ℕ
unfolding keep_after
cleanup_loop before [] = ([], 0)
cleanup_loop before ((key, snapshots) ∷ entries) =
    let (kept, removed) = keep_after before snapshots in
    let (rest, others) = cleanup_loop before entries in
    (elim kept [ [] ↦ rest | ◌∷◌ s ss ↦ (key, s ∷ ss) ∷ rest ], removed + others)

unfoldable pub cleanup : ℕ → ℕ → MemoryStorage → MemoryStorage
unfolding cleanup_loop
cleanup before now m =
    let r = cleanup_loop before m.series in
    record m { series = r.0; total = m.total - r.1; last_cleanup = now }

-- the loop of GetLatest
unfoldable pub collect : Bytes → Data → List Snapshot
unfolding parse_key
collect extension_name [] = []
collect extension_name ((key, snapshots) ∷ entries) =
    let rest = collect extension_name entries in
    if bytes_equal (parse_key key).0 extension_name then snapshots ++ rest else rest

-- a limit that is not positive is 10
abbrev pub effective_limit : ℤ → ℕ
effective_limit (pos zero) = 10
effective_limit (pos (suc n)) = suc n
effective_limit (negsuc n) = 10

unfoldable pub get_latest :
    (List Snapshot → List Snapshot) → Bytes → ℤ → MemoryStorage → Option (List Snapshot)
get_latest sort extension_name limit m =
    let latest = sort (collect extension_name m.series) in
    if is_empty extension_name
    then none
    else if ltb (effective_limit limit) (length latest)
    then some (take (effective_limit limit) latest)
    else some latest

unfoldable pub is_in_time_range : Snapshot → ℕ → ℕ → Bool
is_in_time_range snapshot start end = ltb start snapshot.timestamp && ltb snapshot.timestamp end

unfoldable pub find_label : Bytes → Labels → Option Bytes
find_label key [] = none
find_label key ((other, value) ∷ labels) =
    if bytes_equal other key then some value else find_label key labels

unfoldable pub has_labels : Labels → Labels → Bool
has_labels own [] = true
has_labels own ((key, value) ∷ labels) = elim (find_label key own) [
  | none ↦ false
  | some v ↦ bytes_equal v value && has_labels own labels
]

unfoldable pub matches_labels : Snapshot → Labels → Bool
matches_labels snapshot [] = true
matches_labels snapshot (label ∷ labels) = elim snapshot.labels [
  | none ↦ false
  | some own ↦ has_labels own (label ∷ labels)
]

pub record QueryOptions : Type 0 where
  pub extension_name : Bytes
  pub metric_type : Bytes
  pub labels : Labels
  pub start_time : ℕ
  pub end_time : ℕ
  pub interval : ℕ
  pub limit : ℕ

-- "Apply filters": the names of a key against those asked for
unfoldable pub is_asked : QueryOptions → Bytes × Bytes → Bool
is_asked opts names =
    (is_empty opts.extension_name || bytes_equal names.0 opts.extension_name)
    && (is_empty opts.metric_type || bytes_equal names.1 opts.metric_type)

-- "Filter by time range and labels"
unfoldable pub filtered : QueryOptions → List Snapshot → List Snapshot
unfolding is_in_time_range matches_labels
filtered opts [] = []
filtered opts (s ∷ snapshots) =
    let rest = filtered opts snapshots in
    if is_in_time_range s opts.start_time opts.end_time && matches_labels s opts.labels
    then s ∷ rest
    else rest

-- "Apply limit before aggregation if no interval specified"
unfoldable pub limited :
    (List Snapshot → List Snapshot) → QueryOptions → List Snapshot → List Snapshot
limited sort opts snapshots =
    if opts.interval == 0 && ltb 0 opts.limit && ltb opts.limit (length snapshots)
    then take opts.limit (sort snapshots)
    else snapshots

-- what the loop of Query hands to aggregateSnapshots, one list for each key
unfoldable pub query_selection :
    (List Snapshot → List Snapshot) → QueryOptions → Data → List (List Snapshot)
unfolding parse_key is_asked filtered limited
query_selection sort opts [] = []
query_selection sort opts ((key, snapshots) ∷ entries) =
    let rest = query_selection sort opts entries in
    if is_asked opts (parse_key key)
    then (elim (filtered opts snapshots) [
      | [] ↦ rest
      | ◌∷◌ s ss ↦ limited sort opts (s ∷ ss) ∷ rest
    ])
    else rest
