-- ===== src/Expression/Value.antt =====
-- validation/expression/helper.go: the values of expressions, as estimateSize tells them apart.
-- A string is the list of its bytes; what has none of the four types is `basic`.
use ncore.Common.{ℕ, ◌+◌, List, length}

-- `Items` and `Pairs` are the contents of a slice and of a map.
mutual
  pub data Value : Type 0 where
    text : List ℕ → Value
    raw : List ℕ → Value
    slice : Items → Value
    dict : Pairs → Value
    basic : ℕ → Value

  pub data Items : Type 0 where
    no_items : Items
    item : Value → Items → Items

  pub data Pairs : Type 0 where
    no_pairs : Pairs
    pair : List ℕ → Value → Pairs → Pairs

unfoldable mutual
  pub estimate_size : Value → ℕ
  estimate_size (text s) = length s
  estimate_size (raw s) = length s
  estimate_size (slice items) = items_size items
  estimate_size (dict pairs) = pairs_size pairs
  estimate_size (basic n) = 8

  items_size : Items → ℕ
  items_size no_items = 0
  items_size (item v items) = estimate_size v + items_size items

  pairs_size : Pairs → ℕ
  pairs_size no_pairs = 0
  pairs_size (pair k v pairs) = length k + estimate_size v + pairs_size pairs
