-- ===== src/Metrics/Storage/Keys.antt =====
-- The keys of the storage, and the snapshots of one extension.
use ncore.Common.{◌≡◌, refl, some, [], ◌∷◌, false, ◌==◌, All}
use ncore.Metrics.Storage.{Bytes, colon, build_key, split_key, parse_key}

-- No byte of the name is the separator.
abbrev pub HasNoColon : Bytes → Type 0
HasNoColon name = All (λ c. (c == colon) ≡ false) name

split_key-build_key :
    (extension_name metric_type : Bytes)
    → HasNoColon extension_name
    → split_key (build_key extension_name metric_type) ≡ some (extension_name, metric_type)
unfolding split_key build_key
split_key-build_key [] metric_type h = refl
split_key-build_key (c ∷ extension_name) metric_type h =
    rw (h.0, split_key-build_key extension_name metric_type h.1, split_key) refl

-- parseKey gives back the two names from which buildKey made the key, when the name of the extension
-- has no colon.
pub parse_key-build_key :
    (extension_name metric_type : Bytes)
    → HasNoColon extension_name
    → parse_key (build_key extension_name metric_type) ≡ (extension_name, metric_type)
unfolding parse_key
parse_key-build_key extension_name metric_type h =
    rw (split_key-build_key extension_name metric_type h, parse_key) refl
