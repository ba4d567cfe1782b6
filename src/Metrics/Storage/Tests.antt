-- ===== src/Metrics/Storage/Tests.antt =====
-- Runs of the storage on concrete inputs, and the witnesses.
use ncore.Common.{ℕ, ◌≡◌, refl, none, some, List, [], ◌∷◌, true}
use ncore.Common.Int.{pos, negsuc}
use ncore.Metrics.Storage.{
  Bytes, Snapshot, MemoryStorage, QueryOptions, new_memory_storage, store, extension_name_empty,
  get_latest, query_selection, collect, cleanup, build_key, parse_key,
}
use ncore.Metrics.Storage.Keys.{HasNoColon}
use ncore.Metrics.Storage.Counts.{
  Call, call_store, call_store_batch, call_cleanup, run, held, count, IsHolding, run-IsHolding,
}
use ncore.Metrics.Storage.Latest.{ArePlain, is_of, collect-held}

abbrev api : Bytes
api = b'a' ∷ b'p' ∷ b'i' ∷ []

abbrev cpu : Bytes
cpu = b'c' ∷ b'p' ∷ b'u' ∷ []

abbrev at_time : Bytes → ℕ → Snapshot
at_time metric_type now = record {
  extension_name = api;
  metric_type = metric_type;
  value = pos 1;
  labels = none;
  timestamp = now;
}

abbrev nameless : Snapshot
nameless = record (at_time cpu 4) { extension_name = [] }

abbrev calls : List Call
calls =
    call_store (some (at_time cpu 1))
    ∷ call_store_batch (some (at_time api 2) ∷ none ∷ some nameless ∷ some (at_time cpu 3) ∷ [])
    ∷ call_cleanup 1 9
    ∷ []

-- One snapshot is too old and two are not valid.
test_total : (run calls (new_memory_storage 0)).total ≡ 2
unfolding run cleanup ncore.Metrics.Storage.store_batch store new_memory_storage
    ncore.Metrics.Storage.store_loop ncore.Metrics.Storage.append_at build_key
test_total = refl

test_nameless : (store (some nameless) (new_memory_storage 0)).0 ≡ some extension_name_empty
unfolding store
test_nameless = refl

-- An extension that is named `a:b` is not found under its name.
test_colon : parse_key (build_key (b'a' ∷ b':' ∷ b'b' ∷ []) cpu) ≡ (b'a' ∷ [], b'b' ∷ b':' ∷ cpu)
unfolding parse_key build_key
test_colon = refl

test_latest :
    get_latest (λ xs. xs) api (negsuc 0) (run calls (new_memory_storage 0))
    ≡ some (at_time cpu 3 ∷ at_time api 2 ∷ [])
unfolding get_latest collect run cleanup ncore.Metrics.Storage.store_batch
    ncore.Metrics.Storage.store_loop ncore.Metrics.Storage.append_at store new_memory_storage
    build_key
test_latest = refl

abbrev since_two : QueryOptions
since_two = record {
  extension_name = api;
  metric_type = [];
  labels = [];
  start_time = 2;
  end_time = 9;
  interval = 0;
  limit = 5;
}

test_query :
    query_selection (λ xs. xs) since_two (run calls (new_memory_storage 0)).series
    ≡ (at_time cpu 3 ∷ []) ∷ []
unfolding query_selection run cleanup ncore.Metrics.Storage.store_batch
    ncore.Metrics.Storage.store_loop ncore.Metrics.Storage.append_at store new_memory_storage
    build_key
test_query = refl

run-IsHolding_example : IsHolding (run calls (new_memory_storage 0)) (held calls [])
run-IsHolding_example = run-IsHolding calls 0

api-HasNoColon : HasNoColon api
api-HasNoColon = (refl, (refl, (refl, tt)))

calls-ArePlain : ArePlain calls
calls-ArePlain = (api-HasNoColon, ((api-HasNoColon, (tt, (tt, (api-HasNoColon, tt)))), tt))

collect-held_example :
    count (λ s. true) (collect api (run calls (new_memory_storage 0)).series)
    ≡ count (is_of api (λ s. true)) (held calls [])
collect-held_example = collect-held calls 0 api (λ s. true) calls-ArePlain
