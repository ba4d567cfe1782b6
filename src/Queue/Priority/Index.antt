-- ===== src/Queue/Priority/Index.antt =====
-- The map from IDs to queued tasks, against the list of the tasks that wait.
use ncore.Common.{
  ℕ, ◌≡◌, none, some, String, List, [], arith, true, false, ◌==◌, ◌||◌, has, erase, IsNodup,
  has-erase, erase-IsNodup, Dict, lookup, insert, delete, lookup-insert, lookup-delete, eq_iff,
  Bool-cases, inl, inr,
}
use ncore.Queue.Task.{Store}

-- Each waiting task is found under its ID, each ID found is that of a waiting task, and no task
-- waits twice.
pub record IsIndexed (st : Store) (m : Dict ℕ) (waiting : List ℕ) : Type 0 where
  pub sound : (k : String) (r : ℕ) → lookup k m ≡ some r → (has r waiting ≡ true) × ((st r).id ≡ k)
  pub complete : (r : ℕ) → has r waiting ≡ true → lookup (st r).id m ≡ some r
  pub nodup : IsNodup waiting

pub IsIndexed-empty : (st : Store) → IsIndexed st [] []
unfolding lookup has
IsIndexed-empty st = record { sound = λ k r h. cc; complete = λ r h. cc; nodup = tt }

-- One task out.
pub IsIndexed-erase :
    (st : Store) (m : Dict ℕ) (waiting : List ℕ) (r : ℕ)
    → IsIndexed st m waiting
    → has r waiting ≡ true
    → IsIndexed st (delete (st r).id m) (erase r waiting)
IsIndexed-erase st m waiting r h there = record {
  sound = λ k s e. ground (
    arith,
    lookup-delete (st r).id k m,
    has-erase r s waiting h.nodup,
    h.sound k s,
    eq_iff (st r).id k,
  );
  complete = λ s e. ground (
    arith,
    lookup-delete (st r).id (st s).id m,
    has-erase r s waiting h.nodup,
    h.complete s,
    h.complete r there,
    eq_iff (st r).id (st s).id,
  );
  nodup = erase-IsNodup r waiting h.nodup;
}

-- One task in, under an ID that is not taken.
pub IsIndexed-insert :
    (st : Store) (m : Dict ℕ) (waiting later : List ℕ) (r : ℕ)
    → IsIndexed st m waiting
    → lookup (st r).id m ≡ none
    → ((s : ℕ) → has s later ≡ (r == s || has s waiting))
    → IsNodup later
    → IsIndexed st (insert (st r).id r m) later
IsIndexed-insert st m waiting later r h free members once = record {
  sound = λ k s e.
      ground (arith, lookup-insert (st r).id k r m, members s, h.sound k s, eq_iff (st r).id k);
  complete = λ s e. ground (
    arith,
    lookup-insert (st r).id (st s).id r m,
    members s,
    h.complete s,
    eq_iff (st r).id (st s).id,
  );
  nodup = once;
}

-- A task whose ID is not taken does not wait.
pub not_waiting :
    (st : Store) (m : Dict ℕ) (waiting : List ℕ) (r : ℕ)
    → IsIndexed st m waiting
    → lookup (st r).id m ≡ none
    → has r waiting ≡ false
not_waiting st m waiting r h free = elim (Bool-cases (has r waiting)) [
  | inl there ↦ cc (h.complete r there)
  | inr away ↦ away
]

-- The same tasks with the same IDs, in another order.
pub IsIndexed-reorder :
    (st st' : Store) (m : Dict ℕ) (waiting later : List ℕ)
    → IsIndexed st m waiting
    → ((s : ℕ) → (st' s).id ≡ (st s).id)
    → ((s : ℕ) → has s later ≡ has s waiting)
    → IsNodup later
    → IsIndexed st' m later
IsIndexed-reorder st st' m waiting later h ids members once = record {
  sound = λ k s e. ground (arith, h.sound k s, ids s, members s);
  complete = λ s e. ground (arith, h.complete s, ids s, members s);
  nodup = once;
}
