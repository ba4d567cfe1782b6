-- ===== src/Extension/Event/Recent.antt =====
-- What recordRecentEvent keeps.
use ncore.Common.{
  ℕ, zero, suc, ◌+◌, ◌-◌, ◌≤◌, ◌≡◌, refl, sym, ap, ◌∙◌, List, [], ◌∷◌, ◌++◌, true, ltb,
  if◌then◌else◌, length, drop, length-drop, length-append, drop-nil, arith, Bool-cases, inl, inr,
  All,
}
use ncore.Extension.Event.{is_recent, first_recent, limit_length, record_recent_event}

-- the events of the last minute
unfoldable pub recent_only : ℕ → List ℕ → List ℕ
recent_only now [] = []
recent_only now (t ∷ ts) = if is_recent now t then t ∷ recent_only now ts else recent_only now ts

abbrev pub IsSorted : List ℕ → Type 0
IsSorted [] = Unit
IsSorted (t ∷ ts) = All (λ u. t ≤ u) ts × IsSorted ts

pub keep_last : ℕ → List ℕ → List ℕ
keep_last n ts = drop (length ts - n) ts

leading : ℕ → List ℕ → ℕ
leading now [] = 0
leading now (t ∷ ts) = if is_recent now t then 0 else suc (leading now ts)

first_recent-leading :
    (now i : ℕ) (ts : List ℕ)
    → first_recent now i (ts ++ now ∷ []) ≡ i + leading now (ts ++ now ∷ [])
unfolding first_recent leading
first_recent-leading now i [] = ground arith
first_recent-leading now i (t ∷ ts) = ground (arith, first_recent-leading now (i + 1) ts)

recent_only-All :
    (now t : ℕ) (ts : List ℕ)
    → is_recent now t ≡ true
    → All (λ u. t ≤ u) ts
    → recent_only now ts ≡ ts
unfolding recent_only
recent_only-All now t [] e h = refl
recent_only-All now t (u ∷ ts) e h = ground (arith, h.0, recent_only-All now t ts e h.1)

drop-leading : (now : ℕ) (ts : List ℕ) → IsSorted ts → drop (leading now ts) ts ≡ recent_only now ts
unfolding leading recent_only
drop-leading now [] h = refl
drop-leading now (t ∷ ts) h = elim (Bool-cases (is_recent now t)) [
  | inl young ↦ ground (arith, young, recent_only-All now t ts young h.0)
  | inr old ↦ ground (arith, old, drop-leading now ts h.1)
]

limit_length-keep_last : (ts : List ℕ) → limit_length ts ≡ keep_last 1000 ts
unfolding limit_length keep_last
limit_length-keep_last ts = elim (Bool-cases (ltb 1000 (length ts))) [
  | inl many ↦ rw many refl
  | inr few ↦
      let none_over : 0 ≡ length ts - 1000 = ground arith in rw few (ap (λ n. drop n ts) none_over)
]

-- When the events come in the order of their times, recordRecentEvent keeps the events of the last
-- minute, and of these the last 1000.
pub record_recent_event_lem :
    (events : List ℕ) (now : ℕ)
    → IsSorted (events ++ now ∷ [])
    → record_recent_event events now ≡ keep_last 1000 (recent_only now (events ++ now ∷ []))
unfolding record_recent_event
record_recent_event_lem events now h =
    limit_length-keep_last _
    ∙ ap (keep_last 1000) (
        ap (λ n. drop n (events ++ now ∷ [])) (first_recent-leading now 0 events ∙ omega arith)
        ∙ drop-leading now (events ++ now ∷ []) h)

leading-le : (now : ℕ) (ts : List ℕ) → leading now (ts ++ now ∷ []) ≤ length ts
unfolding leading
leading-le now [] = ground arith
leading-le now (t ∷ ts) = ground (arith, leading-le now ts)

drop_last :
    (n : ℕ) (ts : List ℕ) (t : ℕ) → n ≤ length ts → drop n (ts ++ t ∷ []) ≡ drop n ts ++ t ∷ []
drop_last zero ts t h = refl
drop_last (suc n) [] t h = absurd (omega (arith, h))
drop_last (suc n) (u ∷ ts) t h = drop_last n ts t (omega (arith, h))

drop_twice : (n k : ℕ) (ts : List ℕ) → drop n (drop k ts) ≡ drop (n + k) ts
drop_twice n zero ts = ap (λ i. drop i ts) (omega arith)
drop_twice n (suc k) [] = drop-nil n ∙ sym (drop-nil (n + suc k))
drop_twice n (suc k) (t ∷ ts) =
    let e : suc (n + k) ≡ n + suc k = omega arith in drop_twice n k ts ∙ ap (λ i. drop i (t ∷ ts)) e

-- Whatever the order of the times, recordRecentEvent keeps at most 1000 events, the newest
-- always and as the last, with some of the latest of the others before it.
pub record_recent_event_bounded :
    (events : List ℕ) (now : ℕ)
    → (length (record_recent_event events now) ≤ 1000)
      × ((n : ℕ) × (record_recent_event events now ≡ drop n events ++ now ∷ []))
unfolding record_recent_event keep_last
record_recent_event_bounded events now =
    let all = events ++ now ∷ [] in
    let k = leading now all in
    let kept : drop (first_recent now 0 all) all ≡ drop k events ++ now ∷ [] =
      ap (λ n. drop n all) (first_recent-leading now 0 events ∙ omega arith)
      ∙ drop_last k events now (leading-le now events) in
    let over : ℕ = length (drop k events ++ now ∷ []) - 1000 in
    let e : record_recent_event events now ≡ drop over (drop k events) ++ now ∷ [] =
      limit_length-keep_last _
      ∙ ap (keep_last 1000) kept
      ∙ drop_last over (drop k events) now
          (omega (arith, length-append (drop k events) (now ∷ []))) in
    let z = drop (first_recent now 0 all) all in
    (
      omega (arith, ap length (limit_length-keep_last z), length-drop (length z - 1000) z),
      (over + k, e ∙ ap (λ ts. ts ++ now ∷ []) (drop_twice over k events)),
    )
