-- ===== src/Queue/Failure/Retried.antt =====
-- Which errors isRetryableError lets the queue retry.
use ncore.Common.{
  ℕ, ◌≡◌, refl, ap, sym, ◌∙◌, subst, String, Option, none, some, List, [], ◌∷◌, ◌++◌, Bool, true,
  arith, Option-cases, Bool-cases, inl, inr, ◌⊎◌, ◌↔◌, All,
}
use text.Mathlib.Text.{find?}
use ncore.Queue.Failure.{
  Methods, Sentinel, Link, Failure, deadline_exceeded, context_canceled, task_timeout,
  temporary_failure, unnamed, no_methods, has_temporary, is_net_error, is_predefined,
  is_any_retryable, as_retryable, as_net_error, by_message, is_retryable_error,
}

-- The test for a network error never decides: a network error has the method `Temporary`.
no_net_error : (links : List Link) → as_retryable links ≡ none → as_net_error links ≡ none
unfolding as_retryable as_net_error
no_net_error [] h = refl
no_net_error (link ∷ links) h = by_methods (no_net_error links) link.methods h
  where
    by_methods :
        (as_retryable links ≡ none → as_net_error links ≡ none)
        → (m : Methods)
        → elim m [
          | no_methods ↦ as_retryable links
          | has_temporary b ↦ some b
          | is_net_error b ↦ some b
        ]
          ≡ none
        → elim m [
          | no_methods ↦ as_net_error links
          | has_temporary b ↦ as_net_error links
          | is_net_error b ↦ some b
        ]
          ≡ none
    by_methods ih no_methods e = ih e
    by_methods ih (has_temporary b) e = absurd (cc)
    by_methods ih (is_net_error b) e = absurd (cc)

-- The chain has a link with the property, which may speak of the links outside it.
abbrev pub Wraps : (List Link → Link → Type 0) → List Link → Type 0
Wraps P chain =
    (before : List Link) × (link : Link) × (after : List Link) × (chain ≡ before ++ link ∷ after)
    × P before link

abbrev pub IsListed : Link → Type 0
IsListed link =
    (link.value ≡ deadline_exceeded)
    ⊎ (link.value ≡ task_timeout)
    ⊎ (link.value ≡ temporary_failure)

-- the type of the link has the method `Temporary`, which answers `b`
abbrev pub Answers : Bool → Link → Type 0
Answers b link = (link.methods ≡ has_temporary b) ⊎ (link.methods ≡ is_net_error b)

abbrev pub AnswersFirst : Bool → List Link → Link → Type 0
AnswersFirst b before link = All (λ (l : Link). l.methods ≡ no_methods) before × Answers b link

abbrev pub Contains : String → String → Type 0
Contains message part = (at : ℕ) × (find? message part ≡ some at)

abbrev pub SaysRetry : String → Type 0
SaysRetry message =
    Contains message "connection refused"
    ⊎ (find? message "no such host" ≡ none) × Contains message "timeout"

abbrev pub IsRetried : Failure → Type 0
IsRetried err =
    Wraps (λ before link. IsListed link) err.chain
    ⊎ Wraps (AnswersFirst true) err.chain
    ⊎ All (λ (l : Link). l.methods ≡ no_methods) err.chain × SaysRetry err.message

is_predefined-IsListed : (link : Link) → is_predefined link.value ≡ true → IsListed link
is_predefined-IsListed link e = by_value link.value e
  where
    by_value :
        (s : Sentinel)
        → is_predefined s ≡ true
        → (s ≡ deadline_exceeded) ⊎ (s ≡ task_timeout) ⊎ (s ≡ temporary_failure)
    by_value deadline_exceeded e = inl refl
    by_value context_canceled e = absurd (cc)
    by_value task_timeout e = inr (inl refl)
    by_value temporary_failure e = inr (inr refl)
    by_value unnamed e = absurd (cc)

listed : (link : Link) → IsListed link → is_predefined link.value ≡ true
listed link (inl e) = ap is_predefined e
listed link (inr (inl e)) = ap is_predefined e
listed link (inr (inr e)) = ap is_predefined e

any-Wraps :
    (chain : List Link) → is_any_retryable chain ≡ true → Wraps (λ before link. IsListed link) chain
unfolding is_any_retryable
any-Wraps [] e = absurd (cc)
any-Wraps (link ∷ links) e = elim (Bool-cases (is_predefined link.value)) [
  | inl here ↦ ([], link, links, refl, is_predefined-IsListed link here)
  | inr other ↦
      let (before, found, after, split, p) = any-Wraps links (ground (arith, e, other)) in
      (link ∷ before, found, after, ap (◌∷◌ link) split, p)
]

Wraps-any :
    (before : List Link) (link : Link) (after : List Link)
    → IsListed link
    → is_any_retryable (before ++ link ∷ after) ≡ true
unfolding is_any_retryable
Wraps-any [] link after p = ground (arith, listed link p)
Wraps-any (first ∷ before) link after p = ground (arith, Wraps-any before link after p)

as_retryable-none :
    (chain : List Link)
    → All (λ (l : Link). l.methods ≡ no_methods) chain
    → as_retryable chain ≡ none
unfolding as_retryable
as_retryable-none [] h = refl
as_retryable-none (link ∷ links) h = rw (h.0) (as_retryable-none links h.1)

as_retryable-first :
    (b : Bool) (before : List Link) (link : Link) (after : List Link)
    → AnswersFirst b before link
    → as_retryable (before ++ link ∷ after) ≡ some b
unfolding as_retryable
as_retryable-first b [] link after (h, inl e) = rw e refl
as_retryable-first b [] link after (h, inr e) = rw e refl
as_retryable-first b (first ∷ before) link after (h, a) =
    rw (h.0) (as_retryable-first b before link after (h.1, a))

-- What `errors.As` finds for the interface with `Temporary`
abbrev Found : List Link → Option Bool → Type 0
Found chain none = All (λ (l : Link). l.methods ≡ no_methods) chain
Found chain (some b) = Wraps (AnswersFirst b) chain

onward :
    (link : Link) (links : List Link) (o : Option Bool)
    → link.methods ≡ no_methods
    → Found links o
    → Found (link ∷ links) o
onward link links none e h = (e, h)
onward link links (some b) e (before, found, after, split, (h, a)) =
    (link ∷ before, found, after, ap (◌∷◌ link) split, ((e, h), a))

as_retryable-Found : (chain : List Link) → Found chain (as_retryable chain)
unfolding as_retryable
as_retryable-Found [] = tt
as_retryable-Found (link ∷ links) = by_methods link.methods refl (as_retryable-Found links)
  where
    by_methods :
        (m : Methods)
        → link.methods ≡ m
        → Found links (as_retryable links)
        → Found (link ∷ links) (elim m [
          | no_methods ↦ as_retryable links
          | has_temporary b ↦ some b
          | is_net_error b ↦ some b
        ])
    by_methods no_methods e h = onward link links (as_retryable links) e h
    by_methods (has_temporary b) e h = ([], link, links, refl, (tt, inl e))
    by_methods (is_net_error b) e h = ([], link, links, refl, (tt, inr e))

by_message-SaysRetry : (message : String) → by_message message ≡ true → SaysRetry message
unfolding by_message
by_message-SaysRetry message e = elim (Option-cases (find? message "connection refused")) [
  | inr (i, refused) ↦ inl (i, refused)
  | inl accepted ↦ elim (Option-cases (find? message "no such host")) [
    | inr (i, unknown) ↦ absurd (ground (arith, e, accepted, unknown))
    | inl known ↦ elim (Option-cases (find? message "timeout")) [
      | inr (i, late) ↦ inr (known, (i, late))
      | inl quick ↦ absurd (ground (arith, e, accepted, known, quick))
    ]
  ]
]

SaysRetry-by_message : (message : String) → SaysRetry message → by_message message ≡ true
unfolding by_message
SaysRetry-by_message message (inl (i, refused)) = ground (arith, refused)
SaysRetry-by_message message (inr (known, (i, late))) =
    elim (Option-cases (find? message "connection refused")) [
      | inr (i, refused) ↦ ground (arith, refused)
      | inl accepted ↦ ground (arith, accepted, known, late)
    ]

-- An error is retried exactly if it wraps DeadlineExceeded, ErrTaskTimeout or ErrTemporaryFailure; or
-- the first error of its chain that has the method Temporary answers true; or no error of the
-- chain has this method, and the text of the error contains "connection refused", or "timeout" and not
-- "no such host".
pub is_retryable_error_iff :
    (err : Failure) → (is_retryable_error (some err) ≡ true) ↔ IsRetried err
unfolding is_retryable_error
is_retryable_error_iff err = (decided err (as_retryable err.chain) refl, retried err)
  where
    decided :
        (err : Failure) (o : Option Bool)
        → as_retryable err.chain ≡ o
        → is_retryable_error (some err) ≡ true
        → IsRetried err
    decided err none away e = elim (Bool-cases (is_any_retryable err.chain)) [
      | inl wraps ↦ inl (any-Wraps err.chain wraps)
      | inr plain ↦ inr (
          inr (
            subst (Found err.chain) away (as_retryable-Found err.chain),
            by_message-SaysRetry err.message
                (ground (arith, e, plain, away, no_net_error err.chain away)),
          ))
    ]
    decided err (some b) there e = elim (Bool-cases (is_any_retryable err.chain)) [
      | inl wraps ↦ inl (any-Wraps err.chain wraps)
      | inr plain ↦
          let yes_it_is : b ≡ true = ground (arith, e, plain, there) in
          inr (
            inl
              (subst (Found err.chain) (there ∙ ap some yes_it_is) (as_retryable-Found err.chain)))
    ]

    retried : (err : Failure) → IsRetried err → is_retryable_error (some err) ≡ true
    retried err (inl (before, link, after, split, p)) =
        let e : is_any_retryable err.chain ≡ true =
          subst (λ c. is_any_retryable c ≡ true) (sym split) (Wraps-any before link after p) in
        rw e refl
    retried err (inr (inl (before, link, after, split, p))) =
        let e : as_retryable err.chain ≡ some true =
          subst (λ c. as_retryable c ≡ some true) (sym split)
            (as_retryable-first true before link after p) in
        ground (arith, e)
    retried err (inr (inr (bare, text_says))) =
        let away = as_retryable-none err.chain bare in
        ground
          (arith, away, no_net_error err.chain away, SaysRetry-by_message err.message text_says)
