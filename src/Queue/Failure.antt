-- ===== src/Queue/Failure.antt =====
-- messaging/queue/queue.go, isRetryableError: what it reads of an error.
-- An error is the chain that `errors.Is` and `errors.As` unwrap, outermost first, with the text of
-- `Error()`. A link has the predefined error that it is, and the methods that its type has; an
-- `Is` or `As` method of a link is not modelled.
pub mod Retried
mod Tests
use ncore.Common.{
  ◌≡◌, refl, String, Option, none, some, List, [], ◌∷◌, Bool, true, false, ◌||◌, if◌then◌else◌,
  arith, Option-cases, inl, inr,
}
use text.Mathlib.Text.{find?}

pub data Sentinel : Type 0 where
  deadline_exceeded context_canceled task_timeout temporary_failure unnamed : Sentinel

-- `net.Error` has the method `Temporary` too.
pub data Methods : Type 0 where
  no_methods : Methods
  has_temporary : Bool → Methods
  is_net_error : Bool → Methods

pub record Link : Type 0 where
  pub value : Sentinel
  pub methods : Methods

pub record Failure : Type 0 where
  pub chain : List Link
  pub message : String

-- a member of RetryableErrors
abbrev pub is_predefined : Sentinel → Bool
is_predefined deadline_exceeded = true
is_predefined context_canceled = false
is_predefined task_timeout = true
is_predefined temporary_failure = true
is_predefined unnamed = false

-- the loop over RetryableErrors, with `errors.Is` for each
unfoldable pub is_any_retryable : List Link → Bool
is_any_retryable [] = false
is_any_retryable (link ∷ links) = is_predefined link.value || is_any_retryable links

-- `errors.As(err, &retryErr)`, and what its Temporary() says
unfoldable pub as_retryable : List Link → Option Bool
as_retryable [] = none
as_retryable (link ∷ links) = elim link.methods [
  | no_methods ↦ as_retryable links
  | has_temporary b ↦ some b
  | is_net_error b ↦ some b
]

-- `errors.As(err, &netErr)`, and what its Temporary() says
unfoldable pub as_net_error : List Link → Option Bool
as_net_error [] = none
as_net_error (link ∷ links) = elim link.methods [
  | no_methods ↦ as_net_error links
  | has_temporary b ↦ as_net_error links
  | is_net_error b ↦ some b
]

abbrev says : String → String → Bool
says message part = elim (find? message part) [ none ↦ false | some i ↦ true ]

-- the cases on the text
unfoldable pub by_message : String → Bool
by_message message =
    if says message "connection refused"
    then true
    else if says message "no such host"
    then false
    else if says message "timeout"
    then true
    else false

unfoldable pub is_retryable_error : Option Failure → Bool
is_retryable_error none = false
is_retryable_error (some err) =
    if is_any_retryable err.chain then true else elim (as_retryable err.chain) [
      | some temporary ↦ temporary
      | none ↦ elim (as_net_error err.chain) [
        | some temporary ↦ temporary
        | none ↦ by_message err.message
      ]
    ]
