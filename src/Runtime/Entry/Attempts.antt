-- ===== src/Runtime/Entry/Attempts.antt =====
-- Every attempt that an execution begins is closed once, or handed to the observer of its stream.
use provider_core.Prelude.{
  ℕ, suc, ◌+◌, ◌≤◌, ◌≡◌, ◌∙◌, refl, ap, Bool, true, false, Option, none, some, List, [], ◌∷◌, ◌++◌,
  arith, if◌then◌else◌, ◌==◌, Bool-cases, inl, inr,
}
use provider_core.Prelude.Results.{Result, ok, err}
use provider_core.Router.Accounts.{
  WireFormat, open_ai_responses, open_ai_chat_completions, claude_messages, ProviderFailoverReason,
}
use provider_core.Proxy.Errors.{ProviderError, ProviderRetryHint}
use provider_core.Proxy.Execution.{ProviderRequest}
use provider_core.Runtime.Entry.{
  Account, AttemptEvent, called, begun, refreshed, stream_opened, failed, observation_lost,
  finished, RefreshError, begin_event, guard_failed, is_unauthorized, Executed, after, map_err,
  finish_attempt, execute_attempt, after_unauthorized, after_hint, by_hint, first_reply, refused,
  enter, execute_entry,
}

abbrev is_open : List ℕ → ℕ → Bool
is_open [] n = false
is_open (m ∷ attempts) n = if m == n then true else is_open attempts n

abbrev without : List ℕ → ℕ → List ℕ
without [] n = []
without (m ∷ attempts) n = if m == n then attempts else m ∷ without attempts n

abbrev and_then : Option (List ℕ) → (List ℕ → Option (List ℕ)) → Option (List ℕ)
and_then none next = none
and_then (some attempts) next = next attempts

-- The attempts that are open after an event; `none` where an attempt begins twice, or where one
-- that is not open is told anything.
unfoldable pub settle_event : List ℕ → AttemptEvent → Option (List ℕ)
settle_event attempts (called n) = some attempts
settle_event attempts refreshed = some attempts
settle_event attempts (begun n) = if is_open attempts n then none else some (n ∷ attempts)
settle_event attempts (stream_opened n) = if is_open attempts n then some attempts else none
settle_event attempts (observation_lost n) = if is_open attempts n then some attempts else none
settle_event attempts (failed n answered reason) =
    if is_open attempts n then some (without attempts n) else none
settle_event attempts (finished n) = if is_open attempts n then some (without attempts n) else none

unfoldable pub settle : List ℕ → List AttemptEvent → Option (List ℕ)
unfolding settle_event
settle attempts [] = some attempts
settle attempts (e ∷ events) = and_then (settle_event attempts e) (λ later. settle later events)

unfoldable pub calls : List AttemptEvent → ℕ
calls [] = 0
calls (called n ∷ events) = suc (calls events)
calls (begun n ∷ events) = calls events
calls (refreshed ∷ events) = calls events
calls (stream_opened n ∷ events) = calls events
calls (failed n answered reason ∷ events) = calls events
calls (observation_lost n ∷ events) = calls events
calls (finished n ∷ events) = calls events

abbrev pub handed : Option ℕ → List ℕ
handed none = []
handed (some n) = n ∷ []

abbrev tracked_list : Bool → ℕ → List ℕ
tracked_list true n = n ∷ []
tracked_list false n = []

abbrev no_stream : {A : Type 0} → Result ProviderError A → Bool
no_stream (err error) = true
no_stream (ok stream) = false

and_then-append :
    (o : Option (List ℕ)) (first both : List ℕ → Option (List ℕ)) (later : List ℕ)
    (last : Option (List ℕ))
    → ((attempts : List ℕ) → first attempts ≡ some later → both attempts ≡ last)
    → and_then o first ≡ some later
    → and_then o both ≡ last
and_then-append none first both later last step h = absurd (cc h)
and_then-append (some attempts) first both later last step h = step attempts h

settle-append :
    (es fs : List AttemptEvent) (attempts later : List ℕ)
    → settle attempts es ≡ some later
    → settle attempts (es ++ fs) ≡ settle later fs
unfolding settle
settle-append [] fs attempts later h =
    let same : attempts ≡ later = cc in ap (λ a. settle a fs) same
settle-append (e ∷ es) fs attempts later h =
    and_then-append (settle_event attempts e) (λ l. settle l es) (λ l. settle l (es ++ fs)) later _
      (λ l k. settle-append es fs l later k) h

calls-append : (es fs : List AttemptEvent) → calls (es ++ fs) ≡ calls es + calls fs
unfolding calls
calls-append [] fs = omega arith
calls-append (called n ∷ es) fs = omega (arith, calls-append es fs)
calls-append (begun n ∷ es) fs = calls-append es fs
calls-append (refreshed ∷ es) fs = calls-append es fs
calls-append (stream_opened n ∷ es) fs = calls-append es fs
calls-append (failed n answered reason ∷ es) fs = calls-append es fs
calls-append (observation_lost n ∷ es) fs = calls-append es fs
calls-append (finished n ∷ es) fs = calls-append es fs

module _ (account : Account) where
  -- From the open attempts on, the run closes all but the one that it hands over, makes at most so
  -- many calls, and hands one over only with a stream.
  pub record Settles (attempts : List ℕ) (most : ℕ) (run : Executed account) : Type 0 where
    pub settled : settle attempts run.events ≡ some (handed run.observed)
    pub few : calls run.events ≤ most
    pub opened : no_stream run.result ≡ true → run.observed ≡ none

  finish_attempt-Settles :
      (tracked : Bool) (n : ℕ) (reason : Option ProviderFailoverReason) (format : WireFormat)
      (reply : Result ProviderError account.Stream)
      → Settles (tracked_list tracked n) 0 (finish_attempt account tracked n reason format reply)
  unfolding finish_attempt settle calls
  finish_attempt-Settles true n reason open_ai_responses (ok stream) = record {
    settled = ground arith;
    few = omega arith;
    opened = λ h. cc;
  }
  finish_attempt-Settles true n reason open_ai_chat_completions (ok stream) = record {
    settled = ground arith;
    few = omega arith;
    opened = λ h. cc;
  }
  finish_attempt-Settles true n reason claude_messages (ok stream) = record {
    settled = ground arith;
    few = omega arith;
    opened = λ h. cc;
  }
  finish_attempt-Settles false n reason format (ok stream) = record {
    settled = refl;
    few = omega arith;
    opened = λ h. refl;
  }
  finish_attempt-Settles true n reason format (err error) = record {
    settled = ground arith;
    few = omega arith;
    opened = λ h. refl;
  }
  finish_attempt-Settles false n reason format (err error) = record {
    settled = refl;
    few = omega arith;
    opened = λ h. refl;
  }

  after-Settles :
      (events : List AttemptEvent) (run : Executed account) (attempts later : List ℕ) (most : ℕ)
      → settle attempts events ≡ some later
      → Settles later most run
      → Settles attempts (calls events + most) (after account events run)
  after-Settles events run attempts later most e h = record {
    settled = settle-append events run.events attempts later e ∙ h.settled;
    few = omega (arith, calls-append events run.events, h.few);
    opened = h.opened;
  }

  map_err-Settles :
      (change : ProviderError → ProviderError) (run : Executed account) (attempts : List ℕ)
      (most : ℕ)
      → Settles attempts most run
      → Settles attempts most (map_err account change run)
  map_err-Settles change run attempts most h = record {
    settled = h.settled;
    few = h.few;
    opened = λ e. h.opened (same_kind run.result e);
  }
    where
      same_kind :
          (r : Result ProviderError account.Stream)
          → no_stream (elim r [ err error ↦ err (change error) | ok stream ↦ ok stream ]) ≡ true
          → no_stream r ≡ true
      same_kind (err error) e = refl
      same_kind (ok stream) e = e

  begin-Settles :
      (tracked : Bool) (n : ℕ)
      → settle [] (begin_event tracked n ++ called n ∷ []) ≡ some (tracked_list tracked n)
  unfolding settle
  begin-Settles true n = refl
  begin-Settles false n = refl

  calls-begin : (tracked : Bool) (n : ℕ) → calls (begin_event tracked n ++ called n ∷ []) ≡ 1
  unfolding calls
  calls-begin true n = omega arith
  calls-begin false n = omega arith

  guard_failed-Settles :
      (tracked : Bool) (n : ℕ) (reason : Option ProviderFailoverReason)
      → settle (tracked_list tracked n) (guard_failed tracked n reason) ≡ some []
  unfolding settle
  guard_failed-Settles true n reason = ground arith
  guard_failed-Settles false n reason = refl

  calls-guard_failed :
      (tracked : Bool) (n : ℕ) (reason : Option ProviderFailoverReason)
      → calls (guard_failed tracked n reason) ≡ 0
  unfolding calls
  calls-guard_failed true n reason = omega arith
  calls-guard_failed false n reason = omega arith

  -- A run allows more calls than it makes.
  more_calls :
      (attempts : List ℕ) (few most : ℕ) (run : Executed account)
      → few ≤ most
      → Settles attempts few run
      → Settles attempts most run
  more_calls attempts few most run le h = record {
    settled = h.settled;
    few = omega (arith, h.few);
    opened = h.opened;
  }

  execute_attempt-Settles :
      (request : ProviderRequest) (reason : Option ProviderFailoverReason)
      → Settles [] 1 (execute_attempt account request reason)
  unfolding execute_attempt
  execute_attempt-Settles request reason =
      let tracked = account.begin_attempt 1 in
      more_calls [] _ 1 _ (omega (arith, calls-begin tracked 1)) (
        after-Settles _ _ [] _ 0 (begin-Settles tracked 1) (
          finish_attempt-Settles tracked 1 reason request.format
            (account.execute_stream 1 request)))

  -- What follows once the guard has closed the first attempt.
  guarded :
      (reason : Option ProviderFailoverReason) (run : Executed account)
      → Settles [] 1 run
      → Settles
          (tracked_list (account.begin_attempt 0) 0)
          1
          (after account (guard_failed (account.begin_attempt 0) 0 reason) run)
  guarded reason run h =
      let tracked = account.begin_attempt 0 in
      more_calls _ _ 1 _ (omega (arith, calls-guard_failed tracked 0 reason))
        (after-Settles _ run _ [] 1 (guard_failed-Settles tracked 0 reason) h)

  refused-Settles : (error : ProviderError) → Settles [] 1 (refused account error)
  unfolding settle calls
  refused-Settles error = record { settled = refl; few = omega arith; opened = λ h. refl }

  after_hint-Settles :
      (error : ProviderError) (retry : Result ProviderError (Option ProviderRequest))
      → Settles (tracked_list (account.begin_attempt 0) 0) 1 (after_hint account error retry)
  after_hint-Settles error (err retry_error) = guarded none _ (refused-Settles _)
  after_hint-Settles error (ok none) = guarded none _ (refused-Settles _)
  after_hint-Settles error (ok (some retry)) =
      guarded none _ (map_err-Settles _ _ [] 1 (execute_attempt-Settles retry none))

  after_unauthorized-Settles :
      (request : ProviderRequest) (error : ProviderError) (refresh : Option RefreshError)
      → Settles
          (tracked_list (account.begin_attempt 0) 0)
          1
          (after_unauthorized account request error refresh)
  after_unauthorized-Settles request error (some refresh_error) = guarded _ _ (refused-Settles _)
  after_unauthorized-Settles request error none =
      guarded none _ (map_err-Settles _ _ [] 1 (execute_attempt-Settles request _))

  by_hint-Settles :
      (request : ProviderRequest) (error : ProviderError) (hint : Option ProviderRetryHint)
      → Settles (tracked_list (account.begin_attempt 0) 0) 1 (by_hint account request error hint)
  by_hint-Settles request error (some hint) =
      after_hint-Settles error (account.retry_request request hint)
  by_hint-Settles request error none =
      more_calls _ 0 1 _ (omega arith)
        (finish_attempt-Settles (account.begin_attempt 0) 0 none request.format (err error))

  first_reply-Settles :
      (request : ProviderRequest) (reply : Result ProviderError account.Stream)
      → Settles (tracked_list (account.begin_attempt 0) 0) 1 (first_reply account request reply)
  unfolding settle calls
  first_reply-Settles request (ok stream) =
      more_calls _ 0 1 _ (omega arith)
        (finish_attempt-Settles (account.begin_attempt 0) 0 none request.format (ok stream))
  first_reply-Settles request (err error) = elim (Bool-cases (is_unauthorized error)) [
    | inl unauthorized ↦ rw unauthorized (
        after-Settles (refreshed ∷ []) _ _ _ 1 refl
          (after_unauthorized-Settles request error account.refresh))
    | inr other ↦ rw other (by_hint-Settles request error error.retry_hint)
  ]

  entered-Settles :
      (request : ProviderRequest) (acquired : Option ProviderError)
      → Settles [] 2 (enter account request acquired)
  entered-Settles request (some error) = more_calls [] 1 2 _ (omega arith) (refused-Settles error)
  entered-Settles request none =
      let tracked = account.begin_attempt 0 in
      more_calls [] _ 2 _ (omega (arith, calls-begin tracked 0)) (
        after-Settles _ _ [] _ 1 (begin-Settles tracked 0)
          (first_reply-Settles request (account.execute_stream 0 request)))

  -- An execution on an account makes at most two calls of the upstream; it closes every attempt that
  -- it begins exactly once, and tells a closed attempt nothing more, but for the attempt of the call
  -- that opened a stream in a format that can be observed, which stays open for the observer.
  pub execute_entry-Settles :
      (request : ProviderRequest) → Settles [] 2 (execute_entry account request)
  unfolding execute_entry
  execute_entry-Settles request = entered-Settles request account.acquire
