-- ===== src/Limiter/Window.antt =====
-- The deque refines a log of all calls that were ever let through, in which a call is let through
-- when fewer than `limit` calls of the window before it were.
use mathlib.Core.Path.{ap₂}
use omni_crm_backend.Prelude.{
  ◌∙◌, ℕ, ◌+◌, ◌≤◌, ◌<◌, ◌≡◌, refl, Bool, true, false, not, inl, inr, List, [], ◌∷◌, arith, Outcome,
  ok, err, seconds, leb, ltb, Bool-cases, if◌then◌else◌, length, select, insert, All,
}
use omni_crm_backend.Limiter.{LimitResult, LimiterError, check_limit, expire, decide, refuse}

-- The abstract limiter: nothing is forgotten, and the window is read off the log.
abbrev pub in_window : ℕ → ℕ → ℕ → Bool
in_window window now t = not (leb (t + window) now)

abbrev pub may_pass : ℕ → ℕ → ℕ → List ℕ → Bool
may_pass limit window now log = ltb (length (select (in_window window now) log)) limit

abbrev pub record_call : ℕ → ℕ → ℕ → List ℕ → List ℕ
record_call limit window now log = if may_pass limit window now log then insert now log else log

abbrev IsSorted : List ℕ → Type 0
IsSorted [] = Unit
IsSorted (t ∷ ts) = All (λ s. t ≤ s) ts × IsSorted ts

select-All :
    (window now : ℕ) (ts : List ℕ)
    → All (λ s. now < s + window) ts
    → select (in_window window now) ts ≡ ts
unfolding select
select-All window now [] h = refl
select-All window now (t ∷ ts) h = ground (arith, h.0, select-All window now ts h.1)

All-late :
    (window now t : ℕ) (ts : List ℕ)
    → now < t + window
    → All (λ s. t ≤ s) ts
    → All (λ s. now < s + window) ts
All-late window now t [] late h = tt
All-late window now t (s ∷ ts) late h = (omega (arith, h.0), All-late window now t ts late h.1)

-- On a sorted deque, dropping from the front leaves the window.
expire-eq-select :
    (window now : ℕ) (ts : List ℕ)
    → IsSorted ts
    → expire window now ts ≡ select (in_window window now) ts
unfolding expire select
expire-eq-select window now [] h = refl
expire-eq-select window now (t ∷ ts) h = elim (Bool-cases (leb (t + window) now)) [
  | inl e ↦ rw e (expire-eq-select window now ts h.1)
  | inr e ↦
      let late : now < t + window = ground (arith, e) in
      rw e (rw (select-All window now ts (All-late window now t ts late h.0)) refl)
]

-- What has left the window at one time is out of it later.
select-select :
    (window now now' : ℕ) (ts : List ℕ)
    → now ≤ now'
    → select (in_window window now') (select (in_window window now) ts)
      ≡ select (in_window window now') ts
unfolding select
select-select window now now' [] le = refl
select-select window now now' (t ∷ ts) le = ground (arith, select-select window now now' ts le)

All-select :
    (n : ℕ) (p : ℕ → Bool) (ts : List ℕ) → All (λ s. n ≤ s) ts → All (λ s. n ≤ s) (select p ts)
unfolding select
All-select n p [] h = tt
All-select n p (t ∷ ts) h = elim (Bool-cases (p t)) [
  | inl e ↦ rw e (h.0, All-select n p ts h.1)
  | inr e ↦ rw e (All-select n p ts h.1)
]

select-IsSorted : (p : ℕ → Bool) (ts : List ℕ) → IsSorted ts → IsSorted (select p ts)
unfolding select
select-IsSorted p [] h = tt
select-IsSorted p (t ∷ ts) h = elim (Bool-cases (p t)) [
  | inl e ↦ rw e (All-select t p ts h.0, select-IsSorted p ts h.1)
  | inr e ↦ rw e (select-IsSorted p ts h.1)
]

insert-IsSorted :
    (now : ℕ) (ts : List ℕ) → All (λ s. s ≤ now) ts → IsSorted ts → IsSorted (insert now ts)
insert-IsSorted now [] h s = (tt, tt)
insert-IsSorted now (t ∷ ts) h s = (late ts s.0 h.0, insert-IsSorted now ts h.1 s.1)
  where
    late : (us : List ℕ) → All (λ s. t ≤ s) us → t ≤ now → All (λ s. t ≤ s) (insert now us)
    late [] h k = (k, tt)
    late (u ∷ us) h k = (h.0, late us h.1 k)

All-insert : (now : ℕ) (ts : List ℕ) → All (λ s. s ≤ now) ts → All (λ s. s ≤ now) (insert now ts)
All-insert now [] h = (omega arith, tt)
All-insert now (t ∷ ts) h = (h.0, All-insert now ts h.1)

All-later :
    (now now' : ℕ) (ts : List ℕ) → now ≤ now' → All (λ s. s ≤ now) ts → All (λ s. s ≤ now') ts
All-later now now' [] le h = tt
All-later now now' (t ∷ ts) le h = (omega (arith, h.0), All-later now now' ts le h.1)

select-insert :
    (window now : ℕ) (ts : List ℕ)
    → 0 < window
    → select (in_window window now) (insert now ts) ≡ insert now (select (in_window window now) ts)
unfolding select
select-insert window now [] pos = ground arith
select-insert window now (t ∷ ts) pos = ground (arith, select-insert window now ts pos)

-- The deque holds the calls of the log that were in the window at the last call.
pub record Simulates (window at : ℕ) (log events : List ℕ) : Type 0 where
  pub held : events ≡ select (in_window window at) log
  pub sorted : IsSorted log
  pub past : All (λ s. s ≤ at) log

-- The answer of a call, if it has one.
abbrev pub answer_of : Outcome LimiterError LimitResult → Outcome LimiterError Bool
answer_of (ok r) = ok r.allowed
answer_of (err e) = err e

module _ (limit window : ℕ) (some_pass : 0 < limit) (pos : 0 < window) where
  decided :
      (now : ℕ) (log : List ℕ)
      → let events = select (in_window window now) log in
        (answer_of (decide limit window now events).0 ≡ ok (may_pass limit window now log))
        × ((decide limit window now events).1
            ≡ select (in_window window now) (record_call limit window now log))
  unfolding decide
  decided now log = elim (Bool-cases (leb limit (length (select (in_window window now) log)))) [
    | inr e ↦
        let pass : may_pass limit window now log ≡ true = ground (arith, e) in
        rw (e, pass) (refl, rw (select-insert window now log pos) refl)
    | inl e ↦
        let stop : may_pass limit window now log ≡ false = ground (arith, e) in
        rw (e, stop) (full (select (in_window window now) log) e)
  ]
    where
      full :
          (events : List ℕ)
          → leb limit (length events) ≡ true
          → (answer_of (refuse window now events).0 ≡ ok false)
            × ((refuse window now events).1 ≡ events)
      full [] h = absurd (ground (arith, h))
      full (t ∷ ts) h = (refl, refl)

abbrev pub IsTimed : ℕ → List ℕ → Type 0
IsTimed at [] = Unit
IsTimed at (now ∷ times) = (at ≤ now) × IsTimed now times

-- The answers to calls at the given times, by the deque and by the log.
unfoldable pub answers : ℕ → ℕ → List ℕ → List ℕ → List (Outcome LimiterError Bool)
answers limit window_seconds [] events = []
answers limit window_seconds (now ∷ times) events =
    let run = check_limit limit window_seconds now events in
    answer_of run.0 ∷ answers limit window_seconds times run.1

pub answers_by_log : ℕ → ℕ → List ℕ → List ℕ → List (Outcome LimiterError Bool)
answers_by_log limit window [] log = []
answers_by_log limit window (now ∷ times) log =
    ok (may_pass limit window now log)
    ∷ answers_by_log limit window times (record_call limit window now log)

module _ (limit window_seconds : ℕ) (some_pass : 0 < limit) (pos : 0 < window_seconds) where
  abbrev window : ℕ
  window = seconds window_seconds

  expired :
      (at now : ℕ) (log events : List ℕ)
      → Simulates window at log events
      → at ≤ now
      → expire window now events ≡ select (in_window window now) log
  expired at now log events s le = rw (s.held) (
      expire-eq-select window now (select (in_window window at) log)
        (select-IsSorted (in_window window at) log s.sorted)
      ∙ select-select window at now log le)

  kept :
      (at now : ℕ) (log events : List ℕ)
      → Simulates window at log events
      → at ≤ now
      → (answer_of (check_limit limit window_seconds now events).0
          ≡ ok (may_pass limit window now log))
        × Simulates window now
            (record_call limit window now log)
            (check_limit limit window_seconds now events).1
  unfolding check_limit
  kept at now log events s le =
      let d = decided limit window some_pass (omega (arith, pos)) now log in
      rw (expired at now log events s le) (
        d.0,
        record {
          held = d.1;
          sorted = log_sorted (may_pass limit window now log);
          past = log_past (may_pass limit window now log);
        },
      )
    where
      late : All (λ s. s ≤ now) log
      late = All-later at now log le s.past

      log_sorted : (b : Bool) → IsSorted (if b then insert now log else log)
      log_sorted true = insert-IsSorted now log late s.sorted
      log_sorted false = s.sorted

      log_past : (b : Bool) → All (λ s. s ≤ now) (if b then insert now log else log)
      log_past true = All-insert now log late
      log_past false = late

  answers_agree :
      (at : ℕ) (times log events : List ℕ)
      → Simulates window at log events
      → IsTimed at times
      → answers limit window_seconds times events ≡ answers_by_log limit window times log
  unfolding answers answers_by_log
  answers_agree at [] log events s h = refl
  answers_agree at (now ∷ times) log events s h =
      let k = kept at now log events s h.0 in
      ap₂ ◌∷◌ k.0 (
        answers_agree now times (record_call limit window now log)
          (check_limit limit window_seconds now events).1 k.1 h.1)

  -- From an empty deque and for calls in the order of their times, the limiter answers every call
  -- as the log of all calls that it has let through does: a call passes exactly if fewer than
  -- `limit` of those fall in the window before it.
  pub answers-eq-answers_by_log :
      (times : List ℕ)
      → IsTimed 0 times
      → answers limit window_seconds times [] ≡ answers_by_log limit window times []
  answers-eq-answers_by_log times h =
      answers_agree 0 times [] [] (record { held = unfold select in refl; sorted = tt; past = tt })
        h
