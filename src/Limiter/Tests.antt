-- ===== src/Limiter/Tests.antt =====
-- The theorem on the limiter at concrete inputs.
use omni_crm_backend.Prelude.{ℕ, ◌+◌, ◌≡◌, refl, true, false, List, [], ◌∷◌, arith, ok, seconds}
use omni_crm_backend.Limiter.{check_limit}
use omni_crm_backend.Limiter.Window.{answers, answers_by_log, answers-eq-answers_by_log}

abbrev calls : List ℕ
calls = 5 ∷ 6 ∷ 7 ∷ seconds 60 ∷ (seconds 60 + 6) ∷ []

third_refused : answers 2 60 calls [] ≡ ok true ∷ ok true ∷ ok false ∷ ok false ∷ ok true ∷ []
unfolding answers check_limit
third_refused = refl

answers-eq-answers_by_log_example : answers 2 60 calls [] ≡ answers_by_log 2 (seconds 60) calls []
answers-eq-answers_by_log_example =
    answers-eq-answers_by_log 2 60 (omega arith) (omega arith) calls (omega arith)
