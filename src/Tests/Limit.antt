-- ===== src/Tests/Limit.antt =====
-- Three requests of one client at a limit of two.
use project_k_platform.Prelude.{
  ℕ, String, ◌≡◌, refl, true, false, Option, some, List, [], ◌∷◌, ◌+◌, ltb, count_if, arith,
}
use project_k_platform.Prelude.Result.{is_ok}
use project_k_platform.Limit.{dispatch, serve_all, admitted, window_seconds, dispatch-serve_all}

abbrev requests : List (ℕ × Option String)
requests = (10, some "a") ∷ (20, some "a") ∷ []

-- The third is refused.
third : is_ok (dispatch true 2 30 (some "a") (serve_all 2 requests ([], [])).0).0 ≡ false
unfolding dispatch serve_all
third = refl

dispatch-serve_all_example :
    is_ok (dispatch true 2 30 (some "a") (serve_all 2 requests ([], [])).0).0
    ≡ ltb
        (count_if
          (λ t. ltb 30 (t + window_seconds))
          (admitted "a" (serve_all 2 requests ([], [])).1))
        2
dispatch-serve_all_example =
    dispatch-serve_all 2 requests 30 (some "a") (omega arith, (omega arith, omega arith))
