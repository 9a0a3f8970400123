-- ===== src/Compliance/Status.antt =====
-- The status endpoint of data subject requests finds what the submission started.
use Prim.Native.String.{◌++◌}
use project_k_platform.Prelude.{
  ℕ, String, ◌≡◌, ◌≢◌, true, Option, none, some, List, [], ◌∷◌, any, arith, eq_iff, Bool-cases, inl,
  inr, sym, ap, subst, ◌∙◌,
}
use project_k_platform.Prelude.Eq.{◌==◌, string_eq}
use project_k_platform.Prelude.Result.{ok}
use project_k_platform.Compliance.Rights.{
  DsrSubmitted, submit_dsr, get_dsr_status, find_status, valid_types,
}

-- The id of a request's workflow.
abbrev pub dsr_workflow : String → String → String
dsr_workflow right_type request_id = "dsr-" ++ right_type ++ "-" ++ request_id

module _ (describe : String → Option String) (request_id right_type status : String) where
  find_status-started :
      (ts : List String)
      → any (λ t. right_type == t) ts ≡ true
      → describe (dsr_workflow right_type request_id) ≡ some status
      → ((t : String) → t ≢ right_type → describe (dsr_workflow t request_id) ≡ none)
      → find_status describe request_id ts ≡ ok (status, right_type)
  unfolding find_status
  find_status-started [] h d others = cc
  find_status-started (t ∷ ts) h d others = elim (Bool-cases (right_type == t)) [
    | inl e ↦
        let q : right_type ≡ t = (eq_iff right_type t).0 e in
        let found : describe (dsr_workflow t request_id) ≡ some status =
          subst (λ x. describe (dsr_workflow x request_id) ≡ some status) q d in
        rw (find_status, found) (ap (λ x. ok (status, x)) (sym q))
    | inr e ↦
        let n : describe (dsr_workflow t request_id) ≡ none =
          others t (λ q. ground (arith, eq_iff right_type t)) in
        rw (find_status, n) (find_status-started ts (ground arith) d others)
  ]

  submitted-valid :
      (principal : String) (now : ℕ) (r : DsrSubmitted)
      → (submit_dsr request_id now true principal right_type).0 ≡ ok r
      → (any (λ t. right_type == t) valid_types ≡ true)
        × (r.request_id ≡ request_id)
        × (r.workflow_id ≡ dsr_workflow right_type request_id)
  unfolding submit_dsr
  submitted-valid principal now r h = elim (Bool-cases (any (λ t. right_type == t) valid_types)) [
    | inl e ↦ (e, ground arith, ground arith)
    | inr e ↦ ground arith
  ]

-- After an accepted submission, if Temporal describes its workflow and none of the same request with
-- another right type, the status endpoint answers for the returned request id with the status of that
-- workflow and the right type that was submitted.
pub submit_dsr-get_dsr_status :
    (describe : String → Option String) (request_id principal right_type status : String) (now : ℕ)
    {r : DsrSubmitted}
    → (submit_dsr request_id now true principal right_type).0 ≡ ok r
    → describe r.workflow_id ≡ some status
    → ((t : String) → t ≢ right_type → describe (dsr_workflow t request_id) ≡ none)
    → get_dsr_status describe r.request_id ≡ ok (status, right_type)
unfolding get_dsr_status
submit_dsr-get_dsr_status describe request_id principal right_type status now {r} h d others =
    let (valid, same, id) =
      submitted-valid describe request_id right_type status principal now r h in
    let d' : describe (dsr_workflow right_type request_id) ≡ some status = cc (id, d) in
    ap (get_dsr_status describe) same
    ∙ (find_status-started describe request_id right_type status valid_types valid d' others)
