-- ===== src/Orchestrator/Workflow/Lender.antt =====
-- How LoanOriginationWorkflow ends once the application is with the lenders.
use project_k_platform.Prelude.{
  String, ◌≡◌, refl, ◌∙◌, ap, Bool, true, false, Option, none, some, List, [], ◌∷◌, arith, is_some,
  or_default,
}
use project_k_platform.Orchestrator.Types.{LenderResponse, LoanOriginationInput, SubmitResult}
use project_k_platform.Orchestrator.Workflow.{
  World, State, done, Fields, RunResult, rejected, offer_received, Signal, lender_response_received,
  ops_hold_requested, ops_hold_released, wait_condition, await_lender, response_over, deliver,
}

-- The last response among the signals of an activation, else the one before them.
abbrev pub last_response : Option LenderResponse → List Signal → Option LenderResponse
last_response o [] = o
last_response o (lender_response_received r ∷ gs) = last_response (some r) gs
last_response o (ops_hold_requested why ∷ gs) = last_response o gs
last_response o (ops_hold_released ∷ gs) = last_response o gs

-- The response that decides: one that came before the wait, else the last one of the first activation
-- that brings any.
abbrev pub deciding : Option LenderResponse → List (List Signal) → Option LenderResponse
deciding (some r) activations = some r
deciding none [] = none
deciding none (gs ∷ activations) = deciding (last_response none gs) activations

abbrev pub verdict : List String → Option LenderResponse → RunResult
verdict ls none = rejected "d4_lender_underwriting" "lender_response_timeout"
verdict ls (some r) = elim (or_default r.offer []) [
  | [] ↦ rejected "d4_lender_underwriting" (or_default r.reason "lender_declined")
  | f ∷ fs ↦ offer_received r.offer ls
]

abbrev answered : Fields → Bool
answered f = is_some f.lender_response

deliver-last_response :
    (gs : List Signal) (s : State)
    → (deliver gs s).fields.lender_response ≡ last_response s.fields.lender_response gs
unfolding deliver
deliver-last_response [] s = refl
deliver-last_response (lender_response_received r ∷ gs) s = deliver-last_response gs _
deliver-last_response (ops_hold_requested why ∷ gs) s = deliver-last_response gs _
deliver-last_response (ops_hold_released ∷ gs) s = deliver-last_response gs _

-- The wait ends in time exactly if a response decides, and that response is then in the field.
wait-deciding :
    (gs : List (List Signal)) (s : State) (o : Option LenderResponse)
    → s.fields.lender_response ≡ o
    → ((wait_condition answered gs s).0 ≡ is_some (deciding o gs))
      × ((wait_condition answered gs s).1.fields.lender_response ≡ deciding o gs)
unfolding wait_condition
wait-deciding [] s none e = rw e (refl, refl)
wait-deciding [] s (some r) e = rw e (refl, refl)
wait-deciding (g ∷ gs) s (some r) e =
    let ends : answered s.fields ≡ true = ap is_some e in simp ends (refl, e)
wait-deciding (g ∷ gs) s none e =
    let rest =
      wait-deciding gs (deliver g s) (last_response none g)
        (deliver-last_response g s ∙ ap (λ o. last_response o g) e) in
    let waits : answered s.fields ≡ false = ap is_some e in simp waits rest

module _ (w : World) (i : LoanOriginationInput) (ls : List String) where
  response_over-verdict :
      (b : Bool × State) (d : Option LenderResponse)
      → b.0 ≡ is_some d
      → b.1.fields.lender_response ≡ d
      → (response_over w i ls b).0 ≡ done (verdict ls d)
  response_over-verdict (true, s) d p q = ground arith
  response_over-verdict (false, s) d p q = ground arith

  -- If `submit_to_lender` brought no offer, the run ends by the response that was there before the
  -- wait, or else by the last one of the first activation that brings any: with its offer if that is not empty, else as declined;
  -- with no response it ends by the timeout. It never raises and never goes on.
  pub await_lender-verdict :
      (r : SubmitResult) (s : State)
      → or_default r.offer_received false ≡ false
      → (await_lender w i ls r s).0
        ≡ done (verdict ls (deciding s.fields.lender_response w.lender_wait))
  unfolding await_lender
  await_lender-verdict r s e =
      let (p, q) = wait-deciding w.lender_wait s _ refl in
      rw e (response_over-verdict (wait_condition answered w.lender_wait s) _ p q)
