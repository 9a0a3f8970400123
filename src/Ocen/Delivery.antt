-- ===== src/Ocen/Delivery.antt =====
-- What `submit_loan_application` of libs/ocen_client/network_client.py sends to the lenders and reports
-- of them.
use project_k_platform.Prelude.{ℕ, String, ◌≡◌, refl, true, List, [], ◌∷◌, ◌++◌, map, ◌∙◌, ap}
use project_k_platform.Prelude.Result.{Result, ok, err, is_ok}
use project_k_platform.Integrations.{Method}
use project_k_platform.Ocen.{
  ProductData, LoanApplication, CreateLoanApplicationRequest, OcenAckResponse, ParticipantDetail,
  ProductNetworkDetail,
}
use project_k_platform.Ocen.Network.{
  HeartbeatEventType, HeartbeatEvent, Request, get_registry, post_loan_request, post_heartbeat,
  Network, send_event, sent_with, emit_heartbeat, lender_url, participants_url, looked_up,
  get_product_network_participants, report, acks_of, submit_to, submit_through, submit_with,
  submit_loan_application,
}

-- The posts to lenders among the requests.
abbrev pub loan_requests : List Request → List Request
loan_requests [] = []
loan_requests (post_loan_request u b t s ∷ rs) = post_loan_request u b t s ∷ loan_requests rs
loan_requests (get_registry u t ∷ rs) = loan_requests rs
loan_requests (post_heartbeat e t ∷ rs) = loan_requests rs

-- The heartbeats among the requests: whose, of which application, and with which code.
abbrev pub heartbeats : List Request → List (String × String × ℕ)
heartbeats [] = []
heartbeats (post_heartbeat e t ∷ rs) =
    (e.role_id, e.loan_application_id, e.response_code) ∷ heartbeats rs
heartbeats (get_registry u t ∷ rs) = heartbeats rs
heartbeats (post_loan_request u b t s ∷ rs) = heartbeats rs

loan_requests-append :
    (rs qs : List Request) → loan_requests (rs ++ qs) ≡ loan_requests rs ++ loan_requests qs
loan_requests-append [] qs = refl
loan_requests-append (post_loan_request u b t s ∷ rs) qs =
    ap (λ x. post_loan_request u b t s ∷ x) (loan_requests-append rs qs)
loan_requests-append (get_registry u t ∷ rs) qs = loan_requests-append rs qs
loan_requests-append (post_heartbeat e t ∷ rs) qs = loan_requests-append rs qs

heartbeats-append : (rs qs : List Request) → heartbeats (rs ++ qs) ≡ heartbeats rs ++ heartbeats qs
heartbeats-append [] qs = refl
heartbeats-append (post_heartbeat e t ∷ rs) qs =
    ap (λ x. (e.role_id, e.loan_application_id, e.response_code) ∷ x) (heartbeats-append rs qs)
heartbeats-append (get_registry u t ∷ rs) qs = heartbeats-append rs qs
heartbeats-append (post_loan_request u b t s ∷ rs) qs = heartbeats-append rs qs

module _ {S : Type 0} (get_bearer_token : Method S String) where
  loan_requests-sent_with :
      (e : HeartbeatEvent) (token : Result String) (rs : List Request)
      → loan_requests (sent_with get_bearer_token e token ++ rs) ≡ loan_requests rs
  loan_requests-sent_with e (ok token) rs = refl
  loan_requests-sent_with e (err x) rs = refl

  heartbeats-sent_with :
      (e : HeartbeatEvent) (token : Result String) (rs : List Request)
      → is_ok token ≡ true
      → heartbeats (sent_with get_bearer_token e token ++ rs)
        ≡ (e.role_id, e.loan_application_id, e.response_code) ∷ heartbeats rs
  heartbeats-sent_with e (ok token) rs h = refl
  heartbeats-sent_with e (err x) rs h = cc

  loan_requests-emit_heartbeat :
      (t : HeartbeatEventType) (p : ProductData) (apps : List LoanApplication) (code : ℕ)
      (text id : String) (s : S)
      → loan_requests (emit_heartbeat get_bearer_token t p apps code text id s).1 ≡ []
  unfolding emit_heartbeat send_event
  loan_requests-emit_heartbeat t p [] code text id s = refl
  loan_requests-emit_heartbeat t p (app ∷ apps) code text id s =
      loan_requests-sent_with _ (get_bearer_token s).0 _
      ∙ loan_requests-emit_heartbeat t p apps code text id (get_bearer_token s).1

  heartbeats-emit_heartbeat :
      ((s : S) → is_ok (get_bearer_token s).0 ≡ true)
      → (t : HeartbeatEventType) (p : ProductData) (apps : List LoanApplication) (code : ℕ)
        (text id : String) (s : S)
      → heartbeats (emit_heartbeat get_bearer_token t p apps code text id s).1
        ≡ map (λ app. (id, app.loan_application_id, code)) apps
  unfolding emit_heartbeat send_event
  heartbeats-emit_heartbeat available t p [] code text id s = refl
  heartbeats-emit_heartbeat available t p (app ∷ apps) code text id s =
      heartbeats-sent_with _ (get_bearer_token s).0 _ (available s)
      ∙ ap (λ x. (id, app.loan_application_id, code) ∷ x)
          (heartbeats-emit_heartbeat available t p apps code text id (get_bearer_token s).1)

  module _ (net : Network) (request : CreateLoanApplicationRequest) where
    -- The acknowledgements of the lenders that answer, in the network's order.
    abbrev pub acknowledged : List ParticipantDetail → List OcenAckResponse
    acknowledged [] = []
    acknowledged (l ∷ ls) = acks_of (net.answer (lender_url l)) ++ acknowledged ls

    -- The one post to each lender.
    abbrev pub posted_to : String → String → List ParticipantDetail → List Request
    posted_to token signature =
        map (λ l. post_loan_request (lender_url l) (net.model_dump_json request) token signature)

    abbrev pub code_of : Result OcenAckResponse → ℕ
    code_of (ok ack) = 200
    code_of (err e) = 500

    -- A report of each lender on each application, 200 if it answered and else 500.
    abbrev pub reported : List ParticipantDetail → List (String × String × ℕ)
    reported [] = []
    reported (l ∷ ls) =
        map (λ app. (l.id, app.loan_application_id, code_of (net.answer (lender_url l))))
          request.loan_applications
        ++ reported ls

    loan_requests-report :
        (id : String) (a : Result OcenAckResponse) (s : S)
        → loan_requests (report get_bearer_token net request id a s).1 ≡ []
    unfolding report
    loan_requests-report id (ok ack) s =
        loan_requests-emit_heartbeat _ _ request.loan_applications _ _ _ s
    loan_requests-report id (err e) s =
        loan_requests-emit_heartbeat _ _ request.loan_applications _ _ _ s

    heartbeats-report :
        ((s : S) → is_ok (get_bearer_token s).0 ≡ true)
        → (id : String) (a : Result OcenAckResponse) (s : S)
        → heartbeats (report get_bearer_token net request id a s).1
          ≡ map (λ app. (id, app.loan_application_id, code_of a)) request.loan_applications
    unfolding report
    heartbeats-report available id (ok ack) s =
        heartbeats-emit_heartbeat available _ _ request.loan_applications _ _ _ s
    heartbeats-report available id (err e) s =
        heartbeats-emit_heartbeat available _ _ request.loan_applications _ _ _ s

    submit_to-sent :
        (token signature : String) (ls : List ParticipantDetail) (s : S)
        → let (acks, s', sent) = submit_to get_bearer_token net request token signature ls s in
          (acks ≡ acknowledged ls) × (loan_requests sent ≡ posted_to token signature ls)
    unfolding submit_to
    submit_to-sent token signature [] s = (refl, refl)
    submit_to-sent token signature (l ∷ ls) s =
        let s' = (report get_bearer_token net request l.id (net.answer (lender_url l)) s).0 in
        let later = submit_to-sent token signature ls s' in
        (
          ap (λ x. acks_of (net.answer (lender_url l)) ++ x) later.0,
          ap
              (λ x.
                post_loan_request (lender_url l) (net.model_dump_json request) token signature ∷ x)
              (loan_requests-append
                  (report get_bearer_token net request l.id (net.answer (lender_url l)) s).1 _
                ∙ rw (loan_requests-report l.id (net.answer (lender_url l)) s) later.1),
        )

    submit_to-heartbeats :
        ((s : S) → is_ok (get_bearer_token s).0 ≡ true)
        → (token signature : String) (ls : List ParticipantDetail) (s : S)
        → heartbeats (submit_to get_bearer_token net request token signature ls s).2 ≡ reported ls
    unfolding submit_to
    submit_to-heartbeats available token signature [] s = refl
    submit_to-heartbeats available token signature (l ∷ ls) s =
        heartbeats-append (report get_bearer_token net request l.id (net.answer (lender_url l)) s).1
          _
        ∙ rw
            (
              heartbeats-report available l.id (net.answer (lender_url l)) s,
              submit_to-heartbeats available token signature ls
                  (report get_bearer_token net request l.id (net.answer (lender_url l)) s).0,
            )
            refl

    -- If a bearer token can always be had and the registry answers with a product network, the client
    -- returns the acknowledgements of the lenders that answer, in the network's order. Each lender is
    -- posted the same signed body under the first token once, in order, whether or not others fail,
    -- and the analytics endpoint is told of each lender and each loan application once, with code
    -- 200 if the lender answered and else 500.
    pub submit_loan_application-sent :
        (base_url : String) (s : S) (network : ProductNetworkDetail)
        → ((s : S) → is_ok (get_bearer_token s).0 ≡ true)
        → net.participants (participants_url base_url request.product_data.product_network_id)
          ≡ ok network
        → let (result, s', sent) =
            submit_loan_application get_bearer_token net request base_url s in
          (result ≡ ok (acknowledged network.lenders))
          × (heartbeats sent ≡ reported network.lenders)
          × ((token : String) × ((get_bearer_token s).0 ≡ ok token)
              × (loan_requests sent
                  ≡ posted_to token (net.sign (net.model_dump_json request)) network.lenders))
    unfolding submit_loan_application submit_with submit_through get_product_network_participants
    submit_loan_application-sent base_url s network available h =
        first (get_bearer_token s).0 refl (available s)
      where
        s1 : S
        s1 = (get_bearer_token s).1

        -- With the token, and a second one for the registry.
        second :
            (token : String) (t : Result String)
            → (get_bearer_token s).0 ≡ ok token
            → is_ok t ≡ true
            → let (result, s', sent) = submit_through get_bearer_token net request token (
              looked_up get_bearer_token net.participants
                  (participants_url base_url request.product_data.product_network_id)
                  t,
              (get_bearer_token s1).1,
            ) in
              (result ≡ ok (acknowledged network.lenders))
              × (heartbeats sent ≡ reported network.lenders)
              × ((token : String) × ((get_bearer_token s).0 ≡ ok token)
                  × (loan_requests sent
                      ≡ posted_to token (net.sign (net.model_dump_json request)) network.lenders))
        second token (err e) had k = cc
        second token (ok t) had k =
            let done =
              submit_to-sent token (net.sign (net.model_dump_json request)) network.lenders
                (get_bearer_token s1).1 in
            rw h (
              ap ok done.0,
              submit_to-heartbeats available token _ network.lenders _,
              (token, had, done.1),
            )

        first :
            (t : Result String)
            → (get_bearer_token s).0 ≡ t
            → is_ok t ≡ true
            → let (result, s', sent) = submit_with get_bearer_token net request base_url t s1 in
              (result ≡ ok (acknowledged network.lenders))
              × (heartbeats sent ≡ reported network.lenders)
              × ((token : String) × ((get_bearer_token s).0 ≡ ok token)
                  × (loan_requests sent
                      ≡ posted_to token (net.sign (net.model_dump_json request)) network.lenders))
        first (err e) had k = cc
        first (ok token) had k = second token (get_bearer_token s1).0 had (available s1)
