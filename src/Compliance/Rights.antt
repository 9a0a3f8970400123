-- ===== src/Compliance/Rights.antt =====
-- DSRFulfillmentWorkflow with its three activities, and `submit_dsr`.
use project_k_platform.Prelude.{
  ℕ, ◌+◌, String, ◌≡◌, ◌≢◌, ◌⊎◌, refl, Bool, true, false, ◌||◌, Option, none, some, List, [], ◌∷◌,
  arith, eq_iff, Bool-cases, any, if◌then◌else◌, inl, inr,
}
use Prim.Native.String.{◌++◌}
use project_k_platform.Prelude.Eq.{◌==◌, string_eq}
use project_k_platform.Prelude.Result.{http_exception, Result, ok, err}
use project_k_platform.Db.{Db}
use project_k_platform.Db.DataSource.{Collected, collect, Erasure, erased, legal_hold_active, erase}

pub record DsrInput : Type 0 where
  pub request_id : String
  pub data_principal_id : String
  pub right_type : String

-- The `result` part of the workflow's answer.
pub data RightResult : Type 0 where
  access_fulfilled : Collected → RightResult
  erasure_fulfilled : RightResult
  erasure_held : RightResult
  pending_review : RightResult
  unsupported : String → RightResult

pub record DsrAnswer : Type 0 where
  pub request_id : String
  pub right_type : String
  pub result : RightResult

-- An activity or a workflow over the database: its result, or an exception, and the tables after it.
abbrev pub OnDb : Type 0 → Type 0
OnDb A = Db → Result A × Db

abbrev access_result : Result Collected → Result RightResult
access_result (ok data_) = ok (access_fulfilled data_)
access_result (err e) = err e

unfoldable pub execute_access_right : DsrInput → OnDb RightResult
execute_access_right input db = (access_result (collect input.data_principal_id db), db)

-- `"fulfilled" if result.get("erased") else "held"`
abbrev erasure_result : Result Erasure × Db → Result RightResult × Db
erasure_result (ok erased, db) = (ok erasure_fulfilled, db)
erasure_result (ok legal_hold_active, db) = (ok erasure_held, db)
erasure_result (err e, db) = (err e, db)

abbrev pub answered : DsrInput → Result RightResult × Db → Result DsrAnswer × Db
answered input (ok r, db) =
    (ok (record { request_id = input.request_id; right_type = input.right_type; result = r }), db)
answered input (err e, db) = (err e, db)

unfoldable pub execute_correction_right : DsrInput → OnDb RightResult
execute_correction_right input db = (ok pending_review, db)

module _ (sha256 : String → String) (now : ℕ) where
  unfoldable pub execute_erasure_right : DsrInput → OnDb RightResult
  execute_erasure_right input db = erasure_result (erase sha256 now input.data_principal_id db)

  -- `DSRFulfillmentWorkflow.run`
  unfoldable pub fulfil : DsrInput → OnDb DsrAnswer
  unfolding execute_access_right execute_erasure_right execute_correction_right
  fulfil input db = answered input (
      if input.right_type == "access"
      then execute_access_right input db
      else if input.right_type == "erasure"
      then execute_erasure_right input db
      else if input.right_type == "correction"
      then execute_correction_right input db
      else (ok (unsupported input.right_type), db))

abbrev pub valid_types : List String
valid_types = "access" ∷ "erasure" ∷ "correction" ∷ "grievance" ∷ "nomination" ∷ []

pub record DsrSubmitted : Type 0 where
  pub request_id : String
  pub status : String
  pub sla_deadline : ℕ
  pub workflow_id : String

-- `submit_dsr`: `request_id` is the new uuid, `now` the clock in seconds, and `started` says whether
-- the workflow could be started. Beside the response stands the input that was handed to Temporal.
unfoldable pub submit_dsr :
    String → ℕ → Bool → String → String → Result DsrSubmitted × Option DsrInput
submit_dsr request_id now started data_principal_id right_type =
    if any (λ t. right_type == t) valid_types
    then if started
      then (
        ok (record {
          request_id = request_id;
          status = "submitted";
          sla_deadline = now + 259200;
          workflow_id = "dsr-" ++ right_type ++ "-" ++ request_id;
        }),
        some (record {
          request_id = request_id;
          data_principal_id = data_principal_id;
          right_type = right_type;
        }),
      )
      else (err (http_exception 500 "Failed to start DSR workflow"), none)
    else (err (http_exception 400 "Invalid right_type"), none)

-- The loop of `get_dsr_status` over the right types. `describe` gives the name of a workflow's status,
-- "running" if it has none, or `none` if the call raises.
unfoldable pub find_status :
    (String → Option String) → String → List String → Result (String × String)
find_status describe request_id [] = err (http_exception 404 "DSR request not found")
find_status describe request_id (t ∷ ts) = elim (describe ("dsr-" ++ t ++ "-" ++ request_id)) [
  | some status ↦ ok (status, t)
  | none ↦ find_status describe request_id ts
]

unfoldable pub get_dsr_status : (String → Option String) → String → Result (String × String)
unfolding find_status
get_dsr_status describe request_id = find_status describe request_id valid_types

abbrev pub is_unsupported : Result DsrAnswer → Bool
is_unsupported (ok a) = elim a.result [ unsupported t ↦ true | _ ↦ false ]
is_unsupported (err e) = false

-- The input that an accepted request hands over.
submit_dsr-input :
    (request_id principal right_type : String) (now : ℕ) {input : DsrInput}
    → (submit_dsr request_id now true principal right_type).1 ≡ some input
    → (any (λ t. right_type == t) valid_types ≡ true)
      × (record { request_id = request_id; data_principal_id = principal; right_type = right_type }
          ≡ input)
unfolding submit_dsr
submit_dsr-input request_id principal right_type now h =
    elim (Bool-cases (any (λ t. right_type == t) valid_types)) [
      | inl e ↦ (e, ground arith)
      | inr e ↦ ground arith
    ]

valid_types-cases :
    (t : String)
    → any (λ v. t == v) valid_types ≡ true
    → (t ≡ "access")
      ⊎ ((t ≡ "erasure") ⊎ ((t ≡ "correction") ⊎ ((t ≡ "grievance") ⊎ (t ≡ "nomination"))))
valid_types-cases t h = ground (
  arith,
  eq_iff t "access",
  eq_iff t "erasure",
  eq_iff t "correction",
  eq_iff t "grievance",
  eq_iff t "nomination",
)

access-supported :
    (i : DsrInput) (r : Result Collected) (db : Db)
    → is_unsupported (answered i (access_result r, db)).0 ≡ false
access-supported i (ok x) db = refl
access-supported i (err e) db = refl

access-db :
    (i : DsrInput) (r : Result Collected) (db : Db) → (answered i (access_result r, db)).1 ≡ db
access-db i (ok x) db = refl
access-db i (err e) db = refl

erasure-supported :
    (i : DsrInput) (r : Result Erasure × Db)
    → is_unsupported (answered i (erasure_result r)).0 ≡ false
erasure-supported i (ok erased, db) = refl
erasure-supported i (ok legal_hold_active, db) = refl
erasure-supported i (err e, db) = refl

-- What the workflow answers to each right that the endpoint knows.
abbrev pub Answers : (String → String) → ℕ → DsrInput → Db → Type 0
Answers sha256 now input db =
    (is_unsupported (fulfil sha256 now input db).0
      ≡ (input.right_type == "grievance" || input.right_type == "nomination"))
    × (input.right_type ≢ "erasure" → (fulfil sha256 now input db).1 ≡ db)

fulfil-Answers :
    (sha256 : String → String) (request_id principal t : String) (now : ℕ) (db : Db)
    → any (λ v. t == v) valid_types ≡ true
    → Answers sha256 now
        (record { request_id = request_id; data_principal_id = principal; right_type = t })
        db
unfolding fulfil
fulfil-Answers sha256 request_id principal t now db h =
    let i : String → DsrInput =
      λ r. record { request_id = request_id; data_principal_id = principal; right_type = r } in
    elim (valid_types-cases t h) [
      | inl e ↦ rw e (access-supported (i "access") _ db, λ _. access-db (i "access") _ db)
      | inr (inl e) ↦ rw e (erasure-supported (i "erasure") _, λ n. absurd (n refl))
      | inr (inr (inl e)) ↦ rw e (refl, λ _. refl)
      | inr (inr (inr (inl e))) ↦ rw e (refl, λ _. refl)
      | inr (inr (inr (inr e))) ↦ rw e (refl, λ _. refl)
    ]

-- A request that the endpoint accepts starts a workflow that answers "unsupported" exactly if its
-- right is a grievance or a nomination; then, and for access and correction requests, the tables are
-- unchanged.
pub submit_dsr-fulfil :
    (sha256 : String → String) (request_id principal right_type : String) (now later : ℕ) (db : Db)
    {input : DsrInput}
    → (submit_dsr request_id now true principal right_type).1 ≡ some input
    → Answers sha256 later input db
submit_dsr-fulfil sha256 request_id principal right_type now later db h =
    let (valid, e) = submit_dsr-input request_id principal right_type now h in
    rw (← e) (fulfil-Answers sha256 request_id principal right_type later db valid)
