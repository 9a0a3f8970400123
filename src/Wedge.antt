-- ===== src/Wedge.antt =====
-- VDPWedgeService of services/vdp_wedge/service.py over the rules engine. `irn_matches` is the regular
-- expression of an IRN (the package re); dates are numbers, amounts hundredths; a fact of the context
-- is printed. The event that `check_kind1` builds is not published, and has no part here.
use Prim.Native.String.{count}
use project_k_platform.Prelude.{
  ℕ, String, ◌≡◌, refl, ◌⊎◌, inl, inr, Bool, true, false, ◌&&◌, ◌||◌, Option, none, some, [], ◌∷◌,
  or_default, nat_beq, arith, eq_iff, Bool-cases, if◌then◌else◌,
}
use project_k_platform.Prelude.Dict.{Dict, lookup, insert, lookup-insert_self}
use project_k_platform.Prelude.Eq.{◌==◌, string_eq, nat_eq}
use project_k_platform.Prelude.Result.{Result, ok, err, key_error, ◌>>=◌}
use project_k_platform.Rules.{Context, ZenResult, EvaluationResult, Engine, evaluate}

pub record InvoiceIngestionRequest : Type 0 where
  pub irn : String
  pub anchor_gstin : String
  pub vendor_gstin : String
  pub amount : ℕ
  pub currency : String
  pub issue_date : ℕ
  pub due_date : ℕ
  pub ims_status : String
  pub repayment_routing_active : Bool

pub record InvoiceIngestionResponse : Type 0 where
  pub invoice_id : ℕ
  pub irn : String
  pub irn_valid : Bool
  pub ims_status : String
  pub kind1_eligible : Bool
  pub kind1_outcome : Option String
  pub kind1_reason : Option String

pub record Kind1CheckResponse : Type 0 where
  pub invoice_id : ℕ
  pub outcome : String
  pub reason : String
  pub ruleset_hash : String

-- The dict of one invoice, and `self._invoices`.
pub record Invoice : Type 0 where
  pub id : ℕ
  pub request : InvoiceIngestionRequest
  pub irn_valid : Bool
  pub gstin_valid : Bool

abbrev pub Invoices : Type 0
Invoices = Dict ℕ Invoice

abbrev pub printed : Bool → String
printed true = "True"
printed false = "False"

abbrev pub kind1_context : Invoice → Context
kind1_context i =
    ("irn_valid", printed i.irn_valid)
    ∷ ("ims_status", i.request.ims_status)
    ∷ ("repayment_routing_active", printed i.request.repayment_routing_active)
    ∷ ("gstin_valid", printed i.gstin_valid)
    ∷ []

abbrev pub new_invoice : (String → Bool) → ℕ → InvoiceIngestionRequest → Invoice
new_invoice irn_matches id request = record {
  id = id;
  request = request;
  irn_valid = irn_matches request.irn;
  gstin_valid = nat_beq (count request.vendor_gstin) 15;
}

-- The three conditions under which the ruleset is evaluated at all.
abbrev pub is_candidate : Invoice → Bool
is_candidate i =
    i.irn_valid
    && ((i.request.ims_status == "accepted" || i.request.ims_status == "deemed_accepted")
        && i.request.repayment_routing_active)

abbrev pub is_pass : Option String → Bool
is_pass none = false
is_pass (some outcome) = outcome == "pass"

abbrev pub ingested : Invoice → Option String → Option String → InvoiceIngestionResponse
ingested i outcome reason = record {
  invoice_id = i.id;
  irn = i.request.irn;
  irn_valid = i.irn_valid;
  ims_status = i.request.ims_status;
  kind1_eligible = is_pass outcome;
  kind1_outcome = outcome;
  kind1_reason = reason;
}

abbrev pub checked : Invoice → EvaluationResult → Kind1CheckResponse
checked i r = record {
  invoice_id = i.id;
  outcome = or_default r.output.outcome "error";
  reason = or_default r.output.reason "evaluation_error";
  ruleset_hash = r.ruleset_hash;
}

module _ (irn_matches : String → Bool) (zen : String → Context → Option ZenResult)
    (sha256 : String → String) (engine : Engine) where
  unfoldable pub evaluate_kind1 : Invoice → Result EvaluationResult
  evaluate_kind1 i = evaluate zen sha256 engine "d0-kind1-gate" (kind1_context i)

  abbrev pub answer_ingestion : Invoice → Result EvaluationResult → Result InvoiceIngestionResponse
  answer_ingestion i (ok r) = ok (ingested i r.output.outcome r.output.reason)
  answer_ingestion i (err e) = err e

  -- The invoice is stored before the ruleset is evaluated, and stays if the evaluation raises.
  unfoldable pub ingest_invoice :
      ℕ → InvoiceIngestionRequest → Invoices → Result InvoiceIngestionResponse × Invoices
  unfolding evaluate_kind1
  ingest_invoice id request invoices =
      let i = new_invoice irn_matches id request in
      (
        if is_candidate i then answer_ingestion i (evaluate_kind1 i) else ok (ingested i none none),
        insert id i invoices,
      )

  abbrev pub check_found : Option Invoice → Result Kind1CheckResponse
  check_found none = err (key_error "Invoice not found")
  check_found (some i) = do r ← evaluate_kind1 i; ok (checked i r)

  unfoldable pub check_kind1 : ℕ → Invoices → Result Kind1CheckResponse
  unfolding evaluate_kind1
  check_kind1 id invoices = check_found (lookup id invoices)

  passing : (o : Option String) → is_pass o ≡ true → or_default o "error" ≡ "pass"
  passing none h = cc
  passing (some s) h = (eq_iff s "pass").0 h

  evaluated :
      (i : Invoice) (e : Result EvaluationResult) (r : InvoiceIngestionResponse)
      → answer_ingestion i e ≡ ok r
      → r.kind1_eligible ≡ true
      → (x : EvaluationResult) × (e ≡ ok x) × ((checked i x).outcome ≡ "pass")
  evaluated i (err x) r h k = cc
  evaluated i (ok x) r h k = (x, refl, passing x.output.outcome (ground arith))

  eligible-checked :
      (i : Invoice) (e : Result EvaluationResult) (r : InvoiceIngestionResponse)
      → (if is_candidate i then answer_ingestion i e else ok (ingested i none none)) ≡ ok r
      → r.kind1_eligible ≡ true
      → (is_candidate i ≡ true)
        × ((x : EvaluationResult) × (e ≡ ok x) × ((checked i x).outcome ≡ "pass"))
  eligible-checked i e r h k = elim (Bool-cases (is_candidate i)) [
    | inr q ↦ ground arith
    | inl q ↦ (q, evaluated i e r (ground arith) k)
  ]

-- An invoice that ingestion calls eligible has a matching IRN, is accepted or deemed accepted and has
-- its repayments routed; and a later check of it, with the same engine, answers "pass".
pub ingest_invoice-check_kind1 :
    (irn_matches : String → Bool) (zen : String → Context → Option ZenResult)
    (sha256 : String → String) (engine : Engine) (id : ℕ) (request : InvoiceIngestionRequest)
    (invoices : Invoices) {r : InvoiceIngestionResponse}
    → (ingest_invoice irn_matches zen sha256 engine id request invoices).0 ≡ ok r
    → r.kind1_eligible ≡ true
    → (irn_matches request.irn ≡ true)
      × ((request.ims_status ≡ "accepted") ⊎ (request.ims_status ≡ "deemed_accepted"))
      × (request.repayment_routing_active ≡ true)
      × (answer : Kind1CheckResponse) × (check_kind1 irn_matches zen sha256 engine id
            (ingest_invoice irn_matches zen sha256 engine id request invoices).1
          ≡ ok answer)
      × (answer.outcome ≡ "pass")
unfolding ingest_invoice check_kind1
ingest_invoice-check_kind1 irn_matches zen sha256 engine id request invoices {r} h k =
    let i = new_invoice irn_matches id request in
    let (candidate, (x, e, pass)) =
      eligible-checked irn_matches zen sha256 engine i
        (evaluate_kind1 irn_matches zen sha256 engine i) r h k in
    (
      ground arith,
      ground (
        arith,
        eq_iff request.ims_status "accepted",
        eq_iff request.ims_status "deemed_accepted",
      ),
      ground arith,
      checked i x,
      rw (lookup-insert_self id i invoices, e),
      pass,
    )
