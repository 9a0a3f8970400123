-- ===== src/Sandbox/Dsr.antt =====
-- sandbox/clients/dsr_client.py: the client that answers data subject requests in the sandbox, by the
-- scenario in force, which counts the call, or by a setting. `R` is the type of a scenario's non-empty
-- responses, since an empty one counts as none.
use project_k_platform.Prelude.{String, Bool, Option, none, some, List, [], ◌∷◌, if◌then◌else◌}
use project_k_platform.Sandbox.Scenario.{ScenarioState, next_response}

-- The answers that the code itself gives; `scripted` is a response of the scenario.
pub data SandboxAnswer (R : Type 0) : Type 0 where
  scripted : R → SandboxAnswer R
  accessed : String → SandboxAnswer R
  held : SandboxAnswer R
  erased : List String → SandboxAnswer R
  pending_review : SandboxAnswer R

module _ {R : Type 0} where
  abbrev or_answer : SandboxAnswer R → Option R → SandboxAnswer R
  or_answer otherwise none = otherwise
  or_answer otherwise (some r) = scripted r

  -- The scenario's next response to the action, if a scenario is in force and it has one.
  abbrev by_scenario :
      String
      → SandboxAnswer R
      → Option (ScenarioState R)
      → SandboxAnswer R × Option (ScenarioState R)
  by_scenario action otherwise none = (otherwise, none)
  by_scenario action otherwise (some s) =
      let (response, s') = next_response action s in (or_answer otherwise response, some s')

  unfoldable pub execute_access :
      String → Option (ScenarioState R) → SandboxAnswer R × Option (ScenarioState R)
  execute_access data_principal_id = by_scenario "access_request" (accessed data_principal_id)

  -- `legal_hold` is the setting DPDP_SANDBOX_LEGAL_HOLD.
  unfoldable pub execute_erasure :
      Bool → String → Option (ScenarioState R) → SandboxAnswer R × Option (ScenarioState R)
  execute_erasure legal_hold data_principal_id =
      by_scenario "erasure_request"
        (if legal_hold then held else erased ("name" ∷ "gstin" ∷ "udyam_number" ∷ []))

  unfoldable pub execute_correction : String → SandboxAnswer R
  execute_correction data_principal_id = pending_review
