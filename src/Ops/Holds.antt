-- ===== src/Ops/Holds.antt =====
-- The hold of ops_api.py against the workflow that services/borrower_gateway/app.py starts.
use project_k_platform.Prelude.{String, Option, List, [], ◌∷◌}
use project_k_platform.Prelude.Result.{Result}
use project_k_platform.Ops.{Effect, signalled, published}

-- The signals among the effects: workflow, name and argument.
abbrev pub signals : List Effect → List (String × String × Option String)
signals [] = []
signals (signalled w name arg ∷ es) = (w, name, arg) ∷ signals es
signals (published m ∷ es) = signals es
