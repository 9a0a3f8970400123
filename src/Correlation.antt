-- ===== src/Correlation.antt =====
-- CorrelationIdMiddleware of libs/common/middleware.py, with the context variable of logging.py: the
-- identifier that a request and its response share. `fresh` is a new uuid's text.
use project_k_platform.Prelude.{String, ◌≡◌, Option, none, some, if◌then◌else◌}
use project_k_platform.Prelude.Dict.{Dict, lookup, insert, lookup-insert_self}
use project_k_platform.Prelude.Eq.{◌==◌, string_eq}

abbrev pub correlation_id_header : String
correlation_id_header = "X-Correlation-ID"

-- The request's identifier, unless it has none or an empty one.
unfoldable pub correlation_id : Option String → String → String
correlation_id none fresh = fresh
correlation_id (some incoming) fresh = if incoming == "" then fresh else incoming

-- `call_next` answers, under a value of the context variable, with the headers of its response.
unfoldable pub dispatch :
    (String → Dict String String) → Option String → String → Dict String String
unfolding correlation_id
dispatch call_next incoming fresh =
    let cid = correlation_id incoming fresh in insert correlation_id_header cid (call_next cid)

-- The response names the identifier under which the request was handled.
pub dispatch-correlation_id :
    (call_next : String → Dict String String) (incoming : Option String) (fresh : String)
    → lookup correlation_id_header (dispatch call_next incoming fresh)
      ≡ some (correlation_id incoming fresh)
unfolding dispatch
dispatch-correlation_id call_next incoming fresh =
    lookup-insert_self correlation_id_header (correlation_id incoming fresh)
      (call_next (correlation_id incoming fresh))
