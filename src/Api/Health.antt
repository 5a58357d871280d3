-- ===== src/Api/Health.antt =====
-- api/routes/health.py: liveness, and readiness by the check of the database.
use pullfrog_azure.Api.AuthCookies.{Response, status_text}
use pullfrog_azure.Api.Routes.{reply}
use pullfrog_azure.Outcome.{Result, ok, ◌>>=◌}
use pullfrog_azure.Services.Readiness.{ReadinessStatus, ready, unavailable, Query, check}

unfoldable pub liveness : Response
liveness = reply 200 (status_text "ok")

abbrev pub readiness_response : ReadinessStatus → Response
readiness_response ready = reply 200 (status_text "ready")
readiness_response unavailable = reply 503 (status_text "unavailable")

unfoldable pub readiness : Query → Result Response
readiness query = check query >>= λ status. ok (readiness_response status)
