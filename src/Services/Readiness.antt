-- ===== src/Services/Readiness.antt =====
-- services/readiness.py and repositories/database_health.py: whether the database answers in time.
use pullfrog_azure.Prelude.{◌≡◌, refl, ◌↔◌, ◌⊎◌, Bool, true, false, arith}
use pullfrog_azure.Auth.Domain.{
  PyException, database_unavailable, timeout_error, os_error, integrity_error, data_error,
}
use pullfrog_azure.Outcome.{Result, ok, raise}

-- `SELECT 1`: it comes back, or the deadline of the service passes first.
pub data Query : Type 0 where
  answered : Result (Unit {0}) → Query
  late : Query

pub data ReadinessStatus : Type 0 where
  ready unavailable : ReadinessStatus

-- `except (SQLAlchemyError, OSError)`; `TimeoutError` is an `OSError`
abbrev pub is_database_error : PyException → Bool
is_database_error integrity_error = true
is_database_error data_error = true
is_database_error os_error = true
is_database_error timeout_error = true
is_database_error _ = false

abbrev caught : Bool → PyException → Result (Unit {0})
caught true e = raise database_unavailable
caught false e = raise e

unfoldable pub ping : Result (Unit {0}) → Result (Unit {0})
ping (ok u) = ok u
ping (raise e) = caught (is_database_error e) e

-- `except (DatabaseUnavailableError, TimeoutError)`
abbrev checked : Result (Unit {0}) → Result ReadinessStatus
checked (ok u) = ok ready
checked (raise database_unavailable) = ok unavailable
checked (raise timeout_error) = ok unavailable
checked (raise e) = raise e

unfoldable pub check : Query → Result ReadinessStatus
unfolding ping
check (answered r) = checked (ping r)
check late = ok unavailable

-- A query that was late, or failed as a database or connection does.
pub data IsUnavailable : Query → Type 0 where
  too_late : {q : Query} → q ≡ late → IsUnavailable q
  failed :
      {q : Query} (e : PyException)
      → q ≡ answered (raise e)
      → (is_database_error e ≡ true) ⊎ (e ≡ database_unavailable)
      → IsUnavailable q

check-ready : (q : Query) → (check q ≡ ok ready) ↔ (q ≡ answered (ok tt))
unfolding check
check-ready (answered (ok u)) = (λ h. refl, λ h. refl)
check-ready (answered (raise e)) = (λ h. absurd (ground arith), λ h. cc)
check-ready late = (λ h. cc, λ h. cc)

check-unavailable : (q : Query) → (check q ≡ ok unavailable) ↔ IsUnavailable q
unfolding check
check-unavailable late = (λ h. too_late refl, λ h. refl)
check-unavailable (answered (ok u)) = (λ h. cc, λ h. elim h [ too_late e ↦ cc | failed x e f ↦ cc ])
check-unavailable (answered (raise e)) = (
  λ h. failed e refl (ground arith),
  λ h. elim h [ too_late q ↦ cc | failed x q f ↦ let same : e ≡ x = cc in rw same (ground arith) ],
)

-- The check reports a ready database exactly when the query was answered, and an unavailable one
-- exactly when it was late or failed as a database or a connection does.
pub check-eq-ok_iff :
    (q : Query)
    → ((check q ≡ ok ready) ↔ (q ≡ answered (ok tt)))
      × ((check q ≡ ok unavailable) ↔ IsUnavailable q)
check-eq-ok_iff q = (check-ready q, check-unavailable q)
