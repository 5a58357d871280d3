-- ===== src/Repositories/AdminSessions/Refined.antt =====
-- That the session repository answers like the abstract store.
use pullfrog_azure.Repositories.AdminSessions
use pullfrog_azure.Repositories.AdminSessions.{
  AdminSessionRecord, NewAdminSession, new_row, too_long, by_digest, by_id, is_inactive, touched,
  touch_active, check_stored, get_active_and_touch,
}
