-- ===== src/App/Logout.antt =====
-- A logout through the application, and every later request with the session's cookie.
use pullfrog_azure.Api.AuthCookies.Jar.{Jar}
use pullfrog_azure.App.Served.{Served}
use pullfrog_azure.Platform.{Platform}
use pullfrog_azure.Repositories.AdminSessions.Laws as Sessions
