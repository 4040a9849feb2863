-- ===== src/Lib.antt =====
-- A model of the core of a FastAPI application (app/ and its features): authentication, access
-- control, sessions, the database's repositories and engines, configuration, logs, and the lifecycle
-- of the process.
--
-- The parts and their files:
-- - Exceptions: app/core/exception.py, the exception classes as a data type with their status codes,
--   and `Result` for code that raises.
-- - ErrorHandlers: the attributes of an exception, and the exception handlers, the answer to unhandled
--   exceptions and the readiness check of main.py.
-- - Redis: the commands that the program sends to Redis, as an interface with laws; Redis/Memory is
--   an implementation for the examples. Stored: the values kept under the keys. Json: values of
--   claims and of session dictionaries.
-- - Tokens: app/core/security/tokens.py. PyJWT is the interface `Jwt`; Tokens/Written implements it
--   for the examples. Tokens/RoundTrip: what an issued token decodes to.
-- - RefreshStore: app/core/security/refresh_store.py; Keys and Effects: what each operation does to
--   each key.
-- - Hasher: app/core/security/password_hasher.py, over pwdlib and bcrypt as parameters.
-- - AuthService: app/features/auth/services/auth_service.py; Credentials, Accounts (registration
--   and login), Rotation (one rotation) and History (any sequence of requests and delays).
-- - Authorization: app/core/security/authorization.py and dependencies.py.
-- - UserService: app/features/user/services/user_service.py, which revokes through RefreshStore
--   and AdminSession.
-- - AdminSession: app/core/security/admin_session.py, the store and the middleware's commit.
--   Revoked and Rotated: what becomes of a session's key. Indexed: the index of a user's sessions.
-- - AdminCsrf and AdminLogin: app/features/auth/admin_auth.py, the CSRF middleware, and the login and
--   the check of each request, over RateLimiter and AuthService; AdminLogin/Fixation joins the login to
--   the commit of AdminSession.
-- - AccessLogRetention: app/features/home/services/access_log_retention_service.py.
-- - RateLimiter: app/core/security/rate_limiter.py, and its use in
--   app/features/auth/dependencies/auth_dependencies.py.
-- - Content: the services of app/features/blog, reply and sns, over one repository interface.
-- - AccessPolicy: app/core/security/access.py. ClientIp: app/core/middlewares/client_ip.py.
-- - Repository: app/core/repositories/crud_base.py and repository_base.py over SQLAlchemy's session, an
--   interface whose documented behaviour is Repository/Contract. Dependencies: app/core/db/session.py.
--   Requests: a handler as the list of the methods that it calls. Steps and Refinement: those methods are
--   the steps of a finite map; ReadOnly: sessions that refuse to write. Memory implements the interface for the examples.
-- - DbErrors: app/core/repositories/db_error_translator.py.
-- - DbRouter: app/core/db/router.py; Statement is the classifier of SQL texts.
-- - BackgroundTasks: app/core/middlewares/background_tasks.py. Resources: app/core/resources.py,
--   with Startup for manage_application_resources.
-- - Registry: app/core/registry.py, over what imports end with. Discovery: the order of the apps;
--   Wiring: the routers.
-- - Config: config.py. Hosts: addresses with ports; Routing: the URLs of the databases; Safety: the
--   checks at the start.
-- - AccessLog: app/core/middlewares/user_info_middleware.py, and what app/features/home saves of an
--   entry, over Repository and BackgroundTasks. LogFilters: app/utils/logs/filters.py.
-- - QueueLogging: app/utils/logs/queue_logging.py, the bounded queue of log records and its listener;
--   Sound: where the records are; Flushed and Full: how its stop ends.
-- - Celery: app/celery/task.py and worker_lifecycle.py, the event loop of a worker process.
-- - Reports: app/features/reports/services/report_service.py and the time zone of config.py. Catalog:
--   app/features/catalog/services/catalog_service.py, over Repository.
-- - Pagination: app/utils/pagination/pagination.py.
-- - Common: shared names, Boolean tests, lists, texts. Examples: each theorem at a concrete input.
--
-- Conventions: a method that uses Redis or a table takes the state and returns the new one
-- beside its result. The clock and the values of uuid4 and token_urlsafe are arguments. Times
-- are natural numbers, in seconds, in Resources in milliseconds. A text that the code walks is a
-- list of code points. Loops are recursions on lists, but for the purge of AccessLogRetention,
-- which runs on fuel: more than the number of rows to delete is enough. `math.ceil` of a
-- quotient of floats is exact below 2^53 items.
--
-- Not modelled: the framework's request handling, the SQL that SQLAlchemy sends, the bodies of other responses,
-- regular expressions of the redaction and other set-up of logging, the plain fields of the
-- settings, and the pages of the admin interface. The services of Content and UserService
-- take their repository as an interface of their own, in which no query fails.
pub mod Common
pub mod ErrorHandlers
pub mod Exceptions
pub mod Json
pub mod Redis
pub mod Stored
pub mod Tokens
pub mod RefreshStore
pub mod Hasher
pub mod AuthService
pub mod Pagination
pub mod ClientIp
pub mod DbErrors
pub mod AccessPolicy
pub mod DbRouter
pub mod BackgroundTasks
pub mod AdminLogin
pub mod Registry
pub mod Config
pub mod AccessLog
pub mod LogFilters
pub mod Celery
pub mod Reports
pub mod Catalog
pub mod Repository
pub mod Resources
pub mod Authorization
pub mod Content
pub mod QueueLogging
pub mod RateLimiter
pub mod UserService
pub mod AdminSession
pub mod Examples
pub mod AccessLogRetention
pub mod AdminCsrf
