-- ===== src/Tests/Steps.antt =====
-- The service in its steps.
use sufirmart.Base.{◌≡◌, some}
use sufirmart.Tools.WorkerPool.{Pool, new_pool, start}
use sufirmart.Tools.WorkerPool.Drain.{starts}
use sufirmart.Processor.Queue.{Queued}
use sufirmart.Server.{Site}
use sufirmart.Server.Init.{serve}
use sufirmart.Server.Guards.{serve_unauthorized}
use sufirmart.Server.System.{SystemRun, begin, go_on, serves, moves}
use sufirmart.Tests.Sample.{calm-IsUp}
use sufirmart.Tests.Requests.{
  container, site, asking, balance_route, no_session, asking-chosen, not_login, not_register,
}
use sufirmart.Tests.Tasks.{service}

abbrev pool : Pool Queued
pool = new_pool 5 100

abbrev at_start : Site
at_start = record site { pool = some pool }

-- A request is refused, and then the workers start.
abbrev refused_site : Site
refused_site = (serve container asking at_start).1

refused-pool : refused_site.pool ≡ some pool
refused-pool =
    (serve_unauthorized container asking at_start balance_route calm-IsUp (λ _. no_session)
      asking-chosen not_login not_register).2

abbrev working_site : Site
working_site = record refused_site { pool = some (start pool) }

started : SystemRun container service at_start working_site
started =
    go_on (go_on begin (serves at_start asking))
      (moves refused_site pool (start pool) refused-pool (starts pool))
