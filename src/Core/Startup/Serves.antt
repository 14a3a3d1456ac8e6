-- ===== src/Core/Startup/Serves.antt =====
-- From `start_server` to `AppService::handle`: the requests that a server takes once it started.
use rayo.Dispatch.Python.{Python}
use rayo.Core.Kwargs.{Kwargs, ok as built}
use rayo.Core.Startup.{ok}
