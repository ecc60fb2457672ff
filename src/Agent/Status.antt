-- ===== src/Agent/Status.antt =====
-- The worst status of a heartbeat interval (cmd/agent/collector.go: raiseStatus, popStatus). Each runs
-- under the mutex, so a run of the goroutines is a list of calls.
pub mod Worst
use vkr_public.Base.{String, List, [], ◌∷◌, ◌==◌, ◌&&◌, if◌then◌else◌}

abbrev pub status_ok : String
status_ok = "ok"

abbrev pub status_warn : String
status_warn = "warn"

abbrev pub status_error : String
status_error = "error"

unfoldable pub raise_status : String → String → String
raise_status level interval_status =
    if level == status_error
    then status_error
    else if level == status_warn && interval_status == status_ok
    then status_warn
    else interval_status

-- The status that is reported, and the one that is left.
unfoldable pub pop_status : String → String × String
pop_status interval_status = (interval_status, status_ok)

unfoldable pub raise_all : List String → String → String
unfolding raise_status
raise_all [] s = s
raise_all (level ∷ levels) s = raise_all levels (raise_status level s)
