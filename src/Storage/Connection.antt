-- ===== src/Storage/Connection.antt =====
-- The connection to the database and its migrations (internal/storage/postgres.go). The calls of the
-- pool and of the migration library are arguments.
use Prim.Native.String.{◌++◌}
use vkr_public.Base.{String, Option, none, some, ◌==◌, not, if◌then◌else◌}
use vkr_public.Startup.{then_call, bare}

-- What Up answers.
pub data Up : Type 0 where
  applied no_change : Up
  broken : String → Up

pub record PoolCalls : Type 0 where
  pub new_pool : Option String
  pub ping : Option String
  pub new_migrate : Option String
  pub up : Up

-- Nothing to apply is no error.
abbrev up_error : Up → Option String
up_error applied = none
up_error no_change = none
up_error (broken e) = some e

unfoldable pub run_migrations : PoolCalls → Option String
run_migrations calls = then_call calls.new_migrate bare (up_error calls.up)

abbrev wrapped : (String → String) → Option String → Option String
wrapped wrap none = none
wrapped wrap (some e) = some (wrap e)

-- The error of Connect. No path means no migrations.
unfoldable pub postgres_error : (migrations_path : String) → PoolCalls → Option String
unfolding run_migrations
postgres_error path calls =
    then_call calls.new_pool (λ e. "pgxpool: " ++ e)
      (then_call calls.ping (λ e. "ping: " ++ e)
        (if not (path == "")
          then wrapped (λ e. "migrations: " ++ e) (run_migrations calls)
          else none))
