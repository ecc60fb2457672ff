-- ===== src/Lifecycle.antt =====
-- What a process does from its start to its end (the main functions of cmd/collector, cmd/aggregator,
-- cmd/api and cmd/agent): what it opens, the deferred calls that close it, and log.Fatal, which ends
-- the process at once and runs no deferred call.
pub mod Release
pub mod Left
use vkr_public.Base.{ℕ, zero, suc, String, Option, none, some, List, [], ◌∷◌, ◌++◌}

-- The context of signal.NotifyContext, the tracer provider, the pool, the connection to NATS, the
-- servers and the agent's gRPC connection.
pub data Resource : Type 0 where
  signals tracer database stream health_server http_server grpc_server grpc_connection : Resource

-- `waits` is `<-ctx.Done()`, `runs` a call that blocks, `starts` a goroutine.
pub data Act : Type 0 where
  opens closes : Resource → Act
  logs runs starts : String → Act
  waits : Act

pub data Ending : Type 0 where
  returned : Ending
  exited : String → String → Ending

pub record Main : Type 0 where
  pub acts : List Act
  pub ending : Ending

abbrev pub body : List Act → Main
body acts = record { acts = acts; ending = returned }

abbrev pub closed_at : Ending → Resource → List Act
closed_at returned r = closes r ∷ []
closed_at (exited what e) r = []

-- A resource that a deferred call closes.
unfoldable pub opening : Resource → Main → Main
opening r rest = record {
  acts = opens r ∷ rest.acts ++ closed_at rest.ending r;
  ending = rest.ending;
}

-- A resource that nothing closes.
unfoldable pub leaking : Resource → Main → Main
leaking r rest = record { acts = opens r ∷ rest.acts; ending = rest.ending }

-- A call without which the process ends.
unfoldable pub required : Option String → String → Main → Main
required none what rest = rest
required (some e) what rest = record { acts = []; ending = exited what e }

-- A goroutine that calls log.Fatal: how many acts of the rest it comes after, and the error.
pub record Crash : Type 0 where
  pub after : ℕ
  pub error : String

abbrev pub with_act : Act → Option (List Act) → Option (List Act)
with_act a none = none
with_act a (some l) = some (a ∷ l)

-- The first acts of a list, where it has more.
abbrev pub cut : ℕ → List Act → Option (List Act)
cut k [] = none
cut zero (a ∷ l) = some []
cut (suc k) (a ∷ l) = with_act a (cut k l)

abbrev pub cut_main : String → String → Option (List Act) → Main → Main
cut_main what e none rest = rest
cut_main what e (some acts) rest = record { acts = acts; ending = exited what e }

-- The rest runs beside the goroutine; a crash that comes too late is none.
unfoldable pub interrupted : String → Option Crash → Main → Main
interrupted what none rest = rest
interrupted what (some c) rest = cut_main what c.error (cut c.after rest.acts) rest
