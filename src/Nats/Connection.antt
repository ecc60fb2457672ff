-- ===== src/Nats/Connection.antt =====
-- The connection to NATS and the subscriptions (internal/nats/jetstream.go: Connect, which makes the
-- stream, and the errors of Subscribe). The calls of the library are arguments.
use Prim.Native.String.{◌++◌}
use vkr_public.Base.{String, Option, none}
use vkr_public.Startup.{then_call}

-- Connections are tried again up to ten times, two seconds apart.
pub record ConnectCalls : Type 0 where
  pub dial : Option String
  pub jetstream : Option String
  pub create_stream : Option String

unfoldable pub nats_error : ConnectCalls → Option String
nats_error calls =
    then_call calls.dial (λ e. "nats connect: " ++ e)
      (then_call calls.jetstream (λ e. "jetstream: " ++ e)
        (then_call calls.create_stream (λ e. "create stream: " ++ e) none))

-- The calls of Subscribe, which makes a durable consumer and starts to take its messages.
pub record ConsumerCalls : Type 0 where
  pub create_consumer : Option String
  pub consume : Option String

-- The error that Subscribe returns at once; without one it returns when the context is done.
unfoldable pub subscribe_error : ConsumerCalls → Option String
subscribe_error calls =
    then_call calls.create_consumer (λ e. "create consumer: " ++ e)
      (then_call calls.consume (λ e. "consume: " ++ e) none)
