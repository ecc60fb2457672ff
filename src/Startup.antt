-- ===== src/Startup.antt =====
-- The start of a process: its calls in order, the first failure ending the process by log.Fatal. The
-- errors that the libraries report are arguments, `none` where a call succeeds. Tracing as
-- internal/otel/setup.go sets it up.
use vkr_public.Base.{◌≡◌, String, Option, none, some, ◌==◌, not, if◌then◌else◌}

-- `fatal` has the message of log.Fatal and the error.
pub data Startup {ℓ} (A : Type ℓ) : Type ℓ where
  fatal : String → String → Startup A
  running : A → Startup A

-- A call that the process cannot do without.
abbrev pub must {ℓ} : {A : Type ℓ} → Option String → String → Startup A → Startup A
must none what rest = rest
must (some e) what rest = fatal what e

-- One call and then the next, where the error of the first is wrapped.
abbrev pub then_call : Option String → (String → String) → Option String → Option String
then_call none wrap next = next
then_call (some e) wrap next = some (wrap e)

abbrev pub bare : String → String
bare e = e

-- Where the spans of the OpenTelemetry tracer go.
pub data Exporter : Type 0 where
  otlp_http : (endpoint : String) → Exporter
  stdout : Exporter

unfoldable pub build_exporter : (String → String) → Exporter
build_exporter getenv =
    if not (getenv "OTEL_EXPORTER_OTLP_ENDPOINT" == "")
    then otlp_http (getenv "OTEL_EXPORTER_OTLP_ENDPOINT")
    else stdout

-- The error of resource.New, and that of making the exporter.
unfoldable pub setup_error :
    (String → String) → Option String → (Exporter → Option String) → Option String
unfolding build_exporter
setup_error getenv resource make = then_call resource bare (make (build_exporter getenv))

-- A process that runs has come past each call.
pub must-running {ℓ} :
    {A : Type ℓ} (e : Option String) (what : String) (rest : Startup A) (a : A)
    → must e what rest ≡ running a
    → rest ≡ running a
must-running none what rest a h = h
must-running (some e) what rest a h = cc
