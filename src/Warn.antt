-- ===== src/Warn.antt =====
-- The warn thresholds and their JSON: ThresholdConfig of cmd/api/thresholds.go, and the struct that
-- the agent decodes in cmd/agent/config_poller.go.
pub mod Laws
use mathlib.Core.Option
use vkr_public.Base.{String, Bool, Option, some, List, [], ◌∷◌, ◌==◌, ◌&&◌, if◌then◌else◌, Assoc}
use vkr_public.Float64.{Float64, is_finite, ltf, zero_f}
use vkr_public.Json.{Json, num, obj, fields_of, float_into, struct_into}

pub record Warn : Type 0 where
  pub cpu_warn : Float64
  pub mem_warn : Float64
  pub disk_warn : Float64

abbrev pub zero_warn : Warn
zero_warn = record { cpu_warn = zero_f; mem_warn = zero_f; disk_warn = zero_f }

unfoldable pub set_warn : String → Json → Warn → Option Warn
set_warn k j c =
    if k == "cpu_warn"
    then Option.map (λ v. record c { cpu_warn = v }) (float_into j c.cpu_warn)
    else if k == "mem_warn"
    then Option.map (λ v. record c { mem_warn = v }) (float_into j c.mem_warn)
    else if k == "disk_warn"
    then Option.map (λ v. record c { disk_warn = v }) (float_into j c.disk_warn)
    else some c

unfoldable pub decode_warn : Json → Option Warn
unfolding set_warn
decode_warn j = struct_into set_warn j zero_warn

-- json.Marshal refuses a value that is not finite.
unfoldable pub warn_is_finite : Warn → Bool
warn_is_finite c = is_finite c.cpu_warn && (is_finite c.mem_warn && is_finite c.disk_warn)

abbrev pub encode_warn : Warn → Json
encode_warn c = obj (
    fields_of (
      ("cpu_warn", num c.cpu_warn)
      ∷ ("mem_warn", num c.mem_warn)
      ∷ ("disk_warn", num c.disk_warn)
      ∷ []))

-- `cfg.CPUWarn > 0 && cfg.MemWarn > 0 && cfg.DiskWarn > 0`
unfoldable pub all_positive : Warn → Bool
all_positive c = ltf zero_f c.cpu_warn && (ltf zero_f c.mem_warn && ltf zero_f c.disk_warn)
