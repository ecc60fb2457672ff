-- ===== src/Api/Thresholds.antt =====
-- The threshold store of the API (cmd/api/thresholds.go). Its fields change under a lock. A handler is
-- one step: handleSet saves and reads again outside the lock, and what two of them that overlap do to
-- each other is left out.
pub mod Accepted
pub mod Durable
use vkr_public.Base.{ℕ, String, Bool, true, false, Option, none, some, ◌||◌, if◌then◌else◌}
use vkr_public.Float64.{ltf, one_f, hundred_f, eighty_five_f, ninety_f}
use vkr_public.Json.{Json, str, obj, end, field}
use vkr_public.Http.{Reply}
use vkr_public.Warn.{Warn, decode_warn, warn_is_finite, encode_warn, all_positive}
use vkr_public.Storage.Tables.{Tables, Link, Loaded, row, failed, save_settings, load_settings}

abbrev pub key_thresholds : String
key_thresholds = "thresholds"

abbrev pub default_warn : Warn
default_warn = record { cpu_warn = eighty_five_f; mem_warn = ninety_f; disk_warn = ninety_f }

-- The store with the database that it writes to.
pub record Store : Type 0 where
  pub cfg : Warn
  pub db : Tables

abbrev usable : Option Warn → Warn
usable none = default_warn
usable (some c) = if all_positive c then c else default_warn

abbrev loaded_warn : Loaded → Warn
loaded_warn (row j) = usable (decode_warn j)
loaded_warn (failed e) = default_warn

unfoldable pub new_threshold_store : Link → Tables → Store
unfolding load_settings
new_threshold_store link db = record {
  cfg = loaded_warn (load_settings link key_thresholds db);
  db = db;
}

pub data ThresholdBody : Type 0 where
  bind_failure : ThresholdBody
  out_of_range : ThresholdBody
  thresholds : Warn → ThresholdBody

unfoldable pub handle_get : Store → Reply ThresholdBody
handle_get s = record { status = 200; body = thresholds s.cfg }

-- A threshold below 1 or above 100 is refused.
unfoldable pub is_out_of_range : Warn → Bool
is_out_of_range c =
    (ltf c.cpu_warn one_f || ltf hundred_f c.cpu_warn)
    || ((ltf c.mem_warn one_f || ltf hundred_f c.mem_warn)
        || (ltf c.disk_warn one_f || ltf hundred_f c.disk_warn))

abbrev marshalled : Warn → Option Json
marshalled c = if warn_is_finite c then some (encode_warn c) else none

-- A failure to persist is logged and not reported.
abbrev persisted : Link → Warn → Store → Store
persisted link c s = record s { db = (save_settings link key_thresholds (marshalled c) s.db).0 }

-- The reply is what the store holds after it was saved.
abbrev served : Store → Store × Reply ThresholdBody
served s = (s, record { status = 200; body = thresholds s.cfg })

abbrev apply_bound : Link → Option Warn → Store → Store × Reply ThresholdBody
apply_bound link none s = (s, record { status = 400; body = bind_failure })
apply_bound link (some c) s =
    if is_out_of_range c
    then (s, record { status = 400; body = out_of_range })
    else served (persisted link c (record s { cfg = c }))

abbrev pub bound : Option Json → Option Warn
bound none = none
bound (some j) = decode_warn j

unfoldable pub handle_set : Link → Option Json → Store → Store × Reply ThresholdBody
unfolding is_out_of_range save_settings
handle_set link body s = apply_bound link (bound body) s

-- The reply as a client reads it: its status and its JSON.
abbrev body_json : ThresholdBody → Option Json
body_json bind_failure = some (obj (field "error" (str "") end))
body_json out_of_range = some (obj (field "error" (str "thresholds must be between 1 and 100") end))
body_json (thresholds c) = marshalled c

abbrev pub response_of : Reply ThresholdBody → Option (ℕ × Option Json)
response_of r = some (r.status, body_json r.body)
