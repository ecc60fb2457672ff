-- ===== src/Json/Defs.antt =====
-- Trees, and decoding into a variable that already holds a value: `null` leaves it, or empties a map.
use mathlib.Core.Option
use vkr_public.Base.{
  String, Bool, Option, none, some, [], ◌∷◌, ◌==◌, if◌then◌else◌, Assoc, StringMap, insert,
}
use vkr_public.Float64.{Float64, is_finite}
use vkr_public.Instant.{Time, TimeText}

mutual
  pub data Json : Type 0 where
    null : Json
    boolean : Bool → Json
    num : Float64 → Json
    str : String → Json
    arr : Items → Json
    obj : Fields → Json

  pub data Items : Type 0 where
    nil : Items
    cons : Json → Items → Items

  pub data Fields : Type 0 where
    end : Fields
    field : String → Json → Fields → Fields

abbrev pub fields_of : Assoc Json → Fields
fields_of [] = end
fields_of ((k, j) ∷ l) = field k j (fields_of l)

abbrev pub entries : Fields → Assoc Json
entries end = []
entries (field k j fs) = (k, j) ∷ entries fs

unfoldable pub string_into : Json → String → Option String
string_into null old = some old
string_into (str s) old = some s
string_into _ old = none

-- A number whose literal is out of range is read as an infinity, and is an error.
unfoldable pub float_into : Json → Float64 → Option Float64
float_into null old = some old
float_into (num x) old = if is_finite x then some x else none
float_into _ old = none

unfoldable pub time_into : TimeText → Json → Time → Option Time
time_into clock null old = some old
time_into clock (str s) old = clock.parse s
time_into clock _ old = none

-- A nil map is made first; its entries are then replaced or added.
unfoldable pub fill : Assoc Json → Assoc String → Option (Assoc String)
fill [] m = some m
fill ((k, str s) ∷ rest) m = fill rest (insert k s m)
fill ((k, null) ∷ rest) m = fill rest (insert k "" m)
fill ((k, _) ∷ rest) m = none

abbrev held : StringMap → Assoc String
held none = []
held (some m) = m

unfoldable pub map_into : Json → StringMap → Option StringMap
map_into null old = some none
map_into (obj fs) old = Option.map some (fill (entries fs) (held old))
map_into _ old = none

abbrev pub encode_entries : Assoc String → Fields
encode_entries [] = end
encode_entries ((k, s) ∷ m) = field k (str s) (encode_entries m)

unfoldable pub encode_map : StringMap → Json
encode_map none = null
encode_map (some m) = obj (encode_entries m)

-- A field tagged `omitempty`.
abbrev pub omit_empty : String → String → Assoc Json → Assoc Json
omit_empty key value rest = if value == "" then rest else (key, str value) ∷ rest

-- The loop over the members of an object; `null` for a whole struct changes nothing.
module _ {T : Type 0} (set : String → Json → T → Option T) where
  unfoldable pub members_into : Assoc Json → T → Option T
  members_into [] x = some x
  members_into ((k, j) ∷ rest) x = Option.bind (set k j x) (members_into rest)

  unfoldable pub struct_into : Json → T → Option T
  unfolding members_into
  struct_into null x = some x
  struct_into (obj fs) x = members_into (entries fs) x
  struct_into _ x = none
