-- ===== src/Json/Maps.antt =====
-- A map that is encoded and decoded again is the same map.
use vkr_public.Base.{
  String, ◌≡◌, refl, some, none, [], ◌∷◌, ◌++◌, append_assoc, append-nil, ap, Assoc, StringMap,
  IsDistinct, insert-middle,
}
use vkr_public.Json.Defs.{Json, fields_of, entries, encode_entries, fill, map_into, encode_map}

pub entries-fields_of : (l : Assoc Json) → entries (fields_of l) ≡ l
entries-fields_of [] = refl
entries-fields_of ((k, j) ∷ l) = ap (λ r. (k, j) ∷ r) (entries-fields_of l)

fill-encode_entries :
    (acc m : Assoc String)
    → IsDistinct (acc ++ m)
    → fill (entries (encode_entries m)) acc ≡ some (acc ++ m)
unfolding fill
fill-encode_entries acc [] h = rw append-nil
fill-encode_entries acc ((k, s) ∷ m) h =
    let moved = append_assoc acc ((k, s) ∷ []) m in
    rw (insert-middle k s acc m h, fill)
      (rw (← moved) (fill-encode_entries (acc ++ (k, s) ∷ []) m (rw moved h)))

-- The keys of a Go map are distinct.
abbrev pub IsGoMap : StringMap → Type 0
IsGoMap none = Unit
IsGoMap (some m) = IsDistinct m

pub map_into-encode_map : (m : StringMap) → IsGoMap m → map_into (encode_map m) none ≡ some m
unfolding map_into encode_map
map_into-encode_map none h = refl
map_into-encode_map (some m) h = rw (fill-encode_entries [] m h)
