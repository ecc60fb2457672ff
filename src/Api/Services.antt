-- ===== src/Api/Services.antt =====
-- The list of services (cmd/api/handler.go: getServices) and its event stream (cmd/api/sse.go:
-- streamServices). The fate of each query and the tables that it meets are arguments.
pub mod Overviews
use vkr_public.Base.{
  ℕ, String, Bool, Option, none, some, List, [], ◌∷◌, ◌==◌, ◌&&◌, not, if◌then◌else◌,
}
use vkr_public.Http.{Reply}
use vkr_public.Storage.Tables.{Tables, Link}
use vkr_public.Storage.Services.{ServiceInfo, Collation, query_services}

pub data ServicesBody : Type 0 where
  query_error : String → ServicesBody
  services : List ServiceInfo → ServicesBody

abbrev services_reply : Option (List ServiceInfo) → Reply ServicesBody
services_reply none = record { status = 500; body = query_error "query failed" }
services_reply (some found) = record { status = 200; body = services found }

pub data ServicesStream : Type 0 where
  refused : ℕ → String → ServicesStream
  opened : List (List ServiceInfo) → ServicesStream

abbrev with_event : Option (List ServiceInfo) → List (List ServiceInfo) → List (List ServiceInfo)
with_event none events = events
with_event (some found) events = found ∷ events

module _ (larger_text : Collation) where
  unfoldable pub get_services : Link → Tables → Reply ServicesBody
  unfolding query_services
  get_services link db = services_reply (query_services larger_text link db)

  -- What the client receives: a query that fails writes nothing.
  unfoldable pub push_services : List (Link × Tables) → List (List ServiceInfo)
  unfolding query_services
  push_services [] = []
  push_services ((link, db) ∷ rest) =
      with_event (query_services larger_text link db) (push_services rest)

  -- The pushes are the first and one for each tick until the client leaves.
  unfoldable pub stream_services :
      (api_key query_key : String) → List (Link × Tables) → ServicesStream
  unfolding push_services
  stream_services api_key query_key pushes =
      if not (api_key == "") && not (query_key == api_key)
      then refused 401 "invalid api key"
      else opened (push_services pushes)
