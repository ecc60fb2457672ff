-- ===== src/Agent/Hostname.antt =====
-- The name of the host (cmd/agent/client.go: hostname), which is asked for once and kept.
use vkr_public.Base.{
  not_empty, String, ◌≡◌, ◌≢◌, refl, Option, none, some, List, [], ◌∷◌, ◌==◌, if◌then◌else◌, All,
}

abbrev known : Option String → String
known none = "unknown"
known (some name) = name

-- The kept name and the answer; `asked` is what os.Hostname answers.
unfoldable pub hostname : Option String → String → String × String
hostname asked kept = if kept == "" then (known asked, known asked) else (kept, kept)

-- The answers to calls one after the other.
unfoldable pub hostnames : List (Option String) → String → List String
unfolding hostname
hostnames [] kept = []
hostnames (asked ∷ rest) kept = (hostname asked kept).1 ∷ hostnames rest (hostname asked kept).0

-- Once a name is kept, every call answers it, whatever the host is called by then.
pub hostnames_stable :
    (rest : List (Option String)) (name : String)
    → name ≢ ""
    → All (λ answer. answer ≡ name) (hostnames rest name)
unfolding hostnames
hostnames_stable [] name h = tt
hostnames_stable (asked ∷ rest) name h = rw (not_empty name h) (refl, hostnames_stable rest name h)
