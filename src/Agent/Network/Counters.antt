-- ===== src/Agent/Network/Counters.antt =====
-- The interfaces of a snapshot.
use vkr_public.Base.{
  ◌≡◌, none, List, [], ◌∷◌, ◌==◌, Assoc, lookup, insert, lookup-insert, Bool-cases, inl, inr,
}
use vkr_public.Agent.Network.{IoCounters, collect}

-- A snapshot never has the loopback interface.
collect-lo :
    (stats : List IoCounters) (m : Assoc IoCounters)
    → lookup "lo" m ≡ none
    → lookup "lo" (collect stats m) ≡ none
unfolding collect
collect-lo [] m h = h
collect-lo (s ∷ ss) m h = elim (Bool-cases (s.name == "lo")) [
  | inl e ↦ rw e (collect-lo ss m h)
  | inr e ↦ rw e (collect-lo ss (insert s.name s m) (rw lookup-insert (rw e h)))
]
