-- ===== src/Metrics/Tests.antt =====
-- The theorem about metrics/middleware.go at a concrete input: an answered request, one that panics, one
-- that is skipped and one that is still served.
use nexgo.Base.{ℕ, ◌+◌, ◌≡◌, refl, pos, negsuc, List, [], ◌∷◌, ◌++◌, codes, text_eq, if◌then◌else◌}
use nexgo.Metrics.Requests.{
  Request, answered, panicked, request, duration, response_size, Server, Step, arrives, leaves, run,
}
use nexgo.Metrics.Requests.InFlight.{counted, recorded, requests_in, answered_in, run-After}

abbrev user : Request
user = record { path = codes "/u/7"; full_path = codes "/u/:id"; method = codes "GET" }

abbrev nowhere : Request
nowhere = record { path = codes "/x"; full_path = []; method = codes "GET" }

abbrev probe : Request
probe = record { path = codes "/health"; full_path = codes "/health"; method = codes "GET" }

abbrev idle : Server
idle = record { metrics = record { in_flight = pos 0; observed = [] }; serving = [] }

abbrev mixed : List Step
mixed =
    arrives user
    ∷ arrives probe
    ∷ arrives nowhere
    ∷ arrives user
    ∷ leaves 3 panicked
    ∷ leaves 1 (answered 404 (negsuc 0) 5)
    ∷ leaves 1 (answered 200 (pos 2) 1)
    ∷ []

mixed_metrics : (run [] mixed idle).0.metrics ≡ record {
  in_flight = pos 1;
  observed =
      request (codes "GET") (codes "<unmatched>") (codes "404")
      ∷ duration (codes "GET") (codes "<unmatched>") 5
      ∷ response_size (codes "<unmatched>") (pos 0)
      ∷ [];
}
unfolding run nexgo.Base.format_int
mixed_metrics = refl

run-After_example :
    let (t, out) = run [] mixed idle in
    (t.metrics.in_flight ≡ pos (counted [] t.serving))
    × (t.metrics.observed ≡ [] ++ recorded [] out)
    × (requests_in t.metrics.observed ≡ 0 + answered_in [] out)
run-After_example = run-After [] mixed idle refl
