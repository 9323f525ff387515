-- ===== src/Metrics/Requests.antt =====
-- RED of metrics/middleware.go: the middleware that counts HTTP requests, around a handler that may
-- panic. Each request is served by a goroutine of its own; the moments at which one is taken up and
-- left are the steps.
pub mod InFlight
use nexgo.Base.{
  ℕ, zero, suc, ◌+◌, ◌-◌, ℤ, pos, negsuc, Text, Bool, true, false, ◌||◌, Option, none, some, List,
  [], ◌∷◌, ◌++◌, codes, text_eq, format_int, is_negative, if◌then◌else◌,
}

-- What RED reads of the gin context before the handler: the path, the template of the route, empty if
-- none matched, and the method.
pub record Request : Type 0 where
  pub path : Text
  pub full_path : Text
  pub method : Text

-- The handler's end: the status and the size of the answer, -1 if nothing was written, and the time
-- taken; or a panic.
pub data Ended : Type 0 where
  answered : ℕ → ℤ → ℕ → Ended
  panicked : Ended

-- What is observed at labels: requests at method, route and status, duration at method and route, and
-- responseSize at route.
pub data Observed : Type 0 where
  request : Text → Text → Text → Observed
  duration : Text → Text → ℕ → Observed
  response_size : Text → ℤ → Observed

-- The gauge inFlight and the observations of the other three, in order.
pub record HttpMetrics : Type 0 where
  pub in_flight : ℤ
  pub observed : List Observed

unfoldable pub unmatched_route : Text
unmatched_route = codes "<unmatched>"

unfoldable pub default_skip_paths : List Text
default_skip_paths = codes "/health" ∷ codes "/ping" ∷ codes "/metrics" ∷ []

abbrev pub holds : Text → List Text → Bool
holds s [] = false
holds s (p ∷ ps) = text_eq s p || holds s ps

unfoldable pub or_defaults : List Text → List Text
unfolding default_skip_paths
or_defaults [] = default_skip_paths
or_defaults (p ∷ ps) = p ∷ ps

-- Inc and Dec of a gauge.
abbrev pub inc : ℤ → ℤ
inc (pos n) = pos (suc n)
inc (negsuc zero) = pos 0
inc (negsuc (suc n)) = negsuc n

abbrev pub dec : ℤ → ℤ
dec (pos zero) = negsuc 0
dec (pos (suc n)) = pos n
dec (negsuc n) = negsuc (suc n)

-- Whether the path is in skipSet.
unfoldable pub is_skipped : List Text → Request → Bool
unfolding or_defaults
is_skipped skip r = holds r.path (or_defaults skip)

unfoldable pub route_label : Request → Text
unfolding unmatched_route
route_label r = elim r.full_path [ [] ↦ unmatched_route | c ∷ s ↦ c ∷ s ]

-- max(size, 0)
abbrev pub at_least_zero : ℤ → ℤ
at_least_zero n = if is_negative n then pos 0 else n

-- What stands behind c.Next.
unfoldable pub after_next : Request → Ended → List Observed
unfolding route_label
after_next r panicked = []
after_next r (answered status size time) =
    request r.method (route_label r) (format_int (pos status))
    ∷ duration r.method (route_label r) time
    ∷ response_size (route_label r) (at_least_zero size)
    ∷ []

-- RED up to c.Next, and behind it, the deferred Dec included.
unfoldable pub red_begin : List Text → Request → HttpMetrics → HttpMetrics
unfolding is_skipped
red_begin skip r m = if is_skipped skip r then m else record m { in_flight = inc m.in_flight }

unfoldable pub red_end : List Text → Request → Ended → HttpMetrics → HttpMetrics
unfolding is_skipped after_next
red_end skip r e m =
    if is_skipped skip r
    then m
    else record { in_flight = dec m.in_flight; observed = m.observed ++ after_next r e }

-- The metrics and the requests being served.
pub record Server : Type 0 where
  pub metrics : HttpMetrics
  pub serving : List Request

pub data Step : Type 0 where
  arrives : Request → Step
  leaves : ℕ → Ended → Step

abbrev pub in_front : Request → Option (Request × List Request) → Option (Request × List Request)
in_front r none = none
in_front r (some (q, rest)) = some (q, r ∷ rest)

-- A list without its element at an index, and that element.
abbrev pub take_out : ℕ → List Request → Option (Request × List Request)
take_out i [] = none
take_out zero (r ∷ rs) = some (r, rs)
take_out (suc i) (r ∷ rs) = in_front r (take_out i rs)

module _ (skip : List Text) where
  unfoldable pub left :
      Ended → Option (Request × List Request) → Server → Server × List (Request × Ended)
  unfolding red_end
  left e none s = (s, [])
  left e (some (r, rest)) s =
      (record { metrics = red_end skip r e s.metrics; serving = rest }, (r, e) ∷ [])

  unfoldable pub step : Step → Server → Server × List (Request × Ended)
  unfolding red_begin left
  step (arrives r) s =
      (record { metrics = red_begin skip r s.metrics; serving = r ∷ s.serving }, [])
  step (leaves i e) s = left e (take_out i s.serving) s

  -- The server after these steps, and the requests that were left, in order.
  unfoldable pub run : List Step → Server → Server × List (Request × Ended)
  unfolding step
  run [] s = (s, [])
  run (x ∷ xs) s = let (s', out) = step x s in let (t, outs) = run xs s' in (t, out ++ outs)
