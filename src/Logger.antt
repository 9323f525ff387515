-- ===== src/Logger.antt =====
-- Package logger: the configuration of logger/config.go, New of logger/logger.go, and the global logger
-- of logger/global.go. `L` is the loggers of the logging library, which builds them.
pub mod Given
mod Tests
use nexgo.Base.{
  ℕ, zero, suc, ◌+◌, Text, Bool, true, false, not, ◌||◌, Option, none, some, List, [], ◌∷◌, ◌++◌,
  Result, ok, err, codes, text_eq, if◌then◌else◌,
}
use nexgo.Base.Texts.{or_text}

pub record Config : Type 0 where
  pub level : Text
  pub encoding : Text
  pub output_paths : List Text
  pub error_output_paths : List Text

unfoldable pub default_config : Config
default_config = record {
  level = codes "info";
  encoding = codes "json";
  output_paths = codes "stdout" ∷ [];
  error_output_paths = codes "stderr" ∷ [];
}

abbrev pub valid_levels : List Text
valid_levels =
    codes "debug"
    ∷ codes "info"
    ∷ codes "warn"
    ∷ codes "error"
    ∷ codes "dpanic"
    ∷ codes "panic"
    ∷ codes "fatal"
    ∷ []

abbrev pub valid_encodings : List Text
valid_encodings = codes "json" ∷ codes "console" ∷ []

pub data LoggerError (E : Type 0) : Type 0 where
  invalid_level invalid_encoding : Text → LoggerError E
  build_failed : E → LoggerError E

-- slices.Contains
abbrev pub contains_text : List Text → Text → Bool
contains_text [] s = false
contains_text (x ∷ xs) s = text_eq x s || contains_text xs s

abbrev pub or_paths : List Text → List Text → List Text
or_paths [] d = d
or_paths (p ∷ ps) d = p ∷ ps

-- The merge at the start of New.
unfoldable pub merged : Option Config → Config
unfolding default_config
merged none = default_config
merged (some c) = record {
  level = or_text c.level default_config.level;
  encoding = or_text c.encoding default_config.encoding;
  output_paths = or_paths c.output_paths default_config.output_paths;
  error_output_paths = or_paths c.error_output_paths default_config.error_output_paths;
}

module _ {E : Type 0} where
  unfoldable pub validate : Config → Option (LoggerError E)
  validate c =
      if not (contains_text valid_levels c.level)
      then some (invalid_level c.level)
      else if not (contains_text valid_encodings c.encoding)
      then some (invalid_encoding c.encoding)
      else none

-- The global logger; whether initOnce has run; how many calls of getGlobalLogger have found nil and
-- wait for it, and how many are behind it; what the calls returned, in order; how often the default
-- logger was built.
pub record Global (L : Type 0) : Type 0 where
  pub global_logger : Option L
  pub init_done : Bool
  pub waiting : ℕ
  pub behind : ℕ
  pub answers : List (Option L)
  pub built : ℕ

-- SetGlobalLogger with a logger or nil, and the three sections of getGlobalLogger under its locks.
pub data Step (L : Type 0) : Type 0 where
  set_global : Option L → Step L
  look initialize read : Step L

module _ {L : Type 0} (default_logger : L) where
  abbrev pub looked : Option L → Global L → Global L
  looked none g = record g { waiting = suc g.waiting }
  looked (some l) g = record g { answers = g.answers ++ (some l ∷ []) }

  -- The function of initOnce: mustBuildDefaultLogger, if there is no logger.
  abbrev pub built_default : Option L → Global L → Global L
  built_default none g = record g {
    global_logger = some default_logger;
    init_done = true;
    built = suc g.built;
  }
  built_default (some l) g = record g { init_done = true }

  abbrev pub once : Bool → Global L → Global L
  once true g = g
  once false g = built_default g.global_logger g

  abbrev pub initialized : ℕ → Global L → Global L
  initialized zero g = g
  initialized (suc n) g =
      let h = once g.init_done g in record h { waiting = n; behind = suc h.behind }

  abbrev pub read_again : ℕ → Global L → Global L
  read_again zero g = g
  read_again (suc n) g = record g { behind = n; answers = g.answers ++ (g.global_logger ∷ []) }

  unfoldable pub step : Step L → Global L → Global L
  step (set_global l) g = record g { global_logger = l }
  step look g = looked g.global_logger g
  step initialize g = initialized g.waiting g
  step read g = read_again g.behind g

  unfoldable pub run : List (Step L) → Global L → Global L
  unfolding step
  run [] g = g
  run (x ∷ xs) g = run xs (step x g)

  abbrev pub made :
      {E : Type 0}
      → (L → L)
      → Option (LoggerError E)
      → Result E L
      → Global L
      → Result (LoggerError E) L × Global L
  made with_skip (some e) built g = (err e, g)
  made with_skip none (err e) g = (err (build_failed e), g)
  made with_skip none (ok l) g = (ok l, record g { global_logger = some (with_skip l) })

  -- New, where `build` is Build of the library; every valid level is one that UnmarshalText knows.
  unfoldable pub new_logger :
      {E : Type 0}
      → (Config → Result E L)
      → (L → L)
      → Option Config
      → Global L
      → Result (LoggerError E) L × Global L
  unfolding default_config merged validate
  new_logger build with_skip config g =
      made with_skip (validate (merged config)) (build (merged config)) g
