-- ===== src/Logger/Given.antt =====
-- What the global logger of logger/global.go gives its callers.
use nexgo.Base.{
  ℕ, zero, suc, ◌≤◌, ◌≡◌, refl, ap, sym, subst, Bool, true, false, Option, none, some, List, [],
  ◌∷◌, ◌++◌, arith, All, All-append, is_some,
}
use nexgo.Logger.{
  Global, Step, set_global, look, initialize, read, looked, built_default, once, initialized,
  read_again, step, run,
}

module _ {L : Type 0} (default_logger : L) where
  -- No call of SetGlobalLogger is given nil.
  abbrev pub IsGiven : Step L → Type 0
  IsGiven (set_global none) = ⊥
  IsGiven _ = Unit

  -- A call is behind initOnce only if that has run, and then there is a logger; the default was built
  -- once at most, by initOnce; every answer is a logger.
  record Sound (g : Global L) : Type 0 where
    pub after_init : g.init_done ≡ true → is_some g.global_logger ≡ true
    pub behind_init : g.init_done ≡ false → g.behind ≡ 0
    pub built_once : g.built ≤ 1
    pub built_by_init : g.init_done ≡ false → g.built ≡ 0
    pub answered : All (λ (o : Option L). is_some o ≡ true) g.answers

  looked-Sound : (o : Option L) (g : Global L) → Sound g → Sound (looked default_logger o g)
  looked-Sound none g s = record {
    after_init = s.after_init;
    behind_init = s.behind_init;
    built_once = s.built_once;
    built_by_init = s.built_by_init;
    answered = s.answered;
  }
  looked-Sound (some l) g s = record {
    after_init = s.after_init;
    behind_init = s.behind_init;
    built_once = s.built_once;
    built_by_init = s.built_by_init;
    answered = All-append _ g.answers (some l ∷ []) s.answered (refl, tt);
  }

  -- Behind initOnce.
  abbrev IsReady : Global L → Global L → Type 0
  IsReady g h =
      (h.init_done ≡ true)
      × (is_some h.global_logger ≡ true)
      × (h.built ≤ 1)
      × (h.answers ≡ g.answers)

  once-IsReady :
      (b : Bool) (g : Global L) → g.init_done ≡ b → Sound g → IsReady g (once default_logger b g)
  once-IsReady true g e s = (e, s.after_init e, s.built_once, refl)
  once-IsReady false g e s = with_logger g.global_logger refl
    where
      with_logger :
          (o : Option L) → g.global_logger ≡ o → IsReady g (built_default default_logger o g)
      with_logger none q = (refl, refl, omega (arith, s.built_by_init e), refl)
      with_logger (some l) q = (refl, ap is_some q, s.built_once, refl)

  initialized-Sound : (n : ℕ) (g : Global L) → Sound g → Sound (initialized default_logger n g)
  initialized-Sound zero g s = s
  initialized-Sound (suc n) g s =
      let (done, given, built, same) = once-IsReady g.init_done g refl s in
      record {
        after_init = λ e. given;
        behind_init = λ e. cc;
        built_once = built;
        built_by_init = λ e. cc;
        answered = subst (All (λ (o : Option L). is_some o ≡ true)) (sym same) s.answered;
      }

  behind-init_done :
      (b : Bool) (n : ℕ) (g : Global L)
      → g.init_done ≡ b
      → g.behind ≡ suc n
      → Sound g
      → g.init_done ≡ true
  behind-init_done true n g e q s = e
  behind-init_done false n g e q s =
      let z : g.behind ≡ 0 = s.behind_init e in absurd (omega (arith, z, q))

  read-Sound :
      (n : ℕ) (g : Global L) → g.behind ≡ n → Sound g → Sound (read_again default_logger n g)
  read-Sound zero g q s = s
  read-Sound (suc n) g q s =
      let done = behind-init_done g.init_done n g refl q s in
      record {
        after_init = s.after_init;
        behind_init = λ e. cc;
        built_once = s.built_once;
        built_by_init = s.built_by_init;
        answered = All-append _ g.answers (g.global_logger ∷ []) s.answered (s.after_init done, tt);
      }

  step-Sound : (x : Step L) (g : Global L) → IsGiven x → Sound g → Sound (step default_logger x g)
  unfolding step
  step-Sound (set_global none) g h s = absurd h
  step-Sound (set_global (some l)) g h s = record {
    after_init = λ e. refl;
    behind_init = s.behind_init;
    built_once = s.built_once;
    built_by_init = s.built_by_init;
    answered = s.answered;
  }
  step-Sound look g h s = looked-Sound g.global_logger g s
  step-Sound initialize g h s = initialized-Sound g.waiting g s
  step-Sound read g h s = read-Sound g.behind g refl s

  run-Sound :
      (xs : List (Step L)) (g : Global L)
      → All IsGiven xs
      → Sound g
      → Sound (run default_logger xs g)
  unfolding run
  run-Sound [] g h s = s
  run-Sound (x ∷ xs) g h s = run-Sound xs (step default_logger x g) h.1 (step-Sound x g h.0 s)

  -- The state of the package at the start.
  abbrev pub unset : Global L
  unset = record {
    global_logger = none;
    init_done = false;
    waiting = 0;
    behind = 0;
    answers = [];
    built = 0;
  }

  -- In every interleaving of calls of getGlobalLogger, in their three sections, and of
  -- SetGlobalLogger: if nil is never set, every call returns a logger, and the default logger is built
  -- once at most. If nil is set once initOnce has run, a call behind that returns nil: the default is
  -- not built again.
  pub run-unset :
      ((xs : List (Step L))
        → All IsGiven xs
        → All (λ (o : Option L). is_some o ≡ true) (run default_logger xs unset).answers
          × ((run default_logger xs unset).built ≤ 1))
      × ((g : Global L)
          → g.init_done ≡ true
          → (run default_logger (set_global none ∷ look ∷ initialize ∷ read ∷ []) g).answers
            ≡ g.answers ++ (none ∷ []))
  unfolding run
  run-unset = (
    (λ xs h.
        let s = run-Sound xs unset h (record {
          after_init = λ e. cc;
          behind_init = λ e. refl;
          built_once = omega arith;
          built_by_init = λ e. refl;
          answered = tt;
        }) in
        (s.answered, s.built_once)),
    (λ g e.
        ap
          (λ b.
            let h =
              once default_logger b (record g { global_logger = none; waiting = suc g.waiting }) in
            h.answers ++ (h.global_logger ∷ []))
          e),
  )
