-- ===== src/Health/Order.antt =====
-- Run of health/health.go does not depend on the order in which its goroutines finish.
use nexgo.Base.{
  ℕ, zero, suc, ◌<◌, ◌≡◌, refl, sym, ap, ◌∙◌, ◌⊎◌, inl, inr, Text, Option, none, some, List, [],
  ◌∷◌, map, modify, length, length-map, arith,
}
use nexgo.Health.{
  Checker, Outcome, outcome, zero_outcome, nth, write, finish, run_check, all_ok, run,
}
use mathlib.Core.List.{Memᴰ}
use mathlib.Core.List.Memᴰ.{head, tail}

nth_ext {ℓ} :
    {A : Type ℓ} (xs ys : List A)
    → length xs ≡ length ys
    → ((j : ℕ) (y : A) → nth j ys ≡ some y → nth j xs ≡ some y)
    → xs ≡ ys
nth_ext [] [] l h = refl
nth_ext [] (y ∷ ys) l h = absurd (omega (arith, l))
nth_ext (x ∷ xs) [] l h = absurd (omega (arith, l))
nth_ext (x ∷ xs) (y ∷ ys) l h =
    cc (h 0 y refl, nth_ext xs ys (omega (arith, l)) (λ j z e. h (suc j) z e))

nth-map {ℓ κ} :
    {A : Type ℓ} {B : Type κ} (f : A → B) (j : ℕ) (xs : List A) (y : B)
    → nth j (map f xs) ≡ some y
    → (x : A) × (nth j xs ≡ some x) × (f x ≡ y)
nth-map f j [] y h = absurd (cc)
nth-map f zero (x ∷ xs) y h = (x, refl, cc)
nth-map f (suc j) (x ∷ xs) y h = nth-map f j xs y h

nth-below {ℓ} : {A : Type ℓ} (j : ℕ) (xs : List A) (x : A) → nth j xs ≡ some x → j < length xs
nth-below j [] x h = absurd (cc)
nth-below zero (y ∷ xs) x h = omega arith
nth-below (suc j) (y ∷ xs) x h = omega (arith, nth-below j xs x h)

module _ (quote : Text → Text) where
  -- What the goroutine of a checker writes.
  abbrev pub result_of : Checker → Outcome
  result_of c = outcome c.name (run_check quote c)

  length-write :
      (o : Option Checker) (i : ℕ) (rs : List Outcome) → length (write quote o i rs) ≡ length rs
  length-write none i rs = refl
  length-write (some c) i rs = length-modify i rs
    where
      length-modify :
          (i : ℕ) (rs : List Outcome) → length (modify (λ r. result_of c) i rs) ≡ length rs
      length-modify i [] = refl
      length-modify zero (r ∷ rs) = refl
      length-modify (suc i) (r ∷ rs) = omega (arith, length-modify i rs)

  write_first :
      (o : Option Checker) (i : ℕ) (r : Outcome) (rs : List Outcome)
      → nth 0 (write quote o (suc i) (r ∷ rs)) ≡ some r
  write_first none i r rs = refl
  write_first (some c) i r rs = refl

  write_rest :
      (o : Option Checker) (i j : ℕ) (r : Outcome) (rs : List Outcome)
      → nth (suc j) (write quote o (suc i) (r ∷ rs)) ≡ nth j (write quote o i rs)
  write_rest none i j r rs = refl
  write_rest (some c) i j r rs = refl

  -- A write leaves the result of a checker right, or makes it right if it is its own.
  written :
      (i j : ℕ) (cs : List Checker) (rs : List Outcome) (c : Checker)
      → length rs ≡ length cs
      → nth j cs ≡ some c
      → (i ≡ j) ⊎ (nth j rs ≡ some (result_of c))
      → nth j (write quote (nth i cs) i rs) ≡ some (result_of c)
  written i j [] rs c l h o = absurd (cc)
  written i j (k ∷ cs) [] c l h o = absurd (omega (arith, l))
  written zero zero (k ∷ cs) (r ∷ rs) c l h o = cc
  written zero (suc j) (k ∷ cs) (r ∷ rs) c l h (inl e) = absurd (omega (arith, e))
  written zero (suc j) (k ∷ cs) (r ∷ rs) c l h (inr e) = e
  written (suc i) zero (k ∷ cs) (r ∷ rs) c l h (inl e) = absurd (omega (arith, e))
  written (suc i) zero (k ∷ cs) (r ∷ rs) c l h (inr e) = write_first (nth i cs) i r rs ∙ e
  written (suc i) (suc j) (k ∷ cs) (r ∷ rs) c l h (inl e) =
      write_rest (nth i cs) i j r rs
      ∙ written i j cs rs c (omega (arith, l)) h (inl (omega (arith, e)))
  written (suc i) (suc j) (k ∷ cs) (r ∷ rs) c l h (inr e) =
      write_rest (nth i cs) i j r rs ∙ written i j cs rs c (omega (arith, l)) h (inr e)

  length-finish :
      (order : List ℕ) (cs : List Checker) (rs : List Outcome)
      → length (finish quote order cs rs) ≡ length rs
  unfolding finish
  length-finish [] cs rs = refl
  length-finish (i ∷ order) cs rs = length-finish order cs _ ∙ length-write (nth i cs) i rs

  nth-finish :
      (order : List ℕ) (cs : List Checker) (rs : List Outcome)
      → length rs ≡ length cs
      → (j : ℕ) (c : Checker) → nth j cs ≡ some c
      → Memᴰ j order ⊎ (nth j rs ≡ some (result_of c))
      → nth j (finish quote order cs rs) ≡ some (result_of c)
  unfolding finish
  nth-finish [] cs rs l j c h (inl m) = elim m [ ]
  nth-finish [] cs rs l j c h (inr e) = e
  nth-finish (i ∷ order) cs rs l j c h (inl (head e)) =
      nth-finish order cs _ (length-write (nth i cs) i rs ∙ l) j c h
        (inr (written i j cs rs c l h (inl (sym e))))
  nth-finish (i ∷ order) cs rs l j c h (inl (tail m)) =
      nth-finish order cs _ (length-write (nth i cs) i rs ∙ l) j c h (inl m)
  nth-finish (i ∷ order) cs rs l j c h (inr e) =
      nth-finish order cs _ (length-write (nth i cs) i rs ∙ l) j c h
        (inr (written i j cs rs c l h (inr e)))

  -- In whatever order the goroutines finish, each at least once: the results are those of the
  -- checkers, in the order of the checkers, a panic being an error; and Run answers true exactly
  -- if none of them is an error.
  pub run_order :
      (order : List ℕ) (cs : List Checker)
      → ((i : ℕ) → i < length cs → Memᴰ i order)
      → run quote order cs ≡ (all_ok quote (map result_of cs), map result_of cs)
  unfolding run
  run_order order cs covers = ap (λ rs. (all_ok quote rs, rs)) complete
    where
      zeros : List Outcome
      zeros = map (λ c. zero_outcome) cs

      complete : finish quote order cs zeros ≡ map result_of cs
      complete =
          nth_ext _ _
            (length-finish order cs zeros ∙ length-map _ cs ∙ sym (length-map result_of cs))
            (λ j y e.
              let (c, at, same) = nth-map result_of j cs y e in
              nth-finish order cs zeros (length-map _ cs) j c at
                (inl (covers j (nth-below j cs c at)))
              ∙ ap some same)
