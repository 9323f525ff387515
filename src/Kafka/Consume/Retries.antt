-- ===== src/Kafka/Consume/Retries.antt =====
-- How often handlerMessage of kafka/consume.go calls the handler, and when it commits.
use nexgo.Base.{
  ℕ, zero, suc, ◌≤◌, ◌≡◌, ◌≢◌, refl, ℤ, pos, Bool, true, false, not, Option, none, some, arith,
  not_positive, if◌then◌else◌, ap, sym, subst,
}
use nexgo.Kafka.Consume.{
  Env, Settings, Failure, returned, err_commit, committed, Hook, rounds, attempts, unless_done,
  commit_unless_auto, report, handler_message,
}

module _ {W Msg E : Type 0} (env : Env W Msg E) (c : Settings) (m : Msg) where
  -- `Calls w k err w'`: `k` calls of the handler lead from `w` to `w'`, the last with the result
  -- `err`, and all before it failed.
  pub data Calls : W → ℕ → Option E → W → Type 0 where
    once : (w w' : W) (err : Option E) → env.handler m w ≡ (err, w') → Calls w 1 err w'
    after_failure :
        (w w' w'' : W) (e : E) (k : ℕ) (err : Option E)
        → env.handler m w ≡ (some e, w')
        → Calls w' k err w''
        → Calls w (suc k) err w''

  -- Between one and `n + 1` calls were made, and all `n + 1` if the last one failed.
  unfoldable pub Run : ℕ → W → Option E × W → Type 0
  Run n w r = (k : ℕ) × Calls w k r.0 r.1 × (k ≤ suc n) × (r.0 ≢ none → k ≡ suc n)

  attempts-Run : (n : ℕ) (w : W) (err : Option E) → Run n w (attempts env c (suc n) m (err, w))
  unfolding attempts Run
  attempts-Run zero w err = last (env.handler m w) refl
    where
      last :
          (q : Option E × W)
          → env.handler m w ≡ q
          → Run 0 w (unless_done env c q (attempts env c 0 m))
      last (none, w') e = (1, once w w' none e, omega arith, λ h. absurd (h refl))
      last (some x, w') e = (1, once w w' (some x) e, omega arith, λ h. refl)
  attempts-Run (suc n) w err = first (attempts-Run n) (env.handler m w) refl
    where
      first :
          ((v : W) (x : Option E) → Run n v (attempts env c (suc n) m (x, v)))
          → (q : Option E × W) → env.handler m w ≡ q
          → Run (suc n) w (unless_done env c q (attempts env c (suc n) m))
      first ih (none, w') e = (1, once w w' none e, omega arith, λ h. absurd (h refl))
      first ih (some x, w') e =
          let (k, calls, most, all) = ih w' (some x) in
          (suc k, after_failure w w' _ x k _ e calls, omega arith, λ h. ap suc (all h))

  -- `Finished err w err' w'`: the handler's last result `err` at `w` ends in the error `err'` at `w'`.
  pub data Finished : Option E → W → Option (Failure E) → W → Type 0 where
    gives_up : (e : E) (w : W) → Finished (some e) w (some (returned e)) w
    commits_later : (w : W) → c.enable_auto_commit ≡ true → Finished none w none w
    commits :
        (w w' : W)
        → c.enable_auto_commit ≡ false
        → env.commit_message m w ≡ (none, w')
        → Finished none w none w'
    fails_to_commit :
        (w w' : W) (e : E)
        → c.enable_auto_commit ≡ false
        → env.commit_message m w ≡ (some e, w')
        → Finished none w (some (err_commit e)) w'

  -- The handler's calls, the end and the call of the hook with the error that is returned.
  unfoldable pub Told : Option E → W → Option (Failure E) × W → Type 0
  Told err w r =
      (w' : W) × Finished err w r.0 w'
      × (r.1 ≡ elim env.hook [ none ↦ w' | some hook ↦ hook.on_consume m r.0 w' ])

  unfoldable pub Handled : ℕ → W → Option (Failure E) × W → Type 0
  Handled most w r =
      (k : ℕ) × (err : Option E) × (w' : W) × Calls w k err w'
      × (k ≤ most)
      × (err ≢ none → k ≡ most)
      × Told err w' r

  reported_end :
      (hook : Option (Hook W Msg E)) (err : Option E) (w : W) (q : Option (Failure E) × W)
      → env.hook ≡ hook
      → Finished err w q.0 q.1
      → Told err w (report env c hook m q)
  unfolding Told
  reported_end none err w (x, w') e h = (w', h, rw e refl)
  reported_end (some hook) err w (x, w') e h = (w', h, rw e refl)

  committed-Finished :
      (w : W) (q : Option E × W)
      → c.enable_auto_commit ≡ false
      → env.commit_message m w ≡ q
      → Finished none w (committed env c q).0 (committed env c q).1
  committed-Finished w (none, w') b e = commits w w' b e
  committed-Finished w (some x, w') b e = fails_to_commit w w' x b e

  commit-Finished :
      (err : Option E) (w : W)
      → let q = commit_unless_auto env c m (err, w) in Finished err w q.0 q.1
  commit-Finished (some e) w = gives_up e w
  commit-Finished none w = by_setting c.enable_auto_commit refl
    where
      by_setting :
          (auto : Bool)
          → c.enable_auto_commit ≡ auto
          → let q = if not auto then committed env c (env.commit_message m w) else (none, w) in
            Finished none w q.0 q.1
      by_setting true e = commits_later w e
      by_setting false e = committed-Finished w (env.commit_message m w) e refl

  -- With MaxRetries = n + 1, the handler is called between one and n + 1 times, all but the last call
  -- failing, and n + 1 times if the last fails too. Its last error is returned with nothing
  -- committed; after a success the message is committed, unless commits are automatic, and a
  -- failure to commit is returned. A hook is called once, last, with the error that is returned.
  pub handler_message-Handled :
      (n : ℕ)
      → c.max_retries ≡ pos (suc n)
      → (w : W) → Handled (suc n) w (handler_message env c m w)
  unfolding handler_message Handled Run
  handler_message-Handled n e w =
      let (k, calls, most, all) =
        subst (λ z. Run n w (attempts env c (rounds z) m (none, w))) (sym e)
          (attempts-Run n w none) in
      (k, _, _, calls, most, all, reported_end env.hook _ _ _ refl (commit-Finished _ _))

  -- Where MaxRetries is zero or negative, the handler is not called, and the message ends like one
  -- whose handler succeeded: it is committed unless commits are automatic, and a hook hears of no
  -- error of the handler.
  pub no_retries_no_handler :
      not_positive c.max_retries ≡ true → (w : W) → Told none w (handler_message env c m w)
  unfolding handler_message attempts
  no_retries_no_handler e w =
      subst
        (λ z.
          Told none w
            (report env c env.hook m (commit_unless_auto env c m (attempts env c z m (none, w)))))
        (sym (none_left c.max_retries e))
        (reported_end env.hook none w _ refl (commit-Finished none w))
    where
      none_left : (z : ℤ) → not_positive z ≡ true → rounds z ≡ 0
      none_left z h = ground arith
