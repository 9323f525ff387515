-- ===== src/Ch/Client/Lifecycle.antt =====
-- The life of the connection and of the writer of ch/client.go.
use nexgo.Base.{
  ◌≡◌, refl, ap, ◌∙◌, subst, Bool, true, false, Option, none, some, List, [], ◌∷◌, ok, err, ◌⊎◌,
  inl, inr, if◌then◌else◌,
}
use nexgo.Ch.Error.{Error, Foreign, writer_closed, writer_disabled}
use nexgo.Ch.Client.{
  Config, Client, ping, close_conn, checked, or_default, validate, new_client, writer_begin,
  query_rows, query_one, exec_query, ping_conn, close, Step, ask_rows, ask_row, ask_exec, ask_ping,
  shut, begin_writer, end_writer, System, passed, finished, step, run, is_set,
}
use nexgo.Ch.Client.Orderly.{IsOpen, IsShut, orderly, passed_client}

begin_closed :
    (b enabled : Bool)
    → b ≡ true
    → (if b then some writer_closed else if enabled then none else some writer_disabled)
      ≡ some writer_closed
begin_closed true enabled e = refl
begin_closed false enabled e = cc

closed_step :
    (x : Step) (s : System)
    → s.client.closed ≡ true
    → s.pending ≡ 0
    → ((step x s).client ≡ s.client) × ((step x s).pending ≡ 0)
unfolding step query_rows query_one exec_query ping_conn close writer_begin
closed_step (ask_rows answer) s h p = (rw h refl, p)
closed_step (ask_row answer) s h p = (rw h refl, p)
closed_step (ask_exec answer) s h p = (rw h refl, p)
closed_step (ask_ping answer) s h p = (rw h refl, p)
closed_step (shut answer) s h p = (rw h refl, p)
closed_step begin_writer s h p = (
  passed_client (writer_begin s.client) s,
  ap (λ e. (passed e s).pending) (begin_closed s.client.closed s.client.writer_enabled h) ∙ p,
)
closed_step end_writer s h p =
    (ap (λ n. (finished n s.client).client) p, ap (λ n. (finished n s.client).pending) p)

closed_run :
    (xs : List Step) (s : System)
    → s.client.closed ≡ true
    → s.pending ≡ 0
    → (run xs s).client ≡ s.client
unfolding run
closed_run [] s h p = refl
closed_run (x ∷ xs) s h p =
    let (same, idle) = closed_step x s h p in
    closed_run xs (step x s) (ap (λ c. c.closed) same ∙ h) idle ∙ same

new_client_open :
    (o : Option Error) (config : Config) (opened pinged : Option Foreign) (c : Client)
    → (checked config o opened pinged).0 ≡ ok c
    → IsOpen c
new_client_open (some x) config opened pinged c e = cc
new_client_open none config (some x) pinged c e = cc
new_client_open none config none (some x) c e = cc
new_client_open none config none none c e =
    let same : record {
      writer_enabled = is_set config.writer_config;
      has_writer = false;
      closed = false;
      calls = ping ∷ [];
    }
        ≡ c =
      cc in
    subst IsOpen same (refl, (refl, tt), refl)

new_client_failed :
    (o : Option Error) (config : Config) (opened pinged : Option Foreign) (x : Error)
    → (checked config o opened pinged).0 ≡ err x
    → ((checked config o opened pinged).1 ≡ [])
      ⊎ ((checked config o opened pinged).1 ≡ ping ∷ close_conn ∷ [])
new_client_failed (some y) config opened pinged x e = inl refl
new_client_failed none config (some y) pinged x e = inl refl
new_client_failed none config none (some y) x e = inr refl
new_client_failed none config none none x e = cc

-- If NewClient fails, it has closed the connection again if one was opened. What it makes is orderly
-- in every interleaving of calls of all operations, those of Writer in two halves: nothing is closed
-- while the client is open; Close closes the writer, if one was made, and then the connection, each
-- once; and nothing comes behind but at most one writer, which a call of Writer that had passed its
-- checks makes, if there was none, and which nothing closes. On a closed client with no such call
-- under way nothing changes any more.
pub run-new_client :
    (config : Option Config) (opened pinged : Option Foreign)
    → ((x : Error)
        → (new_client config opened pinged).0 ≡ err x
        → ((new_client config opened pinged).1 ≡ [])
          ⊎ ((new_client config opened pinged).1 ≡ ping ∷ close_conn ∷ []))
      × ((c : Client) (xs : List Step)
          → (new_client config opened pinged).0 ≡ ok c
          → IsOpen (run xs (record { client = c; pending = 0 })).client
            ⊎ IsShut (run xs (record { client = c; pending = 0 })).client)
      × ((s : System) (xs : List Step)
          → s.client.closed ≡ true
          → s.pending ≡ 0
          → (run xs s).client ≡ s.client)
unfolding new_client
run-new_client config opened pinged = (
  new_client_failed (validate (or_default config)) (or_default config) opened pinged,
  (λ c xs e.
      orderly xs (record { client = c; pending = 0 })
        (inl
          (new_client_open (validate (or_default config)) (or_default config) opened pinged c e))),
  (λ s xs h p. closed_run xs s h p),
)
