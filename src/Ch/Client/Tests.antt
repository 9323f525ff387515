-- ===== src/Ch/Client/Tests.antt =====
-- The theorem about ch/client.go at a concrete input: a call of Writer that is under way at Close.
use nexgo.Base.{◌≡◌, refl, pos, true, false, none, some, List, [], ◌∷◌, ok, err, ◌⊎◌, codes}
use nexgo.Ch.Error.{Error}
use nexgo.Ch.Client.{
  Config, Client, ping, close_conn, new_writer, Step, begin_writer, end_writer, shut, ask_ping,
  new_client, System, run,
}
use nexgo.Ch.Client.Lifecycle.{run-new_client}
use nexgo.Ch.Client.Orderly.{IsOpen, IsShut}

abbrev one_host : Config
one_host = record {
  hosts = codes "a" ∷ [];
  database = codes "default";
  username = codes "u";
  password = codes "p";
  dial_timeout = pos 10;
  writer_config = some (record {
    flush_interval = pos 10;
    flush_size = pos 5;
    min_flush_size = pos 0;
    max_wait_time = pos 0;
    schema_refresh_interval = pos 0;
    max_retries = pos 3;
  });
}

abbrev opened_client : Client
opened_client = record {
  writer_enabled = true;
  has_writer = false;
  closed = false;
  calls = ping ∷ [];
}

made_behind_close :
    (run
      (begin_writer ∷ shut none ∷ end_writer ∷ ask_ping none ∷ [])
      (record { client = opened_client; pending = 0 })).client.calls
    ≡ ping ∷ close_conn ∷ new_writer ∷ []
unfolding run
made_behind_close = refl

run-new_client_example :
    ((x : Error)
      → (new_client (some one_host) none none).0 ≡ err x
      → ((new_client (some one_host) none none).1 ≡ [])
        ⊎ ((new_client (some one_host) none none).1 ≡ ping ∷ close_conn ∷ []))
    × ((c : Client) (xs : List Step)
        → (new_client (some one_host) none none).0 ≡ ok c
        → IsOpen (run xs (record { client = c; pending = 0 })).client
          ⊎ IsShut (run xs (record { client = c; pending = 0 })).client)
    × ((s : System) (xs : List Step)
        → s.client.closed ≡ true
        → s.pending ≡ 0
        → (run xs s).client ≡ s.client)
run-new_client_example = run-new_client (some one_host) none none

new_client_runs : (new_client (some one_host) none none).0 ≡ ok opened_client
unfolding new_client
new_client_runs = refl
