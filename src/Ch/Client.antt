-- ===== src/Ch/Client.antt =====
-- ch/client.go: the client with its connection, its writer and its closing; Config and the part of
-- Validate on the connection, of ch/config.go. What the driver answers is an argument of each call.
pub mod Orderly
pub mod Lifecycle
mod Tests
use nexgo.Base.{
  ℕ, zero, suc, ◌*◌, ℤ, pos, Text, Bool, true, false, not, Option, none, some, List, [], ◌∷◌, ◌++◌,
  Result, ok, err, codes, not_positive, if◌then◌else◌,
}
use nexgo.Ch.Error.{
  Error, Foreign, foreign, connection, connection_closed, writer_closed, writer_disabled,
  invalid_config,
}
use nexgo.Ch.Writer.Config.{WriterConfig, validate_writer, second}

-- The fields that the driver alone reads are left out.
pub record Config : Type 0 where
  pub hosts : List Text
  pub database : Text
  pub username : Text
  pub password : Text
  pub dial_timeout : ℤ
  pub writer_config : Option WriterConfig

unfoldable pub default_config : Config
default_config = record {
  hosts = [];
  database = codes "default";
  username = [];
  password = [];
  dial_timeout = pos (10 * second);
  writer_config = none;
}

abbrev pub validate_writer_config : Option WriterConfig → Option Error
unfolding validate_writer
validate_writer_config none = none
validate_writer_config (some w) = validate_writer w

abbrev pub is_empty {ℓ} : {A : Type ℓ} → List A → Bool
is_empty [] = true
is_empty (x ∷ xs) = false

unfoldable pub validate : Config → Option Error
unfolding validate_writer
validate c =
    if is_empty c.hosts
    then some (invalid_config (codes "hosts are required"))
    else if is_empty c.username
    then some (invalid_config (codes "username is required"))
    else if is_empty c.password
    then some (invalid_config (codes "password is required"))
    else validate_writer_config c.writer_config

-- What the client asks of its connection and of its writer.
pub data Call : Type 0 where
  ping query query_row exec close_conn new_writer close_writer : Call

-- The client: whether WriterConfig is set, whether the writer exists, the flag `closed`, and what was
-- asked of the connection and the writer, in order.
pub record Client : Type 0 where
  pub writer_enabled : Bool
  pub has_writer : Bool
  pub closed : Bool
  pub calls : List Call

abbrev pub is_set {ℓ} : {A : Type ℓ} → Option A → Bool
is_set none = false
is_set (some a) = true

abbrev pub called : Call → Client → Client
called k c = record c { calls = c.calls ++ (k ∷ []) }

abbrev pub wrapped : Option Foreign → Option Error
wrapped none = none
wrapped (some e) = some (foreign e)

-- The driver's answers to Open and to the first Ping.
abbrev pub connected : Config → Option Foreign → Option Foreign → Result Error Client × List Call
connected c (some e) pinged = (err (connection (foreign e)), [])
connected c none (some e) = (err (connection (foreign e)), ping ∷ close_conn ∷ [])
connected c none none = (
  ok (record {
    writer_enabled = is_set c.writer_config;
    has_writer = false;
    closed = false;
    calls = ping ∷ [];
  }),
  ping ∷ [],
)

abbrev pub checked :
    Config → Option Error → Option Foreign → Option Foreign → Result Error Client × List Call
checked c (some e) opened pinged = (err e, [])
checked c none opened pinged = connected c opened pinged

abbrev pub or_default : Option Config → Config
unfolding default_config
or_default none = default_config
or_default (some c) = c

-- NewClient, with what it asked of the connection.
unfoldable pub new_client :
    Option Config → Option Foreign → Option Foreign → Result Error Client × List Call
unfolding default_config validate
new_client config opened pinged =
    checked (or_default config) (validate (or_default config)) opened pinged

-- Writer up to the test of WriterConfig: the error that it returns, if any.
unfoldable pub writer_begin : Client → Option Error
writer_begin c =
    if c.closed then some writer_closed else if c.writer_enabled then none else some writer_disabled

-- writerOnce.Do of Writer.
unfoldable pub writer_once : Client → Client
writer_once c = if c.has_writer then c else record (called new_writer c) { has_writer = true }

abbrev pub answered {ℓ} : {A : Type ℓ} → Result Foreign A → Result Error A
answered (ok a) = ok a
answered (err e) = err (foreign e)

module _ {A : Type 0} where
  -- Query, with the rows that the driver answers.
  unfoldable pub query_rows : Result Foreign A → Client → Result Error A × Client
  query_rows answer c =
      if c.closed then (err connection_closed, c) else (answered answer, called query c)

  -- QueryRow, whose row is nil if the client is closed.
  unfoldable pub query_one : A → Client → Option A × Client
  query_one row c = if c.closed then (none, c) else (some row, called query_row c)

unfoldable pub exec_query : Option Foreign → Client → Option Error × Client
exec_query answer c =
    if c.closed then (some connection_closed, c) else (wrapped answer, called exec c)

unfoldable pub ping_conn : Option Foreign → Client → Option Error × Client
ping_conn answer c =
    if c.closed then (some connection_closed, c) else (wrapped answer, called ping c)

abbrev pub writer_shut : Client → Client
writer_shut c = if c.has_writer then called close_writer c else c

-- Close, with the error of the connection; that of the writer is only logged.
unfoldable pub close : Option Foreign → Client → Option Error × Client
close answer c =
    if c.closed
    then (none, c)
    else (wrapped answer, record (called close_conn (writer_shut c)) { closed = true })

-- A step of some goroutine: a call with the lock held, or the first or the second half of Writer.
pub data Step : Type 0 where
  ask_rows ask_row : Result Foreign (Unit {0}) → Step
  ask_exec ask_ping shut : Option Foreign → Step
  begin_writer end_writer : Step

-- The client and how many calls of Writer have passed their checks and not made the writer yet.
pub record System : Type 0 where
  pub client : Client
  pub pending : ℕ

abbrev pub passed : Option Error → System → System
passed none s = record s { pending = suc s.pending }
passed (some e) s = s

abbrev pub finished : ℕ → Client → System
unfolding writer_once
finished zero c = record { client = c; pending = 0 }
finished (suc n) c = record { client = writer_once c; pending = n }

unfoldable pub step : Step → System → System
unfolding query_rows query_one exec_query ping_conn close writer_begin writer_once
step (ask_rows answer) s = record s { client = (query_rows answer s.client).1 }
step (ask_row answer) s = record s { client = (query_one answer s.client).1 }
step (ask_exec answer) s = record s { client = (exec_query answer s.client).1 }
step (ask_ping answer) s = record s { client = (ping_conn answer s.client).1 }
step (shut answer) s = record s { client = (close answer s.client).1 }
step begin_writer s = passed (writer_begin s.client) s
step end_writer s = finished s.pending s.client

unfoldable pub run : List Step → System → System
unfolding step
run [] s = s
run (x ∷ xs) s = run xs (step x s)
