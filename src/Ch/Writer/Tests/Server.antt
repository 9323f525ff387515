-- ===== src/Ch/Writer/Tests/Server.antt =====
-- A server of test data for the writer of ch/writer.go: what its calls answer and what they record.
use nexgo.Base.{
  ℕ, ◌+◌, ◌≡◌, refl, pos_part, true, false, Option, none, some, List, [], ◌∷◌, ◌++◌, map, Dict,
  nat_eq, list_eq, ok, Text, codes,
}
use nexgo.Ch.Error.{TableName, Error, Foreign, foreign, insert}
use nexgo.Ch.Env.{Described, Outcome, returned, panicked, Conn, Codec}
use nexgo.Ch.Writer.Store.{Store}
use nexgo.Ch.Writer.Store.Frame.{Quiet}
use nexgo.Ch.Writer.Store.Rows.{Sent, appended, Wire, Delivered, insert_rows-Delivered}
use nexgo.Ch.Writer.Store.Rows
use nexgo.Ch.Writer.Flush.Hooks.{Call, reported, gave_up, Logs}

-- A row is its table and a number; a column is its name.
abbrev pub Row : Type 0
Row = TableName × ℕ

abbrev pub table_of : Row → TableName
table_of r = r.0

-- The failures that the next calls of PrepareBatch meet, and what has been recorded.
pub record World : Type 0 where
  pub failures : List Foreign
  pub clock : ℕ
  pub told : List (Call Row)
  pub wire : List (Sent ℕ)

abbrev pub next_failure : List Foreign → World → Option Foreign × World
next_failure [] w = (none, w)
next_failure (f ∷ fs) w = (some f, record w { failures = fs })

abbrev pub id_column : Described
id_column = record {
  name = codes "id";
  type_str = codes "Int64";
  default_type = [];
  default_expr = [];
}

abbrev pub total_column : Described
total_column = record {
  name = codes "total";
  type_str = codes "Int64";
  default_type = codes "MATERIALIZED";
  default_expr = [];
}

abbrev pub tell_hook : TableName → ℕ → ℕ → Option Error → World → Outcome World
tell_hook t n d e w = panicked (record w { told = w.told ++ (reported t n e ∷ []) })

abbrev pub tell_callback : TableName → List Row → Error → World → Outcome World
tell_callback t rows e w = returned (record w { told = w.told ++ (gave_up t rows e ∷ []) })

abbrev pub server : Conn World Row ℕ
server = record {
  now = λ w. w.clock;
  sleep = λ d w. record w { clock = w.clock + pos_part d };
  query_describe = λ t w. (ok (map ok (id_column ∷ total_column ∷ [])), w);
  prepare_batch = λ t w. next_failure w.failures w;
  append = λ t vs w. (none, record w { wire = w.wire ++ (appended vs none ∷ []) });
  send = λ t w. (none, record w { wire = w.wire ++ (Rows.sent none ∷ []) });
  on_permanent_failure = some tell_callback;
  on_flush = some tell_hook;
}

abbrev pub codec : Codec World Text Row ℕ
codec = record {
  table_name = table_of;
  parse_column_type = λ name type_str default. name;
  get_column_value = λ r col w. (r.1, w);
}

abbrev pub told : World → List (Call Row)
told w = w.told

abbrev pub wire : World → List (Sent ℕ)
wire w = w.wire

pub prepare_told : (fs : List Foreign) (w : World) → told (next_failure fs w).1 ≡ told w
prepare_told [] w = refl
prepare_told (f ∷ fs) w = refl

pub prepare_wire : (fs : List Foreign) (w : World) → wire (next_failure fs w).1 ≡ wire w
prepare_wire [] w = refl
prepare_wire (f ∷ fs) w = refl

abbrev pub server_quiet : Quiet server codec told
server_quiet = record {
  query_quiet = λ t w. refl;
  prepare_quiet = λ t w. prepare_told w.failures w;
  append_quiet = λ t vs w. refl;
  send_quiet = λ t w. refl;
  value_quiet = λ r col w. refl;
}

abbrev pub server_logs : Logs server codec told
server_logs = record {
  quiet = server_quiet;
  sleep_quiet = λ d w. refl;
  hook = tell_hook;
  hook_set = refl;
  hook_logs = λ t n d e w. refl;
  callback = tell_callback;
  callback_set = refl;
  callback_logs = λ t rows e w. refl;
}

abbrev pub server_wire : Wire server codec wire
server_wire = record {
  prepare_quiet = λ t w. prepare_wire w.failures w;
  value_quiet = λ r col w. refl;
  append_logs = λ t vs w. refl;
  send_logs = λ t w. refl;
}

abbrev pub logs : TableName
logs = codes "logs"

abbrev pub metrics : TableName
metrics = codes "metrics"

-- A broken connection, and a row that does not fit the table.
abbrev pub broken : Foreign
broken = record {
  block_op = none;
  exception = none;
  net_op = true;
  eof = false;
  unexpected_eof = false;
  deadline_exceeded = false;
}

abbrev pub misfit : Foreign
misfit = record {
  block_op = some (codes "AppendRow");
  exception = none;
  net_op = false;
  eof = false;
  unexpected_eof = false;
  deadline_exceeded = false;
}

abbrev pub store_at : List Foreign → ℕ → Dict TableName (List Text) → Store World Text
store_at fs now columns = record {
  columns = columns;
  world = record { failures = fs; clock = now; told = []; wire = [] };
}

abbrev pub known : Dict TableName (List Text)
known = (logs, codes "id" ∷ []) ∷ []

abbrev pub two_rows : List Row
two_rows = (logs, 1) ∷ (logs, 2) ∷ []

abbrev pub insert_failed : Foreign → Error
insert_failed f = insert logs (foreign f)

abbrev pub no_error : Option Error
no_error = none
