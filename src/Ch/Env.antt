-- ===== src/Ch/Env.antt =====
-- What the writer of ch/writer.go uses and does not implement: the driver's connection, the clock,
-- and the two callbacks of ch/config.go; and its interface to the converters of ch/converter.go.
-- `W` is the state of the world.
use nexgo.Base.{ℕ, ℤ, Text, Option, List, Result}
use nexgo.Ch.Error.{TableName, Foreign, Error}

-- One row that DESCRIBE TABLE answers, as far as the writer reads it.
pub record Described : Type 0 where
  pub name : Text
  pub type_str : Text
  pub default_type : Text
  pub default_expr : Text

-- A callback of the caller, which may panic.
pub data Outcome (W : Type 0) : Type 0 where
  returned : W → Outcome W
  panicked : W → Outcome W

pub record Conn (W Row Value : Type 0) : Type 0 where
  -- time.Now, in nanoseconds, and time.Sleep
  pub now : W → ℕ
  pub sleep : ℤ → W → W
  -- conn.Query with DESCRIBE TABLE, then what rows.Scan gives for each row until rows.Next is false
  pub query_describe : TableName → W → Result Foreign (List (Result Foreign Described)) × W
  -- conn.PrepareBatch, batch.Append and batch.Send
  pub prepare_batch : TableName → W → Option Foreign × W
  pub append : TableName → List Value → W → Option Foreign × W
  pub send : TableName → W → Option Foreign × W
  -- WriterConfig.OnPermanentFailure and WriterConfig.MetricsHook, nil or set
  pub on_permanent_failure : Option (TableName → List Row → Error → W → Outcome W)
  pub on_flush : Option (TableName → ℕ → ℕ → Option Error → W → Outcome W)

-- What the writer asks of the rows and of the converters.
pub record Codec (W Column Row Value : Type 0) : Type 0 where
  pub table_name : Row → TableName
  pub parse_column_type : Text → Text → Text → Column
  -- getColumnValue of the row's value map; a default such as now() reads the world
  pub get_column_value : Row → Column → W → Value × W
