-- ===== src/Ch/Writer/Config.antt =====
-- WriterConfig of ch/config.go: its defaults and the checks of Validate, and the defaults that
-- newWriterWithConn of ch/writer.go fills in.
use nexgo.Base.{
  ℕ, ℤ, pos, Option, none, some, codes, not_positive, is_negative, is_zero, ltb_ℤ, if◌then◌else◌,
  ◌*◌,
}
use nexgo.Ch.Error.{Error, invalid_config}

-- The callbacks of the record are fields of the environment.
pub record WriterConfig : Type 0 where
  pub flush_interval : ℤ
  pub flush_size : ℤ
  pub min_flush_size : ℤ
  pub max_wait_time : ℤ
  pub schema_refresh_interval : ℤ
  pub max_retries : ℤ

abbrev pub second : ℕ
second = 1000000000

unfoldable pub default_writer_config : WriterConfig
default_writer_config = record {
  flush_interval = pos (10 * second);
  flush_size = pos 5000;
  min_flush_size = pos 500;
  max_wait_time = pos (60 * second);
  schema_refresh_interval = pos (300 * second);
  max_retries = pos 3;
}

-- The part of Config.Validate on a writer configuration that is set.
unfoldable pub validate_writer : WriterConfig → Option Error
validate_writer c =
    if not_positive c.flush_interval
    then some (invalid_config (codes "writer.flush_interval is required"))
    else if not_positive c.flush_size
    then some (invalid_config (codes "writer.flush_size is required"))
    else if is_negative c.min_flush_size
    then some (invalid_config (codes "writer.min_flush_size cannot be negative"))
    else if ltb_ℤ c.flush_size c.min_flush_size
    then some
        (invalid_config (codes "writer.min_flush_size cannot be greater than writer.flush_size"))
    else if is_negative c.max_wait_time
    then some (invalid_config (codes "writer.max_wait_time cannot be negative"))
    else if is_negative c.max_retries
    then some (invalid_config (codes "writer.max_retries cannot be negative"))
    else none

-- The configuration that newWriterWithConn works with.
unfoldable pub writer_defaults : Option WriterConfig → WriterConfig
unfolding default_writer_config
writer_defaults none = default_writer_config
writer_defaults (some c) = record c {
  max_retries = if is_zero c.max_retries then pos 3 else c.max_retries;
}
