-- ===== src/Ch/Error.antt =====
-- ch/errors.go, and the two classifications of an error in ch/writer.go. An error of the driver or
-- of the network is known by the answers that errors.As and errors.Is give about it.
use nexgo.Base.{
  Text, ℤ, pos, Bool, true, false, ◌||◌, Option, none, some, codes, text_eq, nat_beq, if◌then◌else◌,
}

abbrev pub TableName : Type 0
TableName = Text

pub record Foreign : Type 0 where
  -- errors.As to *proto.BlockError, and its Op
  pub block_op : Option Text
  -- errors.As to *proto.Exception, and its Code
  pub exception : Option ℤ
  -- errors.As to *net.OpError
  pub net_op : Bool
  -- errors.Is io.EOF, io.ErrUnexpectedEOF, context.DeadlineExceeded
  pub eof : Bool
  pub unexpected_eof : Bool
  pub deadline_exceeded : Bool

-- The sentinels of the package, a foreign error, and the wrappers with %w.
pub data Error : Type 0 where
  buffer_full : Error
  writer_closed : Error
  connection_closed : Error
  invalid_table : Error
  writer_disabled : Error
  context_done : Error
  invalid_config : Text → Error
  foreign : Foreign → Error
  insert : TableName → Error → Error
  describe : TableName → Error → Error
  connection : Error → Error

-- The foreign error at the end of the chain of wrappers: what errors.As and errors.Is reach.
unfoldable pub root : Error → Option Foreign
root (foreign f) = some f
root (insert t e) = root e
root (describe t e) = root e
root (connection e) = root e
root _ = none

abbrev op_is_append : Option Text → Bool
op_is_append none = false
op_is_append (some op) = text_eq op (codes "Append") || text_eq op (codes "AppendRow")

abbrev is_schema_foreign : Option Foreign → Bool
is_schema_foreign none = false
is_schema_foreign (some f) = op_is_append f.block_op

unfoldable pub is_schema_related_error : Error → Bool
unfolding root
is_schema_related_error e = is_schema_foreign (root e)

unfoldable pub retryable_exception_codes : ℤ → Bool
retryable_exception_codes (pos n) =
    nat_beq n 159
    || (nat_beq n 202
        || (nat_beq n 209
            || (nat_beq n 210 || (nat_beq n 241 || (nat_beq n 252 || nat_beq n 319)))))
retryable_exception_codes _ = false

unfoldable pub is_retryable_foreign : Foreign → Option ℤ → Bool
unfolding retryable_exception_codes
is_retryable_foreign f (some code) = retryable_exception_codes code
is_retryable_foreign f none =
    if f.net_op
    then true
    else if f.eof || f.unexpected_eof
    then true
    else if f.deadline_exceeded
    then true
    else false

abbrev is_retryable_root : Option Foreign → Bool
unfolding is_retryable_foreign
is_retryable_root none = false
is_retryable_root (some f) = is_retryable_foreign f f.exception

-- The nil error is the caller's case.
unfoldable pub is_retryable_error : Error → Bool
unfolding root is_retryable_foreign
is_retryable_error e = is_retryable_root (root e)
