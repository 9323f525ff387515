-- ===== src/Ch/Converter/Container/Typed.antt =====
-- The types of what MapConverter and ArrayConverter of ch/converter.go build.
use nexgo.Ch.Converter.Value.{Value}
use nexgo.Ch.Converter.Container.Conforms.{Conforms}
use nexgo.Ch.Converter.Column.Default
