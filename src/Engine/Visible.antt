-- ===== src/Engine/Visible.antt =====
-- A commit of one session and the refresh of another, of leafdb/engine.py.
use leafdb.Prelude.{◌∷◌, Bool, true, false, none, some}
use leafdb.Prelude.{Option, ◌∷◌}
use leafdb.Bytes.{Bytes}
use leafdb.Pager.{Pager}

abbrev pub has_value : Option Bytes → Bool
has_value none = false
has_value (some d) = true
