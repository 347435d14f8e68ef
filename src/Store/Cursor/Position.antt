-- ===== src/Store/Cursor/Position.antt =====
-- The cursor order is the order of the list query.
use kestrai.Prelude.{◌≡◌, true, false, arith}
use kestrai.Text.{str_eq_iff}
use kestrai.Text.Order.{str_less_trans, str_less_irrefl}
use kestrai.Store.{Key}
use kestrai.Store.Engine.{before}
use kestrai.Store.Cursor.{Cursor, cursor_less}

abbrev pub cursor_of : Key → Cursor
cursor_of k = record { project = k.project; name = k.name }

pub cursor_less-before : (j k : Key) → cursor_less (cursor_of j) (cursor_of k) ≡ before j k
unfolding cursor_less
cursor_less-before j k = ground (arith, str_eq_iff j.project k.project, str_less_irrefl j.project)

pub before_irrefl : (k : Key) → before k k ≡ false
before_irrefl k = ground (arith, str_less_irrefl k.project, str_less_irrefl k.name)

pub before_trans : (i j k : Key) → before i j ≡ true → before j k ≡ true → before i k ≡ true
before_trans i j k h g = ground (
  arith,
  str_eq_iff i.project j.project,
  str_eq_iff j.project k.project,
  str_eq_iff i.project k.project,
  str_less_trans i.project j.project k.project,
  str_less_trans i.name j.name k.name,
)
