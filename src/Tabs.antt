-- ===== src/Tabs.antt =====
-- The tab stops: `TabStops` of alacritty_terminal/src/term/mod.rs. An index out of range is `none`.
pub mod Stops
use package.alacritty_pro.Prelude.{
  ℕ, zero, suc, ◌+◌, ◌-◌, ◌%◌, Bool, true, false, Option, none, some, List, [], ◌∷◌, ◌++◌, map, ltb,
  leb, ◌==◌, if◌then◌else◌, ◌>>=◌, ◌>>◌, assert, length, get_elem?, set, take,
}

abbrev pub initial_tabstops : ℕ
initial_tabstops = 8

pub record TabStops : Type 0 where
  pub tabs : List Bool

-- The initial stops of `n` columns from `index` on.
unfoldable pub stops : ℕ → ℕ → List Bool
stops zero index = []
stops (suc n) index = (index % initial_tabstops == 0) ∷ stops n (suc index)

unfoldable pub new : ℕ → TabStops
unfolding stops
new columns = record { tabs = stops columns 0 }

unfoldable pub clear_all : TabStops → TabStops
clear_all t = record { tabs = map (λ b. false) t.tabs }

-- `resize_with`: new columns get their initial stops, and surplus ones are cut off.
unfoldable pub resize : TabStops → ℕ → TabStops
unfolding stops
resize t columns =
    let n = length t.tabs in
    record { tabs = if leb columns n then take columns t.tabs else t.tabs ++ stops (columns - n) n }

unfoldable pub is_stop : TabStops → ℕ → Option Bool
is_stop t column = get_elem? t.tabs column

unfoldable pub set_stop : TabStops → ℕ → Bool → Option TabStops
set_stop t column b = do
  assert (ltb column (length t.tabs))
  some (record { tabs = set t.tabs column b })

-- The loop of `move_backward_tabs` over `i` from `col - 1` down to 0: the first stop found, and
-- `col` itself if there is none.
unfoldable pub stop_before : TabStops → ℕ → ℕ → Option ℕ
unfolding is_stop
stop_before t col zero = some col
stop_before t col (suc i) =
    let rest = stop_before t col i in is_stop t i >>= (λ b. if b then some i else rest)

-- `move_backward_tabs`, `count` rounds of it, on the column alone.
unfoldable pub backward_tabs : TabStops → ℕ → ℕ → Option ℕ
unfolding stop_before
backward_tabs t zero col = some col
backward_tabs t (suc count) col =
    let rest = stop_before t col col >>= backward_tabs t count in
    if col == 0 then some col else rest

-- The loop of `move_forward_tabs` over the `n` columns from `i` on: the first stop, or the last of
-- these columns.
unfoldable pub stop_after : TabStops → ℕ → ℕ → ℕ → Option ℕ
unfolding is_stop
stop_after t zero i col = some col
stop_after t (suc n) i col =
    let rest = stop_after t n (suc i) i in is_stop t i >>= (λ b. if b then some i else rest)

unfoldable pub forward_tabs : TabStops → ℕ → ℕ → ℕ → Option ℕ
unfolding stop_after
forward_tabs t num_cols zero col = some col
forward_tabs t num_cols (suc count) col =
    let rest =
      stop_after t (num_cols - (col + 1)) (col + 1) col >>= forward_tabs t num_cols count in
    if col == num_cols - 1 then some col else rest
