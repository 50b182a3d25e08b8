-- ===== src/Grid/Up.antt =====
-- Scrolling up: the lines move towards the history, and blank lines come in at the bottom.
use mathlib.Core.Path.{subst}
use alacritty_pro.Prelude.{
  ℕ, zero, suc, ◌+◌, ◌-◌, ◌≤◌, ◌<◌, ◌≡◌, refl, sym, ◌∙◌, ap, Option, some, arith, ltb, ◌==◌,
  if◌then◌else◌, List, length, get_elem?, min, max, inl, inr, Bool-cases, le→leb, ◌++◌,
  get_elem?-append, replicate, length-replicate, get_elem?-none,
}
use alacritty_pro.Prelude.Int.{pos, negsuc, neg, pos_part, neg_part}
use alacritty_pro.Row
use alacritty_pro.Row.{Row, GridCell}
use alacritty_pro.Row.Occupied
use alacritty_pro.Row.Occupied.{
  IsLawful, get_elem?-replicate, blank_row, blank_row-IsValid, reset-blank_row,
}
use alacritty_pro.Storage
use alacritty_pro.Storage.{Storage, rotate_left, max_cache_size}
use alacritty_pro.Storage.View.{
  ring, length-ring, length-rotate_left, get_elem?-rotate_left, wrap_at,
}
use alacritty_pro.Storage.Rotate.{rotate_lem}
use alacritty_pro.Storage.Resize.{initialize_lem, fresh_rows}
use alacritty_pro.Grid.Defs.{Grid, history_size, increase_scroll_limit}
use alacritty_pro.Grid.Lines.{row_at, AllRows}

negative : (k : ℕ) → neg (pos (suc k)) ≡ negsuc k
negative k = ground arith

pub between :
    (e l : ℕ) → pos_part (pos l) + neg_part (pos e) - (pos_part (pos e) + neg_part (pos l)) ≡ l - e
between e l = omega arith

module _ {T : Type 0} where
  pub AllRows-rotate_left :
      (P : Row T → Type 0) (n : ℕ) (xs : List (Row T))
      → n ≤ length xs
      → ((p : ℕ) (row : Row T) → get_elem? xs p ≡ some row → P row)
      → (p : ℕ) (row : Row T) → get_elem? (rotate_left n xs) p ≡ some row
      → P row
  AllRows-rotate_left P n xs h all p row e = elim (Bool-cases (ltb p (length xs))) [
    | inl inside ↦
        all (wrap_at (length xs) n p) row (sym (get_elem?-rotate_left n xs p h (ground arith)) ∙ e)
    | inr outside ↦ ground (arith, get_elem?-none (rotate_left n xs) p, length-rotate_left n xs h)
  ]

module _ {T : Type 0} ⦃cell : GridCell T⦄ where
  -- A row of `columns` cells whose `occ` is right.
  pub record IsLine (columns : ℕ) (row : Row T) : Type 0 where
    pub valid : Occupied.IsValid row
    pub width : length row.inner ≡ columns

  -- A well-formed grid: its storage is, every row in the buffer is a line of the grid's width, and
  -- the history keeps its limit.
  pub record IsValid (g : Grid T) : Type 0 where
    pub raw : Storage.View.IsValid g.raw
    pub visible : g.raw.visible_lines ≡ g.lines
    pub some_column : 0 < g.columns
    pub rows : AllRows (IsLine g.columns) g.raw
    pub limit : history_size g ≤ g.max_scroll_limit

  pub blank-IsLine : (columns : ℕ) (template : T) → IsLine columns (blank_row columns template)
  blank-IsLine columns template = record {
    valid = blank_row-IsValid columns template;
    width = length-replicate columns _;
  }

  pub new-IsLine : IsLawful cell → (columns : ℕ) → IsLine columns (Row.default_row columns)
  new-IsLine lawful columns =
      subst (λ c. IsLine columns (record { inner = replicate columns c; occ = 0 }))
        (lawful.reset_default cell.default) (blank-IsLine columns cell.default)

  pub reset-IsLine :
      IsLawful cell
      → (columns : ℕ) (template : T) → 0 < columns
      → (row : Row T) → IsLine columns row
      → Row.reset row template ≡ some (blank_row columns template)
  reset-IsLine lawful columns template h row line =
      reset-blank_row lawful row template line.valid (omega arith)
      ∙ ap (λ n. some (blank_row n template)) line.width

  -- The lines that come into the history.
  abbrev pub gained : Grid T → ℕ → ℕ
  gained g positions = min positions (g.max_scroll_limit - history_size g)

  pub record Grown (g : Grid T) (n : ℕ) (r : Option (Grid T)) : Type 0 where
    pub raw : Storage T
    pub returns : r ≡ some (record g { raw = raw })
    pub valid : Storage.View.IsValid raw
    pub len : raw.len ≡ g.raw.len + n
    pub visible : raw.visible_lines ≡ g.lines
    pub rows : AllRows (IsLine g.columns) raw
    pub prefix : (p : ℕ) → p < length (ring g.raw) → row_at raw p ≡ row_at g.raw p

  pub replicate-eq : (n p : ℕ) (a b : Row T) → get_elem? (replicate n a) p ≡ some b → b ≡ a
  replicate-eq zero p a b h = cc
  replicate-eq (suc n) zero a b h = cc
  replicate-eq (suc n) (suc p) a b h = replicate-eq n p a b h

  AllRows-append :
      (P : Row T → Type 0) (xs ys : List (Row T))
      → ((p : ℕ) (row : Row T) → get_elem? xs p ≡ some row → P row)
      → ((p : ℕ) (row : Row T) → get_elem? ys p ≡ some row → P row)
      → (p : ℕ) (row : Row T) → get_elem? (xs ++ ys) p ≡ some row
      → P row
  AllRows-append P xs ys hx hy p row h = elim (Bool-cases (ltb p (length xs))) [
    | inl inside ↦ hx p row (ground (arith, get_elem?-append xs ys p))
    | inr behind ↦ hy (p - length xs) row (ground (arith, get_elem?-append xs ys p))
  ]

  fresh-IsLine :
      IsLawful cell
      → (g : Grid T) (n p : ℕ) (row : Row T) → get_elem? (fresh_rows g.raw n g.columns) p ≡ some row
      → IsLine g.columns row
  fresh-IsLine lawful g n p row h = elim (Bool-cases (ltb (length g.raw.inner) (g.raw.len + n))) [
    | inl short ↦
        subst (IsLine g.columns)
          (sym
            (replicate-eq (max n max_cache_size) p (Row.default_row g.columns) row (rw short at h)))
          (new-IsLine lawful g.columns)
    | inr enough ↦ ground arith
  ]

  pub increase_scroll_limit-Grown :
      IsLawful cell
      → (g : Grid T) (positions : ℕ) → IsValid g
      → Grown g (gained g positions) (increase_scroll_limit g positions)
  unfolding increase_scroll_limit
  increase_scroll_limit-Grown lawful g positions v = elim (Bool-cases (gained g positions == 0)) [
    | inl none_gained ↦ record {
      raw = g.raw;
      returns = rw (le→leb (history_size g) g.max_scroll_limit v.limit, none_gained);
      valid = v.raw;
      len = ground arith;
      visible = v.visible;
      rows = v.rows;
      prefix = λ p h. refl;
    }
    | inr some_gained ↦
        let (s, es, valid, (len, visible), ring_s, _) =
          initialize_lem g.raw (gained g positions) g.columns v.raw v.some_column in
        record {
          raw = s;
          returns = rw (le→leb (history_size g) g.max_scroll_limit v.limit, some_gained, es);
          valid = valid;
          len = len;
          visible = visible ∙ v.visible;
          rows = λ p row h.
              AllRows-append (IsLine g.columns) (ring g.raw)
                (fresh_rows g.raw (gained g positions) g.columns) v.rows
                (fresh-IsLine lawful g (gained g positions)) p row
                (sym (ap (λ l. get_elem? l p) ring_s) ∙ h);
          prefix = λ p h.
              ap (λ l. get_elem? l p) ring_s
              ∙ ground (
                arith,
                get_elem?-append (ring g.raw) (fresh_rows g.raw (gained g positions) g.columns) p,
              );
        }
  ]

  -- The size of the screen, both cursors and the limit of the history are as before.
  pub record SameScreen (g h : Grid T) : Type 0 where
    pub lines : h.lines ≡ g.lines
    pub columns : h.columns ≡ g.columns
    pub cursor : h.cursor ≡ g.cursor
    pub saved : h.saved_cursor ≡ g.saved_cursor
    pub limit : h.max_scroll_limit ≡ g.max_scroll_limit

  -- The grid after scrolling a region from the top of the screen to line `e` up by `k` lines, read
  -- from the bottommost line up: the lines below the region are as before, the `k` lowest of the
  -- region are blank, and all above are those of `k` lines further down.
  pub record ScrolledUp (g : Grid T) (e k : ℕ) (r : Option (Grid T)) : Type 0 where
    pub out : Grid T
    pub returns : r ≡ some out
    pub valid : IsValid out
    pub screen : SameScreen g out
    pub history : history_size out ≡ history_size g + gained g k
    pub below : (q : ℕ) → q < g.lines - e → row_at out.raw q ≡ row_at g.raw q
    pub entered :
        (q : ℕ)
        → g.lines - e ≤ q
        → q < g.lines - e + k
        → row_at out.raw q ≡ some (blank_row g.columns g.cursor.template)
    pub above :
        (q : ℕ) → g.lines - e + k ≤ q → q < out.raw.len → row_at out.raw q ≡ row_at g.raw (q - k)
    pub offset :
        out.display_offset
        ≡ (if g.display_offset == 0 then 0 else min (g.display_offset + k) g.max_scroll_limit)

  -- A rotation by `-k` moves every row `k` positions up.
  pub record Rotated (P : Row T → Type 0) (k : ℕ) (s : Storage T) (r : Option (Storage T))
      : Type 0 where
    pub out : Storage T
    pub returns : r ≡ some out
    pub valid : Storage.View.IsValid out
    pub same :
        (length out.inner ≡ length s.inner)
        × (out.len ≡ s.len)
        × (out.visible_lines ≡ s.visible_lines)
    pub moved : (q : ℕ) → k ≤ q → q < length s.inner → row_at out q ≡ row_at s (q - k)
    pub all : AllRows P out

  pub rotate-Rotated :
      (P : Row T → Type 0) (k : ℕ) (s : Storage T)
      → Storage.View.IsValid s
      → k ≤ length s.inner
      → AllRows P s
      → Rotated P k s (Storage.rotate s (neg (pos k)))
  rotate-Rotated P zero s v h all =
      let (t, et, valid, same, ring_t) = rotate_lem (pos 0) v (omega arith) in
      record {
        out = t;
        returns = et;
        valid = valid;
        same = same;
        moved = λ q a b.
            ap (λ l. get_elem? l q) ring_t
            ∙ (get_elem?-rotate_left 0 (ring s) q (omega arith) (omega (arith, length-ring v))
                ∙ ap (λ i. get_elem? (ring s) i) (ground (arith, length-ring v)));
        all = λ p row e.
            AllRows-rotate_left P 0 (ring s) (omega arith) all p row
              (sym (ap (λ l. get_elem? l p) ring_t) ∙ e);
      }
  rotate-Rotated P (suc k) s v h all = rw (negative k) (
      let (t, et, valid, same, ring_t) = rotate_lem (negsuc k) v (omega arith) in
      let n = length s.inner - suc k in
      let whole = length-ring v in
      record {
        out = t;
        returns = et;
        valid = valid;
        same = same;
        moved = λ q a b.
            ap (λ l. get_elem? l q) ring_t
            ∙ (get_elem?-rotate_left n (ring s) q (omega (arith, whole)) (omega (arith, whole))
                ∙ ap (λ i. get_elem? (ring s) i) (ground (arith, whole)));
        all = λ p row e.
            AllRows-rotate_left P n (ring s) (omega (arith, whole)) all p row
              (sym (ap (λ l. get_elem? l p) ring_t) ∙ e);
      })
