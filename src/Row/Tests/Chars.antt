-- ===== src/Row/Tests/Chars.antt =====
-- Applications of the theorems of Row/Chars to concrete states.
use alacritty_pro.Prelude.{◌+◌, ◌-◌, min, arith, some, ltb, if◌then◌else◌, length}
use alacritty_pro.Row.Edit.{insert_blank, delete_chars}
use alacritty_pro.Row.Chars.{
  cell_at, Edited, insert_blank_lem, delete_chars_lem, delete_chars_beyond,
}
use alacritty_pro.Samples
use alacritty_pro.Samples.{sample_cells}

insert_blank_lem_example :
    Edited
      (Samples.row_with 97)
      (λ i.
        if ltb i 0
        then cell_at (Samples.row_with 97) i
        else if ltb i (0 + min 1 (length (Samples.row_with 97).inner - 0))
        then some Samples.red_blank
        else cell_at (Samples.row_with 97) (i - min 1 (length (Samples.row_with 97).inner - 0)))
      (insert_blank
        (length (Samples.row_with 97).inner)
        Samples.red_blank
        0
        1
        (Samples.row_with 97))
insert_blank_lem_example =
    insert_blank_lem (Samples.row_with 97) Samples.red_blank 0 1 (omega arith)

delete_chars_lem_example :
    Edited
      (Samples.row_with 97)
      (λ i.
        if ltb i 0
        then cell_at (Samples.row_with 97) i
        else if ltb i (length (Samples.row_with 97).inner - 1)
        then cell_at (Samples.row_with 97) (i + 1)
        else some Samples.red_blank)
      (delete_chars
        (length (Samples.row_with 97).inner)
        Samples.red_blank
        0
        1
        (Samples.row_with 97))
delete_chars_lem_example =
    delete_chars_lem (Samples.row_with 97) Samples.red_blank 0 1 (omega arith) (omega arith)

delete_chars_beyond_example :
    Edited
      (Samples.row_with 97)
      (λ i.
        if ltb i (length (Samples.row_with 97).inner - 2)
        then cell_at (Samples.row_with 97) i
        else some Samples.red_blank)
      (delete_chars
        (length (Samples.row_with 97).inner)
        Samples.red_blank
        1
        2
        (Samples.row_with 97))
delete_chars_beyond_example =
    delete_chars_beyond (Samples.row_with 97) Samples.red_blank 1 2 (omega arith) (omega arith)
      (omega arith)
