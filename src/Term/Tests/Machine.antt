-- ===== src/Term/Tests/Machine.antt =====
-- Applications of the theorems of Term/Machine and Term/Written to concrete states.
use alacritty_pro.Prelude.{ℕ, some, List, [], ◌∷◌}
use alacritty_pro.Term.Write.{input}
use alacritty_pro.Term.Modes.{NamedMode, Attr}
use alacritty_pro.Term.Machine.{Command, run}
use alacritty_pro.Term.Machine.Runs.{run-Safe}
use alacritty_pro.Term.Written.Cursor.{SafeScreen}
use alacritty_pro.Term.Written.Input.{input-Safe}
use alacritty_pro.Samples

-- The insert mode and a color, three letters, a line feed, a region and its deletion.
abbrev commands : List (Command ℕ)
commands =
    Command.set_mode NamedMode.insert
    ∷ (Command.terminal_attribute (Attr.background 7)
        ∷ (Command.input 97
            ∷ (Command.input 98
                ∷ (Command.input 99
                    ∷ (Command.linefeed
                        ∷ (Command.set_scrolling_region 0 (some 2)
                            ∷ (Command.delete_lines 1 ∷ [])))))))

run-Safe_example : SafeScreen Samples.palette ℕ (
    run Samples.palette ℕ Samples.same_char Samples.narrow_width
      (Command.insert_blank_lines 1)
      Samples.fresh)
run-Safe_example =
    run-Safe Samples.palette ℕ Samples.palette-IsLawful Samples.same_char Samples.narrow_width
      (Command.insert_blank_lines 1) Samples.fresh Samples.fresh-IsValid

input-Safe_example :
    SafeScreen Samples.palette ℕ
      (input Samples.palette ℕ Samples.same_char Samples.narrow_width Samples.fresh 97)
input-Safe_example =
    input-Safe Samples.palette ℕ Samples.palette-IsLawful Samples.same_char Samples.narrow_width
      Samples.fresh 97 Samples.fresh-IsValid
