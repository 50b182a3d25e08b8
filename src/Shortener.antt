-- ===== src/Shortener.antt =====
-- Shortening a text to a width: `StrShortener` of alacritty/src/string.rs. A text is the list of its
-- characters; the width of a character, which the crate `unicode-width` gives, is an argument.
pub mod Width
mod Tests
use package.alacritty_pro.Prelude.{
  ℕ, zero, suc, ◌+◌, ◌-◌, Bool, true, false, not, ◌&&◌, Option, none, some, List, [], ◌∷◌, ltb, leb,
  ◌==◌, if◌then◌else◌, length, drop, reverse,
}

pub data TextAction : Type 0 where
  spacer terminate shortener char : TextAction

pub data ShortenDirection : Type 0 where
  left right : ShortenDirection

-- The state of the iterator; `chars` are those that are still to come.
pub record StrShortener : Type 0 where
  pub chars : List ℕ
  pub accumulated_len : ℕ
  pub max_width : ℕ
  pub direction : ShortenDirection
  pub shortener : Option ℕ
  pub text_action : TextAction

abbrev pub is_some : Option ℕ → Bool
is_some none = false
is_some (some c) = true

abbrev pub non_empty : List ℕ → Bool
non_empty [] = false
non_empty (c ∷ cs) = true

-- Where the loop of `new` over the characters from the end on stops: the characters that it has not
-- read, and the index of the first of them.
pub record Scan : Type 0 where
  pub current_len : ℕ
  pub offset : ℕ
  pub shortener : Option ℕ
  pub unread : List ℕ
  pub unread_index : ℕ

module _ (width : ℕ → Option ℕ) where
  -- `ch.width().unwrap_or(1)`
  abbrev pub char_width : ℕ → ℕ
  char_width ch = elim (width ch) [ none ↦ 1 | some w ↦ w ]

  unfoldable pub scan : ℕ → List ℕ → ℕ → ℕ → ℕ → Option ℕ → Scan
  scan max_width [] index current_len offset mark = record {
    current_len = current_len;
    offset = offset;
    shortener = mark;
    unread = [];
    unread_index = index;
  }
  scan max_width (ch ∷ rest) index current_len offset mark =
      let len = current_len + char_width ch in
      let stop : Scan = record {
        current_len = len;
        offset = offset;
        shortener = mark;
        unread = rest;
        unread_index = suc index;
      } in
      let next = scan max_width rest (suc index) len (index + 1) mark in
      let next_exact = scan max_width rest (suc index) len (index + 1) none in
      if ltb max_width len
      then stop
      else if len == max_width
      then (if is_some mark && non_empty rest then stop else next_exact)
      else next

  unfoldable pub new_left : List ℕ → ℕ → Option ℕ → StrShortener
  unfolding scan
  new_left text max_width mark =
      let s = scan max_width (reverse text) 0 0 0 mark in
      let num_chars = if length s.unread == 0 then s.offset else s.unread_index + length s.unread in
      record {
        chars = drop (num_chars - s.offset) text;
        accumulated_len = 0;
        max_width = max_width;
        direction = ShortenDirection.left;
        shortener = s.shortener;
        text_action =
            if ltb s.current_len max_width
            then TextAction.char
            else if is_some s.shortener
            then TextAction.shortener
            else TextAction.char;
      }

  unfoldable pub new_right : List ℕ → ℕ → Option ℕ → StrShortener
  new_right text max_width mark = record {
    chars = text;
    accumulated_len = 0;
    max_width = max_width;
    direction = ShortenDirection.right;
    shortener = mark;
    text_action = TextAction.char;
  }

  -- `StrShortener::new`; an empty text takes no mark.
  unfoldable pub new : List ℕ → ℕ → ShortenDirection → Option ℕ → StrShortener
  unfolding new_left new_right
  new text max_width ShortenDirection.left mark =
      new_left text max_width (if non_empty text then mark else none)
  new text max_width ShortenDirection.right mark =
      new_right text max_width (if non_empty text then mark else none)

  -- The action `Char`, on the characters to come.
  unfoldable pub next_char : StrShortener → List ℕ → Option ℕ × StrShortener
  next_char s [] = (none, s)
  next_char s (ch ∷ cs) =
      let ch_width = char_width ch in
      let len = s.accumulated_len + ch_width in
      let read : StrShortener = record s { chars = cs; accumulated_len = len } in
      let done : StrShortener = record read { text_action = TextAction.terminate } in
      if ltb s.max_width len
      then (s.shortener, done)
      else if len == s.max_width && is_some s.shortener
      then (if non_empty cs then s.shortener else some ch, done)
      else (
        some ch,
        if ch_width == 2 then record read { text_action = TextAction.spacer } else read,
      )

  abbrev after_shortener : ShortenDirection → TextAction
  after_shortener ShortenDirection.left = TextAction.char
  after_shortener ShortenDirection.right = TextAction.terminate

  -- `next`, by the action of the state.
  unfoldable pub next : StrShortener → Option ℕ × StrShortener
  unfolding next_char
  next s = elim s.text_action [
    | TextAction.spacer ↦ (some b' ', record s { text_action = TextAction.char })
    | TextAction.terminate ↦ (none, s)
    | TextAction.shortener ↦
        (s.shortener, record s { text_action = after_shortener s.direction; shortener = none })
    | TextAction.char ↦ next_char s s.chars
  ]

  -- The characters that the first `n` calls of `next` yield, up to the first one without a result.
  unfoldable pub collect : ℕ → StrShortener → List ℕ
  unfolding next
  collect zero s = []
  collect (suc n) s =
      let step = next s in
      let rest = collect n step.1 in elim step.0 [ none ↦ [] | some c ↦ c ∷ rest ]
