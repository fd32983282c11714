-- ===== src/Server/Tail.antt =====
-- crates/server/src/tail.rs: the last lines of a file, read through a window at its end. A file is its
-- bytes; `decode` is `String::from_utf8_lossy`.
pub mod Lines
pub mod Window
pub mod Loop
pub mod Tests
use at_pc.Common.{
  ℕ, zero, suc, ◌-◌, ◌*◌, ◌^◌, min, Str, Bool, true, false, ◌||◌, Option, none, some, List, [], ◌∷◌,
  nat_beq, leb, ltb, length, drop, if◌then◌else◌,
}

-- `str::split_inclusive('\n')`
abbrev pub cons_first : ℕ → List Str → List Str
cons_first c [] = (c ∷ []) ∷ []
cons_first c (l ∷ ls) = (c ∷ l) ∷ ls

unfoldable pub split_inclusive : Str → List Str
split_inclusive [] = []
split_inclusive (c ∷ cs) =
    let rest = split_inclusive cs in if nat_beq c b'\n' then (c ∷ []) ∷ rest else cons_first c rest

-- A line feed at the end goes, and a carriage return before it.
unfoldable pub strip_line : Str → Str
strip_line [] = []
strip_line (c ∷ []) = if nat_beq c b'\n' then [] else c ∷ []
strip_line (c ∷ d ∷ []) =
    if nat_beq d b'\n' then (if nat_beq c b'\r' then [] else c ∷ []) else c ∷ d ∷ []
strip_line (c ∷ d ∷ e ∷ s) = c ∷ strip_line (d ∷ e ∷ s)

unfoldable pub strip_lines : List Str → List Str
unfolding strip_line
strip_lines [] = []
strip_lines (l ∷ ls) = strip_line l ∷ strip_lines ls

-- `str::lines`
unfoldable pub lines : Str → List Str
unfolding split_inclusive strip_lines
lines s = strip_lines (split_inclusive s)

-- What follows the first line feed.
unfoldable pub after_newline : List ℕ → Option (List ℕ)
after_newline [] = none
after_newline (b ∷ bs) = let rest = after_newline bs in if nat_beq b b'\n' then some bs else rest

abbrev pub last_lines : ℕ → List Str → List Str
last_lines max_lines ls = drop (length ls - max_lines) ls

module _ (decode : List ℕ → Str) where
  -- The bytes of the window, from the first whole line on.
  unfoldable pub window_text : List ℕ → ℕ → Option (List ℕ)
  unfolding after_newline
  window_text file max_bytes =
      let window_len = min (length file) max_bytes in
      let window_start = length file - window_len in
      if ltb 0 window_start then after_newline (drop window_start file) else some file

  abbrev pub lines_of : ℕ → Option (List ℕ) → List Str
  lines_of max_lines none = []
  lines_of max_lines (some bytes) = last_lines max_lines (lines (decode bytes))

  unfoldable pub read_tail_lines_from_file : List ℕ → ℕ → ℕ → List Str
  unfolding window_text lines
  read_tail_lines_from_file file max_lines max_bytes =
      if nat_beq max_lines 0 || nat_beq max_bytes 0
      then []
      else lines_of max_lines (window_text file max_bytes)

  -- `none` is a loop that has not come to its end.
  unfoldable pub read_loop : ℕ → List ℕ → ℕ → ℕ → ℕ → Option (List Str)
  unfolding read_tail_lines_from_file
  read_loop zero file max_lines cap window = none
  read_loop (suc fuel) file max_lines cap window =
      let lines = read_tail_lines_from_file file max_lines window in
      let further = read_loop fuel file max_lines cap (min cap (min (window * 2) (2 ^ 64 - 1))) in
      if leb max_lines (length lines) || leb cap window then some lines else further

  unfoldable pub read_last_n_lines_from_file : List ℕ → ℕ → ℕ → Option (List Str)
  unfolding read_loop
  read_last_n_lines_from_file file max_lines max_bytes =
      if nat_beq max_lines 0 || nat_beq max_bytes 0
      then some []
      else if nat_beq (length file) 0
      then some []
      else (let cap = min (length file) max_bytes in
          read_loop cap file max_lines cap (min 8192 cap))
