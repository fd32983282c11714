-- ===== src/Server/Tail/Loop.antt =====
-- tail.rs, `read_last_n_lines_from_file`: the loop over growing windows ends, and reads what one window of
-- the final size gives.
use at_pc.Common.{
  length-drop, ℕ, zero, suc, ◌+◌, ◌-◌, ◌*◌, ◌^◌, ◌≤◌, ◌<◌, ◌≡◌, refl, ap, ◌∙◌, min, Str, Option,
  none, some, List, [], ◌∷◌, ◌++◌, leb, ltb, arith, length, drop, inl, inr, Bool-cases,
  if◌then◌else◌,
}
use at_pc.Server.Tail.{
  split_inclusive, strip_lines, lines, after_newline, last_lines, window_text, lines_of,
  read_tail_lines_from_file, read_loop, read_last_n_lines_from_file,
}
use at_pc.Server.Tail.Window.{window-Whole, tail-last_lines}

-- What the documentation of `from_utf8_lossy` says of an empty input and of a line feed, which is no
-- part of a longer character.
pub record IsLossy (decode : List ℕ → Str) : Type 0 where
  pub empty : decode [] ≡ []
  pub feeds : (x t : List ℕ) → decode (x ++ (10 ∷ t)) ≡ decode x ++ (10 ∷ decode t)

module _ (decode : List ℕ → Str) (lossy : IsLossy decode) (file : List ℕ) (n : ℕ) where
  -- Enough lines in a window are those of every larger window.
  lines_of-larger :
      (w v : ℕ) (o : Option (List ℕ))
      → 1 ≤ n
      → w ≤ v
      → window_text decode file w ≡ o
      → n ≤ length (lines_of decode n o)
      → lines_of decode n (window_text decode file v) ≡ lines_of decode n o
  lines_of-larger w v none a l e enough = absurd (omega arith)
  lines_of-larger w v (some t) a l e enough =
      let whole = window-Whole decode file t w v l e in
      let count = length-drop (length (lines (decode t)) - n) (lines (decode t)) in
      ap (λ o. lines_of decode n o) whole.is_text
      ∙ tail-last_lines decode lossy.feeds n t whole.text whole.tail (omega arith)

  read-larger :
      (w v : ℕ)
      → 1 ≤ n
      → 1 ≤ w
      → w ≤ v
      → n ≤ length (read_tail_lines_from_file decode file n w)
      → read_tail_lines_from_file decode file n w ≡ read_tail_lines_from_file decode file n v
  unfolding read_tail_lines_from_file
  read-larger w v a b l enough =
      let larger =
        lines_of-larger w v (window_text decode file w) a l refl (ground (arith, a, b, enough)) in
      ground (arith, a, b, l, larger)

  read_loop-total :
      (fuel cap window : ℕ)
      → 1 ≤ n
      → 1 ≤ window
      → window ≤ cap
      → cap < 2 ^ 64
      → cap + 1 ≤ fuel + window
      → read_loop decode fuel file n cap window ≡ some (read_tail_lines_from_file decode file n cap)
  unfolding read_loop
  read_loop-total zero cap window a b l m f = absurd (omega arith)
  read_loop-total (suc fuel) cap window a b l m f =
      let next = min cap (min (window * 2) (2 ^ 64 - 1)) in
      elim (Bool-cases (leb n (length (read_tail_lines_from_file decode file n window)))) [
        | inl q ↦
            let larger = read-larger window cap a b l (ground (arith, q)) in
            ground (arith, q, larger)
        | inr q ↦ elim (Bool-cases (leb cap window)) [
          | inl r ↦
              let last : window ≡ cap = ground (arith, r, l) in
              let at : read_tail_lines_from_file decode file n window
                  ≡ read_tail_lines_from_file decode file n cap =
                ap (λ w. read_tail_lines_from_file decode file n w) last in
              ground (arith, q, r, at)
          | inr r ↦
              let larger : window < cap = ground (arith, r) in
              let rest =
                read_loop-total fuel cap next a (omega arith) (omega arith) m (omega arith) in
              ground (arith, q, r) ∙ rest
        ]
      ]

  read-cap :
      (max_bytes : ℕ)
      → 1 ≤ max_bytes
      → 1 ≤ length file
      → read_tail_lines_from_file decode file n (min (length file) max_bytes)
        ≡ read_tail_lines_from_file decode file n max_bytes
  unfolding read_tail_lines_from_file window_text
  read-cap max_bytes a b =
      let once : min (length file) (min (length file) max_bytes) ≡ min (length file) max_bytes =
        omega arith in
      let at : window_text decode file (min (length file) max_bytes)
          ≡ window_text decode file max_bytes =
        ap
          (λ k.
            if ltb 0 (length file - k)
            then after_newline (drop (length file - k) file)
            else some file)
          once in
      let read = ap (λ o. lines_of decode n o) at in ground (arith, a, b, read)

  read-whole :
      (max_bytes : ℕ)
      → 1 ≤ n
      → 1 ≤ max_bytes
      → length file ≤ max_bytes
      → read_tail_lines_from_file decode file n max_bytes ≡ last_lines n (lines (decode file))
  unfolding read_tail_lines_from_file window_text
  read-whole max_bytes a b l = ground (arith, a, b, l)

empty-read :
    (decode : List ℕ → Str) (n max_bytes : ℕ)
    → IsLossy decode
    → read_tail_lines_from_file decode [] n max_bytes ≡ []
unfolding read_tail_lines_from_file window_text lines split_inclusive strip_lines
empty-read decode n max_bytes lossy =
    let nothing : lines (decode []) ≡ [] = ap lines lossy.empty in ground (arith, nothing)

total :
    (decode : List ℕ → Str) (file : List ℕ) (n max_bytes : ℕ)
    → IsLossy decode
    → 1 ≤ n
    → 1 ≤ max_bytes
    → length file < 2 ^ 64
    → read_last_n_lines_from_file decode file n max_bytes
      ≡ some (read_tail_lines_from_file decode file n max_bytes)
unfolding read_last_n_lines_from_file
total decode [] n max_bytes lossy a b m = ground (arith, a, b, empty-read decode n max_bytes lossy)
total decode (c ∷ file) n max_bytes lossy a b m =
    let cap = min (length (c ∷ file)) max_bytes in
    let loop =
      read_loop-total decode lossy (c ∷ file) n cap cap (min 8192 cap) a (omega arith) (omega arith)
        (omega arith) (omega arith) in
    let read = read-cap decode lossy (c ∷ file) n max_bytes b (omega arith) in
    ground (arith, a, b) ∙ loop ∙ ap some read

-- The loop over growing windows ends, and whatever the sizes of the windows its lines are those of one read
-- of at most `max_bytes`; for a file of at most `max_bytes` they are the last lines of the whole
-- file. This takes from `from_utf8_lossy` only that it keeps line feeds apart.
pub read_last_n_lines_from_file-total :
    (decode : List ℕ → Str) (file : List ℕ) (max_lines max_bytes : ℕ)
    → IsLossy decode
    → 1 ≤ max_lines
    → 1 ≤ max_bytes
    → length file < 2 ^ 64
    → (read_last_n_lines_from_file decode file max_lines max_bytes
        ≡ some (read_tail_lines_from_file decode file max_lines max_bytes))
      × (length file ≤ max_bytes
          → read_last_n_lines_from_file decode file max_lines max_bytes
            ≡ some (last_lines max_lines (lines (decode file))))
read_last_n_lines_from_file-total decode file n max_bytes lossy a b m =
    let read = total decode file n max_bytes lossy a b m in
    (read, λ l. read ∙ ap some (read-whole decode lossy file n max_bytes a b l))
