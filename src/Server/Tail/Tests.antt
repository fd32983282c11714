-- ===== src/Server/Tail/Tests.antt =====
-- tail.rs on a small file. All bytes are ASCII, so that decoding changes nothing.
use at_pc.Common.{ℕ, ◌≤◌, ◌≡◌, refl, Str, some, List, [], ◌∷◌, arith, length}
use at_pc.Server.Tail.{lines, last_lines, read_tail_lines_from_file, read_last_n_lines_from_file}
use at_pc.Server.Tail.Loop.{IsLossy, read_last_n_lines_from_file-total}

abbrev decode : List ℕ → Str
decode bytes = bytes

decode-IsLossy : IsLossy decode
decode-IsLossy = record { empty = refl; feeds = λ x t. refl }

-- Three lines, the second one with a carriage return.
abbrev three_lines : List ℕ
three_lines = b'a' ∷ b'\n' ∷ b'b' ∷ b'\r' ∷ b'\n' ∷ b'c' ∷ []

last_two :
    read_last_n_lines_from_file decode three_lines 2 100 ≡ some ((b'b' ∷ []) ∷ (b'c' ∷ []) ∷ [])
unfolding read_last_n_lines_from_file
last_two = refl

read_last_n_lines_from_file-total_example :
    (read_last_n_lines_from_file decode three_lines 2 4
      ≡ some (read_tail_lines_from_file decode three_lines 2 4))
    × (length three_lines ≤ 4
        → read_last_n_lines_from_file decode three_lines 2 4
          ≡ some (last_lines 2 (lines (decode three_lines))))
read_last_n_lines_from_file-total_example =
    read_last_n_lines_from_file-total decode three_lines 2 4 decode-IsLossy (omega arith)
      (omega arith) (omega arith)
