-- ===== src/Server/Tail/Lines.antt =====
-- tail.rs: the last lines of a text that begins after a line feed are the last lines of the whole text.
use at_pc.Common.{
  ℕ, suc, ◌+◌, ◌-◌, ◌≤◌, ◌≡◌, ◌≢◌, refl, ap, ◌∙◌, Str, List, [], ◌∷◌, ◌++◌, nat_beq, arith, length,
  drop, inl, inr, Bool-cases,
}
use at_pc.Server.Tail.{cons_first, split_inclusive, strip_line, strip_lines, lines, last_lines}

cons_first-append :
    (c : ℕ) (xs bs : List Str) → xs ≢ [] → cons_first c (xs ++ bs) ≡ cons_first c xs ++ bs
cons_first-append c [] bs ne = absurd (ne refl)
cons_first-append c (l ∷ ls) bs ne = refl

cons_first-ne : (c : ℕ) (xs : List Str) → cons_first c xs ≢ []
cons_first-ne c [] e = ground (arith, e)
cons_first-ne c (l ∷ ls) e = ground (arith, e)

split_inclusive-ne : (x t : Str) → split_inclusive (x ++ (10 ∷ t)) ≢ []
unfolding split_inclusive
split_inclusive-ne [] t e = ground (arith, e)
split_inclusive-ne (c ∷ x) t e =
    ground (arith, e, cons_first-ne c (split_inclusive (x ++ (10 ∷ t))))

split_inclusive-append :
    (x t : Str)
    → split_inclusive (x ++ (10 ∷ t)) ≡ split_inclusive (x ++ (10 ∷ [])) ++ split_inclusive t
unfolding split_inclusive
split_inclusive-append [] t = refl
split_inclusive-append (c ∷ x) t =
    let rest = split_inclusive-append x t in
    elim (Bool-cases (nat_beq c 10)) [
      | inl q ↦ ground (arith, q, rest)
      | inr q ↦
          ground (arith, q)
          ∙ ap (λ ls. cons_first c ls) rest
          ∙ cons_first-append c (split_inclusive (x ++ (10 ∷ []))) (split_inclusive t)
              (split_inclusive-ne x [])
          ∙ ground (arith, q)
    ]

strip_lines-append : (xs bs : List Str) → strip_lines (xs ++ bs) ≡ strip_lines xs ++ strip_lines bs
unfolding strip_lines
strip_lines-append [] bs = refl
strip_lines-append (l ∷ xs) bs = ap (λ ls. strip_line l ∷ ls) (strip_lines-append xs bs)

pub lines-append : (x t : Str) → lines (x ++ (10 ∷ t)) ≡ lines (x ++ (10 ∷ [])) ++ lines t
unfolding lines
lines-append x t =
    ap strip_lines (split_inclusive-append x t)
    ∙ strip_lines-append (split_inclusive (x ++ (10 ∷ []))) (split_inclusive t)

drop-append : (xs bs : List Str) (k : ℕ) → drop (length xs + k) (xs ++ bs) ≡ drop k bs
drop-append [] bs k = ap (λ n. drop n bs) (omega arith)
drop-append (l ∷ xs) bs k =
    let next : suc (length xs) + k ≡ suc (length xs + k) = omega arith in
    ap (λ n. drop n (l ∷ (xs ++ bs))) next ∙ drop-append xs bs k

length-append : (xs bs : List Str) → length (xs ++ bs) ≡ length xs + length bs
length-append [] bs = omega arith
length-append (l ∷ xs) bs = ground (arith, length-append xs bs)

pub last_lines-append :
    (n : ℕ) (xs bs : List Str) → n ≤ length bs → last_lines n (xs ++ bs) ≡ last_lines n bs
last_lines-append n xs bs l =
    let whole = length-append xs bs in
    let skipped : length (xs ++ bs) - n ≡ length xs + (length bs - n) = omega arith in
    ap (λ k. drop k (xs ++ bs)) skipped ∙ drop-append xs bs (length bs - n)
