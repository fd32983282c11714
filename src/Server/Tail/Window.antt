-- ===== src/Server/Tail/Window.antt =====
-- tail.rs: the loop over growing windows ends, and reads what one window of the final size would give.
use at_pc.Common.{
  ℕ, zero, suc, ◌-◌, ◌≤◌, ◌≡◌, refl, sym, ap, subst, ◌∙◌, min, Str, Option, some, List, [], ◌∷◌,
  ◌++◌, nat_beq, ltb, arith, length, drop, inl, inr, Bool-cases,
}
use at_pc.Server.Tail.{lines, after_newline, last_lines, window_text}
use at_pc.Server.Tail.Lines.{lines-append, last_lines-append}

-- `t` is `s`, or begins after a line feed in it.
pub data IsLineTail (t s : List ℕ) : Type 0 where
  same : t ≡ s → IsLineTail t s
  behind : (x : List ℕ) → s ≡ x ++ (10 ∷ t) → IsLineTail t s

pub record Whole (t : List ℕ) (o : Option (List ℕ)) : Type 0 where
  pub text : List ℕ
  pub is_text : o ≡ some text
  pub tail : IsLineTail t text

pub record Split (q t : List ℕ) : Type 0 where
  pub before : List ℕ
  pub is_split : q ≡ before ++ (10 ∷ t)

some_same : (a b : List ℕ) → some a ≡ some b → a ≡ b
some_same a b e = ground (arith, e)

after_newline-Split : (q t : List ℕ) → after_newline q ≡ some t → Split q t
unfolding after_newline
after_newline-Split [] t e = absurd (ground (arith, e))
after_newline-Split (b ∷ q) t e = elim (Bool-cases (nat_beq b 10)) [
  | inl h ↦
      let rest : q ≡ t = some_same q t (ground (arith, h, e)) in
      let feed : b ≡ 10 = ground (arith, h) in
      record { before = []; is_split = ap (λ c. c ∷ q) feed ∙ ap (λ r. 10 ∷ r) rest }
  | inr h ↦
      let s = after_newline-Split q t (ground (arith, h, e)) in
      record { before = b ∷ s.before; is_split = ap (λ r. b ∷ r) s.is_split }
]

append_assoc : (a b c : List ℕ) → (a ++ b) ++ c ≡ a ++ (b ++ c)
append_assoc [] b c = refl
append_assoc (x ∷ a) b c = ap (λ r. x ∷ r) (append_assoc a b c)

prepend-IsLineTail : (p q t : List ℕ) → Split q t → IsLineTail t (p ++ q)
prepend-IsLineTail p q t s =
    behind (p ++ s.before) (ap (λ r. p ++ r) s.is_split ∙ sym (append_assoc p s.before (10 ∷ t)))

-- What the smaller window finds is at the end of what comes after a line feed before it.
after_newline-append :
    (p q t : List ℕ) → after_newline q ≡ some t → Whole t (after_newline (p ++ q))
unfolding after_newline
after_newline-append [] q t e = record { text = t; is_text = e; tail = same refl }
after_newline-append (b ∷ p) q t e = elim (Bool-cases (nat_beq b 10)) [
  | inl h ↦ record {
    text = p ++ q;
    is_text = ground (arith, h);
    tail = prepend-IsLineTail p q t (after_newline-Split q t e);
  }
  | inr h ↦
      let w = after_newline-append p q t e in
      record { text = w.text; is_text = ground (arith, h, w.is_text); tail = w.tail }
]

-- The front of the larger window.
pub record Front (a b : ℕ) (file : List ℕ) : Type 0 where
  pub front : List ℕ
  pub is_front : drop a file ≡ front ++ drop b file

drop-Front : (a b : ℕ) (file : List ℕ) → a ≤ b → Front a b file
drop-Front a zero file l =
    let start : a ≡ 0 = omega arith in record { front = []; is_front = ap (λ n. drop n file) start }
drop-Front zero (suc b) [] l = record { front = []; is_front = refl }
drop-Front (suc a) (suc b) [] l = record { front = []; is_front = refl }
drop-Front zero (suc b) (c ∷ file) l =
    let f = drop-Front 0 b file (omega arith) in
    record { front = c ∷ f.front; is_front = ap (λ r. c ∷ r) f.is_front }
drop-Front (suc a) (suc b) (c ∷ file) l =
    let f = drop-Front a b file (omega arith) in record { front = f.front; is_front = f.is_front }

module _ (decode : List ℕ → Str) where
  -- A larger window has the same text, or that text after a line feed.
  pub window-Whole :
      (file t : List ℕ) (w v : ℕ)
      → w ≤ v
      → window_text decode file w ≡ some t
      → Whole t (window_text decode file v)
  unfolding window_text
  window-Whole file t w v l e =
      let a = length file - min (length file) v in
      let b = length file - min (length file) w in
      let f = drop-Front a b file (omega arith) in
      elim (Bool-cases (ltb 0 b)) [
        | inr q ↦
            let whole : some file ≡ window_text decode file v = ground (arith, q, l) in
            record {
              text = file;
              is_text = sym whole;
              tail = same (some_same t file (ground (arith, q, e)));
            }
        | inl q ↦
            let found : after_newline (drop b file) ≡ some t = ground (arith, q, e) in
            elim (Bool-cases (ltb 0 a)) [
              | inl r ↦
                  let at : window_text decode file v ≡ after_newline (f.front ++ drop b file) =
                    ground (arith, r) ∙ ap after_newline f.is_front in
                  subst (λ o. Whole t o) (sym at)
                    (after_newline-append f.front (drop b file) t found)
              | inr r ↦
                  let start : a ≡ 0 = ground (arith, r) in
                  let parts : file ≡ f.front ++ drop b file =
                    sym (ap (λ n. drop n file) start) ∙ f.is_front in
                  record {
                    text = file;
                    is_text = ground (arith, r);
                    tail =
                        subst (λ s. IsLineTail t s) (sym parts)
                          (prepend-IsLineTail f.front (drop b file) t
                            (after_newline-Split (drop b file) t found));
                  }
            ]
      ]

  module _ (feeds : (x t : List ℕ) → decode (x ++ (10 ∷ t)) ≡ decode x ++ (10 ∷ decode t)) where
    pub tail-last_lines :
        (n : ℕ) (t s : List ℕ)
        → IsLineTail t s
        → n ≤ length (lines (decode t))
        → last_lines n (lines (decode s)) ≡ last_lines n (lines (decode t))
    tail-last_lines n t s (same e) l = ap (λ r. last_lines n (lines (decode r))) (sym e)
    tail-last_lines n t s (behind x e) l =
        ap (λ r. last_lines n (lines (decode r))) e
        ∙ ap (λ r. last_lines n (lines r)) (feeds x t)
        ∙ ap (λ r. last_lines n r) (lines-append (decode x) (decode t))
        ∙ last_lines-append n (lines (decode x ++ (10 ∷ []))) (lines (decode t)) l
