-- ===== src/Server/Audit/Shift.antt =====
-- audit.rs, `rotate_log_files`: where each file is after a rotation, also one that stopped half-way.
use at_pc.Common.{
  ℕ, zero, suc, ◌+◌, ◌-◌, ◌≤◌, ◌<◌, ◌≡◌, refl, ap, ◌∙◌, max, Bool, true, false, Option, none, some,
  List, nat_beq, leb, ltb, arith, ◌⊎◌, inl, inr, Bool-cases, if◌then◌else◌,
}
use at_pc.Server.Audit.{
  Files, set_file, moved, rename_up, shift_down, rename_active, rotate_log_files,
}

abbrev pub shifted : Files → ℕ → ℕ → Files
shifted files g n h =
    if leb h g
    then files h
    else if nat_beq h (g + 1)
    then none
    else if leb h (n + 1)
    then files (h - 1)
    else files h

moved-at :
    (files : Files) (g : ℕ) (o : Option (List ℕ)) (h : ℕ)
    → files g ≡ o
    → files (g + 1) ≡ none
    → moved files g o h ≡ (if nat_beq h g then none else if nat_beq h (g + 1) then o else files h)
moved-at files g none h e p = elim (Bool-cases (nat_beq h g)) [
  | inl q ↦ ap files (ground (arith, q)) ∙ e ∙ ground (arith, q)
  | inr q ↦ elim (Bool-cases (nat_beq h (g + 1))) [
    | inl r ↦ ap files (ground (arith, r)) ∙ p ∙ ground (arith, q, r)
    | inr r ↦ ground (arith, q, r)
  ]
]
moved-at files g (some f) h e p = ground arith

rename_up-at :
    (files : Files) (g h : ℕ)
    → files (g + 1) ≡ none
    → rename_up files g h
      ≡ (if nat_beq h g then none else if nat_beq h (g + 1) then files g else files h)
unfolding rename_up
rename_up-at files g h p = moved-at files g (files g) h refl p

stops-at :
    (files : Files) (g n h : ℕ) → g ≡ n → files (n + 1) ≡ none → files h ≡ shifted files g n h
stops-at files g n h e p = elim (Bool-cases (nat_beq h (n + 1))) [
  | inl q ↦ ap files (ground (arith, q)) ∙ p ∙ ground (arith, q, e)
  | inr q ↦ ground (arith, q, e)
]

-- One more step of the loop, before the others.
shifted-rename_up :
    (files : Files) (g n h : ℕ)
    → g ≤ n
    → files (suc n + 1) ≡ none
    → shifted (rename_up files (suc n)) g n h ≡ shifted files g (suc n) h
shifted-rename_up files g n h l p = elim (Bool-cases (nat_beq h (suc n + 1))) [
  | inl q ↦
      let below : h - 1 ≡ suc n = ground (arith, q) in
      let same : files (h - 1) ≡ files (suc n) = ap files below in
      ground (arith, rename_up-at files (suc n) h p, same, q, l)
  | inr q ↦
      ground (arith, rename_up-at files (suc n) h p, rename_up-at files (suc n) (h - 1) p, q, l)
]

-- The loop has come down to `g`, where it ended or failed.
pub shift_down-at :
    (files : Files) (n g : ℕ) (renames : ℕ → Bool) (h : ℕ)
    → g ≤ n
    → ((k : ℕ) → g < k → k ≤ n → renames k ≡ true)
    → ((g ≡ 0) ⊎ (renames g ≡ false))
    → files (n + 1) ≡ none
    → (shift_down files n renames).0 h ≡ shifted files g n h
unfolding shift_down
shift_down-at files zero g renames h l all stop e = stops-at files g 0 h (omega arith) e
shift_down-at files (suc n) g renames h l all stop e = elim (Bool-cases (nat_beq g (suc n))) [
  | inl q ↦
      let here : g ≡ suc n = ground (arith, q) in
      let same : renames g ≡ renames (suc n) = ap renames here in
      ground (arith, same, stop, here, stops-at files g (suc n) h here e)
  | inr q ↦
      let rec =
        shift_down-at (rename_up files (suc n)) n g renames h (ground (arith, q, l))
          (λ k a b. all k a (omega arith)) stop
          (ground (arith, rename_up-at files (suc n) (suc n) e)) in
      ground (arith, all (suc n) (ground (arith, q, l)) (omega arith), rec)
      ∙ shifted-rename_up files g n h (ground (arith, q, l)) e
]

abbrev pub cleared : Files → ℕ → Files
cleared files retain = set_file files (retain - 1) none

cleared-last :
    (files : Files) (retain : ℕ) → 2 ≤ retain → cleared files retain (retain - 2 + 1) ≡ none
cleared-last files retain l = ground (arith, l)

rotate-eq-loop :
    (files : Files) (retain : ℕ) (renames : ℕ → Bool)
    → 2 ≤ retain
    → rotate_log_files files retain true renames
      ≡ rename_active (shift_down (cleared files retain) (retain - 2) renames) renames
unfolding rotate_log_files
rotate-eq-loop files retain renames l =
    let same : max retain 1 ≡ retain = omega arith in
    ap
      (λ r.
        if nat_beq r 1
        then (set_file files 0 none, true)
        else rename_active (shift_down (set_file files (r - 1) none) (r - 2) renames) renames)
      same
    ∙ ground (arith, l)

loop-done : (files : Files) (n : ℕ) → (shift_down files n (λ g. true)).1 ≡ true
unfolding shift_down
loop-done files zero = refl
loop-done files (suc n) = loop-done (rename_up files (suc n)) n

loop-fails :
    (files : Files) (n g : ℕ) (renames : ℕ → Bool)
    → 1 ≤ g
    → g ≤ n
    → renames g ≡ false
    → (shift_down files n renames).1 ≡ false
unfolding shift_down
loop-fails files zero g renames a b p = absurd (omega arith)
loop-fails files (suc n) g renames a b p = elim (Bool-cases (nat_beq g (suc n))) [
  | inl q ↦
      let same : renames g ≡ renames (suc n) = ap renames (ground (arith, q)) in
      ground (arith, same, p)
  | inr q ↦
      ground (arith, loop-fails (rename_up files (suc n)) n g renames a (ground (arith, q, b)) p)
]

-- A rotation that stopped at the archive `g`.
pub rotate_log_files-stops :
    (files : Files) (retain g : ℕ) (renames : ℕ → Bool)
    → 1 ≤ g
    → g + 2 ≤ retain
    → ((k : ℕ) → g < k → renames k ≡ true)
    → renames g ≡ false
    → let (after, done) = rotate_log_files files retain true renames in
      (done ≡ false) × ((h : ℕ) → after h ≡ shifted (cleared files retain) g (retain - 2) h)
rotate_log_files-stops files retain g renames a b all p =
    let loop = shift_down (cleared files retain) (retain - 2) renames in
    let failed : loop.1 ≡ false =
      loop-fails (cleared files retain) (retain - 2) g renames a (omega arith) p in
    let eq : rotate_log_files files retain true renames ≡ (loop.0, false) =
      rotate-eq-loop files retain renames (omega arith)
      ∙ ap (λ b. rename_active (loop.0, b) renames) failed in
    (
      ap (λ r. r.1) eq,
      λ h.
          ap (λ (r : Files × Bool). r.0 h) eq
          ∙ shift_down-at (cleared files retain) (retain - 2) g renames h (omega arith)
              (λ k l m. all k l) (inr p) (cleared-last files retain (omega arith)),
    )

-- A whole rotation that keeps two files or more, with every operation let through.
pub rotate_log_files-at :
    (files : Files) (retain : ℕ)
    → 2 ≤ retain
    → let (after, done) = rotate_log_files files retain true (λ g. true) in
      (done ≡ true)
      × ((h : ℕ)
          → after h
            ≡ (if nat_beq h 0 then none else if ltb h retain then files (h - 1) else files h))
rotate_log_files-at files retain l =
    let loop = shift_down (cleared files retain) (retain - 2) (λ g. true) in
    let eq : rotate_log_files files retain true (λ g. true) ≡ (rename_up loop.0 0, true) =
      rotate-eq-loop files retain (λ g. true) l
      ∙ ap (λ b. rename_active (loop.0, b) (λ g. true))
          (loop-done (cleared files retain) (retain - 2)) in
    let at : (h : ℕ) → loop.0 h ≡ shifted (cleared files retain) 0 (retain - 2) h = λ h.
      shift_down-at (cleared files retain) (retain - 2) 0 (λ g. true) h (omega arith)
        (λ k a b. refl) (inl refl) (cleared-last files retain l) in
    (
      ap (λ r. r.1) eq,
      λ h.
          ap (λ (r : Files × Bool). r.0 h) eq
          ∙ ground (arith, l, rename_up-at loop.0 0 h (ground (arith, at 1)), at h, at 0),
    )
