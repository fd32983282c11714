-- ===== src/Server/Audit/Trail.antt =====
-- audit.rs: the trail as one sequence of bytes, from the oldest file that is kept to what the open file
-- has in its buffer, and what each operation of the writer does to it.
use at_pc.Common.{
  ℕ, zero, suc, ◌-◌, ◌<◌, max, ◌≡◌, refl, sym, ap, ◌∙◌, Bool, true, none, some, [], ◌++◌, arith,
}
use at_pc.Server.Audit.{File, Files, set_file, rotate_log_files}
use at_pc.Server.Audit.Shift.{rotate_log_files-at}
use at_pc.Server.Audit.Retry.{
  Attempt, ok, Done, done, tried, attempt_of, retry, retry_io, rotate_retrying,
}
use at_pc.Server.Audit.Write.Laws.{append_nil, append_assoc}
use at_pc.Server.Audit.Writer.{or_empty, appended}

-- The files of the generations below `n`.
unfoldable pub trail : Files → ℕ → File
trail files zero = []
trail files (suc n) = or_empty (files n) ++ trail files n

pub trail-appended :
    (files : Files) (more : File) (n : ℕ)
    → trail (appended files more) (suc n) ≡ trail files (suc n) ++ more
unfolding trail
trail-appended files more zero =
    ap (λ (b : File). b) (append_assoc (or_empty (files 0)) more [])
    ∙ ap (λ b. or_empty (files 0) ++ b) (append_nil more)
    ∙ ap (λ b. b ++ more) (sym (append_nil (or_empty (files 0))))
trail-appended files more (suc n) =
    let same : appended files more (suc n) ≡ files (suc n) = ground arith in
    ap (λ o. or_empty o ++ trail (appended files more) (suc n)) same
    ∙ ap (λ b. or_empty (files (suc n)) ++ b) (trail-appended files more n)
    ∙ sym (append_assoc (or_empty (files (suc n))) (trail files (suc n)) more)

-- The files up to `n` have moved up by one.
trail-shift :
    (files after : Files) (n : ℕ)
    → after 0 ≡ none
    → ((h : ℕ) → h < n → after (suc h) ≡ files h)
    → trail after (suc n) ≡ trail files n
unfolding trail
trail-shift files after zero first up = ap (λ o. or_empty o ++ []) first
trail-shift files after (suc n) first up =
    ap (λ o. or_empty o ++ trail after (suc n)) (up n (omega arith))
    ∙ ap (λ b. or_empty (files n) ++ b)
        (trail-shift files after n first (λ h l. up h (omega arith)))

-- Where a rotation that goes through leaves the files: it takes away the oldest.
trail-rotate_log_files :
    (files : Files) (retain n : ℕ)
    → suc n ≡ max retain 1
    → let (after, rotated) = rotate_log_files files retain true (λ g. true) in
      (rotated ≡ true) × (trail files (suc n) ≡ or_empty (files n) ++ trail after (suc n))
trail-rotate_log_files files retain zero e =
    let eq : rotate_log_files files retain true (λ g. true) ≡ (set_file files 0 none, true) =
      unfold rotate_log_files in ground (arith, e) in
    let none_left : trail (set_file files 0 none) 1 ≡ [] = unfold trail in refl in
    let one : trail files 1 ≡ or_empty (files 0) ++ [] = unfold trail in refl in
    (
      ap (λ r. r.1) eq,
      one ∙ ap (λ b. or_empty (files 0) ++ b) (sym (ap (λ r. trail r.0 1) eq ∙ none_left)),
    )
trail-rotate_log_files files retain (suc m) e =
    let same : suc (suc m) ≡ retain = omega arith in
    let at = rotate_log_files-at files retain (omega arith) in
    let after = (rotate_log_files files retain true (λ g. true)).0 in
    let first : after 0 ≡ none = at.1 0 ∙ ground arith in
    let up : (h : ℕ) → h < suc m → after (suc h) ≡ files h =
      λ h l. at.1 (suc h) ∙ ground (arith, l, same) in
    let step : trail files (suc (suc m)) ≡ or_empty (files (suc m)) ++ trail files (suc m) =
      unfold trail in refl in
    (
      at.0,
      step
          ∙ ap (λ b. or_empty (files (suc m)) ++ b)
              (sym (trail-shift files after (suc m) first up)),
    )

retry-first :
    (files after : Files) (k : ℕ) (attempt : ℕ → Files → Files × Attempt Done)
    → attempt 1 files ≡ (after, ok done)
    → retry attempt 1 (suc k) files ≡ (after, some done)
unfolding retry
retry-first files after k attempt p = ap (λ r. tried (λ j s. retry attempt 2 k s) k r) p

-- A rotation whose first attempt is granted everything needs no other.
pub rotate_retrying-once :
    (max_attempts retain : ℕ) (renames : ℕ → ℕ → Bool) (is_transient : ℕ → Bool) (files : Files)
    (n : ℕ)
    → suc n ≡ max retain 1
    → renames 1 ≡ (λ g. true)
    → (after : Files) × (rotate_retrying max_attempts retain renames is_transient files
        ≡ (after, some done))
      × (trail files (suc n) ≡ or_empty (files n) ++ trail after (suc n))
unfolding rotate_retrying retry_io
rotate_retrying-once max_attempts retain renames is_transient files n e granted =
    let once = trail-rotate_log_files files retain n e in
    let after = (rotate_log_files files retain true (λ g. true)).0 in
    let first : attempt_of (rotate_log_files files retain true (renames 1)) (is_transient 1)
        ≡ (after, ok done) =
      ap (λ p. attempt_of (rotate_log_files files retain true p) (is_transient 1)) granted
      ∙ ap (λ b. attempt_of (after, b) (is_transient 1)) once.0 in
    let left : max max_attempts 1 ≡ suc (max max_attempts 1 - 1) = omega arith in
    let attempt : ℕ → Files → Files × Attempt Done = λ number fs.
      attempt_of (rotate_log_files fs retain true (renames number)) (is_transient number) in
    (
      after,
      ap (λ k. retry attempt 1 k files) left
          ∙ retry-first files after (max max_attempts 1 - 1) attempt first,
      once.1,
    )
