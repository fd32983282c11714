-- ===== src/Server/Audit/Rotation.antt =====
-- audit.rs: a rotation as the readers of the audit trail see it, and one that is tried again.
use at_pc.Common.{
  ℕ, zero, suc, ◌+◌, ◌-◌, ◌≤◌, ◌<◌, ◌≡◌, refl, sym, ap, subst, ◌∙◌, max, Bool, true, false, not,
  ◌&&◌, Option, none, some, ◌∷◌, nat_beq, ltb, arith, inl, inr, Option-cases, Bool-cases,
  if◌then◌else◌, length,
}
use at_pc.Server.Audit.{File, Files, rotate_log_files}
use at_pc.Server.Audit.Shift.{shifted, cleared, rotate_log_files-stops, rotate_log_files-at}
use at_pc.Server.Audit.Snapshot.{
  max_archives, open_archives, export_archives, append_current, export_jsonl_path,
}
use at_pc.Server.Audit.Retry.{
  Attempt, ok, transient, Done, done, tried, retry, retry_io, attempt_of, rotate_retrying,
}

archive_beyond :
    (files : Files) (n g k : ℕ)
    → files k ≡ none
    → g ≤ k
    → k ≤ g + n
    → open_archives files n g ≡ open_archives files (suc n) g
unfolding open_archives
archive_beyond files zero g k p a b =
    let here : files g ≡ none = ap files (omega arith) ∙ p in ground (arith, here)
archive_beyond files (suc n) g k p a b = elim (Option-cases (files g)) [
  | inl q ↦ ground (arith, q)
  | inr (f, q) ↦
      let further : g + 1 ≤ k = elim (Bool-cases (nat_beq g k)) [
        | inl e ↦
            let same : files g ≡ files k = ap files (ground (arith, e)) in
            absurd (ground (arith, same, p, q))
        | inr e ↦ ground (arith, e, a)
      ] in
      ground (arith, q, archive_beyond files n (g + 1) k p further (omega arith))
]

open_archives-shift :
    (files after : Files) (n g : ℕ)
    → ((h : ℕ) → g ≤ h → after (h + 1) ≡ files h)
    → open_archives after n (g + 1) ≡ open_archives files n g
unfolding open_archives
open_archives-shift files after zero g same = refl
open_archives-shift files after (suc n) g same = ground (
  arith,
  same g (omega arith),
  open_archives-shift files after n (g + 1) (λ h a. same h (omega arith)),
)

-- Nothing of the trail is at the last generation that is kept, or beyond.
abbrev pub HasRoom : Files → ℕ → Type 0
HasRoom files retain = (h : ℕ) → retain ≤ h + 1 → files h ≡ none

archives-shift :
    (files after : Files) (n retain : ℕ) (current : File)
    → 2 ≤ retain
    → retain ≤ suc n
    → HasRoom files retain
    → after 1 ≡ some current
    → ((h : ℕ) → 1 ≤ h → after (h + 1) ≡ files h)
    → open_archives after (suc n) 1 ≡ current ∷ open_archives files (suc n) 1
unfolding open_archives
archives-shift files after n retain current l m room first up =
    let last : files (retain - 1) ≡ none = room (retain - 1) (omega arith) in
    ground (arith, first)
    ∙ ap (λ fs. current ∷ fs)
        (open_archives-shift files after n 1 up
          ∙ archive_beyond files n 1 (retain - 1) last (omega arith) (omega arith))

export-shift :
    (files after : Files) (current : File)
    → files 0 ≡ some current
    → after 0 ≡ none
    → open_archives after max_archives 1 ≡ current ∷ open_archives files max_archives 1
    → export_jsonl_path after ≡ export_jsonl_path files
unfolding export_jsonl_path export_archives
export-shift files after current p q e =
    ap (λ o. append_current (export_archives (open_archives after max_archives 1)) o) q
    ∙ ap export_archives e
    ∙ sym (ap (λ o. append_current (export_archives (open_archives files max_archives 1)) o) p)

-- As long as there is room for one more archive, a rotation is invisible in the export: every byte of
-- the active file and of the archives is exported before and after it, in the same order.
pub rotate_log_files-export :
    (files : Files) (retain : ℕ) (current : File)
    → 2 ≤ retain
    → retain ≤ 1024
    → files 0 ≡ some current
    → HasRoom files retain
    → let (after, rotated) = rotate_log_files files retain true (λ g. true) in
      (rotated ≡ true) × (export_jsonl_path after ≡ export_jsonl_path files)
rotate_log_files-export files retain current l m c room =
    let at = rotate_log_files-at files retain l in
    let after = (rotate_log_files files retain true (λ g. true)).0 in
    let first : after 1 ≡ some current = at.1 1 ∙ ground (arith, l, c) in
    let none_active : after 0 ≡ none = at.1 0 ∙ ground (arith, l) in
    let shifted-up : (h : ℕ)
        → 1 ≤ h
        → (if nat_beq (h + 1) 0
            then none
            else if ltb (h + 1) retain
            then files (h + 1 - 1)
            else files (h + 1))
          ≡ files h =
      λ h a.
        let back : files (h + 1 - 1) ≡ files h = ap files (omega arith) in
        ground (arith, room h, room (h + 1), back) in
    let up : (h : ℕ) → 1 ≤ h → after (h + 1) ≡ files h = λ h a. at.1 (h + 1) ∙ shifted-up h a in
    let limit : 1024 ≡ max_archives = unfold max_archives in refl in
    let archives : open_archives after max_archives 1
        ≡ current ∷ open_archives files max_archives 1 =
      subst (λ n. open_archives after n 1 ≡ current ∷ open_archives files n 1) limit
        (archives-shift files after 1023 retain current l m room first up) in
    (at.0, export-shift files after current c none_active archives)

-- A first attempt that fails at the archive `g` with a transient error, and a second that goes through.
abbrev pub interrupted : ℕ → ℕ → ℕ → Bool
interrupted g number h = not (nat_beq number 1 && nat_beq h g)

retry-second :
    (files middle after : Files) (n : ℕ) (attempt : ℕ → Files → Files × Attempt Done)
    → attempt 1 files ≡ (middle, transient)
    → attempt 2 middle ≡ (after, ok done)
    → retry attempt 1 (suc (suc n)) files ≡ (after, some done)
unfolding retry
retry-second files middle after n attempt p q =
    ap (λ r. tried (λ k s. retry attempt 2 (suc n) s) (suc n) r) p
    ∙ ap (λ r. tried (λ k s. retry attempt 3 n s) n r) q

retry_io-second :
    (files middle after : Files) (n : ℕ) (attempt : ℕ → Files → Files × Attempt Done)
    → attempt 1 files ≡ (middle, transient)
    → attempt 2 middle ≡ (after, ok done)
    → retry_io (suc (suc n)) attempt files ≡ (after, some done)
unfolding retry_io
retry_io-second files middle after n attempt p q =
    let at_least : max (suc (suc n)) 1 ≡ suc (suc n) = omega arith in
    ap (λ k. retry attempt 1 k files) at_least ∙ retry-second files middle after n attempt p q

-- Where each file is after the second attempt.
twice :
    (files middle after : Files) (retain g : ℕ)
    → 1 ≤ g
    → g + 3 ≤ retain
    → ((h : ℕ) → middle h ≡ shifted (cleared files retain) g (retain - 2) h)
    → ((h : ℕ)
        → after h
          ≡ (if nat_beq h 0 then none else if ltb h retain then middle (h - 1) else middle h))
    → ((h : ℕ) → 1 ≤ h → h ≤ g + 1 → after h ≡ files (h - 1))
      × (after (g + 2) ≡ none)
      × ((h : ℕ) → g + 3 ≤ h → h < retain → after h ≡ files (h - 2))
twice files middle after retain g a b first second = (
  λ h l m. ground (arith, second h, first (h - 1), l, m, a, b),
  (let below : g + 2 - 1 ≡ g + 1 = omega arith in
      let same : middle (g + 2 - 1) ≡ middle (g + 1) = ap middle below in
      ground (arith, second (g + 2), same, first (g + 1), a, b)),
  λ h l m.
      let below : h - 1 - 1 ≡ h - 2 = omega arith in
      let same : files (h - 1 - 1) ≡ files (h - 2) = ap files below in
      ground (arith, second h, first (h - 1), same, l, m, a, b),
)

archives-gap :
    (files : Files) (n g k : ℕ) → files k ≡ none → g ≤ k → length (open_archives files n g) + g ≤ k
unfolding open_archives
archives-gap files zero g k p l = omega arith
archives-gap files (suc n) g k p l = elim (Bool-cases (nat_beq g k)) [
  | inl e ↦
      let same : files g ≡ files k = ap files (ground (arith, e)) in ground (arith, same, p, l)
  | inr e ↦ ground (arith, archives-gap files n (g + 1) k p (ground (arith, e, l)), l)
]

-- A rotation is not safe to try again. If its first attempt fails with a transient error on moving the
-- archive `g`, at least three below the number of files that are kept, and the second one goes
-- through, the rotation succeeds, but not as one that went through at once: behind
-- the archive `g + 1` there is a gap, every older archive has moved up two places instead of one,
-- and so the two oldest archives are lost where the retention allows for one. An export or a read
-- then stops at the gap: it finds at most `g + 1` archives.
pub rotate_retrying-loses :
    (files : Files) (retain g n : ℕ) (is_transient : ℕ → Bool)
    → is_transient 1 ≡ true
    → 1 ≤ g
    → g + 3 ≤ retain
    → let (after, result) =
        rotate_retrying (suc (suc n)) retain (interrupted g) is_transient files in
      (result ≡ some done)
      × ((h : ℕ) → 1 ≤ h → h ≤ g + 1 → after h ≡ files (h - 1))
      × (after (g + 2) ≡ none)
      × ((h : ℕ) → g + 3 ≤ h → h < retain → after h ≡ files (h - 2))
      × (length (open_archives after max_archives 1) ≤ g + 1)
unfolding rotate_retrying
rotate_retrying-loses files retain g n is_transient again a b =
    let middle = rotate_log_files files retain true (interrupted g 1) in
    let after = rotate_log_files middle.0 retain true (λ h. true) in
    let stops =
      rotate_log_files-stops files retain g (interrupted g 1) a (omega arith)
        (λ k l. ground (arith, l)) (ground arith) in
    let whole = rotate_log_files-at middle.0 retain (omega arith) in
    let first : attempt_of middle (is_transient 1) ≡ (middle.0, transient) =
      ap (λ b. attempt_of (middle.0, b) (is_transient 1)) stops.0
      ∙ ap (λ b. attempt_of (middle.0, false) b) again in
    let second : attempt_of after (is_transient 2) ≡ (after.0, ok done) =
      ap (λ b. attempt_of (after.0, b) (is_transient 2)) whole.0 in
    let eq : rotate_retrying (suc (suc n)) retain (interrupted g) is_transient files
        ≡ (after.0, some done) =
      retry_io-second files middle.0 after.0 n
        (λ number fs.
          attempt_of (rotate_log_files fs retain true (interrupted g number)) (is_transient number))
        first second in
    let at : (h : ℕ)
        → (rotate_retrying (suc (suc n)) retain (interrupted g) is_transient files).0 h
          ≡ (if nat_beq h 0 then none else if ltb h retain then middle.0 (h - 1) else middle.0 h) =
      λ h. ap (λ (r : Files × Option Done). r.0 h) eq ∙ whole.1 h in
    let places = twice files middle.0 _ retain g a b stops.1 at in
    let gap =
      archives-gap (rotate_retrying (suc (suc n)) retain (interrupted g) is_transient files).0
        max_archives 1 (g + 2) places.1 (omega arith) in
    (ap (λ r. r.1) eq, places.0, places.1, places.2, omega arith)
