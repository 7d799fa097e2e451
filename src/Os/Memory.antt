-- ===== src/Os/Memory.antt =====
-- Files in memory, where no call fails but for a missing file: the assumptions can be met.
use cube_advisor_agent.Base.{
  ℕ, ◌≡◌, ◌≢◌, ◌↔◌, refl, Bool, true, ◌&&◌, Bytes, Result, ok, err, List, [], ◌∷◌, bytes_beq,
  bytes_beq_iff, if◌then◌else◌, arith, ◌%◌, ◌^◌, ◌<◌, ap, sym, ◌∙◌, ◌++◌, bit_and, Bool-cases, inl,
  inr,
}
use cube_advisor_agent.Os.{FilePath, Os, Done, OsError, not_exist, IsLawful}

-- The permission bits and the content of each file.
abbrev pub Files : Type 0
Files = List (FilePath × (ℕ × Bytes))

unfoldable pub path_beq : FilePath → FilePath → Bool
path_beq p q = bytes_beq p.dir q.dir && bytes_beq p.name q.name

path_beq_iff : (p q : FilePath) → (path_beq p q ≡ true) ↔ (p ≡ q)
unfolding path_beq
path_beq_iff p q = ground (arith, bytes_beq_iff p.dir q.dir, bytes_beq_iff p.name q.name)

unfoldable pub find : FilePath → Files → Result OsError (ℕ × Bytes)
unfolding path_beq
find p [] = err not_exist
find p ((q, f) ∷ fs) = if path_beq q p then ok f else find p fs

unfoldable pub without : FilePath → Files → Files
unfolding path_beq
without p [] = []
without p ((q, f) ∷ fs) = let rest = without p fs in if path_beq q p then rest else (q, f) ∷ rest

abbrev mode_of : Result OsError (ℕ × Bytes) → Result OsError ℕ
mode_of (ok (m, b)) = ok (m % 2 ^ 9)
mode_of (err e) = err e

abbrev bytes_of : Result OsError (ℕ × Bytes) → Result OsError Bytes
bytes_of (ok (m, b)) = ok b
bytes_of (err e) = err e

abbrev old_mode : Result OsError (ℕ × Bytes) → ℕ → ℕ
old_mode (ok (m, b)) new = m
old_mode (err e) new = new

abbrev put : FilePath → ℕ → Bytes → Files → Files × Done
put p m b fs = ((p, (m, b)) ∷ fs, ok tt)

abbrev change : FilePath → ℕ → Files → Result OsError (ℕ × Bytes) → Files × Done
change p m fs (ok (_, b)) = put p m b fs
change p m fs (err e) = (fs, err e)

abbrev drop_found : FilePath → Files → Result OsError (ℕ × Bytes) → Files × Done
drop_found p fs (ok f) = (without p fs, ok tt)
drop_found p fs (err e) = (fs, err e)

abbrev move : FilePath → FilePath → Files → Result OsError (ℕ × Bytes) → Files × Done
move p q fs (ok f) = ((q, f) ∷ without p fs, ok tt)
move p q fs (err e) = (fs, err e)

abbrev temp : Bytes → Bytes → Bytes → FilePath
temp d before behind = record { dir = d; name = before ++ ((b'0' ∷ []) ++ behind) }

abbrev made : FilePath → Files → Files × Result OsError FilePath
made p fs = ((p, (0o600, [])) ∷ fs, ok p)

abbrev extend : FilePath → Bytes → Files → Result OsError (ℕ × Bytes) → Files × Done
extend p b fs (ok (m, old)) = put p m (old ++ b) fs
extend p b fs (err e) = (fs, err e)

abbrev pub memory_os : Os
memory_os = record {
  State = Files;
  stat = λ fs p. mode_of (find p fs);
  read_file = λ fs p. bytes_of (find p fs);
  write_file = λ fs p b m. put p (old_mode (find p fs) m) b fs;
  chmod = λ fs p m. change p m fs (find p fs);
  remove = λ fs p. drop_found p fs (find p fs);
  rename = λ fs p q. move p q fs (find p fs);
  mkdir_all = λ fs d m. (fs, ok tt);
  create_temp = λ fs d before behind. made (temp d before behind) fs;
  append = λ fs p b. extend p b fs (find p fs);
  close = λ fs p. (fs, ok tt);
}

find-cons_self : (p : FilePath) (f : ℕ × Bytes) (fs : Files) → find p ((p, f) ∷ fs) ≡ ok f
unfolding find
find-cons_self p f fs = ground (arith, path_beq_iff p p)

find-cons_ne :
    (p q : FilePath) (f : ℕ × Bytes) (fs : Files) → p ≢ q → find q ((p, f) ∷ fs) ≡ find q fs
unfolding find
find-cons_ne p q f fs h = ground (arith, path_beq_iff p q)

find-without : (p : FilePath) (fs : Files) → find p (without p fs) ≡ err not_exist
unfolding find without
find-without p [] = refl
find-without p ((q, f) ∷ fs) = ground (arith, find-without p fs)

find-without_ne : (p q : FilePath) (fs : Files) → p ≢ q → find q (without p fs) ≡ find q fs
unfolding find without
find-without_ne p q [] ne = refl
find-without_ne p q ((x, f) ∷ fs) ne =
    ground (arith, find-without_ne p q fs ne, path_beq_iff x p, path_beq_iff x q)

mode_of-lt : (r : Result OsError (ℕ × Bytes)) (m : ℕ) → mode_of r ≡ ok m → m < 2 ^ 9
mode_of-lt (ok (n, b)) m h = ground arith
mode_of-lt (err e) m h = cc

module _ (fs t : Files) (p : FilePath) where
  put-read : (m : ℕ) (b : Bytes) → put p m b fs ≡ (t, ok tt) → find p t ≡ ok (m, b)
  put-read m b h = rw (← ap (λ (r : Files × Done). r.0) h) (find-cons_self p (m, b) fs)

  put-keep :
      (q : FilePath) (m : ℕ) (b : Bytes) → put p m b fs ≡ (t, ok tt) → p ≢ q → find q t ≡ find q fs
  put-keep q m b h ne = rw (← ap (λ (r : Files × Done). r.0) h) (find-cons_ne p q (m, b) fs ne)

  change-stat :
      (m : ℕ) (r : Result OsError (ℕ × Bytes))
      → change p m fs r ≡ (t, ok tt)
      → m < 2 ^ 9
      → mode_of (find p t) ≡ ok m
  change-stat m (ok (n, b)) h lt = rw (put-read m b h) (ap ok (omega arith))
  change-stat m (err e) h lt = cc

  change-read :
      (q : FilePath) (m : ℕ) (r : Result OsError (ℕ × Bytes))
      → find p fs ≡ r
      → change p m fs r ≡ (t, ok tt)
      → bytes_of (find q t) ≡ bytes_of (find q fs)
  change-read q m (ok (n, b)) found h = elim (Bool-cases (path_beq p q)) [
    | inl same ↦ let e = (path_beq_iff p q).0 same in rw (← e, put-read m b h, found) refl
    | inr differ ↦ rw (put-keep q m b h (λ e. cc ((path_beq_iff p q).1 e))) refl
  ]
  change-read q m (err e) found h = cc

  change-keep :
      (q : FilePath) (m : ℕ) (r : Result OsError (ℕ × Bytes))
      → change p m fs r ≡ (t, ok tt)
      → p ≢ q
      → find q t ≡ find q fs
  change-keep q m (ok (n, b)) h ne = put-keep q m b h ne
  change-keep q m (err e) h ne = cc

  removed :
      (r : Result OsError (ℕ × Bytes)) → drop_found p fs r ≡ (t, ok tt) → find p t ≡ err not_exist
  removed (ok f) h = rw (← ap (λ (r : Files × Done). r.0) h) (find-without p fs)
  removed (err e) h = cc

  moved :
      (q : FilePath) (r : Result OsError (ℕ × Bytes)) → move p q fs r ≡ (t, ok tt) → find q t ≡ r
  moved q (ok f) h = rw (← ap (λ (r : Files × Done). r.0) h) (find-cons_self q f (without p fs))
  moved q (err e) h = cc

  created :
      (b : Bytes) (m mask : ℕ) (r : Result OsError (ℕ × Bytes))
      → put p (old_mode r m) b fs ≡ (t, ok tt)
      → mode_of r ≡ err not_exist
      → m < 2 ^ 9
      → bit_and m mask ≡ 0
      → (n : ℕ) × ((mode_of (find p t) ≡ ok n) × (bit_and n mask ≡ 0))
  created b m mask (ok f) h none_yet lt within = absurd (ground arith)
  created b m mask (err e) h none_yet lt within =
      (m, (rw (put-read m b h) (ap ok (omega arith)), within))

  dropped-keep :
      (q : FilePath) (r : Result OsError (ℕ × Bytes)) (d : Done)
      → drop_found p fs r ≡ (t, d)
      → p ≢ q
      → find q t ≡ find q fs
  dropped-keep q (ok f) d h ne = rw (← ap (λ (r : Files × Done). r.0) h) (find-without_ne p q fs ne)
  dropped-keep q (err e) d h ne = ap (find q) (sym (ap (λ (r : Files × Done). r.0) h))

  missing :
      (r : Result OsError (ℕ × Bytes))
      → find p fs ≡ r
      → drop_found p fs r ≡ (t, err not_exist)
      → find p t ≡ err not_exist
  missing (ok f) found h = absurd (ground arith)
  missing (err e) found h =
      let same : fs ≡ t = ap (λ (r : Files × Done). r.0) h in
      let why : e ≡ not_exist = cc in ap (find p) (sym same) ∙ found ∙ ap err why

  made-find : (x q : FilePath) → made x fs ≡ (t, ok q) → (x ≡ q) × (find q t ≡ ok (0o600, []))
  made-find x q h =
      let same : x ≡ q = cc in
      let left : (x, (0o600, [])) ∷ fs ≡ t = ap (λ (r : Files × Result OsError FilePath). r.0) h in
      (same, rw (← left, ← same) (find-cons_self x (0o600, []) fs))

  extended :
      (old b : Bytes) (r : Result OsError (ℕ × Bytes))
      → extend p b fs r ≡ (t, ok tt)
      → bytes_of r ≡ ok old
      → bytes_of (find p t) ≡ ok (old ++ b)
  extended old b (ok (m, c)) h e =
      let same : c ≡ old = cc in
      rw (put-read m (c ++ b) h) (ap ok (ap (λ (x : Bytes). x ++ b) same))
  extended old b (err e) h k = absurd (ground arith)

  moved-keep :
      (q x : FilePath) (r : Result OsError (ℕ × Bytes))
      → move p q fs r ≡ (t, ok tt)
      → p ≢ x
      → q ≢ x
      → find x t ≡ find x fs
  moved-keep q x (ok f) h ne ne' =
      rw (← ap (λ (r : Files × Done). r.0) h)
        (find-cons_ne q x f (without p fs) ne' ∙ find-without_ne p x fs ne)
  moved-keep q x (err e) h ne ne' = cc

change-apart :
    (fs : Files) (p q : FilePath) (m : ℕ) (r : Result OsError (ℕ × Bytes))
    → p ≢ q
    → find q (change p m fs r).0 ≡ find q fs
change-apart fs p q m (ok (n, b)) ne = find-cons_ne p q (m, b) fs ne
change-apart fs p q m (err e) ne = refl

-- A state that a call which succeeds leaves as it was.
left_alone : (fs t : Files) → ◌≡◌ {A = Files × Done} (fs, ok tt) (t, ok tt) → t ≡ fs
left_alone fs t h = sym (ap (λ (r : Files × Done). r.0) h)

pub memory_os-IsLawful : IsLawful memory_os
memory_os-IsLawful = record {
  perm_bits = λ s p m h. mode_of-lt (find p s) m h;
  read_written = λ s t p b m h. ap bytes_of (put-read s t p _ b h);
  keep_written = λ s t p q b m h ne.
      (ap bytes_of (put-keep s t p q _ b h ne), ap mode_of (put-keep s t p q _ b h ne));
  stat_changed = λ s t p m h lt. change-stat s t p m (find p s) h lt;
  read_changed = λ s t p q m h. change-read s t p q m (find p s) refl h;
  keep_changed = λ s t p q m h ne. ap mode_of (change-keep s t p q m (find p s) h ne);
  read_removed = λ s t p h. ap bytes_of (removed s t p (find p s) h);
  read_renamed = λ s t p q h. ap bytes_of (moved s t p q (find p s) h);
  stat_created =
      λ s t p b m mask h none_yet lt within. created s t p b m mask (find p s) h none_yet lt within;
  keep_removed = λ s t p q r h ne.
      let same = dropped-keep s t p q (find p s) r h ne in (ap bytes_of same, ap mode_of same);
  stat_removed = λ s t p h. ap mode_of (removed s t p (find p s) h);
  missing_removed =
      λ s t p h. let gone = missing s t p (find p s) refl h in (ap bytes_of gone, ap mode_of gone);
  keep_made = λ s t q m h.
      let same = left_alone s t h in
      (ap (λ (x : Files). bytes_of (find q x)) same, ap (λ (x : Files). mode_of (find q x)) same);
  stat_renamed = λ s t p q h. ap mode_of (moved s t p q (find p s) h);
  temp_name = λ s t d before behind p h.
      let (same, _) = made-find s t p (temp d before behind) p h in
      (
        ap (λ (x : FilePath). x.dir) (sym same),
        (b'0' ∷ [], ap (λ (x : FilePath). x.name) (sym same)),
      );
  read_temp = λ s t d before behind p h. ap bytes_of (made-find s t p (temp d before behind) p h).1;
  read_appended = λ s t p old b h e. extended s t p old b (find p s) h e;
  read_closed = λ s t p q h. ap (λ (x : Files). bytes_of (find q x)) (left_alone s t h);
  keep_renamed = λ s t p q r h ne ne'. ap bytes_of (moved-keep s t p q r (find p s) h ne ne');
  write_apart = λ s p q b m ne.
      let same = find-cons_ne p q (old_mode (find p s) m, b) s ne in
      (ap bytes_of same, ap mode_of same);
  chmod_apart = λ s p q m ne.
      let same = change-apart s p q m (find p s) ne in (ap bytes_of same, ap mode_of same);
  mkdir_apart = λ s q m. (refl, refl);
}
