-- ===== src/Identity/OriginsFile.antt =====
-- What RecordConsoleOrigins leaves for the node's tools to read.
use cube_advisor_agent.Base.{
  ◌≡◌, ◌≢◌, ◌⊎◌, inl, inr, refl, sym, ap, ◌∙◌, true, false, ◌||◌, ◌++◌, [], ◌∷◌, List, arith, Bytes,
  text, bytes_beq_iff, bytes_eq, Result, ok, err, Option, none, some, contains_any, elem, sort_by,
  split, cut, Bool-cases, ok_injective, Result-cases, append_assoc,
}
use cube_advisor_agent.Base.Io.{continue_with-eq-ok, lift-eq-ok, call-eq-ok, wrapped-eq-ok}
use cube_advisor_agent.Base.Pieces.{split-line, cut-word, elem-append, contains_any-elem}
use cube_advisor_agent.Os.{Os, OsError, FilePath, not_exist, other, IsLawful, Done}
use cube_advisor_agent.Identity.Origins.{
  Origins, origins_path, white, OriginsError, lines_of, make_dir_failed, temp_failed, close_failed,
  chmod_failed, install_failed, is_same, withdrawn, filled, installed, then_removed, replace,
  record_content, record_console_origins,
}

-- How the node reads the file: line by line, a target and an origin on each.
abbrev entry_of : Bytes → Option (Bytes × Bytes)
entry_of line = cut (b' ' ∷ []) line

unfoldable pub entries_in : List Bytes → Origins
unfolding cut
entries_in [] = []
entries_in (line ∷ more) =
    let rest = entries_in more in elim (entry_of line) [ none ↦ rest | some e ↦ e ∷ rest ]

unfoldable pub entries : Bytes → Origins
unfolding split entries_in
entries content = entries_in (split b'\n' content)

entries_in-some :
    (line : Bytes) (e : Bytes × Bytes) (more : List Bytes)
    → entry_of line ≡ some e
    → entries_in (line ∷ more) ≡ e ∷ entries_in more
unfolding entries_in
entries_in-some line e more h = rw (h, entries_in) refl

-- A line that is written is the line that is read.
entries-line :
    (target origin rest : Bytes)
    → contains_any white target ≡ false
    → contains_any white origin ≡ false
    → entries (target ++ b' ' ∷ (origin ++ b'\n' ∷ rest)) ≡ (target, origin) ∷ entries rest
unfolding entries
entries-line target origin rest h k =
    let one_line : elem b'\n' (target ++ b' ' ∷ origin) ≡ false =
      elem-append b'\n' target (b' ' ∷ origin) (contains_any-elem white target b'\n' h refl)
        (ground (arith, contains_any-elem white origin b'\n' k refl)) in
    let first = split-line b'\n' (target ++ b' ' ∷ origin) rest one_line in
    let word = cut-word b' ' target origin (contains_any-elem white target b' ' h refl) in
    let moved : target ++ b' ' ∷ (origin ++ b'\n' ∷ rest)
        ≡ (target ++ b' ' ∷ origin) ++ b'\n' ∷ rest =
      sym (append_assoc target (b' ' ∷ origin) (b'\n' ∷ rest)) in
    ap entries_in (ap (split b'\n') moved ∙ first)
    ∙ entries_in-some (target ++ b' ' ∷ origin) (target, origin) (split b'\n' rest) word

lines_of-entries : (os : Origins) (b : Bytes) → lines_of os ≡ ok b → entries b ≡ os
unfolding lines_of entries
lines_of-entries [] b h = let empty : [] ≡ b = ok_injective h in rw (← empty) refl
lines_of-entries ((target, origin) ∷ more) b h =
    elim (Bool-cases (contains_any white target || contains_any white origin)) [
      | inl blank ↦ absurd (ground (arith, h, blank))
      | inr plain ↦ elim (Result-cases (lines_of more)) [
        | inl (rest, e) ↦
            let same : target ++ b' ' ∷ (origin ++ b'\n' ∷ rest) ≡ b = ground (arith) in
            rw (← same) (
              entries-line target origin rest (ground arith) (ground arith)
              ∙ ap (λ (l : Origins). (target, origin) ∷ l) (lines_of-entries more rest e))
        | inr (why, e) ↦ absurd (ground arith)
      ]
    ]

module _ (os : Os) (lawful : IsLawful os) where
  withdrawn-gone :
      (s t : os.State) (p : FilePath) (got : os.State × Done)
      → os.remove s p ≡ got
      → withdrawn os got ≡ (t, ok tt)
      → os.read_file t p ≡ err not_exist
  withdrawn-gone s t p (u, ok _) e h =
      let same : u ≡ t = cc in
      lawful.read_removed s t p (e ∙ ap (λ (x : os.State). (x, ok tt)) same)
  withdrawn-gone s t p (u, err not_exist) e h =
      let same : u ≡ t = cc in
      (lawful.missing_removed s t p (e ∙ ap (λ (x : os.State). (x, err not_exist)) same)).0
  withdrawn-gone s t p (u, err (other why)) e h = absurd (ground arith)

  -- A file whose name is longer than the other's.
  longer_name :
      (p q : FilePath) (x : Bytes)
      → p.name ≡ text "console-origins." ++ x
      → q.name ≡ text "console-origins"
      → p ≢ q
  unfolding text
  longer_name p q x h k e =
      let same : text "console-origins." ++ x ≡ text "console-origins" =
        sym h ∙ ap (λ (f : FilePath). f.name) e ∙ k in
      absurd (ground (arith, same))

  filled-read :
      (s t : os.State) (p : FilePath) (content : Bytes) (got : os.State × Done)
      → os.append s p content ≡ got
      → filled os p got ≡ (t, ok tt)
      → os.read_file s p ≡ ok []
      → os.read_file t p ≡ ok content
  filled-read s t p content (u, ok _) e h empty =
      lawful.read_closed u t p p (wrapped-eq-ok close_failed (os.close u p) h)
      ∙ lawful.read_appended s u p [] content e empty
  filled-read s t p content (u, err why) e h empty = absurd (ground arith)

  installed-read :
      (s t : os.State) (tmp path : FilePath) (content : Bytes)
      → installed os tmp path content s ≡ (t, ok tt)
      → os.read_file s tmp ≡ ok []
      → os.read_file t path ≡ ok content
  installed-read s t tmp path content h empty =
      let (u, (_, (full, h1))) =
        continue_with-eq-ok (filled os tmp (os.append s tmp content)) _ h in
      let (v, (_, (open_to_all, h2))) = call-eq-ok chmod_failed (os.chmod u tmp 0o644) _ h1 in
      lawful.read_renamed v t tmp path (wrapped-eq-ok install_failed (os.rename v tmp path) h2)
      ∙ lawful.read_changed u v tmp tmp 0o644 open_to_all
      ∙ filled-read s u tmp content _ refl full empty

  then_removed-read :
      (s t : os.State) (tmp path : FilePath) (content : Bytes)
      (got : os.State × Result OriginsError (Unit {0}))
      → installed os tmp path content s ≡ got
      → then_removed os tmp got ≡ (t, ok tt)
      → os.read_file s tmp ≡ ok []
      → tmp ≢ path
      → os.read_file t path ≡ ok content
  then_removed-read s t tmp path content (u, ok _) e h empty apart =
      let left : (os.remove u tmp).0 ≡ t = ap (λ r. r.0) h in
      let (kept, _) =
        lawful.keep_removed u t tmp path (os.remove u tmp).1
          (ap (λ (x : os.State). (x, (os.remove u tmp).1)) left) apart in
      kept ∙ installed-read s u tmp path content e empty
  then_removed-read s t tmp path content (u, err why) e h empty apart = absurd (ground arith)

  replace-read :
      (s t : os.State) (dir content : Bytes)
      → replace os dir content s ≡ (t, ok tt)
      → os.read_file t (origins_path dir) ≡ ok content
  replace-read s t dir content h =
      let (u, (_, (_, h1))) = call-eq-ok make_dir_failed (os.mkdir_all s dir 0o700) _ h in
      let (v, (tmp, (created, h2))) =
        call-eq-ok temp_failed (os.create_temp u dir (text "console-origins.") []) _ h1 in
      let (_, (x, named)) = lawful.temp_name u v dir (text "console-origins.") [] tmp created in
      then_removed-read v t tmp (origins_path dir) content _ refl h2
        (lawful.read_temp u v dir (text "console-origins.") [] tmp created)
        (longer_name tmp (origins_path dir) (x ++ []) named refl)

  is_same-read :
      (r : Result OsError Bytes) (content : Bytes) → is_same r content ≡ true → r ≡ ok content
  is_same-read (ok old) content h = ap ok ((bytes_beq_iff old content).0 h)
  is_same-read (err e) content h = absurd (ground arith)

  record_content-read :
      (s t : os.State) (dir content : Bytes)
      → record_content os dir content s ≡ (t, ok tt)
      → os.read_file t (origins_path dir) ≡ ok content
  unfolding record_content
  record_content-read s t dir content h =
      elim (Bool-cases (is_same (os.read_file s (origins_path dir)) content)) [
        | inl same ↦
            let left : s ≡ t = ground (arith) in
            rw (← left) (is_same-read (os.read_file s (origins_path dir)) content same)
        | inr changed ↦ replace-read s t dir content (ground arith)
      ]

  -- The file is gone where the service reported no origins; otherwise its lines are the origins.
  abbrev pub IsRecorded : os.State → Bytes → Origins → Type 0
  IsRecorded t dir origins =
      ((origins ≡ []) × (os.read_file t (origins_path dir) ≡ err not_exist))
      ⊎ ((origins ≢ [])
          × ((content : Bytes) × ((os.read_file t (origins_path dir) ≡ ok content)
                × (entries content ≡ sort_by (λ (p : Bytes × Bytes). p.0) origins))))

  -- When RecordConsoleOrigins reports success, the file is gone where there are no origins, and
  -- otherwise a reader that takes it line by line, each a target, a space and an origin, finds exactly
  -- the service's pairs, sorted by target.
  pub record_console_origins-IsRecorded :
      (s t : os.State) (dir : Bytes) (origins : Origins)
      → record_console_origins os dir origins s ≡ (t, ok tt)
      → IsRecorded t dir origins
  unfolding record_console_origins
  record_console_origins-IsRecorded s t dir [] h =
      inl (refl, withdrawn-gone s t (origins_path dir) _ refl h)
  record_console_origins-IsRecorded s t dir (o ∷ more) h =
      let (content, (shown, h1)) =
        lift-eq-ok (lines_of (sort_by (λ (p : Bytes × Bytes). p.0) (o ∷ more))) s _ h in
      inr (
        (λ none_sent. cc),
        (content, (record_content-read s t dir content h1, lines_of-entries _ content shown)),
      )
