-- ===== src/Toolplane/Dials/RoundTrip.antt =====
-- WriteLevel and WriteConsent against ReadLevel and ReadConsent, over any lawful system.
use cube_advisor_agent.Base.{
  ◌≡◌, ◌≢◌, ◌⊎◌, inl, inr, refl, none, arith, Bytes, text, ok, ◌++◌, ap, ◌∙◌, sym, bytes_beq,
  trim_space,
}
use cube_advisor_agent.Os.{Os, FilePath, IsLawful}
use cube_advisor_agent.Toolplane.Level.{
  parse_level, level_string, level_of_content, level_path, others_may_write, read_level,
}
use cube_advisor_agent.Toolplane.Consent.{
  parse_consent, consent_string, consent_of_content, consent_path, read_consent,
}
use cube_advisor_agent.Toolplane.Dials.{dial_mode, newline, write_dial, write_level, write_consent}

module _ (os : Os) (lawful : IsLawful os) where
  -- What a write that reports success leaves at its path.
  record IsRecorded (t : os.State) (p : FilePath) (word : Bytes) : Type 0 where
    mode : os.stat t p ≡ ok dial_mode
    content : os.read_file t p ≡ ok (word ++ newline)

  -- The two calls behind a successful write.
  write_dial-steps :
      (s t : os.State) (p : FilePath) (word : Bytes)
      → write_dial os s p word ≡ (t, ok tt)
      → (mid : os.State) × (os.write_file s p (word ++ newline) dial_mode ≡ (mid, ok tt))
        × (os.chmod mid p dial_mode ≡ (t, ok tt))
  unfolding write_dial
  write_dial-steps s t p word h =
      ((os.write_file s p (word ++ newline) dial_mode).0, ground arith, ground arith)

  write_dial-IsRecorded :
      (s t : os.State) (p : FilePath) (word : Bytes)
      → write_dial os s p word ≡ (t, ok tt)
      → IsRecorded t p word
  write_dial-IsRecorded s t p word h =
      let (mid, wrote, changed) = write_dial-steps s t p word h in
      record {
        mode = lawful.stat_changed mid t p dial_mode changed (omega arith);
        content =
            lawful.read_changed mid t p p dial_mode changed
            ∙ lawful.read_written s mid p (word ++ newline) dial_mode wrote;
      }

  -- The other dial's file is as it was.
  write_dial-keeps :
      (s t : os.State) (p q : FilePath) (word : Bytes)
      → write_dial os s p word ≡ (t, ok tt)
      → p ≢ q
      → (os.read_file t q ≡ os.read_file s q) × (os.stat t q ≡ os.stat s q)
  write_dial-keeps s t p q word h ne =
      let (mid, wrote, changed) = write_dial-steps s t p word h in
      let (content, mode) = lawful.keep_written s mid p q (word ++ newline) dial_mode wrote ne in
      (
        lawful.read_changed mid t p q dial_mode changed ∙ content,
        lawful.keep_changed mid t p q dial_mode changed ne ∙ mode,
      )

  read_level_recorded :
      (t : os.State) (dir word : Bytes)
      → IsRecorded t (level_path dir) word
      → read_level os t dir ≡ level_of_content (word ++ newline)
  unfolding read_level others_may_write
  read_level_recorded t dir word r = rw (r.mode, read_level, r.content) refl

  read_consent_recorded :
      (t : os.State) (dir word : Bytes)
      → IsRecorded t (consent_path dir) word
      → read_consent os t dir ≡ consent_of_content (word ++ newline)
  unfolding read_consent others_may_write
  read_consent_recorded t dir word r = rw (r.mode, read_consent, r.content) refl

  read_level_kept :
      (s t : os.State) (dir : Bytes)
      → (os.read_file t (level_path dir) ≡ os.read_file s (level_path dir))
        × (os.stat t (level_path dir) ≡ os.stat s (level_path dir))
      → read_level os t dir ≡ read_level os s dir
  unfolding read_level
  read_level_kept s t dir (content, mode) = ground arith

  read_consent_kept :
      (s t : os.State) (dir : Bytes)
      → (os.read_file t (consent_path dir) ≡ os.read_file s (consent_path dir))
        × (os.stat t (consent_path dir) ≡ os.stat s (consent_path dir))
      → read_consent os t dir ≡ read_consent os s dir
  unfolding read_consent
  read_consent_kept s t dir (content, mode) = ground arith

parse_level-cases :
    (w : Bytes)
    → (parse_level w).1 ≡ none
    → (parse_level w ≡ (1, none)) ⊎ (parse_level w ≡ (2, none)) ⊎ (parse_level w ≡ (3, none))
unfolding parse_level
parse_level-cases w h = ground arith

parse_consent-cases :
    (w : Bytes)
    → (parse_consent w).1 ≡ none
    → (parse_consent w ≡ (1, none)) ⊎ (parse_consent w ≡ (2, none)) ⊎ (parse_consent w ≡ (3, none))
unfolding parse_consent
parse_consent-cases w h = ground arith

levels_reread :
    (level_of_content (level_string 1 ++ newline) ≡ (1, none))
    × (level_of_content (level_string 2 ++ newline) ≡ (2, none))
    × (level_of_content (level_string 3 ++ newline) ≡ (3, none))
unfolding level_of_content level_string text trim_space parse_level bytes_beq
levels_reread = (refl, refl, refl)

consents_reread :
    (consent_of_content (consent_string 1 ++ newline) ≡ (1, none))
    × (consent_of_content (consent_string 2 ++ newline) ≡ (2, none))
    × (consent_of_content (consent_string 3 ++ newline) ≡ (3, none))
unfolding consent_of_content consent_string text trim_space parse_consent bytes_beq
consents_reread = (refl, refl, refl)

-- A recorded word reads back as the value that it names.
level_reread :
    (w : Bytes)
    → (parse_level w).1 ≡ none
    → level_of_content (level_string (parse_level w).0 ++ newline) ≡ parse_level w
level_reread w h = elim (parse_level-cases w h) [
  | inl e ↦ rw e levels_reread.0
  | inr (inl e) ↦ rw e levels_reread.1
  | inr (inr e) ↦ rw e levels_reread.2
]

consent_reread :
    (w : Bytes)
    → (parse_consent w).1 ≡ none
    → consent_of_content (consent_string (parse_consent w).0 ++ newline) ≡ parse_consent w
consent_reread w h = elim (parse_consent-cases w h) [
  | inl e ↦ rw e consents_reread.0
  | inr (inl e) ↦ rw e consents_reread.1
  | inr (inr e) ↦ rw e consents_reread.2
]

paths_differ : (dir : Bytes) → level_path dir ≢ consent_path dir
unfolding text
paths_differ dir h = cc (ap (λ (p : FilePath). p.name) h)

module _ (os : Os) (lawful : IsLawful os) (s t : os.State) (dir w : Bytes) where
  write_level-parsed :
      write_level os s dir w ≡ (t, ok tt)
      → ((parse_level w).1 ≡ none)
        × (write_dial os s (level_path dir) (level_string (parse_level w).0) ≡ (t, ok tt))
  unfolding write_level
  write_level-parsed h = ground arith

  write_consent-parsed :
      write_consent os s dir w ≡ (t, ok tt)
      → ((parse_consent w).1 ≡ none)
        × (write_dial os s (consent_path dir) (consent_string (parse_consent w).0) ≡ (t, ok tt))
  unfolding write_consent
  write_consent-parsed h = ground arith

  -- If WriteLevel reports success, the word was a level, ReadLevel then answers what ParseLevel
  -- answers for the word, with no error, and what ReadConsent answers has not changed.
  pub write_level-read_level :
      write_level os s dir w ≡ (t, ok tt)
      → ((parse_level w).1 ≡ none)
        × (read_level os t dir ≡ parse_level w)
        × (read_consent os t dir ≡ read_consent os s dir)
  write_level-read_level h =
      let (good, wrote) = write_level-parsed h in
      (
        good,
        read_level_recorded os lawful t dir _ (write_dial-IsRecorded os lawful s t _ _ wrote)
            ∙ level_reread w good,
        read_consent_kept os lawful s t dir
            (write_dial-keeps os lawful s t _ (consent_path dir) _ wrote (paths_differ dir)),
      )

  -- If WriteConsent reports success, the word was a consent, ReadConsent then answers what ParseConsent
  -- answers for the word, with no error, and what ReadLevel answers has not changed.
  pub write_consent-read_consent :
      write_consent os s dir w ≡ (t, ok tt)
      → ((parse_consent w).1 ≡ none)
        × (read_consent os t dir ≡ parse_consent w)
        × (read_level os t dir ≡ read_level os s dir)
  write_consent-read_consent h =
      let (good, wrote) = write_consent-parsed h in
      (
        good,
        read_consent_recorded os lawful t dir _ (write_dial-IsRecorded os lawful s t _ _ wrote)
            ∙ consent_reread w good,
        read_level_kept os lawful s t dir (
            write_dial-keeps os lawful s t _ (level_path dir) _ wrote
              (λ e. paths_differ dir (sym e))),
      )
