-- ===== src/Toolplane/Level/FailClosed.antt =====
-- ReadLevel and ReadConsent answer the cautious setting whenever they do not honour a file.
use Prim.Native.Nat.{◌/◌, ◌%◌}
use cube_advisor_agent.Base.{
  ℕ, zero, suc, ◌<◌, ◌^◌, ◌≡◌, ◌≢◌, ◌↔◌, ◌⊎◌, inl, inr, refl, Bool, true, false, not, ◌&&◌, ◌||◌,
  none, arith, Bytes, text, bytes_eq, bytes_beq_iff, nat_beq, trim_space, ok, Bool-cases,
  Result-cases, ◌∙◌,
}
use cube_advisor_agent.Os.{Os, IsLawful}
use cube_advisor_agent.Toolplane.Level.{
  Level, level_observe, level_operate, level_internal, level_string, parse_level, level_of_content,
  level_path, others_may_write, read_level,
}

-- Group and world write bits of the permission, as the digits of 0o022.
abbrev pub IsLoose : ℕ → Type 0
IsLoose perm = (perm / 16 % 2 ≡ 1) ⊎ (perm / 2 % 2 ≡ 1)

loose_test : ℕ → Bool
loose_test perm = nat_beq (perm / 16 % 2) 1 || nat_beq (perm / 2 % 2) 1

-- A test of every number under a bound, downwards.
passes_to : (ℕ → Bool) → ℕ → Bool
passes_to test zero = true
passes_to test (suc top) = passes_to test top && test top

passes_to_sound :
    (test : ℕ → Bool) (top k : ℕ) → k < top → passes_to test top ≡ true → test k ≡ true
unfolding passes_to
passes_to_sound test zero k below h = absurd (omega (arith, below))
passes_to_sound test (suc top) k below h = ground (arith, passes_to_sound test top k)

abbrev same : Bool → Bool → Bool
same true b = b
same false b = not b

same-eq : (a b : Bool) → same a b ≡ true → a ≡ b
same-eq a b h = ground arith

loose_table : passes_to (λ perm. same (others_may_write perm) (loose_test perm)) 512 ≡ true
unfolding passes_to others_may_write loose_test
loose_table = refl

pub others_may_write_iff : (perm : ℕ) → perm < 2 ^ 9 → (others_may_write perm ≡ true) ↔ IsLoose perm
unfolding loose_test
others_may_write_iff perm lt =
    let e =
      same-eq (others_may_write perm) (loose_test perm)
        (passes_to_sound (λ p. same (others_may_write p) (loose_test p)) 512 perm lt loose_table) in
    rw e (ground arith)

-- The answer rests on a file that only its owner may write, whose word is the level's.
pub record IsGranted (os : Os) (s : os.State) (dir : Bytes) (l : Level) : Type 0 where
  pub perm : ℕ
  pub content : Bytes
  pub present : os.stat s (level_path dir) ≡ ok perm
  pub tight : ¬ IsLoose perm
  pub readable : os.read_file s (level_path dir) ≡ ok content
  pub raised : (l ≡ level_operate) ⊎ (l ≡ level_internal)
  pub worded : trim_space content ≡ level_string l

parse_level_string :
    (w : Bytes)
    → (parse_level w).0 ≢ level_observe
    → (w ≡ level_string (parse_level w).0)
      × (((parse_level w).0 ≡ level_operate) ⊎ ((parse_level w).0 ≡ level_internal))
unfolding parse_level level_string
parse_level_string w h = ground (
  arith,
  bytes_beq_iff w (text "observe"),
  bytes_beq_iff w (text "operate"),
  bytes_beq_iff w (text "internal"),
)

level_of_content_string :
    (b : Bytes)
    → (level_of_content b).0 ≢ level_observe
    → (trim_space b ≡ level_string (level_of_content b).0)
      × (((level_of_content b).0 ≡ level_operate) ⊎ ((level_of_content b).0 ≡ level_internal))
unfolding level_of_content
level_of_content_string b h = ground (arith, parse_level_string (trim_space b))

-- A level above observe is granted only by a file that others may not write and that says that level.
pub read_level-IsGranted :
    (os : Os) (s : os.State) (dir : Bytes)
    → IsLawful os
    → (read_level os s dir).0 ≢ level_observe
    → IsGranted os s dir (read_level os s dir).0
unfolding read_level
read_level-IsGranted os s dir lawful h = elim (Result-cases (os.stat s (level_path dir))) [
  | inr (e, gone) ↦ absurd (h (rw (gone, read_level) (ground arith)))
  | inl (perm, found) ↦ elim (Bool-cases (others_may_write perm)) [
    | inl loose ↦ absurd (h (rw (found, read_level, loose) refl))
    | inr tight ↦ elim (Result-cases (os.read_file s (level_path dir))) [
      | inr (e, failed) ↦ absurd (h (rw (found, read_level, tight, failed) refl))
      | inl (b, content) ↦
          let same = granted perm b found tight content in
          let (worded, raised) = level_of_content_string b (λ e. h (same ∙ e)) in
          record {
            perm = perm;
            content = b;
            present = found;
            tight = λ l. cc ((others_may_write_iff perm (lawful.perm_bits s _ perm found)).1 l);
            readable = content;
            raised = rw same raised;
            worded = rw same worded;
          }
    ]
  ]
]
  where
    granted :
        (perm : ℕ) (b : Bytes)
        → os.stat s (level_path dir) ≡ ok perm
        → others_may_write perm ≡ false
        → os.read_file s (level_path dir) ≡ ok b
        → (read_level os s dir).0 ≡ (level_of_content b).0
    granted perm b found tight content = rw (found, read_level, tight, content) refl

-- Every error of ReadLevel comes with the level observe.
pub read_level_error :
    (os : Os) (s : os.State) (dir : Bytes)
    → (read_level os s dir).1 ≢ none
    → (read_level os s dir).0 ≡ level_observe
unfolding read_level level_of_content
read_level_error os s dir h = ground arith
