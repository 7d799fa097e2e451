-- ===== src/Os.antt =====
-- The calls of Go's package os that the agent makes, over an operating system that is a parameter.
-- A path is the pair that filepath.Join takes; the sources join one directory with fixed names.
pub mod Memory
use cube_advisor_agent.Base.{
  ℕ, ◌≡◌, ◌≢◌, Bool, true, false, Bytes, Result, ok, err, ◌<◌, ◌^◌, ◌++◌, [], bit_and,
}

pub data OsError : Type 0 where
  not_exist : OsError
  other : Bytes → OsError

-- os.IsNotExist
abbrev pub is_not_exist : OsError → Bool
is_not_exist not_exist = true
is_not_exist (other why) = false

pub record FilePath : Type 0 where
  pub dir : Bytes
  pub name : Bytes

abbrev pub Done : Type 0
Done = Result OsError (Unit {0})

-- A call that changes the files returns their new state; `stat` returns the permission bits.
pub record Os : Type 1 where
  pub State : Type 0
  pub stat : State → FilePath → Result OsError ℕ
  pub read_file : State → FilePath → Result OsError Bytes
  pub write_file : State → FilePath → Bytes → ℕ → State × Done
  pub chmod : State → FilePath → ℕ → State × Done
  pub remove : State → FilePath → State × Done
  pub rename : State → FilePath → FilePath → State × Done
  pub mkdir_all : State → Bytes → ℕ → State × Done
  -- os.CreateTemp, given the pattern's parts before and behind its "*"
  pub create_temp : State → Bytes → Bytes → Bytes → State × Result OsError FilePath
  -- os.File's WriteString at the end of an open file, and Close
  pub append : State → FilePath → Bytes → State × Done
  pub close : State → FilePath → State × Done

-- What the agent relies on: calls that report success have had their effect on the path that they
-- name, and leave the other paths alone. What a call that reports an error has done to the path that
-- it names is left open.
pub record IsLawful (os : Os) : Type 0 where
  pub perm_bits : (s : os.State) (p : FilePath) (m : ℕ) → os.stat s p ≡ ok m → m < 2 ^ 9
  pub read_written :
      (s t : os.State) (p : FilePath) (b : Bytes) (m : ℕ)
      → os.write_file s p b m ≡ (t, ok tt)
      → os.read_file t p ≡ ok b
  pub keep_written :
      (s t : os.State) (p q : FilePath) (b : Bytes) (m : ℕ)
      → os.write_file s p b m ≡ (t, ok tt)
      → p ≢ q
      → (os.read_file t q ≡ os.read_file s q) × (os.stat t q ≡ os.stat s q)
  pub stat_changed :
      (s t : os.State) (p : FilePath) (m : ℕ)
      → os.chmod s p m ≡ (t, ok tt)
      → m < 2 ^ 9
      → os.stat t p ≡ ok m
  pub read_changed :
      (s t : os.State) (p q : FilePath) (m : ℕ)
      → os.chmod s p m ≡ (t, ok tt)
      → os.read_file t q ≡ os.read_file s q
  pub keep_changed :
      (s t : os.State) (p q : FilePath) (m : ℕ)
      → os.chmod s p m ≡ (t, ok tt)
      → p ≢ q
      → os.stat t q ≡ os.stat s q
  pub read_removed :
      (s t : os.State) (p : FilePath)
      → os.remove s p ≡ (t, ok tt)
      → os.read_file t p ≡ err not_exist
  pub read_renamed :
      (s t : os.State) (p q : FilePath)
      → os.rename s p q ≡ (t, ok tt)
      → os.read_file t q ≡ os.read_file s p
  pub stat_created :
      (s t : os.State) (p : FilePath) (b : Bytes) (m mask : ℕ)
      → os.write_file s p b m ≡ (t, ok tt)
      → os.stat s p ≡ err not_exist
      → m < 2 ^ 9
      → bit_and m mask ≡ 0
      → (n : ℕ) × ((os.stat t p ≡ ok n) × (bit_and n mask ≡ 0))
  pub keep_removed :
      (s t : os.State) (p q : FilePath) (r : Done)
      → os.remove s p ≡ (t, r)
      → p ≢ q
      → (os.read_file t q ≡ os.read_file s q) × (os.stat t q ≡ os.stat s q)
  pub stat_removed :
      (s t : os.State) (p : FilePath) → os.remove s p ≡ (t, ok tt) → os.stat t p ≡ err not_exist
  pub missing_removed :
      (s t : os.State) (p : FilePath)
      → os.remove s p ≡ (t, err not_exist)
      → (os.read_file t p ≡ err not_exist) × (os.stat t p ≡ err not_exist)
  pub keep_made :
      (s t : os.State) (q : FilePath) (m : ℕ)
      → os.mkdir_all s q.dir m ≡ (t, ok tt)
      → (os.read_file t q ≡ os.read_file s q) × (os.stat t q ≡ os.stat s q)
  pub stat_renamed :
      (s t : os.State) (p q : FilePath) → os.rename s p q ≡ (t, ok tt) → os.stat t q ≡ os.stat s p
  pub temp_name :
      (s t : os.State) (d before behind : Bytes) (p : FilePath)
      → os.create_temp s d before behind ≡ (t, ok p)
      → (p.dir ≡ d) × ((x : Bytes) × (p.name ≡ before ++ (x ++ behind)))
  pub read_temp :
      (s t : os.State) (d before behind : Bytes) (p : FilePath)
      → os.create_temp s d before behind ≡ (t, ok p)
      → os.read_file t p ≡ ok []
  pub read_appended :
      (s t : os.State) (p : FilePath) (old b : Bytes)
      → os.append s p b ≡ (t, ok tt)
      → os.read_file s p ≡ ok old
      → os.read_file t p ≡ ok (old ++ b)
  pub read_closed :
      (s t : os.State) (p q : FilePath)
      → os.close s p ≡ (t, ok tt)
      → os.read_file t q ≡ os.read_file s q
  pub keep_renamed :
      (s t : os.State) (p q r : FilePath)
      → os.rename s p q ≡ (t, ok tt)
      → p ≢ r
      → q ≢ r
      → os.read_file t r ≡ os.read_file s r
  pub write_apart :
      (s : os.State) (p q : FilePath) (b : Bytes) (m : ℕ)
      → p ≢ q
      → (os.read_file (os.write_file s p b m).0 q ≡ os.read_file s q)
        × (os.stat (os.write_file s p b m).0 q ≡ os.stat s q)
  pub chmod_apart :
      (s : os.State) (p q : FilePath) (m : ℕ)
      → p ≢ q
      → (os.read_file (os.chmod s p m).0 q ≡ os.read_file s q)
        × (os.stat (os.chmod s p m).0 q ≡ os.stat s q)
  pub mkdir_apart :
      (s : os.State) (q : FilePath) (m : ℕ)
      → (os.read_file (os.mkdir_all s q.dir m).0 q ≡ os.read_file s q)
        × (os.stat (os.mkdir_all s q.dir m).0 q ≡ os.stat s q)
