-- ===== src/Kickstart/Disk.antt =====
-- What pkg/kickstart uses of the packages os, os/exec and path/filepath: files with a content and
-- a mode, in a state that each operation passes on, and other programs, which are parameters.
pub mod Paths
use mathlib.Core.List.{reverse}
use proxclt.Base.{
  ◌≡◌, refl, ap, Str, String, lit, str_eq, is_empty, has_prefix, split, join, Bool, true, false,
  not, ◌||◌, ◌==◌, if◌then◌else◌, Option, none, some, List, [], ◌∷◌, ◌++◌, Error, Result, ok, err,
}
use proxclt.Config.Model.{Dict, lookup}
use proxclt.World.{Event, Host, Action, no_error, failing_as}

pub record File : Type 0 where
  pub content : Str
  pub writable : Bool

pub record DiskState : Type 0 where
  pub files : Dict File
  pub events : List Event

-- The machine: exec.LookPath, os.TempDir, os.MkdirTemp with a parent and a pattern, os.MkdirAll,
-- os.Stat, os.ReadDir with IsDir of each entry, the errors of a missing file and of one that may not
-- be written, any other error of a read, a write or a rename, and a run of a program: its error, its
-- output and the files that it leaves.
pub record Machine : Type 0 where
  pub host : Host
  pub look_path : Str → Option Error
  pub temp_dir : Str
  pub mkdir_temp : Dict File → Str → Str → Result Str
  pub mkdir_all : Dict File → Str → Option Error
  pub stat : Dict File → Str → Option Error
  pub read_dir : Dict File → Str → Result (List (Str × Bool))
  pub no_entry : Str → Error
  pub denied : Str → Error
  pub read_error : Str → Option Error
  pub write_error : Str → Option Error
  pub rename_error : Dict File → Str → Str → Option Error
  pub run : Str → List Str → Dict File → Option Error × Str × Dict File

-- Code that uses the machine.
abbrev pub Job {ℓ} : Type ℓ → Type ℓ
Job A = Machine → DiskState → Result A × DiskState

abbrev pub done {ℓ} : {A : Type ℓ} → Result A → Job A
done r m d = (r, d)

-- A question, which changes nothing.
abbrev pub ask {ℓ} : {A : Type ℓ} → (Machine → Dict File → Result A) → Job A
ask question m d = (question m d.files, d)

-- A call of the Proxmox client.
abbrev pub call_api {ℓ} : {A : Type ℓ} → Action A → Job A
call_api action m d = let (r, events) = action m.host d.events in (r, record d { events = events })

abbrev pub next {ℓ μ} :
    {A : Type ℓ} {R : Type μ} → (A → Job R) → Machine → Result A × DiskState → Result R × DiskState
next rest m (err failure, d) = (err failure, d)
next rest m (ok value, d) = rest value m d

infixl 5 ◌>>=◌ ◌>>◌
abbrev pub ◌>>=◌ {ℓ μ} : {A : Type ℓ} {R : Type μ} → Job A → (A → Job R) → Job R
◌>>=◌ first rest m d = next rest m (first m d)

abbrev pub ◌>>◌ {ℓ} : {R : Type ℓ} → Job (Unit {0}) → Job R → Job R
first >> rest = first >>= λ _. rest

abbrev pub told {ℓ} : {A : Type ℓ} → (Error → Error) → Result A × DiskState → Result A × DiskState
told change (r, d) = (failing_as change r, d)

-- The error of a job is changed before it is returned.
abbrev pub telling {ℓ} : {A : Type ℓ} → (Error → Error) → Job A → Job A
telling change job m d = told change (job m d)

parent_of : List Str → List Str
parent_of [] = []
parent_of (p ∷ ps) = ps

-- `..` after the elements `up`, the last first: a rooted path has no parent of its root, and one
-- that is not rooted keeps a `..` that it cannot resolve.
unfoldable pub go_up : Bool → List Str → List Str
unfolding parent_of lit str_eq
go_up true up = parent_of up
go_up false [] = lit ".." ∷ []
go_up false (p ∷ ps) = if str_eq p (lit "..") then lit ".." ∷ p ∷ ps else ps

unfoldable pub clean_step : Bool → List Str → Str → List Str
unfolding go_up lit str_eq is_empty
clean_step rooted up p =
    if is_empty p || str_eq p (lit ".")
    then up
    else if str_eq p (lit "..")
    then go_up rooted up
    else p ∷ up

unfoldable pub clean_steps : Bool → List Str → List Str → List Str
unfolding clean_step
clean_steps rooted up [] = up
clean_steps rooted up (p ∷ ps) = clean_steps rooted (clean_step rooted up p) ps

unfoldable pub is_rooted : Str → Bool
is_rooted [] = false
is_rooted (c ∷ s) = c == 47

unfoldable pub rooted_text : Bool → Str → Str
unfolding is_empty lit
rooted_text true text = lit "/" ++ text
rooted_text false text = if is_empty text then lit "." else text

-- filepath.Clean
unfoldable pub clean_path : Str → Str
unfolding clean_steps is_rooted rooted_text lit
clean_path p =
    rooted_text (is_rooted p) (join (lit "/") (reverse (clean_steps (is_rooted p) [] (split 47 p))))

-- filepath.Join of two elements, the second not empty
unfoldable pub join_path : Str → Str → Str
unfolding clean_path is_empty
join_path dir name = if is_empty dir then clean_path name else clean_path (dir ++ 47 ∷ name)

-- A file that replaces any of its path.
unfoldable pub drop_file : Str → Dict File → Dict File
unfolding str_eq
drop_file path [] = []
drop_file path ((p, f) ∷ rest) =
    let left = drop_file path rest in if str_eq p path then left else (p, f) ∷ left

unfoldable pub put_file : Str → File → Dict File → Dict File
unfolding drop_file
put_file path f files = (path, f) ∷ drop_file path files

-- The path is one of a file in the directory.
unfoldable pub is_under : Str → Str → Bool
unfolding clean_path has_prefix
is_under dir path = has_prefix path (clean_path dir ++ 47 ∷ [])

unfoldable pub drop_under : Str → Dict File → Dict File
unfolding is_under
drop_under dir [] = []
drop_under dir ((p, f) ∷ rest) =
    let left = drop_under dir rest in if is_under dir p then left else (p, f) ∷ left

-- _ = os.Remove(path), which is not modelled to fail
abbrev pub remove : Str → Job (Unit {0})
remove path m d = (ok tt, record d { files = drop_file path d.files })

abbrev pub cleared {ℓ} : {A : Type ℓ} → Str → Result A × DiskState → Result A × DiskState
cleared dir (r, d) = (r, record d { files = drop_under dir d.files })

-- The job after a `defer os.RemoveAll(dir)`, which is not modelled to fail.
abbrev pub removing_all {ℓ} : {A : Type ℓ} → Str → Job A → Job A
removing_all dir job m d = cleared dir (job m d)

-- Why a file cannot be opened for writing: one that exists needs the mode for it.
unfoldable pub write_refusal : Machine → Str → Option File → Option Error
write_refusal m path none = m.write_error path
write_refusal m path (some f) = if f.writable then m.write_error path else some (m.denied path)

-- The file that a write leaves, with the mode given, unless it is refused.
abbrev pub stored : DiskState → Str → File → Option Error → Result (Unit {0}) × DiskState
stored d path f (some e) = (err e, d)
stored d path f none = (ok tt, record d { files = put_file path f d.files })

unfoldable pub store : Str → File → Job (Unit {0})
unfolding write_refusal lookup put_file
store path f m d = stored d path f (write_refusal m path (lookup path d.files))

-- os.WriteFile with the mode 0644
unfoldable pub write_file : Str → Str → Job (Unit {0})
unfolding store
write_file path text = store path (record { content = text; writable = true })

opened : Machine → Str → Option File → Result File
opened m path none = err (m.no_entry path)
opened m path (some f) = elim (m.read_error path) [ none ↦ ok f | some e ↦ err e ]

-- os.ReadFile, with the mode of the file
unfoldable pub read_file : Str → Job File
unfolding opened lookup
read_file path = ask (λ m files. opened m path (lookup path files))

-- cmd.CombinedOutput
abbrev pub ran :
    (Error → Str → Error) → DiskState → Option Error × Str × Dict File → Result Str × DiskState
ran failure d (none, out, files) = (ok out, record d { files = files })
ran failure d (some e, out, files) = (err (failure e out), record d { files = files })

abbrev pub run_command : (Error → Str → Error) → Str → List Str → Job Str
run_command failure program args m d = ran failure d (m.run program args d.files)

-- What a job returns, and the disk it leaves.
abbrev pub result_of {ℓ} : {A : Type ℓ} → Result A × DiskState → Result A
result_of (r, d) = r

abbrev pub disk_of {ℓ} : {A : Type ℓ} → Result A × DiskState → DiskState
disk_of (r, d) = d

-- Where a sequence succeeds, its first job did, and so did the rest on the disk that it left.
pub next-ok {ℓ μ} :
    {A : Type ℓ} {R : Type μ} (rest : A → Job R) (m : Machine) (x : Result A × DiskState)
    {value : R} {last : DiskState}
    → next rest m x ≡ (ok value, last)
    → (a : A) × (d : DiskState) × (x ≡ (ok a, d)) × (rest a m d ≡ (ok value, last))
next-ok rest m (err failure, d) h = cc (ap result_of h)
next-ok rest m (ok a, d) h = (a, d, refl, h)

pub told-ok {ℓ} :
    {A : Type ℓ} (change : Error → Error) (x : Result A × DiskState) {a : A} {last : DiskState}
    → told change x ≡ (ok a, last)
    → x ≡ (ok a, last)
told-ok change (err failure, d) h = cc (ap result_of h)
told-ok change (ok a, d) h = h
