-- ===== src/Machine/Memory.antt =====
-- A host in memory, which behaves as the interfaces document.
use go_firecracker_container.Base.{
  ℕ, suc, ◌+◌, ◌≡◌, refl, false, Option, none, some, List, [], ◌∷◌, contains, ◌==◌, nat_eq, list_eq,
  if◌then◌else◌, arith,
}
use go_firecracker_container.Base.Text.{Text, text}
use go_firecracker_container.Base.Dict
use go_firecracker_container.Base.Dict.{Dict}
use go_firecracker_container.Model.{Error, message, Result, ok, err}
use go_firecracker_container.Machine.{
  Clock, Sleeps, Vms, Containerd, Disk, Flock, locked, would_block, Locks, Sockets,
}

-- An open file, by its path and a number.
abbrev pub Handle : Type 0
Handle = Text × ℕ

pub record Box : Type 0 where
  pub time : ℕ
  pub vms : List Text
  pub containers : List Text
  pub files : Dict Text Text
  pub owners : Dict Text ℕ

abbrev pub empty_box : Box
empty_box = record { time = 1000; vms = []; containers = []; files = []; owners = [] }

abbrev pub without : Text → List Text → List Text
without id [] = []
without id (x ∷ xs) = let rest = without id xs in if id == x then rest else x ∷ rest

pub contains-without : (id : Text) (xs : List Text) → contains (without id xs) id ≡ false
unfolding contains
contains-without id [] = refl
contains-without id (x ∷ xs) = ground (arith, contains-without id xs)

abbrev pub box_clock : Clock Box
box_clock = record { now = λ s. s.time; sleep = λ d s. record s { time = s.time + d } }

pub box_clock-Sleeps : Sleeps box_clock
box_clock-Sleeps = record { now-sleep = λ d s. omega arith }

abbrev pub not_there : Error
not_there = message (text "not found")

abbrev pub there_already : Error
there_already = message (text "already exists")

abbrev pub box_vms : Vms Box
box_vms = record {
  connect = λ s. (s, none);
  create = λ id n s.
      if contains s.vms id then (s, some there_already) else (record s { vms = id ∷ s.vms }, none);
  stop = λ id s.
      if contains s.vms id
      then (record s { vms = without id s.vms }, none)
      else (s, some not_there);
}

-- A container is its id, and so is its task. A task of the id "broken" does
-- not start.
abbrev pub box_containerd : Containerd Box
box_containerd = record {
  Image = Text;
  Container = Text;
  Task = Text;
  get_image = λ ref s. (s, ok ref);
  pull = λ ref by s. (s, ok ref);
  unpack = λ img by s. (s, none);
  new_container = λ spec s.
      if contains s.containers spec.id
      then (s, err there_already)
      else (record s { containers = spec.id ∷ s.containers }, ok spec.id);
  load_container = λ id s. if contains s.containers id then ok id else err not_there;
  containers = λ s. ok s.containers;
  delete = λ ctr cleanup s. (record s { containers = without ctr s.containers }, none);
  new_task = λ ctr s. (s, ok ctr);
  find_task = λ ctr s. ok ctr;
  start =
      λ task s. if task == text "broken" then (s, some (message (text "no memory"))) else (s, none);
  kill = λ task s. (s, none);
  delete_task = λ task s. (s, none);
  status = λ task s. ok (record { status = text "running"; exit_status = 0; exit_time = [] });
  pid = λ task. 1;
}

abbrev pub file_at : Option Text → Result Text
file_at none = err Error.not_exist
file_at (some b) = ok b

abbrev pub stat_of : Option Text → Option Error
stat_of none = some Error.not_exist
stat_of (some b) = none

abbrev pub box_disk : Disk Box
box_disk = record {
  mkdir_all = λ d s. (s, none);
  remove_all = λ d s. (s, none);
  write_file = λ p b s. (record s { files = Dict.insert p b s.files }, none);
  read_file = λ p s. file_at (Dict.lookup p s.files);
  read_dir = λ d s. err Error.not_exist;
  stat = λ p s. stat_of (Dict.lookup p s.files);
}

-- A number that the owner of the lock does not have.
abbrev pub fresh_number : Option ℕ → ℕ
fresh_number none = 0
fresh_number (some n) = suc n

abbrev pub try_at : Handle → Option ℕ → Box → Box × Flock
try_at f none s = (record s { owners = Dict.insert f.0 f.1 s.owners }, locked)
try_at f (some n) s = if n == f.1 then (s, locked) else (s, would_block)

abbrev pub release_at : Handle → Option ℕ → Box → Box
release_at f none s = s
release_at f (some n) s = if n == f.1 then record s { owners = Dict.delete f.0 s.owners } else s

abbrev pub release : Handle → Box → Box × Option Error
release f s = (release_at f (Dict.lookup f.0 s.owners) s, none)

abbrev pub box_locks : Locks Box
box_locks = record {
  Handle = Handle;
  open_file = λ p s. (s, ok (p, fresh_number (Dict.lookup p s.owners)));
  try_lock = λ f s. try_at f (Dict.lookup f.0 s.owners) s;
  unlock = release;
  close = release;
}

abbrev pub box_sockets : Sockets Box
box_sockets = record { dial_tcp = λ a s. (s, none); listen_error = λ net addr s. none }
