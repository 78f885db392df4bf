-- ===== src/Store.antt =====
-- internal/store/file_store.go: a directory for each sandbox, with its state as JSON. The files of
-- `os` and the JSON codec are interfaces; paths are joined as `filepath.Join` does.
pub mod Laws
pub mod Frame
pub mod Memory
mod Tests
use go_firecracker_container.Base.{
  Bool, true, false, Option, none, some, List, [], ◌∷◌, ◌++◌, ◌≡◌, ◌≢◌, ◌==◌, nat_eq, list_eq,
  if◌then◌else◌,
}
use go_firecracker_container.Base.Text.{Text, text}
use go_firecracker_container.Base.Paths.{join_path, IsPlain}
use go_firecracker_container.Model.{Sandbox, Error, Result, ok, err}
use go_firecracker_container.Machine.{DirEntry}
use go_firecracker_container.Model.Actions.{Action, ◌>>◌}

pub record Files (Bytes : Type 0) : Type 1 where
  pub State : Type 0
  pub mkdir_all : State → Text → State × Option Error
  pub write_file : State → Text → Bytes → State × Option Error
  pub remove_all : State → Text → State × Option Error
  pub read_file : State → Text → Result Bytes
  pub read_dir : State → Text → Result (List DirEntry)

pub record Codec (Bytes : Type 0) : Type 0 where
  pub encode : Sandbox → Result Bytes
  pub decode : Bytes → Result Sandbox

-- A file that is written without an error holds what was written, and the making of a directory
-- changes no file. What is in a directory that was removed without an error is not there. To write
-- below one entry of a directory, or to remove that entry, changes nothing below another one. To
-- remove what is not there is no error.
pub record IsLawful {Bytes : Type 0} (F : Files Bytes) : Type 0 where
  pub read_file-mkdir_all :
      (s : F.State) (d p : Text) → F.read_file (F.mkdir_all s d).0 p ≡ F.read_file s p
  pub read_file-write_file :
      (s : F.State) (p : Text) (bytes : Bytes)
      → (F.write_file s p bytes).1 ≡ none
      → F.read_file (F.write_file s p bytes).0 p ≡ ok bytes
  pub read_file-remove_all :
      (s : F.State) (d f : Text)
      → d ≢ []
      → IsPlain f
      → (F.remove_all s d).1 ≡ none
      → F.read_file (F.remove_all s d).0 (join_path (d ∷ f ∷ [])) ≡ err Error.not_exist
  pub read_file-write_file_other :
      (s : F.State) (base d e f : Text) (bytes : Bytes)
      → IsPlain d
      → IsPlain e
      → IsPlain f
      → e ≢ d
      → F.read_file
          (F.write_file s (join_path (base ∷ d ∷ f ∷ [])) bytes).0
          (join_path (base ∷ e ∷ f ∷ []))
        ≡ F.read_file s (join_path (base ∷ e ∷ f ∷ []))
  pub read_file-remove_all_other :
      (s : F.State) (base d e f : Text)
      → IsPlain d
      → IsPlain e
      → IsPlain f
      → e ≢ d
      → F.read_file (F.remove_all s (join_path (base ∷ d ∷ []))).0 (join_path (base ∷ e ∷ f ∷ []))
        ≡ F.read_file s (join_path (base ∷ e ∷ f ∷ []))
  pub remove_all_absent : (s : F.State) (d : Text) → (F.remove_all s d).1 ≢ some Error.not_exist

-- What was encoded is decoded to the same state.
pub record IsFaithful {Bytes : Type 0} (C : Codec Bytes) : Type 0 where
  pub decode-encode :
      (sb : Sandbox) (bytes : Bytes) → C.encode sb ≡ ok bytes → C.decode bytes ≡ ok sb

unfoldable pub sandbox_dir : Text → Text → Text
sandbox_dir base id = join_path (base ∷ id ∷ [])

-- The file that `Load` reads. `Save` joins its name to the directory.
unfoldable pub state_path : Text → Text → Text
state_path base id = join_path (base ∷ id ∷ text "state.json" ∷ [])

-- `errors.Is(err, os.ErrNotExist)` is no error here.
abbrev pub unless_absent : Option Error → Option Error
unless_absent (some Error.not_exist) = none
unless_absent e = e

module _ {Bytes : Type 0} (F : Files Bytes) (C : Codec Bytes) (base : Text) where
  open F use {State, mkdir_all, write_file, remove_all, read_file, read_dir}
  open C use {encode, decode}

  unfoldable pub new_file_store : Action State
  new_file_store s = mkdir_all s base

  unfoldable pub write_encoded : Text → Result Bytes → Action State
  write_encoded path (err e) s = (s, some e)
  write_encoded path (ok bytes) s = write_file s path bytes

  unfoldable pub save : Sandbox → Action State
  save sb =
      (λ s. mkdir_all s (sandbox_dir base sb.id))
      >> write_encoded (join_path (sandbox_dir base sb.id ∷ text "state.json" ∷ [])) (encode sb)

  unfoldable pub decode_read : Result Bytes → Result Sandbox
  decode_read (err e) = err e
  decode_read (ok bytes) = decode bytes

  unfoldable pub load : Text → State → Result Sandbox
  load id s = decode_read (read_file s (state_path base id))

  unfoldable pub delete : Text → Action State
  delete id s = let (s', e) = remove_all s (sandbox_dir base id) in (s', unless_absent e)

  unfoldable pub add_loaded : Result Sandbox → List Sandbox → List Sandbox
  add_loaded (err e) found = found
  add_loaded (ok sb) found = sb ∷ found

  -- The loop over the entries: directories whose state can be loaded.
  unfoldable pub load_entries : List DirEntry → State → List Sandbox
  load_entries [] s = []
  load_entries (e ∷ entries) s =
      let rest = load_entries entries s in
      if e.is_dir then add_loaded (load e.name s) rest else rest

  unfoldable pub list : State → Result (List Sandbox)
  list s = elim (read_dir s base) [ err e ↦ err e | ok entries ↦ ok (load_entries entries s) ]
