-- ===== src/Sandbox/Containers/Create.antt =====
-- What `createContainer` leaves when it fails.
use go_firecracker_container.Base.{ℕ, ◌≡◌, Bool, true, false, arith}
use go_firecracker_container.Base.Text.{Text}
use go_firecracker_container.Model.{Error, ok, err}
use go_firecracker_container.Machine.{Clock, Containerd, ContainerSpec, Disk}
use go_firecracker_container.Sandbox.Containers.{Attempt, started, weigh}

-- What the calls do to the set of containers and to those that have a task. Only `NewContainer` without
-- an error adds a container, which has no task, and only `NewTask` without an error adds a task. A task
-- can be deleted when its process is killed, and a container can be deleted that has no task. Nobody else
-- uses the ids of the sandbox meanwhile.
pub record Creates {S : Type 0} (C : Clock S) (D : Containerd S) (K : Disk S)
    (there tasked : S → Text → Bool) : Type 0 where
  pub id_of : D.Container → Text
  pub owner : D.Task → Text
  pub sleep_keeps : (s : S) (d : ℕ) (id : Text) → there (C.sleep d s) id ≡ there s id
  pub mkdir_keeps : (s : S) (d : Text) (id : Text) → there (K.mkdir_all d s).0 id ≡ there s id
  pub get_image_keeps : (s : S) (ref id : Text) → there (D.get_image ref s).0 id ≡ there s id
  pub pull_keeps : (s : S) (ref by id : Text) → there (D.pull ref by s).0 id ≡ there s id
  pub unpack_keeps :
      (s : S) (img : D.Image) (by id : Text) → there (D.unpack img by s).0 id ≡ there s id
  pub refused :
      (s : S) (spec : ContainerSpec D.Image) (e : Error) (id : Text)
      → (D.new_container spec s).1 ≡ err e
      → there (D.new_container spec s).0 id ≡ there s id
  pub created :
      (s : S) (spec : ContainerSpec D.Image) (ctr : D.Container)
      → (D.new_container spec s).1 ≡ ok ctr
      → id_of ctr ≡ spec.id
  pub untasked :
      (s : S) (spec : ContainerSpec D.Image) (ctr : D.Container)
      → (D.new_container spec s).1 ≡ ok ctr
      → tasked (D.new_container spec s).0 (id_of ctr) ≡ false
  pub refused_task :
      (s : S) (ctr : D.Container) (e : Error)
      → (D.new_task ctr s).1 ≡ err e
      → tasked (D.new_task ctr s).0 (id_of ctr) ≡ tasked s (id_of ctr)
  pub tasked_by :
      (s : S) (ctr : D.Container) (task : D.Task)
      → (D.new_task ctr s).1 ≡ ok task
      → owner task ≡ id_of ctr
  pub task_deleted : (s : S) (task : D.Task) → tasked (D.delete_task task s).0 (owner task) ≡ false
  pub deleted :
      (s : S) (ctr : D.Container) (cleanup : Bool)
      → tasked s (id_of ctr) ≡ false
      → there (D.delete ctr cleanup s).0 (id_of ctr) ≡ false

module _ {S : Type 0} (C : Clock S) (D : Containerd S) (K : Disk S) (namespace : Text) where
  abbrev is_started : Attempt C D K namespace → Bool
  is_started (started task) = true
  is_started _ = false

  weigh-is_started :
      (id : Text) (e told : Error) → is_started (weigh C D K namespace id e told) ≡ false
  weigh-is_started id e told = ground arith
