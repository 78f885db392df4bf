-- ===== src/Sandbox/Containers/Delete.antt =====
-- What `stopAndDeleteContainer` leaves.
use go_firecracker_container.Base.{
  ◌≡◌, refl, Option, Bool, true, false, none, some, ◌||◌, Option-cases, Bool-cases, inl, inr, arith,
}
use go_firecracker_container.Base.Text.{Text, text}
use go_firecracker_container.Model.{Error, ok, err, Result-cases}
use go_firecracker_container.Machine.{Clock, Containerd, Disk, says}
use go_firecracker_container.Sandbox.Containers.{
  not_found, unless_gone, delete_its_task, kill_its_task, delete_after_kill,
  delete_keeping_snapshot, delete_again, delete_loaded, stop_and_delete_container,
}

-- What containerd documents of deletions: a container that is loaded has the id that was asked for;
-- an error that says "not found" means that there is none; a deletion without an error, or with one
-- that says "not found", leaves none.
pub record Deletes {S : Type 0} (D : Containerd S) (there : S → Text → Bool) : Type 0 where
  pub id_of : D.Container → Text
  pub loaded :
      (s : S) (id : Text) (ctr : D.Container) → D.load_container id s ≡ ok ctr → id_of ctr ≡ id
  pub absent :
      (s : S) (id : Text) (e : Error)
      → D.load_container id s ≡ err e
      → not_found e ≡ true
      → there s id ≡ false
  pub deleted :
      (s : S) (ctr : D.Container) (cleanup : Bool)
      → (D.delete ctr cleanup s).1 ≡ none
      → there (D.delete ctr cleanup s).0 (id_of ctr) ≡ false
  pub gone :
      (s : S) (ctr : D.Container) (cleanup : Bool) (e : Error)
      → (D.delete ctr cleanup s).1 ≡ some e
      → not_found e ≡ true
      → there (D.delete ctr cleanup s).0 (id_of ctr) ≡ false

module _ {S : Type 0} (C : Clock S) (D : Containerd S) (K : Disk S) (namespace : Text)
    (there : S → Text → Bool) (L : Deletes D there) where
  -- One deletion, whose error counts unless it says "not found".
  delete_once :
      (ctr : D.Container) (cleanup : Bool) (s : S)
      → unless_gone (D.delete ctr cleanup s).1 ≡ none
      → there (D.delete ctr cleanup s).0 (L.id_of ctr) ≡ false
  unfolding unless_gone
  delete_once ctr cleanup s h = elim (Option-cases (D.delete ctr cleanup s).1) [
    | inl p ↦ L.deleted s ctr cleanup p
    | inr (e, p) ↦ L.gone s ctr cleanup e p (ground (arith, p, h))
  ]

  delete_again_gone :
      (ctr : D.Container) (s : S) (r : Option Error)
      → (r ≡ none → there s (L.id_of ctr) ≡ false)
      → (delete_again C D K namespace ctr r s).1 ≡ none
      → there (delete_again C D K namespace ctr r s).0 (L.id_of ctr) ≡ false
  unfolding delete_again delete_after_kill delete_keeping_snapshot
  delete_again_gone ctr s none before h = before refl
  delete_again_gone ctr s (some e) before h =
      elim (Bool-cases (says e (text "running task") || says e (text "failed precondition"))) [
        | inl busy ↦
            rw (busy, delete_again)
              (delete_once ctr true (kill_its_task C D K namespace (D.find_task ctr s) s)
                (ground (arith, h, busy)))
        | inr other ↦
            rw (other, delete_again)
              (elim (Option-cases (unless_gone (D.delete ctr false s).1)) [
                | inl p ↦ rw (p, delete_keeping_snapshot) (delete_once ctr false s p)
                | inr (x, p) ↦ absurd (ground (arith, h, other, p))
              ])
      ]

  -- If `stopAndDeleteContainer` succeeds, there is no container of that id: it was not found, or one
  -- of the deletions that the errors lead to has succeeded or not found it.
  pub stop_and_delete_container_gone :
      (id : Text) (s : S)
      → (stop_and_delete_container C D K namespace id s).1 ≡ none
      → there (stop_and_delete_container C D K namespace id s).0 id ≡ false
  unfolding stop_and_delete_container delete_loaded unless_gone
  stop_and_delete_container_gone id s h = elim (Result-cases (D.load_container id s)) [
    | inl (ctr, p) ↦
        let t = delete_its_task C D K namespace (D.find_task ctr s) s in
        let held : (delete_again C D K namespace ctr (unless_gone (D.delete ctr true t).1)
              (D.delete ctr true t).0).1
            ≡ none =
          ground (arith, h, p) in
        rw (p, stop_and_delete_container, ← L.loaded s id ctr p)
          (delete_again_gone ctr (D.delete ctr true t).0 _ (delete_once ctr true t) held)
    | inr (e, p) ↦ rw (p, stop_and_delete_container) (L.absent s id e p (ground (arith, h, p)))
  ]
