-- ===== src/Store/Laws.antt =====
-- The store gives back what it was given.
use mathlib.Core.Path.{subst}
use go_firecracker_container.Base.{
  ◌≡◌, ◌≢◌, refl, sym, ◌∙◌, ap, none, [], ◌∷◌, ◌==◌, nat_eq, list_eq, arith, if◌then◌else◌,
  Bool-cases, Option-cases, inl, inr, eq_of_==, ==-self,
}
use go_firecracker_container.Base.Text.{Text, text}
use go_firecracker_container.Base.Paths.{IsPlain, join_path}
use go_firecracker_container.Base.Paths.Cleaning.{clean-ne_nil}
use go_firecracker_container.Base.Paths.Joining.{join_path-join_path, join_path_cons}
use go_firecracker_container.Model.{Sandbox, Error, Result, ok, err}
use go_firecracker_container.Model.Actions.{seq_ok, ◌>>◌}
use go_firecracker_container.Store.{
  Files, Codec, IsLawful, IsFaithful, state_path, sandbox_dir, write_encoded, decode_read, save,
  load, delete,
}
use go_firecracker_container.Store.Frame.{state_file-IsPlain, load-save_other}

-- The file that `Save` writes is the one that `Load` reads.
same_file :
    (base id : Text) → join_path (sandbox_dir base id ∷ text "state.json" ∷ []) ≡ state_path base id
unfolding sandbox_dir state_path
same_file base id = join_path-join_path base id (text "state.json")

sandbox_dir-ne_nil : (base id : Text) → base ≢ [] → sandbox_dir base id ≢ []
unfolding sandbox_dir
sandbox_dir-ne_nil base id h q = clean-ne_nil _ (sym (join_path_cons base (id ∷ []) h) ∙ q)

module _ {Bytes : Type 0} (F : Files Bytes) (C : Codec Bytes) (L : IsLawful F) (K : IsFaithful C)
    (base : Text) where
  write_encoded-read :
      (path : Text) (sb : Sandbox) (s : F.State) (r : Result Bytes)
      → C.encode sb ≡ r
      → (write_encoded F C base path r s).1 ≡ none
      → decode_read F C base (F.read_file (write_encoded F C base path r s).0 path) ≡ ok sb
  unfolding write_encoded decode_read
  write_encoded-read path sb s (err e) enc h = cc
  write_encoded-read path sb s (ok bytes) enc h =
      ground (arith, L.read_file-write_file s path bytes h, K.decode-encode sb bytes enc)

  -- A state that is saved without an error is what `Load` gives for its id, whatever text that is.
  pub load-save_same :
      (sb : Sandbox) (s : F.State)
      → (save F C base sb s).1 ≡ none
      → load F C base sb.id (save F C base sb s).0 ≡ ok sb
  unfolding save load ◌>>◌
  load-save_same sb s h = elim (Option-cases (F.mkdir_all s (sandbox_dir base sb.id)).1) [
    | inr (x, e) ↦ absurd (ground (arith, e, h))
    | inl e ↦
        let dir = sandbox_dir base sb.id in
        let path = join_path (dir ∷ text "state.json" ∷ []) in
        let run = seq_ok (λ t. F.mkdir_all t dir) (write_encoded F C base path (C.encode sb)) s e in
        let written =
          write_encoded-read path sb (F.mkdir_all s dir).0 (C.encode sb) refl
            (sym (ap (λ r. r.1) run) ∙ h) in
        subst (λ r. load F C base sb.id r.0 ≡ ok sb) (sym run)
          (subst
            (λ p.
              decode_read F C base
                (F.read_file (write_encoded F C base path (C.encode sb) (F.mkdir_all s dir).0).0 p)
              ≡ ok sb)
            (same_file base sb.id) written)
  ]

  -- For ids that name one entry of a directory: a state that is saved without an error is what `Load`
  -- gives for its id from then on, and the states of all other sandboxes stay as they were.
  pub load-save :
      (sb : Sandbox) (id : Text) (s : F.State)
      → IsPlain sb.id
      → IsPlain id
      → (save F C base sb s).1 ≡ none
      → load F C base id (save F C base sb s).0
        ≡ (if id == sb.id then ok sb else load F C base id s)
  load-save sb id s plain other h = elim (Bool-cases (id == sb.id)) [
    | inl e ↦ rw e (
        ap (λ i. load F C base i (save F C base sb s).0) (eq_of_== id sb.id e)
        ∙ load-save_same sb s h)
    | inr e ↦ rw e (
        load-save_other F C L base sb id s plain other
          (λ q. absurd (ground (arith, e, q, ==-self sb.id))))
  ]

  -- A sandbox that is deleted without an error is not there any more.
  pub load-delete :
      (id : Text) (s : F.State)
      → base ≢ []
      → (delete F C base id s).1 ≡ none
      → load F C base id (delete F C base id s).0 ≡ err Error.not_exist
  unfolding load delete decode_read
  load-delete id s based h =
      let dir = sandbox_dir base id in
      let gone =
        L.read_file-remove_all s dir (text "state.json") (sandbox_dir-ne_nil base id based)
          state_file-IsPlain (ground (arith, h, L.remove_all_absent s dir)) in
      ap (decode_read F C base)
        (ap (F.read_file (F.remove_all s dir).0) (sym (same_file base id)) ∙ gone)
