-- ===== src/Store/Frame.antt =====
-- Saving or deleting one sandbox leaves the states of all others.
use go_firecracker_container.Base.{
  ◌≡◌, ◌≢◌, refl, ◌∙◌, ap, [], ◌∷◌, nat_eq, list_eq, Option-cases, inl, inr, contains,
}
use native.Mathlib.Decide.{ℕ_discrete}
use go_firecracker_container.Base.Text.{Text, text}
use go_firecracker_container.Base.Paths.{IsPlain, is_plain, join_path}
use go_firecracker_container.Base.Paths.Joining.{join_path-join_path}
use go_firecracker_container.Model.{Sandbox, Result, ok, err}
use go_firecracker_container.Model.Actions.{◌>>◌}
use go_firecracker_container.Store.{
  Files, Codec, IsLawful, state_path, sandbox_dir, write_encoded, decode_read, save, load, delete,
}

pub state_file-IsPlain : IsPlain (text "state.json")
unfolding is_plain contains list_eq ℕ_discrete
state_file-IsPlain = refl

module _ {Bytes : Type 0} (F : Files Bytes) (C : Codec Bytes) (L : IsLawful F) (base : Text) where
  write_encoded-other :
      (d e : Text) (r : Result Bytes) (s : F.State)
      → IsPlain d
      → IsPlain e
      → e ≢ d
      → F.read_file
          (write_encoded F C base (join_path (sandbox_dir base d ∷ text "state.json" ∷ [])) r s).0
          (state_path base e)
        ≡ F.read_file s (state_path base e)
  unfolding write_encoded sandbox_dir state_path
  write_encoded-other d e (err x) s p q differ = refl
  write_encoded-other d e (ok bytes) s p q differ =
      ap (λ t. F.read_file (F.write_file s t bytes).0 (state_path base e))
        (join_path-join_path base d (text "state.json"))
      ∙ L.read_file-write_file_other s base d e (text "state.json") bytes p q state_file-IsPlain
          differ

  pub load-save_other :
      (sb : Sandbox) (j : Text) (s : F.State)
      → IsPlain sb.id
      → IsPlain j
      → j ≢ sb.id
      → load F C base j (save F C base sb s).0 ≡ load F C base j s
  unfolding save load ◌>>◌
  load-save_other sb j s plain other differ =
      let dir = sandbox_dir base sb.id in
      let path = state_path base j in
      elim (Option-cases (F.mkdir_all s dir).1) [
        | inr (e, p) ↦ rw (p, ◌>>◌) (ap (decode_read F C base) (L.read_file-mkdir_all s dir path))
        | inl p ↦
            rw (p, ◌>>◌)
              (ap (decode_read F C base) (
                write_encoded-other sb.id j (C.encode sb) (F.mkdir_all s dir).0 plain other differ
                ∙ L.read_file-mkdir_all s dir path))
      ]

  pub load-delete_other :
      (id j : Text) (s : F.State)
      → IsPlain id
      → IsPlain j
      → j ≢ id
      → load F C base j (delete F C base id s).0 ≡ load F C base j s
  unfolding delete load sandbox_dir state_path
  load-delete_other id j s p q differ =
      ap (decode_read F C base)
        (L.read_file-remove_all_other s base id j (text "state.json") p q state_file-IsPlain differ)
