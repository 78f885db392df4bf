-- ===== src/Store/Memory.antt =====
-- Files in memory, whose contents are states themselves, and the codec that changes nothing.
use mathlib.Core.List.{append_assoc, append_cancel_left, append_cancel_right}
use go_firecracker_container.Base.{
  ◌≡◌, ◌≢◌, refl, sym, ◌∙◌, ap, ap₂, true, false, contains, Bool-cases, inl, inr, Option, none,
  some, [], ◌∷◌, ◌++◌, nat_eq, list_eq, if◌then◌else◌, arith,
}
use go_firecracker_container.Base.Text.{Text, has_prefix}
use go_firecracker_container.Base.Paths.{IsPlain, join_path}
use go_firecracker_container.Base.Paths.Joining.{
  within, within-join_path, join_path-plain, join_path-plain_two, plain-IsElement,
}
use go_firecracker_container.Base.Text.Laws.{has_prefix-append}
use go_firecracker_container.Base.Dict
use go_firecracker_container.Base.Dict.{Dict}
use go_firecracker_container.Model.{Sandbox, Error, Result, ok, err}
use go_firecracker_container.Store.{Files, Codec, IsLawful, IsFaithful}

abbrev found : Option Sandbox → Result Sandbox
found none = err Error.not_exist
found (some sb) = ok sb

abbrev drop_under : Text → Dict Text Sandbox → Dict Text Sandbox
drop_under d [] = []
drop_under d ((k, v) ∷ m) =
    let rest = drop_under d m in if has_prefix k (within d) then rest else (k, v) ∷ rest

abbrev pub memory_files : Files Sandbox
memory_files = record {
  State = Dict Text Sandbox;
  mkdir_all = λ s d. (s, none);
  write_file = λ s p sb. (Dict.insert p sb s, none);
  remove_all = λ s d. (drop_under d s, none);
  read_file = λ s p. found (Dict.lookup p s);
  read_dir = λ s d. ok [];
}

lookup-drop_under :
    (d p : Text) (s : Dict Text Sandbox)
    → has_prefix p (within d) ≡ true
    → Dict.lookup p (drop_under d s) ≡ none
unfolding Dict.lookup
lookup-drop_under d p [] h = refl
lookup-drop_under d p ((k, v) ∷ s) h = ground (arith, h, lookup-drop_under d p s h)

lookup-drop_other :
    (d p : Text) (s : Dict Text Sandbox)
    → has_prefix p (within d) ≡ false
    → Dict.lookup p (drop_under d s) ≡ Dict.lookup p s
unfolding Dict.lookup
lookup-drop_other d p [] h = refl
lookup-drop_other d p ((k, v) ∷ s) h = ground (arith, h, lookup-drop_other d p s h)

-- An element is a prefix, up to the next slash, of itself alone.
prefix_element :
    (d e rest : Text)
    → contains d b'/' ≡ false
    → contains e b'/' ≡ false
    → has_prefix (e ++ b'/' ∷ rest) (d ++ b'/' ∷ []) ≡ true
    → e ≡ d
unfolding has_prefix contains
prefix_element [] [] rest p q h = refl
prefix_element [] (x ∷ e) rest p q h = ground (arith, q, h)
prefix_element (y ∷ d) [] rest p q h = ground (arith, p, h)
prefix_element (y ∷ d) (x ∷ e) rest p q h = ground (arith, p, q, h, prefix_element d e rest)

has_prefix_after : (base p d : Text) → has_prefix (base ++ p) (base ++ d) ≡ has_prefix p d
unfolding has_prefix
has_prefix_after [] p d = refl
has_prefix_after (b ∷ base) p d = ground (arith, has_prefix_after base p d)

other_file :
    (base d e f : Text)
    → IsPlain d
    → IsPlain e
    → IsPlain f
    → e ≢ d
    → join_path (base ∷ e ∷ f ∷ []) ≢ join_path (base ∷ d ∷ f ∷ [])
other_file base d e f p q r differ h = differ (
    append_cancel_right e d (b'/' ∷ f) (
      append_cancel_left (within base) _ _
        (sym (join_path-plain_two base e f q r) ∙ (h ∙ join_path-plain_two base d f p r))))

outside_entry :
    (base d e f : Text)
    → IsPlain d
    → IsPlain e
    → IsPlain f
    → e ≢ d
    → has_prefix (join_path (base ∷ e ∷ f ∷ [])) (within (join_path (base ∷ d ∷ []))) ≡ false
outside_entry base d e f p q r differ =
    elim (Bool-cases (has_prefix (e ++ b'/' ∷ f) (d ++ b'/' ∷ []))) [
      | inl h ↦ absurd (differ (prefix_element d e f (plain-IsElement d p) (plain-IsElement e q) h))
      | inr h ↦
          ap₂ has_prefix (join_path-plain_two base e f q r)
            (within-join_path base d p ∙ append_assoc (within base) d (b'/' ∷ []))
          ∙ (has_prefix_after (within base) (e ++ b'/' ∷ f) (d ++ b'/' ∷ []) ∙ h)
    ]

pub memory_files-IsLawful : IsLawful memory_files
memory_files-IsLawful = record {
  read_file-mkdir_all = λ s d p. refl;
  read_file-write_file = λ s p sb h. ground (arith, Dict.lookup-insert p p sb s);
  read_file-remove_all = λ s d f based plain h. ap found (
      lookup-drop_under d (join_path (d ∷ f ∷ [])) s (
        ap (λ q. has_prefix q (within d)) (join_path-plain d f plain)
        ∙ has_prefix-append (within d) f));
  read_file-write_file_other = λ s base d e f sb p q r differ. ground (
    arith,
    other_file base d e f p q r differ,
    Dict.lookup-insert (join_path (base ∷ e ∷ f ∷ [])) (join_path (base ∷ d ∷ f ∷ [])) sb s,
  );
  read_file-remove_all_other = λ s base d e f p q r differ. ap found (
      lookup-drop_other (join_path (base ∷ d ∷ [])) (join_path (base ∷ e ∷ f ∷ [])) s
        (outside_entry base d e f p q r differ));
  remove_all_absent = λ s d e. cc;
}

abbrev pub plain : Codec Sandbox
plain = record { encode = λ sb. ok sb; decode = λ sb. ok sb }

pub plain-IsFaithful : IsFaithful plain
plain-IsFaithful = record { decode-encode = λ sb bytes h. ground (arith, h) }
