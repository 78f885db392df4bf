-- ===== src/Network/Dnat/Tagged.antt =====
-- What the deletion by a sandbox's tag does to the lines that `iptables -S` prints: it puts a comment
-- that holds anything but letters, digits, "-" and "_" between quotes, and a tag holds a colon.
use go_firecracker_container.Base.{
  ◌≡◌, refl, ◌∙◌, ap, Bool, true, false, not, ◌&&◌, ◌||◌, none, some, List, [], ◌∷◌, ◌++◌, all,
  nat_eq, arith, Bool-cases, inl, inr, ℕ,
}
use go_firecracker_container.Base.Text.{Text, text, contains_text, has_prefix}
use go_firecracker_container.Network.Tables.{IpTables, nat}
use go_firecracker_container.Model.Actions.{◌>>◌, each, seq_to}
use go_firecracker_container.Network.Dnat.{
  sandbox_tag, host_port_comment_prefix, delete_if_tagged, each_line, prerouting, output,
  delete_host_port_dnat_by_sandbox,
}

abbrev flag : Text
flag = text "--comment "

-- Each comment in the line stands between quotes.
unfoldable pub is_quoted : Text → Bool
unfolding has_prefix
is_quoted [] = true
is_quoted (b ∷ s) =
    (not (has_prefix (b ∷ s) flag) || has_prefix (b ∷ s) (flag ++ b'"' ∷ [])) && is_quoted s

has_prefix_front : (s p q : Text) → has_prefix s (p ++ q) ≡ true → has_prefix s p ≡ true
unfolding has_prefix
has_prefix_front s [] q h = refl
has_prefix_front [] (x ∷ p) q h = h
has_prefix_front (b ∷ s) (x ∷ p) q h = ground (arith, h, has_prefix_front s p q)

-- A text does not go on in two ways.
has_prefix_next :
    (s p q : Text) (x y : ℕ)
    → has_prefix s (p ++ x ∷ q) ≡ true
    → has_prefix s (p ++ y ∷ []) ≡ true
    → x ≡ y
unfolding has_prefix
has_prefix_next [] [] q x y h k = absurd (ground (arith, h))
has_prefix_next (b ∷ s) [] q x y h k = ground (arith, h, k)
has_prefix_next [] (z ∷ p) q x y h k = absurd (ground (arith, h))
has_prefix_next (b ∷ s) (z ∷ p) q x y h k =
    has_prefix_next s p q x y (ground (arith, h)) (ground (arith, k))

untagged_here :
    (id : Text) (b : ℕ) (s : Text)
    → (not (has_prefix (b ∷ s) flag) || has_prefix (b ∷ s) (flag ++ b'"' ∷ [])) ≡ true
    → has_prefix (b ∷ s) (sandbox_tag id) ≡ false
unfolding sandbox_tag
untagged_here id b s h = elim (Bool-cases (has_prefix (b ∷ s) (sandbox_tag id))) [
  | inr p ↦ p
  | inl p ↦
      let front = has_prefix_front (b ∷ s) flag (host_port_comment_prefix ++ id) p in
      let next : b'S' ≡ b'"' =
        has_prefix_next (b ∷ s) flag (text "BX:" ++ id) b'S' b'"' p (ground (arith, h, front)) in
      absurd (omega (arith, next))
]

empty-untagged : (id : Text) → has_prefix [] (sandbox_tag id) ≡ false
unfolding sandbox_tag has_prefix
empty-untagged id = refl

both : (a b : Bool) → (a && b) ≡ true → (a ≡ true) × (b ≡ true)
both a b h = ground (arith, h)

quoted-untagged :
    (id line : Text) → is_quoted line ≡ true → contains_text line (sandbox_tag id) ≡ false
unfolding is_quoted contains_text
quoted-untagged id [] h = empty-untagged id
quoted-untagged id (b ∷ s) h =
    let (here, rest) = both _ (is_quoted s) h in
    rw (untagged_here id b s here) (quoted-untagged id s rest)

module _ (I : IpTables) (id : Text) where
  each-quoted :
      (chain : Text) (lines : List Text) (s : I.State)
      → all is_quoted lines ≡ true
      → each (delete_if_tagged I id chain) lines s ≡ (s, none)
  unfolding each ◌>>◌ delete_if_tagged
  each-quoted chain [] s h = refl
  each-quoted chain (line ∷ lines) s h =
      seq_to (delete_if_tagged I id chain line) (each (delete_if_tagged I id chain) lines) s s
        (rw (quoted-untagged id line (ground arith)) refl)
      ∙ each-quoted chain lines s (ground arith)

  chain-quoted :
      (chain : Text) (lines : List Text) (s : I.State)
      → I.list s nat chain ≡ some lines
      → all is_quoted lines ≡ true
      → each_line I (delete_if_tagged I id) chain s ≡ (s, none)
  unfolding each_line
  chain-quoted chain lines s l h =
      ap (λ r. elim r [ none ↦ (s, none) | some ls ↦ each (delete_if_tagged I id chain) ls s ]) l
      ∙ each-quoted chain lines s h

  -- Where each listed comment of both chains stands between quotes, `DeleteHostPortDNATBySandbox`
  -- deletes no rule, whatever the sandbox and whatever the rules.
  pub delete_host_port_dnat_by_sandbox_quoted :
      (s : I.State) (pre out : List Text)
      → I.list s nat prerouting ≡ some pre
      → I.list s nat output ≡ some out
      → all is_quoted pre ≡ true
      → all is_quoted out ≡ true
      → delete_host_port_dnat_by_sandbox I id s ≡ (s, none)
  unfolding delete_host_port_dnat_by_sandbox
  delete_host_port_dnat_by_sandbox_quoted s pre out p o hp ho =
      seq_to (each_line I (delete_if_tagged I id) prerouting)
        (each_line I (delete_if_tagged I id) output) s s (chain-quoted prerouting pre s p hp)
      ∙ chain-quoted output out s o ho
