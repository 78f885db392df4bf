-- ===== src/Network/Firewall/Names.antt =====
-- The chains of a sandbox are apart from the built-in ones, from the hooks and from each other, by
-- their lengths.
use mathlib.Core.List.{append_cancel_left, append_cancel_right}
use go_firecracker_container.Base.{◌≤◌, ◌≡◌, ap, ◌≢◌, ◌↔◌, ◌++◌, length, length-append, arith}
use go_firecracker_container.Base.Text.{Text, text}
use go_firecracker_container.Network.ShortId.{short_id, fnv32a}
use go_firecracker_container.Network.ShortId.Laws.{short_id-shape, short_id-eq_iff}
use go_firecracker_container.Network.Firewall.{
  forward_chain, input_chain, forward, forward_hook, input_hook,
}

length-forward_chain : (id : Text) → length (forward_chain id) ≡ 16
unfolding forward_chain
length-forward_chain id =
    omega (arith, length-append (short_id id) (text "-FWD"), (short_id-shape id).0)

length-input_chain : (id : Text) → length (input_chain id) ≡ 15
unfolding input_chain
length-input_chain id =
    omega (arith, length-append (short_id id) (text "-IN"), (short_id-shape id).0)

ne_of_length : (a b : Text) → length a ≢ length b → a ≢ b
ne_of_length a b differ e = differ (ap length e)

pub forward_chain-ne-input_chain : (id other : Text) → forward_chain id ≢ input_chain other
forward_chain-ne-input_chain id other =
    ne_of_length _ _ (omega (arith, length-forward_chain id, length-input_chain other))

module _ (id : Text) where
  pub forward_chain-ne-forward_hook : forward_chain id ≢ forward_hook
  forward_chain-ne-forward_hook = ne_of_length _ _ (omega (arith, length-forward_chain id))

  pub forward_chain-ne-input_hook : forward_chain id ≢ input_hook
  forward_chain-ne-input_hook = ne_of_length _ _ (omega (arith, length-forward_chain id))

  pub forward_chain-ne-forward : forward_chain id ≢ forward
  forward_chain-ne-forward = ne_of_length _ _ (omega (arith, length-forward_chain id))

  pub input_chain-ne-forward_hook : input_chain id ≢ forward_hook
  input_chain-ne-forward_hook = ne_of_length _ _ (omega (arith, length-input_chain id))

  pub input_chain-ne-input_hook : input_chain id ≢ input_hook
  input_chain-ne-input_hook = ne_of_length _ _ (omega (arith, length-input_chain id))

  pub input_chain-ne-forward : input_chain id ≢ forward
  input_chain-ne-forward = ne_of_length _ _ (omega (arith, length-input_chain id))

pub forward_hook-ne-input_hook : forward_hook ≢ input_hook
forward_hook-ne-input_hook = ne_of_length _ _ (omega arith)

pub forward_hook-ne-forward : forward_hook ≢ forward
forward_hook-ne-forward = ne_of_length _ _ (omega arith)

pub input_hook-ne-forward : input_hook ≢ forward
input_hook-ne-forward = ne_of_length _ _ (omega arith)

-- iptables refuses the name of a chain of more than 28 bytes; none of a sandbox's is that long,
-- whatever the id.
pub chain_names_fit :
    (id : Text) → (length (forward_chain id) ≤ 28) × (length (input_chain id) ≤ 28)
chain_names_fit id = (omega (arith, length-forward_chain id), omega (arith, length-input_chain id))

-- Two sandboxes share a chain exactly when the hashes of their ids collide, and never a forward
-- chain with an input chain.
pub chains_shared_iff :
    (id other : Text)
    → ((forward_chain id ≡ forward_chain other) ↔ (fnv32a id ≡ fnv32a other))
      × ((input_chain id ≡ input_chain other) ↔ (fnv32a id ≡ fnv32a other))
      × (forward_chain id ≢ input_chain other)
unfolding forward_chain input_chain
chains_shared_iff id other = (
  (
    λ e. collide.0 (append_cancel_right _ _ (text "-FWD") (append_cancel_left (text "SBX-") _ _ e)),
    λ e. ap (λ s. text "SBX-" ++ (s ++ text "-FWD")) (collide.1 e),
  ),
  (
    λ e. collide.0 (append_cancel_right _ _ (text "-IN") (append_cancel_left (text "SBX-") _ _ e)),
    λ e. ap (λ s. text "SBX-" ++ (s ++ text "-IN")) (collide.1 e),
  ),
  forward_chain-ne-input_chain id other,
)
  where
    collide : (short_id id ≡ short_id other) ↔ (fnv32a id ≡ fnv32a other)
    collide = short_id-eq_iff id other
