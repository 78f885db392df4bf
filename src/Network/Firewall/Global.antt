-- ===== src/Network/Firewall/Global.antt =====
-- What `EnsureGlobalChains` leaves at the head of the built-in chains.
use mathlib.Core.Path.{subst}
use go_firecracker_container.Base.{
  ◌≡◌, refl, sym, ◌∙◌, ap, ◌≢◌, true, false, not, none, some, List, [], ◌∷◌, ◌==◌, nat_eq, list_eq,
  arith, if◌then◌else◌, ℕ_discrete, Option-cases, ==-self, inl, inr,
}
use go_firecracker_container.Base.Text.{Text, text, to_upper, trim_space}
use go_firecracker_container.Network.Tables.{
  IpTables, IsLawful, IsReliable, filter, table_eq, Rule, insert_at, remove_first,
}
use go_firecracker_container.Model.Actions.{Action, ignore, ◌>>◌, each, seq_succeeds}
use go_firecracker_container.Network.Firewall.{
  forward, forward_hook, input_hook, accept_marked, accept_established, jump, insert_first,
  hook_chain, hooks_of, has_chain, ensure_global_chains,
}
use go_firecracker_container.Network.Firewall.Unhook.{delete_here}

abbrev pub built_in_input : Text
built_in_input = text "INPUT"

-- The rules of the two built-in chains.
record Heads (I : IpTables) (s : I.State) (fs is : List Rule) : Type 0 where
  forwarded : I.rules s filter forward ≡ some fs
  entered : I.rules s filter built_in_input ≡ some is

differ : (x y : Text) → (x == y) ≡ false → x ≢ y
differ x y h e = ground (arith, h, e, ==-self y)

module _ (I : IpTables) (L : IsLawful I) (R : IsReliable I) where
  insert_first-here :
      (s : I.State) (c : Text) (r : Rule) (rs : List Rule)
      → I.rules s filter c ≡ some rs
      → (insert_first I c r s).1 ≡ none
      → I.rules (insert_first I c r s).0 filter c ≡ some (r ∷ remove_first r rs)
  unfolding insert_first ◌>>◌ insert_at
  insert_first-here s c r rs h k = ground (
    arith,
    delete_here I L R s c r rs h,
    L.rules-insert (I.delete s filter c r).0 filter filter c c 1 r,
  )

  insert_first-other :
      (s : I.State) (c d : Text) (r : Rule)
      → c ≢ d
      → I.rules (insert_first I c r s).0 filter d ≡ I.rules s filter d
  unfolding insert_first ◌>>◌
  insert_first-other s c d r ne = ground (
    arith,
    L.rules-delete s filter filter c d r,
    L.rules-insert (I.delete s filter c r).0 filter filter c d 1 r,
  )

  forward-Heads :
      (r : Rule) (fs is : List Rule) (s : I.State)
      → Heads I s fs is
      → (insert_first I forward r s).1 ≡ none
      → Heads I (insert_first I forward r s).0 (r ∷ remove_first r fs) is
  unfolding list_eq ℕ_discrete
  forward-Heads r fs is s h k = record {
    forwarded = insert_first-here s forward r fs h.forwarded k;
    entered =
        insert_first-other s forward built_in_input r (differ forward built_in_input refl)
        ∙ h.entered;
  }

  input-Heads :
      (r : Rule) (fs is : List Rule) (s : I.State)
      → Heads I s fs is
      → (insert_first I built_in_input r s).1 ≡ none
      → Heads I (insert_first I built_in_input r s).0 fs (r ∷ remove_first r is)
  unfolding list_eq ℕ_discrete
  input-Heads r fs is s h k = record {
    forwarded =
        insert_first-other s built_in_input forward r (differ built_in_input forward refl)
        ∙ h.forwarded;
    entered = insert_first-here s built_in_input r is h.entered k;
  }

  create-Heads :
      (c : Text) (fs is : List Rule) (s : I.State)
      → Heads I s fs is
      → Heads I (I.new_chain s filter c).0 fs is
  create-Heads c fs is s h = record {
    forwarded = ground (
      arith,
      L.rules-new_chain s filter filter c forward,
      L.new_chain_existing s filter c,
      h.forwarded,
    );
    entered = ground (
      arith,
      L.rules-new_chain s filter filter c built_in_input,
      L.new_chain_existing s filter c,
      h.entered,
    );
  }

  has_chain-present :
      (fs is : List Rule) (s : I.State)
      → I.list_chains s filter ≢ none
      → Heads I s fs is
      → has_chain I s forward ≡ true
  unfolding has_chain
  has_chain-present fs is s listed h = elim (Option-cases (I.list_chains s filter)) [
    | inl e ↦ absurd (listed e)
    | inr (cs, e) ↦
        rw (e, has_chain)
          (ground (arith, L.contains-list_chains s filter forward cs e, h.forwarded))
  ]

  hook_chain-present :
      (s : I.State)
      → has_chain I s forward ≡ true
      → hook_chain I forward s ≡ insert_first I forward (jump forward_hook) s
  unfolding hook_chain to_upper trim_space list_eq ℕ_discrete
  hook_chain-present s h =
      ap (λ b. if not b then (s, none) else insert_first I forward (jump forward_hook) s) h

  -- From `fs` and `is` in the two chains, the action leads to `fs'` and `is'` if it succeeds.
  abbrev Yields : Action I.State → List Rule → List Rule → List Rule → List Rule → Type 0
  Yields a fs is fs' is' =
      (s : I.State) → Heads I s fs is → (a s).1 ≡ none → Heads I (a s).0 fs' is'

  Yields-seq :
      (a b : Action I.State) (fs is fs' is' fs'' is'' : List Rule)
      → Yields a fs is fs' is'
      → Yields b fs' is' fs'' is''
      → Yields (a >> b) fs is fs'' is''
  Yields-seq a b fs is fs' is' fs'' is'' p q s h k =
      let (first, second, run) = seq_succeeds a b s k in
      subst (λ t. Heads I t.0 fs'' is'') (sym run) (q (a s).0 (p s h first) second)

  hook_chain-Yields :
      (fs is : List Rule)
      → ((t : I.State) → I.list_chains t filter ≢ none)
      → Yields
          (hook_chain I forward)
          fs
          is
          (jump forward_hook ∷ remove_first (jump forward_hook) fs)
          is
  hook_chain-Yields fs is listed s h k =
      let hooked = hook_chain-present s (has_chain-present fs is s (listed s) h) in
      subst (λ t. Heads I t.0 (jump forward_hook ∷ remove_first (jump forward_hook) fs) is)
        (sym hooked) (forward-Heads (jump forward_hook) fs is s h (sym (ap (λ t. t.1) hooked) ∙ k))

  each-Yields :
      (fs is : List Rule)
      → ((t : I.State) → I.list_chains t filter ≢ none)
      → Yields
          (each (hook_chain I) (forward ∷ []))
          fs
          is
          (jump forward_hook ∷ remove_first (jump forward_hook) fs)
          is
  unfolding each
  each-Yields fs is listed =
      Yields-seq (hook_chain I forward) (each (hook_chain I) []) fs is _ is _ is
        (hook_chain-Yields fs is listed) (λ s h k. h)

  -- With iptables reliable and its chains listed: if `EnsureGlobalChains` succeeds with FORWARD as its
  -- only chain to hook into, the hooks come first in FORWARD and INPUT; in FORWARD the replies and
  -- the marked packets follow. Then comes what was there, less one copy of each of these rules.
  pub ensure_global_chains_heads :
      (hooks : List Text) (fs is : List Rule) (s : I.State)
      → ((t : I.State) → I.list_chains t filter ≢ none)
      → hooks_of I hooks ≡ forward ∷ []
      → I.rules s filter forward ≡ some fs
      → I.rules s filter built_in_input ≡ some is
      → (ensure_global_chains I hooks s).1 ≡ none
      → let t = (ensure_global_chains I hooks s).0 in
        (I.rules t filter forward
          ≡ some (
              jump forward_hook
              ∷ accept_established
              ∷ accept_marked
              ∷ remove_first
                  (jump forward_hook)
                  (remove_first accept_established (remove_first accept_marked fs))))
        × (I.rules t filter built_in_input
            ≡ some (jump input_hook ∷ remove_first (jump input_hook) is))
  unfolding ensure_global_chains remove_first list_eq ℕ_discrete
  ensure_global_chains_heads hooks fs is s listed hooked f i h =
      let with_marked = accept_marked ∷ remove_first accept_marked fs in
      let with_replies = accept_established ∷ remove_first accept_established with_marked in
      let with_hook = jump forward_hook ∷ remove_first (jump forward_hook) with_replies in
      let created : (c : Text) → Yields (ignore (λ t. I.new_chain t filter c)) fs is fs is =
        λ c t k _. create-Heads c fs is t k in
      let hooks_in =
        subst (λ cs. Yields (each (hook_chain I) cs) with_replies is with_hook is) (sym hooked)
          (each-Yields with_replies is listed) in
      let last =
        Yields-seq _ _ with_replies is with_hook is _ _ hooks_in
          (input-Heads (jump input_hook) with_hook is) in
      let replies =
        Yields-seq _ _ with_marked is with_replies is _ _
          (forward-Heads accept_established with_marked is) last in
      let marked =
        Yields-seq _ _ fs is with_marked is _ _ (forward-Heads accept_marked fs is) replies in
      let all =
        Yields-seq _ _ fs is fs is _ _ (created forward_hook)
          (Yields-seq _ _ fs is fs is _ _ (created input_hook) marked) in
      let heads = all s (record { forwarded = f; entered = i }) h in
      (heads.forwarded, heads.entered)
