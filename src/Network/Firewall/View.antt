-- ===== src/Network/Firewall/View.antt =====
-- What the calls of `ApplySandboxRules` do to the two hooks and to the two chains of a sandbox, when
-- iptables is reliable.
use go_firecracker_container.Base.{
  ◌≡◌, refl, sym, ◌∙◌, ◌≢◌, none, some, List, [], ◌∷◌, arith, nat_eq, list_eq,
}
use go_firecracker_container.Base.Text.{Text}
use go_firecracker_container.Network.Tables.{
  IpTables, IsLawful, IsReliable, filter, table_eq, Rule, add_unique,
}
use go_firecracker_container.Model.Actions.{Action, ignore, ◌>>◌}
use go_firecracker_container.Network.Firewall.{
  PublishedPort, forward, forward_hook, input_hook, forward_chain, input_chain, append, try_append,
  accept_to_port, insert_forward_accept_early,
}
use go_firecracker_container.Network.Firewall.Names.{
  forward_chain-ne-input_chain, forward_chain-ne-forward_hook, forward_chain-ne-input_hook,
  forward_chain-ne-forward, input_chain-ne-forward_hook, input_chain-ne-input_hook,
  input_chain-ne-forward, forward_hook-ne-input_hook, forward_hook-ne-forward,
  input_hook-ne-forward,
}

-- Rules appended in turn, each unless it is there.
abbrev pub add_all : List Rule → List Rule → List Rule
add_all [] rs = rs
add_all (r ∷ more) rs = add_all more (add_unique r rs)

-- The rules of the two hooks and of the sandbox's two chains.
pub record View : Type 0 where
  pub hook : List Rule
  pub input : List Rule
  pub to : List Rule
  pub from : List Rule

module _ (I : IpTables) (id : Text) where
  pub record Shows (s : I.State) (v : View) : Type 0 where
    pub hook : I.rules s filter forward_hook ≡ some v.hook
    pub input : I.rules s filter input_hook ≡ some v.input
    pub to : I.rules s filter (forward_chain id) ≡ some v.to
    pub from : I.rules s filter (input_chain id) ≡ some v.from

  -- From a state that shows `v`, the action returns nil and leaves a state that shows `w`.
  abbrev pub Leads : Action I.State → View → View → Type 0
  Leads a v w = (s : I.State) → Shows s v → ((a s).1 ≡ none) × Shows (a s).0 w

  pub after-Shows :
      (a b : Action I.State) (s : I.State) (v w : View)
      → ((a s).1 ≡ none) × Shows (a s).0 v
      → Leads b v w
      → (((a >> b) s).1 ≡ none) × Shows ((a >> b) s).0 w
  unfolding ◌>>◌
  after-Shows a b s v w h q = ground (arith, q (a s).0 h.1)

  pub Leads-seq :
      (a b : Action I.State) (v w x : View) → Leads a v w → Leads b w x → Leads (a >> b) v x
  Leads-seq a b v w x p q s h = after-Shows a b s w x (p s h) q

module _ (I : IpTables) (L : IsLawful I) where
  append_other :
      (s : I.State) (c d : Text) (r : Rule)
      → c ≢ d
      → I.rules (I.append_unique s filter c r).0 filter d ≡ I.rules s filter d
  append_other s c d r ne = rw (L.rules-append_unique s filter filter c d r) (ground arith)

  insert_forward_other :
      (s : I.State) (ip : Text) (p : PublishedPort) (d : Text)
      → forward ≢ d
      → I.rules (insert_forward_accept_early I ip p s).0 filter d ≡ I.rules s filter d
  unfolding insert_forward_accept_early ◌>>◌
  insert_forward_other s ip p d ne =
      let r = accept_to_port ip p in
      let s' = (I.delete s filter forward r).0 in
      rw (L.rules-insert s' filter filter forward d 2 r, L.rules-delete s filter filter forward d r)
        (ground arith)

  module _ (R : IsReliable I) where
    append_here :
        (s : I.State) (c : Text) (r : Rule) (rs : List Rule)
        → I.rules s filter c ≡ some rs
        → ((I.append_unique s filter c r).1 ≡ none)
          × (I.rules (I.append_unique s filter c r).0 filter c ≡ some (add_unique r rs))
    append_here s c r rs h =
        ground (
          arith,
          L.rules-append_unique s filter filter c c r,
          R.append_unique_accepted s filter c r,
        )

module _ (I : IpTables) (L : IsLawful I) (R : IsReliable I) (id : Text) where
  pub append-forward_hook :
      (r : Rule) (v : View)
      → Leads I id (append I forward_hook r) v (record v { hook = add_unique r v.hook })
  append-forward_hook r v s h = (
    (append_here I L R s forward_hook r v.hook h.hook).0,
    record {
      hook = (append_here I L R s forward_hook r v.hook h.hook).1;
      input = append_other I L s _ _ r forward_hook-ne-input_hook ∙ h.input;
      to = append_other I L s _ _ r (λ e. forward_chain-ne-forward_hook id (sym e)) ∙ h.to;
      from = append_other I L s _ _ r (λ e. input_chain-ne-forward_hook id (sym e)) ∙ h.from;
    },
  )

  pub append-input_hook :
      (r : Rule) (v : View)
      → Leads I id (append I input_hook r) v (record v { input = add_unique r v.input })
  append-input_hook r v s h = (
    (append_here I L R s input_hook r v.input h.input).0,
    record {
      hook = append_other I L s _ _ r (λ e. forward_hook-ne-input_hook (sym e)) ∙ h.hook;
      input = (append_here I L R s input_hook r v.input h.input).1;
      to = append_other I L s _ _ r (λ e. forward_chain-ne-input_hook id (sym e)) ∙ h.to;
      from = append_other I L s _ _ r (λ e. input_chain-ne-input_hook id (sym e)) ∙ h.from;
    },
  )

  pub append-forward_chain :
      (r : Rule) (v : View)
      → Leads I id (try_append I (forward_chain id) r) v (record v { to = add_unique r v.to })
  append-forward_chain r v s h = (
    refl,
    record {
      hook = append_other I L s _ _ r (forward_chain-ne-forward_hook id) ∙ h.hook;
      input = append_other I L s _ _ r (forward_chain-ne-input_hook id) ∙ h.input;
      to = (append_here I L R s (forward_chain id) r v.to h.to).1;
      from = append_other I L s _ _ r (forward_chain-ne-input_chain id id) ∙ h.from;
    },
  )

  pub append-input_chain :
      (r : Rule) (v : View)
      → Leads I id (try_append I (input_chain id) r) v (record v { from = add_unique r v.from })
  append-input_chain r v s h = (
    refl,
    record {
      hook = append_other I L s _ _ r (input_chain-ne-forward_hook id) ∙ h.hook;
      input = append_other I L s _ _ r (input_chain-ne-input_hook id) ∙ h.input;
      to = append_other I L s _ _ r (λ e. forward_chain-ne-input_chain id id (sym e)) ∙ h.to;
      from = (append_here I L R s (input_chain id) r v.from h.from).1;
    },
  )

  pub insert-forward :
      (ip : Text) (p : PublishedPort) (v : View)
      → Leads I id (ignore (insert_forward_accept_early I ip p)) v v
  insert-forward ip p v s h = (
    refl,
    record {
      hook = insert_forward_other I L s ip p _ (λ e. forward_hook-ne-forward (sym e)) ∙ h.hook;
      input = insert_forward_other I L s ip p _ (λ e. input_hook-ne-forward (sym e)) ∙ h.input;
      to = insert_forward_other I L s ip p _ (λ e. forward_chain-ne-forward id (sym e)) ∙ h.to;
      from = insert_forward_other I L s ip p _ (λ e. input_chain-ne-forward id (sym e)) ∙ h.from;
    },
  )
