-- ===== src/Network/Dnat/Publish.antt =====
-- Publishing the ports of a sandbox and taking them back.
use go_firecracker_container.Base.{
  ◌≡◌, refl, sym, ◌∙◌, ap, ℕ_discrete, true, false, Option, none, some, List, [], ◌∷◌, map, arith,
  ◌==◌, nat_eq, list_eq,
}
use go_firecracker_container.Base.Text.{Text}
use mathlib.Core.Path.{subst}
use mathlib.Core.Option.{some-ne-none}
use go_firecracker_container.Model.{Error}
use go_firecracker_container.Network.Tables.{
  IpTables, is_ok, IsLawful, IsReliable, table_eq, nat, Rule, add_unique, remove_first,
}
use go_firecracker_container.Model.Actions.{Action, seq_ok, ignore, ◌>>◌, each}
use go_firecracker_container.Network.Dnat.{
  HostPortForward, dnat_rule, output_rule, prerouting, output, apply_host_port_dnat,
  delete_host_port_dnat,
}
use go_firecracker_container.Network.Firewall.View.{add_all}
use go_firecracker_container.Network.Firewall.Unhook.{remove_first_absent}
use go_firecracker_container.Network.Dnat.RuleLists.{remove_all, AreNew, remove_all-add_all}

none_of_is_ok : (e : Option Error) → is_ok e ≡ true → e ≡ none
none_of_is_ok none h = refl
none_of_is_ok (some e) h = ground arith

module _ (I : IpTables) (L : IsLawful I) (R : IsReliable I) where
  -- The rules of the two chains.
  pub record Holds (s : I.State) (pre out : List Rule) : Type 0 where
    pub prerouting_rules : I.rules s nat prerouting ≡ some pre
    pub output_rules : I.rules s nat output ≡ some out

  append_here :
      (s : I.State) (c d : Text) (r : Rule) (rs ds : List Rule)
      → (c == d) ≡ false
      → I.rules s nat c ≡ some rs
      → I.rules s nat d ≡ some ds
      → ((I.append_unique s nat c r).1 ≡ none)
        × (I.rules (I.append_unique s nat c r).0 nat c ≡ some (add_unique r rs))
        × (I.rules (I.append_unique s nat c r).0 nat d ≡ some ds)
  append_here s c d r rs ds n h k =
      let accepted = R.append_unique_accepted s nat c r (λ e. some-ne-none _ (sym h ∙ e)) in
      (
        none_of_is_ok _ accepted,
        ground (arith, accepted, L.rules-append_unique s nat nat c c r),
        ground (arith, L.rules-append_unique s nat nat c d r),
      )

  delete_here :
      (s : I.State) (c d : Text) (r : Rule) (rs ds : List Rule)
      → (c == d) ≡ false
      → I.rules s nat c ≡ some rs
      → I.rules s nat d ≡ some ds
      → (I.rules (I.delete s nat c r).0 nat c ≡ some (remove_first r rs))
        × (I.rules (I.delete s nat c r).0 nat d ≡ some ds)
  delete_here s c d r rs ds n h k = (
    ground (
      arith,
      L.rules-delete s nat nat c c r,
      R.delete_accepted s nat c r rs h,
      remove_first_absent r rs,
    ),
    ground (arith, L.rules-delete s nat nat c d r),
  )

  abbrev publish_step : Text → Text → HostPortForward → Action I.State
  publish_step id ip f = (λ s. I.append_unique s nat prerouting (dnat_rule id ip f)) >> λ s.
      I.append_unique s nat output (output_rule id ip f)

  abbrev unpublish_step : Text → Text → HostPortForward → Action I.State
  unpublish_step id ip f =
      ignore (λ s. I.delete s nat prerouting (dnat_rule id ip f))
      >> ignore λ s. I.delete s nat output (output_rule id ip f)

  publish_one :
      (id ip : Text) (f : HostPortForward) (s : I.State) (pre out : List Rule)
      → Holds s pre out
      → let t = publish_step id ip f s in
        (t.1 ≡ none)
        × Holds t.0 (add_unique (dnat_rule id ip f) pre) (add_unique (output_rule id ip f) out)
  unfolding list_eq ℕ_discrete
  publish_one id ip f s pre out h =
      let first =
        append_here s prerouting output (dnat_rule id ip f) pre out refl h.prerouting_rules
          h.output_rules in
      let second =
        append_here (I.append_unique s nat prerouting (dnat_rule id ip f)).0 output prerouting
          (output_rule id ip f) out _ refl first.2 first.1 in
      subst
        (λ t.
          (t.1 ≡ none)
          × Holds t.0 (add_unique (dnat_rule id ip f) pre) (add_unique (output_rule id ip f) out))
        (sym (
          seq_ok (λ s'. I.append_unique s' nat prerouting (dnat_rule id ip f))
            (λ s'. I.append_unique s' nat output (output_rule id ip f)) s first.0))
        (second.0, record { prerouting_rules = second.2; output_rules = second.1 })

  unpublish_one :
      (id ip : Text) (f : HostPortForward) (s : I.State) (pre out : List Rule)
      → Holds s pre out
      → let t = unpublish_step id ip f s in
        (t.1 ≡ none)
        × Holds t.0 (remove_first (dnat_rule id ip f) pre) (remove_first (output_rule id ip f) out)
  unfolding ◌>>◌ list_eq ℕ_discrete
  unpublish_one id ip f s pre out h =
      let first =
        delete_here s prerouting output (dnat_rule id ip f) pre out refl h.prerouting_rules
          h.output_rules in
      let second =
        delete_here (I.delete s nat prerouting (dnat_rule id ip f)).0 output prerouting
          (output_rule id ip f) out _ refl first.1 first.0 in
      (refl, record { prerouting_rules = second.1; output_rules = second.0 })

  publish :
      (id ip : Text) (fs : List HostPortForward) (s : I.State) (pre out : List Rule)
      → Holds s pre out
      → let t = apply_host_port_dnat I id ip fs s in
        (t.1 ≡ none)
        × Holds t.0
            (add_all (map (dnat_rule id ip) fs) pre)
            (add_all (map (output_rule id ip) fs) out)
  unfolding apply_host_port_dnat each
  publish id ip [] s pre out h = (refl, h)
  publish id ip (f ∷ fs) s pre out h =
      let one = publish_one id ip f s pre out h in
      subst
        (λ t.
          (t.1 ≡ none)
          × Holds t.0 (add_all (map (dnat_rule id ip) (f ∷ fs)) pre)
              (add_all (map (output_rule id ip) (f ∷ fs)) out))
        (sym (seq_ok (publish_step id ip f) (apply_host_port_dnat I id ip fs) s one.0))
        (publish id ip fs _ _ _ one.1)

  unpublish :
      (id ip : Text) (fs : List HostPortForward) (s : I.State) (pre out : List Rule)
      → Holds s pre out
      → Holds
          (delete_host_port_dnat I id ip fs s).0
          (remove_all (map (dnat_rule id ip) fs) pre)
          (remove_all (map (output_rule id ip) fs) out)
  unfolding delete_host_port_dnat ◌>>◌ each remove_all
  unpublish id ip [] s pre out h = h
  unpublish id ip (f ∷ fs) s pre out h =
      unpublish id ip fs _ _ _ (unpublish_one id ip f s pre out h).1

  -- With iptables reliable, `ApplyHostPortDNAT` succeeds, and `DeleteHostPortDNAT` for the same
  -- sandbox and ports then leaves the rules of both chains as they were, if none of the rules was
  -- there before. A port that is listed twice is no exception.
  pub delete-apply_host_port_dnat :
      (id ip : Text) (fs : List HostPortForward) (s : I.State) (pre out : List Rule)
      → Holds s pre out
      → AreNew pre (map (dnat_rule id ip) fs)
      → AreNew out (map (output_rule id ip) fs)
      → ((apply_host_port_dnat I id ip fs s).1 ≡ none)
        × Holds (delete_host_port_dnat I id ip fs (apply_host_port_dnat I id ip fs s).0).0 pre out
  delete-apply_host_port_dnat id ip fs s pre out h new_pre new_out =
      let (succeeds, held) = publish id ip fs s pre out h in
      let gone = unpublish id ip fs _ _ _ held in
      (
        succeeds,
        record {
          prerouting_rules = gone.prerouting_rules ∙ ap some (remove_all-add_all _ pre new_pre);
          output_rules = gone.output_rules ∙ ap some (remove_all-add_all _ out new_out);
        },
      )
