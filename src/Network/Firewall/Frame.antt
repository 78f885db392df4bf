-- ===== src/Network/Firewall/Frame.antt =====
-- Which chains the rules of a sandbox leave alone, whatever fails.
use go_firecracker_container.Base.{
  ◌≡◌, refl, sym, ◌≢◌, Bool, true, false, List, [], ◌∷◌, nat_eq, list_eq, arith, if◌then◌else◌, ℕ,
}
use go_firecracker_container.Base.Text.{Text}
use go_firecracker_container.Network.ShortId.{fnv32a}
use go_firecracker_container.Network.Tables.{
  IpTables, IsLawful, Table, filter, nat, table_eq, Rule, is_here,
}
use go_firecracker_container.Model.Actions.{Action, done, ignore, ◌>>◌, each}
use go_firecracker_container.Network.Firewall.{
  PublishedPort, forward, forward_hook, input_hook, forward_chain, input_chain, append, try_append,
  attach_chains, allow_dns, allow_name_service, fill_forward_chain, fill_input_chain,
  insert_forward_accept_early, apply_sandbox_rules, delete_sandbox_rules,
}
use go_firecracker_container.Network.Firewall.Names.{
  forward_chain-ne-input_chain, forward_chain-ne-forward_hook, forward_chain-ne-input_hook,
  forward_chain-ne-forward, input_chain-ne-forward_hook, input_chain-ne-input_hook,
  input_chain-ne-forward, chains_shared_iff,
}

-- A chain that is none of those that the rules of the sandbox stand in.
pub record IsApart (id : Text) (t : Table) (c : Text) : Type 0 where
  pub forward_hook : is_here filter forward_hook t c ≡ false
  pub input_hook : is_here filter input_hook t c ≡ false
  pub forward_chain : is_here filter (forward_chain id) t c ≡ false
  pub input_chain : is_here filter (input_chain id) t c ≡ false

nat-IsApart : (id c : Text) → IsApart id nat c
unfolding table_eq
nat-IsApart id c = record {
  forward_hook = refl;
  input_hook = refl;
  forward_chain = refl;
  input_chain = refl;
}

nat_off_forward : (c : Text) → is_here filter forward nat c ≡ false
unfolding table_eq
nat_off_forward c = refl

pub apart_of_ne : (d c : Text) → d ≢ c → is_here filter d filter c ≡ false
apart_of_ne d c ne = ground arith

other-IsApart :
    (id other : Text)
    → fnv32a id ≢ fnv32a other
    → IsApart id filter (forward_chain other) × IsApart id filter (input_chain other)
other-IsApart id other differ = (
  record {
    forward_hook = apart_of_ne _ _ (λ e. forward_chain-ne-forward_hook other (sym e));
    input_hook = apart_of_ne _ _ (λ e. forward_chain-ne-input_hook other (sym e));
    forward_chain = apart_of_ne _ _ (λ e. differ ((chains_shared_iff id other).0.0 e));
    input_chain = apart_of_ne _ _ (λ e. forward_chain-ne-input_chain other id (sym e));
  },
  record {
    forward_hook = apart_of_ne _ _ (λ e. input_chain-ne-forward_hook other (sym e));
    input_hook = apart_of_ne _ _ (λ e. input_chain-ne-input_hook other (sym e));
    forward_chain = apart_of_ne _ _ (forward_chain-ne-input_chain id other);
    input_chain = apart_of_ne _ _ (λ e. differ ((chains_shared_iff id other).1.0 e));
  },
)

module _ (I : IpTables) (t : Table) (c : Text) where
  -- The action leaves the rules of the chain as they are.
  pub record Keeps (a : Action I.State) : Type 0 where
    pub same : (s : I.State) → I.rules (a s).0 t c ≡ I.rules s t c

module _ (I : IpTables) (t : Table) (c : Text) {a b : Action I.State} where
  keep-seq : Keeps I t c a → Keeps I t c b → Keeps I t c (a >> b)
  unfolding ◌>>◌
  keep-seq p q = record { same = λ s. ground (arith, p.same s, q.same (a s).0) }

  keep-if : (e : Bool) → Keeps I t c a → Keeps I t c b → Keeps I t c (if e then a else b)
  keep-if true p q = p
  keep-if false p q = q

module _ (I : IpTables) (t : Table) (c : Text) where
  keep-ignore : {a : Action I.State} → Keeps I t c a → Keeps I t c (ignore a)
  keep-ignore p = record { same = λ s. p.same s }

  keep-done : Keeps I t c done
  keep-done = record { same = λ s. refl }

  keep-each {ℓ} :
      {A : Type ℓ} (f : A → Action I.State)
      → ((x : A) → Keeps I t c (f x))
      → (xs : List A) → Keeps I t c (each f xs)
  unfolding each
  keep-each f h [] = keep-done
  keep-each f h (x ∷ xs) = keep-seq I t c (h x) (keep-each f h xs)

module _ (I : IpTables) (L : IsLawful I) (t : Table) (c : Text) {d : Text}
    (away : is_here filter d t c ≡ false) where
  pub keep-append : (r : Rule) → Keeps I t c (append I d r)
  keep-append r = record { same = λ s. rw (L.rules-append_unique s filter t d c r) (rw away refl) }

  pub keep-new_chain : Keeps I t c (λ s. I.new_chain s filter d)
  keep-new_chain = record { same = λ s. rw (L.rules-new_chain s filter t d c) (rw away refl) }

  pub keep-clear_chain : Keeps I t c (λ s. I.clear_chain s filter d)
  keep-clear_chain = record { same = λ s. rw (L.rules-clear_chain s filter t d c) (rw away refl) }

  pub keep-delete_chain : Keeps I t c (λ s. I.delete_chain s filter d)
  keep-delete_chain = record { same = λ s. rw (L.rules-delete_chain s filter t d c) (rw away refl) }

  pub keep-delete : (r : Rule) → Keeps I t c (λ s. I.delete s filter d r)
  keep-delete r = record { same = λ s. rw (L.rules-delete s filter t d c r) (rw away refl) }

  pub keep-insert : (n : ℕ) (r : Rule) → Keeps I t c (λ s. I.insert s filter d n r)
  keep-insert n r = record { same = λ s. rw (L.rules-insert s filter t d c n r) (rw away refl) }

module _ (I : IpTables) (L : IsLawful I) (t : Table) (c : Text) (d : Text)
    (away : is_here filter d t c ≡ false) where
  try-Keeps : (r : Rule) → Keeps I t c (try_append I d r)
  try-Keeps r = keep-ignore I t c (keep-append I L t c away r)

  pub fill_forward-Keeps :
      (nameservers : List Text) (cidr : Text) (egress : Bool)
      → Keeps I t c (fill_forward_chain I nameservers d cidr egress)
  unfolding fill_forward_chain allow_name_service allow_dns
  fill_forward-Keeps nameservers cidr egress = keep-seq I t c (try-Keeps _) (
      keep-seq I t c
        (keep-if I t c egress
          (keep-seq I t c
            (keep-each I t c _ (λ n. keep-seq I t c (try-Keeps _) (try-Keeps _)) nameservers)
            (keep-seq I t c (try-Keeps _) (try-Keeps _)))
          (keep-done I t c))
        (keep-seq I t c (try-Keeps _) (
          keep-seq I t c (keep-each I t c _ (λ n. try-Keeps _) _)
            (keep-if I t c egress (try-Keeps _) (try-Keeps _)))))

  pub fill_input-Keeps : (ports : List PublishedPort) → Keeps I t c (fill_input_chain I d ports)
  unfolding fill_input_chain
  fill_input-Keeps ports =
      keep-seq I t c (try-Keeps _)
        (keep-seq I t c (keep-each I t c _ (λ p. try-Keeps _) ports) (try-Keeps _))

module _ (I : IpTables) (L : IsLawful I) (t : Table) (c id : Text) (apart : IsApart id t c) where
  pub attach-Keeps : (ip bridge : Text) → Keeps I t c (attach_chains I id ip bridge)
  unfolding attach_chains
  attach-Keeps ip bridge =
      keep-seq I t c (keep-ignore I t c (keep-new_chain I L t c apart.forward_chain)) (
        keep-seq I t c (keep-ignore I t c (keep-new_chain I L t c apart.input_chain)) (
          keep-seq I t c (keep-append I L t c apart.forward_hook _)
            (keep-append I L t c apart.input_hook _)))

module _ (I : IpTables) (L : IsLawful I) (t : Table) (c id : Text) (apart : IsApart id t c)
    (off : is_here filter forward t c ≡ false) where
  insert_early-Keeps :
      (ip : Text) (p : PublishedPort) → Keeps I t c (insert_forward_accept_early I ip p)
  unfolding insert_forward_accept_early
  insert_early-Keeps ip p =
      keep-seq I t c (keep-ignore I t c (keep-delete I L t c off _)) (keep-insert I L t c off 2 _)

  apply-Keeps :
      (nameservers : List Text) (ip cidr bridge : Text) (egress : Bool) (ports : List PublishedPort)
      → Keeps I t c (apply_sandbox_rules I nameservers id ip cidr bridge egress ports)
  unfolding apply_sandbox_rules
  apply-Keeps nameservers ip cidr bridge egress ports =
      keep-seq I t c (attach-Keeps I L t c id apart ip bridge) (
        keep-seq I t c (keep-each I t c _ (λ p. keep-ignore I t c (insert_early-Keeps ip p)) ports)
          (keep-seq I t c (fill_forward-Keeps I L t c _ apart.forward_chain nameservers cidr egress)
            (fill_input-Keeps I L t c _ apart.input_chain ports)))

  delete-Keeps :
      (ip bridge : Text) (ports : List PublishedPort)
      → Keeps I t c (delete_sandbox_rules I id ip bridge ports)
  unfolding delete_sandbox_rules
  delete-Keeps ip bridge ports =
      keep-seq I t c (keep-each I t c _ (λ p. keep-ignore I t c (keep-delete I L t c off _)) ports)
        (keep-seq I t c (keep-ignore I t c (keep-delete I L t c apart.forward_hook _)) (
          keep-seq I t c (keep-ignore I t c (keep-delete I L t c apart.input_hook _)) (
            keep-seq I t c (keep-ignore I t c (keep-clear_chain I L t c apart.forward_chain)) (
              keep-seq I t c (keep-ignore I t c (keep-clear_chain I L t c apart.input_chain)) (
                keep-seq I t c (keep-ignore I t c (keep-delete_chain I L t c apart.forward_chain))
                  (keep-ignore I t c (keep-delete_chain I L t c apart.input_chain)))))))

-- Neither `ApplySandboxRules` nor `DeleteSandboxRules` changes the chains of a sandbox whose id has
-- another hash, or any chain of the nat table, also when calls of iptables fail.
pub sandbox_rules_isolated :
    (I : IpTables)
    → IsLawful I
    → (nameservers : List Text) (id other ip cidr bridge nat_chain : Text) (egress : Bool)
      (ports : List PublishedPort) (s : I.State)
    → fnv32a id ≢ fnv32a other
    → let added = (apply_sandbox_rules I nameservers id ip cidr bridge egress ports s).0 in
      let removed = (delete_sandbox_rules I id ip bridge ports s).0 in
      (I.rules added filter (forward_chain other) ≡ I.rules s filter (forward_chain other))
      × (I.rules added filter (input_chain other) ≡ I.rules s filter (input_chain other))
      × (I.rules added nat nat_chain ≡ I.rules s nat nat_chain)
      × (I.rules removed filter (forward_chain other) ≡ I.rules s filter (forward_chain other))
      × (I.rules removed filter (input_chain other) ≡ I.rules s filter (input_chain other))
      × (I.rules removed nat nat_chain ≡ I.rules s nat nat_chain)
sandbox_rules_isolated I L nameservers id other ip cidr bridge nat_chain egress ports s differ =
    let apart = other-IsApart id other differ in
    let none_there = nat-IsApart id nat_chain in
    let nat_off = nat_off_forward nat_chain in
    (
      (apply-Keeps I L _ _ id apart.0
            (apart_of_ne _ _ (λ e. forward_chain-ne-forward other (sym e))) nameservers ip cidr
            bridge egress ports).same
          s,
      (apply-Keeps I L _ _ id apart.1 (apart_of_ne _ _ (λ e. input_chain-ne-forward other (sym e)))
            nameservers ip cidr bridge egress ports).same
          s,
      (apply-Keeps I L _ _ id none_there nat_off nameservers ip cidr bridge egress ports).same s,
      (delete-Keeps I L _ _ id apart.0
            (apart_of_ne _ _ (λ e. forward_chain-ne-forward other (sym e))) ip bridge ports).same
          s,
      (delete-Keeps I L _ _ id apart.1 (apart_of_ne _ _ (λ e. input_chain-ne-forward other (sym e)))
            ip bridge ports).same
          s,
      (delete-Keeps I L _ _ id none_there nat_off ip bridge ports).same s,
    )
