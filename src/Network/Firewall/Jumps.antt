-- ===== src/Network/Firewall/Jumps.antt =====
-- Which rules have a chain of a sandbox as their target: but for the two hooks and the sandbox's own
-- chains, no call on its rules adds one.
use mathlib.Core.Option
use mathlib.Core.Option.{some-injective}
use mathlib.Core.Path.{subst}
use go_firecracker_container.Base.{
  ℕ, suc, zero, ◌≡◌, refl, sym, ◌∙◌, ap, Bool, true, false, Option, none, some, List, [], ◌∷◌, ◌++◌,
  any, contains, ◌==◌, nat_eq, list_eq, arith, if◌then◌else◌, Bool-cases, Option-cases, inl, inr,
  ℕ_discrete, eq_of_==, ==-self,
}
use go_firecracker_container.Base.Text.{Text, text}
use go_firecracker_container.Network.Tables.{
  IpTables, IsLawful, filter, table_eq, Rule, remove_first, insert_at, leads_to, IsUnused, is_here,
}
use go_firecracker_container.Model.Actions.{Action, ◌>>◌, each}
use go_firecracker_container.Network.Firewall.{
  PublishedPort, forward, forward_hook, input_hook, forward_chain, input_chain, accept_to_port,
  from_source, from_bridge, insert_forward_accept_early, apply_sandbox_rules,
}
use go_firecracker_container.Network.Firewall.View.{Shows}
use go_firecracker_container.Network.Firewall.Frame.{
  IsApart, Keeps, apart_of_ne, keep-clear_chain, attach-Keeps, fill_forward-Keeps, fill_input-Keeps,
}

abbrev pub IsQuiet : Text → List Rule → Type 0
IsQuiet c rs = any (leads_to c) rs ≡ false

remove_first-IsQuiet :
    (c : Text) (r : Rule) (rs : List Rule) → IsQuiet c rs → IsQuiet c (remove_first r rs)
unfolding remove_first
remove_first-IsQuiet c r [] h = h
remove_first-IsQuiet c r (q ∷ rs) h = ground (arith, h, remove_first-IsQuiet c r rs)

insert_at-IsQuiet :
    (c : Text) (n : ℕ) (r : Rule) (rs : List Rule)
    → leads_to c r ≡ false
    → IsQuiet c rs
    → IsQuiet c (insert_at n r rs)
unfolding insert_at
insert_at-IsQuiet c zero r rs k h = ground (arith, k, h)
insert_at-IsQuiet c (suc zero) r rs k h = ground (arith, k, h)
insert_at-IsQuiet c (suc (suc n)) r [] k h = ground (arith, k, h)
insert_at-IsQuiet c (suc (suc n)) r (q ∷ rs) k h =
    ground (arith, h, insert_at-IsQuiet c (suc n) r rs k)

-- A rule that has the chain as its target is not among quiet rules.
pub quiet-contains :
    (c : Text) (r : Rule) (rs : List Rule)
    → leads_to c r ≡ true
    → IsQuiet c rs
    → contains rs r ≡ false
unfolding contains
quiet-contains c r [] k h = refl
quiet-contains c r (q ∷ rs) k h = ground (arith, k, h, quiet-contains c r rs k)

-- A change of the rules of one chain that keeps them quiet.
changed-IsQuiet :
    (c : Text) (f : List Rule → List Rule) (b : Bool) (o : Option (List Rule)) (rs : List Rule)
    → ((qs : List Rule) → IsQuiet c qs → IsQuiet c (f qs))
    → ((qs : List Rule) → o ≡ some qs → IsQuiet c qs)
    → (if b then Option.map f o else o) ≡ some rs
    → IsQuiet c rs
changed-IsQuiet c f true none rs keeps quiet h = cc
changed-IsQuiet c f true (some qs) rs keeps quiet h =
    subst (λ x. IsQuiet c x) (some-injective _ _ h) (keeps qs (quiet qs refl))
changed-IsQuiet c f false o rs keeps quiet h = quiet rs h

module _ (I : IpTables) (L : IsLawful I) (id c : Text) where
  -- Outside of the hooks and the sandbox's own chains no rule has `c` as its target.
  abbrev pub Quiet : I.State → Type 0
  Quiet s =
      (d : Text) (rs : List Rule)
      → IsApart id filter d
      → I.rules s filter d ≡ some rs
      → IsQuiet c rs

  abbrev pub Hushes : Action I.State → Type 0
  Hushes a = (s : I.State) → Quiet s → Quiet (a s).0

  pub hush-seq : (a b : Action I.State) → Hushes a → Hushes b → Hushes (a >> b)
  unfolding ◌>>◌
  hush-seq a b p q s h = elim (Option-cases (a s).1) [
    | inl e ↦ rw (e, ◌>>◌) (q (a s).0 (p s h))
    | inr (x, e) ↦ rw (e, ◌>>◌) (p s h)
  ]

  pub hush-each :
      {A : Type 0} (f : A → Action I.State)
      → ((x : A) → Hushes (f x))
      → (xs : List A) → Hushes (each f xs)
  unfolding each
  hush-each f h [] s q = q
  hush-each f h (x ∷ xs) s q = hush-seq (f x) (each f xs) (h x) (hush-each f h xs) s q

  pub hush-keep :
      (a : Action I.State) → ((d : Text) → IsApart id filter d → Keeps I filter d a) → Hushes a
  hush-keep a keeps s h d rs apart e = h d rs apart (sym ((keeps d apart).same s) ∙ e)

  pub hush-delete : (e : Text) (r : Rule) → Hushes (λ s. I.delete s filter e r)
  hush-delete e r s h d rs apart k =
      changed-IsQuiet c (remove_first r) _ (I.rules s filter d) rs (remove_first-IsQuiet c r)
        (λ qs. h d qs apart) (sym (L.rules-delete s filter filter e d r) ∙ k)

  pub hush-clear_forward : Hushes (λ s. I.clear_chain s filter (forward_chain id))
  hush-clear_forward = hush-keep _ (λ d apart. keep-clear_chain I L filter d apart.forward_chain)

  pub hush-clear_input : Hushes (λ s. I.clear_chain s filter (input_chain id))
  hush-clear_input = hush-keep _ (λ d apart. keep-clear_chain I L filter d apart.input_chain)

  hush-insert :
      (e : Text) (n : ℕ) (r : Rule) → leads_to c r ≡ false → Hushes (λ s. I.insert s filter e n r)
  hush-insert e n r quiet s h d rs apart k =
      changed-IsQuiet c (insert_at n r) _ (I.rules s filter d) rs
        (λ qs. insert_at-IsQuiet c n r qs quiet) (λ qs. h d qs apart)
        (sym (L.rules-insert s filter filter e d n r) ∙ k)

  -- No rule outside of the sandbox's own chains has `c` as its target.
  abbrev pub Calm : I.State → List Rule → List Rule → Type 0
  Calm s hook input = Quiet s × IsQuiet c hook × IsQuiet c input

  known-IsQuiet :
      (s : I.State) (d n : Text) (xs rs : List Rule)
      → (d == n) ≡ true
      → I.rules s filter n ≡ some xs
      → I.rules s filter d ≡ some rs
      → IsQuiet c xs
      → IsQuiet c rs
  known-IsQuiet s d n xs rs p k e q =
      subst (λ x. IsQuiet c x)
        (some-injective _ _ (sym k ∙ (ap (I.rules s filter) (sym (eq_of_== d n p)) ∙ e))) q

  away : (d n : Text) → (d == n) ≡ false → is_here filter n filter d ≡ false
  away d n p = apart_of_ne n d (λ e. absurd (ground (arith, p, sym e, ==-self d)))

  -- When the sandbox's own chains are empty, no rule of the table has `c` as its target.
  pub Calm-IsUnused :
      (s : I.State) (hook input : List Rule)
      → Calm s hook input
      → Shows I id s (record { hook = hook; input = input; to = []; from = [] })
      → IsUnused I s filter c
  Calm-IsUnused s hook input calm h d rs e = elim (Bool-cases (d == forward_hook)) [
    | inl p ↦ known-IsQuiet s d forward_hook hook rs p h.hook e calm.1
    | inr p ↦ elim (Bool-cases (d == input_hook)) [
      | inl q ↦ known-IsQuiet s d input_hook input rs q h.input e calm.2
      | inr q ↦ elim (Bool-cases (d == forward_chain id)) [
        | inl r ↦ known-IsQuiet s d (forward_chain id) [] rs r h.to e refl
        | inr r ↦ elim (Bool-cases (d == input_chain id)) [
          | inl t ↦ known-IsQuiet s d (input_chain id) [] rs t h.from e refl
          | inr t ↦
              calm.0 d rs
                (record {
                  forward_hook = away d forward_hook p;
                  input_hook = away d input_hook q;
                  forward_chain = away d (forward_chain id) r;
                  input_chain = away d (input_chain id) t;
                })
                e
        ]
      ]
    ]
  ]

  dropped_rules :
      (b : Bool) (o : Option (List Rule)) (rs : List Rule)
      → (if b then none else o) ≡ some rs
      → o ≡ some rs
  dropped_rules true o rs h = cc
  dropped_rules false o rs h = h

  pub delete_chain-IsUnused :
      (s : I.State) (e : Text)
      → IsUnused I s filter c
      → IsUnused I (I.delete_chain s filter e).0 filter c
  delete_chain-IsUnused s e unused d rs k =
      unused d rs (
        dropped_rules _ (I.rules s filter d) rs
          (sym (L.rules-delete_chain s filter filter e d) ∙ k))

  module _ (z : Text) (named : c ≡ text "SBX-" ++ z) where
    accept_to_port-quiet :
        (ip : Text) (p : PublishedPort) → leads_to c (accept_to_port ip p) ≡ false
    unfolding accept_to_port leads_to list_eq ℕ_discrete
    accept_to_port-quiet ip p =
        let proto : (text "-p" == c) ≡ false = rw named refl in
        let port : (text "--dport" == c) ≡ false = rw named refl in
        let flag : (text "-j" == c) ≡ false = rw named refl in
        let accept : (text "ACCEPT" == c) ≡ false = rw named refl in
        ground (arith, proto, port, flag, accept)

    insert_early-Hushes :
        (ip : Text) (p : PublishedPort) → Hushes (insert_forward_accept_early I ip p)
    unfolding insert_forward_accept_early
    insert_early-Hushes ip p =
        hush-seq _ _ (hush-delete forward _) (hush-insert forward 2 _ (accept_to_port-quiet ip p))

    pub apply-Hushes :
        (nameservers : List Text) (ip cidr bridge : Text) (egress : Bool)
        (ports : List PublishedPort)
        → Hushes (apply_sandbox_rules I nameservers id ip cidr bridge egress ports)
    unfolding apply_sandbox_rules
    apply-Hushes nameservers ip cidr bridge egress ports =
        hush-seq _ _ (hush-keep _ (λ d apart. attach-Keeps I L filter d id apart ip bridge)) (
          hush-seq _ _ (hush-each _ (λ p. insert_early-Hushes ip p) ports) (
            hush-seq _ _
              (hush-keep _ (λ d apart.
                fill_forward-Keeps I L filter d _ apart.forward_chain nameservers cidr egress))
              (hush-keep _ (λ d apart. fill_input-Keeps I L filter d _ apart.input_chain ports))))

pub forward_chain-named : (id : Text) → (z : Text) × (forward_chain id ≡ text "SBX-" ++ z)
unfolding forward_chain
forward_chain-named id = (_, refl)

pub input_chain-named : (id : Text) → (z : Text) × (input_chain id ≡ text "SBX-" ++ z)
unfolding input_chain
input_chain-named id = (_, refl)

pub from_source-leads_to : (ip c : Text) → leads_to c (from_source ip c) ≡ true
unfolding leads_to list_eq ℕ_discrete
from_source-leads_to ip c = ground (arith, ==-self c)

pub from_bridge-leads_to : (bridge ip c : Text) → leads_to c (from_bridge bridge ip c) ≡ true
unfolding leads_to list_eq ℕ_discrete
from_bridge-leads_to bridge ip c = ground (arith, ==-self c)
