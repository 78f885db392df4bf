-- ===== src/Network/Tables/Memory.antt =====
-- A table of rules in memory, which behaves as the interface asks.
use mathlib.Core.Option
use mathlib.Core.Option.{some-injective}
use go_firecracker_container.Base.{
  ◌≡◌, refl, ◌&&◌, Option, none, some, List, [], ◌∷◌, ◌++◌, ◌==◌, nat_eq, list_eq, contains,
  if◌then◌else◌, arith, Option-cases, inl, inr,
}
use go_firecracker_container.Base.Text.{Text, text}
use go_firecracker_container.Base.Dict
use go_firecracker_container.Base.Dict.{Dict}
use go_firecracker_container.Model.{Error, message}
use go_firecracker_container.Network.Tables.{
  Table, table_eq, Rule, add_unique, remove_first, insert_at, IpTables, is_here, is_ok, is_some,
  IsLawful, IsReliable,
}

abbrev pub Memory : Type 0
Memory = Table → Dict Text (List Rule)

abbrev find : Memory → Table → Text → Option (List Rule)
find s t c = Dict.lookup c (s t)

-- The outcome of a call at a chain: its new rules, or an error and no change.
abbrev put : Memory → Table → Text → Option (List Rule) → Memory × Option Error
put s t c none = (s, some (message (text "iptables failed")))
put s t c (some rs) = (λ t'. if t == t' then Dict.insert c rs (s t') else s t', none)

abbrev create : Option (List Rule) → Option (List Rule)
create none = some []
create (some rs) = none

abbrev remove : Rule → Option (List Rule) → Option (List Rule)
remove r none = none
remove r (some rs) = if contains rs r then some (remove_first r rs) else none

abbrev drop_chain : Memory → Table → Text → Option (List Rule) → Memory × Option Error
drop_chain s t c (some []) = (λ t'. if t == t' then Dict.delete c (s t') else s t', none)
drop_chain s t c other = (s, some (message (text "iptables failed")))

-- The arguments of a rule behind a text, each after a blank.
abbrev spaced : Text → Rule → Text
spaced line [] = line
spaced line (w ∷ ws) = spaced (line ++ (b' ' ∷ w)) ws

abbrev rule_lines : Text → List Rule → List Text
rule_lines c [] = []
rule_lines c (r ∷ rs) = spaced (text "-A " ++ c) r ∷ rule_lines c rs

abbrev pub memory_tables : IpTables
memory_tables = record {
  State = Memory;
  rules = find;
  new_chain = λ s t c. put s t c (create (find s t c));
  clear_chain = λ s t c. put s t c (some []);
  delete_chain = λ s t c. drop_chain s t c (find s t c);
  append_unique = λ s t c r. put s t c (Option.map (add_unique r) (find s t c));
  insert = λ s t c n r. put s t c (Option.map (insert_at n r) (find s t c));
  delete = λ s t c r. put s t c (remove r (find s t c));
  list = λ s t c. Option.map (rule_lines c) (find s t c);
  list_chains = λ s t. some (Dict.keys (s t));
}

put_law :
    (s : Memory) (t t' : Table) (c c' : Text) (f : List Rule → List Rule)
    → find (put s t c (Option.map f (find s t c))).0 t' c' ≡ (
        if is_here t c t' c' && is_ok (put s t c (Option.map f (find s t c))).1
        then Option.map f (find s t' c')
        else find s t' c')
put_law s t t' c c' f = elim (Option-cases (find s t c)) [
  | inl e ↦ rw (e, put) (ground arith)
  | inr (rs, e) ↦ rw (e, put) (ground (arith, Dict.lookup-insert c' c (f rs) (s t')))
]

delete_law :
    (s : Memory) (t t' : Table) (c c' : Text) (r : Rule)
    → find (put s t c (remove r (find s t c))).0 t' c' ≡ (
        if is_here t c t' c' && is_ok (put s t c (remove r (find s t c))).1
        then Option.map (remove_first r) (find s t' c')
        else find s t' c')
delete_law s t t' c c' r = elim (Option-cases (find s t c)) [
  | inl e ↦ rw (e, put) (ground arith)
  | inr (rs, e) ↦ rw (e, put) (ground (arith, Dict.lookup-insert c' c (remove_first r rs) (s t')))
]

contains-keys :
    (m : Dict Text (List Rule)) (c : Text) → contains (Dict.keys m) c ≡ is_some (Dict.lookup c m)
unfolding contains Dict.keys Dict.lookup
contains-keys [] c = refl
contains-keys ((k, v) ∷ m) c = ground (arith, contains-keys m c)

pub memory_tables-IsLawful : IsLawful memory_tables
memory_tables-IsLawful = record {
  rules-new_chain = λ s t t' c c'. ground (arith, Dict.lookup-insert c' c [] (s t'));
  new_chain_existing = λ s t c h. ground arith;
  rules-clear_chain = λ s t t' c c'. ground (arith, Dict.lookup-insert c' c [] (s t'));
  rules-delete_chain = λ s t t' c c'. ground (arith, Dict.lookup-delete c' c (s t'));
  rules-append_unique = λ s t t' c c' r. put_law s t t' c c' (add_unique r);
  rules-insert = λ s t t' c c' n r. put_law s t t' c c' (insert_at n r);
  rules-delete = λ s t t' c c' r. delete_law s t t' c c' r;
  contains-list_chains = λ s t c cs h. rw (← some-injective _ _ h) (contains-keys (s t) c);
}

pub memory_tables-IsReliable : IsReliable memory_tables
memory_tables-IsReliable = record {
  new_chain_accepted = λ s t c h. ground arith;
  clear_chain_accepted = λ s t c h. ground arith;
  delete_chain_accepted = λ s t c h unused. ground (arith, h);
  append_unique_accepted = λ s t c r h. ground arith;
  delete_accepted = λ s t c r rs h k. ground arith;
}
