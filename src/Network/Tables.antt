-- ===== src/Network/Tables.antt =====
-- github.com/coreos/go-iptables/iptables, which the firewall calls: an interface, with the
-- behaviour that its documentation promises. A rule is the list of the arguments that specify it.
-- Each call returns Go's error: `none` for nil.
pub mod Memory
use go_firecracker_container.Base.{
  ℕ, zero, suc, ◌≡◌, refl, ◌≢◌, Bool, true, false, ◌&&◌, ◌||◌, any, Option, none, some, List, [],
  ◌∷◌, ◌++◌, Eq, ◌==◌, nat_eq, list_eq, contains, if◌then◌else◌,
}
use mathlib.Core.Option
use go_firecracker_container.Base.Text.{Text, text}
use go_firecracker_container.Model.{Error}

-- The two tables that the source names.
pub data Table : Type 0 where
  filter nat : Table

table_dec : Discrete Table
table_dec = hlevel

instance unfoldable pub table_eq : Eq Table
unfolding table_dec
table_eq = record { dec = table_dec }

abbrev pub Rule : Type 0
Rule = List Text

-- `AppendUnique`: a rule that is there is not added again.
unfoldable pub add_unique : Rule → List Rule → List Rule
add_unique r rs = if contains rs r then rs else rs ++ r ∷ []

-- `Delete`: the first rule with this specification goes.
unfoldable pub remove_first : Rule → List Rule → List Rule
remove_first r [] = []
remove_first r (q ∷ rs) = if r == q then rs else q ∷ remove_first r rs

-- `Insert` at a position, counted from 1.
unfoldable pub insert_at : ℕ → Rule → List Rule → List Rule
insert_at (suc (suc n)) r (q ∷ rs) = q ∷ insert_at (suc n) r rs
insert_at n r rs = r ∷ rs

abbrev is_jump : Text → Bool
is_jump a = a == text "-j" || a == text "--jump" || a == text "-g" || a == text "--goto"

-- The rule has the chain as its target.
unfoldable pub leads_to : Text → Rule → Bool
leads_to c [] = false
leads_to c (a ∷ []) = false
leads_to c (a ∷ b ∷ r) = (is_jump a && b == c) || leads_to c (b ∷ r)

pub record IpTables : Type 1 where
  pub State : Type 0
  -- The rules of a chain, `none` where there is no such chain.
  pub rules : State → Table → Text → Option (List Rule)
  pub new_chain : State → Table → Text → State × Option Error
  pub clear_chain : State → Table → Text → State × Option Error
  pub delete_chain : State → Table → Text → State × Option Error
  pub append_unique : State → Table → Text → Rule → State × Option Error
  pub insert : State → Table → Text → ℕ → Rule → State × Option Error
  pub delete : State → Table → Text → Rule → State × Option Error
  -- The lines of `iptables -S`, and the chains of a table; `none` is an error.
  pub list : State → Table → Text → Option (List Text)
  pub list_chains : State → Table → Option (List Text)

-- The chain at which a call is made.
abbrev pub is_here : Table → Text → Table → Text → Bool
is_here t c t' c' = t == t' && c == c'

abbrev pub is_ok : Option Error → Bool
is_ok none = true
is_ok (some e) = false

abbrev pub is_some {ℓ} : {A : Type ℓ} → Option A → Bool
is_some none = false
is_some (some a) = true

-- A call changes the rules of its own chain as documented if it returns nil, and nothing if it
-- fails. No chain is created twice.
pub record IsLawful (I : IpTables) : Type 0 where
  pub rules-new_chain :
      (s : I.State) (t t' : Table) (c c' : Text)
      → I.rules (I.new_chain s t c).0 t' c'
        ≡ (if is_here t c t' c' && is_ok (I.new_chain s t c).1 then some [] else I.rules s t' c')
  pub new_chain_existing :
      (s : I.State) (t : Table) (c : Text)
      → I.rules s t c ≢ none
      → is_ok (I.new_chain s t c).1 ≡ false
  pub rules-clear_chain :
      (s : I.State) (t t' : Table) (c c' : Text)
      → I.rules (I.clear_chain s t c).0 t' c'
        ≡ (if is_here t c t' c' && is_ok (I.clear_chain s t c).1 then some [] else I.rules s t' c')
  pub rules-delete_chain :
      (s : I.State) (t t' : Table) (c c' : Text)
      → I.rules (I.delete_chain s t c).0 t' c'
        ≡ (if is_here t c t' c' && is_ok (I.delete_chain s t c).1 then none else I.rules s t' c')
  pub rules-append_unique :
      (s : I.State) (t t' : Table) (c c' : Text) (r : Rule)
      → I.rules (I.append_unique s t c r).0 t' c' ≡ (
          if is_here t c t' c' && is_ok (I.append_unique s t c r).1
          then Option.map (add_unique r) (I.rules s t' c')
          else I.rules s t' c')
  pub rules-insert :
      (s : I.State) (t t' : Table) (c c' : Text) (n : ℕ) (r : Rule)
      → I.rules (I.insert s t c n r).0 t' c' ≡ (
          if is_here t c t' c' && is_ok (I.insert s t c n r).1
          then Option.map (insert_at n r) (I.rules s t' c')
          else I.rules s t' c')
  pub rules-delete :
      (s : I.State) (t t' : Table) (c c' : Text) (r : Rule)
      → I.rules (I.delete s t c r).0 t' c' ≡ (
          if is_here t c t' c' && is_ok (I.delete s t c r).1
          then Option.map (remove_first r) (I.rules s t' c')
          else I.rules s t' c')
  pub contains-list_chains :
      (s : I.State) (t : Table) (c : Text) (cs : List Text)
      → I.list_chains s t ≡ some cs
      → contains cs c ≡ is_some (I.rules s t c)

-- No rule of the table has the chain as its target.
abbrev pub IsUnused : (I : IpTables) → I.State → Table → Text → Type 0
IsUnused I s t c =
    (d : Text) (rs : List Rule) → I.rules s t d ≡ some rs → any (leads_to c) rs ≡ false

-- The kernel accepts what the service asks for: a new chain that does not exist, a rule for a chain
-- that does, the removal of a rule that is there, and of a chain that is empty and the target of no rule.
pub record IsReliable (I : IpTables) : Type 0 where
  pub new_chain_accepted :
      (s : I.State) (t : Table) (c : Text)
      → I.rules s t c ≡ none
      → is_ok (I.new_chain s t c).1 ≡ true
  pub clear_chain_accepted :
      (s : I.State) (t : Table) (c : Text)
      → I.rules s t c ≢ none
      → is_ok (I.clear_chain s t c).1 ≡ true
  pub delete_chain_accepted :
      (s : I.State) (t : Table) (c : Text)
      → I.rules s t c ≡ some []
      → IsUnused I s t c
      → is_ok (I.delete_chain s t c).1 ≡ true
  pub append_unique_accepted :
      (s : I.State) (t : Table) (c : Text) (r : Rule)
      → I.rules s t c ≢ none
      → is_ok (I.append_unique s t c r).1 ≡ true
  pub delete_accepted :
      (s : I.State) (t : Table) (c : Text) (r : Rule) (rs : List Rule)
      → I.rules s t c ≡ some rs
      → contains rs r ≡ true
      → is_ok (I.delete s t c r).1 ≡ true
