-- ===== src/Sandbox/Phase/State.antt =====
-- The state that a new sandbox is stored with, and the ids of its containers.
use mathlib.Core.List.{append_assoc, append-nil}
use go_firecracker_container.Base.{
  ℕ, ◌≡◌, refl, sym, ◌∙◌, ap, false, List, [], ◌∷◌, ◌++◌, map, contains, contains-append, AreFresh,
  AreFresh-nil_iff, nat_eq, list_eq, arith,
}
use go_firecracker_container.Base.Text.{Text}
use go_firecracker_container.Base.Dict
use go_firecracker_container.Base.Dict.{Dict}
use go_firecracker_container.Model.{
  ContainerState, SandboxPhase, CreateContainerRequest, CreateSandboxRequest,
}
use go_firecracker_container.Model.Validate.Laws.{IsValid}
use go_firecracker_container.Sandbox.Config.{Config}
use go_firecracker_container.Sandbox.Phase.{new_container_state, add_containers, new_sandbox_state}

-- The entry of a container that is not created yet.
abbrev pub planned : Text → CreateContainerRequest → Text × ContainerState
planned id c = (c.name, new_container_state id c)

insert-new :
    (k : Text) (v : ContainerState) (m : Dict Text ContainerState)
    → contains (Dict.keys m) k ≡ false
    → Dict.insert k v m ≡ m ++ (k, v) ∷ []
unfolding Dict.insert Dict.keys contains
insert-new k v [] h = refl
insert-new k v ((j, w) ∷ m) h = ground (arith, insert-new k v m)

keys-append : (m n : Dict Text ContainerState) → Dict.keys (m ++ n) ≡ Dict.keys m ++ Dict.keys n
unfolding Dict.keys
keys-append [] n = refl
keys-append ((k, v) ∷ m) n = ap (◌∷◌ k) (keys-append m n)

AreFresh-same :
    (seen others names : List Text)
    → ((k : Text) → contains others k ≡ contains seen k)
    → AreFresh seen names
    → AreFresh others names
unfolding contains
AreFresh-same seen others [] same h = tt
AreFresh-same seen others (x ∷ names) same (fresh, h) =
    (same x ∙ fresh, AreFresh-same (x ∷ seen) (x ∷ others) names (λ k. ground (arith, same k)) h)

same_keys :
    (m : Dict Text ContainerState) (n : Text) (v : ContainerState) (k : Text)
    → contains (Dict.keys (m ++ (n, v) ∷ [])) k ≡ contains (n ∷ Dict.keys m) k
unfolding contains Dict.keys
same_keys m n v k =
    rw (keys-append m ((n, v) ∷ [])) (ground (arith, contains-append (Dict.keys m) (n ∷ []) k))

add_containers_fresh :
    (id : Text) (cs : List CreateContainerRequest) (m : Dict Text ContainerState)
    → AreFresh (Dict.keys m) (map (λ c. c.name) cs)
    → add_containers id cs m ≡ m ++ map (planned id) cs
unfolding add_containers
add_containers_fresh id [] m h = sym (append-nil m)
add_containers_fresh id (c ∷ cs) m (fresh, h) =
    rw (insert-new c.name (new_container_state id c) m fresh) (
      add_containers_fresh id cs (m ++ planned id c ∷ [])
        (AreFresh-same (c.name ∷ Dict.keys m) _ (map (λ d. d.name) cs) (same_keys m c.name _) h)
      ∙ append_assoc m (planned id c ∷ []) (map (planned id) cs))

-- A valid request is stored with one planned container for each that it names, in its order, with
-- its ports, in phase "creating".
pub new_sandbox_state_lem :
    (cfg : Config) (now : ℕ) (r : CreateSandboxRequest)
    → IsValid r
    → let sbx = new_sandbox_state cfg now r in
      (sbx.containers ≡ map (planned r.id) r.containers)
      × (sbx.ports ≡ r.ports)
      × (sbx.id ≡ r.id)
      × (sbx.phase ≡ SandboxPhase.creating)
unfolding new_sandbox_state Dict.keys
new_sandbox_state_lem cfg now r v = (
  add_containers_fresh r.id r.containers []
      ((AreFresh-nil_iff (map (λ c. c.name) r.containers)).1 v.names_differ),
  refl,
  refl,
  refl,
)
