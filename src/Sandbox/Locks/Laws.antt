-- ===== src/Sandbox/Locks/Laws.antt =====
-- The wait for a lock ends, and a lock that is held is not given out again.
use go_firecracker_container.Base.{
  ℕ, zero, suc, ◌+◌, ◌*◌, ◌≤◌, ◌<◌, ◌≡◌, ◌≢◌, refl, sym, ◌∙◌, ap, Bool, true, false, inl, inr,
  arith, Bool-cases, ltb, ◌⊎◌,
}
use go_firecracker_container.Base.Text.{Text}
use go_firecracker_container.Model.{Error, ok, err, Result-cases}
use go_firecracker_container.Machine.{
  Clock, Sleeps, Locks, Flock, locked, would_block, refused, milliseconds,
}
use go_firecracker_container.Sandbox.Config.{seconds}
use go_firecracker_container.Sandbox.Locks.{lock_path, lock_rounds, acquire_sandbox_lock}

Flock-cases : (r : Flock) → (r ≡ locked) ⊎ (r ≡ would_block) ⊎ ((e : Error) × (r ≡ refused e))
Flock-cases locked = inl refl
Flock-cases would_block = inr (inl refl)
Flock-cases (refused e) = inr (inr (e, refl))

module _ {S : Type 0} (C : Clock S) (U : Locks S) (lock_dir : Text) where
  -- Rounds agree if what follows them before the deadline agrees.
  lock_rounds_alike :
      (n fuel : ℕ) (id : Text) (deadline : ℕ) (f : U.Handle) (s : S)
      → (ltb deadline (C.now (U.try_lock f s).0) ≡ false
          → lock_rounds C U lock_dir fuel id deadline f
              (C.sleep (milliseconds 120) (U.try_lock f s).0)
            ≡ lock_rounds C U lock_dir n id deadline f
                (C.sleep (milliseconds 120) (U.try_lock f s).0))
      → lock_rounds C U lock_dir (suc fuel) id deadline f s
        ≡ lock_rounds C U lock_dir (suc n) id deadline f s
  unfolding lock_rounds
  lock_rounds_alike n fuel id deadline f s alike =
      let t = (U.try_lock f s).0 in
      elim (Flock-cases (U.try_lock f s).1) [
        | inl p ↦ rw (p, lock_rounds) refl
        | inr (inr (e, p)) ↦ rw (p, lock_rounds) refl
        | inr (inl p) ↦ elim (Bool-cases (ltb deadline (C.now t))) [
          | inl late ↦ rw (p, late, lock_rounds) refl
          | inr early ↦ rw (p, early, lock_rounds) (alike early)
        ]
      ]

  module _ (L : Sleeps C) (time : (f : U.Handle) (s : S) → C.now s ≤ C.now (U.try_lock f s).0) where
    -- Whatever the fuel is beyond the rounds that fit before the deadline, the wait ends alike.
    lock_rounds_enough :
        (n fuel : ℕ) (id : Text) (deadline : ℕ) (f : U.Handle) (s : S)
        → deadline < C.now s + n * milliseconds 120
        → n ≤ fuel
        → lock_rounds C U lock_dir (suc fuel) id deadline f s
          ≡ lock_rounds C U lock_dir (suc n) id deadline f s
    lock_rounds_enough zero fuel id deadline f s d h =
        lock_rounds_alike zero fuel id deadline f s
          λ early. absurd (ground (arith, d, early, time f s))
    lock_rounds_enough (suc n) zero id deadline f s d h = absurd (omega arith)
    lock_rounds_enough (suc n) (suc fuel) id deadline f s d h =
        lock_rounds_alike (suc n) (suc fuel) id deadline f s λ early.
          lock_rounds_enough n fuel id deadline f _
            (grind (arith, d, time f s, L.now-sleep (milliseconds 120) (U.try_lock f s).0))
            (omega arith)

    -- `acquireSandboxLock` ends by the lock, an error or the deadline: more fuel changes nothing.
    pub acquire_ends :
        (id : Text) (s : S) (f : U.Handle) (fuel : ℕ)
        → (U.open_file (lock_path lock_dir id) s).1 ≡ ok f
        → 168 ≤ fuel
        → lock_rounds C U lock_dir fuel id
            (C.now (U.open_file (lock_path lock_dir id) s).0 + seconds 20)
            f
            (U.open_file (lock_path lock_dir id) s).0
          ≡ acquire_sandbox_lock C U lock_dir id s
    unfolding acquire_sandbox_lock
    acquire_ends id s f zero o h = absurd (omega arith)
    acquire_ends id s f (suc fuel) o h =
        rw (o, acquire_sandbox_lock)
          (lock_rounds_enough 167 fuel id _ f (U.open_file (lock_path lock_dir id) s).0
            (omega arith) (omega arith))

-- What `flock` documents: `held` is the lock of a path, `blocked` a file whose lock another open
-- file holds. A lock that is taken is held, one that another file holds blocks, and while its holder
-- does not release it, neither time nor the attempts of others change that.
pub record Excludes {S : Type 0} (C : Clock S) (U : Locks S) (held : S → Text → Bool)
    (blocked : S → U.Handle → Bool) (of_path : S → U.Handle → Text) : Type 0 where
  pub opens_on :
      (p : Text) (f : U.Handle) (s : S)
      → (U.open_file p s).1 ≡ ok f
      → of_path (U.open_file p s).0 f ≡ p
  pub opens_blocked :
      (p : Text) (f : U.Handle) (s : S)
      → held s p ≡ true
      → (U.open_file p s).1 ≡ ok f
      → blocked (U.open_file p s).0 f ≡ true
  pub tries_blocked :
      (f : U.Handle) (s : S)
      → blocked s f ≡ true
      → ((U.try_lock f s).1 ≡ would_block) × (blocked (U.try_lock f s).0 f ≡ true)
  pub tries_locked :
      (f : U.Handle) (s : S)
      → (U.try_lock f s).1 ≡ locked
      → held (U.try_lock f s).0 (of_path s f) ≡ true
  pub tries_on : (f : U.Handle) (s : S) → of_path (U.try_lock f s).0 f ≡ of_path s f
  pub sleeps_blocked :
      (d : ℕ) (f : U.Handle) (s : S) → blocked s f ≡ true → blocked (C.sleep d s) f ≡ true
  pub sleeps_on : (d : ℕ) (f : U.Handle) (s : S) → of_path (C.sleep d s) f ≡ of_path s f

module _ {S : Type 0} (C : Clock S) (U : Locks S) (lock_dir : Text) (held : S → Text → Bool)
    (blocked : S → U.Handle → Bool) (of_path : S → U.Handle → Text)
    (X : Excludes C U held blocked of_path) where
  rounds_blocked :
      (fuel : ℕ) (id : Text) (deadline : ℕ) (f g : U.Handle) (s : S)
      → blocked s f ≡ true
      → (lock_rounds C U lock_dir fuel id deadline f s).1 ≢ ok g
  unfolding lock_rounds
  rounds_blocked zero id deadline f g s b h = cc
  rounds_blocked (suc fuel) id deadline f g s b h =
      let t = (U.try_lock f s).0 in
      let (would, still) = X.tries_blocked f s b in
      ground (
        arith,
        h,
        would,
        rounds_blocked fuel id deadline f g (C.sleep (milliseconds 120) t)
            (X.sleeps_blocked (milliseconds 120) f t still),
      )

  rounds_hold :
      (fuel : ℕ) (id : Text) (deadline : ℕ) (f g : U.Handle) (p : Text) (s : S)
      → of_path s f ≡ p
      → (lock_rounds C U lock_dir fuel id deadline f s).1 ≡ ok g
      → held (lock_rounds C U lock_dir fuel id deadline f s).0 p ≡ true
  unfolding lock_rounds
  rounds_hold zero id deadline f g p s on h = absurd (cc)
  rounds_hold (suc fuel) id deadline f g p s on h =
      let t = (U.try_lock f s).0 in
      elim (Flock-cases (U.try_lock f s).1) [
        | inl q ↦ rw (q, lock_rounds) (cc (X.tries_locked f s q, on))
        | inr (inr (e, q)) ↦ absurd (ground (arith, h, q))
        | inr (inl q) ↦ elim (Bool-cases (ltb deadline (C.now t))) [
          | inl late ↦ absurd (ground (arith, h, q, late))
          | inr early ↦
              rw (q, early, lock_rounds)
                (rounds_hold fuel id deadline f g p (C.sleep (milliseconds 120) t)
                  (X.sleeps_on (milliseconds 120) f t ∙ (X.tries_on f s ∙ on))
                  (ground (arith, h, q, early)))
        ]
      ]

  acquire_opened :
      (id : Text) (s : S) (f : U.Handle)
      → (U.open_file (lock_path lock_dir id) s).1 ≡ ok f
      → acquire_sandbox_lock C U lock_dir id s
        ≡ lock_rounds C U lock_dir 168 id
            (C.now (U.open_file (lock_path lock_dir id) s).0 + seconds 20)
            f
            (U.open_file (lock_path lock_dir id) s).0
  unfolding acquire_sandbox_lock
  acquire_opened id s f o = rw (o, acquire_sandbox_lock) refl

  not_opened :
      (id : Text) (s : S) (e : Error) (g : U.Handle)
      → (U.open_file (lock_path lock_dir id) s).1 ≡ err e
      → (acquire_sandbox_lock C U lock_dir id s).1 ≢ ok g
  unfolding acquire_sandbox_lock
  not_opened id s e g o h = absurd (ground (arith, h, o))

  -- `acquireSandboxLock` succeeds only with the lock held in the state it leaves.
  pub acquire_holds :
      (id : Text) (s : S) (g : U.Handle)
      → (acquire_sandbox_lock C U lock_dir id s).1 ≡ ok g
      → held (acquire_sandbox_lock C U lock_dir id s).0 (lock_path lock_dir id) ≡ true
  acquire_holds id s g h = elim (Result-cases (U.open_file (lock_path lock_dir id) s).1) [
    | inr (e, o) ↦ absurd (not_opened id s e g o h)
    | inl (f, o) ↦
        let run = acquire_opened id s f o in
        rw run (rounds_hold 168 id _ f g _ _ (X.opens_on _ f s o) (sym (ap (λ r. r.1) run) ∙ h))
  ]

  -- A lock that is held is not given out.
  pub acquire_excludes :
      (id : Text) (s : S) (g : U.Handle)
      → held s (lock_path lock_dir id) ≡ true
      → (acquire_sandbox_lock C U lock_dir id s).1 ≢ ok g
  acquire_excludes id s g b h = elim (Result-cases (U.open_file (lock_path lock_dir id) s).1) [
    | inr (e, o) ↦ not_opened id s e g o h
    | inl (f, o) ↦
        rounds_blocked 168 id _ f g _ (X.opens_blocked _ f s b o)
          (sym (ap (λ r. r.1) (acquire_opened id s f o)) ∙ h)
  ]

  -- If the lock files exclude, then a lock that was taken is not given out again to another call for
  -- the same id that starts where the first one ended, however long it waits.
  pub acquire_twice :
      (id : Text) (s : S) (f g : U.Handle)
      → (acquire_sandbox_lock C U lock_dir id s).1 ≡ ok f
      → (acquire_sandbox_lock C U lock_dir id (acquire_sandbox_lock C U lock_dir id s).0).1 ≢ ok g
  acquire_twice id s f g h =
      acquire_excludes id (acquire_sandbox_lock C U lock_dir id s).0 g (acquire_holds id s f h)
