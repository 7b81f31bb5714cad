-- ===== src/Riot/Coalesce/Laws.antt =====
-- What a fetch of backend/arena/riot/coalesce.py ends in.
use arena_rank_project.Prelude.{
  ◌⊎◌, inl, inr, Bool, true, ℕ, zero, suc, ◌+◌, ◌*◌, ◌-◌, ◌≤◌, ◌<◌, ◌≡◌, refl, sym, subst, false,
  Option, none, some, if◌then◌else◌, ltb, leb, Text, arith, if_intro,
}
use arena_rank_project.Riot.Coalesce.{
  loaded, lead, drop_lease, round_end, lease_is_free, Shared, Fetched, found, World, Coalescer,
  claim_script, contend, follow, fetch_coordinated,
}

module _ (E V : Type 0) (c : Coalescer E V) where
  -- `waited` after so many rounds.
  abbrev pub waited_after : ℕ → ℕ
  waited_after zero = 0
  waited_after (suc n) = c.plus (waited_after n) c.poll

module _ (E V : Type 0) (w : World E V) (owner : Text) where
  -- From the one state to the other with nothing loaded: turns of the other workers and claims of the lease.
  pub data Waits : Shared E V → Shared E V → Type 0 where
    none_yet : {s : Shared E V} → Waits s s
    turn : {s s' : Shared E V} (k : ℕ) → Waits s s' → Waits s (w.others k s')
    tried : {s s' : Shared E V} → Waits s s' → Waits s (claim_script E V owner s').1

  -- Nothing was loaded, and the value is the stored one of the state; or the loader was called once, after
  -- the waiting: its result is the one that is given, and its state is left, or is left without the lease after
  -- a turn of the others.
  abbrev pub IsFetched : Shared E V → Fetched E V × Shared E V → Type 0
  IsFetched s (found v, s') = Waits s s' × (s'.stored ≡ some v)
  IsFetched s (loaded r, s') =
      (before : Shared E V) × Waits s before
      × (r ≡ (w.loader before).0)
      × ((s' ≡ (w.loader before).1)
          ⊎ ((k : ℕ) × (s' ≡ drop_lease E V (w.others k (w.loader before).1))))

  abbrev pub Ends : Shared E V → Option (Fetched E V × Shared E V) → Type 0
  Ends s o = (out : Fetched E V × Shared E V) × (o ≡ some out) × IsFetched s out

  -- What a contention gives, if anything, is what a fetch may end in.
  AllowsOnly : Shared E V → Option (Fetched E V × Shared E V) → Type 0
  AllowsOnly s none = Unit
  AllowsOnly s (some out) = IsFetched s out

  lead-IsFetched :
      (s₀ : Shared E V) (k : ℕ) (s : Shared E V) → Waits s₀ s → IsFetched s₀ (lead E V w k s)
  unfolding lead
  lead-IsFetched s₀ k s h = (w.others k s, turn k h, refl, inr (suc k, refl))

  contend-AllowsOnly :
      (s₀ : Shared E V) (k : ℕ) (s : Shared E V)
      → Waits s₀ s
      → AllowsOnly s₀ (contend E V w owner k s).0 × Waits s₀ (contend E V w owner k s).1
  unfolding contend AllowsOnly
  contend-AllowsOnly s₀ k s h =
      let claimed = tried (turn k h) in
      (
        if_intro (AllowsOnly s₀) (claim_script E V owner (w.others k s)).0 _ none
            (λ e. lead-IsFetched s₀ (suc k) _ claimed) (λ e. tt),
        claimed,
      )

  round_end-Ends :
      (s₀ seen : Shared E V) (stored : Option V)
      (contended go_on : Option (Fetched E V × Shared E V))
      → seen.stored ≡ stored
      → Waits s₀ seen
      → AllowsOnly s₀ contended
      → Ends s₀ go_on
      → Ends s₀ (round_end E V w seen stored contended go_on)
  unfolding round_end AllowsOnly
  round_end-Ends s₀ seen (some v) contended go_on e h a g = (_, refl, (h, e))
  round_end-Ends s₀ seen none (some done) go_on e h a g = (done, refl, a)
  round_end-Ends s₀ seen none none go_on e h a g = g

  -- A round contends only if the lease is free.
  round-AllowsOnly :
      (s₀ : Shared E V) (free : Bool) (k : ℕ) (s : Shared E V)
      → Waits s₀ s
      → AllowsOnly s₀ (if free then contend E V w owner k s else (none, s)).0
        × Waits s₀ (if free then contend E V w owner k s else (none, s)).1
  unfolding AllowsOnly
  round-AllowsOnly s₀ true k s h = contend-AllowsOnly s₀ k s h
  round-AllowsOnly s₀ false k s h = (tt, h)

  module _ (c : Coalescer E V) where
    follow-Ends :
        (s₀ : Shared E V) (fuel n k : ℕ) (s : Shared E V)
        → Waits s₀ s
        → c.follower_timeout ≤ waited_after E V c (n + fuel)
        → Ends s₀ (follow E V w c owner (suc fuel) k (waited_after E V c n) s)
    unfolding follow
    follow-Ends s₀ zero n k s h t =
        let now : c.follower_timeout ≤ waited_after E V c n =
          subst (λ m. c.follower_timeout ≤ waited_after E V c m) (omega arith) t in
        if_intro (Ends s₀) (ltb (waited_after E V c n) c.follower_timeout) _ _
          (λ e. absurd (ground arith)) (λ e. (_, refl, (w.others k s, turn k h, refl, inl refl)))
    follow-Ends s₀ (suc fuel) n k s h t =
        let seen = turn k h in
        let later = turn (k + 1) seen in
        let round =
          round-AllowsOnly s₀ (lease_is_free E V w (w.others (k + 1) (w.others k s))) (k + 2) _
            later in
        if_intro (Ends s₀) (ltb (waited_after E V c n) c.follower_timeout) _ _
          (λ e. round_end-Ends s₀ _ _ _ _ refl seen round.0 (
            follow-Ends s₀ fuel (suc n) _ _ round.1
              (subst (λ m. c.follower_timeout ≤ waited_after E V c m) (omega arith) t)))
          (λ e. (_, refl, (w.others k s, turn k h, refl, inl refl)))

    -- If the waits of some number of rounds add up to the timeout, as the floats add, then one round more is
    -- enough, whatever the other workers do: the fetch ends either in a value that was stored in a state that
    -- it came to without a load, or in what a single call of the loader gives, whether that is a value or an
    -- error, with nothing done to that call's state but a turn of the others and the release of the lease.
    pub fetch_coordinated-Ends :
        (rounds : ℕ) (s : Shared E V)
        → c.follower_timeout ≤ waited_after E V c rounds
        → Ends s (fetch_coordinated E V w c owner (suc rounds) s)
    unfolding fetch_coordinated
    fetch_coordinated-Ends rounds s t =
        let seen = turn 0 none_yet in
        let first = contend-AllowsOnly s 1 (w.others 0 s) seen in
        round_end-Ends s _ _ _ _ refl seen first.0 (
          follow-Ends s rounds 0 2 _ first.1
            (subst (λ m. c.follower_timeout ≤ waited_after E V c m) (omega arith) t))

too_late : {a b : ℕ} → ltb a b ≡ false → ¬ (a < b)
too_late e h = ground arith

-- Another worker holds the lease throughout, and its result is stored from the command `ready` on.
pub record HasLeader (E V : Type 0) (w : World E V) (holder : Text) (ready : ℕ) (v : V)
    : Type 0 where
  pub held : (k : ℕ) (s : Shared E V) → (w.others k s).lease ≡ some holder
  pub published :
      (k : ℕ) (s : Shared E V) → (w.others k s).stored ≡ (if leb ready k then some v else none)

module _ (E V : Type 0) (w : World E V) (c : Coalescer E V) (owner holder : Text) (ready : ℕ)
    (v : V) (leader : HasLeader E V w holder ready v) where
  -- The fetch ends with the value of the leader.
  abbrev pub IsFound : Option (Fetched E V × Shared E V) → Type 0
  IsFound o = (s : Shared E V) × (o ≡ some (found v, s))

  contend-held : (k : ℕ) (s : Shared E V) → (contend E V w owner k s).0 ≡ none
  unfolding contend claim_script
  contend-held k s = rw (leader.held k s) refl

  round_end-IsFound :
      (k : ℕ) (s : Shared E V) (contended go_on : Option (Fetched E V × Shared E V))
      → contended ≡ none
      → (leb ready k ≡ false → IsFound go_on)
      → IsFound (round_end E V w (w.others k s) (w.others k s).stored contended go_on)
  unfolding round_end
  round_end-IsFound k s contended go_on e h =
      let seen = w.others k s in
      let P : Option V → Option (Fetched E V × Shared E V) → Type 0 =
        λ o d. IsFound (round_end E V w seen o d go_on) in
      subst (λ d. P seen.stored d) (sym e)
        (subst (λ o. P o none) (sym (leader.published k s))
          (if_intro (λ o. P o none) (leb ready k) (some v) none (λ f. (seen, refl)) h))

  follow-IsFound :
      (fuel rounds n k : ℕ) (s : Shared E V)
      → ready ≤ k + 2 * rounds
      → ((m : ℕ) → m ≤ n + rounds → waited_after E V c m < c.follower_timeout)
      → rounds < fuel
      → IsFound (follow E V w c owner fuel k (waited_after E V c n) s)
  unfolding follow
  follow-IsFound zero rounds n k s h t f = absurd (omega arith)
  follow-IsFound (suc fuel) rounds n k s h t f =
      let seen = w.others k s in
      let later = w.others (k + 1) seen in
      if_intro IsFound (ltb (waited_after E V c n) c.follower_timeout) _ _
        (λ e.
          round_end-IsFound k s _ _
            (if_intro (λ (d : Option (Fetched E V × Shared E V) × Shared E V). d.0 ≡ none)
              (lease_is_free E V w later) _ _ (λ g. contend-held (k + 2) later) (λ g. refl))
            (λ late.
              let after : k < ready = ground arith in
              let at_least : k + 2 ≤ (if lease_is_free E V w later then k + 3 else k + 2) =
                if_intro (λ n. k + 2 ≤ n) (lease_is_free E V w later) (k + 3) (k + 2)
                  (λ g. omega arith) (λ g. omega arith) in
              follow-IsFound fuel (rounds - 1) (suc n) _ _ (omega arith) (λ m le. t m (omega arith))
                (omega arith)))
        (λ e. absurd (too_late e (t n (omega arith))))

  -- While another worker holds the lease, a fetch waits for it and loads nothing: once the result is stored,
  -- by the read of a round before which the waits, as the floats add, have stayed below the timeout, that
  -- result is what the fetch ends with, on fuel for more than so many rounds.
  pub fetch_coordinated-IsFound :
      (fuel rounds : ℕ) (s : Shared E V)
      → ready ≤ 2 + 2 * rounds
      → ((m : ℕ) → m ≤ rounds → waited_after E V c m < c.follower_timeout)
      → rounds < fuel
      → IsFound (fetch_coordinated E V w c owner fuel s)
  unfolding fetch_coordinated
  fetch_coordinated-IsFound fuel rounds s h t f =
      round_end-IsFound 0 s _ _ (contend-held 1 (w.others 0 s))
        (λ late. follow-IsFound fuel rounds 0 2 _ h (λ m le. t m (omega arith)) f)
