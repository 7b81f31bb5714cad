-- ===== src/Riot/Cache/Laws.antt =====
-- What backend/arena/riot/cache.py returns.
use arena_rank_project.Prelude.{
  ℕ, ◌≡◌, refl, sym, ap, ◌∙◌, subst, Bool, true, false, Option, none, some, [], ◌∷◌, ◌++◌, ◌&&◌,
  not, length, length-append, if_intro, Text, arith, All, Bool-cases, Option-cases, inl, inr, ◌⊎◌,
}
use arena_rank_project.Prelude.Table.{
  Table, lookup, text_instance, insert-All, lookup-insert, beq_self,
}
use arena_rank_project.Riot.Cache.{
  MatchCache, Tiers, hot_key, overflow_key, json_suffix, slashed, rewarm, get_overflow, get, set,
  expire, Reach, cold_start, did_set, did_get, expired,
}

cons_inj : {c d : ℕ} {s t : Text} → (let u : Text = c ∷ s in u ≡ d ∷ t) → (c ≡ d) × (s ≡ t)
cons_inj h = (cc, cc)

append_inj : (s t u : Text) → s ++ t ≡ s ++ u → t ≡ u
append_inj [] t u h = h
append_inj (c ∷ s) t u h = append_inj s t u (cons_inj h).1

append_right_inj : (s t u : Text) → s ++ u ≡ t ++ u → s ≡ t
append_right_inj [] [] u h = refl
append_right_inj [] (d ∷ t) u h =
    absurd (let longer = ap length h ∙ length-append (d ∷ t) u in omega (arith, longer))
append_right_inj (c ∷ s) [] u h =
    absurd (let longer = sym (ap length h) ∙ length-append (c ∷ s) u in omega (arith, longer))
append_right_inj (c ∷ s) (d ∷ t) u h = let (e, e') = cons_inj h in cc (e, append_right_inj s t u e')

lookup-All :
    {V : Type 0} (P : Text × V → Type 0) (k : Text) (v : V) (d : Table Text V)
    → All P d
    → lookup k d ≡ some v
    → P (k, v)
lookup-All P k v [] h e = absurd (let c = e in cc)
lookup-All P k v ((j, w) ∷ d) h e = elim (Bool-cases (text_instance.same j k)) [
  | inl same ↦
      let here : w ≡ v = (let found = rw same at e in cc) in
      subst (λ x. P (x, v)) ((text_instance.same_iff j k).0 same) (subst (λ x. P (j, x)) here h.0)
  | inr other ↦ lookup-All P k v d h.1 (rw other at e)
]

module _ (Payload : Type 0) (c : MatchCache Payload) (payload_of : Text → Payload) where
  -- An entry under the key of a match holds the payload of this match.
  abbrev IsOf : (Text → Text) → Text × Text → Type 0
  IsOf key e = (match_id : Text) × (e.0 ≡ key match_id) × (e.1 ≡ c.dumps (payload_of match_id))

  record IsTrue (s : Tiers Payload) : Type 0 where
    hot : All (IsOf (hot_key Payload c)) s.hot
    cold : All (IsOf (overflow_key Payload c)) s.cold

  hot_key-inj : (i j : Text) → hot_key Payload c i ≡ hot_key Payload c j → i ≡ j
  hot_key-inj i j h = (cons_inj (append_inj c.key_prefix _ _ h)).1

  overflow_key-inj : (i j : Text) → overflow_key Payload c i ≡ overflow_key Payload c j → i ≡ j
  overflow_key-inj i j h =
      append_right_inj i j (json_suffix Payload c)
        (cons_inj (append_inj (slashed Payload c c.key_prefix) _ _ h)).1

  expire-All :
      (P : Text × Text → Type 0) (k : Text) (d : Table Text Text)
      → All P d
      → All P (expire Payload c k d)
  expire-All P k [] h = tt
  expire-All P k ((j, v) ∷ d) h =
      if_intro (All P) (text_instance.same j k) _ _ (λ e. expire-All P k d h.1)
        (λ e. (h.0, expire-All P k d h.1))

  set-IsTrue :
      (put_fails : Bool) (match_id : Text) (s : Tiers Payload)
      → IsTrue s
      → IsTrue (set Payload c put_fails match_id (payload_of match_id) s)
  unfolding set
  set-IsTrue put_fails match_id s h = record {
    hot = insert-All (IsOf (hot_key Payload c)) _ _ s.hot (match_id, refl, refl) h.hot;
    cold =
        if_intro (All (IsOf (overflow_key Payload c))) (c.has_overflow && not put_fails) _ s.cold
          (λ e. insert-All (IsOf (overflow_key Payload c)) _ _ s.cold (match_id, refl, refl) h.cold)
          (λ e. h.cold);
  }

  module _ (json : (p : Payload) → c.loads (c.dumps p) ≡ some p) where
    -- Nothing, or the payload of the match, and the tiers stay true.
    record IsHonest (match_id : Text) (r : Option Payload × Tiers Payload) : Type 0 where
      value : r.0 ≡ none ⊎ r.0 ≡ some (payload_of match_id)
      tiers : IsTrue r.1

    loads_of :
        (blob match_id : Text)
        → blob ≡ c.dumps (payload_of match_id)
        → c.loads blob ≡ some (payload_of match_id)
    loads_of blob match_id e = ap c.loads e ∙ json (payload_of match_id)

    rewarm-IsHonest :
        (match_id blob : Text) (s : Tiers Payload)
        → blob ≡ c.dumps (payload_of match_id)
        → IsTrue s
        → IsHonest match_id (rewarm Payload c match_id blob s)
    unfolding rewarm
    rewarm-IsHonest match_id blob s e h =
        rw (rewarm, loads_of blob match_id e)
          record {
            value = inr refl;
            tiers = record {
              hot = insert-All (IsOf (hot_key Payload c)) _ _ s.hot (match_id, refl, e) h.hot;
              cold = h.cold;
            };
          }

    nothing-IsHonest :
        (match_id : Text) (s : Tiers Payload) → IsTrue s → IsHonest match_id (none, s)
    nothing-IsHonest match_id s h = record { value = inl refl; tiers = h }

    get_overflow-IsHonest :
        (get_fails : Bool) (match_id : Text) (s : Tiers Payload)
        → IsTrue s
        → IsHonest match_id (get_overflow Payload c get_fails match_id s)
    unfolding get_overflow
    get_overflow-IsHonest get_fails match_id s h =
        let same = nothing-IsHonest match_id s h in
        if_intro (IsHonest match_id) (not c.has_overflow) _ _ (λ e. same)
          (λ e.
            if_intro (IsHonest match_id) get_fails _ _ (λ f. same)
              (λ f. elim (Option-cases (lookup (overflow_key Payload c match_id) s.cold)) [
                | inl o ↦ rw o same
                | inr (blob, o) ↦
                    let (other, k, b) =
                      lookup-All (IsOf (overflow_key Payload c)) _ _ s.cold h.cold o in
                    rw o (
                      rewarm-IsHonest match_id blob s
                        (b
                          ∙ ap (λ i. c.dumps (payload_of i))
                              (sym (overflow_key-inj match_id other k)))
                        h)
              ]))

    get-IsHonest :
        (get_fails : Bool) (match_id : Text) (s : Tiers Payload)
        → IsTrue s
        → IsHonest match_id (get Payload c get_fails match_id s)
    unfolding get
    get-IsHonest get_fails match_id s h =
        elim (Option-cases (lookup (hot_key Payload c match_id) s.hot)) [
          | inl o ↦ rw (get, o) (get_overflow-IsHonest get_fails match_id s h)
          | inr (raw, o) ↦
              let (other, k, b) = lookup-All (IsOf (hot_key Payload c)) _ _ s.hot h.hot o in
              let mine =
                b ∙ ap (λ i. c.dumps (payload_of i)) (sym (hot_key-inj match_id other k)) in
              rw (get, o) record { value = inr (loads_of raw match_id mine); tiers = h }
        ]

    Reach-IsTrue : (s : Tiers Payload) → Reach Payload c payload_of s → IsTrue s
    Reach-IsTrue _ cold_start = record { hot = tt; cold = tt }
    Reach-IsTrue _ (did_set {s} put_fails match_id r) =
        set-IsTrue put_fails match_id s (Reach-IsTrue s r)
    Reach-IsTrue _ (did_get {s} get_fails match_id r) =
        (get-IsHonest get_fails match_id s (Reach-IsTrue s r)).tiers
    Reach-IsTrue _ (expired {s} k r) =
        let h = Reach-IsTrue s r in
        record { hot = expire-All (IsOf (hot_key Payload c)) k s.hot h.hot; cold = h.cold }

-- Whatever was set, read and expired before, and whatever calls of the archive failed, a read of a match
-- returns nothing or the payload of this very match: never the one of another, and never a part of it. A
-- match has one payload, and JSON is read back as it was written.
pub get-IsOwn :
    (Payload : Type 0) (c : MatchCache Payload) (payload_of : Text → Payload)
    → ((p : Payload) → c.loads (c.dumps p) ≡ some p)
    → (get_fails : Bool) (match_id : Text) (s : Tiers Payload) → Reach Payload c payload_of s
    → (get Payload c get_fails match_id s).0 ≡ none
      ⊎ (get Payload c get_fails match_id s).0 ≡ some (payload_of match_id)
get-IsOwn Payload c payload_of json get_fails match_id s r =
    (get-IsHonest Payload c payload_of json get_fails match_id s
      (Reach-IsTrue Payload c payload_of json s r)).value

module _ (Payload : Type 0) (c : MatchCache Payload)
    (json : (p : Payload) → c.loads (c.dumps p) ≡ some p) where
  get-hot :
      (get_fails : Bool) (match_id : Text) (p : Payload) (s : Tiers Payload)
      → lookup (hot_key Payload c match_id) s.hot ≡ some (c.dumps p)
      → (get Payload c get_fails match_id s).0 ≡ some p
  unfolding get
  get-hot get_fails match_id p s e = rw (get, e) (json p)

  get-cold :
      (match_id : Text) (p : Payload) (s : Tiers Payload)
      → c.has_overflow ≡ true
      → lookup (hot_key Payload c match_id) s.hot ≡ none
      → lookup (overflow_key Payload c match_id) s.cold ≡ some (c.dumps p)
      → (get Payload c false match_id s).0 ≡ some p
  unfolding get get_overflow rewarm
  get-cold match_id p s has e e' = rw (get, e, get_overflow, has, e', rewarm, json p) refl

  -- What was set with an archive, and without an error of it, is read back, be it still in Redis or expired
  -- there, whatever else Redis holds by then.
  pub get-set :
      (match_id : Text) (p : Payload) (s : Tiers Payload) (hot_later : Table Text Text)
      → c.has_overflow ≡ true
      → (lookup (hot_key Payload c match_id) hot_later ≡ none
          ⊎ lookup (hot_key Payload c match_id) hot_later
            ≡ lookup (hot_key Payload c match_id) (set Payload c false match_id p s).hot)
      → (get Payload c false match_id
          record { hot = hot_later; cold = (set Payload c false match_id p s).cold }).0
        ≡ some p
  unfolding set
  get-set match_id p s hot_later has (inl gone) = get-cold match_id p _ has gone (
      rw has (
        lookup-insert (overflow_key Payload c match_id) _ (c.dumps p) s.cold
        ∙ rw (beq_self (overflow_key Payload c match_id)) refl))
  get-set match_id p s hot_later has (inr kept) =
      get-hot false match_id p _
        (kept ∙ lookup-insert _ _ _ s.hot ∙ rw (beq_self (hot_key Payload c match_id)) refl)
