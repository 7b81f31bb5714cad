-- ===== src/Processing/Persist.antt =====
-- `_persist` of backend/arena/services/rating_service.py: the loop over the results, and the one transaction.
use arena_rank_project.Prelude.{
  ◌≡◌, ◌↔◌, arith, ℕ, ◌+◌, Bool, true, not, Option, none, some, List, [], ◌∷◌, ◌++◌, ◌&&◌,
  if◌then◌else◌,
}
use arena_rank_project.Prelude.{◌==◌ as nat_beq}
use arena_rank_project.Prelude.Int.{ℤ, pos, ltb_ℤ, ◌-ℤ◌}
use arena_rank_project.Prelude.Table.{Table, Key, nat_eq, lookup, insert}
use arena_rank_project.Prelude.Result.{Result, ok, err, ◌>>=◌}
use arena_rank_project.Floats.{Floats}
use arena_rank_project.Rating.Engine.{CapExplanation, PlayerRatingResult}
use arena_rank_project.Season.Rows.{PlayerSeason}
use arena_rank_project.Processing.Rows.{
  RawParticipant, CapJson, ModifiersJson, Snapshot, MatchParticipant, CrSnapshot, ChampionStat,
}
use arena_rank_project.Processing.Champions.{new_stat, count_game}

-- What processing a match may raise: a dict's KeyError, a time that cannot be read, or what the engine raises.
pub data ProcessError : Type 0 where
  key_error time_error engine_error : ProcessError

abbrev pub item {ℓ} : {V : Type ℓ} → Option V → Result ProcessError V
item none = err key_error
item (some v) = ok v

-- `d[k]`
abbrev pub get_item {ℓ κ} :
    {K : Type ℓ} {V : Type κ} ⦃e : Key K⦄ → K → Table K V → Result ProcessError V
get_item k d = item (lookup k d)

pub pair_iff : (a b : ℕ × ℕ) → ((nat_beq a.0 b.0 && nat_beq a.1 b.1) ≡ true) ↔ (a ≡ b)
pair_iff a b = (λ h. ground (arith, h), λ h. ground (arith, h))

-- The key of a champion's row: the player and the champion.
instance abbrev pub pair_instance : Key (ℕ × ℕ)
pair_instance = record { same = λ a b. nat_beq a.0 b.0 && nat_beq a.1 b.1; same_iff = pair_iff }

-- The dicts `champion_by_player`, ..., `time_spent_dead_by_player` as one: of two participants with the same
-- player, the last one counts.
unfoldable pub by_player : List RawParticipant → Table ℕ RawParticipant → Table ℕ RawParticipant
by_player [] d = d
by_player (p ∷ ps) d = by_player ps (insert p.player_id p d)

module _ (fl : Floats) where
  open fl use {Float, lt, is_finite}

  unfoldable pub finite_or_none : Float → Option Float
  finite_or_none x = if is_finite x then some x else none

  unfoldable pub cap_json : ℕ → CapExplanation fl → CapJson fl
  cap_json team_count c = record {
    active = true;
    bound = c.decision.bound;
    lo = finite_or_none c.decision.lo;
    hi = finite_or_none c.decision.hi;
    min_gain = c.decision.floor;
    mismatch_override = c.mismatch_override;
    high_cr_scale = c.high_cr_scale;
    composite_win = c.composite_win;
    composite_loss = c.composite_loss;
    gain_floor_mult = c.gain_floor_mult;
    team_count = team_count;
  }

  unfoldable pub modifiers_to_json : PlayerRatingResult fl → ModifiersJson fl
  modifiers_to_json pr = record {
    pl_base_delta_mu = pr.modifiers.pl_base_delta_mu;
    placement_weight = pr.modifiers.placement_weight;
    placement_amp = pr.modifiers.placement_amp;
    streak_mult = pr.modifiers.streak_mult;
    soft_cap_factor = pr.modifiers.soft_cap_factor;
    boosting_factor = pr.modifiers.boosting_factor;
    party_factor = pr.modifiers.party_factor;
    dispersion_clamped = pr.modifiers.dispersion_clamped;
    final_delta_mu = pr.modifiers.final_delta_mu;
    cr_delta = pr.cr_delta;
    eligible = pr.eligible;
    explain_version = 1;
    confidence_pdl = pr.confidence_cr;
    pre_cap_cr_delta = pr.pre_cap_cr_delta;
    team_count = pr.team_count;
    cap = elim pr.cap [ none ↦ none | some c ↦ some (cap_json pr.team_count c) ];
  }

  abbrev pub one_less : ℤ → ℤ
  one_less n = if ltb_ℤ (pos 0) n then n -ℤ pos 1 else n

  -- 1) the row of a player whose result counts
  unfoldable pub update_row : PlayerRatingResult fl → PlayerSeason fl → PlayerSeason fl
  update_row pr ps = record {
    player_id = ps.player_id;
    season_id = ps.season_id;
    cr = pr.cr_after;
    mu = pr.mu_after;
    sigma = pr.sigma_after;
    matches_played = ps.matches_played + 1;
    placement_matches_remaining = one_less ps.placement_matches_remaining;
    is_provisional = ltb_ℤ (pos 0) (one_less ps.placement_matches_remaining);
    peak_cr = if lt ps.peak_cr pr.cr_after then pr.cr_after else ps.peak_cr;
    current_streak = pr.new_streak;
  }

  -- 4) the snapshot of the row
  abbrev pub snapshot_of : ℕ → ℕ → ℕ → PlayerSeason fl → CrSnapshot fl
  snapshot_of snap_at pid sid ps = record {
    snapshot_at = snap_at;
    player_id = pid;
    season_id = sid;
    cr = ps.cr;
    mu = ps.mu;
    sigma = ps.sigma;
    matches_played = ps.matches_played;
  }

  -- 2) what the record of the match says of a player
  abbrev pub participant_row :
      ℕ → ℕ → RawParticipant → Option (Snapshot fl) → PlayerRatingResult fl → MatchParticipant fl
  participant_row match_id played_at p state_before pr = record {
    match_id = match_id;
    player_id = pr.player_id;
    played_at = played_at;
    champion_id = p.champion_id;
    team_id = p.team_id;
    placement = p.placement;
    eligible = pr.eligible;
    cr_before = pr.cr_before;
    cr_after = pr.cr_after;
    cr_delta = pr.cr_delta;
    is_premade = p.is_premade;
    party_id = p.party_id;
    modifiers = modifiers_to_json pr;
    state_before = state_before;
    telemetry = p.telemetry;
  }

  -- The dicts and the rows to add, which the loop works on.
  pub record Work : Type 0 where
    pub states : Table ℕ (PlayerSeason fl)
    pub champ_stats : Table (ℕ × ℕ) (ChampionStat fl)
    pub cr_snapshots : List (CrSnapshot fl)
    pub cr_snapshots_recent : List (CrSnapshot fl)
    pub match_participants : List (MatchParticipant fl)
    pub updated : ℕ

  -- 3) `_apply_champion_stat`
  abbrev pub stat_of : ℕ → ℕ → ℕ → Option (ChampionStat fl) → ChampionStat fl
  stat_of pid sid champion none = new_stat fl pid sid champion
  stat_of pid sid champion (some cs) = cs

  abbrev pub apply_champion_stat :
      ℕ
      → RawParticipant
      → PlayerRatingResult fl
      → Table (ℕ × ℕ) (ChampionStat fl)
      → Table (ℕ × ℕ) (ChampionStat fl)
  apply_champion_stat sid p pr d =
      let key : ℕ × ℕ = (pr.player_id, p.champion_id) in
      insert key
        (count_game fl p.placement pr.is_win pr.cr_delta
          (stat_of pr.player_id sid p.champion_id (lookup key d)))
        d

  -- What the loop needs of the match.
  pub record Context : Type 0 where
    pub match_id : ℕ
    pub season_id : ℕ
    pub played_at : ℕ
    pub snap_at : ℕ
    pub voided : Bool
    pub people : Table ℕ RawParticipant
    pub state_before : Table ℕ (Snapshot fl)

  -- The body of the loop for a player whose result counts.
  abbrev pub counted :
      Context → PlayerRatingResult fl → PlayerSeason fl → RawParticipant → Work → Work
  counted c pr ps p w =
      let after = update_row pr ps in
      let snapshot = snapshot_of c.snap_at pr.player_id c.season_id after in
      record {
        states = insert pr.player_id after w.states;
        champ_stats = apply_champion_stat c.season_id p pr w.champ_stats;
        cr_snapshots = w.cr_snapshots ++ (snapshot ∷ []);
        cr_snapshots_recent = w.cr_snapshots_recent ++ (snapshot ∷ []);
        match_participants =
            w.match_participants
            ++ (participant_row c.match_id c.played_at p (lookup pr.player_id c.state_before) pr
                ∷ []);
        updated = w.updated + 1;
      }

  -- The body for a player who is frozen, and for everyone of a voided match.
  abbrev pub documented : Context → PlayerRatingResult fl → RawParticipant → Work → Work
  documented c pr p w = record w {
    match_participants =
        w.match_participants
        ++ (participant_row c.match_id c.played_at p (lookup pr.player_id c.state_before) pr ∷ []);
  }

  unfoldable pub persist_player :
      Context → PlayerRatingResult fl → PlayerSeason fl → RawParticipant → Work → Work
  persist_player c pr ps p w =
      if pr.eligible && not c.voided then counted c pr ps p w else documented c pr p w

  -- `for pr in result.players`
  unfoldable pub persist_players :
      Context → List (PlayerRatingResult fl) → Work → Result ProcessError Work
  persist_players c [] w = ok w
  persist_players c (pr ∷ prs) w = do
    ps ← get_item pr.player_id w.states
    p ← get_item pr.player_id c.people
    persist_players c prs (persist_player c pr ps p w)
