-- ===== src/Roles/Service/Granted.antt =====
-- A write of a seat is decided on the seats that the store has, or on none.
use pdt.Base.{ℕ, String, ◌≡◌, refl, ◌⊎◌, inl, inr, Bool, true, false, Option, ◌&&◌, Bool-cases}
use pdt.Model.Error.{ApiError, Result, ok, err, panic}
use pdt.Model.Asset.{Asset}
use pdt.Model.World.{State, World, pure, raise, ensure, ◌>>=◌, continue}
use pdt.Model.World.Read.{Returns, may_fail, query-Returns, pure-Returns, bind-Returns}
use pdt.Relations.Repository as Links
use pdt.Relations.Graph.{asset_relations}
use pdt.Cedar.Entity.{JwtClaims}
use pdt.Cedar.Resolved.{recover}
use pdt.Cedar.Resolved.Bypass.{Recovered, recovered, recover-Recovered}
use pdt.Roles.Membership.{seat_role}
use pdt.Roles.Service.{SeatContext, seat_of, check_membership_permission}
use pdt.Roles.Service.Resolved.{caller_seat, seat_on-Recovered}

seat_of-Returns :
    (σ : State) (asset workspace : String)
    → Returns σ
        (seat_role (asset_relations σ.relations asset) asset workspace)
        (seat_of asset workspace)
unfolding seat_of Links.get_asset_relations
seat_of-Returns σ asset workspace =
    bind-Returns σ (asset_relations σ.relations asset) _ _ (pure-Returns σ _) (query-Returns σ _)

module _ (is_alphanumeric : ℕ → Bool) (fts_match : String → Asset → Bool)
    (builds is_allowed : JwtClaims → String → String → SeatContext → Bool) (claims : JwtClaims)
    (action workspace target : String) (requested : Option String) (w0 : World) where
  abbrev Faulty : Type 0
  Faulty = may_fail w0.faults ≡ true

  -- A seat is the store's, or none where a failure is ahead.
  abbrev OrNone : String → String → Type 0
  OrNone seat stored = (seat ≡ stored) ⊎ ((seat ≡ "none") × Faulty)

  abbrev stored_caller : String
  stored_caller = caller_seat is_alphanumeric fts_match w0.state.store claims.sub workspace

  abbrev stored_target : String
  stored_target = seat_role (asset_relations w0.state.relations target) target workspace

  abbrev context : String → String → SeatContext
  context caller seat = record {
    caller_role = caller;
    target_seat_role = seat;
    requested_role = requested;
  }

  abbrev decision : String → String → Bool
  decision caller seat =
      builds claims action workspace (context caller seat)
      && is_allowed claims action workspace (context caller seat)

  -- The decision was made on these seats, and the request was built.
  pub record IsDecided (allowed : Bool) : Type 0 where
    pub caller : String
    pub seat : String
    pub caller_read : OrNone caller stored_caller
    pub target_read : OrNone seat stored_target
    pub decided : decision caller seat ≡ allowed

  -- What the check answers and leaves.
  abbrev pub Granted : Result (Unit {0}) × World → Type 0
  Granted (ok u, w) = (w.state ≡ w0.state) × IsDecided true
  Granted (err e, w) = (w.state ≡ w0.state) × (e ≡ ApiError.forbidden) × IsDecided false
  Granted (panic, w) = ⊥

  ensured :
      (caller seat : String) (w : World)
      → w.state ≡ w0.state
      → OrNone caller stored_caller
      → OrNone seat stored_target
      → Granted (ensure (decision caller seat) ApiError.forbidden w)
  unfolding ensure pure raise
  ensured caller seat w e c t = elim (Bool-cases (decision caller seat)) [
    | inl allowed ↦ rw allowed (
      e,
      record { caller = caller; seat = seat; caller_read = c; target_read = t; decided = allowed },
    )
    | inr denied ↦ rw denied (
      e,
      refl,
      record { caller = caller; seat = seat; caller_read = c; target_read = t; decided = denied },
    )
  ]

  target_step :
      (caller : String)
      → OrNone caller stored_caller
      → (r : Result String × World) → Recovered Faulty w0.state stored_target "none" r
      → Granted (continue r.0 (λ seat. ensure (decision caller seat) ApiError.forbidden) r.1)
  target_step caller c r (recovered seat w from e f) = ensured caller seat w e c from

  caller_step :
      (r : Result String × World)
      → Recovered Faulty w0.state stored_caller "none" r
      → Granted (
          continue r.0
            (λ caller.
              recover (seat_of target workspace) "none"
              >>= (λ seat. ensure (decision caller seat) ApiError.forbidden))
            r.1)
  caller_step r (recovered caller w from e f) =
      target_step caller from _ (
        recover-Recovered Faulty w0.state _ "none" (seat_of-Returns w0.state target workspace) w e
          f)

-- Whichever of its reads fail, the check of a write of a seat changes nothing. It passes where the
-- request is built and the policies allow it, and else it is forbidden; the request carries the
-- seat of the caller and the seat of the target on that workspace and the role asked for. Only
-- where a failure is ahead a seat that the store has may be taken for none.
pub check_membership_permission-Granted :
    (is_alphanumeric : ℕ → Bool) (fts_match : String → Asset → Bool)
    (builds is_allowed : JwtClaims → String → String → SeatContext → Bool) (claims : JwtClaims)
    (action workspace target : String) (requested : Option String) (w : World)
    → Granted is_alphanumeric fts_match builds is_allowed claims action workspace target requested w
        (check_membership_permission is_alphanumeric fts_match builds is_allowed claims action
          workspace target requested w)
unfolding check_membership_permission
check_membership_permission-Granted is_alphanumeric fts_match builds is_allowed claims action
      workspace target requested w =
    caller_step is_alphanumeric fts_match builds is_allowed claims action workspace target requested
      w _
      (seat_on-Recovered is_alphanumeric fts_match
        (Faulty is_alphanumeric fts_match builds is_allowed claims action workspace target requested
          w)
        claims.sub workspace w (λ h. h))
