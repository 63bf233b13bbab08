-- ===== src/Operator/Drift/Laws.antt =====
-- Drift passes keep the receipts sound.
use cloudfall.Base.{
  String, List, [], ◌∷◌, contains, Bool-cases, inl, inr, ◌≡◌, arith, string_eq, if◌then◌else◌,
}
use cloudfall.Base.Dict.{Dict}
use cloudfall.Base.Results.{ok}
use cloudfall.Base.Effects.{◌>>=◌, pure, lift, resume, chain-post}
use cloudfall.Operator.Records.{OperationKind, proposed, OperatorProposal}
use cloudfall.Operator.World.{Site, World, Act}
use cloudfall.Operator.Store.{blocking_fingerprints}
use cloudfall.Operator.Store.Laws.{stored, save-post}
use cloudfall.Operator.Sound.{IsSound}
use cloudfall.Operator.Trigger.Laws.{
  Covers, blocking_fingerprints-Covers, saved-IsSound, saved-Covers,
}
use cloudfall.Operator.Drift.{
  ServerAudit, Group, is_empty, all_groups, server_of, propose_for_drift, record_new,
  consider_groups, drift_pass,
}

module _ (dumps : Dict String String → String) (sha256 : String → String) where
  propose_for_drift-proposed :
      (server : String) (checks : List String) (kind : OperationKind) (now : String)
      {p : OperatorProposal}
      → propose_for_drift dumps sha256 server checks kind now ≡ ok p
      → p.status ≡ proposed
  unfolding propose_for_drift
  propose_for_drift-proposed server checks kind now h = ground arith

  module _ (site : Site) (now : String) where
    record_new-IsSound :
        (rest : Act (List String)) (p : OperatorProposal) (w : World)
        → IsSound w
        → IsSound (rest (stored p w)).1
        → IsSound (record_new dumps sha256 site now rest p w).1
    unfolding record_new
    record_new-IsSound rest p w s next =
        save-post site
          (λ r.
            IsSound
              (resume (λ _. rest >>= λ ids. pure {A = List String} (p.resource_id ∷ ids)) r.0
                r.1).1)
          p w
          (λ _.
            chain-post (λ r. IsSound r.1) rest (λ ids. pure (p.resource_id ∷ ids)) (stored p w)
              (λ e h. next) (λ r h. next))
          (λ e. s)

    consider_groups-IsSound :
        (blocking : List String) (groups : List Group) (w : World)
        → IsSound w
        → Covers blocking w
        → IsSound (consider_groups dumps sha256 site now blocking groups w).1
    unfolding consider_groups
    consider_groups-IsSound blocking [] w s covers = s
    consider_groups-IsSound blocking (group ∷ rest) w s covers =
        let later = consider_groups dumps sha256 site now blocking rest in
        let next = consider_groups-IsSound blocking rest w s covers in
        let step : String → Act (List String) = λ server.
          lift (propose_for_drift dumps sha256 server group.checks group.kind now) >>= λ p.
          if contains blocking p.fingerprint
          then later
          else record_new dumps sha256 site now
              (consider_groups dumps sha256 site now (p.fingerprint ∷ blocking) rest) p in
        let new : (server : String) → IsSound (step server w).1 = λ server.
          chain-post (λ r. IsSound r.1)
            (lift (propose_for_drift dumps sha256 server group.checks group.kind now))
            (λ p.
              if contains blocking p.fingerprint
              then later
              else record_new dumps sha256 site now
                  (consider_groups dumps sha256 site now (p.fingerprint ∷ blocking) rest) p)
            w (λ e _. s)
            (λ p made. elim (Bool-cases (contains blocking p.fingerprint)) [
              | inl blocked ↦ rw blocked next
              | inr free ↦ rw free (
                  record_new-IsSound
                    (consider_groups dumps sha256 site now (p.fingerprint ∷ blocking) rest) p w s
                    (let pending =
                        propose_for_drift-proposed server group.checks group.kind now made in
                      consider_groups-IsSound (p.fingerprint ∷ blocking) rest (stored p w)
                        (saved-IsSound p w blocking s covers pending free)
                        (saved-Covers p w blocking s covers pending free)))
            ]) in
        chain-post (λ r. IsSound r.1) (lift (server_of group.server_id))
          (λ server. if is_empty group.checks then later else step server) w (λ e _. s)
          (λ server _. elim (Bool-cases (is_empty group.checks)) [
            | inl nothing ↦ rw nothing next
            | inr some_checks ↦ rw some_checks (new server)
          ])

    -- A drift pass keeps the receipts sound, whatever comes of it.
    pub drift_pass-IsSound :
        (servers : List ServerAudit) (w : World)
        → IsSound w
        → IsSound (drift_pass dumps sha256 site now servers w).1
    unfolding drift_pass
    drift_pass-IsSound servers w s =
        chain-post (λ r. IsSound r.1) (λ v. (blocking_fingerprints site v, v))
          (λ blocking. consider_groups dumps sha256 site now blocking (all_groups servers)) w
          (λ e _. s)
          (λ blocking h.
            consider_groups-IsSound blocking (all_groups servers) w s
              (blocking_fingerprints-Covers site w h))
