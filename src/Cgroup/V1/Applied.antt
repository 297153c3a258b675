-- ===== src/Cgroup/V1/Applied.antt =====
-- src/cgroup/v1set.rs: the two loops and the check, one after the other.
use mathlib.Core.List.{append_assoc, append-nil}
use swarm_device_access.Base.{
  ◌≡◌, refl, sym, ◌∙◌, ap, Bool, true, false, not, ◌&&◌, ◌||◌, List, [], ◌∷◌, ◌++◌, keep, All,
  arith, Text, Option, none, some, Result, ok, err,
}
use swarm_device_access.Cgroup.Identity.{Identity, identity_eq}
use swarm_device_access.Cgroup.Bits.{DevBit}
use swarm_device_access.Cgroup.V1.{ListEntry, ListError, covered}
use swarm_device_access.Cgroup.V1.Ledger.{contains, owned}
use swarm_device_access.Cgroup.V1.Set.{
  SetFailure, SetError, revoke_failed, drift, mismatched, insert_all, checked_bits, verify_result,
  V1State, V1Files, without_owned, read_list, grant_all, verify_bits, after_revoke, or_joined,
}
use swarm_device_access.Cgroup.V1.Runs.{Runs, has}
use swarm_device_access.Cgroup.V1.Revoke.{Revokes, IsRevocation}
use swarm_device_access.Cgroup.V1.Grant.{IsGrant, Grants, grant_all-Runs, grant_all-Grants}
use swarm_device_access.Cgroup.V1.Checked.{contains-insert_all, own_bits, matched}

module _ {W FileError : Type 0} (files : V1Files W FileError) (id : Identity) where
  -- The bits that are to be owned: those of the rules that the baseline does not cover.
  abbrev pub wanted : List ListEntry → List DevBit → List DevBit → List DevBit
  wanted entries owned_old desired =
      keep (λ bit. not (covered (without_owned entries owned_old) bit)) desired

  pub read_list-state :
      (s : V1State W)
      → ((read_list files id s).1.written ≡ s.written)
        × ((read_list files id s).1.ledger ≡ s.ledger)
  unfolding read_list
  read_list-state s = (refl, refl)

  -- What a call writes after the list was read: revocations, then grants, and no grant when a
  -- revocation failed; no other cgroup's bits change.
  abbrev pub Writes :
      List ListEntry
      → List DevBit
      → List DevBit
      → V1State W
      → Option (SetError FileError) × V1State W
      → Type 0
  Writes entries owned_old owned_new s (e, s') =
      (revocations grants : List (Bool × DevBit)) × (s'.written
        ≡ s.written ++ (revocations ++ grants))
      × All (IsRevocation files id (without_owned entries owned_old) owned_old owned_new)
          revocations
      × All (IsGrant files id entries owned_new) grants
      × ((l : Text) (f : FileError) → e ≡ some (revoke_failed l f) → grants ≡ [])
      × ((j : Identity) → identity_eq j id ≡ false → owned j s'.ledger ≡ owned j s.ledger)

  or_joined-revoke :
      (es : List (SetFailure FileError)) (l : Text) (f : FileError)
      → or_joined files id es ≡ some (revoke_failed l f)
      → (g : List (Bool × DevBit)) → g ≡ []
  or_joined-revoke [] l f e g = cc
  or_joined-revoke (x ∷ es) l f e g = cc

  verify_bits-state :
      (old new forgotten : List DevBit) (s : V1State W)
      → ((verify_bits files id old new forgotten s).1.written ≡ s.written)
        × ((verify_bits files id old new forgotten s).1.ledger ≡ s.ledger)
  unfolding verify_bits
  verify_bits-state old new forgotten s = read_list-state s

  pub after_revoke-Writes :
      (entries : List ListEntry) (owned_old owned_new : List DevBit) (s : V1State W)
      (out : Result (SetError FileError) (List DevBit) × V1State W)
      → Runs files id
          (IsRevocation files id (without_owned entries owned_old) owned_old owned_new)
          s
          out.1
      → Writes entries owned_old owned_new s (after_revoke files id entries owned_old owned_new out)
  after_revoke-Writes entries owned_old owned_new s (err e, t) r = (
    r.extra,
    [],
    r.appended ∙ ap (λ w. s.written ++ w) (sym (append-nil r.extra)),
    r.fair,
    tt,
    (λ l f h. refl),
    r.others,
  )
  after_revoke-Writes entries owned_old owned_new s (ok forgotten, t) r =
      let granted = grant_all files id entries owned_new t in
      let g : Runs files id (IsGrant files id entries owned_new) t granted.1 =
        grant_all-Runs files id entries owned_new owned_new t (own_bits owned_new) in
      let (w, l) = verify_bits-state owned_old owned_new forgotten granted.1 in
      (
        r.extra,
        g.extra,
        w ∙ g.appended ∙ ap (λ x. x ++ g.extra) r.appended ∙ append_assoc s.written r.extra g.extra,
        r.fair,
        g.fair,
        (λ m f h. or_joined-revoke _ m f h g.extra),
        λ j n. ap (owned j) l ∙ g.others j n ∙ r.others j n,
      )

  -- What a call that has no error leaves.
  abbrev pub Achieves :
      List ListEntry
      → List DevBit
      → List DevBit
      → V1State W
      → Option (SetError FileError) × V1State W
      → Type 0
  Achieves entries owned_old owned_new s (e, s') =
      e ≡ none
      → ((b : DevBit) → has files id s' b ≡ contains b owned_new)
        × ((after : List ListEntry) × (t : V1State W) × (read_list files id t ≡ (ok after, s'))
            × ((b : DevBit) → contains b owned_new ≡ true → covered after b ≡ true))

  no_failures :
      (es fs : List (SetFailure FileError))
      → or_joined files id (es ++ fs) ≡ none
      → (es ≡ []) × (fs ≡ [])
  no_failures [] [] e = (refl, refl)
  no_failures [] (f ∷ fs) e = cc
  no_failures (x ∷ es) fs e = cc

  verified :
      (owned_new checked : List DevBit) (r : Result (ListError FileError) (List ListEntry))
      → verify_result files id checked owned_new r ≡ []
      → (after : List ListEntry) × (r ≡ ok after) × (mismatched after owned_new checked ≡ [])
  verified owned_new checked (err e) h = cc
  verified owned_new checked (ok after) h =
      (after, refl, none_left (mismatched after owned_new checked) h)
    where
      none_left :
          (ms : List (Text × Bool))
          → (elim ms as (λ x. List (SetFailure FileError)) [
            | [] ↦ []
            | ◌∷◌ m rest ↦ drift (m ∷ rest) ∷ []
          ])
            ≡ []
          → ms ≡ []
      none_left [] e = refl
      none_left (m ∷ rest) e = cc

  effective :
      (owned_old owned_new forgotten : List DevBit) (t : V1State W)
      → (verify_bits files id owned_old owned_new forgotten t).0 ≡ []
      → (after : List ListEntry) × (read_list files id t
          ≡ (ok after, (verify_bits files id owned_old owned_new forgotten t).1))
        × ((b : DevBit) → contains b owned_new ≡ true → covered after b ≡ true)
  unfolding verify_bits checked_bits
  effective owned_old owned_new forgotten t h =
      let (after, r, m) =
        verified owned_new (checked_bits owned_old owned_new forgotten) (read_list files id t).0
          h in
      (
        after,
        ap (λ x. (x, (read_list files id t).1)) r,
        λ b o.
            matched after owned_new (checked_bits owned_old owned_new forgotten) b m (
              contains-insert_all b owned_new
                (insert_all (keep (λ bit. not (contains bit forgotten)) owned_old) [])
              ∙ (rw o refl))
            ∙ o,
      )

  settled : (o n : Bool) → (n || (o && not (o && not n))) ≡ n
  settled o n = ground arith

  pub after_revoke-Achieves :
      (entries : List ListEntry) (owned_old owned_new : List DevBit) (s : V1State W)
      (out : Result (SetError FileError) (List DevBit) × V1State W)
      → owned id s.ledger ≡ owned_old
      → Revokes files id owned_new owned_old s out
      → Achieves entries owned_old owned_new s
          (after_revoke files id entries owned_old owned_new out)
  after_revoke-Achieves entries owned_old owned_new s (err e, t) o r = λ h. cc
  after_revoke-Achieves entries owned_old owned_new s (ok forgotten, t) o r =
      finished (grant_all files id entries owned_new t)
        (grant_all-Grants files id entries owned_new owned_new t)
    where
      r' :
          (b : DevBit)
          → has files id t b
            ≡ (contains b owned_old && not (contains b owned_old && not (contains b owned_new)))
      r' b =
          r b ∙ ap (λ x. contains b x && not (contains b owned_old && not (contains b owned_new))) o

      finished :
          (granted : List (SetFailure FileError) × V1State W)
          → Grants files id owned_new t granted
          → or_joined files id
              (granted.0 ++ (verify_bits files id owned_old owned_new forgotten granted.1).0)
            ≡ none
          → ((b : DevBit)
              → has files id (verify_bits files id owned_old owned_new forgotten granted.1).1 b
                ≡ contains b owned_new)
            × ((after : List ListEntry) × (u : V1State W) × (read_list files id u
                  ≡ (ok after, (verify_bits files id owned_old owned_new forgotten granted.1).1))
                × ((b : DevBit) → contains b owned_new ≡ true → covered after b ≡ true))
      finished (x ∷ es, u) g h = cc
      finished ([], u) g h =
          let (e, f) = no_failures [] (verify_bits files id owned_old owned_new forgotten u).0 h in
          let (after, r, c) = effective owned_old owned_new forgotten u f in
          let (w, l) = verify_bits-state owned_old owned_new forgotten u in
          (
            λ b.
                ap (λ x. contains b (owned id x)) l
                ∙ g b
                ∙ ap (λ x. contains b owned_new || x) (r' b)
                ∙ settled (contains b owned_old) (contains b owned_new),
            (after, u, r, c),
          )
