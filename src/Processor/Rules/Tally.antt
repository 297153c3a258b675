-- ===== src/Processor/Rules/Tally.antt =====
-- src/processor/rules.rs: the devices that are granted, against a description by the candidates
-- alone.
use swarm_device_access.Base.{
  ◌≡◌, refl, sym, ◌∙◌, ap, subst, Bool, true, false, not, ◌&&◌, ◌||◌, List, [], ◌∷◌, ◌++◌, any, all,
  any-append, if◌then◌else◌, arith, Text, Option, none, some, Bool-cases, inl, inr, find, insert,
  find-insert_self, find-insert_ne, Dict,
}
use swarm_device_access.Processor.Dev.{
  DeviceId, NodeKind, device, dir, other_kind, same_device, same_device_self, same_device_sound,
  device_equality,
}
use swarm_device_access.Processor.Names.{Candidate, is_none_text}
use swarm_device_access.Processor.Rules.Votes.{
  DeviceVotes, Aggregation, no_votes, or_denied, vote, unordered, add_vote,
}

-- Whether a candidate is this device.
abbrev pub kind_is : DeviceId → NodeKind → Bool
kind_is id (device d) = same_device id d
kind_is id dir = false
kind_is id other_kind = false

abbrev pub is_of : DeviceId → Candidate → Bool
is_of id c = kind_is id c.kind

-- Some candidate of the device is authorized, and no candidate of it is denied.
abbrev pub granted_by : List Candidate → DeviceId → Bool
granted_by seen id =
    all (λ c. not (is_of id c) || is_none_text c.decision.denied_by) seen
    && any (λ c. is_of id c && c.decision.authorized) seen

abbrev pub add_new : DeviceId → List DeviceId → List DeviceId
add_new d ids = if any (same_device d) ids then ids else ids ++ d ∷ []

abbrev pub add_device : NodeKind → List DeviceId → List DeviceId
add_device (device d) ids = add_new d ids
add_device dir ids = ids
add_device other_kind ids = ids

-- The devices of the candidates, each once, in the order they are first seen.
abbrev pub first_seen : List DeviceId → List Candidate → List DeviceId
first_seen ids [] = ids
first_seen ids (c ∷ rest) = first_seen (add_device c.kind ids) rest

abbrev pub or_no_votes : Option DeviceVotes → DeviceVotes
or_no_votes none = no_votes
or_no_votes (some votes) = votes

abbrev pub is_found : Option DeviceVotes → Bool
is_found none = false
is_found (some votes) = true

abbrev pub IsTally : DeviceId → List Candidate → DeviceVotes → Type 0
IsTally id seen votes =
    (votes.authorized ≡ any (λ c. is_of id c && c.decision.authorized) seen)
    × (is_none_text votes.denied_by
        ≡ all (λ c. not (is_of id c) || is_none_text c.decision.denied_by) seen)

pub record IsTallied (seen : List Candidate) (devices : Aggregation) : Type 0 where
  pub tally : (id : DeviceId) → IsTally id seen (or_no_votes (find id devices.votes))
  pub known :
      (id : DeviceId) → any (same_device id) devices.order ≡ is_found (find id devices.votes)
  pub ordered : devices.order ≡ first_seen [] seen

all-append :
    {A : Type 0} (p : A → Bool) (xs ys : List A) → all p (xs ++ ys) ≡ (all p xs && all p ys)
all-append p [] ys = ground arith
all-append p (x ∷ xs) ys = ground (arith, all-append p xs ys)

pub first_seen-append :
    (ids : List DeviceId) (xs ys : List Candidate)
    → first_seen ids (xs ++ ys) ≡ first_seen (first_seen ids xs) ys
first_seen-append ids [] ys = refl
first_seen-append ids (x ∷ xs) ys = first_seen-append (add_device x.kind ids) xs ys

or_denied-none :
    (o p : Option Text) → is_none_text (or_denied o p) ≡ (is_none_text o && is_none_text p)
or_denied-none none p = ground arith
or_denied-none (some name) p = refl

-- The tally after a vote of a candidate of the device, and after one of another device.
vote-IsTally :
    (id : DeviceId) (seen : List Candidate) (c : Candidate) (votes : DeviceVotes)
    → is_of id c ≡ true
    → IsTally id seen votes
    → IsTally id (seen ++ c ∷ []) (vote c votes)
vote-IsTally id seen c votes h (a, d) = (
  rw (any-append (λ x. is_of id x && x.decision.authorized) seen (c ∷ []), a, h) ground arith,
  rw
      (
        all-append (λ x. not (is_of id x) || is_none_text x.decision.denied_by) seen (c ∷ []),
        or_denied-none votes.denied_by c.decision.denied_by,
        d,
        h,
      )
      ground arith,
)

pub other-IsTally :
    (id : DeviceId) (seen : List Candidate) (c : Candidate) (votes : DeviceVotes)
    → is_of id c ≡ false
    → IsTally id seen votes
    → IsTally id (seen ++ c ∷ []) votes
other-IsTally id seen c votes h (a, d) = (
  rw (any-append (λ x. is_of id x && x.decision.authorized) seen (c ∷ []), a, h) ground arith,
  rw (all-append (λ x. not (is_of id x) || is_none_text x.decision.denied_by) seen (c ∷ []), d, h)
      ground arith,
)

-- The votes of every device, once a candidate of this one has voted.
cast-IsTally :
    (seen : List Candidate) (devices : Aggregation) (c : Candidate) (d : DeviceId)
    → c.kind ≡ device d
    → ((id : DeviceId) → IsTally id seen (or_no_votes (find id devices.votes)))
    → (id : DeviceId)
    → IsTally id (seen ++ c ∷ []) (
        or_no_votes (
          find id (insert unordered d (vote c (or_no_votes (find d devices.votes))) devices.votes)))
cast-IsTally seen devices c d k t id = elim (Bool-cases (same_device id d)) [
  | inl e ↦
      let at : id ≡ d = same_device_sound id d e in
      let mine : is_of d c ≡ true = subst (λ x. kind_is d x ≡ true) (sym k) (same_device_self d) in
      subst
        (λ x. IsTally x (seen ++ c ∷ []) (
          or_no_votes (
            find x
              (insert unordered d (vote c (or_no_votes (find d devices.votes))) devices.votes))))
        (sym at)
        (subst (λ o. IsTally d (seen ++ c ∷ []) (or_no_votes o))
          (sym (
            find-insert_self unordered d (vote c (or_no_votes (find d devices.votes)))
              devices.votes))
          (vote-IsTally d seen c (or_no_votes (find d devices.votes)) mine (t d)))
  | inr e ↦
      let other : is_of id c ≡ false = subst (λ x. kind_is id x ≡ false) (sym k) e in
      subst (λ o. IsTally id (seen ++ c ∷ []) (or_no_votes o))
        (sym (
          find-insert_ne unordered id d (vote c (or_no_votes (find d devices.votes))) devices.votes
            e))
        (other-IsTally id seen c (or_no_votes (find id devices.votes)) other (t id))
]

-- Which devices have votes, once one of this device is inserted.
is_found-insert :
    (id d : DeviceId) (v : DeviceVotes) (votes : Dict DeviceId DeviceVotes)
    → is_found (find id (insert unordered d v votes))
      ≡ (same_device id d || is_found (find id votes))
is_found-insert id d v votes = elim (Bool-cases (same_device id d)) [
  | inl e ↦
      let at : id ≡ d = same_device_sound id d e in
      let hit : is_found (find d (insert unordered d v votes)) ≡ true =
        ap is_found (find-insert_self unordered d v votes) in
      let here : is_found (find id (insert unordered d v votes)) ≡ true =
        subst (λ x. is_found (find x (insert unordered d v votes)) ≡ true) (sym at) hit in
      rw (here, e) refl
  | inr e ↦
      let there : is_found (find id (insert unordered d v votes)) ≡ is_found (find id votes) =
        ap is_found (find-insert_ne unordered id d v votes e) in
      rw (there, e) refl
]

-- A device with votes is in the order already.
known_before :
    (devices : Aggregation) (id d : DeviceId) (votes : DeviceVotes)
    → find d devices.votes ≡ some votes
    → ((x : DeviceId) → any (same_device x) devices.order ≡ is_found (find x devices.votes))
    → any (same_device id) devices.order ≡ (same_device id d || is_found (find id devices.votes))
known_before devices id d votes f k = elim (Bool-cases (same_device id d)) [
  | inl e ↦
      let at : id ≡ d = same_device_sound id d e in
      let here : is_found (find id devices.votes) ≡ true =
        subst (λ x. is_found (find x devices.votes) ≡ true) (sym at) (ap is_found f) in
      k id ∙ (rw (e, here) refl)
  | inr e ↦ k id ∙ (rw e refl)
]

order_snoc :
    (seen : List Candidate) (c : Candidate) (d : DeviceId) (order : List DeviceId)
    → c.kind ≡ device d
    → order ≡ first_seen [] seen
    → add_new d order ≡ first_seen [] (seen ++ c ∷ [])
order_snoc seen c d order k o =
    ap (λ x. add_device x order) (sym k)
    ∙ ap (add_device c.kind) o
    ∙ sym (first_seen-append [] seen (c ∷ []))

pub add_vote-IsTallied :
    (seen : List Candidate) (devices : Aggregation) (c : Candidate) (d : DeviceId)
    (o : Option DeviceVotes)
    → c.kind ≡ device d
    → find d devices.votes ≡ o
    → IsTallied seen devices
    → IsTallied (seen ++ c ∷ []) (add_vote d c devices o)
add_vote-IsTallied seen devices c d none k f t =
    let cast = cast-IsTally seen devices c d k t.tally in
    let fresh : any (same_device d) devices.order ≡ false = t.known d ∙ ap is_found f in
    record {
      tally = λ id.
          subst
            (λ x.
              IsTally id (seen ++ c ∷ [])
                (or_no_votes (find id (insert unordered d (vote c (or_no_votes x)) devices.votes))))
            f (cast id);
      known = λ id.
          any-append (same_device id) devices.order (d ∷ [])
          ∙ (rw (t.known id) (ground arith))
          ∙ sym (is_found-insert id d (vote c no_votes) devices.votes);
      ordered =
          ap (λ b. if b then devices.order else devices.order ++ d ∷ []) (sym fresh)
          ∙ order_snoc seen c d devices.order k t.ordered;
    }
add_vote-IsTallied seen devices c d (some votes) k f t =
    let cast = cast-IsTally seen devices c d k t.tally in
    let again : any (same_device d) devices.order ≡ true = t.known d ∙ ap is_found f in
    record {
      tally = λ id.
          subst
            (λ x.
              IsTally id (seen ++ c ∷ [])
                (or_no_votes (find id (insert unordered d (vote c (or_no_votes x)) devices.votes))))
            f (cast id);
      known = λ id.
          known_before devices id d votes f t.known
          ∙ sym (is_found-insert id d (vote c votes) devices.votes);
      ordered =
          ap (λ b. if b then devices.order else devices.order ++ d ∷ []) (sym again)
          ∙ order_snoc seen c d devices.order k t.ordered;
    }
