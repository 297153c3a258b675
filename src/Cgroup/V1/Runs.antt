-- ===== src/Cgroup/V1/Runs.antt =====
-- src/cgroup/v1set.rs: what a part of a call does to a state.
use mathlib.Core.List.{append_assoc, append-nil}
use swarm_device_access.Base.{
  ◌≡◌, refl, sym, ◌∙◌, ap, Bool, false, not, ◌&&◌, ◌||◌, List, [], ◌∷◌, ◌++◌, All, All-append,
}
use swarm_device_access.Cgroup.Identity.{Identity, identity_eq}
use swarm_device_access.Cgroup.Bits.{DevBit, same_bit}
use swarm_device_access.Cgroup.V1.Ledger.{
  contains, owned, add_bit, drop_bit, contains-insert_bit, contains-remove_bit, owned-add_bit,
  owned-add_bit_ne, owned-drop_bit, owned-drop_bit_ne,
}
use swarm_device_access.Cgroup.V1.Set.{V1State, V1Files, write_bit, with_ledger}

module _ {W FileError : Type 0} (files : V1Files W FileError) (id : Identity) where
  -- From a state to another: the writes are those before and some that are fair, and no other
  -- cgroup's bits change.
  pub record Runs (Fair : Bool × DevBit → Type 0) (s s' : V1State W) : Type 0 where
    pub extra : List (Bool × DevBit)
    pub appended : s'.written ≡ s.written ++ extra
    pub fair : All Fair extra
    pub others : (j : Identity) → identity_eq j id ≡ false → owned j s'.ledger ≡ owned j s.ledger

  module _ (Fair : Bool × DevBit → Type 0) where
    pub self-Runs :
        (s s' : V1State W) → s'.written ≡ s.written → s'.ledger ≡ s.ledger → Runs Fair s s'
    self-Runs s s' w l = record {
      extra = [];
      appended = w ∙ sym (append-nil s.written);
      fair = tt;
      others = λ j n. ap (owned j) l;
    }

    pub then-Runs : (s t u : V1State W) → Runs Fair s t → Runs Fair t u → Runs Fair s u
    then-Runs s t u a b = record {
      extra = a.extra ++ b.extra;
      appended =
          b.appended ∙ ap (λ w. w ++ b.extra) a.appended ∙ append_assoc s.written a.extra b.extra;
      fair = All-append Fair a.extra b.extra a.fair b.fair;
      others = λ j n. b.others j n ∙ a.others j n;
    }

    pub write_bit-Runs :
        (allow : Bool) (bit : DevBit) (s : V1State W)
        → Fair (allow, bit)
        → Runs Fair s (write_bit files id allow bit s).1
    unfolding write_bit
    write_bit-Runs allow bit s f = record {
      extra = (allow, bit) ∷ [];
      appended = refl;
      fair = (f, tt);
      others = λ j n. refl;
    }

    pub drop_bit-Runs :
        (bit : DevBit) (s : V1State W) → Runs Fair s (with_ledger files id (drop_bit id bit) s)
    drop_bit-Runs bit s = record {
      extra = [];
      appended = sym (append-nil s.written);
      fair = tt;
      others = λ j n. owned-drop_bit_ne j id bit s.ledger n;
    }

    pub add_bit-Runs :
        (bit : DevBit) (s : V1State W) → Runs Fair s (with_ledger files id (add_bit id bit) s)
    add_bit-Runs bit s = record {
      extra = [];
      appended = sym (append-nil s.written);
      fair = tt;
      others = λ j n. owned-add_bit_ne j id bit s.ledger n;
    }

  pub write_bit-ledger :
      (allow : Bool) (bit : DevBit) (s : V1State W)
      → (write_bit files id allow bit s).1.ledger ≡ s.ledger
  unfolding write_bit
  write_bit-ledger allow bit s = refl

  -- The bits of the cgroup in a state's ledger.
  abbrev pub has : V1State W → DevBit → Bool
  has s b = contains b (owned id s.ledger)

  pub has-drop_bit :
      (bit b : DevBit) (s : V1State W)
      → has (with_ledger files id (drop_bit id bit) s) b ≡ (has s b && not (same_bit b bit))
  has-drop_bit bit b s =
      ap (contains b) (owned-drop_bit id bit s.ledger)
      ∙ contains-remove_bit b bit (owned id s.ledger)

  pub has-add_bit :
      (bit b : DevBit) (s : V1State W)
      → has (with_ledger files id (add_bit id bit) s) b ≡ (same_bit b bit || has s b)
  has-add_bit bit b s =
      ap (contains b) (owned-add_bit id bit s.ledger)
      ∙ contains-insert_bit b bit (owned id s.ledger)
