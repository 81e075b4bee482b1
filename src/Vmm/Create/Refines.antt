-- ===== src/Vmm/Create/Refines.antt =====
-- `VMCreate` as a run of the steps of `Instance.Creation`.
use matrisea.Common.{ℕ, ◌≡◌, List, ◌∷◌, none, some, ok, length}
use matrisea.Common.Int.{pos}
use matrisea.Docker.{Container}
use matrisea.Instance.{Indexed, collect_indexes, sort_ints, pick}
use matrisea.Instance.Creation
use matrisea.Instance.Creation.{idle, locked, chosen, done, update}
use matrisea.Vmm.Host.{Vmm, Host, World}

-- The labels of containers, as they are read, are those of the state.
pub record Shows (cs : List Container) (a : Creation.World) : Type 0 where
  pub read : Indexed
  pub collected : collect_indexes cs ≡ ok read
  pub labels : a.labels ≡ read.indexes

-- A call has come to its end: every call and every mutex is as in the other state.
pub record IsBack (a b : Creation.World) : Type 0 where
  pub calls : (s : ℕ) → b.pc s ≡ a.pc s
  pub mutexes : (m : ℕ) → b.create_mu m ≡ a.create_mu m

module _ (manager : ℕ → ℕ) (t : ℕ) (a : Creation.World) (at : a.pc t ≡ idle)
    (free : a.create_mu (manager t) ≡ none) where
  abbrev held_lock : Creation.World
  held_lock = record a {
    pc = update a.pc t locked;
    create_mu = update a.create_mu (manager t) (some t);
  }

  -- The call returns before it has created a container.
  abbrev gave_up : Creation.World
  gave_up = record held_lock {
    pc = update held_lock.pc t idle;
    create_mu = update held_lock.create_mu (manager t) none;
  }

  module _ (n : ℕ) (found : pick (sort_ints a.labels) (length a.labels) ≡ ok n) where
    abbrev with_number : Creation.World
    with_number = record held_lock { pc = update held_lock.pc t (chosen n) }

    abbrev created : Creation.World
    created = record with_number { pc = update with_number.pc t done; labels = pos n ∷ a.labels }

    abbrev finished : Creation.World
    finished = record created {
      pc = update created.pc t idle;
      create_mu = update created.create_mu (manager t) none;
    }
