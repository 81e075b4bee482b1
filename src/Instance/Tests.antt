-- ===== src/Instance/Tests.antt =====
-- Runs of the search for a number, and the theorems at concrete hosts.
use matrisea.Common.{
  ℕ, ◌+◌, ◌≤◌, ◌≡◌, refl, Str, text, str_eq, List, [], ◌∷◌, none, some, ok, err, invalid_syntax,
  arith, length,
}
use matrisea.Common.Int.{pos}
use matrisea.Go.Strconv.{atoi}
use matrisea.Docker.{Container, lookup}
use matrisea.Instance.{Indexed, sort_ints, pick, collect_indexes, next_number}
use matrisea.Instance.Total.{next_number_total}
use matrisea.Instance.Least.{AreDistinct, IsLeastFree, next_number-IsLeastFree}
use matrisea.Instance.Creation
use matrisea.Instance.Creation.{
  Pc, idle, World, Step, lock, choose, Reach, here, next, IsConsistent, Reach-IsConsistent,
  managers_collide,
}
use matrisea.Instance.Ports.{PortsApart, next_number-PortsApart}

abbrev labelled : Str → Container
labelled value = record {
  id = text "c0ffee";
  names = text "/matrisea-cvd-a" ∷ [];
  labels = (text "n_cf_instances", text "1") ∷ (text "cf_instance", value) ∷ [];
  status = text "Up 2 days";
  created = pos 1;
  networks = [];
}

abbrev other : Container
other = record (labelled []) { labels = [] }

-- Docker lists the newest container first.
abbrev host : List Container
host = labelled (text "3") ∷ other ∷ labelled (text "1") ∷ []

abbrev host_indexed : Indexed
host_indexed = record {
  cf_list = labelled (text "3") ∷ labelled (text "1") ∷ [];
  indexes = pos 3 ∷ pos 1 ∷ [];
}

collect_indexes-host : collect_indexes host ≡ ok host_indexed
unfolding collect_indexes atoi lookup text str_eq
collect_indexes-host = refl

next_number-host : next_number host ≡ ok 2
unfolding next_number atoi lookup text str_eq
next_number-host = refl

next_number-bad_label :
    next_number (labelled (text "x") ∷ []) ≡ err (invalid_syntax (text "Atoi") (text "x"))
unfolding next_number atoi lookup text str_eq
next_number-bad_label = refl

-- Once a number is there twice, the search may return one that is taken.
pick-repeated : pick (sort_ints (pos 2 ∷ pos 1 ∷ pos 1 ∷ [])) 3 ≡ ok 2
unfolding pick sort_ints
pick-repeated = refl

next_number_total_example :
    (n : ℕ) × (next_number host ≡ ok n) × (1 ≤ n) × (n ≤ length host_indexed.cf_list + 1)
next_number_total_example = next_number_total host host_indexed collect_indexes-host

next_number-IsLeastFree_example :
    (n : ℕ) × (next_number host ≡ ok n)
    × IsLeastFree 1 n host_indexed.indexes
    × AreDistinct (pos n ∷ host_indexed.indexes)
next_number-IsLeastFree_example =
    next_number-IsLeastFree host host_indexed collect_indexes-host (omega arith)

-- A host with one container and no call under way.
abbrev quiet : World
quiet = record { pc = λ t. idle; create_mu = λ m. none; labels = pos 1 ∷ [] }

abbrev one_manager : ℕ → ℕ
one_manager t = 0

quiet-IsConsistent : IsConsistent one_manager quiet
quiet-IsConsistent = record {
  distinct = omega arith;
  owner = λ t busy. absurd (busy refl);
  fresh = λ t n p. absurd (cc);
}

abbrev after_lock : World
after_lock = record quiet {
  pc = Creation.update quiet.pc 7 Pc.locked;
  create_mu = Creation.update quiet.create_mu 0 (some 7);
}

Reach-after_lock : Reach one_manager quiet after_lock
Reach-after_lock = next here (lock 7 refl refl refl)

Reach-IsConsistent_example : IsConsistent one_manager after_lock
Reach-IsConsistent_example =
    Reach-IsConsistent one_manager (λ s t. refl) quiet after_lock quiet-IsConsistent
      Reach-after_lock

managers_collide_example : (u : World) × Reach (λ t. t) quiet u × ¬ (AreDistinct u.labels)
managers_collide_example = managers_collide (λ t. t) 0 1 (omega arith) quiet refl refl refl refl

next_number-PortsApart_example : (n : ℕ) × (next_number host ≡ ok n) × PortsApart n 3
next_number-PortsApart_example =
    next_number-PortsApart host host_indexed collect_indexes-host (omega arith) (omega arith) 3
      (omega arith) (omega arith) (omega arith)
