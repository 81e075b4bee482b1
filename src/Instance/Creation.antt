-- ===== src/Instance/Creation.antt =====
-- vmm/vmm.go, the part of `VMCreate` under `createMu`: several calls at once, of one manager or of
-- several on one host, beside removals. Each call takes its manager's mutex, reads the assigned
-- numbers, creates its container and releases the mutex.
use mathlib.Core.Path.{subst}
use matrisea.Common.{
  ℕ, ◌≤◌, ◌≡◌, ◌≢◌, refl, sym, ap, Option, none, some, List, [], ◌∷◌, ◌++◌, ok, length, ◌==◌,
  ==_iff, if◌then◌else◌, arith,
}
use matrisea.Common.Int.{ℤ, pos, negsuc}
use matrisea.Instance.{sort_ints, pick}
use matrisea.Instance.Total.{pick_total, length-sort_ints}
use matrisea.Instance.Least.{count, AreDistinct, pick-sort_ints-IsLeastFree}

-- Where a call of `VMCreate` stands.
pub data Pc : Type 0 where
  idle locked done : Pc
  chosen : ℕ → Pc

-- The calls by number, the mutexes by manager, and the `cf_instance` labels on the host.
pub record World : Type 0 where
  pub pc : ℕ → Pc
  pub create_mu : ℕ → Option ℕ
  pub labels : List ℤ

abbrev pub update : {A : Type 0} → (ℕ → A) → ℕ → A → ℕ → A
update f t v k = if k == t then v else f k

module _ (manager : ℕ → ℕ) where
  pub data Step (w u : World) : Type 0 where
    -- `v.createMu.Lock()`
    lock :
        (t : ℕ)
        → w.pc t ≡ idle
        → w.create_mu (manager t) ≡ none
        → u ≡ record w {
          pc = update w.pc t locked;
          create_mu = update w.create_mu (manager t) (some t);
        }
        → Step w u
    -- `v.getNextCFInstanceNumber()`
    choose :
        (t n : ℕ)
        → w.pc t ≡ locked
        → pick (sort_ints w.labels) (length w.labels) ≡ ok n
        → u ≡ record w { pc = update w.pc t (chosen n) }
        → Step w u
    -- `v.Client.ContainerCreate(…)`
    create :
        (t n : ℕ)
        → w.pc t ≡ chosen n
        → u ≡ record w { pc = update w.pc t done; labels = pos n ∷ w.labels }
        → Step w u
    -- `defer v.createMu.Unlock()`, on success or on an error return
    unlock :
        (t : ℕ)
        → w.pc t ≢ idle
        → u ≡ record w { pc = update w.pc t idle; create_mu = update w.create_mu (manager t) none }
        → Step w u
    -- `VMRemove`, which does not take the mutex
    remove :
        (before : List ℤ) (a : ℤ) (after : List ℤ)
        → w.labels ≡ before ++ (a ∷ after)
        → u ≡ record w { labels = before ++ after }
        → Step w u

  pub data Reach (w : World) : World → Type 0 where
    here : Reach w w
    next : {u v : World} → Reach w u → Step u v → Reach w v

  -- The steps of one call under the mutex, and the one that ends the call.
  abbrev pub IsUnder : {w u : World} → Step w u → ℕ → Type 0
  IsUnder (lock s at free e) t = s ≡ t
  IsUnder (choose s n at found e) t = s ≡ t
  IsUnder (create s n at e) t = s ≡ t
  IsUnder (unlock s busy e) t = ⊥
  IsUnder (remove before a after at e) t = ⊥

  abbrev pub IsReturn : {w u : World} → Step w u → ℕ → Type 0
  IsReturn (unlock s busy e) t = s ≡ t
  IsReturn _ t = ⊥

  pub data Under (t : ℕ) (w : World) : World → Type 0 where
    begins : Under t w w
    goes_on : {u v : World} → Under t w u → (st : Step u v) → IsUnder st t → Under t w v

  -- One call from its beginning to its return, with no step of any other call and no removal. It can
  -- take the mutex, choose and create only once each, since only its return makes it idle again.
  pub data OneCall (t : ℕ) (w v : World) : Type 0 where
    returns : {u : World} → Under t w u → (st : Step u v) → IsReturn st t → OneCall t w v

  Under-Reach : (t : ℕ) (w u : World) → Under t w u → Reach w u
  Under-Reach t w u begins = here
  Under-Reach t w u (goes_on {u = x} r st own) = next (Under-Reach t w x r) st

  pub OneCall-Reach : (t : ℕ) (w v : World) → OneCall t w v → Reach w v
  OneCall-Reach t w v (returns {u = x} r st own) = next (Under-Reach t w x r) st

  pub record IsConsistent (w : World) : Type 0 where
    pub distinct : AreDistinct w.labels
    pub owner : (t : ℕ) → w.pc t ≢ idle → w.create_mu (manager t) ≡ some t
    pub fresh : (t n : ℕ) → w.pc t ≡ chosen n → (1 ≤ n) × (count (pos n) w.labels ≡ 0)

count-remove :
    (k : ℤ) (before : List ℤ) (a : ℤ) (after : List ℤ)
    → count k (before ++ (a ∷ after)) ≡ 0
    → count k (before ++ after) ≡ 0
count-remove k [] a after h = ground arith
count-remove k (b ∷ before) a after h = ground (arith, count-remove k before a after)

AreDistinct-remove :
    (before : List ℤ) (a : ℤ) (after : List ℤ)
    → AreDistinct (before ++ (a ∷ after))
    → AreDistinct (before ++ after)
AreDistinct-remove [] (pos a) after h = h.2
AreDistinct-remove [] (negsuc a) after h = absurd h
AreDistinct-remove (pos b ∷ before) a after h =
    (h.0, count-remove (pos b) before a after h.1, AreDistinct-remove before a after h.2)
AreDistinct-remove (negsuc b ∷ before) a after h = absurd h

-- What the search returns is positive and free.
pick-fresh :
    (l : List ℤ) (n : ℕ)
    → AreDistinct l
    → pick (sort_ints l) (length l) ≡ ok n
    → (1 ≤ n) × (count (pos n) l ≡ 0)
pick-fresh l n d e =
    let (m, e', lo, hi) = pick_total (sort_ints l) in
    (ground (arith, length-sort_ints l), (pick-sort_ints-IsLeastFree l n d e).free)

module _ (manager : ℕ → ℕ) (single : (s t : ℕ) → manager s ≡ manager t) where
  Step-IsConsistent :
      (w u : World) → Step manager w u → IsConsistent manager w → IsConsistent manager u
  Step-IsConsistent w u (lock t at unlocked e) c = subst (IsConsistent manager) (sym e) (record {
    distinct = c.distinct;
    owner = λ s busy. ground (arith, c.owner s, single s t, ==_iff s t);
    fresh = λ s n p. ground (arith, c.fresh s n);
  })
  Step-IsConsistent w u (choose t n at found e) c = subst (IsConsistent manager) (sym e) (record {
    distinct = c.distinct;
    owner = λ s busy. ground (arith, c.owner s, ==_iff s t, c.owner t);
    fresh =
        λ s m p. ground (arith, c.fresh s m, ==_iff s t, pick-fresh w.labels n c.distinct found);
  })
  Step-IsConsistent w u (create t n at e) c = subst (IsConsistent manager) (sym e) (record {
    distinct = ground (arith, c.fresh t n, c.distinct);
    owner = λ s busy. ground (arith, c.owner s, ==_iff s t);
    fresh = λ s m p. ground (arith, c.fresh s m, c.owner s, c.owner t, single s t);
  })
  Step-IsConsistent w u (unlock t busy e) c = subst (IsConsistent manager) (sym e) (record {
    distinct = c.distinct;
    owner = λ s b. ground (arith, c.owner s, c.owner t busy, single s t);
    fresh = λ s n p. ground (arith, c.fresh s n);
  })
  Step-IsConsistent w u (remove before a after at e) c =
      subst (IsConsistent manager) (sym e) (record {
        distinct = AreDistinct-remove before a after (rw at at c.distinct);
        owner = c.owner;
        fresh = λ s m p.
            let (lo, new) = c.fresh s m p in
            (lo, count-remove (pos m) before a after (rw at at new));
      })

  -- Over any interleaving of VMCreate calls of one manager with one another and with removals, from
  -- a consistent host, no two containers get the same cf_instance number: createMu is enough for
  -- one manager.
  pub Reach-IsConsistent :
      (w u : World) → IsConsistent manager w → Reach manager w u → IsConsistent manager u
  Reach-IsConsistent w u c r = go u r
    where
      go : (v : World) → Reach manager w v → IsConsistent manager v
      go v here = c
      go v (next {u = x} r st) = Step-IsConsistent x v st (go x r)

module _ (manager : ℕ → ℕ) where
  -- Two VMCreate calls of different managers, on a host where both can begin, can end with two
  -- containers of the same number: a mutex of each manager does not keep the numbers of the host
  -- apart.
  pub managers_collide :
      (s t : ℕ)
      → manager s ≢ manager t
      → (w : World) → w.pc s ≡ idle
      → w.pc t ≡ idle
      → w.create_mu (manager s) ≡ none
      → w.create_mu (manager t) ≡ none
      → (u : World) × Reach manager w u × ¬ (AreDistinct u.labels)
  managers_collide s t apart w is it us ut =
      let (n, found, lo, hi) = pick_total (sort_ints w.labels) in
      let found' : pick (sort_ints w.labels) (length w.labels) ≡ ok n =
        rw (← length-sort_ints w.labels) found in
      let w1 : World = record w {
        pc = update w.pc s locked;
        create_mu = update w.create_mu (manager s) (some s);
      } in
      let w2 : World = record w1 {
        pc = update w1.pc t locked;
        create_mu = update w1.create_mu (manager t) (some t);
      } in
      let w3 : World = record w2 { pc = update w2.pc s (chosen n) } in
      let w4 : World = record w3 { pc = update w3.pc t (chosen n) } in
      let w5 : World = record w4 { pc = update w4.pc s done; labels = pos n ∷ w.labels } in
      let w6 : World = record w5 { pc = update w5.pc t done; labels = pos n ∷ pos n ∷ w.labels } in
      let differ : s ≢ t = λ e. apart (ap manager e) in
      (
        w6,
        next
            (next
              (next
                (next
                  (next (next here (lock s is us refl)) (
                    lock t (ground (arith, ==_iff t s))
                      (ground (arith, ==_iff (manager t) (manager s))) refl))
                  (choose s n (ground (arith, ==_iff t s)) found' refl))
                (choose t n (ground (arith, ==_iff t s)) found' refl))
              (create s n (ground (arith, ==_iff t s)) refl))
            (create t n (ground (arith, ==_iff t s)) refl),
        λ d. ground arith,
      )
