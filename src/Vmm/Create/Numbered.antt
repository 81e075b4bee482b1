-- ===== src/Vmm/Create/Numbered.antt =====
-- The labels of a new container are read back as the number it was created with.
use matrisea.Common.{ℕ, ◌<◌, Str, text, str_eq, ◌≡◌, refl, ap, some, List, ◌∷◌, ok, length, arith}
use matrisea.Common.Int.{ℤ, pos}
use matrisea.Go.Strconv.{itoa, atoi, max_int64}
use matrisea.Go.Strconv.RoundTrip.{atoi-itoa}
use matrisea.Docker.{Container, lookup}
use matrisea.Instance.{Indexed, cf_label, collect_indexes, next_number}
use matrisea.Instance.Total.{next_number_total}
use matrisea.Instance.Least.{AreDistinct, next_number-IsLeastFree}
use matrisea.Vmm.Create.{create_config}

pub cf_label-create_config :
    (c : Container) (name dir : Str) (n : ℕ) (websockify adb : Str)
    → c.labels ≡ (create_config name dir n websockify adb).labels
    → cf_label c ≡ some (itoa (pos n))
unfolding create_config lookup text str_eq
cf_label-create_config c name dir n websockify adb h = ap (lookup (text "cf_instance")) h

pub collect_indexes-labelled :
    (c : Container) (value : Str) (i : ℤ) (cs : List Container) (f : Indexed)
    → cf_label c ≡ some value
    → atoi value ≡ ok i
    → collect_indexes cs ≡ ok f
    → collect_indexes (c ∷ cs) ≡ ok (record { cf_list = c ∷ f.cf_list; indexes = i ∷ f.indexes })
unfolding collect_indexes
collect_indexes-labelled c value i cs f labelled number h =
    rw (labelled, collect_indexes) (rw number (rw h refl))

-- On a host with fewer cuttlefish containers than the largest int and distinct numbers, the number
-- that getNextCFInstanceNumber returns is read back by it from a container that has the labels
-- VMCreate writes for that number, and the numbers of all containers are distinct again.
pub create_config-AreDistinct :
    (cs : List Container) (f : Indexed)
    → collect_indexes cs ≡ ok f
    → AreDistinct f.indexes
    → length f.cf_list < max_int64
    → (c : Container) (name dir websockify adb : Str) (n : ℕ) → next_number cs ≡ ok n
    → c.labels ≡ (create_config name dir n websockify adb).labels
    → (g : Indexed) × (collect_indexes (c ∷ cs) ≡ ok g)
      × (g.indexes ≡ pos n ∷ f.indexes)
      × AreDistinct g.indexes
create_config-AreDistinct cs f h d few c name dir websockify adb n chosen labels =
    let (k, e, lo, hi) = next_number_total cs f h in
    let (m, e', least, apart) = next_number-IsLeastFree cs f h d in
    let same : k ≡ n = ground arith in
    let number : atoi (itoa (pos n)) ≡ ok (pos n) = atoi-itoa (pos n) (omega arith, omega arith) in
    (
      record { cf_list = c ∷ f.cf_list; indexes = pos n ∷ f.indexes },
      collect_indexes-labelled c (itoa (pos n)) (pos n) cs f
          (cf_label-create_config c name dir n websockify adb labels) number h,
      refl,
      ground arith,
    )
