-- ===== src/Instance/Ports.antt =====
-- vmm/vmm.go, `VMCreate` and the two daemons: the ports derived from an instance's number, each
-- written `base + cfInstance - 1` in the source, with `cfInstance >= 1`.
use matrisea.Common.{ℕ, ◌+◌, ◌-◌, ◌≤◌, ◌<◌, ◌≡◌, ◌≢◌, ◌∙◌, ap, List, ok, length, arith}
use matrisea.Common.Int.{pos}
use matrisea.Docker.{Container}
use matrisea.Instance.{Indexed, collect_indexes, next_number}
use matrisea.Instance.Total.{next_number_total}
use matrisea.Instance.Least.{count, AreDistinct, next_number-IsLeastFree}

abbrev pub websockify_port : ℕ → ℕ
websockify_port cf_instance = 6080 + cf_instance - 1

abbrev pub adb_port : ℕ → ℕ
adb_port cf_instance = 6520 + cf_instance - 1

-- No two of the ports of an instance `a` and of another `b` are one, nor the two of `a`.
abbrev pub PortsApart : ℕ → ℕ → Type 0
PortsApart a b =
    (websockify_port a ≢ websockify_port b)
    × (adb_port a ≢ adb_port b)
    × (websockify_port a ≢ adb_port b)
    × (adb_port a ≢ websockify_port b)
    × (websockify_port a ≢ adb_port a)

-- Two instances with different numbers up to 440.
PortsApart-of_differ : (a b : ℕ) → 1 ≤ a → a ≤ 440 → 1 ≤ b → b ≤ 440 → a ≢ b → PortsApart a b
PortsApart-of_differ a b la ha lb hb differ = omega arith

-- The instance 440 numbers on takes for its websockify port the adb port of the first.
pub ports_meet : (a : ℕ) → 1 ≤ a → websockify_port (a + 440) ≡ adb_port a
ports_meet a h = omega arith

-- On a host with fewer than 440 cuttlefish containers of distinct numbers, the websockify and adb
-- ports of a new instance differ from one another and from those of every instance whose number is
-- from 1 to 440.
pub next_number-PortsApart :
    (cs : List Container) (f : Indexed)
    → collect_indexes cs ≡ ok f
    → AreDistinct f.indexes
    → length f.cf_list < 440
    → (a : ℕ) → 1 ≤ count (pos a) f.indexes
    → 1 ≤ a
    → a ≤ 440
    → (n : ℕ) × (next_number cs ≡ ok n) × PortsApart n a
next_number-PortsApart cs f h d few a there la ha =
    let (n, e, lo, hi) = next_number_total cs f h in
    let (m, e', least, _) = next_number-IsLeastFree cs f h d in
    let same : m ≡ n = ground arith in
    (
      n,
      e,
      PortsApart-of_differ n a lo (omega arith) la ha
          (λ q. omega (arith, ap (λ (k : ℕ). count (pos k) f.indexes) (same ∙ q), least.free)),
    )
