-- ===== src/StoreTest/Fixtures.antt =====
-- What the suite relies on: its clock, its registrations and its sessions.
use go_oid4vp.Base.{ℕ, ◌+◌, ◌≤◌, ◌<◌, ◌≡◌, Bool, true, ◌&&◌, ltb, some, [], ◌∷◌, arith, ℤ}
use go_oid4vp.Base.Bytes.{Bytes}
use go_oid4vp.Platform.{Platform}
use go_oid4vp.Session.{Session}
use go_oid4vp.Store.{Codec, mark_consumed}
use go_oid4vp.StoreTest.{hour, minute_ago, to_second, add_duration, fixture, registered}

-- From a minute after the epoch to an hour before the year 10000, as `time.Time.MarshalJSON` wants
-- the year, and as a time of this model is not before the epoch.
abbrev pub IsDated : ℕ → Type 0
IsDated t = (61_000_000_000 ≤ t) × (t + 3_600_000_000_000 < 253_402_300_800_000_000_000)

-- `encoding/json` keeps such texts as they are.
abbrev pub is_ascii : Bytes → Bool
is_ascii [] = true
is_ascii (b ∷ bs) = ltb b 128 && is_ascii bs

-- A clock that does not go backwards, and no reading of which is more than an hour less a second
-- after another, from a minute after the epoch to an hour before the year 10000.
pub record IsTimely (clock : ℕ → ℕ) : Type 0 where
  pub forwards : (i j : ℕ) → i ≤ j → clock i ≤ clock j
  pub dated : (i : ℕ) → IsDated (clock i)
  pub within : (i j : ℕ) → clock j + 1_000_000_000 ≤ clock i + 3_600_000_000_000

-- The registrations that the suite makes, and that its sessions, with ids and codes in ASCII, and the
-- two lifetimes it gives, can be stored.
pub record Fixtures {V : Platform} (c : Codec V) : Type 0 where
  pub regs : Bytes → V.Registration
  pub registers : (id : Bytes) → is_ascii id ≡ true → registered V id ≡ some (regs id)
  pub storable :
      (id : Bytes) (t : ℕ)
      → is_ascii id ≡ true
      → IsDated t
      → c.IsStorable (fixture V (regs id) id hour t)
        × c.IsStorable (fixture V (regs id) id minute_ago t)
  pub storable_with_code :
      (id : Bytes) (t : ℕ) (code : Bytes)
      → is_ascii id ≡ true
      → is_ascii code ≡ true
      → IsDated t
      → c.IsStorable
          (record (mark_consumed (fixture V (regs id) id hour t)) { response_code = code })

pub in_time :
    (clock : ℕ → ℕ) (i j : ℕ) → IsTimely clock → clock j < add_duration (to_second (clock i)) hour
in_time clock i j h = omega (arith, h.within i j)

pub too_late :
    (clock : ℕ → ℕ) (i j : ℕ)
    → IsTimely clock
    → i ≤ j
    → add_duration (to_second (clock i)) minute_ago ≤ clock j
too_late clock i j h le = omega (arith, h.forwards i j le)

module _ {V : Platform} (c : Codec V) (x : Fixtures c) where
  abbrev pub made : Bytes → ℤ → ℕ → Session V
  made id ttl t = fixture V (x.regs id) id ttl t
