-- ===== src/Scheduler/Status/Tests.antt =====
-- A channel on the blacklist that comes back.
use galaxy_router.Base.{
  ℕ, ◌+◌, ◌-◌, ◌*◌, ◌/◌, ◌^◌, ◌≡◌, true, false, some, [], ◌∷◌, arith, ltb, leb, ◌==◌, text,
}
use galaxy_router.Base.Float.{Floats}
use galaxy_router.Scheduler.Status.{ChannelStatus, Clock, minutes, is_available, new}
use galaxy_router.Scheduler.Status.Recovery.{succeed_all, succeed_all-is_available}

-- Thousandths, cut at 0, in the place of f64.
abbrev fixed : Floats
fixed = record {
  F = ℕ;
  of_nat = λ n. n * 1000;
  lit = λ n k. n * 1000 / 10 ^ k;
  add = λ a b. a + b;
  sub = λ a b. a - b;
  mul = λ a b. a * b / 1000;
  div = λ a b. a * 1000 / b;
  flt = λ a b. ltb a b;
  fle = λ a b. leb a b;
  feq = λ a b. a == b;
  is_nan = λ a. false;
}

abbrev at : ℕ → Clock
at m = record { utc = minutes m; instant = minutes m }

-- Three failures in the first minutes, and shut out for ten.
abbrev shut : ChannelStatus ℕ
shut = record (new fixed (text "ch-a") (at 0)) {
  failure_count = 3;
  last_failure = some (minutes 2);
  is_blacklisted = true;
  blacklist_until = some (minutes 12);
}

succeed_all-is_available_example :
    let s = succeed_all fixed shut 1000 (at 3 ∷ at 4 ∷ []) in
    (s.failure_count ≡ 0) × (is_available s (minutes 5) ≡ true)
unfolding new
succeed_all-is_available_example =
    succeed_all-is_available fixed shut 1000 (at 3) (at 4 ∷ []) (minutes 5) (omega arith)
