-- ===== src/Util/Calls.antt =====
-- pkg/util/util.go: the random strings call nothing but the clock and the random source.
use harvester_equinix_addon.Prelude.{ℕ, zero, suc}
use harvester_equinix_addon.Prelude.Int.{ℤ}
use harvester_equinix_addon.Services.{
  Services, Call, Only, OnlyFunc, pure-Only, or_crash-Only, bind-Only, invoke-Only, body-Only,
  run-Only,
}
use harvester_equinix_addon.Util.{
  letter_runes, rune_at, rand_loop, rand_string_runes, lower_rand_string_runes,
}

module _ {W : Type 0} (env : Services W) {P : Call → Type 0} (clock : P Call.now)
    (seed : (t : ℤ) → P (Call.rand_seed t)) (draw : (n : ℕ) → P (Call.rand_intn n)) where
  rand_loop-Only : {R : Type 0} (n : ℕ) → Only {R = R} P (rand_loop env n)
  unfolding rand_loop
  rand_loop-Only zero = pure-Only _
  rand_loop-Only (suc n) = bind-Only (invoke-Only env _ (draw 52)) λ i.
      bind-Only (or_crash-Only (rune_at letter_runes i))
        λ c. bind-Only (rand_loop-Only n) (λ rest. pure-Only _)

  pub rand_string_runes-Only : (n : ℕ) → OnlyFunc P (rand_string_runes env n)
  unfolding rand_string_runes
  rand_string_runes-Only n = body-Only (
      bind-Only (invoke-Only env Call.now clock)
        λ t. bind-Only (invoke-Only env (Call.rand_seed t) (seed t)) (λ _. rand_loop-Only n))

  pub lower_rand_string_runes-Only : (n : ℕ) → OnlyFunc P (lower_rand_string_runes env n)
  unfolding lower_rand_string_runes
  lower_rand_string_runes-Only n =
      body-Only (bind-Only (run-Only (rand_string_runes-Only n)) (λ s. pure-Only _))
